-- ===== src/CannonProxy/FilesReader/Rounds.antt =====
-- What one round of `get_lines` in cannon_proxy/src/model_files_reader.cpp takes from the files.
use cpp_project.Prelude.{
  ℕ, suc, ◌≤◌, ◌≡◌, ◌⊎◌, inl, inr, refl, sym, ap, ◌∙◌, Bool, true, false, List, [], ◌∷◌, ◌++◌,
  append_assoc, length, length-append, Option, none, some, ltb, ltb→lt, Bool-cases, Option-cases,
  if◌then◌else◌, arith,
}
use cpp_project.CannonProxy.FilesReader.{
  Line, Stream, Reader, push_line, Taken, take_lines, open_next, open_file_if_needed, rest_of,
  read_open,
}

-- The lines that are not empty.
abbrev pub kept : List Line → List Line
kept [] = []
kept (line ∷ lines) = if ltb 0 (length line) then line ∷ kept lines else kept lines

push-kept :
    (ret : List Line) (line : Line) (lines : List Line)
    → push_line ret line ++ kept lines ≡ ret ++ kept (line ∷ lines)
unfolding push_line
push-kept ret line lines = elim (Bool-cases (ltb 0 (length line))) [
  | inl some_there ↦ rw some_there (append_assoc ret (line ∷ []) (kept lines))
  | inr empty ↦ rw empty refl
]

push-length : (ret : List Line) (line : Line) → length (push_line ret line) ≤ suc (length ret)
unfolding push_line
push-length ret line = elim (Bool-cases (ltb 0 (length line))) [
  | inl some_there ↦ rw some_there (omega (arith, length-append ret (line ∷ [])))
  | inr empty ↦ rw empty (omega arith)
]

-- What was taken comes before what is left; a stream that is good was left because the block is
-- full, and one that is not has nothing left.
pub record IsTaken (count : ℕ) (ret lines : List Line) (t : Taken) : Type 0 where
  pub order : t.ret ++ kept t.lines ≡ ret ++ kept lines
  pub bounded : length ret ≤ count → length t.ret ≤ count
  pub filled : (t.good ≡ true) → count ≤ length t.ret
  pub finished : (t.good ≡ false) → t.lines ≡ []

stopped :
    (count : ℕ) (ret lines : List Line)
    → ltb (length ret) count ≡ false
    → IsTaken count ret lines (record { ret = ret; lines = lines; good = true })
stopped count ret lines full = record {
  order = refl;
  bounded = λ h. h;
  filled = λ good. ground (arith, full);
  finished = λ bad. absurd cc;
}

at_end :
    (count : ℕ) (ret : List Line)
    → IsTaken count ret [] (record { ret = ret; lines = []; good = false })
at_end count ret = record {
  order = refl;
  bounded = λ h. h;
  filled = λ good. absurd cc;
  finished = λ bad. refl;
}

pushed :
    (count : ℕ) (ret : List Line) (line : Line) (lines : List Line) (t : Taken)
    → ltb (length ret) count ≡ true
    → IsTaken count (push_line ret line) lines t
    → IsTaken count ret (line ∷ lines) t
pushed count ret line lines t room is = record {
  order = is.order ∙ push-kept ret line lines;
  bounded = λ h. is.bounded (omega (arith, push-length ret line, ltb→lt (length ret) count room));
  filled = is.filled;
  finished = is.finished;
}

take_lines-IsTaken :
    (count : ℕ) (ends : Bool) (ret lines : List Line)
    → IsTaken count ret lines (take_lines count ends ret lines)
unfolding take_lines
take_lines-IsTaken count ends ret [] = elim (Bool-cases (ltb (length ret) count)) [
  | inl room ↦ rw room (at_end count ret)
  | inr full ↦ rw full (stopped count ret [] full)
]
take_lines-IsTaken count false ret (line ∷ []) = elim (Bool-cases (ltb (length ret) count)) [
  | inl room ↦ rw room (pushed count ret line [] _ room (at_end count (push_line ret line)))
  | inr full ↦ rw full (stopped count ret (line ∷ []) full)
]
take_lines-IsTaken count true ret (line ∷ []) = elim (Bool-cases (ltb (length ret) count)) [
  | inl room ↦
      rw room
        (pushed count ret line [] _ room (take_lines-IsTaken count true (push_line ret line) []))
  | inr full ↦ rw full (stopped count ret (line ∷ []) full)
]
take_lines-IsTaken count ends ret (line ∷ next ∷ lines) =
    elim (Bool-cases (ltb (length ret) count)) [
      | inl room ↦ rw room (
          pushed count ret line (next ∷ lines) _ room
            (take_lines-IsTaken count ends (push_line ret line) (next ∷ lines)))
      | inr full ↦ rw full (stopped count ret (line ∷ next ∷ lines) full)
    ]

module _ (open_file : Line → Option Stream) where
  -- The lines of the files that can be opened.
  abbrev pub lines_in : Option Stream → List Line
  lines_in none = []
  lines_in (some s) = kept s.lines

  abbrev pub all_lines : List Line → List Line
  all_lines [] = []
  all_lines (file ∷ files) = lines_in (open_file file) ++ all_lines files

  -- What a reader has still to give.
  abbrev pub pending_in : List Line → Option Stream → List Line
  pending_in files none = all_lines files
  pending_in files (some s) = kept s.lines ++ all_lines (rest_of open_file files)

  abbrev pub pending : Reader → List Line
  pending r = pending_in r.files r.ifs

  -- How many rounds the files need.
  abbrev pub rounds_in : List Line → Option Stream → ℕ
  rounds_in files none = length files
  rounds_in files (some s) = suc (length (rest_of open_file files))

  abbrev pub rounds : Reader → ℕ
  rounds r = rounds_in r.files r.ifs

  pub rounds-le :
      (files : List Line) (ifs : Option Stream) → rounds_in files ifs ≤ suc (length files)
  rounds-le files none = omega arith
  rounds-le [] (some s) = omega arith
  rounds-le (file ∷ files) (some s) = omega arith

  -- A stream is open now, or nothing is left; what is left is the same.
  pub record IsOpened (r : Reader) (x : Reader × Bool) : Type 0 where
    pub same : pending x.0 ≡ pending r
    pub shorter : rounds x.0 ≤ rounds r
    pub is_open : (x.1 ≡ true) → (s : Stream) × (x.0.ifs ≡ some s)
    pub none_left : (x.1 ≡ false) → pending r ≡ []

  pub open_next-IsOpened :
      (files : List Line)
      → IsOpened (record { files = files; ifs = none }) (open_next open_file files)
  unfolding open_next
  open_next-IsOpened [] = record {
    same = refl;
    shorter = omega arith;
    is_open = λ good. absurd cc;
    none_left = λ bad. refl;
  }
  open_next-IsOpened (file ∷ files) = elim (Option-cases (open_file file)) [
    | inl shut ↦
        let is = open_next-IsOpened files in
        let skipped = sym (ap (λ o. lines_in o ++ all_lines files) shut) in
        rw (open_next, shut)
          (record {
            same = is.same ∙ skipped;
            shorter = omega (arith, is.shorter);
            is_open = is.is_open;
            none_left = λ bad. sym skipped ∙ is.none_left bad;
          })
    | inr (s, opened) ↦
        rw (open_next, opened)
          (record {
            same = sym (ap (λ o. lines_in o ++ all_lines files) opened);
            shorter = omega arith;
            is_open = λ good. (s, refl);
            none_left = λ bad. absurd cc;
          })
  ]

  pub open_file_if_needed-IsOpened : (r : Reader) → IsOpened r (open_file_if_needed open_file r)
  unfolding open_file_if_needed
  open_file_if_needed-IsOpened r = elim (Option-cases r.ifs) [
    | inl shut ↦ rw (open_file_if_needed, shut) (open_next-IsOpened r.files)
    | inr (s, opened) ↦
        rw (open_file_if_needed, opened)
          (record {
            same = ap (pending_in r.files) opened;
            shorter = omega (arith, ap (rounds_in r.files) opened);
            is_open = λ good. (s, opened);
            none_left = λ bad. absurd cc;
          })
  ]

  -- A round on the open stream: it fills the block, or closes the file.
  pub record IsRead (count : ℕ) (r : Reader) (s : Stream) (ret : List Line) (x : Reader × List Line)
      : Type 0 where
    pub order : x.1 ++ pending x.0 ≡ ret ++ (kept s.lines ++ all_lines (rest_of open_file r.files))
    pub bounded : length ret ≤ count → length x.1 ≤ count
    pub ends : (count ≤ length x.1) ⊎ (rounds x.0 ≡ length (rest_of open_file r.files))

  pub read_open-IsRead :
      (count : ℕ) (r : Reader) (s : Stream) (ret : List Line)
      → IsRead count r s ret (read_open open_file count r s ret)
  unfolding read_open
  read_open-IsRead count r s ret =
      let is = take_lines-IsTaken count s.ends ret s.lines in
      let t = take_lines count s.ends ret s.lines in
      let regroup =
        sym (append_assoc t.ret (kept t.lines) (all_lines (rest_of open_file r.files)))
        ∙ (ap (λ l. l ++ all_lines (rest_of open_file r.files)) is.order
            ∙ append_assoc ret (kept s.lines) (all_lines (rest_of open_file r.files))) in
      elim (Bool-cases t.good) [
        | inl good ↦
            rw good (record { order = regroup; bounded = is.bounded; ends = inl (is.filled good) })
        | inr bad ↦ rw bad (record {
          order =
              ap (λ l. t.ret ++ (kept l ++ all_lines (rest_of open_file r.files)))
                (sym (is.finished bad))
              ∙ regroup;
          bounded = is.bounded;
          ends = inr refl;
        })
      ]
