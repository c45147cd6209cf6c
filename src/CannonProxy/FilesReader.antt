-- ===== src/CannonProxy/FilesReader.antt =====
-- cannon_proxy/src/model_files_reader.cpp: the lines of several files, read in blocks. What a file
-- holds is a parameter. A `count` below 0, for which `get_lines` returns nothing, is left out.
pub mod Rounds
pub mod Blocks
use cpp_project.Prelude.{
  ℕ, zero, suc, Bool, true, false, ◌&&◌, not, List, [], ◌∷◌, ◌++◌, length, Option, none, some, ltb,
  if◌then◌else◌,
}
use cpp_project.Run.{Run, ok, fault, diverges, ◌>>=◌}

abbrev pub Line : Type 0
Line = List ℕ

-- The lines that a stream still gives, and whether the last one ends with a newline.
pub record Stream : Type 0 where
  pub lines : List Line
  pub ends : Bool

-- `_files` from `_cur_file` on, and `_ifs` where it is open.
pub record Reader : Type 0 where
  pub files : List Line
  pub ifs : Option Stream

unfoldable pub push_line : List Line → Line → List Line
push_line ret line = if ltb 0 (length line) then ret ++ line ∷ [] else ret

-- What the loop over `getline` leaves: `ret`, the lines of the stream, and whether it is good. The
-- stream is not, after a `getline` that found nothing, or that found a line without a newline.
pub record Taken : Type 0 where
  pub ret : List Line
  pub lines : List Line
  pub good : Bool

unfoldable pub take_lines : ℕ → Bool → List Line → List Line → Taken
unfolding push_line
take_lines count ends ret [] = record { ret = ret; lines = []; good = not (ltb (length ret) count) }
take_lines count ends ret (line ∷ []) =
    if ltb (length ret) count
    then (elim ends [
      | false ↦ record { ret = push_line ret line; lines = []; good = false }
      | true ↦ take_lines count true (push_line ret line) []
    ])
    else record { ret = ret; lines = line ∷ []; good = true }
take_lines count ends ret (line ∷ next ∷ lines) =
    let more = take_lines count ends (push_line ret line) (next ∷ lines) in
    if ltb (length ret) count
    then more
    else record { ret = ret; lines = line ∷ next ∷ lines; good = true }

-- `open` gives the stream of a file, or none where it cannot be opened.
module _ (open_file : Line → Option Stream) where
  unfoldable pub open_next : List Line → Reader × Bool
  open_next [] = (record { files = []; ifs = none }, false)
  open_next (file ∷ files) = elim (open_file file) [
    | none ↦ open_next files
    | some s ↦ (record { files = file ∷ files; ifs = some s }, true)
  ]

  unfoldable pub open_file_if_needed : Reader → Reader × Bool
  unfolding open_next
  open_file_if_needed r = elim r.ifs [ some s ↦ (r, true) | none ↦ open_next r.files ]

  abbrev pub rest_of : List Line → List Line
  rest_of [] = []
  rest_of (file ∷ files) = files

  -- The body of the loop, on the open stream.
  unfoldable pub read_open : ℕ → Reader → Stream → List Line → Reader × List Line
  unfolding take_lines
  read_open count r s ret =
      let taken = take_lines count s.ends ret s.lines in
      if taken.good
      then (
        record { files = r.files; ifs = some (record { lines = taken.lines; ends = s.ends }) },
        taken.ret,
      )
      else (record { files = rest_of r.files; ifs = none }, taken.ret)

  unfoldable pub get_loop : ℕ → ℕ → Reader → List Line → Run (Reader × List Line)
  unfolding open_file_if_needed read_open
  get_loop zero count r ret = fault diverges
  get_loop (suc fuel) count r ret =
      let opened = open_file_if_needed r in
      if opened.1 && ltb (length ret) count
      then (elim opened.0.ifs [
        | none ↦ ok (opened.0, ret)
        | some s ↦ let next = read_open count opened.0 s ret in get_loop fuel count next.0 next.1
      ])
      else ok (opened.0, ret)

  -- Each round ends the loop, or fills the block, or closes a file.
  unfoldable pub get_lines : ℕ → Reader → Run (Reader × List Line)
  unfolding get_loop
  get_lines count r = get_loop (suc (suc (length r.files))) count r []
