-- ===== src/CannonProxy/FilesReader/Blocks.antt =====
-- The blocks of cannon_proxy/src/model_files_reader.cpp are the lines of the files, in order.
use cpp_project.Prelude.{
  ℕ, zero, suc, ◌≤◌, ◌≡◌, ◌⊎◌, inl, inr, refl, sym, ap, ◌∙◌, Bool, true, false, List, [], ◌++◌,
  length, Option, some, ltb, le→ltb, lt→ltb, Bool-cases, lt-or_le, arith,
}
use cpp_project.Run.{ok}
use cpp_project.CannonProxy.FilesReader.{
  Line, Stream, Reader, open_file_if_needed, rest_of, read_open, get_loop, get_lines,
}
use cpp_project.CannonProxy.FilesReader.Rounds.{
  pending_in, pending, rounds_in, rounds, rounds-le, IsOpened, open_file_if_needed-IsOpened, IsRead,
  read_open-IsRead,
}

module _ (open_file : Line → Option Stream) where
  -- A block that a loop gives, where the lines left before it were `left`.
  pub record IsBlock (count : ℕ) (ret left : List Line) (x : Reader × List Line) : Type 0 where
    pub order : x.1 ++ pending open_file x.0 ≡ ret ++ left
    pub bounded : length ret ≤ count → length x.1 ≤ count
    pub full : (count ≤ length x.1) ⊎ (pending open_file x.0 ≡ [])

  get_loop-full :
      (fuel count : ℕ) (r : Reader) (ret : List Line)
      → count ≤ length ret
      → (x : Reader × List Line) × (get_loop open_file (suc fuel) count r ret ≡ ok x)
        × IsBlock count ret (pending open_file r) x
  unfolding get_loop
  get_loop-full fuel count r ret enough =
      let is = open_file_if_needed-IsOpened open_file r in
      let x = open_file_if_needed open_file r in
      let stop : ltb (length ret) count ≡ false = le→ltb (length ret) count enough in
      elim (Bool-cases x.1) [
        | inl good ↦ (
          (x.0, ret),
          rw (good, stop) refl,
          record { order = ap (λ l. ret ++ l) is.same; bounded = λ h. h; full = inl enough },
        )
        | inr bad ↦ (
          (x.0, ret),
          rw bad refl,
          record { order = ap (λ l. ret ++ l) is.same; bounded = λ h. h; full = inl enough },
        )
      ]

  IsBlock-step :
      (count : ℕ) (r : Reader) (x : Reader × Bool) (s : Stream) (ret : List Line)
      (y z : Reader × List Line)
      → length ret ≤ count
      → IsOpened open_file r x
      → x.0.ifs ≡ some s
      → IsRead open_file count x.0 s ret y
      → IsBlock count y.1 (pending open_file y.0) z
      → IsBlock count ret (pending open_file r) z
  IsBlock-step count r x s ret y z room is opened step block = record {
    order =
        block.order
        ∙ (step.order
            ∙ ap (λ l. ret ++ l) (ap (pending_in open_file x.0.files) (sym opened) ∙ is.same));
    bounded = λ h. block.bounded (step.bounded h);
    full = block.full;
  }

  get_loop-step :
      (fuel count : ℕ) (r : Reader) (ret : List Line) (s : Stream)
      → (open_file_if_needed open_file r).1 ≡ true
      → (open_file_if_needed open_file r).0.ifs ≡ some s
      → ltb (length ret) count ≡ true
      → get_loop open_file (suc fuel) count r ret
        ≡ get_loop open_file fuel count
            (read_open open_file count (open_file_if_needed open_file r).0 s ret).0
            (read_open open_file count (open_file_if_needed open_file r).0 s ret).1
  unfolding get_loop
  get_loop-step fuel count r ret s good opened room = rw (get_loop, good, room, opened) refl

  get_loop-shut :
      (fuel count : ℕ) (r : Reader) (ret : List Line)
      → (open_file_if_needed open_file r).1 ≡ false
      → (x : Reader × List Line) × (get_loop open_file (suc fuel) count r ret ≡ ok x)
        × IsBlock count ret (pending open_file r) x
  unfolding get_loop
  get_loop-shut fuel count r ret bad =
      let is = open_file_if_needed-IsOpened open_file r in
      (
        ((open_file_if_needed open_file r).0, ret),
        rw bad refl,
        record {
          order = ap (λ l. ret ++ l) is.same;
          bounded = λ h. h;
          full = inr (is.same ∙ is.none_left bad);
        },
      )

  rounds-left :
      (r : Reader) (x : Reader × Bool) (s : Stream)
      → IsOpened open_file r x
      → x.0.ifs ≡ some s
      → suc (length (rest_of open_file x.0.files)) ≤ rounds open_file r
  rounds-left r x s is opened = omega (arith, is.shorter, ap (rounds_in open_file x.0.files) opened)

  -- A loop with rounds enough, from a round that read.
  after_read :
      (fuel count : ℕ) (y : Reader × List Line) (left : ℕ)
      → ((r : Reader) (ret : List Line)
          → rounds open_file r ≤ fuel
          → (x : Reader × List Line) × (get_loop open_file (suc fuel) count r ret ≡ ok x)
            × IsBlock count ret (pending open_file r) x)
      → left ≤ fuel
      → (count ≤ length y.1) ⊎ (rounds open_file y.0 ≡ left)
      → (x : Reader × List Line) × (get_loop open_file (suc fuel) count y.0 y.1 ≡ ok x)
        × IsBlock count y.1 (pending open_file y.0) x
  after_read fuel count y left ends enough (inl filled) = get_loop-full fuel count y.0 y.1 filled
  after_read fuel count y left ends enough (inr closed) = ends y.0 y.1 (omega arith)

  get_loop-IsBlock :
      (fuel count : ℕ) (r : Reader) (ret : List Line)
      → rounds open_file r ≤ fuel
      → (x : Reader × List Line) × (get_loop open_file (suc fuel) count r ret ≡ ok x)
        × IsBlock count ret (pending open_file r) x
  get_loop-IsBlock zero count r ret enough = elim (Bool-cases (open_file_if_needed open_file r).1) [
    | inr bad ↦ get_loop-shut zero count r ret bad
    | inl good ↦
        let is = open_file_if_needed-IsOpened open_file r in
        let (s, opened) = is.is_open good in
        absurd (omega (arith, rounds-left r (open_file_if_needed open_file r) s is opened))
  ]
  get_loop-IsBlock (suc fuel) count r ret enough = elim (lt-or_le (length ret) count) [
    | inr full ↦ get_loop-full (suc fuel) count r ret full
    | inl room ↦ elim (Bool-cases (open_file_if_needed open_file r).1) [
      | inr bad ↦ get_loop-shut (suc fuel) count r ret bad
      | inl good ↦
          let is = open_file_if_needed-IsOpened open_file r in
          let x = open_file_if_needed open_file r in
          let (s, opened) = is.is_open good in
          let step = read_open-IsRead open_file count x.0 s ret in
          let y = read_open open_file count x.0 s ret in
          let (z, run, block) =
            after_read fuel count y (length (rest_of open_file x.0.files))
              (get_loop-IsBlock fuel count) (omega (arith, rounds-left r x s is opened))
              step.ends in
          (
            z,
            get_loop-step (suc fuel) count r ret s good opened (lt→ltb (length ret) count room)
                ∙ run,
            IsBlock-step count r x s ret y z (omega arith) is opened step block,
          )
    ]
  ]

  -- A block of at most `count` lines ends without a fault. It is the first of the lines that are left
  -- in the files that can be opened, in order and without the empty ones, and the others stay left;
  -- it has `count` lines, or nothing is left.
  pub get_lines-pending :
      (count : ℕ) (r : Reader)
      → (r' : Reader) × (ret : List Line) × (get_lines open_file count r ≡ ok (r', ret))
        × (ret ++ pending open_file r' ≡ pending open_file r)
        × (length ret ≤ count)
        × ((length ret ≡ count) ⊎ (pending open_file r' ≡ []))
  unfolding get_lines
  get_lines-pending count r =
      let (x, run, block) =
        get_loop-IsBlock (suc (length r.files)) count r [] (rounds-le open_file r.files r.ifs) in
      (
        x.0,
        x.1,
        run,
        block.order,
        block.bounded (omega arith),
        elim block.full [
          | inl full ↦ inl (omega (arith, block.bounded (omega arith)))
          | inr none_left ↦ inr none_left
        ],
      )
