-- ===== src/LrSgd/Outcome.antt =====
-- The training from the file on.
use mathlib.Core.Path.{subst}
use cpp_project.Prelude.{
  ℕ, ◌-◌, ◌*◌, ◌^◌, ◌<◌, ◌≡◌, refl, ap, ℤ, Bool, true, false, List, [], ◌∷◌, length, Option, none,
  some, ltb, if◌then◌else◌, arith,
}
use cpp_project.Run.{Run, ok, fault, out_of_bounds, ◌>>=◌, IsOk}
use cpp_project.LrSgd.Lines.{
  Numerals, or_throw, split, features, parse_elems, parse_line, parse_lines, get_training_data,
}
use cpp_project.LrSgd.Updates.{Doubles, Settings, Random}
use cpp_project.LrSgd.Train.{Training, train}
use cpp_project.LrSgd.Batches.{IsInstance, AreInstances, AllHaveZero, NoneHasZero}
use cpp_project.LrSgd.Signs.{NonNegative, train-signs}
use cpp_project.LrSgd.Places.{Shuffles}
use cpp_project.LrSgd.Ends.{train_on-IsOk}
use cpp_project.LrSgd.Faults.{train_on-fault}

-- A run that ends goes through both of its parts.
bind_inv {ℓ κ} :
    {A : Type ℓ} {B : Type κ} (r : Run A) (f : A → Run B) (b : B)
    → (r >>= f) ≡ ok b
    → (a : A) × (r ≡ ok a) × (f a ≡ ok b)
bind_inv (ok a) f b e = (a, refl, e)
bind_inv (fault x) f b e = cc

ok_inj {ℓ} : {A : Type ℓ} (a b : A) → ok a ≡ ok b → a ≡ b
ok_inj a b e = cc

module _ {R : Type 0} (numerals : Numerals R) where
  parse_elems-IsInstance :
      (elems : List (List ℕ)) (data_ins : List (ℤ × R))
      → parse_elems numerals elems ≡ ok data_ins
      → ltb 1 (length data_ins) ≡ true
      → IsInstance data_ins
  unfolding parse_elems
  parse_elems-IsInstance [] data_ins e long =
      absurd (ground (arith, ap length (ok_inj [] data_ins e)))
  parse_elems-IsInstance (front ∷ elems) data_ins e long =
      let (label, run, e₁) = bind_inv (or_throw (numerals.stoi front)) _ data_ins e in
      let (res, run', e₂) = bind_inv (features numerals elems) _ data_ins e₁ in
      subst IsInstance (ok_inj _ data_ins e₂) refl

  kept_instances :
      (b : Bool) (data_ins : List (ℤ × R)) (rest instances : List (List (ℤ × R)))
      → (if b then data_ins ∷ rest else rest) ≡ instances
      → (b ≡ true → IsInstance data_ins)
      → AreInstances rest
      → AreInstances instances
  kept_instances true data_ins rest instances e here more = subst AreInstances e (here refl, more)
  kept_instances false data_ins rest instances e here more = subst AreInstances e more

  parse_lines-AreInstances :
      (lines : List (List ℕ)) (instances : List (List (ℤ × R)))
      → parse_lines numerals lines ≡ ok instances
      → AreInstances instances
  unfolding parse_lines parse_line
  parse_lines-AreInstances [] instances e = subst AreInstances (ok_inj [] instances e) tt
  parse_lines-AreInstances (line ∷ lines) instances e =
      let (data_ins, run, e₁) = bind_inv (parse_line numerals line) _ instances e in
      let (elems, cut, parsed) = bind_inv (split 32 line) _ data_ins run in
      let (rest, run', e₂) = bind_inv (parse_lines numerals lines) _ instances e₁ in
      let more = parse_lines-AreInstances lines rest run' in
      kept_instances (ltb 1 (length data_ins)) data_ins rest instances (ok_inj _ instances e₂)
        (parse_elems-IsInstance elems data_ins parsed) more

  -- The instances that are read begin with a label.
  get_training_data-AreInstances :
      (in_data_file : Option (List ℕ)) (instances : List (List (ℤ × R)))
      → get_training_data numerals in_data_file ≡ ok instances
      → AreInstances instances
  unfolding get_training_data
  get_training_data-AreInstances none instances e = subst AreInstances (ok_inj [] instances e) tt
  get_training_data-AreInstances (some text) instances e =
      let (lines, cut, e₁) = bind_inv (split 10 text) _ instances e in
      parse_lines-AreInstances lines instances e₁

  module _ {G : Type 0} (doubles : Doubles R) (settings : Settings R) (random : Random R G)
      (shuffles : Shuffles doubles settings random) (in_data_file : Option (List ℕ))
      (instances : List (List (ℤ × R)))
      (reads : get_training_data numerals in_data_file ≡ ok instances) (g : G) where
    labelled : AreInstances instances
    labelled = get_training_data-AreInstances in_data_file instances reads

    -- If the file is read, every instance that it has has a feature of the index 0, the batch size is
    -- not 0, a shuffle only moves places about and there are fewer than 2 ^ 31 - 1 instances in all
    -- iterations, which an `int` can count, the training ends without a fault.
    pub train-IsOk :
        AllHaveZero instances
        → 0 < settings.mini_batch_size
        → settings.max_iteration_num * length instances < 2 ^ 31 - 1
        → IsOk (train doubles settings random numerals in_data_file g)
    unfolding train
    train-IsOk zeros positive small =
        rw (reads, ◌>>=◌)
          (train_on-IsOk doubles settings random instances g shuffles labelled zeros positive small)

    -- If the file is read, every instance that it has has a feature of the index 0, the batch size is
    -- not 0, a shuffle only moves places about, there are fewer than 2 ^ 31 - 1 instances in all
    -- iterations, weights are not drawn and no two numbers are below each other, the training ends
    -- without a fault, and the weights that it ends with are not below 0.
    pub train-NonNegative :
        AllHaveZero instances
        → 0 < settings.mini_batch_size
        → settings.max_iteration_num * length instances < 2 ^ 31 - 1
        → settings.rand_weight ≡ false
        → ((a b : R) → doubles.less a b ≡ true → doubles.less b a ≡ false)
        → (o : Option (Training R G)) × (train doubles settings random numerals in_data_file g
            ≡ ok o)
          × ((t : Training R G) → o ≡ some t → NonNegative doubles settings random t.weights)
    train-NonNegative zeros positive small plain asym =
        let (o, run) = train-IsOk zeros positive small in
        (
          o,
          run,
          λ t. train-signs doubles settings random asym plain numerals in_data_file g o t run,
        )

    -- If the file is read, there is an instance, but none has a feature of the index 0, the batch size
    -- and the number of iterations are not 0 and a shuffle only moves places about, the training reads
    -- the weight of the index 0, which is not there: it faults.
    pub train-fault :
        NoneHasZero instances
        → 0 < length instances
        → 0 < settings.mini_batch_size
        → 0 < settings.max_iteration_num
        → train doubles settings random numerals in_data_file g ≡ fault out_of_bounds
    unfolding train
    train-fault nones some_data positive some_round =
        rw (reads, ◌>>=◌)
          (train_on-fault doubles settings random instances g shuffles labelled nones some_data
            positive some_round)
