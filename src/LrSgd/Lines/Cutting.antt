-- ===== src/LrSgd/Lines/Cutting.antt =====
-- Cutting a text at a character.
use cpp_project.Prelude.{
  ℕ, zero, suc, ◌<◌, ◌≡◌, ◌∙◌, ◌⊎◌, inl, inr, refl, ap, sym, append_assoc, Bool-cases, false, List,
  [], ◌∷◌, ◌++◌, length, length-append, ◌==◌, ==_iff, arith,
}
use cpp_project.Run.{Run, ok}
use cpp_project.LrSgd.Lines.{get_item, split_loop, split}

-- The character does not occur.
abbrev pub Lacks : ℕ → List ℕ → Type 0
Lacks delim [] = Unit
Lacks delim (c ∷ item) = ((c == delim) ≡ false) × Lacks delim item

abbrev pub AllLack : ℕ → List (List ℕ) → Type 0
AllLack delim [] = Unit
AllLack delim (item ∷ items) = Lacks delim item × AllLack delim items

-- Items, each with the delimiter behind it.
pub lines_of : ℕ → List (List ℕ) → List ℕ
lines_of delim [] = []
lines_of delim (item ∷ items) = item ++ delim ∷ lines_of delim items

-- What is left behind the last delimiter is an item if it is not empty.
abbrev pub unfinished : List ℕ → List (List ℕ)
unfinished [] = []
unfinished (c ∷ item) = (c ∷ item) ∷ []

get_item-cases :
    (delim : ℕ) (s : List ℕ)
    → (Lacks delim s × (get_item delim s ≡ (s, [])))
      ⊎ ((item : List ℕ) × (rest : List ℕ) × (s ≡ item ++ delim ∷ rest)
          × Lacks delim item
          × (get_item delim s ≡ (item, rest)))
unfolding get_item
get_item-cases delim [] = inl (tt, refl)
get_item-cases delim (c ∷ s) = elim (Bool-cases (c == delim)) [
  | inl here ↦ inr ([], s, ap (λ d. d ∷ s) ((==_iff c delim).0 here), tt, rw here)
  | inr there ↦ elim (get_item-cases delim s) [
    | inl (lacks, e) ↦ inl ((there, lacks), rw (there, e))
    | inr (item, rest, whole, lacks, e) ↦
        inr (c ∷ item, rest, ap (◌∷◌ c) whole, (there, lacks), rw (there, e))
  ]
]

-- The items of a text, and what is left behind the last delimiter.
pub record IsCut (delim : ℕ) (s : List ℕ) (run : Run (List (List ℕ))) : Type 0 where
  pub items : List (List ℕ)
  pub last : List ℕ
  pub whole : s ≡ lines_of delim items ++ last
  pub item_lack : AllLack delim items
  pub last_lacks : Lacks delim last
  pub result : run ≡ ok (items ++ unfinished last)

split_loop_last :
    (fuel delim c : ℕ) (s : List ℕ)
    → Lacks delim (c ∷ s)
    → get_item delim (c ∷ s) ≡ (c ∷ s, [])
    → IsCut delim (c ∷ s) (split_loop (suc (suc fuel)) delim (c ∷ s))
unfolding split_loop lines_of
split_loop_last fuel delim c s lacks e = record {
  items = [];
  last = c ∷ s;
  whole = refl;
  item_lack = tt;
  last_lacks = lacks;
  result = rw e;
}

split_loop_lem :
    (fuel delim : ℕ) (s : List ℕ) → length s < fuel → IsCut delim s (split_loop fuel delim s)
unfolding split_loop lines_of
split_loop_lem zero delim s enough = absurd (omega arith)
split_loop_lem (suc fuel) delim [] enough = record {
  items = [];
  last = [];
  whole = refl;
  item_lack = tt;
  last_lacks = tt;
  result = refl;
}
split_loop_lem (suc zero) delim (c ∷ s) enough = absurd (omega arith)
split_loop_lem (suc (suc fuel)) delim (c ∷ s) enough = elim (get_item-cases delim (c ∷ s)) [
  | inl (lacks, e) ↦ split_loop_last fuel delim c s lacks e
  | inr (item, rest, whole, lacks, e) ↦
      let size = ap length whole in
      let cut =
        split_loop_lem (suc fuel) delim rest
          (omega (arith, size, length-append item (delim ∷ rest))) in
      record {
        items = item ∷ cut.items;
        last = cut.last;
        whole =
            whole
            ∙ ap (λ r. item ++ delim ∷ r) cut.whole
            ∙ sym (append_assoc item (delim ∷ lines_of delim cut.items) cut.last);
        item_lack = (lacks, cut.item_lack);
        last_lacks = cut.last_lacks;
        result = rw (split_loop, e, cut.result);
      }
]

-- Every text is cut without a fault into the items between the delimiters. What is left behind the
-- last delimiter is an item only if it is not empty.
pub split-IsCut : (delim : ℕ) (s : List ℕ) → IsCut delim s (split delim s)
unfolding split
split-IsCut delim s = split_loop_lem (suc (length s)) delim s (omega arith)
