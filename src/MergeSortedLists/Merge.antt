-- ===== src/MergeSortedLists/Merge.antt =====
-- `mergeSortedLists` of mergeSortedLists/main.cpp: the nodes of two lists are linked into one.
use cpp_project.Prelude.{
  ℕ, zero, suc, ◌+◌, ◌<◌, ◌≤◌, ◌≡◌, ◌≢◌, inl, inr, refl, sym, ap, ◌∙◌, Bool, true, false, List, [],
  ◌∷◌, Option, none, some, length, get_elem?, count, ltb, ltb→lt, Bool-cases, ◌==◌, ==_iff, arith,
}
use mathlib.Core.Path.{subst}
use cpp_project.Run.{ok, ◌>>=◌}
use cpp_project.MergeSortedLists.{Node, Heap, pick, merge_loop, merge_sorted_lists}
use cpp_project.MergeSortedLists.Chain.{
  Entry, head_of, node_of, Chain, NotIn, Distinct, Apart, SortedFrom, load-Chain, linked,
  first_after, IsTail, Fresh, link_lem, link_tail_lem, linked-other, linked-tail, Chain-same,
}

-- Two lists that are still to be merged, and the tail of what is merged.
pub record Ready (heap : Heap) (tail : Option ℕ) (xs ys : List Entry) : Type 0 where
  pub is_tail : IsTail heap tail
  pub fresh1 : Fresh tail xs
  pub fresh2 : Fresh tail ys
  pub distinct1 : Distinct xs
  pub distinct2 : Distinct ys
  pub apart : Apart xs ys
  pub chain1 : Chain heap xs
  pub chain2 : Chain heap ys

-- `zs` is the list of both on `heap'`, which has its other nodes from `base`.
pub record Merged (base : Heap) (xs ys : List Entry) (heap' : Heap) (zs : List Entry) : Type 0 where
  pub chain : Chain heap' zs
  pub outside : (x : ℕ) → NotIn x xs → NotIn x ys → get_elem? heap' x ≡ get_elem? base x
  pub same : (q : Entry → Bool) → count q zs ≡ count q xs + count q ys
  pub sorted : (lo : ℕ) → SortedFrom lo xs → SortedFrom lo ys → SortedFrom lo zs

Ready-swap :
    {heap : Heap} {tail : Option ℕ} {xs ys : List Entry}
    → Ready heap tail xs ys
    → Ready heap tail ys xs
Ready-swap r = record {
  is_tail = r.is_tail;
  fresh1 = r.fresh2;
  fresh2 = r.fresh1;
  distinct1 = r.distinct2;
  distinct2 = r.distinct1;
  apart = λ x. elim (r.apart x) [ inl out ↦ inr out | inr out ↦ inl out ];
  chain1 = r.chain2;
  chain2 = r.chain1;
}

Merged-swap :
    {base heap' : Heap} {xs ys zs : List Entry}
    → Merged base xs ys heap' zs
    → Merged base ys xs heap' zs
Merged-swap m = record {
  chain = m.chain;
  outside = λ x out1 out2. m.outside x out2 out1;
  same = λ q. omega (arith, m.same q);
  sorted = λ lo sorted1 sorted2. m.sorted lo sorted2 sorted1;
}

not_tail :
    (tail : Option ℕ) (es : List Entry) (a d t : ℕ)
    → Fresh tail ((a, d) ∷ es)
    → tail ≡ some t
    → a ≢ t
not_tail none es a d t fresh is = absurd cc
not_tail (some s) es a d t (fresh, others) is = λ same. fresh cc

Fresh-rest :
    (tail : Option ℕ) (a d : ℕ) (es : List Entry) → Fresh tail ((a, d) ∷ es) → Fresh tail es
Fresh-rest none a d es fresh = tt
Fresh-rest (some t) a d es (fresh, others) = others

-- Linking the tail leaves the lists as they are.
linked-Chain :
    (heap : Heap) (tail q : Option ℕ) (es : List Entry)
    → IsTail heap tail
    → Fresh tail es
    → Chain heap es
    → Chain (linked heap tail q) es
linked-Chain heap none q es is fresh chain = chain
linked-Chain heap (some t) q es is fresh chain =
    Chain-same heap (linked heap (some t) q) es
      (λ x. elim (Bool-cases (x == t)) [
        | inl same ↦ inl (subst (λ y. NotIn y es) (sym ((==_iff x t).0 same)) fresh)
        | inr other ↦ inr (
            linked-other heap (some t) q x is
              (λ s is_s same. absurd (cc (other, (==_iff x t).1 (cc (is_s, same))))))
      ])
      chain

picked-there :
    (heap : Heap) (tail : Option ℕ) (a d : ℕ) (xs ys : List Entry)
    → Ready heap tail ((a, d) ∷ xs) ys
    → get_elem? (linked heap tail (some a)) a ≡ some (some (node_of d (head_of xs)))
picked-there heap tail a d xs ys r =
    linked-other heap tail (some a) a r.is_tail (λ t is. not_tail tail xs a d t r.fresh1 is)
    ∙ r.chain1.0

-- After a node was linked it is the tail.
Ready-picked :
    (heap : Heap) (tail : Option ℕ) (a d : ℕ) (xs ys : List Entry)
    → Ready heap tail ((a, d) ∷ xs) ys
    → Ready (linked heap tail (some a)) (some a) xs ys
Ready-picked heap tail a d xs ys r = record {
  is_tail = (d, head_of xs, picked-there heap tail a d xs ys r);
  fresh1 = r.distinct1.0;
  fresh2 = elim (r.apart a) [ inl (out, others) ↦ absurd (out refl) | inr out ↦ out ];
  distinct1 = r.distinct1.1;
  distinct2 = r.distinct2;
  apart = λ x. elim (r.apart x) [ inl (out, others) ↦ inl others | inr out ↦ inr out ];
  chain1 =
      linked-Chain heap tail (some a) xs r.is_tail (Fresh-rest tail a d xs r.fresh1) r.chain1.1;
  chain2 = linked-Chain heap tail (some a) ys r.is_tail r.fresh2 r.chain2;
}

-- A list that is merged with what is picked from it, and the rest of both.
Merged-picked :
    (heap : Heap) (tail : Option ℕ) (a d : ℕ) (xs ys : List Entry) (heap' : Heap) (zs : List Entry)
    → Ready heap tail ((a, d) ∷ xs) ys
    → ((lo : ℕ) → SortedFrom lo ys → SortedFrom d ys)
    → Merged (linked (linked heap tail (some a)) (some a) (head_of zs)) xs ys heap' zs
    → Merged (linked heap tail (some a)) ((a, d) ∷ xs) ys heap' ((a, d) ∷ zs)
unfolding count
Merged-picked heap tail a d xs ys heap' zs r low m =
    let r' = Ready-picked heap tail a d xs ys r in
    record {
      chain = (
        m.outside a r'.fresh1 r'.fresh2
            ∙ linked-tail (linked heap tail (some a)) a d (head_of xs) (head_of zs)
                (picked-there heap tail a d xs ys r),
        m.chain,
      );
      outside = λ x out1 out2.
          m.outside x out1.1 out2
          ∙ linked-other (linked heap tail (some a)) (some a) (head_of zs) x r'.is_tail
              (λ t is same. out1.0 cc);
      same = λ q. omega (arith, m.same q);
      sorted = λ lo sorted1 sorted2. (sorted1.0, m.sorted d sorted1.1 (low lo sorted2));
    }

-- One list is at its end.
Merged-rest : (base : Heap) (ys : List Entry) → Chain base ys → Merged base [] ys base ys
unfolding count
Merged-rest base ys chain = record {
  chain = chain;
  outside = λ x out1 out2. refl;
  same = λ q. omega arith;
  sorted = λ lo sorted1 sorted2. sorted2;
}

-- The loop ends, and leaves one list.
abbrev LoopResult :
    ℕ → Heap → Option ℕ → Option ℕ → Entry → List Entry → Entry → List Entry → Type 0
LoopResult fuel heap first tail x xs y ys =
    (heap' : Heap) × (zs : List Entry) × (merge_loop fuel heap first tail x.0 y.0
      ≡ ok (heap', first_after first tail (head_of zs)))
    × Merged (linked heap tail (head_of zs)) (x ∷ xs) (y ∷ ys) heap' zs

pick_less :
    (node1 node2 : Node) (h1 h2 : ℕ)
    → ltb node1.data_of node2.data_of ≡ true
    → pick node1 node2 h1 h2 ≡ (h1, node1.next, some h2)
unfolding pick
pick_less node1 node2 h1 h2 less = rw less refl

pick_not_less :
    (node1 node2 : Node) (h1 h2 : ℕ)
    → ltb node1.data_of node2.data_of ≡ false
    → pick node1 node2 h1 h2 ≡ (h2, some h1, node2.next)
unfolding pick
pick_not_less node1 node2 h1 h2 not_less = rw not_less refl

abbrev Ends : ℕ → Type 0
Ends fuel =
    (heap : Heap) (first tail : Option ℕ) (a d : ℕ) (xs : List Entry) (b e : ℕ) (ys : List Entry)
    → length xs + length ys < fuel
    → Ready heap tail ((a, d) ∷ xs) ((b, e) ∷ ys)
    → LoopResult fuel heap first tail (a, d) xs (b, e) ys

pick_left :
    (fuel : ℕ) (heap : Heap) (first tail : Option ℕ) (a d : ℕ) (xs : List Entry) (b e : ℕ)
    (ys : List Entry)
    → Ends fuel
    → length xs + length ys < suc fuel
    → Ready heap tail ((a, d) ∷ xs) ((b, e) ∷ ys)
    → ltb d e ≡ true
    → LoopResult (suc fuel) heap first tail (a, d) xs (b, e) ys
unfolding merge_loop
pick_left fuel heap first tail a d [] b e ys ends enough r less =
    let r' = Ready-picked heap tail a d [] ((b, e) ∷ ys) r in
    (
      linked (linked heap tail (some a)) (some a) (some b),
      (a, d) ∷ (b, e) ∷ ys,
      rw
          (
            load-Chain heap a d none r.chain1.0,
            load-Chain heap b e (head_of ys) r.chain2.0,
            ◌>>=◌,
            pick_less (node_of d none) (node_of e (head_of ys)) a b less,
            link_tail_lem heap first tail (some a) r.is_tail,
            pick_less (node_of d none) (node_of e (head_of ys)) a b less,
          )
          (ap (λ run. run >>= λ heap'. ok (heap', first_after first tail (some a)))
            (link_lem (linked heap tail (some a)) a d none (some b)
              (picked-there heap tail a d [] ((b, e) ∷ ys) r))),
      Merged-picked heap tail a d [] ((b, e) ∷ ys) _ ((b, e) ∷ ys) r
          (λ lo sorted2. (omega (arith, ltb→lt d e less), sorted2.1))
          (Merged-rest _ ((b, e) ∷ ys) (
            linked-Chain (linked heap tail (some a)) (some a) (some b) ((b, e) ∷ ys) r'.is_tail
              r'.fresh2 r'.chain2)),
    )
pick_left fuel heap first tail a d ((p, k) ∷ xs) b e ys ends enough r less =
    let r' = Ready-picked heap tail a d ((p, k) ∷ xs) ((b, e) ∷ ys) r in
    let (heap', zs, run, m) =
      ends (linked heap tail (some a)) (first_after first tail (some a)) (some a) p k xs b e ys
        (omega arith) r' in
    (
      heap',
      (a, d) ∷ zs,
      rw
          (
            load-Chain heap a d (some p) r.chain1.0,
            load-Chain heap b e (head_of ys) r.chain2.0,
            ◌>>=◌,
            pick_less (node_of d (some p)) (node_of e (head_of ys)) a b less,
            link_tail_lem heap first tail (some a) r.is_tail,
            pick_less (node_of d (some p)) (node_of e (head_of ys)) a b less,
            pick_less (node_of d (some p)) (node_of e (head_of ys)) a b less,
          )
          run,
      Merged-picked heap tail a d ((p, k) ∷ xs) ((b, e) ∷ ys) heap' zs r
          (λ lo sorted2. (omega (arith, ltb→lt d e less), sorted2.1)) m,
    )

pick_right :
    (fuel : ℕ) (heap : Heap) (first tail : Option ℕ) (a d : ℕ) (xs : List Entry) (b e : ℕ)
    (ys : List Entry)
    → Ends fuel
    → length xs + length ys < suc fuel
    → Ready heap tail ((a, d) ∷ xs) ((b, e) ∷ ys)
    → ltb d e ≡ false
    → LoopResult (suc fuel) heap first tail (a, d) xs (b, e) ys
unfolding merge_loop
pick_right fuel heap first tail a d xs b e [] ends enough r not_less =
    let r' = Ready-picked heap tail b e [] ((a, d) ∷ xs) (Ready-swap r) in
    (
      linked (linked heap tail (some b)) (some b) (some a),
      (b, e) ∷ (a, d) ∷ xs,
      rw
          (
            load-Chain heap a d (head_of xs) r.chain1.0,
            load-Chain heap b e none r.chain2.0,
            ◌>>=◌,
            pick_not_less (node_of d (head_of xs)) (node_of e none) a b not_less,
            link_tail_lem heap first tail (some b) r.is_tail,
            pick_not_less (node_of d (head_of xs)) (node_of e none) a b not_less,
            pick_not_less (node_of d (head_of xs)) (node_of e none) a b not_less,
          )
          (ap (λ run. run >>= λ heap'. ok (heap', first_after first tail (some b)))
            (link_lem (linked heap tail (some b)) b e none (some a)
              (picked-there heap tail b e [] ((a, d) ∷ xs) (Ready-swap r)))),
      Merged-swap (
          Merged-picked heap tail b e [] ((a, d) ∷ xs) _ ((a, d) ∷ xs) (Ready-swap r)
            (λ lo sorted1. (ground (arith, not_less), sorted1.1))
            (Merged-rest _ ((a, d) ∷ xs) (
              linked-Chain (linked heap tail (some b)) (some b) (some a) ((a, d) ∷ xs) r'.is_tail
                r'.fresh2 r'.chain2))),
    )
pick_right fuel heap first tail a d xs b e ((p, k) ∷ ys) ends enough r not_less =
    let r' = Ready-picked heap tail b e ((p, k) ∷ ys) ((a, d) ∷ xs) (Ready-swap r) in
    let (heap', zs, run, m) =
      ends (linked heap tail (some b)) (first_after first tail (some b)) (some b) a d xs p k ys
        (omega arith) (Ready-swap r') in
    (
      heap',
      (b, e) ∷ zs,
      rw
          (
            load-Chain heap a d (head_of xs) r.chain1.0,
            load-Chain heap b e (some p) r.chain2.0,
            ◌>>=◌,
            pick_not_less (node_of d (head_of xs)) (node_of e (some p)) a b not_less,
            link_tail_lem heap first tail (some b) r.is_tail,
            pick_not_less (node_of d (head_of xs)) (node_of e (some p)) a b not_less,
            pick_not_less (node_of d (head_of xs)) (node_of e (some p)) a b not_less,
          )
          run,
      Merged-swap (
          Merged-picked heap tail b e ((p, k) ∷ ys) ((a, d) ∷ xs) heap' zs (Ready-swap r)
            (λ lo sorted1. (ground (arith, not_less), sorted1.1)) (Merged-swap m)),
    )

merge_loop-Merged : (fuel : ℕ) → Ends fuel
merge_loop-Merged zero heap first tail a d xs b e ys enough r = absurd (omega arith)
merge_loop-Merged (suc fuel) heap first tail a d xs b e ys enough r = elim (Bool-cases (ltb d e)) [
  | inl less ↦ pick_left fuel heap first tail a d xs b e ys (merge_loop-Merged fuel) enough r less
  | inr not_less ↦
      pick_right fuel heap first tail a d xs b e ys (merge_loop-Merged fuel) enough r not_less
]

Merged-none : (heap : Heap) (xs : List Entry) → Chain heap xs → Merged heap xs [] heap xs
Merged-none heap xs chain = Merged-swap (Merged-rest heap xs chain)

-- Two lists without a common node are merged without a fault, when the rounds allowed are as many
-- as their nodes together. The result is a list of the nodes of both, in which the data do not fall
-- if they do not fall in either; the other nodes of the heap are as they were.
pub merge_sorted_lists-Merged :
    (fuel : ℕ) (heap : Heap) (xs ys : List Entry)
    → length xs + length ys ≤ fuel
    → Chain heap xs
    → Chain heap ys
    → Distinct xs
    → Distinct ys
    → Apart xs ys
    → (heap' : Heap) × (zs : List Entry) × (merge_sorted_lists fuel heap (head_of xs) (head_of ys)
        ≡ ok (heap', head_of zs))
      × Merged heap xs ys heap' zs
unfolding merge_sorted_lists
merge_sorted_lists-Merged fuel heap [] ys enough chain1 chain2 distinct1 distinct2 apart =
    (heap, ys, refl, Merged-rest heap ys chain2)
merge_sorted_lists-Merged fuel heap ((a, d) ∷ xs) [] enough chain1 chain2 distinct1 distinct2
      apart =
    (heap, (a, d) ∷ xs, refl, Merged-none heap ((a, d) ∷ xs) chain1)
merge_sorted_lists-Merged fuel heap ((a, d) ∷ xs) ((b, e) ∷ ys) enough chain1 chain2 distinct1
      distinct2 apart =
    merge_loop-Merged fuel heap none none a d xs b e ys (omega arith) (record {
      is_tail = tt;
      fresh1 = tt;
      fresh2 = tt;
      distinct1 = distinct1;
      distinct2 = distinct2;
      apart = apart;
      chain1 = chain1;
      chain2 = chain2;
    })
