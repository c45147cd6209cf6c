-- ===== src/CannonProxy/Service/Gather.antt =====
-- The loop of cannon_proxy/src/proxy_server.cpp over the stores' answers.
use cpp_project.Prelude.{
  ℕ, suc, ◌+◌, ◌<◌, ◌≤◌, ◌≡◌, ◌∙◌, refl, sym, ap, ◌⊎◌, inl, inr, Bool, true, ◌&&◌, ◌||◌, List, [],
  ◌∷◌, length, get_or, map, Option, ◌==◌, ==_iff, arith,
}
use cpp_project.Run.{ok, ◌>>=◌, at-get_or}
use cpp_project.CannonProxy.KeyMap.{KeyMap}
use cpp_project.CannonProxy.Store.{Stores, init}
use cpp_project.CannonProxy.Store.Laws.{held}
use cpp_project.CannonProxy.StoreServer.Batches.{as_item, get_items-held}
use cpp_project.CannonProxy.Service.{idx_of, query_keys, merge_shards}
use cpp_project.CannonProxy.Service.Expected.{held_for}
use cpp_project.CannonProxy.Service.Written.{member, last_place}
use cpp_project.CannonProxy.Service.Merge.{after, after-member, progress, merge_keys_lem}
use cpp_project.CannonProxy.Service.Shards.{shard_of, shard-lt, dealt, map-dealt, member-dealt}

pub and_left : (a b : Bool) → a && b ≡ true → a ≡ true
and_left a b e = ground arith

or_left : (a b : Bool) → a ≡ true → a || b ≡ true
or_left a b e = ground arith

or_right : (a b : Bool) → b ≡ true → a || b ≡ true
or_right a b e = ground arith

pub le-cases : (i j : ℕ) → i ≤ j → (j ≡ i) ⊎ (i + 1 ≤ j)
le-cases i j h = omega arith

-- The stores are called and answer.
module _ {V : Type 0} (maps : KeyMap V) (zero_value : V) (delivered : ℕ → Bool) (hash : ℕ → ℕ)
    (clients : List (Stores maps)) (data_version : ℕ) (req : List ℕ)
    (some_client : 0 < length clients)
    (reached : (i : ℕ) → i < length clients → delivered i ≡ true) where
  abbrev held_here : ℕ → Option V
  held_here = held_for maps hash clients data_version

  abbrev dealt_to : ℕ → List ℕ
  dealt_to i = dealt hash (length clients) i req

  query_keys-dealt :
      (i : ℕ)
      → i < length clients
      → query_keys maps zero_value delivered clients i (dealt_to i) data_version
        ≡ ok (map (λ k. as_item zero_value (held_here k)) (dealt_to i))
  unfolding query_keys held_for
  query_keys-dealt i lt =
      rw
        (
          at-get_or clients i (init maps) lt,
          ◌>>=◌,
          reached i lt,
          get_items-held maps zero_value (get_or clients i (init maps)) (dealt_to i) data_version
              [],
        )
        (ap ok (
          map-dealt hash (length clients) _ _ i req (λ k mine.
            ap (λ j. as_item zero_value (held maps (get_or clients j (init maps)) data_version k))
              (sym mine))))

  dealt_inside :
      (keys : List ℕ) (i : ℕ)
      → keys ≡ dealt_to i
      → (k : ℕ) → member k keys ≡ true
      → member k req ≡ true
  dealt_inside keys i same k there =
      and_left (member k req) (shard_of hash (length clients) k == i)
        (sym (member-dealt hash (length clients) k i req) ∙ (ap (member k) (sym same) ∙ there))

  merge_one :
      (key_idx : List (ℕ × ℕ))
      → ((k : ℕ) → member k req ≡ true → idx_of key_idx k ≡ last_place k req)
      → (keys : List ℕ) (shards : List (List ℕ)) (i : ℕ) (done : ℕ → Bool) → keys ≡ dealt_to i
      → i < length clients
      → merge_shards maps zero_value delivered clients data_version key_idx
          (keys ∷ shards)
          i
          (progress zero_value held_here req done)
        ≡ merge_shards maps zero_value delivered clients data_version key_idx shards
            (i + 1)
            (progress zero_value held_here req (after keys done))
  unfolding merge_shards after
  merge_one key_idx places [] shards i done same lt = refl
  merge_one key_idx places (key ∷ keys) shards i done same lt =
      rw
        (
          ap (λ ks. query_keys maps zero_value delivered clients i ks data_version) same
              ∙ (query_keys-dealt i lt
                  ∙ ap (λ ks. ok (map (λ k. as_item zero_value (held_here k)) ks)) (sym same)),
          ◌>>=◌,
          merge_keys_lem zero_value held_here req key_idx places (key ∷ keys) 0
              (map (λ k. as_item zero_value (held_here k)) (key ∷ keys)) done
              (dealt_inside (key ∷ keys) i same) refl,
        )
        refl

  own_member :
      (keys : List ℕ) (i k : ℕ)
      → keys ≡ dealt_to i
      → member k req ≡ true
      → shard_of hash (length clients) k ≡ i
      → member k keys ≡ true
  own_member keys i k same there mine =
      ap (member k) same
      ∙ (member-dealt hash (length clients) k i req
          ∙ rw there ((==_iff (shard_of hash (length clients) k) i).1 mine))

  -- What is done at the end: what was, and the keys of the stores from one on.
  unfoldable pub IsAllDone : (ℕ → Bool) → ℕ → (ℕ → Bool) → Type 0
  IsAllDone done i done' =
      (k : ℕ)
      → member k req ≡ true
      → (done k ≡ true) ⊎ (i ≤ shard_of hash (length clients) k)
      → done' k ≡ true

  done_next :
      (done done' : ℕ → Bool) (i : ℕ) (keys : List ℕ)
      → keys ≡ dealt_to i
      → IsAllDone (after keys done) (i + 1) done'
      → IsAllDone done i done'
  unfolding IsAllDone
  done_next done done' i keys same all k there which = all k there (elim which [
    | inl d ↦ inl (after-member keys done k ∙ or_right (member k keys) (done k) d)
    | inr le ↦ elim (le-cases i (shard_of hash (length clients) k) le) [
      | inl mine ↦ inl (
          after-member keys done k
          ∙ or_left (member k keys) (done k) (own_member keys i k same there mine))
      | inr later ↦ inr later
    ]
  ])

  pub merge_shards_lem :
      (key_idx : List (ℕ × ℕ))
      → ((k : ℕ) → member k req ≡ true → idx_of key_idx k ≡ last_place k req)
      → (shards : List (List ℕ)) (i : ℕ) (done : ℕ → Bool) → i + length shards ≡ length clients
      → ((j : ℕ) → j < length shards → get_or shards j [] ≡ dealt_to (i + j))
      → (done' : ℕ → Bool) × (merge_shards maps zero_value delivered clients data_version key_idx
            shards i
            (progress zero_value held_here req done)
          ≡ ok (progress zero_value held_here req done'))
        × IsAllDone done i done'
  unfolding merge_shards IsAllDone
  merge_shards_lem key_idx places [] i done long own = (
    done,
    refl,
    λ k there which. elim which [
      | inl d ↦ d
      | inr le ↦ absurd (omega (arith, shard-lt hash (length clients) k some_client, long))
    ],
  )
  merge_shards_lem key_idx places (keys ∷ shards) i done long own =
      let same = own 0 (omega arith) ∙ ap dealt_to (omega arith) in
      let (done', run, all) =
        merge_shards_lem key_idx places shards (i + 1) (after keys done) (omega (arith, long))
          (λ j lt. own (suc j) (omega arith) ∙ ap dealt_to (omega arith)) in
      (
        done',
        merge_one key_idx places keys shards i done same (omega (arith, long)) ∙ run,
        done_next done done' i keys same all,
      )
