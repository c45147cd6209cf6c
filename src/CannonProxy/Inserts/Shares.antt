-- ===== src/CannonProxy/Inserts/Shares.antt =====
-- How cannon_proxy/src/proxy_server.cpp spreads a batch of entries over the stores.
use cpp_project.Prelude.{
  ℕ, ◌%◌, ◌^◌, ◌<◌, ◌≡◌, ◌∙◌, refl, sym, ap, inl, inr, true, false, List, [], ◌∷◌, ◌++◌, append-nil,
  append_assoc, map, length, get_or, set, get_or-set, length-set, Bool-cases, ◌==◌, ==_iff,
  if◌then◌else◌,
}
use cpp_project.Run.{ok, ◌>>=◌, at-get_or, put-set}
use cpp_project.CannonProxy.StoreServer.{CannonKv}
use cpp_project.CannonProxy.StoreServer.Batches.{first}
use cpp_project.CannonProxy.Service.Written.{member, member-head, member-tail}
use cpp_project.CannonProxy.Service.Shards.{shard_of, shard-lt, client_idx-shard}
use cpp_project.CannonProxy.Inserts.{shard_kvs}

module _ (hash : ℕ → ℕ) (n : ℕ) where
  other_key : (j k : ℕ) → (shard_of hash n j == shard_of hash n k) ≡ false → (j == k) ≡ false
  other_key j k e = elim (Bool-cases (j == k)) [
    | inl same ↦ cc (
        sym (
          (==_iff (shard_of hash n j) (shard_of hash n k)).1
            (ap (shard_of hash n) ((==_iff j k).0 same)))
        ∙ e)
    | inr other ↦ other
  ]

module _ {V : Type 0} (hash : ℕ → ℕ) (n : ℕ) where
  -- The entries of a store, in the order of the batch.
  unfoldable pub dealt_kvs : ℕ → List (CannonKv V) → List (CannonKv V)
  unfolding shard_of
  dealt_kvs i [] = []
  dealt_kvs i (kv ∷ kvs) =
      let rest = dealt_kvs i kvs in if shard_of hash n kv.key == i then kv ∷ rest else rest

  dealt-next :
      (shards : List (List (CannonKv V))) (kv : CannonKv V) (kvs : List (CannonKv V)) (i : ℕ)
      → length shards ≡ n
      → shard_of hash n kv.key < n
      → get_or
            (set shards
              (shard_of hash n kv.key)
              (get_or shards (shard_of hash n kv.key) [] ++ kv ∷ []))
            i
            []
          ++ dealt_kvs i kvs
        ≡ get_or shards i [] ++ dealt_kvs i (kv ∷ kvs)
  unfolding dealt_kvs
  dealt-next shards kv kvs i long lt = elim (Bool-cases (shard_of hash n kv.key == i)) [
    | inl e ↦
        rw
          (
            get_or-set shards (shard_of hash n kv.key) i
                (get_or shards (shard_of hash n kv.key) [] ++ kv ∷ []) [] (rw long lt),
            e,
          )
          (append_assoc (get_or shards (shard_of hash n kv.key) []) (kv ∷ []) (dealt_kvs i kvs)
            ∙ ap (λ j. get_or shards j [] ++ kv ∷ dealt_kvs i kvs)
                ((==_iff (shard_of hash n kv.key) i).0 e))
    | inr e ↦
        rw
          (
            get_or-set shards (shard_of hash n kv.key) i
                (get_or shards (shard_of hash n kv.key) [] ++ kv ∷ []) [] (rw long lt),
            e,
          )
          refl
  ]

  pub shard_kvs_lem :
      (kvs : List (CannonKv V)) (shards : List (List (CannonKv V)))
      → 0 < n
      → ((k : ℕ) → member k (map (λ kv. kv.key) kvs) ≡ true → hash k % 2 ^ 32 < 2 ^ 31)
      → length shards ≡ n
      → (shards' : List (List (CannonKv V))) × (shard_kvs hash n kvs shards ≡ ok shards')
        × (length shards' ≡ n)
        × ((i : ℕ) → get_or shards' i [] ≡ get_or shards i [] ++ dealt_kvs i kvs)
  unfolding shard_kvs dealt_kvs
  shard_kvs_lem [] shards some_client plain long =
      (shards, refl, long, λ i. sym (append-nil (get_or shards i [])))
  shard_kvs_lem (kv ∷ kvs) shards some_client plain long =
      let i = shard_of hash n kv.key in
      let lt = shard-lt hash n kv.key some_client in
      let shard = get_or shards i [] in
      let (shards', run, long', share) =
        shard_kvs_lem kvs (set shards i (shard ++ kv ∷ [])) some_client
          (λ k there. plain k (member-tail k kv.key (map (λ kv. kv.key) kvs) there))
          (length-set shards i (shard ++ kv ∷ []) ∙ long) in
      (
        shards',
        rw
            (
              client_idx-shard hash n kv.key some_client
                  (plain kv.key (member-head kv.key (map (λ kv. kv.key) kvs))),
              ◌>>=◌,
              at-get_or shards i [] (rw long lt),
              ◌>>=◌,
              put-set shards i (shard ++ kv ∷ []) (rw long lt),
              ◌>>=◌,
            )
            run,
        long',
        λ j. share j ∙ dealt-next shards kv kvs j long lt,
      )

  pub first-dealt :
      (kvs : List (CannonKv V)) (k : ℕ) → first (dealt_kvs (shard_of hash n k) kvs) k ≡ first kvs k
  unfolding first dealt_kvs
  first-dealt [] k = refl
  first-dealt (kv ∷ kvs) k = elim (Bool-cases (shard_of hash n kv.key == shard_of hash n k)) [
    | inl e ↦ rw (e, first-dealt kvs k) refl
    | inr e ↦ rw (e, other_key hash n kv.key k e) (first-dealt kvs k)
  ]
