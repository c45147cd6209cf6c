-- ===== src/CannonProxy/Inserts/Merged.antt =====
-- What the stores hold after an insertion by cannon_proxy/src/proxy_server.cpp.
use cpp_project.Prelude.{
  ℕ, ◌+◌, ◌-◌, ◌%◌, ◌^◌, ◌<◌, ◌≡◌, ◌∙◌, refl, sym, ap, ◌↔◌, Bool, true, false, List, [], ◌++◌, map,
  length, replicate, length-replicate, get_or-replicate, get_or, ◌==◌, if◌then◌else◌, arith,
}
use cpp_project.Run.{ok, ◌>>=◌}
use cpp_project.CannonProxy.KeyMap.{KeyMap}
use cpp_project.CannonProxy.Store.{Stores, init}
use cpp_project.CannonProxy.Store.Laws.{held, absent, or_else, same_store}
use cpp_project.CannonProxy.StoreServer.{CannonKv}
use cpp_project.CannonProxy.StoreServer.Batches.{first, all_new, insert-batch}
use cpp_project.CannonProxy.Service.Written.{member}
use cpp_project.CannonProxy.Service.Shards.{shard_of, shard-lt}
use cpp_project.CannonProxy.Service.Expected.{held_for}
use cpp_project.CannonProxy.Inserts.Shares.{dealt_kvs, shard_kvs_lem, first-dealt}
use cpp_project.CannonProxy.Inserts.Filling.{IsFilled, insert_shards_lem}
use cpp_project.CannonProxy.Inserts.{next_version, insert}

module _ {V : Type 0} (maps : KeyMap V) (delivered : ℕ → Bool) (hash : ℕ → ℕ)
    (clients : List (Stores maps)) (data_version : ℕ) (kvs : List (CannonKv V)) where
  abbrev next : ℕ
  next = (data_version + 1) % 2 ^ 32

  first_share :
      (n j : ℕ)
      → get_or (replicate n []) j [] ++ dealt_kvs hash (length clients) j kvs
        ≡ dealt_kvs hash (length clients) (0 + j) kvs
  first_share n j =
      ap (λ xs. xs ++ dealt_kvs hash (length clients) j kvs) (get_or-replicate n j [])
      ∙ ap (λ i. dealt_kvs hash (length clients) i kvs) (omega arith)

  module _ (some_client : 0 < length clients)
      (reached : (i : ℕ) → i < length clients → delivered i ≡ true) (clients' : List (Stores maps))
      (ret : Bool)
      (is : IsFilled maps delivered hash
        (length clients)
        next
        kvs
        reached
        0
        clients
        clients'
        true
        ret) where
    merged-held :
        (w k : ℕ)
        → held_for maps hash clients' w k ≡ (
            if same_store next w
            then or_else (held_for maps hash clients next k) (first kvs k)
            else held_for maps hash clients w k)
    unfolding held_for
    merged-held w k =
        let i = shard_of hash (length clients) k in
        let s = get_or clients i (init maps) in
        ap (λ n. held maps (get_or clients' (shard_of hash n k) (init maps)) w k) is.long
        ∙ (ap (λ s'. held maps s' w k)
              (is.after i (omega arith) (shard-lt hash (length clients) k some_client))
            ∙ ((insert-batch maps s (dealt_kvs hash (length clients) i kvs) next).1 w k
                ∙ ap
                    (λ o.
                      if same_store next w then or_else (held maps s next k) o else held maps s w k)
                    (first-dealt hash (length clients) kvs k)))

    accepted-all_new : (ret ≡ true) ↔ (
        (i : ℕ)
        → i < length clients
        → all_new
            (λ j. absent (held maps (get_or clients i (init maps)) next j))
            (dealt_kvs hash (length clients) i kvs)
          ≡ true)
    accepted-all_new = (
      λ e i lt.
          sym
            (insert-batch maps (get_or clients i (init maps))
              (dealt_kvs hash (length clients) i kvs) next).0
          ∙ (is.refused e).1 i (omega arith) lt,
      λ all. is.accepted refl (λ i le lt.
          (insert-batch maps (get_or clients i (init maps)) (dealt_kvs hash (length clients) i kvs)
            next).0
          ∙ all i lt),
    )

  -- When there is a store, every call is delivered, the version can be counted up and no key's hash
  -- has the sign bit of an `int`, an insertion by the proxy ends without a fault. It keeps the number
  -- of stores, and the stores of all keys together then act as one map: under the next version each
  -- key has what it had or else the first value that the batch has for it, and versions of the other
  -- parity keep what they have. It returns true just where in each store every key of its share of
  -- the batch is free and comes once.
  pub insert-merged :
      0 < length clients
      → ((i : ℕ) → i < length clients → delivered i ≡ true)
      → (data_version == 2 ^ 31 - 1) ≡ false
      → ((k : ℕ) → member k (map (λ kv. kv.key) kvs) ≡ true → hash k % 2 ^ 32 < 2 ^ 31)
      → (clients' : List (Stores maps)) × (ret : Bool) × (insert maps delivered hash clients
            data_version kvs
          ≡ ok (clients', ret))
        × (length clients' ≡ length clients)
        × ((w k : ℕ)
            → held_for maps hash clients' w k ≡ (
                if same_store ((data_version + 1) % 2 ^ 32) w
                then or_else
                    (held_for maps hash clients ((data_version + 1) % 2 ^ 32) k)
                    (first kvs k)
                else held_for maps hash clients w k))
        × ((ret ≡ true) ↔ (
            (i : ℕ)
            → i < length clients
            → all_new
                (λ j.
                  absent (held maps (get_or clients i (init maps)) ((data_version + 1) % 2 ^ 32) j))
                (dealt_kvs hash (length clients) i kvs)
              ≡ true))
  unfolding insert next_version
  insert-merged some_client reached countable plain =
      let (shards, shard, many, share) =
        shard_kvs_lem hash (length clients) kvs (replicate (length clients) []) some_client plain
          (length-replicate (length clients) []) in
      let (clients', ret, run, is) =
        insert_shards_lem maps delivered hash (length clients) next kvs reached shards 0 clients
          true refl (omega (arith, many)) (λ j lt. share j ∙ first_share (length clients) j) in
      (
        clients',
        ret,
        rw (countable, shard, ◌>>=◌) run,
        is.long,
        λ w k. merged-held some_client reached clients' ret is w k,
        accepted-all_new some_client reached clients' ret is,
      )
