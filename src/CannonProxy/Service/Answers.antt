-- ===== src/CannonProxy/Service/Answers.antt =====
-- What a query of cannon_proxy/src/proxy_server.cpp answers.
use cpp_project.Prelude.{
  ℕ, ◌+◌, ◌%◌, ◌^◌, ◌<◌, ◌≡◌, ◌∙◌, sym, ap, inr, Bool, true, false, List, [], ◌++◌, length,
  replicate, length-replicate, get_or-replicate, get_or, if◌then◌else◌, arith,
}
use cpp_project.Run.{ok, ◌>>=◌}
use cpp_project.CannonProxy.KeyMap.{KeyMap}
use cpp_project.CannonProxy.Store.{Stores}
use cpp_project.CannonProxy.StoreServer.{ItemStatus, Status}
use cpp_project.CannonProxy.Service.{Sharding, merge_shards, get}
use cpp_project.CannonProxy.Service.Expected.{
  answers_of, all_held, progress-none, progress-all, held_for,
}
use cpp_project.CannonProxy.Service.Gather.{IsAllDone, merge_shards_lem}
use cpp_project.CannonProxy.Service.Written.{member}
use cpp_project.CannonProxy.Service.Shards.{dealt, IsSharded, shard_keys_lem}

abbrev start : ℕ → Sharding
start n = record { n = 0; key_idx = []; sharding_keys = replicate n [] }

module _ {V : Type 0} (maps : KeyMap V) (zero_value : V) (delivered : ℕ → Bool) (hash : ℕ → ℕ)
    (clients : List (Stores maps)) (data_version : ℕ) where
  first_share :
      (n j : ℕ) (keys : List ℕ)
      → get_or (replicate n []) j [] ++ dealt hash (length clients) j keys
        ≡ dealt hash (length clients) (0 + j) keys
  first_share n j keys =
      ap (λ xs. xs ++ dealt hash (length clients) j keys) (get_or-replicate n j [])
      ∙ ap (λ i. dealt hash (length clients) i keys) (omega arith)

  merged_from :
      (keys : List ℕ)
      → 0 < length clients
      → ((i : ℕ) → i < length clients → delivered i ≡ true)
      → (s : Sharding) → IsSharded hash (length clients) keys (start (length clients)) s
      → merge_shards maps zero_value delivered clients data_version s.key_idx s.sharding_keys 0
          (record {
            status = Status.all_ok;
            values = replicate s.n (record { status = ItemStatus.found; value = zero_value });
          })
        ≡ ok (record {
          status =
              if all_held (held_for maps hash clients data_version) keys
              then Status.all_ok
              else Status.partial_ok;
          values = answers_of zero_value (held_for maps hash clients data_version) keys;
        })
  unfolding IsAllDone
  merged_from keys some_client reached s is =
      let count : s.n ≡ length keys = omega (arith, is.counted) in
      let h = held_for maps hash clients data_version in
      let (done, merged, all) =
        merge_shards_lem maps zero_value delivered hash clients data_version keys some_client
          reached s.key_idx (λ k there. is.places k ∙ rw there (omega arith)) s.sharding_keys 0
          (λ k. false) (omega (arith, is.long))
          (λ j lt. is.shards j (omega (arith, is.long)) ∙ first_share (length clients) j keys) in
      rw count (
        ap (merge_shards maps zero_value delivered clients data_version s.key_idx s.sharding_keys 0)
          (sym (progress-none zero_value h keys))
        ∙ (merged
            ∙ ap ok
                (progress-all zero_value h keys done (λ k there. all k there (inr (omega arith))))))

  -- When there is a store, every call is delivered and no key's hash has the sign bit of an `int`, a
  -- query of the proxy ends without a fault. Each key is answered with what its store holds for it in
  -- the version, but where a key comes several times only its last place is; the earlier places say
  -- found, with the value 0. The status is that all is well if all keys are held, and otherwise that
  -- the answer is partial.
  pub get-merged :
      (keys : List ℕ)
      → 0 < length clients
      → ((i : ℕ) → i < length clients → delivered i ≡ true)
      → ((k : ℕ) → member k keys ≡ true → hash k % 2 ^ 32 < 2 ^ 31)
      → get maps zero_value delivered hash clients data_version keys
        ≡ ok (record {
          status =
              if all_held (held_for maps hash clients data_version) keys
              then Status.all_ok
              else Status.partial_ok;
          values = answers_of zero_value (held_for maps hash clients data_version) keys;
        })
  unfolding get IsAllDone
  get-merged keys some_client reached plain =
      let (s, run, is) =
        shard_keys_lem hash (length clients) keys (start (length clients)) some_client plain
          (length-replicate (length clients) []) in
      rw (run, ◌>>=◌) (merged_from keys some_client reached s is)
