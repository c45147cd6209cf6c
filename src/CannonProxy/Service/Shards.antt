-- ===== src/CannonProxy/Service/Shards.antt =====
-- The loop of cannon_proxy/src/proxy_server.cpp that spreads the keys of a request.
use cpp_project.Prelude.{
  ℕ, zero, suc, ◌+◌, ◌%◌, ◌^◌, ◌<◌, ◌≡◌, ◌∙◌, refl, sym, ap, Bool, true, false, ◌||◌, ◌&&◌, map,
  List, [], ◌∷◌, ◌++◌, append-nil, append_assoc, length, get_or, set, get_or-set, length-set,
  lt→ltb, Bool-cases, inl, inr, ◌==◌, ==_iff, if◌then◌else◌, arith,
}
use mathlib.Core.Path.{ap₂}
use cpp_project.Run.{ok, ◌>>=◌, at-get_or, put-set}
use cpp_project.CannonProxy.Service.{Sharding, client_idx, idx_of, shard_keys}
use cpp_project.CannonProxy.Service.Written.{member, member-head, member-tail, last_place}

client_of : (h n : ℕ) → 0 < n → h % 2 ^ 32 < 2 ^ 31 → client_idx h n ≡ ok (h % 2 ^ 32 % n)
unfolding client_idx
client_of h zero some_client plain = absurd (omega arith)
client_of h (suc n) some_client plain = rw (lt→ltb (h % 2 ^ 32) (2 ^ 31) plain) refl

module _ (hash : ℕ → ℕ) (n : ℕ) where
  -- The store of a key whose hash has no sign bit.
  unfoldable pub shard_of : ℕ → ℕ
  shard_of key = hash key % 2 ^ 32 % n

  -- The keys of a store, in the order of the request.
  unfoldable pub dealt : ℕ → List ℕ → List ℕ
  unfolding shard_of
  dealt i [] = []
  dealt i (key ∷ keys) = let rest = dealt i keys in if shard_of key == i then key ∷ rest else rest

  -- What the loop has done to its state.
  pub record IsSharded (keys : List ℕ) (s s' : Sharding) : Type 0 where
    pub counted : s'.n ≡ s.n + length keys
    pub long : length s'.sharding_keys ≡ n
    pub shards :
        (i : ℕ) → i < n → get_or s'.sharding_keys i [] ≡ get_or s.sharding_keys i [] ++ dealt i keys
    pub places :
        (k : ℕ)
        → idx_of s'.key_idx k
          ≡ (if member k keys then s.n + last_place k keys else idx_of s.key_idx k)

  pub client_idx-shard :
      (key : ℕ) → 0 < n → hash key % 2 ^ 32 < 2 ^ 31 → client_idx (hash key) n ≡ ok (shard_of key)
  unfolding shard_of
  client_idx-shard key some_client plain = client_of (hash key) n some_client plain

  pub shard-lt : (key : ℕ) → 0 < n → shard_of key < n
  unfolding shard_of
  shard-lt key some_client = ground arith

  dealt-next :
      (s : Sharding) (key : ℕ) (keys : List ℕ) (i : ℕ)
      → length s.sharding_keys ≡ n
      → shard_of key < n
      → get_or
            (set s.sharding_keys
              (shard_of key)
              (get_or s.sharding_keys (shard_of key) [] ++ key ∷ []))
            i
            []
          ++ dealt i keys
        ≡ get_or s.sharding_keys i [] ++ dealt i (key ∷ keys)
  unfolding dealt
  dealt-next s key keys i long lt = elim (Bool-cases (shard_of key == i)) [
    | inl e ↦
        rw
          (
            get_or-set s.sharding_keys (shard_of key) i
                (get_or s.sharding_keys (shard_of key) [] ++ key ∷ []) [] (rw long lt),
            e,
          )
          (append_assoc (get_or s.sharding_keys (shard_of key) []) (key ∷ []) (dealt i keys)
            ∙ ap (λ j. get_or s.sharding_keys j [] ++ key ∷ dealt i keys)
                ((==_iff (shard_of key) i).0 e))
    | inr e ↦
        rw
          (
            get_or-set s.sharding_keys (shard_of key) i
                (get_or s.sharding_keys (shard_of key) [] ++ key ∷ []) [] (rw long lt),
            e,
          )
          refl
  ]

  places_next :
      (s : Sharding) (key : ℕ) (keys : List ℕ) (k : ℕ)
      → (if member k keys then s.n + 1 + last_place k keys else idx_of ((key, s.n) ∷ s.key_idx) k)
        ≡ (if member k (key ∷ keys) then s.n + last_place k (key ∷ keys) else idx_of s.key_idx k)
  unfolding member last_place idx_of
  places_next s key keys k = ground arith

  pub shard_keys_lem :
      (keys : List ℕ) (s : Sharding)
      → 0 < n
      → ((k : ℕ) → member k keys ≡ true → hash k % 2 ^ 32 < 2 ^ 31)
      → length s.sharding_keys ≡ n
      → (s' : Sharding) × (shard_keys hash n keys s ≡ ok s') × IsSharded keys s s'
  unfolding shard_keys dealt member idx_of
  shard_keys_lem [] s some_client plain long = (
    s,
    refl,
    record {
      counted = omega arith;
      long = long;
      shards = λ i lt. sym (append-nil (get_or s.sharding_keys i []));
      places = λ k. refl;
    },
  )
  shard_keys_lem (key ∷ keys) s some_client plain long =
      let i = shard_of key in
      let lt = shard-lt key some_client in
      let shard = get_or s.sharding_keys i [] in
      let (s', run, is) =
        shard_keys_lem keys
          (record {
            n = s.n + 1;
            key_idx = (key, s.n) ∷ s.key_idx;
            sharding_keys = set s.sharding_keys i (shard ++ key ∷ []);
          })
          some_client (λ k there. plain k (member-tail k key keys there))
          (length-set s.sharding_keys i (shard ++ key ∷ []) ∙ long) in
      (
        s',
        rw
            (
              client_idx-shard key some_client (plain key (member-head key keys)),
              ◌>>=◌,
              at-get_or s.sharding_keys i [] (rw long lt),
              ◌>>=◌,
              put-set s.sharding_keys i (shard ++ key ∷ []) (rw long lt),
              ◌>>=◌,
            )
            run,
        record {
          counted = omega (arith, is.counted);
          long = is.long;
          shards = λ j j_lt. is.shards j j_lt ∙ dealt-next s key keys j long lt;
          places = λ k. is.places k ∙ places_next s key keys k;
        },
      )

gathered : (c m s : Bool) → (c ≡ true → s ≡ true) → (c || (m && s)) ≡ (c || m) && s
gathered true m s imp = sym (imp refl)
gathered false m s imp = refl

left_out : (c m s : Bool) → (c ≡ true → s ≡ false) → (m && s) ≡ (c || m) && s
left_out true true s imp = refl
left_out true false s imp = sym (imp refl)
left_out false m s imp = refl

module _ (hash : ℕ → ℕ) (n : ℕ) where
  pub map-dealt {ℓ} :
      {A : Type ℓ} (f g : ℕ → A) (i : ℕ) (keys : List ℕ)
      → ((k : ℕ) → shard_of hash n k ≡ i → f k ≡ g k)
      → map f (dealt hash n i keys) ≡ map g (dealt hash n i keys)
  unfolding dealt
  map-dealt f g i [] same = refl
  map-dealt f g i (k ∷ ks) same = elim (Bool-cases (shard_of hash n k == i)) [
    | inl e ↦ rw e (ap₂ ◌∷◌ (same k ((==_iff (shard_of hash n k) i).0 e)) (map-dealt f g i ks same))
    | inr e ↦ rw e (map-dealt f g i ks same)
  ]

  shard_eq : (j k i : ℕ) → (j == k) ≡ true → (shard_of hash n j == i) ≡ (shard_of hash n k == i)
  shard_eq j k i same = ap (λ x. shard_of hash n x == i) ((==_iff j k).0 same)

  -- The keys of a store are the request's keys that fall to it.
  pub member-dealt :
      (k i : ℕ) (keys : List ℕ)
      → member k (dealt hash n i keys) ≡ member k keys && (shard_of hash n k == i)
  unfolding dealt member
  member-dealt k i [] = refl
  member-dealt k i (key ∷ keys) = elim (Bool-cases (shard_of hash n key == i)) [
    | inl e ↦
        rw (e, member-dealt k i keys)
          (gathered (key == k) (member k keys) (shard_of hash n k == i)
            (λ same. sym (shard_eq key k i same) ∙ e))
    | inr e ↦
        rw (e, member-dealt k i keys)
          (left_out (key == k) (member k keys) (shard_of hash n k == i)
            (λ same. sym (shard_eq key k i same) ∙ e))
  ]
