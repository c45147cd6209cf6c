-- ===== src/CannonProxy/Inserts/Filling.antt =====
-- The loops of cannon_proxy/src/proxy_server.cpp that insert a batch into the stores.
use mathlib.Core.Path.{ap₂}
use cpp_project.Prelude.{
  ℕ, zero, suc, ◌+◌, ◌<◌, ◌≤◌, ◌≡◌, ◌∙◌, refl, sym, ap, inl, inr, ◌⊎◌, Bool, true, false, ◌&&◌,
  List, [], ◌∷◌, length, get_or, set, get_or-set, length-set, ◌==◌, if◌then◌else◌, arith,
}
use cpp_project.Run.{ok, ◌>>=◌, at-get_or, put-set}
use cpp_project.CannonProxy.KeyMap.{KeyMap}
use cpp_project.CannonProxy.Store.{Stores, init}
use cpp_project.CannonProxy.StoreServer.{CannonKv}
use cpp_project.CannonProxy.StoreServer
use cpp_project.CannonProxy.Service.Gather.{and_left, le-cases}
use cpp_project.CannonProxy.Inserts.Shares.{dealt_kvs}
use cpp_project.CannonProxy.Inserts.{insert_shards}

and_right : (a b : Bool) → a && b ≡ true → b ≡ true
and_right a b e = ground arith

and_both : (a b : Bool) → a ≡ true → b ≡ true → a && b ≡ true
and_both a b e e' = ground arith

untouched {ℓ} : {A : Type ℓ} (i j : ℕ) (x y : A) → (i < j) ⊎ (j < i) → (if i == j then x else y) ≡ y
untouched i j x y e = ground arith

touched {ℓ} : {A : Type ℓ} (i : ℕ) (x y : A) → (if i == i then x else y) ≡ x
touched i x y = ground arith

set-get_or {ℓ} : {A : Type ℓ} (xs : List A) (i : ℕ) (d : A) → set xs i (get_or xs i d) ≡ xs
set-get_or [] i d = refl
set-get_or (x ∷ xs) zero d = refl
set-get_or (x ∷ xs) (suc i) d = ap (◌∷◌ x) (set-get_or xs i d)

and-true : (b : Bool) → (b && true) ≡ b
and-true true = refl
and-true false = refl

-- The stores are called.
module _ {V : Type 0} (maps : KeyMap V) (delivered : ℕ → Bool) (hash : ℕ → ℕ) (n : ℕ) (version : ℕ)
    (kvs : List (CannonKv V)) (reached : (i : ℕ) → i < n → delivered i ≡ true) where
  -- What becomes of a store.
  abbrev pub filled : ℕ → List (Stores maps) → Stores maps × Bool
  filled i clients =
      StoreServer.insert maps (get_or clients i (init maps)) (dealt_kvs hash n i kvs) version

  -- What the loop has done from one store on.
  pub record IsFilled (i : ℕ) (clients clients' : List (Stores maps)) (ret ret' : Bool)
      : Type 0 where
    pub long : length clients' ≡ length clients
    pub before : (j : ℕ) → j < i → get_or clients' j (init maps) ≡ get_or clients j (init maps)
    pub after : (j : ℕ) → i ≤ j → j < n → get_or clients' j (init maps) ≡ (filled j clients).0
    pub refused :
        ret' ≡ true → (ret ≡ true) × ((j : ℕ) → i ≤ j → j < n → (filled j clients).1 ≡ true)
    pub accepted :
        ret ≡ true → ((j : ℕ) → i ≤ j → j < n → (filled j clients).1 ≡ true) → ret' ≡ true

  insert_shard :
      (shard : List (CannonKv V)) (shards : List (List (CannonKv V))) (i : ℕ)
      (clients : List (Stores maps)) (ret : Bool)
      → length clients ≡ n
      → i < n
      → (r : Stores maps × Bool)
      → StoreServer.insert maps (get_or clients i (init maps)) shard version ≡ r
      → insert_shards maps delivered version (shard ∷ shards) i clients ret
        ≡ insert_shards maps delivered version shards (i + 1) (set clients i r.0) (ret && r.1)
  unfolding insert_shards StoreServer.insert StoreServer.insert_all
  insert_shard [] shards i clients ret long lt r e =
      ap₂ (insert_shards maps delivered version shards (i + 1))
        (sym (set-get_or clients i (init maps)) ∙ ap (λ q. set clients i q.0) e)
        (sym (and-true ret) ∙ ap (λ q. ret && q.1) e)
  insert_shard (kv ∷ rest) shards i clients ret long lt r e =
      rw
        (
          at-get_or clients i (init maps) (rw long lt),
          ◌>>=◌,
          e,
          put-set clients i r.0 (rw long lt),
          ◌>>=◌,
          reached i lt,
        )
        refl

  filled-set :
      (clients : List (Stores maps)) (i j : ℕ) (s : Stores maps)
      → i < length clients
      → i + 1 ≤ j
      → filled j (set clients i s) ≡ filled j clients
  filled-set clients i j s lt later =
      ap (λ c. StoreServer.insert maps c (dealt_kvs hash n j kvs) version)
        (get_or-set clients i j s (init maps) lt
          ∙ untouched i j s (get_or clients j (init maps)) (inl (omega arith)))

  fill_next :
      (i : ℕ) (clients clients' : List (Stores maps)) (ret ret' : Bool)
      → length clients ≡ n
      → i < n
      → IsFilled
          (i + 1)
          (set clients i (filled i clients).0)
          clients'
          (ret && (filled i clients).1)
          ret'
      → IsFilled i clients clients' ret ret'
  fill_next i clients clients' ret ret' long lt is = record {
    long = is.long ∙ length-set clients i (filled i clients).0;
    before = λ j j_lt.
        is.before j (omega arith)
        ∙ (get_or-set clients i j (filled i clients).0 (init maps) (rw long lt)
            ∙ untouched i j (filled i clients).0 (get_or clients j (init maps)) (inr j_lt));
    after = λ j le j_lt. elim (le-cases i j le) [
      | inl e ↦ rw e (
          is.before i (omega arith)
          ∙ (get_or-set clients i i (filled i clients).0 (init maps) (rw long lt)
              ∙ touched i (filled i clients).0 (get_or clients i (init maps))))
      | inr later ↦
          is.after j later j_lt
          ∙ ap (λ q. q.0) (filled-set clients i j (filled i clients).0 (rw long lt) later)
    ];
    refused = λ e. (
      and_left ret (filled i clients).1 (is.refused e).0,
      λ j le j_lt. elim (le-cases i j le) [
        | inl e' ↦ rw e' (and_right ret (filled i clients).1 (is.refused e).0)
        | inr later ↦
            sym (ap (λ q. q.1) (filled-set clients i j (filled i clients).0 (rw long lt) later))
            ∙ (is.refused e).1 j later j_lt
      ],
    );
    accepted = λ e all.
        is.accepted (and_both ret (filled i clients).1 e (all i (omega arith) lt)) (λ j later j_lt.
          ap (λ q. q.1) (filled-set clients i j (filled i clients).0 (rw long lt) later)
          ∙ all j (omega arith) j_lt);
  }

  pub insert_shards_lem :
      (shards : List (List (CannonKv V))) (i : ℕ) (clients : List (Stores maps)) (ret : Bool)
      → length clients ≡ n
      → i + length shards ≡ n
      → ((j : ℕ) → j < length shards → get_or shards j [] ≡ dealt_kvs hash n (i + j) kvs)
      → (clients' : List (Stores maps)) × (ret' : Bool) × (insert_shards maps delivered version
            shards i clients ret
          ≡ ok (clients', ret'))
        × IsFilled i clients clients' ret ret'
  unfolding insert_shards
  insert_shards_lem [] i clients ret long many own = (
    clients,
    ret,
    refl,
    record {
      long = refl;
      before = λ j lt. refl;
      after = λ j le lt. absurd (omega arith);
      refused = λ e. (e, λ j le lt. absurd (omega arith));
      accepted = λ e all. e;
    },
  )
  insert_shards_lem (shard ∷ shards) i clients ret long many own =
      let same : shard ≡ dealt_kvs hash n i kvs =
        own 0 (omega arith) ∙ ap (λ k. dealt_kvs hash n k kvs) (omega arith) in
      let r = filled i clients in
      let (clients', ret', run, is) =
        insert_shards_lem shards (i + 1) (set clients i r.0) (ret && r.1)
          (length-set clients i r.0 ∙ long) (omega arith)
          (λ j lt. own (suc j) (omega arith) ∙ ap (λ k. dealt_kvs hash n k kvs) (omega arith)) in
      (
        clients',
        ret',
        insert_shard shard shards i clients ret long (omega arith) r (
              ap (λ kvs'. StoreServer.insert maps (get_or clients i (init maps)) kvs' version) same)
            ∙ run,
        fill_next i clients clients' ret ret' long (omega arith) is,
      )
