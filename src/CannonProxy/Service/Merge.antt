-- ===== src/CannonProxy/Service/Merge.antt =====
-- The loop of cannon_proxy/src/proxy_server.cpp over the keys of one store's answer.
use cpp_project.Prelude.{
  ℕ, zero, suc, ◌+◌, ◌<◌, ◌≡◌, ◌∙◌, refl, ap, Bool, true, false, ◌&&◌, ◌||◌, not, List, [], ◌∷◌,
  length, drop, map, Bool-cases, inl, inr, Option, none, some, ◌==◌, ==_iff, if◌then◌else◌, arith,
}
use cpp_project.Run.{ok, ◌>>=◌, at, put, put-set}
use cpp_project.CannonProxy.Store.Laws.{absent}
use cpp_project.CannonProxy.StoreServer.{ItemStatus, Status, ValueItem, CannonResponse}
use cpp_project.CannonProxy.StoreServer.Batches.{as_item}
use cpp_project.CannonProxy.Service.{idx_of, status_after, merge_keys}
use cpp_project.CannonProxy.Service.Written.{
  member, member-head, member-tail, last_place, last_place-lt, written, length-written, set-written,
}

module _ {ℓ} {A : Type ℓ} where
  at-drop : (j : ℕ) (xs : List A) (y : A) (ys : List A) → drop j xs ≡ y ∷ ys → at xs j ≡ ok y
  unfolding at
  at-drop zero [] y ys e = cc
  at-drop zero (x ∷ xs) y ys e = cc
  at-drop (suc j) [] y ys e = cc
  at-drop (suc j) (x ∷ xs) y ys e = at-drop j xs y ys e

  drop-suc : (j : ℕ) (xs : List A) (y : A) (ys : List A) → drop j xs ≡ y ∷ ys → drop (suc j) xs ≡ ys
  drop-suc zero [] y ys e = cc
  drop-suc zero (x ∷ xs) y ys e = cc
  drop-suc (suc j) [] y ys e = cc
  drop-suc (suc j) (x ∷ xs) y ys e = drop-suc j xs y ys e

  drop-next :
      (j : ℕ) (xs : List A) (y : A) (ys : List A) → drop j xs ≡ y ∷ ys → drop (j + 1) xs ≡ ys
  drop-next j xs y ys e = ap (λ i. drop i xs) next ∙ drop-suc j xs y ys e
    where
      next : j + 1 ≡ suc j
      next = omega arith

-- The keys that are done after some more.
unfoldable pub after : List ℕ → (ℕ → Bool) → ℕ → Bool
after [] done = done
after (key ∷ keys) done = after keys (λ k. k == key || done k)

pub after-member :
    (keys : List ℕ) (done : ℕ → Bool) (k : ℕ) → after keys done k ≡ (member k keys || done k)
unfolding after member
after-member [] done k = refl
after-member (key ∷ keys) done k = after-member keys (λ i. i == key || done i) k ∙ ground arith

same_head : (d c m f : Bool) → f && (c && (not m || f)) ≡ ((not d || f) && c) && f
same_head d c m f = ground arith

other_head : (a b c : Bool) → a && (b && c) ≡ (a && b) && c
other_head a b c = ground arith

module _ {V : Type 0} (h : ℕ → Option V) where
  -- Whether all keys that are done were found.
  unfoldable pub clean : (ℕ → Bool) → List ℕ → Bool
  clean done [] = true
  clean done (k ∷ ks) = (not (done k) || not (absent (h k))) && clean done ks

  absent_same : (k key : ℕ) → (k == key) ≡ true → absent (h k) ≡ absent (h key)
  absent_same k key e = ap (λ j. absent (h j)) ((==_iff k key).0 e)

  clean-add :
      (done : ℕ → Bool) (key : ℕ) (ks : List ℕ)
      → clean (λ k. k == key || done k) ks
        ≡ clean done ks && (not (member key ks) || not (absent (h key)))
  unfolding clean member
  clean-add done key [] = refl
  clean-add done key (k ∷ ks) = elim (Bool-cases (k == key)) [
    | inl e ↦
        rw (e, clean-add done key ks, absent_same k key e)
          (same_head (done k) (clean done ks) (member key ks) (not (absent (h key))))
    | inr e ↦
        rw (e, clean-add done key ks)
          (other_head (not (done k) || not (absent (h k))) (clean done ks)
            (not (member key ks) || not (absent (h key))))
  ]

  status-after :
      (clean_so_far : Bool) (zero_value : V) (o : Option V)
      → status_after
          (as_item zero_value o).status
          (if clean_so_far then Status.all_ok else Status.partial_ok)
        ≡ (if clean_so_far && not (absent o) then Status.all_ok else Status.partial_ok)
  unfolding status_after as_item absent
  status-after true zero_value none = refl
  status-after true zero_value (some v) = refl
  status-after false zero_value none = refl
  status-after false zero_value (some v) = refl

module _ {V : Type 0} (zero_value : V) (h : ℕ → Option V) (req : List ℕ) where
  -- The answer while some keys are done.
  unfoldable pub progress : (ℕ → Bool) → CannonResponse V
  progress done = record {
    status = if clean h done req then Status.all_ok else Status.partial_ok;
    values =
        written (record { status = ItemStatus.found; value = zero_value })
          (λ k. as_item zero_value (h k)) done req;
  }

  in_range :
      (done : ℕ → Bool) (key : ℕ)
      → member key req ≡ true
      → last_place key req < length (progress done).values
  unfolding progress
  in_range done key there = omega (
    arith,
    last_place-lt req key there,
    length-written (record { status = ItemStatus.found; value = zero_value })
        (λ k. as_item zero_value (h k)) done req,
  )

  merge_key :
      (key_idx : List (ℕ × ℕ)) (done : ℕ → Bool) (key : ℕ)
      → member key req ≡ true
      → idx_of key_idx key ≡ last_place key req
      → put (progress done).values (idx_of key_idx key) (as_item zero_value (h key))
        ≡ ok (progress (λ k. k == key || done k)).values
  unfolding progress
  merge_key key_idx done key there place =
      rw
        (
          place,
          put-set (written _ (λ k. as_item zero_value (h k)) done req) (last_place key req)
              (as_item zero_value (h key)) (in_range done key there),
        )
        (ap ok (set-written _ (λ k. as_item zero_value (h k)) done req key there))

  merge_status :
      (done : ℕ → Bool) (key : ℕ)
      → member key req ≡ true
      → status_after (as_item zero_value (h key)).status (progress done).status
        ≡ (progress (λ k. k == key || done k)).status
  unfolding progress
  merge_status done key there =
      status-after h (clean h done req) zero_value (h key)
      ∙ rw (clean-add h done key req, there) refl

  pub merge_keys_lem :
      (key_idx : List (ℕ × ℕ))
      → ((k : ℕ) → member k req ≡ true → idx_of key_idx k ≡ last_place k req)
      → (keys : List ℕ) (j : ℕ) (result : List (ValueItem V)) (done : ℕ → Bool)
      → ((k : ℕ) → member k keys ≡ true → member k req ≡ true)
      → drop j result ≡ map (λ k. as_item zero_value (h k)) keys
      → merge_keys key_idx result keys j (progress done) ≡ ok (progress (after keys done))
  unfolding merge_keys after
  merge_keys_lem key_idx places [] j result done inside rest = refl
  merge_keys_lem key_idx places (key ∷ keys) j result done inside rest =
      let there = inside key (member-head key keys) in
      let items = map (λ k. as_item zero_value (h k)) keys in
      rw
        (
          at-drop j result (as_item zero_value (h key)) items rest,
          ◌>>=◌,
          merge_key key_idx done key there (places key there),
          ◌>>=◌,
          merge_status done key there,
        )
        (merge_keys_lem key_idx places keys (j + 1) result (λ k. k == key || done k)
          (λ k k_there. inside k (member-tail k key keys k_there))
          (drop-next j result (as_item zero_value (h key)) items rest))
