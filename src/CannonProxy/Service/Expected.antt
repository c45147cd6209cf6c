-- ===== src/CannonProxy/Service/Expected.antt =====
-- What a query of cannon_proxy/src/proxy_server.cpp should answer, from what is held for each key,
-- and the loop's answer before and after all keys.
use cpp_project.Prelude.{
  ℕ, ◌≡◌, refl, Bool, true, false, ◌&&◌, not, List, [], ◌∷◌, length, replicate, get_or, Option,
  if◌then◌else◌,
}
use mathlib.Core.Path.{ap₂}
use cpp_project.CannonProxy.KeyMap.{KeyMap}
use cpp_project.CannonProxy.Store.{Stores, init}
use cpp_project.CannonProxy.Store.Laws.{held, absent}
use cpp_project.CannonProxy.StoreServer.{ItemStatus, Status, ValueItem}
use cpp_project.CannonProxy.StoreServer.Batches.{as_item}
use cpp_project.CannonProxy.Service.Written.{
  member, member-head, member-tail, written, written-none, written_same,
}
use cpp_project.CannonProxy.Service.Merge.{clean, progress}
use cpp_project.CannonProxy.Service.Shards.{shard_of}

swap_if {ℓ} :
    {A : Type ℓ} (b : Bool) (x y : A) → (if not b && true then x else y) ≡ (if b then y else x)
swap_if true x y = refl
swap_if false x y = refl

module _ {V : Type 0} (h : ℕ → Option V) where
  unfoldable pub all_held : List ℕ → Bool
  unfolding absent
  all_held [] = true
  all_held (k ∷ ks) = not (absent (h k)) && all_held ks

module _ {V : Type 0} (zero_value : V) (h : ℕ → Option V) where
  -- The last of equal keys gets the item of its key; the earlier ones keep the item that a new
  -- answer begins with, found with the value 0.
  unfoldable pub answers_of : List ℕ → List (ValueItem V)
  unfolding member as_item
  answers_of [] = []
  answers_of (k ∷ ks) =
      (if member k ks
        then record { status = ItemStatus.found; value = zero_value }
        else as_item zero_value (h k))
      ∷ answers_of ks

  clean-none : (keys : List ℕ) → clean h (λ k. false) keys ≡ true
  unfolding clean
  clean-none [] = refl
  clean-none (k ∷ ks) = clean-none ks

  clean-all :
      (keys : List ℕ) (done : ℕ → Bool)
      → ((k : ℕ) → member k keys ≡ true → done k ≡ true)
      → clean h done keys ≡ all_held h keys
  unfolding clean all_held
  clean-all [] done all = refl
  clean-all (k ∷ ks) done all =
      rw (all k (member-head k ks), clean-all ks done (λ j there. all j (member-tail j k ks there)))
        refl

  written-all :
      (keys : List ℕ)
      → written
          (record { status = ItemStatus.found; value = zero_value })
          (λ k. as_item zero_value (h k))
          (λ k. true)
          keys
        ≡ answers_of keys
  unfolding written answers_of
  written-all [] = refl
  written-all (k ∷ ks) =
      ap₂ ◌∷◌ (swap_if (member k ks) (as_item zero_value (h k)) _) (written-all ks)

  pub progress-none :
      (keys : List ℕ)
      → progress zero_value h keys (λ k. false) ≡ record {
        status = Status.all_ok;
        values = replicate (length keys) (record { status = ItemStatus.found; value = zero_value });
      }
  unfolding progress
  progress-none keys =
      rw
        (
          written-none (record { status = ItemStatus.found; value = zero_value })
              (λ k. as_item zero_value (h k)) keys,
          clean-none keys,
        )
        refl

  pub progress-all :
      (keys : List ℕ) (done : ℕ → Bool)
      → ((k : ℕ) → member k keys ≡ true → done k ≡ true)
      → progress zero_value h keys done ≡ record {
        status = if all_held h keys then Status.all_ok else Status.partial_ok;
        values = answers_of keys;
      }
  unfolding progress
  progress-all keys done all =
      rw
        (
          clean-all keys done all,
          written_same (record { status = ItemStatus.found; value = zero_value })
              (λ k. as_item zero_value (h k)) done (λ k. true) keys all,
          written-all keys,
        )
        refl

module _ {V : Type 0} (maps : KeyMap V) (hash : ℕ → ℕ) (clients : List (Stores maps))
    (data_version : ℕ) where
  -- What the store of a key holds for it.
  unfoldable pub held_for : ℕ → Option V
  unfolding held shard_of
  held_for key =
      held maps (get_or clients (shard_of hash (length clients) key) (init maps)) data_version key
