-- ===== src/Cannon/Server/Answers.antt =====
-- What the handler answers, in terms of the entries that were loaded.
use mathlib.Core.List.{flatten, append_assoc, append-nil}
use native.Mathlib.Nat.{add-zero}
use cpp_project.Prelude.{
  ℕ, zero, suc, ◌+◌, ◌*◌, ◌≤◌, ◌<◌, ◌≡◌, inl, inr, refl, ap, sym, ◌∙◌, List, [], ◌∷◌, ◌++◌, map,
  Bool, true, false, Option, none, some, length, drop, length-append, replicate, lt→ltb, le→ltb,
  SameElements, arith, if◌then◌else◌,
}
use cpp_project.Run.{Run, ok, fault, ◌>>=◌}
use cpp_project.Memory.Records.{HaveWidth, length-flatten, drop_add, drop-append_add}
use cpp_project.Cannon.HashMap
use cpp_project.Cannon.HashMap.{HashMap}
use cpp_project.Cannon.HashMap.Invariant.{IsLoaded}
use cpp_project.Cannon.HashMap.Seek.{seek-append}
use cpp_project.Cannon.Lookup.{lookup, DistinctKeys, seek-lookup}
use cpp_project.Cannon.Storage.{Storage, seek}
use cpp_project.Cannon.Server.{
  ItemStatus, Status, CannonRequest, CannonResponse, answer, get_loop, get,
}

abbrev pub item_status : Option (List ℕ) → ItemStatus
item_status none = ItemStatus.not_found
item_status (some value) = ItemStatus.found

-- A key that is not there is answered by zero bytes.
abbrev pub item_bytes : ℕ → Option (List ℕ) → List ℕ
item_bytes value_size none = replicate value_size 0
item_bytes value_size (some value) = value

abbrev pub all_found : List (Option (List ℕ)) → Bool
all_found [] = true
all_found (none ∷ items) = false
all_found (some value ∷ items) = all_found items

-- The response `res` with the answers to further keys.
abbrev pub answers : ℕ → List (Option (List ℕ)) → CannonResponse → CannonResponse
answers value_size items res = record {
  status = if all_found items then res.status else Status.partial_ok;
  value_statuses = res.value_statuses ++ map item_status items;
  values = res.values ++ flatten (map (item_bytes value_size) items);
}

same_either : (b : Bool) → (if b then Status.partial_ok else Status.partial_ok) ≡ Status.partial_ok
same_either b = ground arith

response_congr :
    {a a' : Status} {b b' : List ItemStatus} {c c' : List ℕ}
    → a ≡ a'
    → b ≡ b'
    → c ≡ c'
    → ◌≡◌ {A = CannonResponse}
        (record { status = a; value_statuses = b; values = c })
        (record { status = a'; value_statuses = b'; values = c' })
response_congr p q r i = record { status = p i; value_statuses = q i; values = r i }

seek_lem : (s : Storage) (key : List ℕ) → seek s key ≡ HashMap.seek s.store key
unfolding seek
seek_lem s key = refl

bind_assoc :
    {A B C : Type 0} (m : Run A) (f : A → Run B) (g : B → Run C)
    → (m >>= λ a. f a >>= g) ≡ (m >>= f >>= g)
bind_assoc (ok a) f g = refl
bind_assoc (fault e) f g = refl

keys_le : (n w : ℕ) → 0 < w → n ≤ n * w
keys_le n w pos = grind arith

drop_key : {n : ℕ} (key rest : List ℕ) → length key ≡ n → drop n (key ++ rest) ≡ rest
drop_key key rest e =
    rw (← e)
      (ap (λ k. drop k (key ++ rest)) (sym (add-zero (length key))) ∙ drop-append_add 0 key rest)

join_item : (a b c : List ℕ) → (a ++ (b ++ [])) ++ c ≡ a ++ (b ++ c)
join_item a b c = simp (append-nil, append_assoc)

module _ (value_size : ℕ) where
  answers_nil : (res : CannonResponse) → res ≡ answers value_size [] res
  unfolding flatten
  answers_nil res =
      response_congr refl (sym (append-nil res.value_statuses)) (sym (append-nil res.values))

  answers_cons :
      (item : Option (List ℕ)) (items : List (Option (List ℕ))) (res : CannonResponse)
      → answers value_size items (answers value_size (item ∷ []) res)
        ≡ answers value_size (item ∷ items) res
  unfolding flatten
  answers_cons none items res =
      response_congr (same_either (all_found items)) (append_assoc res.value_statuses _ _) (
        join_item res.values (replicate value_size 0) (flatten (map (item_bytes value_size) items)))
  answers_cons (some value) items res =
      response_congr refl (append_assoc res.value_statuses _ _)
        (join_item res.values value (flatten (map (item_bytes value_size) items)))

module _ {s : Storage} {rs : List (List ℕ)} (loaded : IsLoaded s.store rs) (entries : List (List ℕ))
    (same : SameElements rs entries) (distinct : DistinctKeys s.store.key_size entries)
    (pos : 0 < s.store.key_size) where
  abbrev pub looked_up : List (List ℕ) → List (Option (List ℕ))
  looked_up keys = map (λ key. lookup s.store.key_size key entries) keys

  seek-answer :
      (key rest : List ℕ) (res : CannonResponse)
      → length key ≡ s.store.key_size
      → (seek s (key ++ rest) >>= answer s res)
        ≡ ok (answers s.store.value_size (lookup s.store.key_size key entries ∷ []) res)
  unfolding answer flatten
  seek-answer key rest res size = elim (seek-lookup loaded entries key same distinct size) [
    | inl (run, absent) ↦
        rw (seek_lem s (key ++ rest), seek-append s.store key rest size, run, absent)
          (ap ok (response_congr refl refl (ap (λ v. res.values ++ v) (sym (append-nil _)))))
    | inr (offset, value, run, bytes, found) ↦
        rw
          (
            seek_lem s (key ++ rest),
            seek-append s.store key rest size,
            run,
            found,
            ◌>>=◌,
            answer,
            bytes,
          )
          (ap ok (response_congr refl refl (ap (λ v. res.values ++ v) (sym (append-nil value)))))
  ]

  get_loop_lem :
      (fuel : ℕ) (req : CannonRequest) (at : ℕ) (keys : List (List ℕ)) (res : CannonResponse)
      → HaveWidth s.store.key_size keys
      → drop at req.keys ≡ flatten keys
      → at + length (flatten keys) ≡ length req.keys
      → length keys < fuel
      → get_loop fuel s req at res ≡ ok (answers s.store.value_size (looked_up keys) res)
  unfolding get_loop flatten
  get_loop_lem zero req at keys res widths left total enough = absurd (omega arith)
  get_loop_lem (suc fuel) req at [] res widths left total enough =
      rw (get_loop, le→ltb at (length req.keys) (omega arith))
        (ap ok (answers_nil s.store.value_size res))
  get_loop_lem (suc fuel) req at (key ∷ keys) res widths left total enough =
      let size = widths.0 in
      let joined = length-append key (flatten keys) in
      let step = seek-answer key (flatten keys) res size in
      let rest =
        get_loop_lem fuel req (at + s.store.key_size) keys
          (answers s.store.value_size (lookup s.store.key_size key entries ∷ []) res) widths.1
          (drop_add at s.store.key_size req.keys
            ∙ (ap (drop s.store.key_size) left ∙ drop_key key (flatten keys) size))
          (omega arith) (omega arith) in
      rw
        (
          get_loop,
          lt→ltb at (length req.keys) (omega arith),
          left,
          bind_assoc (seek s (key ++ flatten keys)) (answer s res)
              (get_loop fuel s req (at + s.store.key_size)),
          step,
        )
        (rest
          ∙ ap ok (
              answers_cons s.store.value_size (lookup s.store.key_size key entries) (looked_up keys)
                res))

  -- For a request of whole keys, a loaded storage of which no key occurs twice answers each key in
  -- turn: found with its value, or not found with zero bytes. The status says whether all were found.
  pub get-answers :
      (keys : List (List ℕ)) (res : CannonResponse)
      → HaveWidth s.store.key_size keys
      → get s res (record { keys = flatten keys })
        ≡ ok (answers s.store.value_size (looked_up keys) (record res { status = Status.all_ok }))
  unfolding get
  get-answers keys res widths =
      get_loop_lem (length (flatten keys) + 1) (record { keys = flatten keys }) 0 keys
        (record res { status = Status.all_ok }) widths refl (omega arith)
        (omega (
          arith,
          length-flatten s.store.key_size keys widths,
          keys_le (length keys) s.store.key_size pos,
        ))
