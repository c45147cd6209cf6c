-- ===== src/Tests/ReloadTests.antt =====
-- A reload from two files, and the witnesses of the theorems on reloading.
use cpp_project.Prelude.{
  ℕ, ◌≡◌, refl, Bool, true, false, List, [], ◌∷◌, Option, none, some, ◌==◌, if◌then◌else◌, arith,
}
use cpp_project.Run.{ok}
use cpp_project.CannonProxy.Store.{init}
use cpp_project.CannonProxy.StoreServer.{CannonKv}
use cpp_project.CannonProxy.FilesReader.{Line, Stream}
use cpp_project.CannonProxy.Reload.{Service, reload}
use cpp_project.CannonProxy.Reload.Ends.{IsReloaded, reload-stuck, reload-IsReloaded}
use cpp_project.Tests.ProxyTests.{list_map}

-- The file 1 has two lines, of a key and a value each.
abbrev stored : Line → Option Stream
stored [] = none
stored (name ∷ rest) =
    if name == 1
    then some (record { lines = (5 ∷ 51 ∷ []) ∷ (6 ∷ 60 ∷ []) ∷ []; ends = true })
    else none

abbrev parsed : Line → Option (CannonKv ℕ)
parsed [] = none
parsed (key ∷ []) = none
parsed (key ∷ value ∷ rest) = some (record { key = key; value = value })

abbrev proxy : Service list_map
proxy = record {
  clients = init list_map ∷ init list_map ∷ [];
  data_version = 0;
  is_loading = false;
}

reload-stuck_example :
    (s' : Service list_map) × (reload list_map (λ i. true) (λ k. k) parsed stored 3 proxy []
      ≡ ok (s', true))
    × ((fuel' : ℕ) (paths : List Line)
        → reload list_map (λ i. true) (λ k. k) parsed stored fuel' s' paths ≡ ok (s', false))
reload-stuck_example = reload-stuck list_map (λ i. true) (λ k. k) parsed stored 3 proxy refl

reload-IsReloaded_example :
    (s' : Service list_map) × (ret : Bool) × (reload list_map
        (λ i. true)
        (λ k. k)
        parsed
        stored
        3
        proxy
        ((1 ∷ []) ∷ (2 ∷ []) ∷ [])
      ≡ ok (s', ret))
    × IsReloaded list_map (λ i. true) (λ k. k) parsed stored proxy s' ret
reload-IsReloaded_example =
    reload-IsReloaded list_map (λ i. true) (λ k. k) parsed stored 3 proxy (1 ∷ []) ((2 ∷ []) ∷ [])
      refl (omega arith) (omega arith) (λ i lt. refl) refl
      ((_, refl, omega arith), ((_, refl, omega arith), tt))
