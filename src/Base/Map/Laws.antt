-- ===== src/Base/Map/Laws.antt =====
-- Lookups after each operation of a map.
use mathlib.Core.Path.{◌≡◌, refl}
use mathlib.Core.Option.{none, some}
use mathlib.Core.List.{[], ◌∷◌}
use native.Mathlib.Omega.{arith}
use cs179f_bbfs_project.Base.Tests.{if◌then◌else◌}
use cs179f_bbfs_project.Base.Map.Defs.{Key, Map, find, insert, erase}

module _ {ℓ κ} {K : Type ℓ} {V : Type κ} ⦃o : Key K⦄ where
  pub find-insert :
      (j k : K) (v : V) (m : Map K V)
      → find j (insert k v m) ≡ (if o.beq j k then some v else find j m)
  unfolding find insert
  find-insert j k v [] = refl
  find-insert j k v ((i, w) ∷ m) =
      ground (arith, o.beq_iff j k, o.beq_iff k i, o.beq_iff j i, find-insert j k v m)

  pub find-erase :
      (j k : K) (m : Map K V) → find j (erase k m) ≡ (if o.beq j k then none else find j m)
  unfolding find erase
  find-erase j k [] = ground arith
  find-erase j k ((i, w) ∷ m) =
      ground (arith, o.beq_iff j k, o.beq_iff k i, o.beq_iff j i, find-erase j k m)
