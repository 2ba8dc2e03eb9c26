-- ===== src/Base/Map/Order.antt =====
-- The order of a map: each operation keeps the keys strictly ascending.
use mathlib.Core.Path.{◌≡◌}
use mathlib.Core.Bool.{true}
use mathlib.Core.List.{[], ◌∷◌}
use native.Mathlib.Omega.{arith}
use cs179f_bbfs_project.Base.Map.Defs.{Key, Map, insert, erase}

module _ {ℓ κ} {K : Type ℓ} {V : Type κ} ⦃o : Key K⦄ where
  -- `k` is below every key.
  abbrev pub Below : K → Map K V → Type 0
  Below k [] = Unit
  Below k ((j, w) ∷ m) = (o.lt k j ≡ true) × Below k m

  abbrev pub IsSorted : Map K V → Type 0
  IsSorted [] = Unit
  IsSorted ((k, v) ∷ m) = Below k m × IsSorted m

  Below-trans : (i k : K) (m : Map K V) → o.lt i k ≡ true → Below k m → Below i m
  Below-trans i k [] h b = tt
  Below-trans i k ((j, w) ∷ m) h (hj, b) = (o.lt_trans i k j h hj, Below-trans i k m h b)

  insert-Below :
      (i k : K) (v : V) (m : Map K V) → o.lt i k ≡ true → Below i m → Below i (insert k v m)
  unfolding insert
  insert-Below i k v [] h b = (h, tt)
  insert-Below i k v ((j, w) ∷ m) h (hj, b) = ground (arith, insert-Below i k v m h b)

  pub insert-IsSorted : (k : K) (v : V) (m : Map K V) → IsSorted m → IsSorted (insert k v m)
  unfolding insert
  insert-IsSorted k v [] s = (tt, tt)
  insert-IsSorted k v ((j, w) ∷ m) (b, s) = ground (
    arith,
    insert-IsSorted k v m s,
    insert-Below j k v m,
    o.lt_total k j,
    Below-trans k j m,
    o.beq_iff k j,
  )

  erase-Below : (i k : K) (m : Map K V) → Below i m → Below i (erase k m)
  unfolding erase
  erase-Below i k [] b = tt
  erase-Below i k ((j, w) ∷ m) (hj, b) = ground (arith, erase-Below i k m b)

  pub erase-IsSorted : (k : K) (m : Map K V) → IsSorted m → IsSorted (erase k m)
  unfolding erase
  erase-IsSorted k [] s = tt
  erase-IsSorted k ((j, w) ∷ m) (b, s) = ground (arith, erase-IsSorted k m s, erase-Below j k m b)
