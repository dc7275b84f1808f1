-- ===== src/Base/Maps.antt =====
-- Go's maps and sync.Map as association lists; Range runs over the list.
use mathlib.Core.Path.{◌≡◌, refl}
use mathlib.Core.Bool.{true}
use mathlib.Core.Option.{Option, none, some}
use mathlib.Core.List.{List, [], ◌∷◌}
use native.Mathlib.Omega.{arith}
use vectory.Base.Tests.{if◌then◌else◌, Key}

abbrev pub Map : Type 0 → Type 0 → Type 0
Map K V = List (K × V)

pub same_refl : {K : Type 0} ⦃e : Key K⦄ (k : K) → e.same k k ≡ true
same_refl ⦃e⦄ k = (e.same_iff k k).1 refl

module _ {K : Type 0} {V : Type 0} ⦃e : Key K⦄ where
  unfoldable pub load : K → Map K V → Option V
  load k [] = none
  load k ((j, v) ∷ m) = if e.same j k then some v else load k m

  unfoldable pub store : K → V → Map K V → Map K V
  store k v [] = (k, v) ∷ []
  store k v ((j, w) ∷ m) = if e.same j k then (k, v) ∷ m else (j, w) ∷ store k v m

  unfoldable pub delete : K → Map K V → Map K V
  delete k [] = []
  delete k ((j, w) ∷ m) = if e.same j k then delete k m else (j, w) ∷ delete k m

  pub load-store :
      (k j : K) (v : V) (m : Map K V)
      → load j (store k v m) ≡ (if e.same k j then some v else load j m)
  unfolding load store
  load-store k j v [] = refl
  load-store k j v ((i, w) ∷ m) =
      ground (arith, e.same_iff k j, e.same_iff i k, e.same_iff i j, load-store k j v m)

  pub load-delete :
      (k j : K) (m : Map K V) → load j (delete k m) ≡ (if e.same k j then none else load j m)
  unfolding load delete
  load-delete k j [] = ground arith
  load-delete k j ((i, w) ∷ m) =
      ground (arith, e.same_iff k j, e.same_iff i k, e.same_iff i j, load-delete k j m)

  pub load-store_self : (k : K) (v : V) (m : Map K V) → load k (store k v m) ≡ some v
  load-store_self k v m = ground (arith, load-store k k v m, same_refl k)

  pub load-delete_self : (k : K) (m : Map K V) → load k (delete k m) ≡ none
  load-delete_self k m = ground (arith, load-delete k k m, same_refl k)
