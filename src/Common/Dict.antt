-- ===== src/Common/Dict.antt =====
-- Go maps as association lists: a lookup of a missing key is `none`, a write replaces the entry of
-- its key or adds one. Iteration order is unspecified in Go; the code sorts where it iterates.
use mathlib.Core.Path.{◌≡◌, refl}
use mathlib.Core.Bool.{true}
use mathlib.Core.Option.{Option, none, some}
use mathlib.Core.List.{List, [], ◌∷◌}
use native.Mathlib.Omega.{arith}
use pgmem.Common.Tests.{Key, ◌==◌, if◌then◌else◌}

abbrev pub Dict {ℓ κ} : Type ℓ → Type κ → Type (ℓ ⊔ κ)
Dict K V = List (K × V)

pub same_refl {ℓ} : {K : Type ℓ} ⦃e : Key K⦄ (k : K) → (k == k) ≡ true
same_refl ⦃e⦄ k = (e.same_iff k k).1 refl

module _ {ℓ κ} {K : Type ℓ} {V : Type κ} ⦃e : Key K⦄ where
  -- m[k], with its second result
  unfoldable pub lookup : K → Dict K V → Option V
  lookup k [] = none
  lookup k ((j, v) ∷ m) = if j == k then some v else lookup k m

  -- m[k] = v
  unfoldable pub insert : K → V → Dict K V → Dict K V
  insert k v [] = (k, v) ∷ []
  insert k v ((j, w) ∷ m) = if j == k then (k, v) ∷ m else (j, w) ∷ insert k v m

  -- delete(m, k)
  unfoldable pub delete : K → Dict K V → Dict K V
  delete k [] = []
  delete k ((j, w) ∷ m) = let rest = delete k m in if j == k then rest else (j, w) ∷ rest

  pub lookup-insert :
      (written asked : K) (value : V) (map : Dict K V)
      → lookup asked (insert written value map)
        ≡ (if written == asked then some value else lookup asked map)
  unfolding lookup insert
  lookup-insert written asked value [] = refl
  lookup-insert written asked value ((i, w) ∷ map) = ground (
    arith,
    e.same_iff i asked,
    e.same_iff i written,
    e.same_iff written asked,
    lookup-insert written asked value map,
  )

  pub lookup-delete :
      (gone asked : K) (map : Dict K V)
      → lookup asked (delete gone map) ≡ (if gone == asked then none else lookup asked map)
  unfolding lookup delete
  lookup-delete gone asked [] = ground arith
  lookup-delete gone asked ((i, w) ∷ map) = ground (
    arith,
    e.same_iff i asked,
    e.same_iff i gone,
    e.same_iff gone asked,
    lookup-delete gone asked map,
  )

  pub lookup-insert_self : (k : K) (v : V) (m : Dict K V) → lookup k (insert k v m) ≡ some v
  lookup-insert_self k v m = simp (lookup-insert, same_refl)
