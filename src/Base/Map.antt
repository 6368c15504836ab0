-- ===== src/Base/Map.antt =====
-- Go maps as association lists. An assignment replaces the entry of its key, `delete` drops it.
use mathlib.Core.Path.{◌≡◌, refl, subst₂}
use mathlib.Core.Logic.{inl, inr}
use mathlib.Core.Option.{Option, none, some}
use mathlib.Core.List.{List, [], ◌∷◌}
use native.Mathlib.Omega.{arith}
use polymarket_client.Base.Tests.{Comparable, ◌==◌, if◌then◌else◌, eq_of_==, ==_refl, Bool-cases}
use mathlib.Core.Bool.{Bool, true}
use polymarket_client.Base.Lists.{All, any}

module _ {ℓ κ} {K : Type ℓ} {V : Type κ} ⦃e : Comparable K⦄ where
  unfoldable pub lookup : K → List (K × V) → Option V
  lookup k [] = none
  lookup k ((j, v) ∷ m) = if j == k then some v else lookup k m

  unfoldable pub assign : K → V → List (K × V) → List (K × V)
  assign k v [] = (k, v) ∷ []
  assign k v ((j, w) ∷ m) = if j == k then (k, v) ∷ m else (j, w) ∷ assign k v m

  unfoldable pub delete : K → List (K × V) → List (K × V)
  delete k [] = []
  delete k ((j, v) ∷ m) = let rest = delete k m in if j == k then rest else (j, v) ∷ rest

  -- No key has two entries.
  abbrev pub IsMap : List (K × V) → Type κ
  IsMap [] = Unit
  IsMap ((k, v) ∷ m) = (lookup k m ≡ none) × IsMap m

  pub lookup-assign :
      (k j : K) (v : V) (m : List (K × V))
      → lookup j (assign k v m) ≡ (if k == j then some v else lookup j m)
  unfolding lookup assign
  lookup-assign k j v [] = refl
  lookup-assign k j v ((i, w) ∷ m) =
      ground (arith, e.same_iff k j, e.same_iff i k, e.same_iff i j, lookup-assign k j v m)

  pub lookup-delete :
      (k j : K) (m : List (K × V)) → lookup j (delete k m) ≡ (if k == j then none else lookup j m)
  unfolding lookup delete
  lookup-delete k j [] = ground arith
  lookup-delete k j ((i, w) ∷ m) =
      ground (arith, e.same_iff k j, e.same_iff i k, e.same_iff i j, lookup-delete k j m)

  pub assign-IsMap : (k : K) (v : V) (m : List (K × V)) → IsMap m → IsMap (assign k v m)
  unfolding lookup assign
  assign-IsMap k v [] h = (refl, tt)
  assign-IsMap k v ((i, w) ∷ m) h =
      ground (arith, e.same_iff i k, e.same_iff k i, lookup-assign k i v m, assign-IsMap k v m h.1)

  pub delete-IsMap : (k : K) (m : List (K × V)) → IsMap m → IsMap (delete k m)
  unfolding lookup delete
  delete-IsMap k [] h = tt
  delete-IsMap k ((i, w) ∷ m) h = ground (arith, lookup-delete k i m, delete-IsMap k m h.1)

module _ {ℓ κ μ} {K : Type ℓ} {V : Type κ} ⦃e : Comparable K⦄ (P : K × V → Type μ) where
  pub All-assign : (k : K) (v : V) (m : List (K × V)) → P (k, v) → All P m → All P (assign k v m)
  unfolding assign
  All-assign k v [] h a = (h, tt)
  All-assign k v ((j, w) ∷ m) h a = elim (Bool-cases (j == k)) [
    | inl e ↦ rw e (h, a.1)
    | inr e ↦ rw e (a.0, All-assign k v m h a.1)
  ]

  pub All-delete : (k : K) (m : List (K × V)) → All P m → All P (delete k m)
  unfolding delete
  All-delete k [] a = tt
  All-delete k ((j, w) ∷ m) a = elim (Bool-cases (j == k)) [
    | inl e ↦ rw e (All-delete k m a.1)
    | inr e ↦ rw e (a.0, All-delete k m a.1)
  ]

  pub All-lookup : (k : K) (m : List (K × V)) {v : V} → All P m → lookup k m ≡ some v → P (k, v)
  unfolding lookup
  All-lookup k [] a h = cc
  All-lookup k ((j, w) ∷ m) {v} a h = elim (Bool-cases (j == k)) [
    | inl same ↦
        let p : j ≡ k = eq_of_== j k same in
        let h' = rw same at h in let q : w ≡ v = cc in subst₂ (λ x y. P (x, y)) p q a.0
    | inr other ↦ All-lookup k m a.1 (rw other at h)
  ]

module _ {ℓ κ} {K : Type ℓ} {V : Type κ} ⦃e : Comparable K⦄ (q : K × V → Bool) where
  -- An entry that is found passes the test of some entry.
  pub any-lookup :
      (k : K) (m : List (K × V)) {v : V} → lookup k m ≡ some v → q (k, v) ≡ true → any q m ≡ true
  unfolding lookup
  any-lookup k [] h t = cc
  any-lookup k ((j, w) ∷ m) {v} h t = elim (Bool-cases (j == k)) [
    | inl same ↦
        let p : j ≡ k = eq_of_== j k same in
        let h' = rw same at h in
        let r : w ≡ v = cc in let t' : q (j, w) ≡ true = rw (p, r) t in rw t'
    | inr other ↦ let rest = any-lookup k m (rw other at h) t in ground arith
  ]

  -- In a map each entry is found.
  pub lookup-any :
      (m : List (K × V))
      → IsMap m
      → any q m ≡ true
      → (k : K) × (v : V) × (lookup k m ≡ some v) × (q (k, v) ≡ true)
  unfolding lookup
  lookup-any [] h t = cc
  lookup-any ((j, w) ∷ m) h t = elim (Bool-cases (q (j, w))) [
    | inl here ↦ (j, w, rw (==_refl j), here)
    | inr not_here ↦
        let (k, v, found, passes) = lookup-any m h.1 (rw not_here at t) in
        (k, v, ground (arith, e.same_iff j k), passes)
  ]

  pub any-delete : (k : K) (m : List (K × V)) → any q (delete k m) ≡ true → any q m ≡ true
  unfolding delete
  any-delete k [] h = cc
  any-delete k ((j, w) ∷ m) h = ground (arith, any-delete k m)
