-- ===== src/Base/Lists.antt =====
-- Lists measured by native numbers, predicates on their elements, and membership as a Boolean.
use Prim.Native.Nat.{ℕ, zero, suc, ◌+◌}
use mathlib.Core.Path.{◌≡◌, refl, ap}
use mathlib.Core.Bool.{Bool, true, false, ◌&&◌, ◌||◌}
use mathlib.Core.Logic.{inl, inr}
use mathlib.Core.Option.{Option, none, some}
use mathlib.Core.List.{List, [], ◌∷◌, ◌++◌}
use native.Mathlib.Omega.{arith}
use polymarket_client.Base.Tests.{Comparable, ◌==◌, if◌then◌else◌, Bool-cases}

module _ {ℓ} {A : Type ℓ} where
  abbrev pub length : List A → ℕ
  length [] = 0
  length (x ∷ xs) = suc (length xs)

  pub length-append : (xs ys : List A) → length (xs ++ ys) ≡ length xs + length ys
  length-append [] ys = omega arith
  length-append (x ∷ xs) ys = omega (arith, length-append xs ys)

abbrev pub All {ℓ κ} : {A : Type ℓ} → (A → Type κ) → List A → Type κ
All P [] = Unit
All P (x ∷ xs) = P x × All P xs

-- The loop `for x in xs { if test(x) { out = append(out, x) } }`.
abbrev pub keep_if {ℓ} : {A : Type ℓ} → (A → Bool) → List A → List A
keep_if p [] = []
keep_if p (x ∷ xs) = let rest = keep_if p xs in if p x then x ∷ rest else rest

abbrev pub any {ℓ} : {A : Type ℓ} → (A → Bool) → List A → Bool
any p [] = false
any p (x ∷ xs) = p x || any p xs

abbrev pub is_empty {ℓ} : {A : Type ℓ} → List A → Bool
is_empty [] = true
is_empty (x ∷ xs) = false

module _ {ℓ} {A : Type ℓ} ⦃e : Comparable A⦄ where
  abbrev pub contains : List A → A → Bool
  contains [] a = false
  contains (x ∷ xs) a = (x == a) || contains xs a

  abbrev pub count : A → List A → ℕ
  count a [] = 0
  count a (x ∷ xs) = let rest = count a xs in if x == a then suc rest else rest

  pub contains-append :
      (xs ys : List A) (a : A) → contains (xs ++ ys) a ≡ (contains xs a || contains ys a)
  contains-append [] ys a = refl
  contains-append (x ∷ xs) ys a = ground (arith, contains-append xs ys a)

module _ {ℓ} {A : Type ℓ} ⦃e : Comparable A⦄ where
  pub contains-keep_if :
      (p : A → Bool) (xs : List A) (a : A) → contains (keep_if p xs) a ≡ (contains xs a && p a)
  contains-keep_if p [] a = refl
  contains-keep_if p (x ∷ xs) a = ground (arith, e.same_iff x a, contains-keep_if p xs a)

pub All-keep_if {ℓ κ} :
    {A : Type ℓ} (P : A → Type κ) (p : A → Bool) (xs : List A) → All P xs → All P (keep_if p xs)
All-keep_if P p [] h = tt
All-keep_if P p (x ∷ xs) h = elim (Bool-cases (p x)) [
  | inl e ↦ rw e (h.0, All-keep_if P p xs h.1)
  | inr e ↦ rw e (All-keep_if P p xs h.1)
]

pub contains-nonempty {ℓ} :
    {A : Type ℓ} ⦃e : Comparable A⦄ (xs : List A) (a : A)
    → contains xs a ≡ true
    → is_empty xs ≡ false
contains-nonempty [] a h = cc
contains-nonempty (x ∷ xs) a h = refl

pub is_empty-eq {ℓ} : {A : Type ℓ} (l : List A) → is_empty l ≡ true → l ≡ []
is_empty-eq [] h = refl
is_empty-eq (x ∷ l) h = cc

pub nonempty_of_keep_if {ℓ} :
    {A : Type ℓ} (p : A → Bool) (xs : List A)
    → is_empty (keep_if p xs) ≡ false
    → is_empty xs ≡ false
nonempty_of_keep_if p [] h = cc
nonempty_of_keep_if p (x ∷ xs) h = refl

module _ {ℓ} {A : Type ℓ} where
  abbrev pub get_elem? : List A → ℕ → Option A
  get_elem? [] i = none
  get_elem? (x ∷ xs) zero = some x
  get_elem? (x ∷ xs) (suc i) = get_elem? xs i

  abbrev pub take : ℕ → List A → List A
  take zero xs = []
  take (suc n) [] = []
  take (suc n) (x ∷ xs) = x ∷ take n xs

  abbrev pub drop : ℕ → List A → List A
  drop zero xs = xs
  drop (suc n) [] = []
  drop (suc n) (x ∷ xs) = drop n xs

  -- The parts of a list round the element at an index.
  pub split_at :
      (xs : List A) (i : ℕ) {x : A}
      → get_elem? xs i ≡ some x
      → xs ≡ take i xs ++ (x ∷ drop (suc i) xs)
  split_at [] i h = cc
  split_at (y ∷ ys) zero h = cc
  split_at (y ∷ ys) (suc i) h = ap (◌∷◌ y) (split_at ys i h)

  pub get_elem?-append : (xs : List A) (x : A) → get_elem? (xs ++ (x ∷ [])) (length xs) ≡ some x
  get_elem?-append [] x = refl
  get_elem?-append (y ∷ ys) x = get_elem?-append ys x

  pub take-append : (xs ys : List A) → take (length xs) (xs ++ ys) ≡ xs
  take-append [] ys = refl
  take-append (x ∷ xs) ys = ap (◌∷◌ x) (take-append xs ys)

  pub drop-append : (xs : List A) (x : A) → drop (suc (length xs)) (xs ++ (x ∷ [])) ≡ []
  drop-append [] x = refl
  drop-append (y ∷ ys) x = drop-append ys x
