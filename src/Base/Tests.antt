-- ===== src/Base/Tests.antt =====
-- Boolean tests on the native numbers, the conditional, and decidable equality as an interface.
use Prim.Native.Nat.{ℕ, compare, Ordering}
use mathlib.Core.Path.{◌≡◌, refl, ap, subst}
use mathlib.Core.Logic.{◌↔◌, ◌⊎◌, inl, inr}
use mathlib.Core.Bool.{Bool, true, false}
use mathlib.Core.Option.{Option, none, some}
use native.Mathlib.Omega.{arith}

abbrev pub ltb : ℕ → ℕ → Bool
ltb a b = elim (compare a b) [ Ordering.lt ↦ true | _ ↦ false ]

abbrev pub leb : ℕ → ℕ → Bool
leb a b = elim (compare a b) [ Ordering.gt ↦ false | _ ↦ true ]

abbrev pub nat_eq : ℕ → ℕ → Bool
nat_eq a b = elim (compare a b) [ Ordering.eq ↦ true | _ ↦ false ]

infix 1 if◌then◌else◌
abbrev pub if◌then◌else◌ {ℓ} : {A : Type ℓ} → Bool → A → A → A
if true then x else y = x
if false then x else y = y

pub nat_eq_iff : (a b : ℕ) → (nat_eq a b ≡ true) ↔ (a ≡ b)
nat_eq_iff a b = ground arith

-- To split on a computed value and keep the equation.
pub Bool-cases : (b : Bool) → (b ≡ true) ⊎ (b ≡ false)
Bool-cases true = inl refl
Bool-cases false = inr refl

pub Option-cases {ℓ} : {A : Type ℓ} (o : Option A) → (o ≡ none) ⊎ ((a : A) × (o ≡ some a))
Option-cases none = inl refl
Option-cases (some a) = inr (a, refl)

-- Types with a Boolean equality.
pub record Comparable {ℓ} (A : Type ℓ) : Type ℓ where
  pub same_as : A → A → Bool
  pub same_iff : (a b : A) → (same_as a b ≡ true) ↔ (a ≡ b)

infix 50 ◌==◌
abbrev pub ◌==◌ {ℓ} : {A : Type ℓ} ⦃e : Comparable A⦄ → A → A → Bool
◌==◌ ⦃e⦄ = e.same_as

instance abbrev pub nat_Comparable : Comparable ℕ
nat_Comparable = record { same_as = nat_eq; same_iff = nat_eq_iff }

pub eq_of_== {ℓ} : {A : Type ℓ} ⦃e : Comparable A⦄ (a b : A) → (a == b) ≡ true → a ≡ b
eq_of_== ⦃e⦄ a b h = (e.same_iff a b).0 h

pub ==_refl {ℓ} : {A : Type ℓ} ⦃e : Comparable A⦄ (a : A) → (a == a) ≡ true
==_refl ⦃e⦄ a = (e.same_iff a a).1 refl

-- A property of both branches, each under its test.
pub if-cases {ℓ κ} :
    {A : Type ℓ} (P : A → Type κ) (b : Bool) {x y : A}
    → (b ≡ true → P x)
    → (b ≡ false → P y)
    → P (if b then x else y)
if-cases P true h k = h refl
if-cases P false h k = k refl

pub if_some {ℓ} :
    {A : Type ℓ} (b : Bool) {x t : A}
    → (if b then some x else none) ≡ some t
    → (b ≡ true) × (some x ≡ some t)
if_some true h = (refl, h)
if_some false h = absurd (ground arith)

pub unless_some {ℓ} :
    {A : Type ℓ} (b : Bool) {x t : A} → (if b then none else some x) ≡ some t → some x ≡ some t
unless_some true h = absurd (ground arith)
unless_some false h = h

pub if_then {ℓ} : {A : Type ℓ} {b : Bool} (x y : A) → b ≡ true → (if b then x else y) ≡ x
if_then x y h = rw h

pub if_else {ℓ} : {A : Type ℓ} {b : Bool} (x y : A) → b ≡ false → (if b then x else y) ≡ y
if_else x y h = rw h

pub of_some {ℓ κ} : {A : Type ℓ} (P : A → Type κ) {a t : A} → some a ≡ some t → P a → P t
of_some P {a} h p = subst P (ap (λ o. elim o [ none ↦ a | some x ↦ x ]) h) p
