-- ===== src/Ws/Strings/Sorted.antt =====
-- Strictly sorted lists of texts: sorting gives them, and their members determine them.
use polymarket_client.Base.{
  ◌≡◌, refl, ap, ◌∙◌, sym, inl, inr, true, false, ◌||◌, List, [], ◌∷◌, arith, All, contains,
  Bool-cases, ==_refl, Bool, keep_if, contains-keep_if,
}
use polymarket_client.Base.Text.{
  Text, text_lt, text_eq, text_eq_iff, text_lt_irrefl, text_lt_trans, text_lt_total,
  text_Comparable,
}
use polymarket_client.Ws.Strings.Defs.{insert_string, sort_strings}

abbrev pub IsBelow : Text → List Text → Type 0
IsBelow x = All (λ y. text_lt x y ≡ true)

-- Each element is strictly below all that follow it.
abbrev pub IsSorted : List Text → Type 0
IsSorted [] = Unit
IsSorted (x ∷ xs) = IsBelow x xs × IsSorted xs

abbrev pub IsDistinct : List Text → Type 0
IsDistinct [] = Unit
IsDistinct (x ∷ xs) = (contains xs x ≡ false) × IsDistinct xs

pub contains-IsBelow : (x : Text) (ys : List Text) → IsBelow x ys → contains ys x ≡ false
contains-IsBelow x [] h = refl
contains-IsBelow x (y ∷ ys) h =
    ground (arith, text_eq_iff y x, text_lt_irrefl x, contains-IsBelow x ys h.1)

pub IsBelow-trans : (x y : Text) (ys : List Text) → text_lt x y ≡ true → IsBelow y ys → IsBelow x ys
IsBelow-trans x y [] h k = tt
IsBelow-trans x y (z ∷ zs) h k = (text_lt_trans x y z h k.0, IsBelow-trans x y zs h k.1)

contains-insert_string :
    (x : Text) (ys : List Text) (a : Text)
    → contains (insert_string x ys) a ≡ (text_eq x a || contains ys a)
unfolding insert_string
contains-insert_string x [] a = refl
contains-insert_string x (y ∷ ys) a = ground (arith, contains-insert_string x ys a)

pub contains-sort_strings :
    (xs : List Text) (a : Text) → contains (sort_strings xs) a ≡ contains xs a
unfolding sort_strings
contains-sort_strings [] a = refl
contains-sort_strings (x ∷ xs) a =
    ground (arith, contains-insert_string x (sort_strings xs) a, contains-sort_strings xs a)

insert_string-IsBelow :
    (b x : Text) (ys : List Text)
    → text_lt b x ≡ true
    → IsBelow b ys
    → IsBelow b (insert_string x ys)
unfolding insert_string
insert_string-IsBelow b x [] h k = (h, tt)
insert_string-IsBelow b x (y ∷ ys) h k = ground (arith, insert_string-IsBelow b x ys)

insert_string-IsSorted :
    (x : Text) (ys : List Text)
    → contains ys x ≡ false
    → IsSorted ys
    → IsSorted (insert_string x ys)
unfolding insert_string
insert_string-IsSorted x [] h k = (tt, tt)
insert_string-IsSorted x (y ∷ ys) h k = elim (Bool-cases (text_lt y x)) [
  | inl e ↦
      rw e (insert_string-IsBelow y x ys e k.0, insert_string-IsSorted x ys (ground arith) k.1)
  | inr e ↦
      let below : text_lt x y ≡ true = text_lt_total y x e (ground arith) in
      rw e ((below, IsBelow-trans x y ys below k.0), k)
]

pub sort_strings-IsSorted : (xs : List Text) → IsDistinct xs → IsSorted (sort_strings xs)
unfolding sort_strings
sort_strings-IsSorted [] h = tt
sort_strings-IsSorted (x ∷ xs) h =
    insert_string-IsSorted x (sort_strings xs) (contains-sort_strings xs x ∙ h.0)
      (sort_strings-IsSorted xs h.1)

-- Of two sorted lists with the same members neither begins below the other.
heads_lt :
    (x y : Text) (xs ys : List Text)
    → IsBelow y ys
    → text_lt x y ≡ true
    → contains (x ∷ xs) x ≡ contains (y ∷ ys) x
    → ⊥
heads_lt x y xs ys h lt e = ground (
  arith,
  ==_refl x,
  text_eq_iff y x,
  text_lt_irrefl x,
  contains-IsBelow x ys (IsBelow-trans x y ys lt h),
)

tails :
    (x : Text) (xs ys : List Text)
    → IsBelow x xs
    → IsBelow x ys
    → ((a : Text) → contains (x ∷ xs) a ≡ contains (x ∷ ys) a)
    → (a : Text) → contains xs a ≡ contains ys a
tails x xs ys h k e a = elim (Bool-cases (text_eq x a)) [
  | inl same ↦
      let p : x ≡ a = (text_eq_iff x a).0 same in
      rw (← p) (contains-IsBelow x xs h ∙ sym (contains-IsBelow x ys k))
  | inr other ↦ rw other at (e a)
]

pub sorted_ext :
    (xs ys : List Text)
    → IsSorted xs
    → IsSorted ys
    → ((a : Text) → contains xs a ≡ contains ys a)
    → xs ≡ ys
sorted_ext [] [] h k e = refl
sorted_ext [] (y ∷ ys) h k e = absurd (ground (arith, e y, ==_refl y))
sorted_ext (x ∷ xs) [] h k e = absurd (ground (arith, e x, ==_refl x))
sorted_ext (x ∷ xs) (y ∷ ys) h k e = elim (Bool-cases (text_lt x y)) [
  | inl lt ↦ absurd (heads_lt x y xs ys k.0 lt (e x))
  | inr nlt ↦ elim (Bool-cases (text_eq x y)) [
    | inl same ↦
        let p : x ≡ y = (text_eq_iff x y).0 same in
        let below : IsBelow x ys = rw p k.0 in
        let e' : (a : Text) → contains (x ∷ xs) a ≡ contains (x ∷ ys) a = rw (← p) at e in
        ap (◌∷◌ x) (sorted_ext xs ys h.1 k.1 (tails x xs ys h.0 below e')) ∙ ap (λ z. z ∷ ys) p
    | inr differ ↦ absurd (heads_lt y x ys xs h.0 (text_lt_total x y nlt differ) (sym (e y)))
  ]
]

pub IsSorted-IsDistinct : (xs : List Text) → IsSorted xs → IsDistinct xs
IsSorted-IsDistinct [] h = tt
IsSorted-IsDistinct (x ∷ xs) h = (contains-IsBelow x xs h.0, IsSorted-IsDistinct xs h.1)

pub keep_if-IsDistinct :
    (p : Text → Bool) (xs : List Text) → IsDistinct xs → IsDistinct (keep_if p xs)
keep_if-IsDistinct p [] h = tt
keep_if-IsDistinct p (x ∷ xs) h = elim (Bool-cases (p x)) [
  | inl e ↦ rw e (ground (arith, contains-keep_if p xs x, h.0), keep_if-IsDistinct p xs h.1)
  | inr e ↦ rw e (keep_if-IsDistinct p xs h.1)
]
