-- ===== src/Ws/Strings/Canonical.antt =====
-- What `canonicalStrings` and `unionSortedStrings` compute.
use polymarket_client.Base.{
  ◌≡◌, refl, ◌∙◌, inl, inr, Bool, false, not, ◌&&◌, ◌||◌, List, [], ◌∷◌, ◌++◌, arith, All, any,
  contains, is_empty, Bool-cases, contains-append,
}
use polymarket_client.Base.Text.{Text, text_eq, text_lt, text_eq_iff, trim_space, text_Comparable}
use polymarket_client.Base.Trim.{trim_space_idem}
use polymarket_client.Ws.Strings.Defs.{
  insert_string, canonical_loop, sort_strings, canonical_strings,
}
use polymarket_client.Ws.Strings.Sorted.{
  IsSorted, IsDistinct, contains-sort_strings, sort_strings-IsSorted,
}

-- The value `a` stands in an entry, with white space round it perhaps, and is not blank.
abbrev pub has_value : Text → Text → Bool
has_value a v = not (is_empty (trim_space v)) && text_eq (trim_space v) a

abbrev pub IsCanonical : Text → Type 0
IsCanonical x = (trim_space x ≡ x) × (is_empty x ≡ false)

abbrev SameMembers : List Text → List Text → Type 0
SameMembers xs ys = (a : Text) → contains xs a ≡ contains ys a

seen-snoc :
    (x : Text) (seen out : List Text)
    → SameMembers seen out
    → SameMembers (x ∷ seen) (out ++ (x ∷ []))
seen-snoc x seen out h a = ground (arith, h a, contains-append out (x ∷ []) a)

IsDistinct-snoc :
    (x : Text) (xs : List Text)
    → IsDistinct xs
    → contains xs x ≡ false
    → IsDistinct (xs ++ (x ∷ []))
IsDistinct-snoc x [] h k = (refl, tt)
IsDistinct-snoc x (y ∷ ys) h k = ground (
  arith,
  text_eq_iff y x,
  text_eq_iff x y,
  contains-append ys (x ∷ []) y,
  IsDistinct-snoc x ys h.1,
)

All-snoc {ℓ κ} :
    {A : Type ℓ} (P : A → Type κ) (x : A) (xs : List A) → All P xs → P x → All P (xs ++ (x ∷ []))
All-snoc P x [] h k = (k, tt)
All-snoc P x (y ∷ ys) h k = (h.0, All-snoc P x ys h.1 k)

contains-canonical_loop :
    (vs seen out : List Text)
    → SameMembers seen out
    → (a : Text)
    → contains (canonical_loop vs seen out) a ≡ (contains out a || any (has_value a) vs)
unfolding canonical_loop
contains-canonical_loop [] seen out h a = ground arith
contains-canonical_loop (v ∷ vs) seen out h a =
    let x = trim_space v in
    ground (
      arith,
      text_eq_iff x a,
      h x,
      contains-append out (x ∷ []) a,
      contains-canonical_loop vs seen out h a,
      contains-canonical_loop vs (x ∷ seen) (out ++ (x ∷ [])) (seen-snoc x seen out h) a,
    )

canonical_loop-IsDistinct :
    (vs seen out : List Text)
    → SameMembers seen out
    → IsDistinct out
    → IsDistinct (canonical_loop vs seen out)
unfolding canonical_loop
canonical_loop-IsDistinct [] seen out h d = d
canonical_loop-IsDistinct (v ∷ vs) seen out h d =
    let x = trim_space v in
    ground (
      arith,
      h x,
      canonical_loop-IsDistinct vs seen out h d,
      IsDistinct-snoc x out d,
      canonical_loop-IsDistinct vs (x ∷ seen) (out ++ (x ∷ [])) (seen-snoc x seen out h),
    )

pub contains-canonical_strings :
    (vs : List Text) (a : Text) → contains (canonical_strings vs) a ≡ any (has_value a) vs
unfolding canonical_strings
contains-canonical_strings [] a = refl
contains-canonical_strings (v ∷ vs) a =
    contains-sort_strings (canonical_loop (v ∷ vs) [] []) a
    ∙ contains-canonical_loop (v ∷ vs) [] [] (λ b. refl) a

pub canonical_strings-IsSorted : (vs : List Text) → IsSorted (canonical_strings vs)
unfolding canonical_strings
canonical_strings-IsSorted [] = tt
canonical_strings-IsSorted (v ∷ vs) =
    sort_strings-IsSorted (canonical_loop (v ∷ vs) [] [])
      (canonical_loop-IsDistinct (v ∷ vs) [] [] (λ b. refl) tt)

canonical_loop-IsCanonical :
    (vs seen out : List Text) → All IsCanonical out → All IsCanonical (canonical_loop vs seen out)
unfolding canonical_loop
canonical_loop-IsCanonical [] seen out h = h
canonical_loop-IsCanonical (v ∷ vs) seen out h =
    let x = trim_space v in
    elim (Bool-cases (is_empty x)) [
      | inl e ↦ rw e (canonical_loop-IsCanonical vs seen out h)
      | inr e ↦ elim (Bool-cases (contains seen x)) [
        | inl s ↦ rw (e, s) (canonical_loop-IsCanonical vs seen out h)
        | inr s ↦
            rw (e, s)
              (canonical_loop-IsCanonical vs (x ∷ seen) (out ++ (x ∷ []))
                (All-snoc IsCanonical x out h (trim_space_idem v, e)))
      ]
    ]

All-insert_string {κ} :
    (P : Text → Type κ) (x : Text) (ys : List Text) → P x → All P ys → All P (insert_string x ys)
unfolding insert_string
All-insert_string P x [] h k = (h, tt)
All-insert_string P x (y ∷ ys) h k = elim (Bool-cases (text_lt y x)) [
  | inl e ↦ rw e (k.0, All-insert_string P x ys h k.1)
  | inr e ↦ rw e (h, k)
]

All-sort_strings {κ} : (P : Text → Type κ) (xs : List Text) → All P xs → All P (sort_strings xs)
unfolding sort_strings
All-sort_strings P [] h = tt
All-sort_strings P (x ∷ xs) h =
    All-insert_string P x (sort_strings xs) h.0 (All-sort_strings P xs h.1)

pub canonical_strings-IsCanonical : (vs : List Text) → All IsCanonical (canonical_strings vs)
unfolding canonical_strings
canonical_strings-IsCanonical [] = tt
canonical_strings-IsCanonical (v ∷ vs) =
    All-sort_strings IsCanonical (canonical_loop (v ∷ vs) [] [])
      (canonical_loop-IsCanonical (v ∷ vs) [] [] tt)

-- On trimmed values that are not blank the values are the members.
pub any-has_value :
    (xs : List Text) (a : Text) → All IsCanonical xs → any (has_value a) xs ≡ contains xs a
any-has_value [] a h = refl
any-has_value (x ∷ xs) a h = rw (h.0.0, h.0.1, any-has_value xs a h.1)

pub any-append {ℓ} :
    {A : Type ℓ} (p : A → Bool) (xs ys : List A) → any p (xs ++ ys) ≡ (any p xs || any p ys)
any-append p [] ys = refl
any-append p (x ∷ xs) ys = ground (arith, any-append p xs ys)
