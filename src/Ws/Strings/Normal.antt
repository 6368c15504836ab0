-- ===== src/Ws/Strings/Normal.antt =====
-- `canonicalStrings` is a normal form: it depends on the values alone, and is idempotent.
use polymarket_client.Base.{
  ◌≡◌, refl, ap, ◌∙◌, sym, ◌↔◌, ◌||◌, List, [], ◌∷◌, ◌++◌, All, any, contains,
}
use mathlib.Core.List.{append-nil}
use polymarket_client.Base.Text.{Text, text_Comparable}
use polymarket_client.Ws.Strings.Defs.{canonical_strings, union_sorted_strings}
use polymarket_client.Ws.Strings.Sorted.{IsSorted, sorted_ext}
use polymarket_client.Ws.Strings.Canonical.{
  has_value, IsCanonical, contains-canonical_strings, canonical_strings-IsSorted,
  canonical_strings-IsCanonical, any-has_value, any-append,
}

-- The ids are strictly increasing, each is trimmed and not blank, and an id is among them exactly
-- if some input is that id after trimming.
pub canonical_strings_lem :
    (vs : List Text)
    → IsSorted (canonical_strings vs)
      × All IsCanonical (canonical_strings vs)
      × ((a : Text) → contains (canonical_strings vs) a ≡ any (has_value a) vs)
canonical_strings_lem vs =
    (canonical_strings-IsSorted vs, canonical_strings-IsCanonical vs, contains-canonical_strings vs)

-- Two inputs have the same ids exactly if they have the same trimmed values that are not blank:
-- order, repetitions, white space and blank entries do not matter.
pub canonical_strings-eq_iff :
    (vs ws : List Text)
    → (canonical_strings vs ≡ canonical_strings ws)
      ↔ ((a : Text) → any (has_value a) vs ≡ any (has_value a) ws)
canonical_strings-eq_iff vs ws = (
  λ e a.
      sym (contains-canonical_strings vs a)
      ∙ ap (λ l. contains l a) e
      ∙ contains-canonical_strings ws a,
  λ h.
      sorted_ext (canonical_strings vs) (canonical_strings ws) (canonical_strings-IsSorted vs)
        (canonical_strings-IsSorted ws)
        (λ a. contains-canonical_strings vs a ∙ h a ∙ sym (contains-canonical_strings ws a)),
)

-- Ids that are in normal form stay as they are.
pub canonical_strings_idem :
    (vs : List Text) → canonical_strings (canonical_strings vs) ≡ canonical_strings vs
canonical_strings_idem vs = (canonical_strings-eq_iff (canonical_strings vs) vs).1 (λ a.
    any-has_value (canonical_strings vs) a (canonical_strings-IsCanonical vs)
    ∙ contains-canonical_strings vs a)

union-append : (a b : List Text) → union_sorted_strings a b ≡ canonical_strings (a ++ b)
unfolding union_sorted_strings
union-append [] b = refl
union-append (x ∷ a) [] = ap canonical_strings (sym (append-nil (x ∷ a)))
union-append (x ∷ a) (y ∷ b) = refl

-- The union is sorted strictly, and its members are the values of the two lists.
pub union_sorted_strings_lem :
    (a b : List Text)
    → IsSorted (union_sorted_strings a b)
      × All IsCanonical (union_sorted_strings a b)
      × ((x : Text)
          → contains (union_sorted_strings a b) x ≡ (any (has_value x) a || any (has_value x) b))
union_sorted_strings_lem a b = rw (union-append a b) (
  canonical_strings-IsSorted (a ++ b),
  canonical_strings-IsCanonical (a ++ b),
  λ x. contains-canonical_strings (a ++ b) x ∙ any-append (has_value x) a b,
)

-- On lists in normal form the union has the members of both.
pub contains-union_sorted_strings :
    (a b : List Text)
    → All IsCanonical a
    → All IsCanonical b
    → (x : Text) → contains (union_sorted_strings a b) x ≡ (contains a x || contains b x)
contains-union_sorted_strings a b h k x =
    (union_sorted_strings_lem a b).2 x ∙ rw (any-has_value a x h, any-has_value b x k)
