-- ===== src/Base/Trim.antt =====
-- `strings.TrimSpace` is idempotent, and keeps texts without white space.
use mathlib.Core.List.{reverse, reverse_aux, reverse-append, reverse-reverse}
use polymarket_client.Base.{ℕ, ◌≡◌, refl, sym, ap, ◌∙◌, inl, inr, false, [], ◌∷◌, ◌++◌, Bool-cases}
use polymarket_client.Base.Lists.{All}
use polymarket_client.Base.Text.{Text, is_space, trim_left, trim_space}

abbrev StartsClean : Text → Type 0
StartsClean [] = Unit
StartsClean (c ∷ s) = is_space c ≡ false

trim_left-StartsClean : (s : Text) → StartsClean (trim_left s)
unfolding trim_left
trim_left-StartsClean [] = tt
trim_left-StartsClean (c ∷ s) = elim (Bool-cases (is_space c)) [
  | inl e ↦ rw e (trim_left-StartsClean s)
  | inr e ↦ rw e e
]

trim_left_of_StartsClean : (s : Text) → StartsClean s → trim_left s ≡ s
unfolding trim_left
trim_left_of_StartsClean [] h = refl
trim_left_of_StartsClean (c ∷ s) h = rw h

trim_left_suffix : (s : Text) → (p : Text) × (s ≡ p ++ trim_left s)
unfolding trim_left
trim_left_suffix [] = ([], refl)
trim_left_suffix (c ∷ s) = elim (Bool-cases (is_space c)) [
  | inl e ↦ let (p, q) = trim_left_suffix s in (c ∷ p, rw e (ap (◌∷◌ c) q))
  | inr e ↦ ([], rw e)
]

StartsClean-append : (a b : Text) → StartsClean (a ++ b) → StartsClean a
StartsClean-append [] b h = tt
StartsClean-append (c ∷ a) b h = h

abbrev trim_right : Text → Text
trim_right s = reverse (trim_left (reverse s))

trim_right-StartsClean : (t : Text) → StartsClean t → StartsClean (trim_right t)
trim_right-StartsClean t h =
    let (p, q) = trim_left_suffix (reverse t) in
    let e : t ≡ trim_right t ++ reverse p =
      sym (reverse-reverse t) ∙ ap reverse q ∙ reverse-append p (trim_left (reverse t)) in
    StartsClean-append (trim_right t) (reverse p) (rw e at h)

-- Trimming twice is trimming once.
pub trim_space_idem : (s : Text) → trim_space (trim_space s) ≡ trim_space s
unfolding trim_space
trim_space_idem s = rw (
  trim_left_of_StartsClean (trim_right (trim_left s))
      (trim_right-StartsClean (trim_left s) (trim_left-StartsClean s)),
  reverse-reverse (trim_left (reverse (trim_left s))),
  trim_left_of_StartsClean (trim_left (reverse (trim_left s)))
      (trim_left-StartsClean (reverse (trim_left s))),
)

-- Texts without white space.
abbrev pub IsSolid : ℕ → Type 0
IsSolid c = is_space c ≡ false

trim_left-AllSolid : (l : Text) → All IsSolid l → trim_left l ≡ l
unfolding trim_left
trim_left-AllSolid [] h = refl
trim_left-AllSolid (c ∷ l) h = rw h.0 refl

reverse_aux-AllSolid :
    (l acc : Text) → All IsSolid l → All IsSolid acc → All IsSolid (reverse_aux l acc)
reverse_aux-AllSolid [] acc h k = k
reverse_aux-AllSolid (c ∷ l) acc h k = reverse_aux-AllSolid l (c ∷ acc) h.1 (h.0, k)

pub trim_space-AllSolid : (l : Text) → All IsSolid l → trim_space l ≡ l
unfolding trim_space
trim_space-AllSolid l h =
    ap (λ x. reverse (trim_left (reverse x))) (trim_left-AllSolid l h)
    ∙ ap reverse (trim_left-AllSolid (reverse l) (reverse_aux-AllSolid l [] h tt))
    ∙ reverse-reverse l
