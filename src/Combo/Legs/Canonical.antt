-- ===== src/Combo/Legs/Canonical.antt =====
-- What the legs are that are accepted.
use polymarket_client.Base.{
  ℕ, ◌≡◌, ◌≤◌, ◌<◌, refl, inl, inr, true, ◌||◌, none, List, [], ◌∷◌, leb, ltb, is_empty, length,
  All, arith, Bool-cases, Option-cases, ◌⊎◌, subst,
}
use polymarket_client.Base.Text.{Text}
use polymarket_client.Combo.Legs.{
  LegError, Legs, legs, invalid, is_leg, check_leg, parse_legs, place, sort_positions,
  check_neighbours, canonicalize_combo_legs, parse_combo_position_id, condition, max_combo_legs,
}

-- The numbers ascend.
abbrev pub Ascending : List ℕ → Type 0
Ascending [] = Unit
Ascending (n ∷ []) = Unit
Ascending (n ∷ m ∷ ms) = (n ≤ m) × Ascending (m ∷ ms)

-- The conditions of the numbers ascend strictly.
abbrev pub Apart : List ℕ → Type 0
Apart [] = Unit
Apart (n ∷ []) = Unit
Apart (n ∷ m ∷ ms) = (condition n < condition m) × Apart (m ∷ ms)

abbrev pub AreLegs : List ℕ → Type 0
AreLegs ns = All (λ n. is_leg n ≡ true) ns

place-Ascending : (n : ℕ) (ms : List ℕ) → Ascending ms → Ascending (place n ms)
unfolding place
place-Ascending n [] h = tt
place-Ascending n (m ∷ []) h = ground arith
place-Ascending n (m ∷ k ∷ ms) h = ground (arith, place-Ascending n (k ∷ ms) h.1)

sort_positions-Ascending : (ns : List ℕ) → Ascending (sort_positions ns)
unfolding sort_positions
sort_positions-Ascending [] = tt
sort_positions-Ascending (n ∷ ns) =
    place-Ascending n (sort_positions ns) (sort_positions-Ascending ns)

place-AreLegs : (n : ℕ) (ms : List ℕ) → is_leg n ≡ true → AreLegs ms → AreLegs (place n ms)
unfolding place
place-AreLegs n [] h a = (h, tt)
place-AreLegs n (m ∷ ms) h a = elim (Bool-cases (leb n m)) [
  | inl e ↦ rw (e, place) (h, a)
  | inr e ↦ rw (e, place) (a.0, place-AreLegs n ms h a.1)
]

sort_positions-AreLegs : (ns : List ℕ) → AreLegs ns → AreLegs (sort_positions ns)
unfolding sort_positions
sort_positions-AreLegs [] a = tt
sort_positions-AreLegs (n ∷ ns) a =
    place-AreLegs n (sort_positions ns) a.0 (sort_positions-AreLegs ns a.1)

check_neighbours-Apart : (ns : List ℕ) → Ascending ns → check_neighbours ns ≡ none → Apart ns
unfolding check_neighbours
check_neighbours-Apart [] a h = tt
check_neighbours-Apart (n ∷ []) a h = tt
check_neighbours-Apart (n ∷ m ∷ ms) a h =
    (ground arith, check_neighbours-Apart (m ∷ ms) a.1 (ground arith))

Legs-cases :
    {A : Type 0} (r : Legs A) → ((x : A) × (r ≡ legs x)) ⊎ ((e : LegError) × (r ≡ invalid e))
Legs-cases (legs x) = inl (x, refl)
Legs-cases (invalid e) = inr (e, refl)

check_leg_lem : (r : Legs ℕ) (n : ℕ) → check_leg r ≡ legs n → is_leg n ≡ true
check_leg_lem (invalid e) n h = absurd (ground arith)
check_leg_lem (legs m) n h = elim (Bool-cases (is_leg m)) [
  | inl e ↦ let h' = rw e at h in ground arith
  | inr e ↦ let h' = rw e at h in absurd (ground arith)
]

parse_legs-AreLegs : (ts : List Text) (ns : List ℕ) → parse_legs ts ≡ legs ns → AreLegs ns
unfolding parse_legs
parse_legs-AreLegs [] [] h = tt
parse_legs-AreLegs [] (n ∷ ns) h = absurd (ground arith)
parse_legs-AreLegs (t ∷ ts) ns h = elim (Legs-cases (check_leg (parse_combo_position_id t))) [
  | inr (e, p) ↦ let h' = rw (p, parse_legs) at h in absurd (ground arith)
  | inl (n, p) ↦ elim (Legs-cases (parse_legs ts)) [
    | inr (e, q) ↦ let h' = rw (p, q, parse_legs) at h in absurd (ground arith)
    | inl (ms, q) ↦
        let h' = rw (p, q, parse_legs) at h in
        let all : AreLegs (n ∷ ms) =
          (check_leg_lem (parse_combo_position_id t) n p, parse_legs-AreLegs ts ms q) in
        let same : n ∷ ms ≡ ns = ground arith in subst AreLegs same all
  ]
]

-- The legs that `CanonicalizeComboLegs` returns ascend, are positions of the binary or the neg-risk
-- module with an outcome of 0 or 1, and belong to conditions that ascend strictly, so that no two
-- legs are of one condition.
pub canonicalize_combo_legs_lem :
    (ts : List Text) (ns : List ℕ)
    → canonicalize_combo_legs ts ≡ legs ns
    → AreLegs ns × Ascending ns × Apart ns
unfolding canonicalize_combo_legs
canonicalize_combo_legs_lem ts ns h =
    elim (Bool-cases (is_empty ts || ltb max_combo_legs (length ts))) [
      | inl c ↦ let h' = rw c at h in absurd (ground arith)
      | inr c ↦ elim (Legs-cases (parse_legs ts)) [
        | inr (e, p) ↦ let h' = rw (c, p) at h in absurd (ground arith)
        | inl (ms, p) ↦ elim (Option-cases (check_neighbours (sort_positions ms))) [
          | inr (e, q) ↦ let h' = rw (c, p, q) at h in absurd (ground arith)
          | inl q ↦
              let h' = rw (c, p, q) at h in
              let same : sort_positions ms ≡ ns = ground arith in
              let up = sort_positions-Ascending ms in
              subst (λ l. AreLegs l × Ascending l × Apart l) same
                (
                  sort_positions-AreLegs ms (parse_legs-AreLegs ts ms p),
                  up,
                  check_neighbours-Apart (sort_positions ms) up q,
                )
        ]
      ]
    ]
