-- ===== src/Ws/User/SameStrings.antt =====
-- `sameStrings` decides whether two lists hold the same strings, each as often.
use polymarket_client.Base.{
  ℕ, suc, ◌+◌, ◌-◌, ◌≤◌, ◌≡◌, refl, ◌↔◌, true, List, [], ◌∷◌, arith, if◌then◌else◌, length, count,
  ==_refl, ◌<◌,
}
use polymarket_client.Base.Map.{lookup, assign, lookup-assign}
use polymarket_client.Base.Text.{Text, text_eq, text_eq_iff, text_Comparable}
use polymarket_client.Ws.User.{seen_count, tally, use_up, same_strings}

seen_count-assign :
    (seen : List (Text × ℕ)) (v x : Text) (n : ℕ)
    → seen_count (assign v n seen) x ≡ (if text_eq v x then n else seen_count seen x)
unfolding seen_count
seen_count-assign seen v x n = ground (arith, lookup-assign v x n seen)

seen_count-nil : (x : Text) → seen_count [] x ≡ 0
unfolding seen_count lookup
seen_count-nil x = refl

seen_count-tally :
    (seen : List (Text × ℕ)) (vs : List Text) (x : Text)
    → seen_count (tally seen vs) x ≡ seen_count seen x + count x vs
unfolding tally
seen_count-tally seen [] x = omega arith
seen_count-tally seen (v ∷ vs) x =
    let seen' = assign v (suc (seen_count seen v)) seen in
    ground (
      arith,
      text_eq_iff v x,
      seen_count-assign seen v x (suc (seen_count seen v)),
      seen_count-tally seen' vs x,
    )

-- The second loop finds each string while its count lasts.
use_up_le :
    (seen : List (Text × ℕ)) (vs : List Text) (x : Text)
    → use_up seen vs ≡ true
    → count x vs ≤ seen_count seen x
unfolding use_up
use_up_le seen [] x h = omega arith
use_up_le seen (v ∷ vs) x h =
    let seen' = assign v (seen_count seen v - 1) seen in
    ground (
      arith,
      text_eq_iff v x,
      seen_count-assign seen v x (seen_count seen v - 1),
      use_up_le seen' vs x,
    )

use_up_of_le :
    (seen : List (Text × ℕ)) (vs : List Text)
    → ((x : Text) → count x vs ≤ seen_count seen x)
    → use_up seen vs ≡ true
unfolding use_up
use_up_of_le seen [] h = refl
use_up_of_le seen (v ∷ vs) h =
    let seen' = assign v (seen_count seen v - 1) seen in
    let less : (x : Text) → count x vs ≤ seen_count seen' x = λ x.
      ground (arith, h x, text_eq_iff v x, seen_count-assign seen v x (seen_count seen v - 1)) in
    ground (arith, h v, ==_refl v, use_up_of_le seen' vs less)

-- The list without one `x`.
erase_one : Text → List Text → List Text
erase_one x [] = []
erase_one x (y ∷ ys) = let rest = erase_one x ys in if text_eq y x then ys else y ∷ rest

count-erase_one :
    (x z : Text) (ys : List Text)
    → count z (erase_one x ys) ≡ count z ys - (if text_eq x z then 1 else 0)
unfolding erase_one
count-erase_one x z [] = ground arith
count-erase_one x z (y ∷ ys) =
    ground (arith, text_eq_iff y x, text_eq_iff x z, text_eq_iff y z, count-erase_one x z ys)

length-erase_one :
    (x : Text) (ys : List Text) → 0 < count x ys → length (erase_one x ys) + 1 ≡ length ys
unfolding erase_one
length-erase_one x [] h = absurd (omega arith)
length-erase_one x (y ∷ ys) h = ground (arith, length-erase_one x ys)

-- Of two lists of one length, counts that do not exceed one another are equal.
counts-eq :
    (a b : List Text)
    → length a ≡ length b
    → ((x : Text) → count x b ≤ count x a)
    → (x : Text) → count x a ≡ count x b
counts-eq [] [] e h x = refl
counts-eq (y ∷ ys) [] e h x = absurd (omega arith)
counts-eq a (v ∷ b) e h x =
    let some_v : 0 < count v a = ground (arith, h v, ==_refl v) in
    let shorter : length (erase_one v a) ≡ length b = omega (arith, length-erase_one v a some_v) in
    let less : (z : Text) → count z b ≤ count z (erase_one v a) =
      λ z. ground (arith, h z, count-erase_one v z a) in
    ground
      (arith, text_eq_iff v x, counts-eq (erase_one v a) b shorter less x, count-erase_one v x a)

empty_of_counts : (a : List Text) → ((x : Text) → count x a ≡ count x []) → length a ≡ 0
empty_of_counts [] h = refl
empty_of_counts (y ∷ ys) h = absurd (ground (arith, h y, ==_refl y))

length-eq : (a b : List Text) → ((x : Text) → count x a ≡ count x b) → length a ≡ length b
length-eq a [] h = empty_of_counts a h
length-eq a (v ∷ b) h =
    let some_v : 0 < count v a = ground (arith, h v, ==_refl v) in
    let fewer : (z : Text) → count z (erase_one v a) ≡ count z b =
      λ z. ground (arith, h z, count-erase_one v z a) in
    omega (arith, length-erase_one v a some_v, length-eq (erase_one v a) b fewer)

-- `sameStrings` accepts two lists exactly if each string stands in both equally often.
pub same_strings_iff :
    (a b : List Text) → (same_strings a b ≡ true) ↔ ((x : Text) → count x a ≡ count x b)
unfolding same_strings
same_strings_iff a b = (
  λ h.
      let e : length a ≡ length b = ground arith in
      let u : use_up (tally [] a) b ≡ true = ground arith in
      counts-eq a b e (λ x.
        omega (arith, use_up_le (tally [] a) b x u, seen_count-tally [] a x, seen_count-nil x)),
  λ h.
      let e = length-eq a b h in
      let u =
        use_up_of_le (tally [] a) b
          (λ x. omega (arith, h x, seen_count-tally [] a x, seen_count-nil x)) in
      ground arith,
)
