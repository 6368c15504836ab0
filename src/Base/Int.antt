-- ===== src/Base/Int.antt =====
-- Signed integers over the native numbers, under the library's names.
use polymarket_client.Base.{ℕ, suc, ◌+◌, ◌-◌, ◌*◌, Bool, true, false, nat_eq, leb, if◌then◌else◌}

-- `negsuc n` is -(n + 1).
pub data ℤ : Type 0 where
  pos : ℕ → ℤ
  negsuc : ℕ → ℤ

abbrev pub pos_part : ℤ → ℕ
pos_part (pos n) = n
pos_part (negsuc n) = 0

abbrev pub neg_part : ℤ → ℕ
neg_part (pos n) = 0
neg_part (negsuc n) = suc n

abbrev pub sub_ℕ : ℕ → ℕ → ℤ
sub_ℕ a b = if leb b a then pos (a - b) else negsuc (b - a - 1)

infixl 65 ◌+ℤ◌
infixl 70 ◌*ℤ◌
abbrev pub ◌+ℤ◌ : ℤ → ℤ → ℤ
a +ℤ b = sub_ℕ (pos_part a + pos_part b) (neg_part a + neg_part b)

abbrev pub ◌*ℤ◌ : ℤ → ℤ → ℤ
pos a *ℤ pos b = pos (a * b)
pos a *ℤ negsuc b = sub_ℕ 0 (a * suc b)
negsuc a *ℤ pos b = sub_ℕ 0 (suc a * b)
negsuc a *ℤ negsuc b = pos (suc a * suc b)

-- `Sign() < 0` and `Sign() <= 0`.
abbrev pub is_negative : ℤ → Bool
is_negative (pos n) = false
is_negative (negsuc n) = true

abbrev pub is_not_positive : ℤ → Bool
is_not_positive (pos n) = nat_eq n 0
is_not_positive (negsuc n) = true
