-- ===== src/Clob/Rat.antt =====
-- The part of `math/big` that clob/amount.go uses: exact fractions, and the Euclidean `Div` and
-- `Mod` by a positive number, which round down.
use native.Mathlib.Nat.{div-add-mod', mod-lt}
use polymarket_client.Base.{
  ℕ, suc, ◌+◌, ◌-◌, ◌*◌, ◌/◌, ◌%◌, ◌<◌, ◌≤◌, ◌≡◌, Option, some, arith, nat_eq, if◌then◌else◌,
}
use polymarket_client.Base.Int.{ℤ, pos, negsuc, sub_ℕ, ◌*ℤ◌}
use polymarket_client.Base.Text.{Text}

-- A fraction; `big.Rat` keeps it in lowest terms, on which nothing here depends.
pub record Rat : Type 0 where
  pub num : ℤ
  pub den : ℕ

abbrev pub from_int : ℤ → Rat
from_int n = record { num = n; den = 1 }

unfoldable pub mul : Rat → Rat → Rat
mul x y = record { num = x.num *ℤ y.num; den = x.den * y.den }

divide : Rat → ℤ → ℕ → Rat
divide x (pos n) d = record { num = x.num *ℤ pos d; den = x.den * n }
divide x (negsuc n) d = record { num = x.num *ℤ sub_ℕ 0 d; den = x.den * suc n }

-- `Quo`, whose callers have excluded a divisor 0, on which Go panics.
unfoldable pub quo : Rat → Rat → Rat
unfolding divide
quo x y = divide x y.num y.den

unfoldable pub div_int : ℤ → ℕ → ℤ
div_int (pos n) d = pos (n / d)
div_int (negsuc n) d = negsuc (n / d)

unfoldable pub mod_int : ℤ → ℕ → ℕ
mod_int (pos n) d = n % d
mod_int (negsuc n) d = d - 1 - n % d

-- `set_string` reads the text as the fraction n / d, with d positive.
abbrev pub Reads : (Text → Option Rat) → Text → ℕ → ℕ → Type 0
Reads set_string text n d = (set_string text ≡ some (record { num = pos n; den = d })) × (0 < d)

-- Rounding down and up to a multiple of `d`, as bounds.
pub floor_bounds : (n d : ℕ) → 0 < d → (n / d * d ≤ n) × (n < (n / d + 1) * d)
floor_bounds n d h = (grind arith, grind arith)

abbrev pub ceil : ℕ → ℕ → ℕ
ceil n d = n / d + (if nat_eq (n % d) 0 then 0 else 1)

pub ceil_bounds : (n d : ℕ) → 0 < d → (n ≤ ceil n d * d) × (ceil n d * d < n + d)
ceil_bounds n d h = ground (arith, div-add-mod' n d, mod-lt n h)

-- Cancelling a positive factor.
pub le_of_mul-le : (a b c : ℕ) → 0 < c → a * c ≤ b * c → a ≤ b
le_of_mul-le a b c h k = grind arith

pub mul_mono : (a b c : ℕ) → a ≤ b → c * a ≤ c * b
mul_mono a b c h = grind arith

-- `n / d` at a multiple, and at a factor 1.
pub div_of_mod : (n d : ℕ) → n % d ≡ 0 → n / d * d ≡ n
div_of_mod n d h = omega (arith, div-add-mod' n d)

pub mod_of_multiple : (n d k : ℕ) → 0 < d → n ≡ k * d → n % d ≡ 0
mod_of_multiple n d k h e = grind arith
