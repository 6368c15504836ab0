-- ===== src/Clob/Number.antt =====
-- Decimal integers as Go reads and prints them: `big.Int.SetString(s, 10)`, and `String()`.
pub mod Print
use polymarket_client.Base.{
  ℕ, zero, suc, ◌+◌, ◌-◌, ◌*◌, ◌/◌, ◌%◌, Bool, true, false, ◌&&◌, Option, none, some, List, [], ◌∷◌,
  ◌++◌, leb, ltb, nat_eq, if◌then◌else◌,
}
use polymarket_client.Base.Int.{ℤ, pos, negsuc, sub_ℕ}
use polymarket_client.Base.Text.{Text}

abbrev pub is_digit : ℕ → Bool
is_digit c = leb b'0' c && leb c b'9'

unfoldable pub parse_digits : Text → ℕ → Option ℕ
parse_digits [] acc = some acc
parse_digits (c ∷ s) acc =
    let rest = parse_digits s (acc * 10 + (c - b'0')) in if is_digit c then rest else none

unfoldable pub parse_unsigned : Text → Option ℕ
parse_unsigned [] = none
parse_unsigned (c ∷ s) = parse_digits (c ∷ s) 0

abbrev pub positive_of : Option ℕ → Option ℤ
positive_of none = none
positive_of (some n) = some (pos n)

abbrev pub negative_of : Option ℕ → Option ℤ
negative_of none = none
negative_of (some n) = some (sub_ℕ 0 n)

unfoldable pub parse_int : Text → Option ℤ
parse_int [] = none
parse_int (c ∷ s) =
    if nat_eq c b'-'
    then negative_of (parse_unsigned s)
    else if nat_eq c b'+'
    then positive_of (parse_unsigned s)
    else positive_of (parse_unsigned (c ∷ s))

-- The decimal digits of a number, with fuel above it.
unfoldable pub print_loop : ℕ → ℕ → Text
print_loop zero n = []
print_loop (suc f) n = elim (ltb n 10) [
  | true ↦ (b'0' + n) ∷ []
  | false ↦ print_loop f (n / 10) ++ ((b'0' + n % 10) ∷ [])
]

unfoldable pub print_nat : ℕ → Text
print_nat n = print_loop (suc n) n

-- `big.Int.String`.
unfoldable pub print_int : ℤ → Text
print_int (pos n) = print_nat n
print_int (negsuc n) = b'-' ∷ print_nat (suc n)
