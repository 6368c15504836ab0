-- ===== src/Clob/Validate.antt =====
-- clob/validate.go and the checks of clob/order_builder.go. A check returns the error, if any.
-- `set_string` stands for `big.Rat.SetString`, and `parse_float` for `big.ParseFloat` with 64 bits
-- and rounding to zero: the value as a fraction, an infinity as any fraction beyond 1.
pub mod Laws
mod Tests
use polymarket_client.Base.{
  ℕ, suc, ◌-◌, ◌^◌, ◌%◌, Bool, true, false, not, ◌&&◌, ◌||◌, Option, none, some, List, [], ◌∷◌, ◌+◌,
  leb, ltb, nat_eq, if◌then◌else◌, is_empty, arith, ◌≤◌, ◌<◌,
}
use polymarket_client.Base.Int.{ℤ, pos, negsuc, is_not_positive}
use polymarket_client.Base.Text.{Text, codes, text_eq}
use polymarket_client.Clob.Rat.{Rat, quo}
use polymarket_client.Clob.Number.{parse_int, is_digit}
use polymarket_client.Clob.Checked.{
  Field, Error, invalid_price, invalid_tick_size, tick_size_sign, price_not_aligned, price_empty,
  price_unreadable, price_not_positive, price_not_below_one, price_above_one, required,
  not_an_integer, negative, not_positive, overflow, not_prefixed, not_64_digits, invalid_hex_digit,
  defer_exec_market, expiration_missing, expiration_not_numeric, expiration_not_positive,
  expiration_too_soon,
}

abbrev pub magnitude : ℤ → ℕ
magnitude (pos n) = n
magnitude (negsuc n) = suc n

unfoldable pub is_exact_multiple : Rat → Rat → Bool
unfolding quo
is_exact_multiple p t = let q = quo p t in nat_eq (magnitude q.num % q.den) 0

unfoldable pub check_ticks : Option Rat → Option Rat → Option Error
unfolding is_exact_multiple
check_ticks none t = some invalid_price
check_ticks (some p) none = some invalid_tick_size
check_ticks (some p) (some t) =
    if is_not_positive t.num
    then some tick_size_sign
    else if is_exact_multiple p t
    then none
    else some price_not_aligned

unfoldable pub validate_price_ticks : (Text → Option Rat) → Text → Text → Option Error
unfolding check_ticks
validate_price_ticks set_string price tick_size =
    if is_empty tick_size || is_empty price
    then none
    else check_ticks (set_string price) (set_string tick_size)

-- `Cmp` with 1: at least, and above.
abbrev pub at_least_one : Rat → Bool
at_least_one r = elim r.num [ pos n ↦ leb r.den n | negsuc _ ↦ false ]

abbrev pub above_one : Rat → Bool
above_one r = elim r.num [ pos n ↦ ltb r.den n | negsuc _ ↦ false ]

unfoldable pub check_range : Bool → Option Rat → Option Error
check_range allow_one none = some price_unreadable
check_range allow_one (some r) =
    if is_not_positive r.num
    then some price_not_positive
    else if at_least_one r && not allow_one
    then some price_not_below_one
    else if above_one r
    then some price_above_one
    else none

unfoldable pub validate_price_range : (Text → Option Rat) → Text → Bool → Option Error
unfolding check_range
validate_price_range parse_float price allow_one =
    if is_empty price then some price_empty else check_range allow_one (parse_float price)

-- The bytes of a code point in UTF-8, which `len` counts.
abbrev pub utf8_length : ℕ → ℕ
utf8_length c = if ltb c 0x80 then 1 else if ltb c 0x800 then 2 else if ltb c 0x10000 then 3 else 4

unfoldable pub byte_length : Text → ℕ
byte_length [] = 0
byte_length (c ∷ s) = utf8_length c + byte_length s

abbrev pub is_hex_digit : ℕ → Bool
is_hex_digit c = is_digit c || (leb b'a' c && leb c b'f') || (leb b'A' c && leb c b'F')

unfoldable pub all_hex : Text → Bool
all_hex [] = true
all_hex (c ∷ s) = is_hex_digit c && all_hex s

unfoldable pub validate_hex_digits : Field → Text → Option Error
unfolding byte_length all_hex
validate_hex_digits name hex =
    if not (nat_eq (byte_length hex) 64)
    then some (not_64_digits name)
    else if all_hex hex
    then none
    else some (invalid_hex_digit name)

unfoldable pub validate_bytes32_hex : Field → Text → Option Error
unfolding validate_hex_digits
validate_bytes32_hex name [] = none
validate_bytes32_hex name (c ∷ []) = some (not_prefixed name)
validate_bytes32_hex name (c ∷ d ∷ hex) =
    if nat_eq c b'0' && (nat_eq d b'x' || nat_eq d b'X')
    then validate_hex_digits name hex
    else some (not_prefixed name)

-- The checks of a number that `SetString` has read, or has not.
unfoldable pub check_uint256 : Field → Bool → Option ℤ → Option Error
check_uint256 name positive none = some (not_an_integer name)
check_uint256 name positive (some (negsuc n)) = some (negative name)
check_uint256 name positive (some (pos n)) =
    if positive && nat_eq n 0
    then some (not_positive name)
    else if ltb (2 ^ 256 - 1) n
    then some (overflow name)
    else none

unfoldable pub validate_uint256_string : Field → Text → Bool → Bool → Option Error
unfolding check_uint256
validate_uint256_string name value is_required positive =
    if is_empty value
    then (if is_required then some (required name) else none)
    else check_uint256 name positive (parse_int value)

-- `OrderType`, a string.
pub data OrderType : Type 0 where
  gtc fok gtd fak : OrderType
  other_type : Text → OrderType

abbrev pub is_market_type : OrderType → Bool
is_market_type fok = true
is_market_type fak = true
is_market_type _ = false

unfoldable pub validate_defer_exec : OrderType → Option Bool → Option Error
validate_defer_exec order_type none = none
validate_defer_exec order_type (some defer) =
    if defer && is_market_type order_type then some defer_exec_market else none

-- `strconv.ParseInt(s, 10, 64)`, which refuses what does not fit.
abbrev pub in_int64 : ℤ → Bool
in_int64 (pos n) = ltb n (2 ^ 63)
in_int64 (negsuc n) = ltb n (2 ^ 63)

abbrev pub below_int : ℤ → ℕ → Bool
below_int (pos n) m = ltb n m
below_int (negsuc n) m = true

unfoldable pub check_expiration : ℕ → Option ℤ → Option Error
check_expiration now none = some expiration_not_numeric
check_expiration now (some n) =
    if not (in_int64 n)
    then some expiration_not_numeric
    else if is_not_positive n
    then some expiration_not_positive
    else if below_int n (now + 60)
    then some expiration_too_soon
    else none

unfoldable pub validate_expiration : OrderType → Text → ℕ → Option Error
unfolding check_expiration
validate_expiration gtd expiration now =
    if is_empty expiration || text_eq expiration (codes "0")
    then some expiration_missing
    else check_expiration now (parse_int expiration)
validate_expiration _ expiration now = none
