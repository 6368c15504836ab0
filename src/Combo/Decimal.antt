-- ===== src/Combo/Decimal.antt =====
-- combo/builder.go: decimal texts in millionths, and the division of amounts.
mod Tests
use polymarket_client.Base.{
  ℕ, zero, suc, ◌+◌, ◌-◌, ◌*◌, ◌/◌, ◌≡◌, Bool, true, false, not, ◌&&◌, ◌||◌, Option, none, some,
  List, [], ◌∷◌, ◌++◌, nat_eq, leb, ltb, if◌then◌else◌, is_empty,
}
use polymarket_client.Base.Int.{ℤ, pos, negsuc, ◌+ℤ◌, ◌*ℤ◌, is_not_positive}
use polymarket_client.Base.Text.{Text, codes, trim_space}
use polymarket_client.Clob.Number.{parse_int}
use polymarket_client.Clob.Validate.{byte_length}

abbrev pub one : ℕ
one = 1000000

-- `strings.Split` at the dots: at least one part.
abbrev pub add_to_first : ℕ → List Text → List Text
add_to_first c [] = (c ∷ []) ∷ []
add_to_first c (p ∷ ps) = (c ∷ p) ∷ ps

unfoldable pub split_dots : Text → List Text
split_dots [] = [] ∷ []
split_dots (c ∷ s) =
    let rest = split_dots s in if nat_eq c b'.' then [] ∷ rest else add_to_first c rest

abbrev pub starts_with_minus : Text → Bool
starts_with_minus [] = false
starts_with_minus (c ∷ s) = nat_eq c b'-'

-- `strings.Repeat`.
unfoldable pub repeat_zero : ℕ → Text
repeat_zero zero = []
repeat_zero (suc n) = b'0' ∷ repeat_zero n

abbrev pub or_zero : Option ℤ → ℤ
or_zero none = pos 0
or_zero (some z) = z

abbrev pub millionths : Option ℤ → ℤ → Option ℤ
millionths none frac = none
millionths (some whole) frac = some (whole *ℤ pos one +ℤ frac)

-- A fraction that cannot be read counts as 0.
unfoldable pub join_parts : Text → Text → Option ℤ
unfolding byte_length
join_parts whole fraction =
    if ltb 6 (byte_length fraction)
    then none
    else millionths (parse_int whole)
        (or_zero (parse_int (fraction ++ repeat_zero (6 - byte_length fraction))))

unfoldable pub read_parts : List Text → Option ℤ
unfolding join_parts
read_parts [] = none
read_parts (whole ∷ []) = if is_empty whole then none else join_parts whole []
read_parts (whole ∷ fraction ∷ []) = if is_empty whole then none else join_parts whole fraction
read_parts (whole ∷ fraction ∷ more ∷ rest) = none

-- `decimalToE6`.
unfoldable pub decimal_to_e6 : Text → Option ℤ
unfolding split_dots read_parts
decimal_to_e6 value =
    let trimmed = trim_space value in
    if starts_with_minus trimmed then none else read_parts (split_dots trimmed)

abbrev pub only_positive : Option ℤ → Option ℕ
only_positive none = none
only_positive (some (negsuc n)) = none
only_positive (some (pos n)) = if nat_eq n 0 then none else some n

unfoldable pub positive_big_int : Text → Option ℕ
positive_big_int value = only_positive (parse_int value)

-- `ceilMulDiv` of numbers that are not negative.
unfoldable pub ceil_mul_div : ℕ → ℕ → ℕ → ℕ
ceil_mul_div a b d = (a * b + (d - 1)) / d
