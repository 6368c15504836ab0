-- ===== src/Combo/Legs.antt =====
-- clob/combo_protocol.go: the position ids of a combo's legs.
pub mod Canonical
mod Tests
use polymarket_client.Base.{
  ℕ, suc, ◌≡◌, ◌≤◌, ◌<◌, ◌+◌, ◌-◌, ◌/◌, ◌%◌, ◌^◌, Bool, true, false, not, ◌&&◌, ◌||◌, Option, none,
  some, List, [], ◌∷◌, nat_eq, leb, ltb, if◌then◌else◌, is_empty, length,
}
use polymarket_client.Base.Int.{ℤ, pos, negsuc}
use polymarket_client.Base.Text.{Text, trim_space}
use polymarket_client.Clob.Number.{parse_int}

pub data LegError : Type 0 where
  leg_count not_uint256 not_binary_or_neg_risk duplicate both_outcomes : LegError
  not_combinatorial not_yes_or_no : LegError

pub data Legs (A : Type 0) : Type 0 where
  legs : A → Legs A
  invalid : LegError → Legs A

abbrev pub max_combo_legs : ℕ
max_combo_legs = 50

abbrev pub uint256_of : Option ℤ → Legs ℕ
uint256_of none = invalid not_uint256
uint256_of (some (negsuc n)) = invalid not_uint256
uint256_of (some (pos n)) = if ltb (2 ^ 256 - 1) n then invalid not_uint256 else legs n

unfoldable pub parse_combo_position_id : Text → Legs ℕ
parse_combo_position_id value =
    let trimmed = trim_space value in
    if is_empty trimmed then invalid not_uint256 else uint256_of (parse_int trimmed)

-- The first and the last of the 32 bytes, and all but the last.
abbrev pub first_byte : ℕ → ℕ
first_byte n = n / 2 ^ 248

abbrev pub last_byte : ℕ → ℕ
last_byte n = n % 256

abbrev pub condition : ℕ → ℕ
condition n = n / 256

abbrev pub is_leg : ℕ → Bool
is_leg n = (nat_eq (first_byte n) 1 || nat_eq (first_byte n) 2) && leb (last_byte n) 1

abbrev pub check_leg : Legs ℕ → Legs ℕ
check_leg (invalid e) = invalid e
check_leg (legs n) = if is_leg n then legs n else invalid not_binary_or_neg_risk

abbrev pub both : Legs ℕ → Legs (List ℕ) → Legs (List ℕ)
both (invalid e) rest = invalid e
both (legs n) (invalid e) = invalid e
both (legs n) (legs ns) = legs (n ∷ ns)

unfoldable pub parse_legs : List Text → Legs (List ℕ)
parse_legs [] = legs []
parse_legs (t ∷ ts) = both (check_leg (parse_combo_position_id t)) (parse_legs ts)

-- `sort.Slice` by the numbers themselves.
unfoldable pub place : ℕ → List ℕ → List ℕ
place n [] = n ∷ []
place n (m ∷ ms) = let rest = place n ms in if leb n m then n ∷ m ∷ ms else m ∷ rest

unfoldable pub sort_positions : List ℕ → List ℕ
sort_positions [] = []
sort_positions (n ∷ ns) = place n (sort_positions ns)

-- The loop over neighbours.
unfoldable pub check_neighbours : List ℕ → Option LegError
check_neighbours [] = none
check_neighbours (n ∷ []) = none
check_neighbours (n ∷ m ∷ ms) =
    let rest = check_neighbours (m ∷ ms) in
    if nat_eq n m
    then some duplicate
    else if nat_eq (condition n) (condition m)
    then some both_outcomes
    else rest

abbrev pub checked_legs : List ℕ → Option LegError → Legs (List ℕ)
checked_legs ns none = legs ns
checked_legs ns (some e) = invalid e

abbrev pub sorted_legs : Legs (List ℕ) → Legs (List ℕ)
sorted_legs (invalid e) = invalid e
sorted_legs (legs ns) = checked_legs (sort_positions ns) (check_neighbours (sort_positions ns))

unfoldable pub canonicalize_combo_legs : List Text → Legs (List ℕ)
canonicalize_combo_legs ts =
    if is_empty ts || ltb max_combo_legs (length ts)
    then invalid leg_count
    else sorted_legs (parse_legs ts)

-- The condition and the outcome of a position of a combo.
abbrev pub decoded : Legs ℕ → Legs (ℕ × ℕ)
decoded (invalid e) = invalid e
decoded (legs n) =
    if not (nat_eq (first_byte n) 3)
    then invalid not_combinatorial
    else if ltb 1 (last_byte n)
    then invalid not_yes_or_no
    else legs (condition n, last_byte n)

unfoldable pub decode_combo_position_id : Text → Legs (ℕ × ℕ)
decode_combo_position_id t = decoded (parse_combo_position_id t)
