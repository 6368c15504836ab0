-- ===== src/Clob/Validate/Tests.antt =====
-- The theorems about the checks at concrete inputs.
use polymarket_client.Base.{
  ℕ, ◌≡◌, ◌↔◌, ◌⊎◌, ◌<◌, ◌*◌, ◌^◌, refl, true, Option, none, some, [], ◌∷◌, if◌then◌else◌, arith,
  length,
}
use polymarket_client.Base.Int.{pos}
use polymarket_client.Base.Text.{Text, codes, text_eq}
use polymarket_client.Clob.Rat.{Rat}
use polymarket_client.Clob.Number.{parse_int}
use polymarket_client.Clob.Checked.{maker_amount, metadata}
use polymarket_client.Clob.Validate.{
  all_hex, validate_bytes32_hex, validate_uint256_string, validate_price_ticks,
}
use polymarket_client.Clob.Validate.Laws.{
  validate_uint256_string_iff, validate_bytes32_hex_iff, validate_price_ticks_iff,
}

abbrev two_decimals : Text → Option Rat
two_decimals t =
    if text_eq t (codes "0.5")
    then some (record { num = pos 1; den = 2 })
    else if text_eq t (codes "0.01")
    then some (record { num = pos 1; den = 100 })
    else none

validate_uint256_string_iff_example :
    (validate_uint256_string maker_amount (codes "10") true true ≡ none)
    ↔ ((n : ℕ) × (parse_int (codes "10") ≡ some (pos n)) × (n < 2 ^ 256) × (true ≡ true → 0 < n))
validate_uint256_string_iff_example = validate_uint256_string_iff maker_amount (codes "10") true

validate_bytes32_hex_iff_example : (validate_bytes32_hex metadata (codes "0xg") ≡ none) ↔ (
    (codes "0xg" ≡ [])
    ⊎ ((d : ℕ) × (hex : Text) × (codes "0xg" ≡ b'0' ∷ d ∷ hex)
        × ((d ≡ b'x') ⊎ (d ≡ b'X'))
        × (length hex ≡ 64)
        × (all_hex hex ≡ true)))
validate_bytes32_hex_iff_example = validate_bytes32_hex_iff metadata (codes "0xg")

validate_price_ticks_iff_example :
    (validate_price_ticks two_decimals (codes "0.5") (codes "0.01") ≡ none)
    ↔ ((k : ℕ) × (1 * 100 ≡ k * (2 * 1)))
unfolding text_eq
validate_price_ticks_iff_example =
    validate_price_ticks_iff two_decimals (codes "0.5") (codes "0.01") 1 2 1 100 (refl, omega arith)
      (refl, omega arith) (omega arith) refl refl
