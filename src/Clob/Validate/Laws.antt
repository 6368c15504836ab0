-- ===== src/Clob/Validate/Laws.antt =====
-- What each check accepts.
use native.Mathlib.Nat.{div-add-mod'}
use polymarket_client.Base.{
  ℕ, ◌+◌, ◌*◌, ◌/◌, ◌^◌, ◌<◌, ◌≤◌, ◌≡◌, ◌↔◌, ◌⊎◌, ◌||◌, inl, inr, refl, Bool, true, false, Option,
  none, some, [], ◌∷◌, arith, is_empty, length, Bool-cases,
}
use polymarket_client.Base.Int.{ℤ, pos, negsuc}
use polymarket_client.Base.Text.{Text, codes, text_eq, text_eq_iff}
use polymarket_client.Clob.Rat.{Rat, Reads, mod_of_multiple}
use polymarket_client.Clob.Number.{parse_int, parse_unsigned, parse_digits}
use polymarket_client.Clob.Checked.{Field}
use polymarket_client.Clob.Validate.{
  is_exact_multiple, validate_price_ticks, validate_price_range, byte_length, all_hex,
  validate_bytes32_hex, validate_uint256_string, gtd, validate_expiration, check_uint256,
  check_expiration,
}

check_uint256_iff :
    (name : Field) (positive : Bool) (z : Option ℤ)
    → (check_uint256 name positive z ≡ none)
      ↔ ((n : ℕ) × (z ≡ some (pos n)) × (n < 2 ^ 256) × (positive ≡ true → 0 < n))
unfolding check_uint256
check_uint256_iff name positive none = (λ h. cc, λ p. let q = p.1 in cc)
check_uint256_iff name positive (some (negsuc n)) = (λ h. cc, λ p. let q = p.1 in cc)
check_uint256_iff name positive (some (pos n)) =
    (λ h. (n, refl, ground arith, ground arith), λ p. let (m, q, r, t) = p in ground arith)

-- A required text is accepted exactly if it reads as an integer from 0, or 1 where it has to be
-- positive, up to 2^256 - 1.
pub validate_uint256_string_iff :
    (name : Field) (value : Text) (positive : Bool)
    → (validate_uint256_string name value true positive ≡ none)
      ↔ ((n : ℕ) × (parse_int value ≡ some (pos n)) × (n < 2 ^ 256) × (positive ≡ true → 0 < n))
unfolding validate_uint256_string parse_int
validate_uint256_string_iff name [] positive = (λ h. cc, λ p. let q = p.1 in cc)
validate_uint256_string_iff name (c ∷ s) positive =
    check_uint256_iff name positive (parse_int (c ∷ s))

-- A hexadecimal digit is one byte.
byte_length-all_hex : (s : Text) → all_hex s ≡ true → byte_length s ≡ length s
unfolding all_hex byte_length
byte_length-all_hex [] h = refl
byte_length-all_hex (c ∷ s) h = ground (arith, byte_length-all_hex s)

-- A text is accepted exactly if it is empty, or is 64 hexadecimal digits behind 0x or 0X.
pub validate_bytes32_hex_iff :
    (name : Field) (v : Text)
    → (validate_bytes32_hex name v ≡ none) ↔ (
        (v ≡ [])
        ⊎ ((d : ℕ) × (hex : Text) × (v ≡ b'0' ∷ d ∷ hex)
            × ((d ≡ b'x') ⊎ (d ≡ b'X'))
            × (length hex ≡ 64)
            × (all_hex hex ≡ true)))
unfolding validate_bytes32_hex
validate_bytes32_hex_iff name [] = (λ h. inl refl, λ p. refl)
validate_bytes32_hex_iff name (c ∷ []) =
    (λ h. cc, elim [ inl e ↦ cc | inr (d, hex, e, x, l, a) ↦ cc ])
validate_bytes32_hex_iff name (c ∷ d ∷ hex) = (
  λ h.
      inr
        (d, hex, ground arith, ground arith, ground (arith, byte_length-all_hex hex), ground arith),
  elim [ inl e ↦ cc | inr (d', hex', e, x, l, a) ↦ ground (arith, byte_length-all_hex hex) ],
)

-- A price n / d is accepted exactly if it is a whole multiple of the tick a / b.
pub validate_price_ticks_iff :
    (set_string : Text → Option Rat) (price tick : Text) (n d a b : ℕ)
    → Reads set_string price n d
    → Reads set_string tick a b
    → 0 < a
    → is_empty price ≡ false
    → is_empty tick ≡ false
    → (validate_price_ticks set_string price tick ≡ none) ↔ ((k : ℕ) × (n * b ≡ k * (d * a)))
unfolding validate_price_ticks is_exact_multiple
validate_price_ticks_iff set_string price tick n d a b rp rt h e e' =
    rw (e, e', rp.0, rt.0, validate_price_ticks)
      (
        λ q. (n * b / (d * a), ground (arith, div-add-mod' (n * b) (d * a))),
        λ p. ground (arith, mod_of_multiple (n * b) (d * a) p.0 (grind arith) p.1),
      )

-- A readable price n / d is accepted for a limit order exactly if 0 < n / d < 1, and for a market
-- order exactly if 0 < n / d <= 1.
pub validate_price_range_iff :
    (parse_float : Text → Option Rat) (price : Text) (n d : ℕ)
    → Reads parse_float price n d
    → is_empty price ≡ false
    → ((validate_price_range parse_float price false ≡ none) ↔ ((0 < n) × (n < d)))
      × ((validate_price_range parse_float price true ≡ none) ↔ ((0 < n) × (n ≤ d)))
unfolding validate_price_range
validate_price_range_iff parse_float price n d r e =
    rw (e, r.0, validate_price_range)
      ((λ h. ground arith, λ h. ground arith), (λ h. ground arith, λ h. ground arith))

check_expiration_iff :
    (now : ℕ) (z : Option ℤ)
    → (check_expiration now z ≡ none)
      ↔ ((n : ℕ) × (z ≡ some (pos n)) × (now + 60 ≤ n) × (n < 2 ^ 63))
unfolding check_expiration
check_expiration_iff now none = (λ h. cc, λ p. let q = p.1 in cc)
check_expiration_iff now (some (negsuc n)) = (λ h. ground arith, λ p. let q = p.1 in cc)
check_expiration_iff now (some (pos n)) =
    (λ h. (n, refl, ground arith, ground arith), λ p. let (m, q, r, t) = p in ground arith)

-- A text that reads as a positive number is neither empty nor 0.
not_zero :
    (text : Text) (n : ℕ)
    → parse_int text ≡ some (pos n)
    → 0 < n
    → (is_empty text || text_eq text (codes "0")) ≡ false
unfolding parse_int
not_zero [] n h p = cc
not_zero (c ∷ s) n h p = elim (Bool-cases (text_eq (c ∷ s) (codes "0"))) [
  | inl e ↦
      let q : c ∷ s ≡ codes "0" = (text_eq_iff (c ∷ s) (codes "0")).0 e in
      let h' = rw q at h in absurd (unfold parse_unsigned parse_digits in ground arith)
  | inr e ↦ e
]

-- A GTD expiration is accepted exactly if it reads as a time of at least a minute from now that
-- fits into 64 bits.
pub validate_expiration_iff :
    (expiration : Text) (now : ℕ)
    → (validate_expiration gtd expiration now ≡ none)
      ↔ ((n : ℕ) × (parse_int expiration ≡ some (pos n)) × (now + 60 ≤ n) × (n < 2 ^ 63))
unfolding validate_expiration
validate_expiration_iff expiration now =
    let checked = check_expiration_iff now (parse_int expiration) in
    (
      λ h. elim (Bool-cases (is_empty expiration || text_eq expiration (codes "0"))) [
        | inl e ↦ let h' = rw e at h in cc
        | inr e ↦ checked.0 (rw e at h)
      ],
      λ p. let (n, q, r, t) = p in rw (not_zero expiration n q (omega arith)) (checked.1 p),
    )
