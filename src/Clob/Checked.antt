-- ===== src/Clob/Checked.antt =====
-- The errors of the order code, and results that may be one.
use polymarket_client.Base.{◌≡◌, ◌⊎◌, inl, inr, refl, Bool, true, false, Option, none, some}
use polymarket_client.Base.Text.{Text}

-- The fields of an order that messages name.
pub data Field : Type 0 where
  token_id maker_amount taker_amount timestamp metadata builder : Field

pub data Error : Type 0 where
  invalid_price invalid_size invalid_amount invalid_side : Error
  price_sign size_sign amount_sign : Error
  invalid_tick_size tick_size_sign price_not_aligned : Error
  price_empty price_unreadable price_not_positive price_not_below_one price_above_one : Error
  required not_an_integer negative not_positive overflow : Field → Error
  not_prefixed not_64_digits invalid_hex_digit : Field → Error
  no_signer unsupported_chain invalid_maker invalid_signer signer_mismatch maker_mismatch : Error
  invalid_signature_type negative_salt no_salt signing_failed no_deposit_wallet : Error
  defer_exec_market expiration_missing expiration_not_numeric expiration_not_positive : Error
  expiration_too_soon not_a_market_order_type no_credentials no_credentials_key : Error
  post_failed : Text → Error

pub data Checked {ℓ} (A : Type ℓ) : Type ℓ where
  accept : A → Checked A
  reject : Error → Checked A

infixl 5 ◌>>=◌ ◌>>◌
abbrev pub ◌>>=◌ {ℓ κ} : {A : Type ℓ} {B : Type κ} → Checked A → (A → Checked B) → Checked B
accept a >>= f = f a
reject e >>= f = reject e

abbrev pub ◌>>◌ {ℓ} : {B : Type ℓ} → Checked (Unit {0}) → Checked B → Checked B
m >> k = m >>= λ _. k

-- `if bad { return err }`
abbrev pub fail_if : Bool → Error → Checked (Unit {0})
fail_if true e = reject e
fail_if false e = accept tt

-- `if err != nil { return err }`
abbrev pub fail_on : Option Error → Checked (Unit {0})
fail_on none = accept tt
fail_on (some e) = reject e

pub Checked-cases {ℓ} :
    {A : Type ℓ} (c : Checked A) → ((x : A) × (c ≡ accept x)) ⊎ ((e : Error) × (c ≡ reject e))
Checked-cases (accept x) = inl (x, refl)
Checked-cases (reject e) = inr (e, refl)
