-- ===== src/Combo/Checked.antt =====
-- The errors of a quote, and results that may be one.
use polymarket_client.Base.{◌≡◌, refl, Bool, true, false, Option, none, some}

pub data QuoteError : Type 0 where
  no_signer bad_address zero_address address_mismatch signer_mismatch : QuoteError
  unsupported_signature_type not_yes_side invalid_condition_id : QuoteError
  invalid_price price_out_of_range invalid_requested_size invalid_unit : QuoteError
  invalid_size size_out_of_range invalid_source invalid_direction zero_amount : QuoteError
  no_salt unsupported_chain signing_failed : QuoteError

pub data Quoted {ℓ} (A : Type ℓ) : Type ℓ where
  quoted : A → Quoted A
  refused : QuoteError → Quoted A

infixl 5 ◌>>=◌ ◌>>◌
unfoldable pub ◌>>=◌ {ℓ κ} : {A : Type ℓ} {B : Type κ} → Quoted A → (A → Quoted B) → Quoted B
quoted a >>= f = f a
refused e >>= f = refused e

abbrev pub ◌>>◌ {ℓ} : {B : Type ℓ} → Quoted (Unit {0}) → Quoted B → Quoted B
m >> k = m >>= λ _. k

abbrev pub refuse_if : Bool → QuoteError → Quoted (Unit {0})
refuse_if true e = refused e
refuse_if false e = quoted tt

abbrev pub quoted_or {ℓ} : {A : Type ℓ} → QuoteError → Option A → Quoted A
quoted_or e none = refused e
quoted_or e (some a) = quoted a

-- A sequence ends well only if each part does.
pub >>=-eq_quoted {ℓ κ} :
    {A : Type ℓ} {B : Type κ} (m : Quoted A) (f : A → Quoted B) {b : B}
    → (m >>= f) ≡ quoted b
    → (a : A) × (m ≡ quoted a) × (f a ≡ quoted b)
unfolding ◌>>=◌
>>=-eq_quoted (quoted a) f h = (a, refl, h)
>>=-eq_quoted (refused e) f h = cc

pub refuse_if-quoted :
    (b : Bool) (e : QuoteError) {u : Unit {0}} → refuse_if b e ≡ quoted u → b ≡ false
refuse_if-quoted true e h = cc
refuse_if-quoted false e h = refl

pub quoted_or-quoted {ℓ} :
    {A : Type ℓ} (e : QuoteError) (o : Option A) {a : A} → quoted_or e o ≡ quoted a → o ≡ some a
quoted_or-quoted e none h = cc
quoted_or-quoted e (some x) h = cc
