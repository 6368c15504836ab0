-- ===== src/Clob/Order.antt =====
-- clob/sign_order.go and clob/deposit_wallet_signing.go: the defaults and checks of an order up to
-- its signature. A step changes the order in place and may end the call with an error.
pub mod Prepared
pub mod Signed
pub mod Builder
pub mod Built
pub mod Posted
mod Tests
use polymarket_client.Base.{
  ℕ, suc, ◌-◌, ◌^◌, ◌%◌, Bool, true, false, not, ◌&&◌, Option, none, some, List, [], ltb, nat_eq,
  if◌then◌else◌, is_empty,
}
use polymarket_client.Base.Int.{ℤ, pos, negsuc, is_negative}
use polymarket_client.Base.Text.{Text, codes, trim_space}
use polymarket_client.Clob.Rat.{Rat}
use polymarket_client.Clob.Number.{print_nat}
use polymarket_client.Clob.Checked.{
  Field, token_id, maker_amount, taker_amount, timestamp, metadata, builder, Error, no_signer,
  unsupported_chain, invalid_maker, invalid_signer, signer_mismatch, maker_mismatch, invalid_side,
  invalid_signature_type, negative_salt, no_salt, signing_failed, no_deposit_wallet, Checked,
  accept, reject,
}
use polymarket_client.Clob.Amount.{Side, is_known}
use polymarket_client.Clob.Validate.{validate_bytes32_hex, validate_uint256_string}

-- `SignatureType`, an `int` by `iota`.
pub data SignatureType : Type 0 where
  eoa proxy gnosis_safe poly_1271 : SignatureType
  other_signature_type : ℤ → SignatureType

-- `SignedOrder`, with the salt an `int64`.
pub record SignedOrder : Type 0 where
  pub salt : ℤ
  pub maker : Text
  pub signer : Text
  pub token_id : Text
  pub maker_amount : Text
  pub taker_amount : Text
  pub expiration : Text
  pub side : Side
  pub signature_type : SignatureType
  pub timestamp : Text
  pub metadata : Text
  pub builder : Text
  pub signature : Text

-- What the code takes from its libraries and surroundings: the readings of numbers of `math/big`,
-- the addresses of go-ethereum, the two signatures (by the verifying contract and the signing
-- address), the clock, and `rand.Int` below the clock's milliseconds.
pub record Env : Type 0 where
  pub set_string : Text → Option Rat
  pub parse_float : Text → Option Rat
  pub is_hex_address : Text → Bool
  pub hex_to_address : Text → ℕ
  pub address_hex : ℕ → Text
  pub sign : ℕ → ℕ → SignedOrder → Option Text
  pub sign_deposit_wallet : ℕ → ℕ → ℕ → SignedOrder → Option Text
  pub now_milli : ℕ
  pub random : Option ℕ

-- `signOrderConfig`; the zero address of `verifyingContract` stands for none.
pub record SignOrderConfig : Type 0 where
  pub neg_risk : Bool
  pub verifying_contract : ℕ
  pub salt : Option ℤ

abbrev pub Step : Type 0
Step = SignedOrder → SignedOrder × Option Error

infixl 5 ◌>>>◌
unfoldable pub ◌>>>◌ : Step → Step → Step
◌>>>◌ f g o = let (o', e) = f o in elim e [ none ↦ g o' | some x ↦ (o', some x) ]

-- A check that leaves the order as it is.
abbrev pub check : (SignedOrder → Option Error) → Step
check c o = (o, c o)

abbrev pub error_if : Bool → Error → Option Error
error_if true e = some e
error_if false e = none

-- 0x and 64 zeros.
unfoldable pub zero_bytes32 : Text
zero_bytes32 = codes "0x0000000000000000000000000000000000000000000000000000000000000000"

-- `salt.Int64()`, the low 64 bits in two's complement.
unfoldable pub to_int64 : ℤ → ℤ
to_int64 z =
    let low : ℕ = elim z [ pos n ↦ n % 2 ^ 64 | negsuc n ↦ 2 ^ 64 - 1 - n % 2 ^ 64 ] in
    if ltb low (2 ^ 63) then pos low else negsuc (2 ^ 64 - 1 - low)

unfoldable pub fill_metadata : Step
fill_metadata o =
    if is_empty o.metadata
    then (record o { metadata = zero_bytes32 }, none)
    else (o, validate_bytes32_hex metadata o.metadata)

unfoldable pub fill_builder : Step
fill_builder o =
    if is_empty o.builder
    then (record o { builder = zero_bytes32 }, none)
    else (o, validate_bytes32_hex builder o.builder)

unfoldable pub check_token_id : Step
check_token_id o = (o, validate_uint256_string token_id o.token_id true false)

unfoldable pub check_maker_amount : Step
check_maker_amount o = (o, validate_uint256_string maker_amount o.maker_amount true true)

unfoldable pub check_taker_amount : Step
check_taker_amount o = (o, validate_uint256_string taker_amount o.taker_amount true true)

unfoldable pub check_side : Step
check_side o = (o, error_if (not (is_known o.side)) invalid_side)

unfoldable pub check_signature_type : Step
check_signature_type o =
    (o, elim o.signature_type [ other_signature_type _ ↦ some invalid_signature_type | _ ↦ none ])

unfoldable pub drawn_salt : Option ℕ → SignedOrder → SignedOrder × Option Error
drawn_salt none o = (o, some no_salt)
drawn_salt (some n) o = (record o { salt = to_int64 (pos n) }, none)

abbrev pub is_zero : ℤ → Bool
is_zero (pos n) = nat_eq n 0
is_zero (negsuc n) = false

-- The part that the two preparations share, from the metadata to the side.
unfoldable pub check_fields : Step
check_fields =
    fill_metadata >>> fill_builder >>> check_token_id >>> check_maker_amount >>> check_taker_amount
    >>> check_side

abbrev pub is_poly_1271 : SignatureType → Bool
is_poly_1271 poly_1271 = true
is_poly_1271 _ = false

unfoldable pub check_is_deposit : Step
check_is_deposit o = (o, error_if (not (is_poly_1271 o.signature_type)) invalid_signature_type)

unfoldable pub fill_expiration : Step
fill_expiration o =
    if is_empty o.expiration then (record o { expiration = codes "0" }, none) else (o, none)

-- `Contracts`: the exchange and the neg-risk exchange of the one chain that is known, Polygon.
unfoldable pub contracts : ℕ → Option (ℕ × ℕ)
contracts chain =
    if nat_eq chain 137
    then some
        (0xE111180000d2663C0091e4f400237545B87B996B, 0xe2222d279d744050d28e00520010520000310F59)
    else none

module _ (env : Env) where
  open env use {is_hex_address, hex_to_address, address_hex, now_milli, random}

  unfoldable pub equal_address : Text → Text → Bool
  equal_address a b = nat_eq (hex_to_address a) (hex_to_address b)

  -- An empty maker or signer becomes the default, another one its checksummed form.
  unfoldable pub fill_maker : Text → Step
  fill_maker hex o =
      if is_empty o.maker
      then (record o { maker = hex }, none)
      else if is_hex_address o.maker
      then (record o { maker = address_hex (hex_to_address o.maker) }, none)
      else (o, some invalid_maker)

  unfoldable pub fill_signer : Text → Step
  fill_signer hex o =
      if is_empty o.signer
      then (record o { signer = hex }, none)
      else if is_hex_address o.signer
      then (record o { signer = address_hex (hex_to_address o.signer) }, none)
      else (o, some invalid_signer)

  unfoldable pub match_signer : Text → Step
  match_signer hex o = (o, error_if (not (equal_address o.signer hex)) signer_mismatch)

  unfoldable pub match_maker : Text → Step
  match_maker hex o = (o, error_if (not (equal_address o.maker hex)) maker_mismatch)

  -- `randomOrderSalt`.
  unfoldable pub random_order_salt : Option ℕ
  random_order_salt = if nat_eq now_milli 0 then some 0 else random

  unfoldable pub replace_salt : Option ℤ → Step
  replace_salt (some z) o = (record o { salt = to_int64 z }, none)
  replace_salt none o = drawn_salt random_order_salt o

  -- A salt of 0 is replaced, by the configured salt or a random one.
  unfoldable pub fill_salt : Option ℤ → Step
  fill_salt configured o =
      if is_zero o.salt
      then replace_salt configured o
      else if is_negative o.salt
      then (o, some negative_salt)
      else (o, none)

  unfoldable pub fill_timestamp : Step
  fill_timestamp o =
      if is_empty o.timestamp
      then (record o { timestamp = print_nat now_milli }, none)
      else (o, validate_uint256_string timestamp o.timestamp true true)

  unfoldable pub prepare_order_for_signing : ℕ → SignOrderConfig → Step
  prepare_order_for_signing signer config =
      let hex = address_hex signer in
      fill_maker hex
      >>> fill_signer hex
      >>> match_signer hex
      >>> check_fields
      >>> check_signature_type
      >>> fill_salt config.salt
      >>> fill_timestamp

  unfoldable pub prepare_deposit_wallet_order_for_signing : ℕ → SignOrderConfig → Step
  prepare_deposit_wallet_order_for_signing wallet config =
      let hex = address_hex wallet in
      check_is_deposit
      >>> fill_maker hex
      >>> match_maker hex
      >>> fill_signer hex
      >>> match_signer hex
      >>> check_fields
      >>> fill_salt config.salt
      >>> fill_timestamp
      >>> fill_expiration

  -- `inferDepositWalletForSigning`.
  unfoldable pub infer_deposit_wallet : SignedOrder → Checked ℕ
  infer_deposit_wallet o =
      let maker = trim_space o.maker in
      let signer = trim_space o.signer in
      if not (is_empty maker)
      then (if is_hex_address maker then accept (hex_to_address maker) else reject invalid_maker)
      else if not (is_empty signer)
      then (if is_hex_address signer then accept (hex_to_address signer) else reject invalid_signer)
      else reject no_deposit_wallet

  -- The signature of a prepared order is stored, unless signing fails.
  unfoldable pub store_signature : Option Text → Step
  store_signature none o = (o, some signing_failed)
  store_signature (some text) o = (record o { signature = text }, none)

  unfoldable pub sign_for_wallet : ℕ → ℕ → ℕ → SignOrderConfig → Step
  sign_for_wallet signer contract wallet config =
      prepare_deposit_wallet_order_for_signing wallet config >>> λ p.
      store_signature (env.sign_deposit_wallet contract signer wallet p) p

  unfoldable pub sign_deposit_order : ℕ → ℕ → SignOrderConfig → Step
  sign_deposit_order signer contract config o = elim (infer_deposit_wallet o) [
    | reject e ↦ (o, some e)
    | accept wallet ↦ sign_for_wallet signer contract wallet config o
  ]

  unfoldable pub sign_plain_order : ℕ → ℕ → SignOrderConfig → Step
  sign_plain_order signer contract config = prepare_order_for_signing signer config >>> λ p.
      store_signature (env.sign contract signer p) p

  unfoldable pub verifying_contract_of : SignOrderConfig → ℕ × ℕ → ℕ
  verifying_contract_of config (exchange, neg_risk_exchange) =
      if nat_eq config.verifying_contract 0
      then (if config.neg_risk then neg_risk_exchange else exchange)
      else config.verifying_contract

  -- `SignOrder` of a client with or without a signer.
  unfoldable pub sign_order : Option ℕ → ℕ → SignOrderConfig → Step
  sign_order none chain config o = (o, some no_signer)
  sign_order (some signer) chain config o = elim (contracts chain) [
    | none ↦ (o, some unsupported_chain)
    | some addresses ↦
        let contract = verifying_contract_of config addresses in
        if is_poly_1271 o.signature_type
        then sign_deposit_order signer contract config o
        else sign_plain_order signer contract config o
  ]

  -- `SignDepositWalletOrder` for a wallet that the caller names.
  unfoldable pub sign_deposit_wallet_order : Option ℕ → ℕ → ℕ → SignOrderConfig → Step
  sign_deposit_wallet_order none chain wallet config o = (o, some no_signer)
  sign_deposit_wallet_order (some signer) chain wallet config o =
      if nat_eq wallet 0 then (o, some no_deposit_wallet) else elim (contracts chain) [
        | none ↦ (o, some unsupported_chain)
        | some addresses ↦
            sign_for_wallet signer (verifying_contract_of config addresses) wallet config o
      ]
