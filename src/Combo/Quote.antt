-- ===== src/Combo/Quote.antt =====
-- combo/types.go and combo/builder.go: the quote for a request, and its order.
pub mod Amounts
pub mod Built
mod Tests
use polymarket_client.Base.{
  ℕ, ◌+◌, ◌-◌, ◌*◌, ◌/◌, ◌≡◌, Bool, true, false, not, ◌&&◌, ◌||◌, Option, none, some, List, [], ◌∷◌,
  map, nat_eq, leb, ltb, if◌then◌else◌, is_empty, length, take, drop,
}
use polymarket_client.Base.Int.{ℤ, pos, negsuc}
use polymarket_client.Base.Text.{Text, codes, text_eq, trim_space}
use polymarket_client.Clob.Number.{is_digit, print_nat, print_int}
use polymarket_client.Clob.Validate.{byte_length}
use polymarket_client.Clob.Order.{
  SignatureType, eoa, proxy, gnosis_safe, poly_1271, other_signature_type, is_poly_1271,
  zero_bytes32,
}
use polymarket_client.Combo.Decimal.{one, decimal_to_e6, positive_big_int, ceil_mul_div}
use polymarket_client.Combo.Checked.{
  QuoteError, no_signer, bad_address, zero_address, address_mismatch, signer_mismatch,
  unsupported_signature_type, not_yes_side, invalid_condition_id, invalid_price, price_out_of_range,
  invalid_requested_size, invalid_unit, invalid_size, size_out_of_range, invalid_source,
  invalid_direction, zero_amount, no_salt, unsupported_chain, signing_failed, Quoted, quoted,
  refused, ◌>>=◌, ◌>>◌, refuse_if, quoted_or,
}

pub data Direction : Type 0 where
  buy sell : Direction
  other_direction : Text → Direction

pub data RequestSide : Type 0 where
  yes_side : RequestSide
  other_side : Text → RequestSide

pub data RequestedSizeUnit : Type 0 where
  notional shares : RequestedSizeUnit
  other_unit : Text → RequestedSizeUnit

-- `QuoteSource`, with the empty one.
pub data QuoteSource : Type 0 where
  no_source collateral inventory : QuoteSource
  other_source : Text → QuoteSource

pub record Identity : Type 0 where
  pub signer_address : Text
  pub maker_address : Text
  pub signature_type : SignatureType

pub record QuoteRequest : Type 0 where
  pub rfq_id : Text
  pub requestor_public_id : Text
  pub leg_position_ids : List Text
  pub condition_id : Text
  pub yes_position_id : Text
  pub no_position_id : Text
  pub direction : Direction
  pub side : RequestSide
  pub unit : RequestedSizeUnit
  pub value_e6 : Text
  pub submission_deadline : ℤ

pub record QuoteOptions : Type 0 where
  pub price : Text
  pub size : Text
  pub source : QuoteSource

-- `SignedOrder`, of which the builder leaves the expiration empty.
pub record SignedOrder : Type 0 where
  pub salt : Text
  pub maker : Text
  pub signer : Text
  pub token_id : Text
  pub maker_amount : Text
  pub taker_amount : Text
  pub order_side : ℕ
  pub signature_type : SignatureType
  pub timestamp : Text
  pub metadata : Text
  pub builder : Text
  pub signature : Text

pub record BuiltQuote : Type 0 where
  pub price_e6 : Text
  pub size_e6 : Text
  pub signed_order : SignedOrder

-- The lower case of a letter of ASCII. Other letters have no lower case in a condition or an
-- address, so that both are refused with them.
abbrev pub lower : ℕ → ℕ
lower c = if leb b'A' c && leb c b'Z' then c + 32 else c

unfoldable pub has_prefix : Text → Text → Bool
has_prefix p s = text_eq (take (length p) s) p

unfoldable pub has_suffix : Text → Text → Bool
has_suffix p s = text_eq (drop (length s - length p) s) p

abbrev pub is_lower_hex : ℕ → Bool
is_lower_hex c = is_digit c || (leb b'a' c && leb c b'f')

unfoldable pub all_lower_hex : Text → Bool
all_lower_hex [] = true
all_lower_hex (c ∷ s) = is_lower_hex c && all_lower_hex s

-- The outcome behind a condition is cut off.
unfoldable pub without_outcome : Text → Text
unfolding has_prefix has_suffix byte_length
without_outcome v =
    if nat_eq (byte_length v) 66
      && has_prefix (codes "0x03") v
      && (has_suffix (codes "00") v || has_suffix (codes "01") v)
    then take 64 v
    else v

-- `NormalizeConditionID`.
unfoldable pub normalize_condition_id : Text → Option Text
unfolding without_outcome all_lower_hex
normalize_condition_id value =
    let v = without_outcome (map lower (trim_space value)) in
    if nat_eq (byte_length v) 64 && has_prefix (codes "0x03") v && all_lower_hex (drop 2 v)
    then some v
    else none

unfoldable pub equal_fold : Text → Text → Bool
equal_fold a b = text_eq (map lower a) (map lower b)

-- What a quote asks, in millionths, before it is an order.
pub record Terms : Type 0 where
  pub price : ℕ
  pub size : ℕ
  pub order_price : ℕ
  pub token : Text
  pub order_side : ℕ
  pub maker : ℕ
  pub taker : ℕ

abbrev pub below_one : ℤ → Option ℕ
below_one (negsuc n) = none
below_one (pos n) = if not (nat_eq n 0) && ltb n one then some n else none

abbrev pub up_to : ℕ → ℤ → Option ℕ
up_to max (negsuc n) = none
up_to max (pos n) = if not (nat_eq n 0) && leb n max then some n else none

unfoldable pub max_size : RequestedSizeUnit → ℕ → ℕ → Quoted ℕ
max_size notional requested price = quoted (requested * one / price)
max_size shares requested price = quoted requested
max_size (other_unit u) requested price = refused invalid_unit

unfoldable pub quote_size : Text → ℕ → Quoted ℕ
quote_size text max =
    if is_empty text
    then quoted_or size_out_of_range (up_to max (pos max))
    else quoted_or invalid_size (decimal_to_e6 text) >>= λ z.
        quoted_or size_out_of_range (up_to max z)

-- The source that a quote has: collateral, unless it says inventory.
unfoldable pub from_inventory : QuoteSource → Quoted Bool
from_inventory no_source = quoted false
from_inventory collateral = quoted false
from_inventory inventory = quoted true
from_inventory (other_source s) = refused invalid_source

abbrev pub is_buy : Direction → Bool
is_buy buy = true
is_buy _ = false

abbrev pub is_sell : Direction → Bool
is_sell sell = true
is_sell _ = false

unfoldable pub order_price_of : Direction → Bool → ℕ → ℕ
order_price_of d stock price =
    if (is_buy d && not stock) || (is_sell d && stock) then one - price else price

unfoldable pub token_of : QuoteRequest → Bool → Quoted Text
token_of r stock = elim r.direction [
  | buy ↦ quoted (if stock then r.yes_position_id else r.no_position_id)
  | sell ↦ quoted (if stock then r.no_position_id else r.yes_position_id)
  | other_direction d ↦ refused invalid_direction
]

unfoldable pub terms_of : Bool → ℕ → ℕ → ℕ → Text → Terms
unfolding ceil_mul_div
terms_of stock price size order_price token = record {
  price = price;
  size = size;
  order_price = order_price;
  token = token;
  order_side = if stock then 1 else 0;
  maker = if stock then size else ceil_mul_div order_price size one;
  taker = if stock then order_price * size / one else size;
}

-- `BuildAndSign` from the check of the side up to the amounts.
unfoldable pub quote_terms : QuoteRequest → QuoteOptions → Quoted Terms
quote_terms r opts = do
  refuse_if (elim r.side [ yes_side ↦ false | other_side s ↦ true ]) not_yes_side
  id ← quoted_or invalid_condition_id (normalize_condition_id r.condition_id)
  z ← quoted_or invalid_price (decimal_to_e6 opts.price)
  price ← quoted_or price_out_of_range (below_one z)
  requested ← quoted_or invalid_requested_size (positive_big_int r.value_e6)
  max ← max_size r.unit requested price
  size ← quote_size opts.size max
  stock ← from_inventory opts.source
  token ← token_of r stock
  let terms = terms_of stock price size (order_price_of r.direction stock price) token
  refuse_if (nat_eq terms.maker 0 || nat_eq terms.taker 0) zero_amount
  quoted terms

-- What the code takes from its libraries and surroundings: the addresses of go-ethereum, the random
-- salt, the clock in seconds, and the two signatures.
pub record QuoteEnv : Type 0 where
  pub is_hex_address : Text → Bool
  pub hex_to_address : Text → ℕ
  pub address_hex : ℕ → Text
  pub random : Option ℕ
  pub now_unix : ℤ
  pub sign : ℕ → ℕ → SignedOrder → Option Text
  pub sign_poly_1271 : ℕ → ℕ → ℕ → SignedOrder → Option Text

-- The combo exchange of the one chain that is known.
unfoldable pub combo_exchange : ℕ → Option ℕ
combo_exchange chain =
    if nat_eq chain 137 then some 0xe3333700cA9d93003F00f0F71f8515005F6c00Aa else none

module _ (env : QuoteEnv) where
  open env use {is_hex_address, hex_to_address, address_hex, random, now_unix}

  unfoldable pub validate_order_identity : Identity → ℕ → Quoted (Unit {0})
  validate_order_identity i signer = do
    refuse_if (not (is_hex_address i.maker_address) || not (is_hex_address i.signer_address))
        bad_address
    refuse_if
        (nat_eq (hex_to_address i.maker_address) 0 || nat_eq (hex_to_address i.signer_address) 0)
        zero_address
    elim i.signature_type [
      | eoa ↦
          refuse_if (not (equal_fold i.maker_address i.signer_address)) address_mismatch
          >> refuse_if (not (equal_fold i.signer_address (address_hex signer))) signer_mismatch
      | poly_1271 ↦ refuse_if (not (equal_fold i.signer_address i.maker_address)) address_mismatch
      | other_signature_type t ↦ refused unsupported_signature_type
      | _ ↦ refuse_if (not (equal_fold i.signer_address (address_hex signer))) signer_mismatch
    ]

  -- The order of the terms, not signed yet.
  unfoldable pub quote_order : Identity → Terms → ℕ → SignedOrder
  quote_order i terms n = record {
    salt = print_nat n;
    maker = i.maker_address;
    signer = if is_poly_1271 i.signature_type then i.maker_address else i.signer_address;
    token_id = terms.token;
    maker_amount = print_nat terms.maker;
    taker_amount = print_nat terms.taker;
    order_side = terms.order_side;
    signature_type = i.signature_type;
    timestamp = print_int now_unix;
    metadata = zero_bytes32;
    builder = zero_bytes32;
    signature = [];
  }

  unfoldable pub sign_quote : Identity → ℕ → ℕ → SignedOrder → Option Text
  sign_quote i signer exchange order =
      if is_poly_1271 i.signature_type
      then env.sign_poly_1271 signer exchange (hex_to_address i.maker_address) order
      else env.sign signer exchange order

  -- `BuildAndSign` of a client with or without a signer.
  unfoldable pub build_and_sign :
      Option ℕ → ℕ → Identity → QuoteRequest → QuoteOptions → Quoted BuiltQuote
  build_and_sign key chain i r opts = do
    signer ← quoted_or no_signer key
    validate_order_identity i signer
    terms ← quote_terms r opts
    n ← quoted_or no_salt random
    exchange ← quoted_or unsupported_chain (combo_exchange chain)
    let order = quote_order i terms n
    text ← quoted_or signing_failed (sign_quote i signer exchange order)
    quoted (record {
      price_e6 = print_nat terms.price;
      size_e6 = print_nat terms.size;
      signed_order = record order { signature = text };
    })
