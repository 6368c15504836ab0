-- ===== src/Clob/Order/Builder.antt =====
-- clob/order_builder.go: orders from readable arguments, signed, and posted.
-- `post` stands for the HTTP request of `PostOrder`, and `get_tick_size` and `get_neg_risk` for
-- those of `GetTickSizeByTokenID` and `GetNegRisk`.
use polymarket_client.Base.{
  ℕ, ◌/◌, Bool, true, false, not, ◌&&◌, Option, none, some, [], if◌then◌else◌, is_empty,
}
use polymarket_client.Base.Int.{ℤ, pos}
use polymarket_client.Base.Text.{Text, codes}
use polymarket_client.Clob.Number.{print_int}
use polymarket_client.Clob.Checked.{
  Error, Checked, accept, reject, ◌>>=◌, ◌>>◌, fail_if, fail_on, not_a_market_order_type,
  no_credentials, no_credentials_key,
}
use polymarket_client.Clob.Amount.{Side, compute_order_amounts, compute_market_order_amounts}
use polymarket_client.Clob.Validate.{
  OrderType, is_market_type, validate_price_range, validate_price_ticks, validate_defer_exec,
  validate_expiration,
}
use polymarket_client.Clob.Order.{
  SignedOrder, SignatureType, eoa, Env, SignOrderConfig, is_poly_1271, sign_order,
}

-- `Client`, as far as orders read it: its signer's address, the chain, the key of its credentials,
-- and the default type of a signature.
pub record OrderClient : Type 0 where
  pub signer : Option ℕ
  pub chain : ℕ
  pub credentials : Option Text
  pub default_signature_type : Option SignatureType

-- `OrderArgsV2`.
pub record OrderArgs : Type 0 where
  pub token_id : Text
  pub price : Text
  pub size : Text
  pub side : Side
  pub expiration : Text
  pub signature_type : Option SignatureType
  pub maker : Text
  pub builder_code : Text
  pub metadata : Text

-- `MarketOrderArgsV2`.
pub record MarketOrderArgs : Type 0 where
  pub price : Text
  pub token_id : Text
  pub amount : Text
  pub side : Side
  pub signature_type : Option SignatureType
  pub maker : Text
  pub builder_code : Text
  pub metadata : Text

pub record CreateOrderOptions : Type 0 where
  pub tick_size : Text
  pub neg_risk : Bool

pub record PostOrderRequest : Type 0 where
  pub order : SignedOrder
  pub owner : Text
  pub order_type : OrderType
  pub defer_exec : Option Bool

unfoldable pub resolve_signature_type : OrderClient → Option SignatureType → SignatureType
resolve_signature_type client (some t) = t
resolve_signature_type client none = elim client.default_signature_type [ some t ↦ t | none ↦ eoa ]

unfoldable pub apply_order_builder_signature_shape : SignedOrder → SignedOrder
apply_order_builder_signature_shape o =
    if is_poly_1271 o.signature_type && not (is_empty o.maker) && is_empty o.signer
    then record o { signer = o.maker }
    else o

-- The order that `BuildOrder` fills in, with the amounts' texts.
unfoldable pub limit_order : OrderClient → OrderArgs → ℤ × ℤ → SignedOrder
limit_order client args (maker_int, taker_int) = record {
  salt = pos 0;
  maker = args.maker;
  signer = [];
  token_id = args.token_id;
  maker_amount = print_int maker_int;
  taker_amount = print_int taker_int;
  expiration = if is_empty args.expiration then codes "0" else args.expiration;
  side = args.side;
  signature_type = resolve_signature_type client args.signature_type;
  timestamp = [];
  metadata = args.metadata;
  builder = args.builder_code;
  signature = [];
}

unfoldable pub market_order : OrderClient → MarketOrderArgs → ℤ × ℤ → SignedOrder
market_order client args (maker_int, taker_int) = record {
  salt = pos 0;
  maker = args.maker;
  signer = [];
  token_id = args.token_id;
  maker_amount = print_int maker_int;
  taker_amount = print_int taker_int;
  expiration = codes "0";
  side = args.side;
  signature_type = resolve_signature_type client args.signature_type;
  timestamp = [];
  metadata = args.metadata;
  builder = args.builder_code;
  signature = [];
}

-- `if err := …; err != nil { return nil, err }; return order, nil`
abbrev pub order_or_error : SignedOrder × Option Error → Checked SignedOrder
order_or_error (o, none) = accept o
order_or_error (o, some e) = reject e

module _ (env : Env) (client : OrderClient) where
  open env use {set_string, parse_float, now_milli}

  unfoldable pub sign_built_order : Bool → SignedOrder → Checked SignedOrder
  sign_built_order risk o =
      let config : SignOrderConfig = record {
        neg_risk = risk;
        verifying_contract = 0;
        salt = none;
      } in
      order_or_error
        (sign_order env client.signer client.chain config (apply_order_builder_signature_shape o))

  unfoldable pub build_order : OrderArgs → CreateOrderOptions → Checked SignedOrder
  build_order args opts = do
    fail_on (validate_price_range parse_float args.price false)
    fail_on (validate_price_ticks set_string args.price opts.tick_size)
    amounts ← compute_order_amounts set_string args.price args.size args.side
    sign_built_order opts.neg_risk (limit_order client args amounts)

  unfoldable pub build_market_order : MarketOrderArgs → CreateOrderOptions → Checked SignedOrder
  build_market_order args opts = do
    fail_on (validate_price_range parse_float args.price true)
    fail_on (validate_price_ticks set_string args.price opts.tick_size)
    amounts ← compute_market_order_amounts set_string args.price args.amount args.side
    sign_built_order opts.neg_risk (market_order client args amounts)

  -- The key of the credentials that posting needs.
  unfoldable pub owner_key : Checked Text
  owner_key = elim client.credentials [
    | none ↦ reject no_credentials
    | some key ↦ if is_empty key then reject no_credentials_key else accept key
  ]

  module _ (get_tick_size : Text → Checked Text) (get_neg_risk : Text → Checked Bool) where
    unfoldable pub get_market_options : Text → Checked CreateOrderOptions
    get_market_options token = do
      tick ← get_tick_size token
      risk ← get_neg_risk token
      accept (record { tick_size = tick; neg_risk = risk })

    unfoldable pub build_order_for_token : OrderArgs → Checked SignedOrder
    build_order_for_token args = do opts ← get_market_options args.token_id; build_order args opts

    unfoldable pub build_market_order_for_token : MarketOrderArgs → Checked SignedOrder
    build_market_order_for_token args = do
      opts ← get_market_options args.token_id
      build_market_order args opts

  module _ {R : Type 0} (post : PostOrderRequest → Checked R) where
    unfoldable pub create_and_post_order :
        OrderArgs → CreateOrderOptions → OrderType → Option Bool → Checked R
    create_and_post_order args opts kind defer = do
      fail_on (validate_defer_exec kind defer)
      o ← build_order args opts
      fail_on (validate_expiration kind o.expiration (now_milli / 1000))
      key ← owner_key
      post (record { order = o; owner = key; order_type = kind; defer_exec = defer })

    unfoldable pub create_and_post_market_order :
        MarketOrderArgs → CreateOrderOptions → OrderType → Option Bool → Checked R
    create_and_post_market_order args opts kind defer = do
      fail_if (not (is_market_type kind)) not_a_market_order_type
      fail_on (validate_defer_exec kind defer)
      o ← build_market_order args opts
      key ← owner_key
      post (record { order = o; owner = key; order_type = kind; defer_exec = defer })

    module _ (get_tick_size : Text → Checked Text) (get_neg_risk : Text → Checked Bool) where
      unfoldable pub create_and_post_order_for_token :
          OrderArgs → OrderType → Option Bool → Checked R
      create_and_post_order_for_token args kind defer = do
        opts ← get_market_options get_tick_size get_neg_risk args.token_id
        create_and_post_order args opts kind defer

      unfoldable pub create_and_post_market_order_for_token :
          MarketOrderArgs → OrderType → Option Bool → Checked R
      create_and_post_market_order_for_token args kind defer = do
        opts ← get_market_options get_tick_size get_neg_risk args.token_id
        create_and_post_market_order args opts kind defer
