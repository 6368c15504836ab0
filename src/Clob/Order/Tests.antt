-- ===== src/Clob/Order/Tests.antt =====
-- Runs of the order code, and the theorems about it at concrete inputs.
use polymarket_client.Base.{◌≡◌, refl, true, false, Option, none, some, [], if◌then◌else◌}
use polymarket_client.Base.Int.{pos}
use polymarket_client.Base.Text.{Text, codes, text_eq, trim_space, trim_left, is_space}
use polymarket_client.Clob.Order.{
  SignedOrder, eoa, poly_1271, Env, SignOrderConfig, check_fields, check_is_deposit,
  check_maker_amount, check_side, check_signature_type, check_taker_amount, check_token_id,
  contracts, drawn_salt, equal_address, fill_builder, fill_expiration, fill_maker, fill_metadata,
  fill_salt, fill_signer, fill_timestamp, infer_deposit_wallet, match_maker, match_signer,
  prepare_deposit_wallet_order_for_signing, prepare_order_for_signing, random_order_salt,
  replace_salt, sign_deposit_order, sign_for_wallet, sign_order, sign_plain_order, store_signature,
  to_int64, verifying_contract_of, zero_bytes32, ◌>>>◌,
}
use polymarket_client.Clob.Order.Builder.{
  OrderClient, OrderArgs, MarketOrderArgs, CreateOrderOptions, PostOrderRequest,
  apply_order_builder_signature_shape, build_market_order, build_market_order_for_token,
  build_order, build_order_for_token, create_and_post_market_order,
  create_and_post_market_order_for_token, create_and_post_order, create_and_post_order_for_token,
  get_market_options, limit_order, market_order, owner_key, resolve_signature_type,
  sign_built_order,
}
use polymarket_client.Clob.Validate.{
  gtd, all_hex, byte_length, check_expiration, check_range, check_ticks, check_uint256,
  is_exact_multiple, validate_bytes32_hex, validate_defer_exec, validate_expiration,
  validate_hex_digits, validate_price_range, validate_price_ticks, validate_uint256_string,
}
use polymarket_client.Clob.Number.{
  parse_digits, parse_int, parse_unsigned, print_int, print_loop, print_nat,
}
use polymarket_client.Clob.Amount.{
  buy, ceil_rat, ceil_rat_to_quantum, compute_market_order_amounts, compute_order_amounts, is_known,
  market_amounts, order_amounts, parse_rat, trunc_rat, trunc_rat_to_quantum,
}
use polymarket_client.Clob.Rat.{Rat, div_int, mod_int, mul, quo}
use polymarket_client.Clob.Checked.{Checked, accept, reject}
use polymarket_client.Clob.Order.Built.{IsBuilt, build_order_lem, build_market_order_lem}
use polymarket_client.Clob.Order.Posted.{IsPosted, create_and_post_order_lem}

abbrev fraction : Text → Option Rat
fraction text =
    if text_eq text (codes "0.5")
    then some (record { num = pos 1; den = 2 })
    else if text_eq text (codes "0.01")
    then some (record { num = pos 1; den = 100 })
    else if text_eq text (codes "20")
    then some (record { num = pos 20; den = 1 })
    else none

abbrev surroundings : Env
surroundings = record {
  set_string = fraction;
  parse_float = fraction;
  is_hex_address = λ _. true;
  hex_to_address = λ text. if text_eq text (codes "0x0A") then 10 else 1;
  address_hex = λ n. codes "0x0A";
  sign = λ _ _ _. some (codes "0xab");
  sign_deposit_wallet = λ _ _ _ _. some (codes "0xcd");
  now_milli = 5000;
  random = some 7;
}

abbrev trader : OrderClient
trader = record {
  signer = some 10;
  chain = 137;
  credentials = some (codes "key");
  default_signature_type = none;
}

abbrev bid : OrderArgs
bid = record {
  token_id = codes "42";
  price = codes "0.5";
  size = codes "20";
  side = buy;
  expiration = codes "65";
  signature_type = none;
  maker = [];
  builder_code = [];
  metadata = [];
}

abbrev market_bid : MarketOrderArgs
market_bid = record {
  price = codes "0.5";
  token_id = codes "42";
  amount = codes "20";
  side = buy;
  signature_type = some poly_1271;
  maker = codes "0x0A";
  builder_code = [];
  metadata = [];
}

abbrev cents : CreateOrderOptions
cents = record { tick_size = codes "0.01"; neg_risk = false }

abbrev echo : PostOrderRequest → Checked Text
echo request = accept request.order.maker_amount

abbrev order_of : Checked SignedOrder → SignedOrder
order_of (accept o) = o
order_of (reject e) = record {
  salt = pos 0;
  maker = [];
  signer = [];
  token_id = [];
  maker_amount = [];
  taker_amount = [];
  expiration = [];
  side = buy;
  signature_type = eoa;
  timestamp = [];
  metadata = [];
  builder = [];
  signature = [];
}

abbrev bid_order : SignedOrder
bid_order = order_of (build_order surroundings trader bid cents)

abbrev market_bid_order : SignedOrder
market_bid_order = record {
  salt = pos 7;
  maker = codes "0x0A";
  signer = codes "0x0A";
  token_id = codes "42";
  maker_amount = codes "20000000";
  taker_amount = codes "40000000";
  expiration = codes "0";
  side = buy;
  signature_type = poly_1271;
  timestamp = codes "5000";
  metadata = zero_bytes32;
  builder = zero_bytes32;
  signature = codes "0xcd";
}

-- What the runs below open.
program : Unit {0}
unfolding ceil_rat ceil_rat_to_quantum compute_market_order_amounts compute_order_amounts is_known
    market_amounts order_amounts parse_rat trunc_rat trunc_rat_to_quantum parse_digits parse_int
    parse_unsigned print_int print_loop print_nat check_fields check_is_deposit check_maker_amount
    check_side check_signature_type check_taker_amount check_token_id contracts drawn_salt
    equal_address fill_builder fill_expiration fill_maker fill_metadata fill_salt fill_signer
    fill_timestamp infer_deposit_wallet match_maker match_signer
    prepare_deposit_wallet_order_for_signing prepare_order_for_signing random_order_salt
    replace_salt sign_deposit_order sign_for_wallet sign_order sign_plain_order store_signature
    to_int64 verifying_contract_of zero_bytes32 ◌>>>◌ apply_order_builder_signature_shape
    build_market_order build_market_order_for_token build_order build_order_for_token
    create_and_post_market_order create_and_post_market_order_for_token create_and_post_order
    create_and_post_order_for_token get_market_options limit_order market_order owner_key
    resolve_signature_type sign_built_order div_int mod_int mul quo all_hex byte_length
    check_expiration check_range check_ticks check_uint256 is_exact_multiple validate_bytes32_hex
    validate_defer_exec validate_expiration validate_hex_digits validate_price_range
    validate_price_ticks validate_uint256_string text_eq trim_left trim_space is_space
program = tt

bid_built : build_order surroundings trader bid cents ≡ accept bid_order
unfolding program
bid_built = refl

market_bid_built : build_market_order surroundings trader market_bid cents ≡ accept market_bid_order
unfolding program
market_bid_built = refl

bid_amounts :
    (bid_order.maker_amount ≡ codes "10000000") × (bid_order.taker_amount ≡ codes "20000000")
unfolding program
bid_amounts = (refl, refl)

bid_posted :
    create_and_post_order surroundings trader echo bid cents gtd none ≡ accept (codes "10000000")
unfolding program
bid_posted = refl

build_order_lem_example :
    (validate_price_range fraction (codes "0.5") false ≡ none)
    × (validate_price_ticks fraction (codes "0.5") (codes "0.01") ≡ none)
    × IsBuilt
        (compute_order_amounts fraction (codes "0.5") (codes "20") buy)
        buy
        (codes "42")
        bid_order
build_order_lem_example = build_order_lem surroundings trader bid cents bid_order bid_built

build_market_order_lem_example :
    (validate_price_range fraction (codes "0.5") true ≡ none)
    × (validate_price_ticks fraction (codes "0.5") (codes "0.01") ≡ none)
    × IsBuilt
        (compute_market_order_amounts fraction (codes "0.5") (codes "20") buy)
        buy
        (codes "42")
        market_bid_order
build_market_order_lem_example =
    build_market_order_lem surroundings trader market_bid cents market_bid_order market_bid_built

create_and_post_order_lem_example :
    (p : SignedOrder) × (build_order surroundings trader bid cents ≡ accept p)
    × IsPosted surroundings trader echo gtd none p (codes "10000000")
create_and_post_order_lem_example =
    create_and_post_order_lem surroundings trader echo bid cents gtd none (codes "10000000")
      bid_posted

abbrev plain : SignOrderConfig
plain = record { neg_risk = true; verifying_contract = 0; salt = some (pos 9) }

abbrev signed_bid : SignedOrder
signed_bid = (sign_order surroundings (some 10) 137 plain bid_order).0
