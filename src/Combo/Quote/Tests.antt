-- ===== src/Combo/Quote/Tests.antt =====
-- A quote for a request by value, from collateral.
use polymarket_client.Base.{true, some, []}
use polymarket_client.Base.Int.{pos}
use polymarket_client.Base.Text.{codes}
use polymarket_client.Clob.Order.{eoa, zero_bytes32}
use polymarket_client.Combo.Quote.{
  buy, yes_side, notional, collateral, Identity, QuoteRequest, QuoteOptions, QuoteEnv, BuiltQuote,
}

abbrev surroundings : QuoteEnv
surroundings = record {
  is_hex_address = λ _. true;
  hex_to_address = λ _. 10;
  address_hex = λ _. codes "0x0A";
  random = some 77;
  now_unix = pos 5;
  sign = λ _ _ _. some (codes "0xab");
  sign_poly_1271 = λ _ _ _ _. some (codes "0xcd");
}

abbrev quoter : Identity
quoter = record {
  signer_address = codes "0x0A";
  maker_address = codes "0x0a";
  signature_type = eoa;
}

abbrev request : QuoteRequest
request = record {
  rfq_id = codes "r";
  requestor_public_id = codes "p";
  leg_position_ids = [];
  condition_id = codes "0x03ABcdcdcdcdcdcdcdcdcdcdcdcdcdcdcdcdcdcdcdcdcdcdcdcdcdcdcdcdcd";
  yes_position_id = codes "11";
  no_position_id = codes "22";
  direction = buy;
  side = yes_side;
  unit = notional;
  value_e6 = codes "10000000";
  submission_deadline = pos 9;
}

abbrev offer : QuoteOptions
offer = record { price = codes "0.4"; size = []; source = collateral }

abbrev quote_made : BuiltQuote
quote_made = record {
  price_e6 = codes "400000";
  size_e6 = codes "25000000";
  signed_order = record {
    salt = codes "77";
    maker = codes "0x0a";
    signer = codes "0x0A";
    token_id = codes "22";
    maker_amount = codes "15000000";
    taker_amount = codes "25000000";
    order_side = 0;
    signature_type = eoa;
    timestamp = codes "5";
    metadata = zero_bytes32;
    builder = zero_bytes32;
    signature = codes "0xab";
  };
}
