-- ===== src/Combo/Quote/Built.antt =====
-- What a quote is that `BuildAndSign` returns.
use polymarket_client.Base.{◌≡◌, some}
use polymarket_client.Base.Int.{pos}
use polymarket_client.Clob.Number.{parse_int}
use polymarket_client.Combo.Quote.{Terms, Identity, BuiltQuote}

-- The texts of a quote are the numbers of its terms.
pub record HasTerms (i : Identity) (t : Terms) (q : BuiltQuote) : Type 0 where
  pub price_text : parse_int q.price_e6 ≡ some (pos t.price)
  pub size_text : parse_int q.size_e6 ≡ some (pos t.size)
  pub maker_text : parse_int q.signed_order.maker_amount ≡ some (pos t.maker)
  pub taker_text : parse_int q.signed_order.taker_amount ≡ some (pos t.taker)
  pub token_kept : q.signed_order.token_id ≡ t.token
  pub side_kept : q.signed_order.order_side ≡ t.order_side
  pub maker_kept : q.signed_order.maker ≡ i.maker_address
