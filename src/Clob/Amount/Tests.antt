-- ===== src/Clob/Amount/Tests.antt =====
-- The amounts at concrete inputs.
use polymarket_client.Base.{
  ℕ, ◌+◌, ◌*◌, ◌%◌, ◌≡◌, ◌<◌, ◌≤◌, refl, Option, none, some, arith, if◌then◌else◌,
}
use polymarket_client.Base.Int.{pos, negsuc}
use polymarket_client.Base.Text.{Text, codes, text_eq}
use polymarket_client.Clob.Rat.{Rat, mul, quo, div_int, mod_int}
use polymarket_client.Clob.Checked.{accept, reject, price_sign}
use polymarket_client.Clob.Amount.{
  buy, sell, order_scale, trunc_rat, ceil_rat, trunc_rat_to_quantum, ceil_rat_to_quantum, is_known,
  parse_rat, order_amounts, compute_order_amounts, market_amounts, compute_market_order_amounts,
}
use polymarket_client.Clob.Amount.Order.{buy_order, sell_order}
use polymarket_client.Clob.Amount.Market.{market_buy_order, market_sell_order}

amounts : Unit {0}
unfolding text_eq mul quo div_int mod_int trunc_rat ceil_rat trunc_rat_to_quantum
    ceil_rat_to_quantum is_known parse_rat order_amounts compute_order_amounts market_amounts
    compute_market_order_amounts
amounts = tt

-- A reader of three texts.
abbrev some_decimals : Text → Option Rat
some_decimals t =
    if text_eq t (codes "0.6")
    then some (record { num = pos 6; den = 10 })
    else if text_eq t (codes "0.0000035")
    then some (record { num = pos 35; den = 10000000 })
    else if text_eq t (codes "-1")
    then some (record { num = negsuc 0; den = 1 })
    else none

abbrev price : Text
price = codes "0.6"

abbrev size : Text
size = codes "0.0000035"

-- Two millionths are offered for three: a price of 0.66 against the limit of 0.6.
over_the_limit : compute_order_amounts some_decimals price size buy ≡ accept (pos 2, pos 3)
unfolding amounts
over_the_limit = refl

negative_price : compute_order_amounts some_decimals (codes "-1") size buy ≡ reject price_sign
unfolding amounts
negative_price = refl

buy_order_example :
    (m t : ℕ) × (compute_order_amounts some_decimals price size buy ≡ accept (pos m, pos t))
    × (m * (10 * 10000000) ≤ 6 * 35 * order_scale)
    × (6 * 35 * order_scale < (m + 1) * (10 * 10000000))
    × (t * 10000000 ≤ 35 * order_scale)
    × (35 * order_scale < (t + 1) * 10000000)
    × (m * 10 ≤ 6 * (t + 1))
    × (35 * order_scale % 10000000 ≡ 0 → m * 10 ≤ 6 * t)
unfolding amounts
buy_order_example =
    buy_order some_decimals price size 6 10 35 10000000 (refl, omega arith) (refl, omega arith)
      (omega arith)

sell_order_example :
    (m t : ℕ) × (compute_order_amounts some_decimals price size sell ≡ accept (pos m, pos t))
    × (m * 10000000 ≤ 35 * order_scale)
    × (35 * order_scale < (m + 1) * 10000000)
    × (6 * 35 * order_scale ≤ t * (10 * 10000000))
    × (t * (10 * 10000000) < 6 * 35 * order_scale + 10 * 10000000)
    × (6 * m ≤ t * 10)
unfolding amounts
sell_order_example =
    sell_order some_decimals price size 6 10 35 10000000 (refl, omega arith) (refl, omega arith)
      (omega arith)

market_buy_order_example :
    (m t : ℕ) × (compute_market_order_amounts some_decimals price price buy ≡ accept (pos m, pos t))
    × (m % 10000 ≡ 0)
    × (t % 100 ≡ 0)
    × (m * 10 ≤ 6 * order_scale)
    × (6 * order_scale < (m + 10000) * 10)
    × (m * 10 ≤ 6 * t)
    × (6 * t < m * 10 + 100 * 6)
unfolding amounts
market_buy_order_example =
    market_buy_order some_decimals price price 6 10 6 10 (refl, omega arith) (refl, omega arith)
      (omega arith) (omega arith)

market_sell_order_example :
    (m t : ℕ) × (compute_market_order_amounts some_decimals price price sell
      ≡ accept (pos m, pos t))
    × (m % 10000 ≡ 0)
    × (t % 100 ≡ 0)
    × (m * 10 ≤ 6 * order_scale)
    × (6 * order_scale < (m + 10000) * 10)
    × (m * 6 ≤ 10 * t)
    × (10 * t < m * 6 + 100 * 10)
unfolding amounts
market_sell_order_example =
    market_sell_order some_decimals price price 6 10 6 10 (refl, omega arith) (refl, omega arith)
      (omega arith) (omega arith)
