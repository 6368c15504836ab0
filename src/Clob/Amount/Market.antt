-- ===== src/Clob/Amount/Market.antt =====
-- Market orders: the amounts are multiples of their quanta, and the price that they imply is never
-- worse than the worst price.
use native.Mathlib.Nat.{mul-one}
use polymarket_client.Base.{
  ℕ, ◌+◌, ◌-◌, ◌*◌, ◌/◌, ◌%◌, ◌≡◌, ◌<◌, ◌≤◌, ap, ◌∙◌, Option, arith, nat_eq, if◌then◌else◌,
}
use polymarket_client.Base.Int.{pos}
use polymarket_client.Base.Text.{Text}
use polymarket_client.Clob.Rat.{Rat, Reads, ceil, floor_bounds, ceil_bounds, mul_mono, mul, quo}
use polymarket_client.Clob.Checked.{accept}
use polymarket_client.Clob.Amount.{
  buy, sell, order_scale, ceil_rat-pos, trunc_rat_to_quantum, ceil_rat_to_quantum, market_amounts,
  compute_market_order_amounts, parse_rat-accept,
}

frac : ℕ → ℕ → Rat
frac n d = record { num = pos n; den = d }

-- Down to a multiple of 10000.
maker_of : ℕ → ℕ → ℕ
maker_of n d = n * order_scale / d / 10000 * 10000

-- Up to a multiple of 100.
taker_of : ℕ → ℕ → ℕ
taker_of n d = ceil (ceil n d) 100 * 100

ceil_quantum : (v : ℕ) → (if nat_eq (v % 100) 0 then v else v + (100 - v % 100)) ≡ ceil v 100 * 100
ceil_quantum v = ground arith

ceil_rat_to_quantum-pos :
    (n d : ℕ) → ceil_rat_to_quantum (record { num = pos n; den = d }) 100 ≡ pos (taker_of n d)
unfolding ceil_rat_to_quantum taker_of
ceil_rat_to_quantum-pos n d = rw (ceil_rat-pos n d) (ground (arith, ceil_quantum (ceil n d)))

trunc_rat_to_quantum-pos :
    (n d : ℕ)
    → trunc_rat_to_quantum (record { num = pos (n * order_scale); den = d * 1 }) 10000
      ≡ pos (maker_of n d)
unfolding trunc_rat_to_quantum maker_of
trunc_rat_to_quantum-pos n d = rw mul-one

buy_lem :
    (pn pd an ad : ℕ)
    → market_amounts buy (frac pn pd) (frac an ad) ≡ (
      pos (maker_of an ad),
      pos (taker_of (maker_of an ad * 1 * pd * 1000000) (1 * 1000000 * pn * 1)),
    )
unfolding market_amounts frac maker_of
buy_lem pn pd an ad =
    rw (trunc_rat_to_quantum-pos an ad, ceil_rat_to_quantum-pos, market_amounts, quo, mul)
      (rw (mul-one ad))

sell_lem :
    (pn pd an ad : ℕ)
    → market_amounts sell (frac pn pd) (frac an ad) ≡ (
      pos (maker_of an ad),
      pos (taker_of (maker_of an ad * 1 * pn * 1000000) (1 * 1000000 * pd * 1)),
    )
unfolding market_amounts frac maker_of
sell_lem pn pd an ad =
    rw (trunc_rat_to_quantum-pos an ad, ceil_rat_to_quantum-pos, market_amounts, quo, mul)
      (rw (mul-one ad))

maker_bounds :
    (n d : ℕ)
    → 0 < d
    → (maker_of n d % 10000 ≡ 0)
      × (maker_of n d * d ≤ n * order_scale)
      × (n * order_scale < (maker_of n d + 10000) * d)
unfolding maker_of
maker_bounds n d h =
    let v = n * order_scale / d in
    let b = floor_bounds (n * order_scale) d h in
    let low : v / 10000 * 10000 ≤ v = omega arith in
    let high : v + 1 ≤ v / 10000 * 10000 + 10000 = omega arith in
    (
      omega arith,
      omega (arith, b.0, mul_mono (v / 10000 * 10000) v d low),
      omega (arith, b.1, mul_mono (v + 1) (v / 10000 * 10000 + 10000) d high),
    )

-- Rounding m * a / b, computed in millionths, up to a multiple of 100.
taker_bounds :
    (m a b : ℕ)
    → 0 < b
    → let t = taker_of (m * 1 * a * 1000000) (1 * 1000000 * b * 1) in
      (t % 100 ≡ 0) × (m * a ≤ b * t) × (b * t < m * a + 100 * b)
unfolding taker_of
taker_bounds m a b h =
    let n = m * 1 * a * 1000000 in
    let d = 1 * 1000000 * b * 1 in
    let c = ceil n d in
    let t = ceil c 100 * 100 in
    let k = ceil_bounds n d (omega arith) in
    let low : c ≤ t = (ceil_bounds c 100 (omega arith)).0 in
    let high : t ≤ c + 99 = omega (arith, ceil_bounds c 100 (omega arith)) in
    (
      omega arith,
      omega (arith, k.0, mul_mono c t b low),
      omega (arith, k.1, mul_mono t (c + 99) b high),
    )

module _ (set_string : Text → Option Rat) (price amount : Text) (pn pd an ad : ℕ)
    (read_price : Reads set_string price pn pd) (read_amount : Reads set_string amount an ad)
    (price_positive : 0 < pn) (amount_positive : 0 < an) where
  buy_amounts :
      compute_market_order_amounts set_string price amount buy
      ≡ accept (market_amounts buy (frac pn pd) (frac an ad))
  unfolding compute_market_order_amounts frac
  buy_amounts =
      rw
        (
          parse_rat-accept set_string price _ read_price.0,
          parse_rat-accept set_string amount _ read_amount.0,
          compute_market_order_amounts,
        )
        (ground arith)

  sell_amounts :
      compute_market_order_amounts set_string price amount sell
      ≡ accept (market_amounts sell (frac pn pd) (frac an ad))
  unfolding compute_market_order_amounts frac
  sell_amounts =
      rw
        (
          parse_rat-accept set_string price _ read_price.0,
          parse_rat-accept set_string amount _ read_amount.0,
          compute_market_order_amounts,
        )
        (ground arith)

  -- A market buy offers its amount rounded down to a multiple of 0.01, and wants a multiple of
  -- 0.0001 shares that at the worst price are worth at least the offer, by less than 0.0001 shares.
  pub market_buy_order :
      (m t : ℕ) × (compute_market_order_amounts set_string price amount buy ≡ accept (pos m, pos t))
      × (m % 10000 ≡ 0)
      × (t % 100 ≡ 0)
      × (m * ad ≤ an * order_scale)
      × (an * order_scale < (m + 10000) * ad)
      × (m * pd ≤ pn * t)
      × (pn * t < m * pd + 100 * pn)
  market_buy_order =
      let m = maker_of an ad in
      let t = taker_of (m * 1 * pd * 1000000) (1 * 1000000 * pn * 1) in
      let mb = maker_bounds an ad read_amount.1 in
      let tb = taker_bounds m pd pn price_positive in
      (m, t, buy_amounts ∙ ap accept (buy_lem pn pd an ad), mb.0, tb.0, mb.1, mb.2, tb.1, tb.2)

  -- A market sell offers its shares rounded down to a multiple of 0.01, and wants a multiple of
  -- 0.0001 that is at least their value at the worst price, by less than 0.0001.
  pub market_sell_order :
      (m t : ℕ) × (compute_market_order_amounts set_string price amount sell
        ≡ accept (pos m, pos t))
      × (m % 10000 ≡ 0)
      × (t % 100 ≡ 0)
      × (m * ad ≤ an * order_scale)
      × (an * order_scale < (m + 10000) * ad)
      × (m * pn ≤ pd * t)
      × (pd * t < m * pn + 100 * pd)
  market_sell_order =
      let m = maker_of an ad in
      let t = taker_of (m * 1 * pn * 1000000) (1 * 1000000 * pd * 1) in
      let mb = maker_bounds an ad read_amount.1 in
      let tb = taker_bounds m pn pd read_price.1 in
      (m, t, sell_amounts ∙ ap accept (sell_lem pn pd an ad), mb.0, tb.0, mb.1, mb.2, tb.1, tb.2)
