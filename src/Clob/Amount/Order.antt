-- ===== src/Clob/Amount/Order.antt =====
-- Limit orders: the amounts are rounded as the comments of `computeOrderAmounts` say, and the price
-- that they imply against the limit price.
use native.Mathlib.Nat.{mul-one}
use polymarket_client.Base.{ℕ, ◌+◌, ◌*◌, ◌/◌, ◌%◌, ◌≡◌, ◌<◌, ◌≤◌, sym, ap, ◌∙◌, Option, arith}
use polymarket_client.Base.Int.{pos}
use polymarket_client.Base.Text.{Text}
use polymarket_client.Clob.Rat.{
  Rat, Reads, ceil, floor_bounds, ceil_bounds, le_of_mul-le, mul_mono, div_of_mod,
}
use polymarket_client.Clob.Checked.{accept}
use polymarket_client.Clob.Amount.{
  buy, sell, order_scale, order_amounts, compute_order_amounts, parse_rat-accept, ceil_rat-pos,
}

frac : ℕ → ℕ → Rat
frac n d = record { num = pos n; den = d }

buy_lem :
    (pn pd sn sd : ℕ)
    → order_amounts buy (frac pn pd) (frac sn sd)
      ≡ (pos (pn * sn * order_scale / (pd * sd)), pos (sn * order_scale / sd))
unfolding order_amounts frac
buy_lem pn pd sn sd = rw (mul-one, mul-one)

sell_lem :
    (pn pd sn sd : ℕ)
    → order_amounts sell (frac pn pd) (frac sn sd)
      ≡ (pos (sn * order_scale / sd), pos (ceil (pn * sn * order_scale) (pd * sd)))
unfolding order_amounts frac
sell_lem pn pd sn sd =
    ground
      (arith, ceil_rat-pos (pn * sn * order_scale) (pd * sd * 1), mul-one sd, mul-one (pd * sd))

-- From a value that is rounded down and a size that is, the price that they imply.
over_limit :
    (m t pn pd sd x : ℕ)
    → 0 < sd
    → m * (pd * sd) ≤ pn * x
    → x < (t + 1) * sd
    → m * pd ≤ pn * (t + 1)
over_limit m t pn pd sd x h k l =
    le_of_mul-le (m * pd) (pn * (t + 1)) sd h
      (omega (arith, mul_mono x ((t + 1) * sd) pn (omega arith)))

within_limit : (m t pn pd sd x : ℕ) → 0 < sd → m * (pd * sd) ≤ pn * x → x ≡ t * sd → m * pd ≤ pn * t
within_limit m t pn pd sd x h k l =
    le_of_mul-le (m * pd) (pn * t) sd h (omega (arith, mul_mono x (t * sd) pn (omega arith)))

above_limit : (m t pn pd sd x : ℕ) → 0 < sd → m * sd ≤ x → pn * x ≤ t * (pd * sd) → pn * m ≤ t * pd
above_limit m t pn pd sd x h k l =
    le_of_mul-le (pn * m) (t * pd) sd h (omega (arith, mul_mono (m * sd) x pn k))

module _ (set_string : Text → Option Rat) (price size : Text) (pn pd sn sd : ℕ)
    (read_price : Reads set_string price pn pd) (read_size : Reads set_string size sn sd)
    (positive : 0 < sn) where
  sell_amounts :
      compute_order_amounts set_string price size sell
      ≡ accept (order_amounts sell (frac pn pd) (frac sn sd))
  unfolding compute_order_amounts frac
  sell_amounts =
      rw
        (
          parse_rat-accept set_string price _ read_price.0,
          parse_rat-accept set_string size _ read_size.0,
          compute_order_amounts,
        )
        (ground arith)

  buy_amounts :
      compute_order_amounts set_string price size buy
      ≡ accept (order_amounts buy (frac pn pd) (frac sn sd))
  unfolding compute_order_amounts frac
  buy_amounts =
      rw
        (
          parse_rat-accept set_string price _ read_price.0,
          parse_rat-accept set_string size _ read_size.0,
          compute_order_amounts,
        )
        (ground arith)

  -- A buy order offers the value rounded down and wants the size rounded down, both in millionths.
  -- One share more would bring the implied price to the limit or below it; where the size has no
  -- part below a millionth the implied price itself is at most the limit.
  pub buy_order :
      (m t : ℕ) × (compute_order_amounts set_string price size buy ≡ accept (pos m, pos t))
      × (m * (pd * sd) ≤ pn * sn * order_scale)
      × (pn * sn * order_scale < (m + 1) * (pd * sd))
      × (t * sd ≤ sn * order_scale)
      × (sn * order_scale < (t + 1) * sd)
      × (m * pd ≤ pn * (t + 1))
      × (sn * order_scale % sd ≡ 0 → m * pd ≤ pn * t)
  buy_order =
      let p : 0 < pd * sd = grind arith in
      let q : 0 < sd = read_size.1 in
      let x = sn * order_scale in
      let m = pn * sn * order_scale / (pd * sd) in
      let t = x / sd in
      let fm = floor_bounds (pn * sn * order_scale) (pd * sd) p in
      let ft = floor_bounds x sd q in
      (
        m,
        t,
        buy_amounts ∙ ap accept (buy_lem pn pd sn sd),
        fm.0,
        fm.1,
        ft.0,
        ft.1,
        over_limit m t pn pd sd x q (omega arith) ft.1,
        λ e. within_limit m t pn pd sd x q (omega arith) (sym (div_of_mod x sd e)),
      )

  -- A sell order offers the size rounded down and wants the value rounded up, so the implied price
  -- is at least the limit.
  pub sell_order :
      (m t : ℕ) × (compute_order_amounts set_string price size sell ≡ accept (pos m, pos t))
      × (m * sd ≤ sn * order_scale)
      × (sn * order_scale < (m + 1) * sd)
      × (pn * sn * order_scale ≤ t * (pd * sd))
      × (t * (pd * sd) < pn * sn * order_scale + pd * sd)
      × (pn * m ≤ t * pd)
  sell_order =
      let p : 0 < pd * sd = grind arith in
      let q : 0 < sd = read_size.1 in
      let x = sn * order_scale in
      let m = x / sd in
      let t = ceil (pn * sn * order_scale) (pd * sd) in
      let fm = floor_bounds x sd q in
      let ct = ceil_bounds (pn * sn * order_scale) (pd * sd) p in
      (
        m,
        t,
        sell_amounts ∙ ap accept (sell_lem pn pd sn sd),
        fm.0,
        fm.1,
        ct.0,
        ct.1,
        above_limit m t pn pd sd x q fm.0 (omega arith),
      )
