-- ===== src/Clob/Amount.antt =====
-- clob/amount.go: maker and taker amounts in millionths from the texts of a price and a size.
-- `set_string` stands for `big.Rat.SetString`. An amount is the integer whose decimal text the
-- source returns.
pub mod Order
pub mod Market
mod Tests
use polymarket_client.Base.{
  ◌≡◌, ℕ, suc, arith, ◌+◌, ◌-◌, ◌*◌, ◌/◌, ◌%◌, Bool, true, false, not, Option, none, some, nat_eq,
  if◌then◌else◌,
}
use polymarket_client.Base.Int.{ℤ, pos, negsuc, ◌+ℤ◌, ◌*ℤ◌, is_negative, is_not_positive}
use polymarket_client.Base.Text.{Text}
use polymarket_client.Clob.Checked.{
  Error, invalid_price, invalid_size, invalid_amount, invalid_side, price_sign, size_sign,
  amount_sign, Checked, accept, reject, ◌>>=◌, ◌>>◌, fail_if,
}
use polymarket_client.Clob.Rat.{Rat, from_int, mul, quo, div_int, mod_int, ceil}

-- `Side`, a string.
pub data Side : Type 0 where
  buy sell : Side
  other_side : Text → Side

abbrev pub order_scale : ℕ
order_scale = 1000000

abbrev pub market_maker_quantum : ℕ
market_maker_quantum = 10000

abbrev pub market_taker_quantum : ℕ
market_taker_quantum = 100

unfoldable pub trunc_rat : Rat → ℤ
unfolding div_int
trunc_rat r = div_int r.num r.den

unfoldable pub ceil_rat : Rat → ℤ
unfolding div_int mod_int
ceil_rat r = let q = div_int r.num r.den in if nat_eq (mod_int r.num r.den) 0 then q else q +ℤ pos 1

pub ceil_rat-pos : (n d : ℕ) → ceil_rat (record { num = pos n; den = d }) ≡ pos (ceil n d)
unfolding ceil_rat
ceil_rat-pos n d = ground arith

unfoldable pub trunc_rat_to_quantum : Rat → ℕ → ℤ
unfolding trunc_rat div_int
trunc_rat_to_quantum r quantum = div_int (trunc_rat r) quantum *ℤ pos quantum

unfoldable pub ceil_rat_to_quantum : Rat → ℕ → ℤ
unfolding ceil_rat mod_int
ceil_rat_to_quantum r quantum =
    let value = ceil_rat r in
    let rem = mod_int value quantum in if nat_eq rem 0 then value else value +ℤ pos (quantum - rem)

unfoldable pub is_known : Side → Bool
is_known buy = true
is_known sell = true
is_known (other_side _) = false

-- The amounts of the two sides, once the input is checked.
unfoldable pub order_amounts : Side → Rat → Rat → ℤ × ℤ
unfolding mul trunc_rat ceil_rat
order_amounts side p s =
    let monetary_scaled = mul (mul p s) (from_int (pos order_scale)) in
    let size_scaled = mul s (from_int (pos order_scale)) in
    elim side [
      | buy ↦ (trunc_rat monetary_scaled, trunc_rat size_scaled)
      | _ ↦ (trunc_rat size_scaled, ceil_rat monetary_scaled)
    ]

unfoldable pub market_amounts : Side → Rat → Rat → ℤ × ℤ
unfolding mul quo trunc_rat_to_quantum ceil_rat_to_quantum
market_amounts side p a =
    let scale = from_int (pos order_scale) in
    let maker_int = trunc_rat_to_quantum (mul a scale) market_maker_quantum in
    let actual_maker_amount = quo (from_int maker_int) scale in
    let taker_amt : Rat = elim side [
      | buy ↦ quo actual_maker_amount p
      | _ ↦ mul actual_maker_amount p
    ] in
    (maker_int, ceil_rat_to_quantum (mul taker_amt scale) market_taker_quantum)

module _ (set_string : Text → Option Rat) where
  unfoldable pub parse_rat : Text → Error → Checked Rat
  parse_rat s e = elim (set_string s) [ none ↦ reject e | some r ↦ accept r ]

  unfoldable pub compute_order_amounts : Text → Text → Side → Checked (ℤ × ℤ)
  unfolding is_known
  compute_order_amounts price size side = do
    p ← parse_rat price invalid_price
    s ← parse_rat size invalid_size
    fail_if (not (is_known side)) invalid_side
    fail_if (is_negative p.num) price_sign
    fail_if (is_not_positive s.num) size_sign
    accept (order_amounts side p s)

  unfoldable pub compute_market_order_amounts : Text → Text → Side → Checked (ℤ × ℤ)
  unfolding is_known
  compute_market_order_amounts price amount side = do
    p ← parse_rat price invalid_price
    a ← parse_rat amount invalid_amount
    fail_if (not (is_known side)) invalid_side
    fail_if (is_not_positive p.num) price_sign
    fail_if (is_not_positive a.num) amount_sign
    accept (market_amounts side p a)

  pub parse_rat-accept :
      (text : Text) (e : Error) {r : Rat} → set_string text ≡ some r → parse_rat text e ≡ accept r
  unfolding parse_rat
  parse_rat-accept text e h = rw (h, parse_rat)
