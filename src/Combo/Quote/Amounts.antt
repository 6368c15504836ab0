-- ===== src/Combo/Quote/Amounts.antt =====
-- The amounts of a quote: bounds by the request, and by the price.
use polymarket_client.Base.{
  ℕ, ◌+◌, ◌-◌, ◌*◌, ◌/◌, ◌<◌, ◌≤◌, ◌≡◌, refl, ◌⊎◌, inl, inr, Bool, true, false, ◌||◌, some, nat_eq,
  is_empty, arith, Bool-cases, subst,
}
use polymarket_client.Base.Int.{ℤ, pos, negsuc}
use polymarket_client.Base.Text.{Text}
use polymarket_client.Clob.Rat.{floor_bounds}
use polymarket_client.Combo.Decimal.{one, positive_big_int, ceil_mul_div}
use polymarket_client.Combo.Checked.{quoted, >>=-eq_quoted, refuse_if-quoted, quoted_or-quoted}
use polymarket_client.Combo.Quote.{
  RequestedSizeUnit, notional, shares, other_unit, QuoteRequest, QuoteOptions, Terms, below_one,
  up_to, max_size, quote_size, from_inventory, order_price_of, token_of, terms_of, quote_terms,
}

-- Rounding up by adding d - 1 first.
ceil_mul_div_bounds :
    (a b d : ℕ) → 0 < d → (a * b ≤ ceil_mul_div a b d * d) × (ceil_mul_div a b d * d < a * b + d)
unfolding ceil_mul_div
ceil_mul_div_bounds a b d h =
    let (low, high) = floor_bounds (a * b + (d - 1)) d h in (grind arith, grind arith)

-- What the requester asks for, and what the quote may sell or buy of it.
abbrev pub WithinRequest : RequestedSizeUnit → ℕ → ℕ → ℕ → Type 0
WithinRequest notional requested price size = price * size ≤ requested * one
WithinRequest shares requested price size = size ≤ requested
WithinRequest (other_unit u) requested price size = ⊥

max_size-WithinRequest :
    (u : RequestedSizeUnit) (requested price max size : ℕ)
    → max_size u requested price ≡ quoted max
    → 0 < price
    → size ≤ max
    → WithinRequest u requested price size
unfolding max_size
max_size-WithinRequest notional requested price max size h p le =
    let e : max ≡ requested * one / price = ground arith in
    let (low, high) = floor_bounds (requested * one) price p in
    let low' : max * price ≤ requested * one = rw e low in grind arith
max_size-WithinRequest shares requested price max size h p le = ground arith
max_size-WithinRequest (other_unit u) requested price max size h p le = cc

up_to_bounds : (max : ℕ) (z : ℤ) (n : ℕ) → up_to max z ≡ some n → (0 < n) × (n ≤ max)
up_to_bounds max (pos m) n h = ground arith
up_to_bounds max (negsuc m) n h = cc

quote_size_bounds :
    (text : Text) (max size : ℕ) → quote_size text max ≡ quoted size → (0 < size) × (size ≤ max)
unfolding quote_size
quote_size_bounds text max size h = elim (Bool-cases (is_empty text)) [
  | inl e ↦ ground (arith, rw (e, quote_size) at h)
  | inr e ↦
      let (z, p, q) = >>=-eq_quoted _ _ (rw (e, quote_size) at h) in
      up_to_bounds max z size (quoted_or-quoted _ _ q)
]

below_one_bounds : (z : ℤ) (n : ℕ) → below_one z ≡ some n → (0 < n) × (n < one)
below_one_bounds (pos m) n h = ground arith
below_one_bounds (negsuc m) n h = cc

-- The token and its price: YES at the price of the quote, or NO at the rest of the price to one.
abbrev pub PricedToken : QuoteRequest → ℕ → Text → ℕ → Type 0
PricedToken r price token order_price =
    ((token ≡ r.yes_position_id) × (order_price ≡ price))
    ⊎ ((token ≡ r.no_position_id) × (order_price + price ≡ one))

priced_token :
    (r : QuoteRequest) (stock : Bool) (price : ℕ) (token : Text)
    → price < one
    → token_of r stock ≡ quoted token
    → PricedToken r price token (order_price_of r.direction stock price)
unfolding token_of order_price_of
priced_token r stock price token h e = ground arith

-- The amounts of an order: from collateral, the size is wanted for its value rounded up; from the
-- inventory, the size is offered for its value rounded down.
abbrev pub FairAmounts : Bool → Terms → Type 0
FairAmounts true t =
    (t.maker ≡ t.size)
    × (t.taker * one ≤ t.order_price * t.size)
    × (t.order_price * t.size < (t.taker + 1) * one)
FairAmounts false t =
    (t.taker ≡ t.size)
    × (t.order_price * t.size ≤ t.maker * one)
    × (t.maker * one < t.order_price * t.size + one)

terms_of-FairAmounts :
    (stock : Bool) (price size order_price : ℕ) (token : Text)
    → FairAmounts stock (terms_of stock price size order_price token)
unfolding terms_of
terms_of-FairAmounts true price size op token =
    let (low, high) = floor_bounds (op * size) one (omega arith) in (refl, low, high)
terms_of-FairAmounts false price size op token =
    let (low, high) = ceil_mul_div_bounds op size one (omega arith) in (refl, low, high)

-- What the terms of a quote satisfy.
pub record IsFair (r : QuoteRequest) (opts : QuoteOptions) (t : Terms) : Type 0 where
  pub price_positive : 0 < t.price
  pub price_below_one : t.price < one
  pub size_positive : 0 < t.size
  pub within_request :
      (n : ℕ) × (positive_big_int r.value_e6 ≡ some n) × WithinRequest r.unit n t.price t.size
  pub priced_token : PricedToken r t.price t.token t.order_price
  pub fair_amounts :
      (stock : Bool) × (from_inventory opts.source ≡ quoted stock) × FairAmounts stock t
  pub maker_positive : 0 < t.maker
  pub taker_positive : 0 < t.taker

terms_of-IsFair :
    (r : QuoteRequest) (opts : QuoteOptions) (stock : Bool) (price n size : ℕ) (token : Text)
    → 0 < price
    → price < one
    → 0 < size
    → positive_big_int r.value_e6 ≡ some n
    → WithinRequest r.unit n price size
    → from_inventory opts.source ≡ quoted stock
    → token_of r stock ≡ quoted token
    → let t = terms_of stock price size (order_price_of r.direction stock price) token in
      (nat_eq t.maker 0 || nat_eq t.taker 0) ≡ false → IsFair r opts t
unfolding terms_of
terms_of-IsFair r opts stock price n size token low high pos_size read within source named
      positive =
    record {
      price_positive = low;
      price_below_one = high;
      size_positive = pos_size;
      within_request = (n, read, within);
      priced_token = priced_token r stock price token high named;
      fair_amounts = (stock, source, terms_of-FairAmounts stock price size _ token);
      maker_positive = ground arith;
      taker_positive = ground arith;
    }

pub quote_terms-IsFair :
    (r : QuoteRequest) (opts : QuoteOptions) (t : Terms)
    → quote_terms r opts ≡ quoted t
    → IsFair r opts t
unfolding quote_terms
quote_terms-IsFair r opts t h =
    let (u, hu, h1) = >>=-eq_quoted _ _ h in
    let (id, hid, h2) = >>=-eq_quoted _ _ h1 in
    let (z, hz, h3) = >>=-eq_quoted _ _ h2 in
    let (price, hp, h4) = >>=-eq_quoted _ _ h3 in
    let (requested, hr, h5) = >>=-eq_quoted _ _ h4 in
    let (max, hm, h6) = >>=-eq_quoted _ _ h5 in
    let (size, hs, h7) = >>=-eq_quoted _ _ h6 in
    let (stock, hst, h8) = >>=-eq_quoted _ _ h7 in
    let (token, ht, h9) = >>=-eq_quoted _ _ h8 in
    let (w, hw, h10) = >>=-eq_quoted _ _ h9 in
    let (plow, phigh) = below_one_bounds z price (quoted_or-quoted _ _ hp) in
    let (slow, shigh) = quote_size_bounds opts.size max size hs in
    let done : terms_of stock price size (order_price_of r.direction stock price) token ≡ t =
      ground arith in
    let positive = refuse_if-quoted _ _ hw in
    subst (IsFair r opts) done (
      terms_of-IsFair r opts stock price requested size token plow phigh slow
        (quoted_or-quoted _ _ hr)
        (max_size-WithinRequest r.unit requested price max size hm plow shigh) hst ht positive)
