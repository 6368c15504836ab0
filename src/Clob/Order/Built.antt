-- ===== src/Clob/Order/Built.antt =====
-- What an order is that the builder returns.
use polymarket_client.Base.{
  ℕ, ◌≡◌, ◌<◌, ◌^◌, refl, Bool, true, false, Option, none, some, arith, not, ◌&&◌, is_empty, inl,
  inr, Bool-cases, Option-cases, ap, subst, sym, ◌∙◌,
}
use polymarket_client.Base.Int.{ℤ, pos}
use polymarket_client.Base.Text.{Text}
use polymarket_client.Clob.Number.{print_int}
use polymarket_client.Clob.Number.Print.{parse_int-print_int}
use polymarket_client.Clob.Checked.{
  Field, Error, Checked, accept, Checked-cases, maker_amount, taker_amount,
}
use polymarket_client.Clob.Amount.{Side, compute_order_amounts, compute_market_order_amounts}
use polymarket_client.Clob.Validate.{
  validate_price_range, validate_price_ticks, validate_uint256_string,
}
use polymarket_client.Clob.Validate.Laws.{validate_uint256_string_iff}
use polymarket_client.Clob.Order.{SignedOrder, Env, is_poly_1271}
use polymarket_client.Clob.Order.Prepared.{Ended, FieldsValid, SameTrade}
use polymarket_client.Clob.Order.Signed.{sign_order_lem}
use polymarket_client.Clob.Order.Builder.{
  OrderClient, OrderArgs, MarketOrderArgs, CreateOrderOptions, limit_order, market_order,
  build_order, build_market_order, sign_built_order, apply_order_builder_signature_shape,
  order_or_error,
}

order_or_error-accept :
    (r : SignedOrder × Option Error) (p : SignedOrder) → order_or_error r ≡ accept p → Ended r p
order_or_error-accept (o, none) p h = ground arith
order_or_error-accept (o, some e) p h = absurd (ground arith)

shape-SameTrade :
    (o p : SignedOrder) → SameTrade (apply_order_builder_signature_shape o) p → SameTrade o p
unfolding apply_order_builder_signature_shape
shape-SameTrade o p h =
    elim (Bool-cases
      (is_poly_1271 o.signature_type && not (is_empty o.maker) && is_empty o.signer)) [
        | inl e ↦ rw (e, apply_order_builder_signature_shape) at h
        | inr e ↦ rw (e, apply_order_builder_signature_shape) at h
      ]

-- The amounts in the order p are the two numbers, which fit into 256 bits and are not 0.
pub record HasAmounts (p : SignedOrder) (maker_int taker_int : ℕ) : Type 0 where
  pub maker_text : p.maker_amount ≡ print_int (pos maker_int)
  pub taker_text : p.taker_amount ≡ print_int (pos taker_int)
  pub maker_positive : 0 < maker_int
  pub maker_bound : maker_int < 2 ^ 256
  pub taker_positive : 0 < taker_int
  pub taker_bound : taker_int < 2 ^ 256

-- A printed integer that passes the check of an amount is positive and fits into 256 bits.
printed_amount :
    (name : _) (z : ℤ)
    → validate_uint256_string name (print_int z) true true ≡ none
    → (n : ℕ) × (z ≡ pos n) × (0 < n) × (n < 2 ^ 256)
printed_amount name z h =
    let (n, e, b, q) = (validate_uint256_string_iff name (print_int z) true).0 h in
    let e' : some z ≡ some (pos n) = sym (parse_int-print_int z) ∙ e in (n, ground arith, q refl, b)

-- An order that the builder signs has valid fields, and is the same trade.
sign_built_order_lem :
    (env : Env) (client : OrderClient) (risk : Bool) (o p : SignedOrder)
    → sign_built_order env client risk o ≡ accept p
    → FieldsValid p × SameTrade o p
unfolding sign_built_order
sign_built_order_lem env client risk o p h =
    let shaped = apply_order_builder_signature_shape o in
    let signed = sign_order_lem env _ _ _ shaped p (order_or_error-accept _ p h) in
    let ready = signed.is_prepared in
    subst (λ q. FieldsValid q × SameTrade o q) signed.result
      (ready.fields_valid, shape-SameTrade o signed.prepared ready.same_trade)

-- What `BuildOrder` and `BuildMarketOrder` have checked and computed of an order that they return.
pub record IsBuilt (amounts : Checked (ℤ × ℤ)) (side : Side) (token : Text) (p : SignedOrder)
    : Type 0 where
  pub maker_int : ℕ
  pub taker_int : ℕ
  pub computed : amounts ≡ accept (pos maker_int, pos taker_int)
  pub has_amounts : HasAmounts p maker_int taker_int
  pub fields_valid : FieldsValid p
  pub side_kept : p.side ≡ side
  pub token_kept : p.token_id ≡ token

built_lem :
    (amounts : Checked (ℤ × ℤ)) (z w : ℤ) (o p : SignedOrder)
    → amounts ≡ accept (z, w)
    → o.maker_amount ≡ print_int z
    → o.taker_amount ≡ print_int w
    → FieldsValid p × SameTrade o p
    → IsBuilt amounts o.side o.token_id p
built_lem amounts z w o p c mt tt (valid, same) =
    let maker_eq : p.maker_amount ≡ print_int z = same.1 ∙ mt in
    let taker_eq : p.taker_amount ≡ print_int w = same.2 ∙ tt in
    let valid_text =
      λ (name : Field). λ (v : Text). validate_uint256_string name v true true ≡ none in
    let (m, em, mpos, mmax) =
      printed_amount maker_amount z (subst (valid_text maker_amount) maker_eq valid.5) in
    let (t, et, tpos, tmax) =
      printed_amount taker_amount w (subst (valid_text taker_amount) taker_eq valid.6) in
    record {
      maker_int = m;
      taker_int = t;
      computed = rw (sym em, sym et) c;
      has_amounts = record {
        maker_text = maker_eq ∙ ap print_int em;
        taker_text = taker_eq ∙ ap print_int et;
        maker_positive = mpos;
        maker_bound = mmax;
        taker_positive = tpos;
        taker_bound = tmax;
      };
      fields_valid = valid;
      side_kept = same.3;
      token_kept = same.0;
    }

-- An order that `BuildOrder` returns has a price that passed the checks of a limit order. Its
-- amounts are the texts of the computed amounts, which are positive and fit into 256 bits. Its
-- fields are valid, and its side and token are those of the arguments.
pub build_order_lem :
    (env : Env) (client : OrderClient) (args : OrderArgs) (opts : CreateOrderOptions)
    (p : SignedOrder)
    → build_order env client args opts ≡ accept p
    → (validate_price_range env.parse_float args.price false ≡ none)
      × (validate_price_ticks env.set_string args.price opts.tick_size ≡ none)
      × IsBuilt
          (compute_order_amounts env.set_string args.price args.size args.side)
          args.side
          args.token_id
          p
unfolding build_order limit_order
build_order_lem env client args opts p h =
    elim (Option-cases (validate_price_range env.parse_float args.price false)) [
      | inr (x, e) ↦ absurd (ground (arith, rw (e, build_order) at h))
      | inl e ↦
          elim (Option-cases (validate_price_ticks env.set_string args.price opts.tick_size)) [
            | inr (x, e') ↦ absurd (ground (arith, rw (e, e', build_order) at h))
            | inl e' ↦
                elim (Checked-cases
                  (compute_order_amounts env.set_string args.price args.size args.side)) [
                    | inr (x, e'') ↦ absurd (ground (arith, rw (e, e', e'', build_order) at h))
                    | inl ((z, w), e'') ↦
                        let o = limit_order client args (z, w) in
                        let signed =
                          sign_built_order_lem env client opts.neg_risk o p
                            (rw (e, e', e'', build_order) at h) in
                        (e, e', built_lem _ z w o p e'' refl refl signed)
                  ]
          ]
    ]

-- An order that `BuildMarketOrder` returns has a price that passed the checks of a market order.
-- Its amounts are the texts of the computed amounts, which are positive and fit into 256 bits. Its
-- fields are valid, and its side and token are those of the arguments.
pub build_market_order_lem :
    (env : Env) (client : OrderClient) (args : MarketOrderArgs) (opts : CreateOrderOptions)
    (p : SignedOrder)
    → build_market_order env client args opts ≡ accept p
    → (validate_price_range env.parse_float args.price true ≡ none)
      × (validate_price_ticks env.set_string args.price opts.tick_size ≡ none)
      × IsBuilt
          (compute_market_order_amounts env.set_string args.price args.amount args.side)
          args.side
          args.token_id
          p
unfolding build_market_order market_order
build_market_order_lem env client args opts p h =
    elim (Option-cases (validate_price_range env.parse_float args.price true)) [
      | inr (x, e) ↦ absurd (ground (arith, rw (e, build_market_order) at h))
      | inl e ↦
          elim (Option-cases (validate_price_ticks env.set_string args.price opts.tick_size)) [
            | inr (x, e') ↦ absurd (ground (arith, rw (e, e', build_market_order) at h))
            | inl e' ↦
                elim (Checked-cases
                  (compute_market_order_amounts env.set_string args.price args.amount args.side)) [
                    | inr (x, e'') ↦
                        absurd (ground (arith, rw (e, e', e'', build_market_order) at h))
                    | inl ((z, w), e'') ↦
                        let o = market_order client args (z, w) in
                        let signed =
                          sign_built_order_lem env client opts.neg_risk o p
                            (rw (e, e', e'', build_market_order) at h) in
                        (e, e', built_lem _ z w o p e'' refl refl signed)
                  ]
          ]
    ]
