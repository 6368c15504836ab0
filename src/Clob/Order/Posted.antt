-- ===== src/Clob/Order/Posted.antt =====
-- What a call that posts an order has done when it ends without an error.
use polymarket_client.Base.{
  ℕ, ◌≡◌, ◌≤◌, ◌<◌, ◌+◌, ◌/◌, ◌^◌, Bool, true, false, Option, none, some, arith, is_empty, inl, inr,
  Bool-cases, Option-cases,
}
use polymarket_client.Base.Int.{pos}
use polymarket_client.Base.Text.{Text}
use polymarket_client.Clob.Number.{parse_int}
use polymarket_client.Clob.Checked.{Checked, accept, Checked-cases}
use polymarket_client.Clob.Validate.{
  OrderType, gtd, is_market_type, validate_defer_exec, validate_expiration,
}
use polymarket_client.Clob.Validate.Laws.{validate_expiration_iff}
use polymarket_client.Clob.Order.{SignedOrder, Env}
use polymarket_client.Clob.Order.Builder.{
  OrderClient, OrderArgs, CreateOrderOptions, PostOrderRequest, build_order, owner_key,
  create_and_post_order,
}

owner_key-accept :
    (env : Env) (client : OrderClient) (key : Text)
    → owner_key env client ≡ accept key
    → (client.credentials ≡ some key) × (is_empty key ≡ false)
unfolding owner_key
owner_key-accept env client key h = elim (Option-cases client.credentials) [
  | inl e ↦ absurd (ground (arith, rw (e, owner_key) at h))
  | inr (k, e) ↦ elim (Bool-cases (is_empty k)) [
    | inl e' ↦ absurd (ground (arith, rw (e, e', owner_key) at h))
    | inr e' ↦ let h' = rw (e, e', owner_key) at h in ground arith
  ]
]

-- A deferred order is not of a type for the market.
validate_defer_exec-none :
    (kind : OrderType) → validate_defer_exec kind (some true) ≡ none → is_market_type kind ≡ false
unfolding validate_defer_exec
validate_defer_exec-none kind h = elim (Bool-cases (is_market_type kind)) [
  | inl e ↦ absurd (ground (arith, rw (e, validate_defer_exec) at h))
  | inr e ↦ e
]

-- The order p is posted for the owner `key`, as r answers.
pub record IsPosted {R : Type 0} (env : Env) (client : OrderClient)
    (post : PostOrderRequest → Checked R) (kind : OrderType) (defer : Option Bool) (p : SignedOrder)
    (r : R) : Type 0 where
  pub key : Text
  pub credentials : client.credentials ≡ some key
  pub key_nonempty : is_empty key ≡ false
  pub posted :
      post (record { order = p; owner = key; order_type = kind; defer_exec = defer }) ≡ accept r
  pub not_deferred : defer ≡ some true → is_market_type kind ≡ false
  pub expires :
      kind ≡ gtd
      → (n : ℕ) × (parse_int p.expiration ≡ some (pos n))
        × (env.now_milli / 1000 + 60 ≤ n)
        × (n < 2 ^ 63)

-- A call of `CreateAndPostOrder` that ends without an error has posted the order that `BuildOrder`
-- returns, for the key of the client's credentials, which is not empty. The order is not both
-- deferred and of a type for the market, and a GTD order expires a minute from now or later.
pub create_and_post_order_lem :
    {R : Type 0} (env : Env) (client : OrderClient) (post : PostOrderRequest → Checked R)
    (args : OrderArgs) (opts : CreateOrderOptions) (kind : OrderType) (defer : Option Bool) (r : R)
    → create_and_post_order env client post args opts kind defer ≡ accept r
    → (p : SignedOrder) × (build_order env client args opts ≡ accept p)
      × IsPosted env client post kind defer p r
unfolding create_and_post_order
create_and_post_order_lem env client post args opts kind defer r h =
    elim (Option-cases (validate_defer_exec kind defer)) [
      | inr (x, e1) ↦ absurd (ground (arith, rw (e1, create_and_post_order) at h))
      | inl e1 ↦ elim (Checked-cases (build_order env client args opts)) [
        | inr (x, e2) ↦ absurd (ground (arith, rw (e1, e2, create_and_post_order) at h))
        | inl (p, e2) ↦
            elim (Option-cases (validate_expiration kind p.expiration (env.now_milli / 1000))) [
              | inr (x, e3) ↦ absurd (ground (arith, rw (e1, e2, e3, create_and_post_order) at h))
              | inl e3 ↦ elim (Checked-cases (owner_key env client)) [
                | inr (x, e4) ↦
                    absurd (ground (arith, rw (e1, e2, e3, e4, create_and_post_order) at h))
                | inl (k, e4) ↦
                    let owner = owner_key-accept env client k e4 in
                    (
                      p,
                      e2,
                      record {
                        key = k;
                        credentials = owner.0;
                        key_nonempty = owner.1;
                        posted = rw (e1, e2, e3, e4, create_and_post_order) at h;
                        not_deferred = λ d. validate_defer_exec-none kind (rw d at e1);
                        expires = λ g. (validate_expiration_iff p.expiration _).0 (rw g at e3);
                      },
                    )
              ]
            ]
      ]
    ]
