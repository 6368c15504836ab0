-- ===== src/Clob/Order/Signed.antt =====
-- What an order is when it has been signed, by either kind of signature.
use polymarket_client.Base.{
  ℕ, ◌≡◌, refl, true, Option, none, some, arith, is_empty, inl, inr, Bool-cases, Option-cases,
}
use polymarket_client.Base.Text.{Text}
use polymarket_client.Clob.Checked.{Checked-cases}
use polymarket_client.Clob.Order.{
  SignedOrder, Env, SignOrderConfig, check_fields, check_is_deposit, fill_maker, fill_signer,
  match_signer, match_maker, fill_salt, fill_timestamp, fill_expiration,
  prepare_deposit_wallet_order_for_signing, equal_address, store_signature, sign_plain_order,
  sign_deposit_order, sign_for_wallet, sign_order, contracts, infer_deposit_wallet, is_poly_1271,
}
use polymarket_client.Clob.Order.Prepared.{
  Ended, >>>-eq_none, IsPrepared, check_lem, filled_lem, check_fields_lem, fill_maker_lem,
  fill_signer_lem, fill_salt_lem, fill_timestamp_lem, prepare_order_for_signing_lem,
}

fill_expiration_lem :
    (P : SignedOrder → Type 0) (o p : SignedOrder)
    → Ended (fill_expiration o) p
    → ((t : Text) → P (record o { expiration = t }))
    → P p
unfolding fill_expiration
fill_expiration_lem P o p h k = elim (Bool-cases (is_empty o.expiration)) [
  | inl e ↦ filled_lem P _ p (rw e at h) (k _)
  | inr e ↦ filled_lem P o p (rw e at h) (k _)
]

pub prepare_deposit_lem :
    (env : Env) (wallet : ℕ) (config : SignOrderConfig) (o p : SignedOrder)
    → Ended (prepare_deposit_wallet_order_for_signing env wallet config o) p
    → IsPrepared env (env.address_hex wallet) o p
      × (equal_address env p.maker (env.address_hex wallet) ≡ true)
unfolding prepare_deposit_wallet_order_for_signing match_signer match_maker check_is_deposit
prepare_deposit_lem env wallet config o p h =
    let (m8, h8, k8) = >>>-eq_none _ _ o p h in
    let (m7, h7, k7) = >>>-eq_none _ _ o m8 h8 in
    let (m6, h6, k6) = >>>-eq_none _ _ o m7 h7 in
    let (m5, h5, k5) = >>>-eq_none _ _ o m6 h6 in
    let (m4, h4, k4) = >>>-eq_none _ _ o m5 h5 in
    let (m3, h3, k3) = >>>-eq_none _ _ o m4 h4 in
    let (m2, h2, k2) = >>>-eq_none _ _ o m3 h3 in
    let (m1, h1, k1) = >>>-eq_none _ _ o m2 h2 in
    let hex = env.address_hex wallet in
    let P : SignedOrder → Type 0 =
      λ m. IsPrepared env hex o m × (equal_address env m.maker hex ≡ true) in
    let A : SignedOrder → Type 0 = λ m. Ended (fill_expiration m) p → P p in
    let B : SignedOrder → Type 0 = λ m. Ended (fill_timestamp env m) m8 → P p in
    let C : SignedOrder → Type 0 = λ m. Ended (fill_salt env config.salt m) m7 → P p in
    let D : SignedOrder → Type 0 = λ m. Ended (check_fields m) m6 → P p in
    let E : SignedOrder → Type 0 = λ m. Ended (match_signer env hex m) m5 → P p in
    let F : SignedOrder → Type 0 = λ m. Ended (fill_signer env hex m) m4 → P p in
    let G : SignedOrder → Type 0 = λ m. Ended (match_maker env hex m) m3 → P p in
    let H : SignedOrder → Type 0 = λ m. Ended (fill_maker env hex m) m2 → P p in
    check_lem H o m1 _ h1
      (λ kind l0.
        fill_maker_lem env _ G _ m2 l0
          (λ maker l1.
            check_lem F _ m3 _ l1
              (λ own l2.
                fill_signer_lem env _ E _ m4 l2
                  (λ sig l3.
                    check_lem D _ m5 _ l3
                      (λ same l4.
                        check_fields_lem C _ m6 l4
                          (λ meta build valid l5.
                            fill_salt_lem env config.salt B _ m7 l5
                              (λ z salted l6.
                                fill_timestamp_lem env A _ m8 l6
                                  (λ time timed l7. fill_expiration_lem P _ p l7 (λ expiry.
                                    let prepared : IsPrepared env hex o (record o {
                                      maker = maker;
                                      signer = sig;
                                      metadata = meta;
                                      builder = build;
                                      salt = z;
                                      timestamp = time;
                                      expiration = expiry;
                                    }) =
                                      record {
                                        fields_valid = valid;
                                        same_trade = (refl, refl, refl, refl, refl);
                                        signer_matches = ground arith;
                                        salt_kept = salted;
                                        timestamp_valid = timed;
                                      } in
                                    (prepared, ground arith)))
                                  k8)
                              k7)
                          k6)
                      k5)
                  k4)
              k3)
          k2)
      k1

store_signature_lem :
    (env : Env) (drawn : Option Text) (P : SignedOrder → Type 0) (o p : SignedOrder)
    → Ended (store_signature env drawn o) p
    → ((t : Text) → drawn ≡ some t → P (record o { signature = t }))
    → P p
unfolding store_signature
store_signature_lem env none P o p h k = absurd (ground (arith, h))
store_signature_lem env (some t) P o p h k = filled_lem P _ p h (k t refl)

-- The order p is o made ready for an account, with a signature of what it is but for that.
pub record IsSigned (env : Env) (o p : SignedOrder) : Type 0 where
  pub address : Text
  pub prepared : SignedOrder
  pub is_prepared : IsPrepared env address o prepared
  pub text : Text
  pub result : record prepared { signature = text } ≡ p

sign_plain_order_lem :
    (env : Env) (signer contract : ℕ) (config : SignOrderConfig) (o p : SignedOrder)
    → Ended (sign_plain_order env signer contract config o) p
    → IsSigned env o p
unfolding sign_plain_order
sign_plain_order_lem env signer contract config o p h =
    let (m, h1, k1) = >>>-eq_none _ _ o p h in
    let ready = prepare_order_for_signing_lem env signer config o m h1 in
    store_signature_lem env _ (λ q. IsSigned env o q) m p k1
      (λ t e. record {
        address = env.address_hex signer;
        prepared = m;
        is_prepared = ready;
        text = t;
        result = refl;
      })

sign_for_wallet_lem :
    (env : Env) (signer contract wallet : ℕ) (config : SignOrderConfig) (o p : SignedOrder)
    → Ended (sign_for_wallet env signer contract wallet config o) p
    → IsSigned env o p
unfolding sign_for_wallet
sign_for_wallet_lem env signer contract wallet config o p h =
    let (m, h1, k1) = >>>-eq_none _ _ o p h in
    let ready = prepare_deposit_lem env wallet config o m h1 in
    store_signature_lem env _ (λ q. IsSigned env o q) m p k1
      (λ t e. record {
        address = env.address_hex wallet;
        prepared = m;
        is_prepared = ready.0;
        text = t;
        result = refl;
      })

sign_deposit_order_lem :
    (env : Env) (signer contract : ℕ) (config : SignOrderConfig) (o p : SignedOrder)
    → Ended (sign_deposit_order env signer contract config o) p
    → IsSigned env o p
unfolding sign_deposit_order
sign_deposit_order_lem env signer contract config o p h =
    elim (Checked-cases (infer_deposit_wallet env o)) [
      | inr (x, e) ↦ absurd (ground (arith, h))
      | inl (wallet, e) ↦
          sign_for_wallet_lem env signer contract wallet config o p
            (rw (e, sign_deposit_order) at h)
    ]

pub sign_order_lem :
    (env : Env) (signer : Option ℕ) (chain : ℕ) (config : SignOrderConfig) (o p : SignedOrder)
    → Ended (sign_order env signer chain config o) p
    → IsSigned env o p
unfolding sign_order
sign_order_lem env none chain config o p h = absurd (ground (arith, h))
sign_order_lem env (some signer) chain config o p h = elim (Option-cases (contracts chain)) [
  | inl e ↦ absurd (ground (arith, h))
  | inr (addresses, e) ↦
      let h' = rw (e, sign_order) at h in
      elim (Bool-cases (is_poly_1271 o.signature_type)) [
        | inl e' ↦ sign_deposit_order_lem env signer _ config o p (rw e' at h')
        | inr e' ↦ sign_plain_order_lem env signer _ config o p (rw e' at h')
      ]
]
