-- ===== src/Clob/Order/Prepared.antt =====
-- What an order has passed when its preparation ends without an error.
use polymarket_client.Base.{
  ℕ, ◌≡◌, ◌⊎◌, refl, true, false, not, Option, none, some, arith, is_empty, inl, inr, Bool-cases,
  Option-cases, ap, subst,
}
use polymarket_client.Base.Int.{ℤ, is_negative}
use polymarket_client.Base.Text.{Text}
use polymarket_client.Clob.Number.{print_nat}
use polymarket_client.Clob.Checked.{
  Field, Error, metadata, builder, token_id, maker_amount, taker_amount, timestamp,
}
use polymarket_client.Clob.Amount.{Side, is_known}
use polymarket_client.Clob.Validate.{
  validate_bytes32_hex, validate_uint256_string, validate_hex_digits, byte_length, all_hex,
}
use polymarket_client.Clob.Order.{
  SignedOrder, Env, SignOrderConfig, Step, ◌>>>◌, fill_metadata, fill_builder, check_token_id,
  check_maker_amount, check_taker_amount, check_side, check_fields, check_signature_type, error_if,
  fill_maker, fill_signer, match_signer, fill_salt, replace_salt, is_zero, fill_timestamp,
  drawn_salt, random_order_salt, prepare_order_for_signing, equal_address, zero_bytes32,
}

-- A call has ended without an error, and has left the order p.
abbrev pub Ended : SignedOrder × Option Error → SignedOrder → Type 0
Ended r p = r ≡ (p, none)

-- A sequence of steps ends without an error only if each of them does.
pub >>>-eq_none :
    (f g : Step) (o p : SignedOrder)
    → Ended ((f >>> g) o) p
    → (m : SignedOrder) × Ended (f o) m × Ended (g m) p
unfolding ◌>>>◌
>>>-eq_none f g o p h = elim (Option-cases (f o).1) [
  | inl e ↦ ((f o).0, ground arith, ground arith)
  | inr (x, e) ↦ absurd (ground arith)
]

-- The fields that a preparation has checked.
abbrev pub FieldsValid : SignedOrder → Type 0
FieldsValid p =
    (validate_bytes32_hex metadata p.metadata ≡ none)
    × (is_empty p.metadata ≡ false)
    × (validate_bytes32_hex builder p.builder ≡ none)
    × (is_empty p.builder ≡ false)
    × (validate_uint256_string token_id p.token_id true false ≡ none)
    × (validate_uint256_string maker_amount p.maker_amount true true ≡ none)
    × (validate_uint256_string taker_amount p.taker_amount true true ≡ none)
    × (is_known p.side ≡ true)

-- What a preparation never changes: the trade itself, and the kind of signature.
abbrev pub SameTrade : SignedOrder → SignedOrder → Type 0
SameTrade o p =
    (p.token_id ≡ o.token_id)
    × (p.maker_amount ≡ o.maker_amount)
    × (p.taker_amount ≡ o.taker_amount)
    × (p.side ≡ o.side)
    × (p.signature_type ≡ o.signature_type)

-- A check that passes leaves the order.
pub check_lem :
    (P : SignedOrder → Type 0) (o p : SignedOrder) (e : Option Error)
    → Ended (o, e) p
    → (e ≡ none → P o)
    → P p
check_lem P o p e h k = subst P (ap (λ x. x.0) h) (k (ap (λ x. x.1) h))

pub filled_lem : (P : SignedOrder → Type 0) (o p : SignedOrder) → Ended (o, none) p → P o → P p
filled_lem P o p h k = subst P (ap (λ x. x.0) h) k

zero_bytes32_lem :
    (name : Field)
    → (validate_bytes32_hex name zero_bytes32 ≡ none) × (is_empty zero_bytes32 ≡ false)
unfolding zero_bytes32 validate_bytes32_hex validate_hex_digits byte_length all_hex
zero_bytes32_lem name = (refl, refl)

fill_metadata_lem :
    (P : SignedOrder → Type 0) (o p : SignedOrder)
    → Ended (fill_metadata o) p
    → ((t : Text)
        → (validate_bytes32_hex metadata t ≡ none) × (is_empty t ≡ false)
        → P (record o { metadata = t }))
    → P p
unfolding fill_metadata
fill_metadata_lem P o p h k = elim (Bool-cases (is_empty o.metadata)) [
  | inl e ↦ filled_lem P _ p (rw e at h) (k zero_bytes32 (zero_bytes32_lem metadata))
  | inr e ↦ check_lem P o p _ (rw e at h) (λ v. k o.metadata (v, e))
]

fill_builder_lem :
    (P : SignedOrder → Type 0) (o p : SignedOrder)
    → Ended (fill_builder o) p
    → ((t : Text)
        → (validate_bytes32_hex builder t ≡ none) × (is_empty t ≡ false)
        → P (record o { builder = t }))
    → P p
unfolding fill_builder
fill_builder_lem P o p h k = elim (Bool-cases (is_empty o.builder)) [
  | inl e ↦ filled_lem P _ p (rw e at h) (k zero_bytes32 (zero_bytes32_lem builder))
  | inr e ↦ check_lem P o p _ (rw e at h) (λ v. k o.builder (v, e))
]

known_side :
    (side : Side) (e : Error) → error_if (not (is_known side)) e ≡ none → is_known side ≡ true
known_side side e h = ground arith

-- What the checks that both preparations share leave.
pub check_fields_lem :
    (P : SignedOrder → Type 0) (o p : SignedOrder)
    → Ended (check_fields o) p
    → ((s t : Text)
        → FieldsValid (record o { metadata = s; builder = t })
        → P (record o { metadata = s; builder = t }))
    → P p
unfolding check_fields check_token_id check_maker_amount check_taker_amount check_side
check_fields_lem P o p h k =
    let (m5, h5, k5) = >>>-eq_none _ _ o p h in
    let (m4, h4, k4) = >>>-eq_none _ _ o m5 h5 in
    let (m3, h3, k3) = >>>-eq_none _ _ o m4 h4 in
    let (m2, h2, k2) = >>>-eq_none _ _ o m3 h3 in
    let (m1, h1, k1) = >>>-eq_none _ _ o m2 h2 in
    fill_metadata_lem (λ m. Ended (fill_builder m) m2 → P p) o m1 h1
      (λ s (v1, w1) l1.
        fill_builder_lem (λ m. Ended (check_token_id m) m3 → P p) _ m2 l1
          (λ t (v2, w2) l2.
            check_lem (λ m. Ended (check_maker_amount m) m4 → P p) _ m3 _ l2
              (λ v3 l3.
                check_lem (λ m. Ended (check_taker_amount m) m5 → P p) _ m4 _ l3
                  (λ v4 l4.
                    check_lem (λ m. Ended (check_side m) p → P p) _ m5 _ l4
                      (λ v5 l5.
                        check_lem P _ p _ l5
                          (λ v6. k s t (v1, w1, v2, w2, v3, v4, v5, known_side o.side _ v6)))
                      k5)
                  k4)
              k3)
          k2)
      k1

-- The other steps of a preparation change a field that FieldsValid does not read.
pub fill_maker_lem :
    (env : Env) (hex : Text) (P : SignedOrder → Type 0) (o p : SignedOrder)
    → Ended (fill_maker env hex o) p
    → ((t : Text) → P (record o { maker = t }))
    → P p
unfolding fill_maker
fill_maker_lem env hex P o p h k = elim (Bool-cases (is_empty o.maker)) [
  | inl e ↦ filled_lem P _ p (rw e at h) (k hex)
  | inr e ↦ elim (Bool-cases (env.is_hex_address o.maker)) [
    | inl e' ↦ filled_lem P _ p (rw (e, e') at h) (k _)
    | inr e' ↦ absurd (ground (arith, h))
  ]
]

pub fill_signer_lem :
    (env : Env) (hex : Text) (P : SignedOrder → Type 0) (o p : SignedOrder)
    → Ended (fill_signer env hex o) p
    → ((t : Text) → P (record o { signer = t }))
    → P p
unfolding fill_signer
fill_signer_lem env hex P o p h k = elim (Bool-cases (is_empty o.signer)) [
  | inl e ↦ filled_lem P _ p (rw e at h) (k hex)
  | inr e ↦ elim (Bool-cases (env.is_hex_address o.signer)) [
    | inl e' ↦ filled_lem P _ p (rw (e, e') at h) (k _)
    | inr e' ↦ absurd (ground (arith, h))
  ]
]

pub fill_timestamp_lem :
    (env : Env) (P : SignedOrder → Type 0) (o p : SignedOrder)
    → Ended (fill_timestamp env o) p
    → ((t : Text)
        → (t ≡ print_nat env.now_milli) ⊎ (validate_uint256_string timestamp t true true ≡ none)
        → P (record o { timestamp = t }))
    → P p
unfolding fill_timestamp
fill_timestamp_lem env P o p h k = elim (Bool-cases (is_empty o.timestamp)) [
  | inl e ↦ filled_lem P _ p (rw e at h) (k _ (inl refl))
  | inr e ↦ check_lem P o p _ (rw e at h) (λ v. k o.timestamp (inr v))
]

drawn_salt_lem :
    (drawn : Option ℕ) (P : SignedOrder → Type 0) (o p : SignedOrder)
    → Ended (drawn_salt drawn o) p
    → ((z : ℤ) → P (record o { salt = z }))
    → P p
unfolding drawn_salt
drawn_salt_lem none P o p h k = absurd (ground (arith, h))
drawn_salt_lem (some n) P o p h k = filled_lem P _ p h (k _)

replace_salt_lem :
    (env : Env) (configured : Option ℤ) (P : SignedOrder → Type 0) (o p : SignedOrder)
    → Ended (replace_salt env configured o) p
    → ((z : ℤ) → P (record o { salt = z }))
    → P p
unfolding replace_salt
replace_salt_lem env none P o p h k = drawn_salt_lem (random_order_salt env) P o p h k
replace_salt_lem env (some z) P o p h k = filled_lem P _ p h (k _)

-- A salt that is not 0 stays, and one that is negative is refused.
pub fill_salt_lem :
    (env : Env) (configured : Option ℤ) (P : SignedOrder → Type 0) (o p : SignedOrder)
    → Ended (fill_salt env configured o) p
    → ((z : ℤ)
        → ((is_negative o.salt ≡ false) × (z ≡ o.salt)) ⊎ (is_zero o.salt ≡ true)
        → P (record o { salt = z }))
    → P p
unfolding fill_salt
fill_salt_lem env configured P o p h k = elim (Bool-cases (is_zero o.salt)) [
  | inl e ↦ replace_salt_lem env configured P o p (rw e at h) (λ t. k t (inr e))
  | inr e ↦ elim (Bool-cases (is_negative o.salt)) [
    | inl e' ↦ absurd (ground (arith, h))
    | inr e' ↦ filled_lem P o p (rw (e, e') at h) (k o.salt (inl (e', refl)))
  ]
]

-- What an order is after a preparation for the account with the address `hex`.
pub record IsPrepared (env : Env) (hex : Text) (o p : SignedOrder) : Type 0 where
  pub fields_valid : FieldsValid p
  pub same_trade : SameTrade o p
  pub signer_matches : equal_address env p.signer hex ≡ true
  pub salt_kept : ((is_negative o.salt ≡ false) × (p.salt ≡ o.salt)) ⊎ (is_zero o.salt ≡ true)
  pub timestamp_valid :
      (p.timestamp ≡ print_nat env.now_milli)
      ⊎ (validate_uint256_string timestamp p.timestamp true true ≡ none)

pub prepare_order_for_signing_lem :
    (env : Env) (signer : ℕ) (config : SignOrderConfig) (o p : SignedOrder)
    → Ended (prepare_order_for_signing env signer config o) p
    → IsPrepared env (env.address_hex signer) o p
unfolding prepare_order_for_signing match_signer check_signature_type
prepare_order_for_signing_lem env signer config o p h =
    let (m6, h6, k6) = >>>-eq_none _ _ o p h in
    let (m5, h5, k5) = >>>-eq_none _ _ o m6 h6 in
    let (m4, h4, k4) = >>>-eq_none _ _ o m5 h5 in
    let (m3, h3, k3) = >>>-eq_none _ _ o m4 h4 in
    let (m2, h2, k2) = >>>-eq_none _ _ o m3 h3 in
    let (m1, h1, k1) = >>>-eq_none _ _ o m2 h2 in
    let P : SignedOrder → Type 0 = IsPrepared env (env.address_hex signer) o in
    let A : SignedOrder → Type 0 = λ m. Ended (fill_timestamp env m) p → P p in
    let B : SignedOrder → Type 0 = λ m. Ended (fill_salt env config.salt m) m6 → P p in
    let C : SignedOrder → Type 0 = λ m. Ended (check_signature_type m) m5 → P p in
    let D : SignedOrder → Type 0 = λ m. Ended (check_fields m) m4 → P p in
    let E : SignedOrder → Type 0 =
      λ m. Ended (match_signer env (env.address_hex signer) m) m3 → P p in
    let F : SignedOrder → Type 0 =
      λ m. Ended (fill_signer env (env.address_hex signer) m) m2 → P p in
    fill_maker_lem env _ F o m1 h1
      (λ maker l1.
        fill_signer_lem env _ E _ m2 l1
          (λ sig l2.
            check_lem D _ m3 _ l2
              (λ same l3.
                check_fields_lem C _ m4 l3
                  (λ meta build valid l4.
                    check_lem B _ m5 _ l4
                      (λ kind l5.
                        fill_salt_lem env config.salt A _ m6 l5
                          (λ z salted l6. fill_timestamp_lem env P _ p l6 (λ time timed. record {
                            fields_valid = valid;
                            same_trade = (refl, refl, refl, refl, refl);
                            signer_matches = ground arith;
                            salt_kept = salted;
                            timestamp_valid = timed;
                          }))
                          k6)
                      k5)
                  k4)
              k3)
          k2)
      k1
