-- ===== src/Ctf/Combo/Amounts.antt =====
-- The amount of a merge.
use polymarket_client.Base.{
  ℕ, ◌≡◌, ◌≤◌, ◌<◌, ◌⊎◌, refl, sym, ap, subst, Option, none, some, List, [], ◌∷◌, nat_eq, ltb,
  if◌then◌else◌, arith, Bool-cases, inl, inr,
}
use polymarket_client.Base.Int.{ℤ, pos, negsuc}
use polymarket_client.Base.Result.{
  ok, err, err_if, ok_or, >>=-eq-ok, err_if-eq-ok, ok_or-eq-ok, ok_injective,
}
use polymarket_client.Base.Text.{codes}
use polymarket_client.Eth.{Ethereum, abi_address_array, abi_uint256_array}
use polymarket_client.Ctf.{
  not_positive, missing_owner, nil_request, amount, pack_failed, no_balance,
  validate_big_int_required,
}
use polymarket_client.Ctf.Combo.{
  ComboRequest, ComboContext, position_number, mergeable, check_given, within,
  derive_combo_position_context, call_combo_position_manager, combo_max_merge_amount,
  resolve_combo_merge_amount,
}

-- An amount that two balances allow.
pub record IsLeast (l : List ℕ) (m : ℕ) : Type 0 where
  pub first : ℕ
  pub second : ℕ
  pub are_these : l ≡ first ∷ second ∷ []
  pub up_to_first : m ≤ first
  pub up_to_second : m ≤ second
  pub is_one : (m ≡ first) ⊎ (m ≡ second)
  pub is_positive : 1 ≤ m

unless_zero :
    (least m : ℕ)
    → (if nat_eq least 0 then err no_balance else ok least) ≡ ok m
    → (least ≡ m) × (1 ≤ least)
unless_zero least m h = elim (Bool-cases (nat_eq least 0)) [
  | inl e ↦ let g = rw e at h in cc
  | inr e ↦ (ok_injective (rw e at h), ground arith)
]

mergeable-IsLeast : (l : List ℕ) (m : ℕ) → mergeable l ≡ ok m → IsLeast l m
mergeable-IsLeast [] m h = cc
mergeable-IsLeast (a ∷ []) m h = cc
mergeable-IsLeast (a ∷ b ∷ c ∷ l) m h = cc
mergeable-IsLeast (a ∷ b ∷ []) m h =
    let (e, p) = unless_zero (if ltb b a then b else a) m h in
    elim (Bool-cases (ltb b a)) [
      | inl k ↦
          let f = rw k at e in
          let g : b < a = ground arith in
          record {
            first = a;
            second = b;
            are_these = refl;
            up_to_first = omega arith;
            up_to_second = omega arith;
            is_one = inr (sym f);
            is_positive = subst (λ x. 1 ≤ x) e p;
          }
      | inr k ↦
          let f = rw k at e in
          let g : a ≤ b = ground arith in
          record {
            first = a;
            second = b;
            are_these = refl;
            up_to_first = omega arith;
            up_to_second = omega arith;
            is_one = inl (sym f);
            is_positive = subst (λ x. 1 ≤ x) e p;
          }
    ]

-- What becomes of the quantity of a request.
pub record Kept (given : Option ℤ) (most n : ℕ) : Type 0 where
  pub within_most : n ≤ most
  pub at_least_one : 1 ≤ n
  pub keeps : (z : ℤ) → given ≡ some z → z ≡ pos n
  pub fills : given ≡ none → n ≡ most

within-Kept :
    (given : Option ℤ) (most : ℕ) (z : ℤ)
    → 1 ≤ most
    → check_given given ≡ ok tt
    → within given most ≡ ok z
    → (n : ℕ) × (z ≡ pos n) × Kept given most n
unfolding validate_big_int_required
within-Kept none most z p c h = (
  most,
  sym (ok_injective h),
  record { within_most = omega arith; at_least_one = p; keeps = λ x e. cc; fills = λ e. refl },
)
within-Kept (some (negsuc k)) most z p c h = cc
within-Kept (some (pos n)) most z p c h = elim (Bool-cases (ltb most n)) [
  | inl e ↦ let g = rw e at h in cc
  | inr e ↦
      let f = err_if-eq-ok (nat_eq n 0) (not_positive amount) c in
      (
        n,
        sym (ok_injective (rw e at h)),
        record {
          within_most = ground arith;
          at_least_one = ground arith;
          keeps = λ x k. cc;
          fills = λ k. cc;
        },
      )
]

module _ (eth : Ethereum) (chain : ℤ) (call : Option (ℕ → List ℕ → Option (List ℕ))) where
  -- What a request to merge is resolved to: its legs, and an amount of the balances of the owner.
  pub record Resolves (r : ComboRequest) (owner : ℕ) (q : ComboRequest) : Type 0 where
    pub context : ComboContext
    pub derived : derive_combo_position_context eth r.leg_ids ≡ ok context
    pub content : List ℕ
    pub packed :
        eth.pack_call (codes "balanceOfBatch") (
          abi_address_array (owner ∷ owner ∷ [])
          ∷ abi_uint256_array
              (pos (position_number context.yes_id) ∷ pos (position_number context.no_id) ∷ [])
          ∷ [])
        ≡ some content
    pub balances : List ℕ
    pub answered : call_combo_position_manager eth chain call content ≡ ok balances
    pub most : ℕ
    pub least : IsLeast balances most
    pub merged : ℕ
    pub kept : Kept r.quantity most merged
    pub same_legs : q.leg_ids ≡ r.leg_ids
    pub same_quantity : q.quantity ≡ some (pos merged)

  -- A request to merge is resolved to the same legs and a positive amount, at most each of the two
  -- balances that the owner has of the derived positions: the given amount or, if none is given,
  -- the smaller balance.
  pub resolve_combo_merge_amount_lem :
      (r : ComboRequest) (owner : ℕ) (q : ComboRequest)
      → resolve_combo_merge_amount eth chain call (some r) owner ≡ ok q
      → Resolves r owner q
  unfolding resolve_combo_merge_amount combo_max_merge_amount
  resolve_combo_merge_amount_lem r owner q h =
      let (r1, e0, h0) = >>=-eq-ok (ok_or nil_request (some r)) _ h in
      let (u, e1, h1) = >>=-eq-ok (check_given r1.quantity) _ h0 in
      let (most, e2, h2) =
        >>=-eq-ok (combo_max_merge_amount eth chain call owner r1.leg_ids) _ h1 in
      let (z, e3, h3) = >>=-eq-ok (within r1.quantity most) _ h2 in
      let (u4, e4, g0) = >>=-eq-ok (err_if (nat_eq owner 0) missing_owner) _ e2 in
      let (c, e5, g1) = >>=-eq-ok (derive_combo_position_context eth r1.leg_ids) _ g0 in
      let (content, e6, g2) = >>=-eq-ok _ _ g1 in
      let (balances, e7, g3) =
        >>=-eq-ok (call_combo_position_manager eth chain call content) _ g2 in
      let least = mergeable-IsLeast balances most g3 in
      let (n, same, kept) = within-Kept r1.quantity most z least.is_positive e1 e3 in
      subst (λ x. Resolves x owner q) (sym (ok_injective e0))
        (subst (Resolves r1 owner) (ok_injective h3) (record {
          context = c;
          derived = e5;
          content = content;
          packed = ok_or-eq-ok pack_failed _ e6;
          balances = balances;
          answered = e7;
          most = most;
          least = least;
          merged = n;
          kept = kept;
          same_legs = refl;
          same_quantity = ap some same;
        }))
