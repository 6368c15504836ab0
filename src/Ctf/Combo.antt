-- ===== src/Ctf/Combo.antt =====
-- clob/combo_positions.go and clob/combo_balances.go, with the derived ids of clob/combo_protocol.go:
-- the transactions of combos and their amounts.
pub mod Derived
pub mod Amounts
pub mod Calls
mod Tests
use polymarket_client.Base.{
  ℕ, ◌+◌, ◌-◌, ◌^◌, Bool, false, not, ◌||◌, Option, none, some, List, [], ◌∷◌, ◌++◌, nat_eq, ltb,
  if◌then◌else◌, map, take, drop,
}
use polymarket_client.Base.Int.{ℤ, pos, negsuc}
use polymarket_client.Base.Result.{Result, ok, err, ◌>>=◌, ◌>>◌, err_if, ok_or}
use polymarket_client.Base.Text.{Text, codes}
use polymarket_client.Clob.Number.{print_nat}
use polymarket_client.Combo.Legs.{
  Legs, legs, invalid, canonicalize_combo_legs, parse_combo_position_id, decode_combo_position_id,
}
use polymarket_client.Eth.{
  Ethereum, abi_address, abi_uint256, abi_uint256_array, abi_bytes, abi_bytes31, abi_address_array,
  abi_int, abi_bool,
}
use polymarket_client.Eth.Bytes.{fill_bytes, set_bytes}
use polymarket_client.Ctf.{
  CtfError, nil_request, nil_output, missing, overflow, amount, no_combo_contracts, pack_failed,
  missing_owner, no_balance, exceeds_available, invalid_legs, no_rpc, node_failed, malformed,
  CtfTransaction, ContractConfig, contract_config, validate_big_int_required, number_of,
}

-- `ComboSplitPositionRequest` and `ComboMergePositionsRequest`, which have the same fields.
pub record ComboRequest : Type 0 where
  pub leg_ids : List Text
  pub quantity : Option ℤ

pub record ComboRedeemRequest : Type 0 where
  pub position_id : Text
  pub quantity : Option ℤ

-- The condition as its 31 bytes.
pub record ComboContext : Type 0 where
  pub condition_id : List ℕ
  pub yes_id : Text
  pub no_id : Text

abbrev pub of_legs : {A : Type 0} → Legs A → Result CtfError A
of_legs (legs a) = ok a
of_legs (invalid e) = err (invalid_legs e)

abbrev pub fourteen_zeros : List ℕ
fourteen_zeros = fill_bytes 14 0

-- The module, the lower half of the hash, and zeros.
unfoldable pub condition_bytes : List ℕ → List ℕ
condition_bytes hash = 3 ∷ (take 16 (drop 16 hash) ++ fourteen_zeros)

abbrev pub position_of : List ℕ → ℕ → Text
position_of condition outcome = print_nat (set_bytes (condition ++ (outcome ∷ [])) 0)

abbrev pub context_of : List ℕ → ComboContext
context_of condition = record {
  condition_id = condition;
  yes_id = position_of condition 0;
  no_id = position_of condition 1;
}

-- The number of an id that is derived, whose error is not read.
abbrev pub position_number : Text → ℕ
position_number t = elim (parse_combo_position_id t) [ legs n ↦ n | invalid e ↦ 0 ]

abbrev pub is_unconfigured : ContractConfig → Bool
is_unconfigured c =
    nat_eq c.combinatorial_module 0 || nat_eq c.combo_router 0 || nat_eq c.combo_position_manager 0

unfoldable pub combo_contracts : ℤ → Result CtfError ContractConfig
unfolding contract_config
combo_contracts chain = do
  config ← contract_config chain
  err_if (is_unconfigured config) no_combo_contracts
  ok config

abbrev pub one_number : List ℕ → Result CtfError ℕ
one_number (n ∷ []) = ok n
one_number _ = err malformed

-- The smaller of two balances, unless it is 0.
abbrev pub mergeable : List ℕ → Result CtfError ℕ
mergeable (a ∷ b ∷ []) =
    let least = if ltb b a then b else a in if nat_eq least 0 then err no_balance else ok least
mergeable _ = err malformed

abbrev pub check_given : Option ℤ → Result CtfError (Unit {0})
check_given none = ok tt
check_given (some z) = validate_big_int_required amount (some z)

abbrev pub exceeds : ℤ → ℕ → Bool
exceeds (pos n) most = ltb most n
exceeds _ most = false

abbrev pub within : Option ℤ → ℕ → Result CtfError ℤ
within none most = ok (pos most)
within (some z) most = if exceeds z most then err exceeds_available else ok z

abbrev pub signer_address : Option ℕ → ℕ
signer_address none = 0
signer_address (some a) = a

abbrev pub is_uint256 : ℤ → Bool
is_uint256 (pos n) = not (ltb (2 ^ 256 - 1) n)
is_uint256 (negsuc n) = false

-- `DeriveComboPositionContext`.
unfoldable pub derive_combo_position_context : Ethereum → List Text → Result CtfError ComboContext
unfolding canonicalize_combo_legs condition_bytes
derive_combo_position_context eth ids = do
  canonical ← of_legs (canonicalize_combo_legs ids)
  encoded ← ok_or pack_failed (eth.pack (abi_uint256_array (map pos canonical) ∷ []))
  base ← ok_or pack_failed (eth.pack (abi_uint256 3 ∷ abi_bytes encoded ∷ []))
  ok (context_of (condition_bytes (eth.keccak base)))

module _ (eth : Ethereum) (chain : ℤ) where
  open eth use {pack_call}

  unfoldable pub build_combo_collateral_approval_tx :
      Option ℤ → Bool → Result CtfError CtfTransaction
  unfolding combo_contracts
  build_combo_collateral_approval_tx given out = do
    err_if (not out) nil_output
    z ← ok_or (missing amount) given
    err_if (not (is_uint256 z)) (overflow amount)
    contracts ← combo_contracts chain
    content ←
        ok_or pack_failed
          (pack_call (codes "approve") (abi_address contracts.combo_router ∷ abi_int z ∷ []))
    ok (record { to = contracts.collateral; content = content })

  unfoldable pub build_combo_position_approval_tx : Bool → Bool → Result CtfError CtfTransaction
  unfolding combo_contracts
  build_combo_position_approval_tx approved out = do
    err_if (not out) nil_output
    contracts ← combo_contracts chain
    content ← ok_or pack_failed (
        pack_call (codes "setApprovalForAll")
          (abi_address contracts.combo_router ∷ abi_bool (if approved then 1 else 0) ∷ []))
    ok (record { to = contracts.combo_position_manager; content = content })

  -- The two transactions, from the canonical legs and their condition.
  unfoldable pub combo_pair : Text → List ℕ → List ℕ → ℤ → Result CtfError (List CtfTransaction)
  unfolding combo_contracts
  combo_pair method canonical condition z = do
    contracts ← combo_contracts chain
    prepare ←
        ok_or pack_failed
          (pack_call (codes "prepareCondition") (abi_uint256_array (map pos canonical) ∷ []))
    content ← ok_or pack_failed (pack_call method (abi_bytes31 condition ∷ abi_int z ∷ []))
    ok (
        record { to = contracts.combinatorial_module; content = prepare }
        ∷ record { to = contracts.combo_router; content = content }
        ∷ [])

  -- `BuildComboSplitPositionTxs` and `BuildComboMergePositionsTxs`, which differ in the method.
  unfoldable pub build_combo_txs :
      Text → Option ComboRequest → Bool → Result CtfError (List CtfTransaction)
  unfolding validate_big_int_required canonicalize_combo_legs derive_combo_position_context
      combo_pair
  build_combo_txs method req out = do
    r ← ok_or nil_request req
    err_if (not out) nil_output
    validate_big_int_required amount r.quantity
    canonical ← of_legs (canonicalize_combo_legs r.leg_ids)
    combo ← derive_combo_position_context eth r.leg_ids
    combo_pair method canonical combo.condition_id (number_of r.quantity)

  unfoldable pub build_combo_split_position_txs :
      Option ComboRequest → Bool → Result CtfError (List CtfTransaction)
  unfolding build_combo_txs
  build_combo_split_position_txs = build_combo_txs (codes "split")

  unfoldable pub build_combo_merge_positions_txs :
      Option ComboRequest → Bool → Result CtfError (List CtfTransaction)
  unfolding build_combo_txs
  build_combo_merge_positions_txs = build_combo_txs (codes "merge")

  unfoldable pub build_combo_redeem_position_tx :
      Option ComboRedeemRequest → Bool → Result CtfError CtfTransaction
  unfolding validate_big_int_required decode_combo_position_id combo_contracts
  build_combo_redeem_position_tx req out = do
    r ← ok_or nil_request req
    err_if (not out) nil_output
    validate_big_int_required amount r.quantity
    decoded ← of_legs (decode_combo_position_id r.position_id)
    contracts ← combo_contracts chain
    content ← ok_or pack_failed (
        pack_call (codes "redeem") (
          abi_bytes31 (fill_bytes 31 (decoded.0))
          ∷ abi_uint256 (decoded.1)
          ∷ abi_int (number_of r.quantity)
          ∷ []))
    ok (record { to = contracts.combo_router; content = content })

  -- `call` stands for the call of a contract on a node, and the unpacking of the numbers it answers;
  -- none if there is no URL of a node.
  module _ (call : Option (ℕ → List ℕ → Option (List ℕ))) where
    unfoldable pub call_combo_position_manager : List ℕ → Result CtfError (List ℕ)
    unfolding combo_contracts
    call_combo_position_manager content = do
      node ← ok_or no_rpc call
      contracts ← combo_contracts chain
      ok_or node_failed (node contracts.combo_position_manager content)

    unfoldable pub combo_position_balance : ℕ → Text → Result CtfError ℕ
    unfolding call_combo_position_manager parse_combo_position_id
    combo_position_balance owner id = do
      err_if (nat_eq owner 0) missing_owner
      position ← of_legs (parse_combo_position_id id)
      content ←
          ok_or pack_failed
            (pack_call (codes "balanceOf") (abi_address owner ∷ abi_uint256 position ∷ []))
      values ← call_combo_position_manager content
      one_number values

    unfoldable pub combo_max_merge_amount : ℕ → List Text → Result CtfError ℕ
    unfolding derive_combo_position_context call_combo_position_manager parse_combo_position_id
    combo_max_merge_amount owner ids = do
      err_if (nat_eq owner 0) missing_owner
      combo ← derive_combo_position_context eth ids
      content ← ok_or pack_failed (
          pack_call (codes "balanceOfBatch") (
            abi_address_array (owner ∷ owner ∷ [])
            ∷ abi_uint256_array
                (pos (position_number combo.yes_id) ∷ pos (position_number combo.no_id) ∷ [])
            ∷ []))
      values ← call_combo_position_manager content
      mergeable values

    unfoldable pub resolve_combo_merge_amount :
        Option ComboRequest → ℕ → Result CtfError ComboRequest
    unfolding validate_big_int_required combo_max_merge_amount
    resolve_combo_merge_amount req owner = do
      r ← ok_or nil_request req
      check_given r.quantity
      most ← combo_max_merge_amount owner r.leg_ids
      z ← within r.quantity most
      ok (record { leg_ids = r.leg_ids; quantity = some z })

    abbrev pub redeemable : ℕ → Result CtfError (Option ℤ)
    redeemable n = if nat_eq n 0 then err no_balance else ok (some (pos n))

    abbrev pub redeem_quantity : Option ℤ → ℕ → Text → Result CtfError (Option ℤ)
    redeem_quantity (some z) owner id = ok (some z)
    redeem_quantity none owner id = do balance ← combo_position_balance owner id; redeemable balance

    unfoldable pub resolve_combo_redeem_amount :
        Option ComboRedeemRequest → ℕ → Result CtfError ComboRedeemRequest
    unfolding combo_position_balance
    resolve_combo_redeem_amount req owner = do
      r ← ok_or nil_request req
      q ← redeem_quantity r.quantity owner r.position_id
      ok (record { position_id = r.position_id; quantity = q })
