-- ===== src/Ctf.antt =====
-- clob/ctf.go and clob/ctf_types.go: the transactions of the conditional tokens, their checks and
-- their data. An address and a hash are numbers; a pointer to a number is an option. The last
-- argument of a builder tells whether it is given an output.
pub mod Batch
pub mod Relay
pub mod Sent
pub mod Combo
mod Tests
use polymarket_client.Base.{
  ℕ, suc, Bool, true, false, not, ◌||◌, Option, none, some, List, [], ◌∷◌, nat_eq, if◌then◌else◌,
  is_empty, map,
}
use polymarket_client.Base.Int.{ℤ, pos, is_not_positive}
use polymarket_client.Base.Result.{Result, ok, err, ◌>>=◌, ◌>>◌, err_if, ok_or}
use polymarket_client.Base.Text.{Text, codes}
use polymarket_client.Eth.{Ethereum, AbiValue, abi_address, abi_bytes32, abi_uint256_array, abi_int}
use polymarket_client.Eth.Bytes.{fill_bytes}
use polymarket_client.Relayer.{RelayerError}
use polymarket_client.Combo.Legs.{LegError}

-- What messages name.
pub data Named : Type 0 where
  condition_id market_id partition index_sets index_set amount : Named
  nonce deadline call_value : Named
  at_index : Named → ℕ → Named

pub data CtfError : Type 0 where
  nil_request nil_output nil_transaction nil_args : CtfError
  missing not_positive not_a_number overflow : Named → CtfError
  unsupported_chain no_collateral no_factory no_combo_contracts pack_failed : CtfError
  no_signer no_chain_id no_relayer no_nonce_lookup : CtfError
  missing_target missing_data invalid_from invalid_factory : CtfError
  missing_proxy_wallet invalid_proxy_wallet missing_wallet invalid_wallet : CtfError
  missing_call_target invalid_call_target undecodable_call no_calls : CtfError
  wrong_relayer_type invalid_relayer_type : CtfError
  nonce_failed empty_nonce signing_failed submission_failed : CtfError
  missing_owner no_balance exceeds_available no_combo_transactions no_rpc node_failed reverted
        malformed :
      CtfError
  invalid_legs : LegError → CtfError
  not_sent : ℕ → CtfError → CtfError
  relayer_failed : RelayerError → CtfError

pub record CtfTransaction : Type 0 where
  pub to : ℕ
  pub content : List ℕ

-- `SplitPositionRequest` and `MergePositionsRequest`, which have the same fields.
pub record PositionsRequest : Type 0 where
  pub collateral : ℕ
  pub parent : ℕ
  pub condition : ℕ
  pub parts : List (Option ℤ)
  pub quantity : Option ℤ

pub record RedeemRequest : Type 0 where
  pub collateral : ℕ
  pub parent : ℕ
  pub condition : ℕ
  pub sets : List (Option ℤ)

pub record ConvertRequest : Type 0 where
  pub market : ℕ
  pub set : Option ℤ
  pub quantity : Option ℤ

abbrev pub binary_partition : List (Option ℤ)
binary_partition = some (pos 1) ∷ some (pos 2) ∷ []

-- `SplitBinary` and `MergeBinary`.
abbrev pub positions_binary : ℕ → ℕ → Option ℤ → PositionsRequest
positions_binary collateral condition quantity = record {
  collateral = collateral;
  parent = 0;
  condition = condition;
  parts = binary_partition;
  quantity = quantity;
}

abbrev pub redeem_binary : ℕ → ℕ → RedeemRequest
redeem_binary collateral condition = record {
  collateral = collateral;
  parent = 0;
  condition = condition;
  sets = binary_partition;
}

-- The contracts of a chain that the transactions name.
pub record ContractConfig : Type 0 where
  pub collateral : ℕ
  pub ctf_collateral_adapter : ℕ
  pub neg_risk_ctf_collateral_adapter : ℕ
  pub deposit_wallet_factory : ℕ
  pub combo_position_manager : ℕ
  pub combinatorial_module : ℕ
  pub combo_router : ℕ

abbrev pub polygon : ContractConfig
polygon = record {
  collateral = 0xC011a7E12a19f7B1f670d46F03B03f3342E82DFB;
  ctf_collateral_adapter = 0xAdA100Db00Ca00073811820692005400218FcE1f;
  neg_risk_ctf_collateral_adapter = 0xadA2005600Dec949baf300f4C6120000bDB6eAab;
  deposit_wallet_factory = 0x00000000000Fb5C9ADea0298D729A0CB3823Cc07;
  combo_position_manager = 0x006F54F7f9A22e0000CC2AB60031000000ae9fEF;
  combinatorial_module = 0x30000034706C7d8e12009DAB006Be20000c031A8;
  combo_router = 0x12121212006e4CD160D18e3f00711DA5c3372600;
}

-- `Contracts`, of the one chain that is known.
unfoldable pub contract_config : ℤ → Result CtfError ContractConfig
contract_config (pos chain) = if nat_eq chain 137 then ok polygon else err unsupported_chain
contract_config _ = err unsupported_chain

unfoldable pub contract_address : ℤ → (ContractConfig → ℕ) → Result CtfError ℕ
unfolding contract_config
contract_address chain field = do config ← contract_config chain; ok (field config)

abbrev pub configured : ℕ → Result CtfError ℕ
configured a = if nat_eq a 0 then err no_collateral else ok a

unfoldable pub normalize_collateral_token : ℤ → ℕ → Result CtfError ℕ
unfolding contract_config
normalize_collateral_token chain collateral =
    if nat_eq collateral 0
    then (do config ← contract_config chain; configured config.collateral)
    else ok collateral

unfoldable pub validate_hash_required : Named → ℕ → Result CtfError (Unit {0})
validate_hash_required name h = err_if (nat_eq h 0) (missing name)

unfoldable pub validate_big_int_required : Named → Option ℤ → Result CtfError (Unit {0})
validate_big_int_required name none = err (missing name)
validate_big_int_required name (some z) = err_if (is_not_positive z) (not_positive name)

-- The loop over the elements, from an index on.
unfoldable pub validate_elements : Named → ℕ → List (Option ℤ) → Result CtfError (Unit {0})
unfolding validate_big_int_required
validate_elements name i [] = ok tt
validate_elements name i (v ∷ vs) = do
  validate_big_int_required (at_index name i) v
  validate_elements name (suc i) vs

unfoldable pub validate_big_int_slice_required :
    Named → List (Option ℤ) → Result CtfError (Unit {0})
unfolding validate_elements
validate_big_int_slice_required name vs = do
  err_if (is_empty vs) (missing name)
  validate_elements name 0 vs

-- The number behind a pointer that is checked before.
abbrev pub number_of : Option ℤ → ℤ
number_of none = pos 0
number_of (some z) = z

abbrev pub bytes32_of : ℕ → AbiValue
bytes32_of h = abi_bytes32 (fill_bytes 32 h)

module _ (eth : Ethereum) (chain : ℤ) where
  -- The data of a call of a method, and the contract that it is sent to.
  unfoldable pub packed_call :
      Text → List AbiValue → (ContractConfig → ℕ) → Result CtfError CtfTransaction
  unfolding contract_address
  packed_call method values field = do
    content ← ok_or pack_failed (eth.pack_call method values)
    to ← contract_address chain field
    ok (record { to = to; content = content })

  -- `BuildSplitPositionTx` and `BuildMergePositionsTx`, which differ in the method.
  unfoldable pub build_positions_tx :
      Text → Option PositionsRequest → Bool → Result CtfError CtfTransaction
  unfolding normalize_collateral_token validate_hash_required validate_big_int_slice_required
      validate_big_int_required packed_call
  build_positions_tx method req out = do
    r ← ok_or nil_request req
    err_if (not out) nil_output
    collateral ← normalize_collateral_token chain r.collateral
    validate_hash_required condition_id r.condition
    validate_big_int_slice_required partition r.parts
    validate_big_int_required amount r.quantity
    packed_call method
        (abi_address collateral
          ∷ bytes32_of r.parent
          ∷ bytes32_of r.condition
          ∷ abi_uint256_array (map number_of r.parts)
          ∷ abi_int (number_of r.quantity)
          ∷ [])
        (λ c. c.ctf_collateral_adapter)

  unfoldable pub build_split_position_tx :
      Option PositionsRequest → Bool → Result CtfError CtfTransaction
  unfolding build_positions_tx
  build_split_position_tx = build_positions_tx (codes "splitPosition")

  unfoldable pub build_merge_positions_tx :
      Option PositionsRequest → Bool → Result CtfError CtfTransaction
  unfolding build_positions_tx
  build_merge_positions_tx = build_positions_tx (codes "mergePositions")

  unfoldable pub build_redeem_positions_tx :
      Option RedeemRequest → Bool → Result CtfError CtfTransaction
  unfolding normalize_collateral_token validate_hash_required validate_big_int_slice_required
      packed_call
  build_redeem_positions_tx req out = do
    r ← ok_or nil_request req
    err_if (not out) nil_output
    collateral ← normalize_collateral_token chain r.collateral
    validate_hash_required condition_id r.condition
    validate_big_int_slice_required index_sets r.sets
    packed_call (codes "redeemPositions")
        (abi_address collateral
          ∷ bytes32_of r.parent
          ∷ bytes32_of r.condition
          ∷ abi_uint256_array (map number_of r.sets)
          ∷ [])
        (λ c. c.ctf_collateral_adapter)

  -- The request is its condition.
  unfoldable pub build_redeem_neg_risk_tx : Option ℕ → Bool → Result CtfError CtfTransaction
  unfolding validate_hash_required packed_call
  build_redeem_neg_risk_tx req out = do
    condition ← ok_or nil_request req
    err_if (not out) nil_output
    validate_hash_required condition_id condition
    packed_call (codes "redeemPositions")
        (abi_address 0
          ∷ bytes32_of 0
          ∷ bytes32_of condition
          ∷ abi_uint256_array (map number_of binary_partition)
          ∷ [])
        (λ c. c.neg_risk_ctf_collateral_adapter)

  unfoldable pub build_convert_positions_tx :
      Option ConvertRequest → Bool → Result CtfError CtfTransaction
  unfolding validate_hash_required validate_big_int_required packed_call
  build_convert_positions_tx req out = do
    r ← ok_or nil_request req
    err_if (not out) nil_output
    validate_hash_required market_id r.market
    validate_big_int_required index_set r.set
    validate_big_int_required amount r.quantity
    packed_call (codes "convertPositions")
        (bytes32_of r.market ∷ abi_int (number_of r.set) ∷ abi_int (number_of r.quantity) ∷ [])
        (λ c. c.neg_risk_ctf_collateral_adapter)
