-- ===== src/Relayer.antt =====
-- relayer/types.go and the helpers of relayer/safe.go and relayer/proxy.go that both share.
pub mod Safe
pub mod Proxy
pub mod MultiSend
pub mod Signed
mod Tests
use polymarket_client.Base.{
  ℕ, ◌^◌, Bool, true, false, ◌||◌, Option, none, some, List, [], ◌∷◌, ◌++◌, nat_eq, ltb,
  if◌then◌else◌, is_empty,
}
use polymarket_client.Base.Int.{ℤ, pos, negsuc}
use polymarket_client.Base.Result.{Result, ok, err}
use polymarket_client.Base.Text.{Text, codes, trim_space}
use polymarket_client.Clob.Number.{parse_int}
use polymarket_client.Eth.{Ethereum}

-- The fields that messages name.
pub data Quantity : Type 0 where
  value safe_tx_gas base_gas gas_price gas_limit relayer_fee nonce : Quantity

pub data RelayerError : Type 0 where
  no_signer no_chain_id no_transactions unsupported_chain : RelayerError
  invalid_from invalid_proxy_wallet missing_proxy_wallet invalid_to invalid_gas_token : RelayerError
  invalid_refund_receiver missing_data undecodable_data invalid_call_type : RelayerError
  required not_a_number overflow : Quantity → RelayerError
  no_payload empty_nonce empty_relay invalid_relay pack_failed signing_failed : RelayerError
  invalid_signature_length : ℕ → RelayerError
  invalid_signature_v : ℕ → RelayerError

pub data NonceType : Type 0 where
  proxy_nonce safe_nonce wallet_nonce wallet_create_nonce : NonceType
  other_nonce : Text → NonceType

pub data CallType : Type 0 where
  unset_call invalid_call plain_call delegate_call : CallType
  other_call : Text → CallType

-- `OperationType` is a byte; 0 calls, 1 calls by delegation.
pub record SafeTransaction : Type 0 where
  pub to : Text
  pub operation : ℕ
  pub data_hex : Text
  pub value_text : Text

pub record ProxyTransaction : Type 0 where
  pub to : Text
  pub type_code : CallType
  pub data_hex : Text
  pub value_text : Text

pub record SignatureParams : Type 0 where
  pub gas_price_text : Text
  pub operation_text : Text
  pub safe_tx_gas_text : Text
  pub base_gas_text : Text
  pub gas_token : Text
  pub refund_receiver : Text
  pub gas_limit_text : Text
  pub relayer_fee_text : Text
  pub relay_hub : Text
  pub relay : Text

pub record DepositWalletCall : Type 0 where
  pub target : Text
  pub value_text : Text
  pub data_hex : Text

pub record DepositWalletParams : Type 0 where
  pub deposit_wallet : Text
  pub deadline : Text
  pub calls : List DepositWalletCall

pub record SubmitTransactionRequest : Type 0 where
  pub sender : Text
  pub to : Text
  pub proxy_wallet : Text
  pub data_hex : Text
  pub nonce_text : Text
  pub signature : Text
  pub signature_params : Option SignatureParams
  pub kind : NonceType
  pub deposit_wallet_params : Option DepositWalletParams
  pub metadata : Text
  pub value_text : Text

pub record NonceResponse : Type 0 where
  pub nonce_text : Text
  pub address : Text

pub record SafeArgs : Type 0 where
  pub sender : Text
  pub proxy_wallet : Text
  pub chain_id : ℤ
  pub transactions : List SafeTransaction
  pub metadata : Text

pub record ProxyArgs : Type 0 where
  pub sender : Text
  pub proxy_wallet : Text
  pub data_hex : Text
  pub metadata : Text
  pub gas_limit_text : Text

abbrev pub has_hex_prefix : Text → Bool
has_hex_prefix (c ∷ d ∷ v) = if nat_eq c b'0' then nat_eq d b'x' || nat_eq d b'X' else false
has_hex_prefix _ = false

abbrev pub prefixed : Text → Text
prefixed v = if is_empty v then codes "0x" else if has_hex_prefix v then v else codes "0x" ++ v

unfoldable pub normalize_hex : Text → Text
normalize_hex v = prefixed (trim_space v)

unfoldable pub default_zero : Text → Text
default_zero v = if is_empty (trim_space v) then codes "0" else trim_space v

abbrev pub in_uint256 : Quantity → Option ℤ → Result RelayerError ℕ
in_uint256 q none = err (not_a_number q)
in_uint256 q (some (negsuc n)) = err (not_a_number q)
in_uint256 q (some (pos n)) = if ltb n (2 ^ 256) then ok n else err (overflow q)

-- `parseSafeUint256` and `parseDecimalUint256`, which are the same.
unfoldable pub parse_uint256 : Quantity → Text → Result RelayerError ℕ
parse_uint256 q v =
    if is_empty (trim_space v) then err (required q) else in_uint256 q (parse_int (trim_space v))

-- An address that is given, or a default, with its check and its checksummed form.
unfoldable pub address_or : Ethereum → Text → Text → RelayerError → Result RelayerError Text
address_or eth given default e =
    let a = if is_empty (trim_space given) then default else trim_space given in
    if eth.is_hex_address a then ok (eth.address_hex (eth.hex_to_address a)) else err e
