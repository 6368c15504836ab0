-- ===== src/Relayer/Safe.antt =====
-- relayer/safe.go: requests of a Safe wallet, from their transactions to the signature.
use polymarket_client.Base.{
  ℕ, ◌+◌, Bool, false, not, ◌||◌, Option, none, some, List, [], ◌∷◌, ◌++◌, nat_eq, if◌then◌else◌,
  is_empty, length, take, drop, get_elem?,
}
use polymarket_client.Base.Int.{ℤ, pos}
use polymarket_client.Base.Result.{Result, ok, err, ◌>>=◌, ◌>>◌, err_if, ok_or}
use polymarket_client.Base.Text.{Text, codes, trim_space}
use polymarket_client.Clob.Number.{print_nat}
use polymarket_client.Eth.{
  Ethereum, AbiValue, abi_address, abi_uint256, abi_uint8, abi_bytes32, abi_bytes, abi_int,
}
use polymarket_client.Eth.Bytes.{fill_bytes, set_bytes}
use polymarket_client.Relayer.{
  RelayerError, no_signer, no_chain_id, no_transactions, unsupported_chain, invalid_from,
  invalid_proxy_wallet, invalid_to, invalid_gas_token, invalid_refund_receiver, undecodable_data,
  no_payload, empty_nonce, pack_failed, signing_failed, invalid_signature_length,
  invalid_signature_v, value, safe_tx_gas, base_gas, gas_price, nonce, NonceType, safe_nonce,
  SafeTransaction, SignatureParams, SubmitTransactionRequest, NonceResponse, SafeArgs,
  normalize_hex, default_zero, parse_uint256, address_or,
}

-- `safeLeftPad32` of a number below 2 ^ 256.
abbrev pub left_pad32 : ℕ → List ℕ
left_pad32 n = fill_bytes 32 n

-- `relayerContractConfig`: the factory and the MultiSend contract of Polygon.
abbrev pub relayer_contract_config : ℤ → Result RelayerError (ℕ × ℕ)
relayer_contract_config (pos chain) =
    if nat_eq chain 137
    then ok (0xaacFeEa03eb1561C4e67d661e40682Bd20E3541b, 0xA238CBeb142c10Ef7Ad8442C6D1f9E89e07e7761)
    else err unsupported_chain
relayer_contract_config _ = err unsupported_chain

abbrev pub safe_init_code_hash : List ℕ
safe_init_code_hash =
    fill_bytes 32 0x2bce2127ff07fb632d16c8347c4ebf501f4841168bed00d9e6ef715ddb6fcecf

abbrev pub is_zero : ℤ → Bool
is_zero (pos n) = nat_eq n 0
is_zero _ = false

abbrev pub zero_address : Text
zero_address = codes "0x0000000000000000000000000000000000000000"

-- The last byte of a signature as the Safe contracts read it: they take 31 and 32 for a hash that
-- is signed as a message.
unfoldable pub safe_v : ℕ → Option ℕ
safe_v v =
    if nat_eq v 0 || nat_eq v 1
    then some (v + 31)
    else if nat_eq v 27 || nat_eq v 28
    then some (v + 4)
    else none

abbrev pub packed_bytes : List ℕ → Option ℕ → Result RelayerError (List ℕ)
packed_bytes sig none =
    err (invalid_signature_v (elim (get_elem? sig 64) [ none ↦ 0 | some v ↦ v ]))
packed_bytes sig (some v) = ok (
    left_pad32 (set_bytes (take 32 sig) 0)
    ++ (left_pad32 (set_bytes (take 32 (drop 32 sig)) 0) ++ (v ∷ [])))

-- The bytes that `packSafeSignature` encodes.
unfoldable pub pack_safe_signature : List ℕ → Result RelayerError (List ℕ)
unfolding safe_v
pack_safe_signature sig =
    if nat_eq (length sig) 65
    then packed_bytes sig (elim (get_elem? sig 64) [ none ↦ none | some v ↦ safe_v v ])
    else err (invalid_signature_length (length sig))

module _ (eth : Ethereum) where
  open eth use {
    is_hex_address, hex_to_address, address_hex, decode_hex, encode_hex, keccak, pack, sign,
  }

  -- One transaction of a MultiSend: the operation, the target, the value, the length of the data and
  -- the data.
  unfoldable pub encode_safe_transaction : SafeTransaction → Result RelayerError (List ℕ)
  encode_safe_transaction tx = do
    err_if (not (is_hex_address tx.to)) invalid_to
    content ← ok_or undecodable_data (decode_hex (normalize_hex tx.data_hex))
    amount ←
        parse_uint256 value
          (if is_empty (trim_space tx.value_text) then codes "0" else tx.value_text)
    ok (
        tx.operation
        ∷ (fill_bytes 20 (hex_to_address tx.to)
            ++ (left_pad32 amount ++ (left_pad32 (length content) ++ content))))

  unfoldable pub encode_safe_transactions : List SafeTransaction → Result RelayerError (List ℕ)
  unfolding encode_safe_transaction
  encode_safe_transactions [] = ok []
  encode_safe_transactions (tx ∷ txs) = do
    first ← encode_safe_transaction tx
    rest ← encode_safe_transactions txs
    ok (first ++ rest)

  unfoldable pub create_safe_multi_send_transaction :
      List SafeTransaction → ℕ → Result RelayerError SafeTransaction
  unfolding encode_safe_transactions
  create_safe_multi_send_transaction txs multisend = do
    err_if (is_empty txs) no_transactions
    encoded ← encode_safe_transactions txs
    payload ← ok_or pack_failed (pack (abi_bytes encoded ∷ []))
    ok (record {
      to = address_hex multisend;
      operation = 1;
      data_hex = encode_hex (0x8d ∷ 0x80 ∷ 0xff ∷ 0x0a ∷ payload);
      value_text = codes "0";
    })

  unfoldable pub single_safe_transaction : SafeTransaction → Result RelayerError SafeTransaction
  single_safe_transaction tx = do
    err_if (not (is_hex_address tx.to)) invalid_to
    ok (record {
      to = address_hex (hex_to_address tx.to);
      operation = tx.operation;
      data_hex = normalize_hex (if is_empty tx.data_hex then codes "0x" else tx.data_hex);
      value_text = if is_empty tx.value_text then codes "0" else tx.value_text;
    })

  unfoldable pub aggregate_safe_transactions :
      List SafeTransaction → ℤ → Result RelayerError SafeTransaction
  unfolding single_safe_transaction create_safe_multi_send_transaction
  aggregate_safe_transactions [] chain = err no_transactions
  aggregate_safe_transactions (tx ∷ []) chain = single_safe_transaction tx
  aggregate_safe_transactions (tx ∷ ty ∷ txs) chain = do
    config ← relayer_contract_config chain
    create_safe_multi_send_transaction (tx ∷ ty ∷ txs) config.1

  -- The arguments that the hash of a transaction is taken of.
  abbrev pub safe_type_hash : List ℕ
  safe_type_hash = keccak (
      codes
        "SafeTx(address to,uint256 value,bytes data,uint8 operation,uint256 safeTxGas,uint256 baseGas,uint256 gasPrice,address gasToken,address refundReceiver,uint256 nonce)")

  unfoldable pub safe_struct_values :
      SafeTransaction → SignatureParams → Text → Result RelayerError (List AbiValue)
  safe_struct_values tx params nonce_text = do
    err_if (not (is_hex_address tx.to)) invalid_to
    amount ← parse_uint256 value (default_zero tx.value_text)
    content ← ok_or undecodable_data (decode_hex (normalize_hex tx.data_hex))
    tx_gas ← parse_uint256 safe_tx_gas params.safe_tx_gas_text
    base ← parse_uint256 base_gas params.base_gas_text
    price ← parse_uint256 gas_price params.gas_price_text
    err_if (not (is_hex_address params.gas_token)) invalid_gas_token
    err_if (not (is_hex_address params.refund_receiver)) invalid_refund_receiver
    number ← parse_uint256 nonce nonce_text
    ok (
        abi_bytes32 safe_type_hash
        ∷ abi_address (hex_to_address tx.to)
        ∷ abi_uint256 amount
        ∷ abi_bytes32 (keccak content)
        ∷ abi_uint8 tx.operation
        ∷ abi_uint256 tx_gas
        ∷ abi_uint256 base
        ∷ abi_uint256 price
        ∷ abi_address (hex_to_address params.gas_token)
        ∷ abi_address (hex_to_address params.refund_receiver)
        ∷ abi_uint256 number
        ∷ [])

  unfoldable pub create_safe_struct_hash :
      SafeTransaction → SignatureParams → Text → Result RelayerError (List ℕ)
  unfolding safe_struct_values
  create_safe_struct_hash tx params nonce_text = do
    values ← safe_struct_values tx params nonce_text
    encoded ← ok_or pack_failed (pack values)
    ok (keccak encoded)

  unfoldable pub create_safe_typed_data_digest : ℤ → ℕ → List ℕ → Result RelayerError (List ℕ)
  create_safe_typed_data_digest chain safe struct_hash = do
    domain ← ok_or pack_failed (
        pack (
          abi_bytes32 (keccak (codes "EIP712Domain(uint256 chainId,address verifyingContract)"))
          ∷ abi_int chain
          ∷ abi_address safe
          ∷ []))
    ok (keccak (0x19 ∷ 0x01 ∷ (keccak domain ++ struct_hash)))

  -- The last 20 bytes of the hash.
  unfoldable pub get_create2_address : List ℕ → ℕ → List ℕ → ℕ
  get_create2_address code_hash factory salt =
      set_bytes (drop 12 (keccak (0xff ∷ (fill_bytes 20 factory ++ (salt ++ code_hash))))) 0

  unfoldable pub derive_safe_address : ℕ → ℤ → Result RelayerError ℕ
  unfolding get_create2_address
  derive_safe_address owner chain = do
    config ← relayer_contract_config chain
    encoded ← ok_or pack_failed (pack (abi_address owner ∷ []))
    ok (get_create2_address safe_init_code_hash config.0 (keccak encoded))

  -- The wallet that is named, or the one derived from the owner.
  abbrev pub safe_wallet : Text → Text → ℤ → Result RelayerError Text
  safe_wallet given sender chain =
      if is_empty (trim_space given)
      then (do
        derived ← derive_safe_address (hex_to_address sender) chain
        ok (address_hex derived))
      else ok (trim_space given)

  abbrev pub safe_params : ℕ → SignatureParams
  safe_params operation = record {
    gas_price_text = codes "0";
    operation_text = print_nat operation;
    safe_tx_gas_text = codes "0";
    base_gas_text = codes "0";
    gas_token = zero_address;
    refund_receiver = zero_address;
    gas_limit_text = [];
    relayer_fee_text = [];
    relay_hub = [];
    relay = [];
  }

  abbrev pub safe_request :
      SafeArgs → Text → Text → SafeTransaction → Text → Text → SubmitTransactionRequest
  safe_request args sender safe tx nonce_text signature = record {
    sender = sender;
    to = address_hex (hex_to_address tx.to);
    proxy_wallet = safe;
    data_hex = normalize_hex tx.data_hex;
    nonce_text = nonce_text;
    signature = signature;
    signature_params = some (safe_params tx.operation);
    kind = safe_nonce;
    deposit_wallet_params = none;
    metadata = args.metadata;
    value_text = tx.value_text;
  }

  -- The hash of a transaction, its signature and the request.
  unfoldable pub sign_safe_request :
      ℕ
      → SafeArgs
      → Text
      → Text
      → Text
      → SafeTransaction
      → Result RelayerError SubmitTransactionRequest
  unfolding create_safe_struct_hash create_safe_typed_data_digest pack_safe_signature
  sign_safe_request signer args sender safe nonce_text tx = do
    struct_hash ← create_safe_struct_hash tx (safe_params tx.operation) nonce_text
    digest ← create_safe_typed_data_digest args.chain_id (hex_to_address safe) struct_hash
    raw ← ok_or signing_failed (sign signer digest)
    packed ← pack_safe_signature raw
    ok (safe_request args sender safe tx nonce_text (encode_hex packed))

  -- The part with the relayer's answer.
  unfoldable pub answered_safe_request :
      ℕ
      → SafeArgs
      → Text
      → Text
      → Option NonceResponse
      → Result RelayerError SubmitTransactionRequest
  unfolding aggregate_safe_transactions sign_safe_request
  answered_safe_request signer args sender safe answer = do
    payload ← ok_or no_payload answer
    err_if (is_empty payload.nonce_text) empty_nonce
    tx ← aggregate_safe_transactions args.transactions args.chain_id
    sign_safe_request signer args sender safe payload.nonce_text tx

  -- `SafeSubmitTransactionRequest`; `relay_payload` stands for the request of the nonce.
  unfoldable pub safe_submit_transaction_request :
      (Text → NonceType → Option NonceResponse)
      → Option ℕ
      → SafeArgs
      → Result RelayerError SubmitTransactionRequest
  unfolding derive_safe_address answered_safe_request
  safe_submit_transaction_request relay_payload key args = do
    signer ← ok_or no_signer key
    err_if (is_zero args.chain_id) no_chain_id
    err_if (is_empty args.transactions) no_transactions
    sender ← address_or eth args.sender (address_hex signer) invalid_from
    wallet ← safe_wallet args.proxy_wallet sender args.chain_id
    err_if (not (is_hex_address wallet)) invalid_proxy_wallet
    answered_safe_request signer args sender (address_hex (hex_to_address wallet))
        (relay_payload sender safe_nonce)
