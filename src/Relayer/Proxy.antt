-- ===== src/Relayer/Proxy.antt =====
-- relayer/proxy.go: requests of a proxy wallet.
pub mod GasLimit
use polymarket_client.Base.{
  ℕ, ◌+◌, Bool, true, false, not, ◌||◌, Option, none, some, List, [], ◌∷◌, ◌++◌, nat_eq, ltb, leb,
  if◌then◌else◌, is_empty, length, take, drop, get_elem?,
}
use polymarket_client.Base.Int.{ℤ, pos, negsuc, sub_ℕ, ◌+ℤ◌, ◌*ℤ◌, is_not_positive, is_negative}
use polymarket_client.Base.Result.{Result, ok, err, ◌>>=◌, ◌>>◌, err_if, ok_or}
use polymarket_client.Base.Text.{Text, codes, trim_space}
use polymarket_client.Clob.Number.{parse_int, print_int}
use polymarket_client.Clob.Order.{to_int64}
use polymarket_client.Eth.{Ethereum, abi_tuple_array}
use polymarket_client.Eth.Bytes.{fill_bytes}
use polymarket_client.Relayer.{
  RelayerError, no_signer, no_transactions, invalid_from, invalid_proxy_wallet,
  missing_proxy_wallet, invalid_to, missing_data, undecodable_data, invalid_call_type, not_a_number,
  no_payload, empty_nonce, empty_relay, invalid_relay, pack_failed, signing_failed, value,
  gas_price, gas_limit, relayer_fee, nonce, NonceType, proxy_nonce, CallType, unset_call,
  invalid_call, plain_call, delegate_call, other_call, ProxyTransaction, SignatureParams,
  SubmitTransactionRequest, NonceResponse, ProxyArgs, parse_uint256, address_or,
}
use polymarket_client.Relayer.Safe.{left_pad32}

abbrev pub less : ℤ → ℤ → Bool
less a b = is_negative (a +ℤ (b *ℤ negsuc 0))

unfoldable pub max_int : ℤ → ℤ → ℤ
max_int a b = if less a b then b else a

unfoldable pub min_int : ℤ → ℤ → ℤ
min_int a b = if less b a then b else a

-- Sums and products of 64-bit integers.
unfoldable pub add64 : ℤ → ℤ → ℤ
add64 a b = to_int64 (a +ℤ b)

unfoldable pub mul64 : ℤ → ℤ → ℤ
mul64 a b = to_int64 (a *ℤ b)

-- The number that `CalculateProxyGasLimit` prints.
unfoldable pub proxy_gas_limit : ℤ → ℤ
unfolding add64 mul64 min_int max_int
proxy_gas_limit count =
    let tx_gas = mul64 (if is_not_positive count then pos 1 else count) (pos 150000) in
    let will_send = add64 tx_gas (pos 3450000) in
    let max_signable = add64 (add64 will_send (sub_ℕ 0 30000)) (sub_ℕ 0 450000) in
    let needs = add64 tx_gas (pos 500000) in min_int (max_int needs (pos 3000000)) max_signable

unfoldable pub calculate_proxy_gas_limit : ℤ → Text
unfolding proxy_gas_limit
calculate_proxy_gas_limit count = print_int (proxy_gas_limit count)

unfoldable pub parse_call_type : CallType → Result RelayerError ℕ
parse_call_type unset_call = ok 1
parse_call_type plain_call = ok 1
parse_call_type invalid_call = ok 0
parse_call_type delegate_call = ok 2
parse_call_type (other_call t) = err invalid_call_type

abbrev pub proxy_factory : ℕ
proxy_factory = 0xaB45c5A4B0c941a2F231C04C3f49182e1A254052

abbrev pub relay_hub_address : ℕ
relay_hub_address = 0xD216153c06E857cD7f72665E0aF1d7D82172F494

-- A value that is not negative; it has no upper bound.
abbrev pub proxy_value : Option ℤ → Result RelayerError ℤ
proxy_value none = err (not_a_number value)
proxy_value (some z) = if is_negative z then err (not_a_number value) else ok z

-- The first byte that is below 27 becomes a v of Ethereum messages.
abbrev pub personal_v : ℕ → ℕ
personal_v v = if ltb v 27 then v + 27 else v

-- The bytes of a signature with its byte 64 as it is sent. A shorter one is none of `crypto.Sign`.
abbrev pub set_personal_v : List ℕ → List ℕ
set_personal_v sig =
    take 64 sig ++ elim (get_elem? sig 64) [ none ↦ [] | some v ↦ personal_v v ∷ drop 65 sig ]

module _ (eth : Ethereum) where
  open eth use {
    is_hex_address, hex_to_address, address_hex, decode_hex, encode_hex, keccak, pack, sign,
  }

  unfoldable pub proxy_tuple : ProxyTransaction → Result RelayerError (ℕ × ℕ × ℤ × List ℕ)
  unfolding parse_call_type
  proxy_tuple tx = do
    err_if (not (is_hex_address tx.to)) invalid_to
    code ← parse_call_type tx.type_code
    content ← ok_or undecodable_data (decode_hex tx.data_hex)
    amount ← proxy_value (
        parse_int
          (if is_empty (trim_space tx.value_text) then codes "0" else trim_space tx.value_text))
    ok (code, hex_to_address tx.to, amount, content)

  unfoldable pub proxy_tuples :
      List ProxyTransaction → Result RelayerError (List (ℕ × ℕ × ℤ × List ℕ))
  unfolding proxy_tuple
  proxy_tuples [] = ok []
  proxy_tuples (tx ∷ txs) = do first ← proxy_tuple tx; rest ← proxy_tuples txs; ok (first ∷ rest)

  -- The selector takes the place of the prefix of the packed batch.
  unfoldable pub encode_proxy_transaction_data : List ProxyTransaction → Result RelayerError Text
  unfolding proxy_tuples
  encode_proxy_transaction_data txs = do
    err_if (is_empty txs) no_transactions
    tuples ← proxy_tuples txs
    encoded ← ok_or pack_failed (pack (abi_tuple_array tuples ∷ []))
    ok (codes "0x34ee9791" ++ drop 2 (encode_hex encoded))

  -- The bytes that a proxy request is hashed of.
  unfoldable pub proxy_relay_bytes :
      ℕ → ℕ → Text → SignatureParams → Text → ℕ → ℕ → Result RelayerError (List ℕ)
  proxy_relay_bytes sender to data_hex params nonce_text hub relay = do
    content ← ok_or undecodable_data (decode_hex data_hex)
    fee ← parse_uint256 relayer_fee params.relayer_fee_text
    price ← parse_uint256 gas_price params.gas_price_text
    limit ← parse_uint256 gas_limit params.gas_limit_text
    number ← parse_uint256 nonce nonce_text
    ok (
        codes "rlx:"
        ++ (fill_bytes 20 sender
            ++ (fill_bytes 20 to
                ++ (content
                    ++ (left_pad32 fee
                        ++ (left_pad32 price
                            ++ (left_pad32 limit
                                ++ (left_pad32 number
                                    ++ (fill_bytes 20 hub ++ fill_bytes 20 relay)))))))))

  -- `signPersonalHash`; `text_hash` stands for `accounts.TextHash`.
  unfoldable pub sign_personal_hash : (List ℕ → List ℕ) → ℕ → List ℕ → Result RelayerError Text
  sign_personal_hash text_hash signer hash = do
    sig ← ok_or signing_failed (sign signer (text_hash hash))
    ok (encode_hex (set_personal_v sig))

  abbrev pub proxy_wallet_of : Text → Result RelayerError Text
  proxy_wallet_of given = do
    err_if (is_empty (trim_space given)) missing_proxy_wallet
    err_if (not (is_hex_address (trim_space given))) invalid_proxy_wallet
    ok (address_hex (hex_to_address (trim_space given)))

  abbrev pub proxy_params : Text → Text → SignatureParams
  proxy_params limit relay = record {
    gas_price_text = codes "0";
    operation_text = [];
    safe_tx_gas_text = [];
    base_gas_text = [];
    gas_token = [];
    refund_receiver = [];
    gas_limit_text = limit;
    relayer_fee_text = codes "0";
    relay_hub = address_hex relay_hub_address;
    relay = relay;
  }

  abbrev pub proxy_request :
      ProxyArgs → Text → Text → Text → SignatureParams → Text → Text → SubmitTransactionRequest
  proxy_request args sender wallet content params nonce_text signature = record {
    sender = sender;
    to = address_hex proxy_factory;
    proxy_wallet = wallet;
    data_hex = content;
    nonce_text = nonce_text;
    signature = signature;
    signature_params = some params;
    kind = proxy_nonce;
    deposit_wallet_params = none;
    metadata = args.metadata;
    value_text = codes "0";
  }

  abbrev pub gas_limit_of : Text → Text
  gas_limit_of given =
      if is_empty (trim_space given) then calculate_proxy_gas_limit (pos 1) else trim_space given

  -- `ProxySubmitTransactionRequest`; `relay_payload` stands for the request of the nonce.
  unfoldable pub proxy_submit_transaction_request :
      (List ℕ → List ℕ)
      → (Text → NonceType → Option NonceResponse)
      → Option ℕ
      → ProxyArgs
      → Result RelayerError SubmitTransactionRequest
  unfolding proxy_relay_bytes sign_personal_hash
  proxy_submit_transaction_request text_hash relay_payload key args = do
    signer ← ok_or no_signer key
    sender ← address_or eth args.sender (address_hex signer) invalid_from
    wallet ← proxy_wallet_of args.proxy_wallet
    let content = trim_space args.data_hex
    err_if (is_empty content) missing_data
    decoded ← ok_or undecodable_data (decode_hex content)
    payload ← ok_or no_payload (relay_payload sender proxy_nonce)
    err_if (is_empty payload.address) empty_relay
    err_if (not (is_hex_address payload.address)) invalid_relay
    err_if (is_empty payload.nonce_text) empty_nonce
    let relay = hex_to_address payload.address
    let params = proxy_params (gas_limit_of args.gas_limit_text) (address_hex relay)
    bytes ←
        proxy_relay_bytes (hex_to_address sender) proxy_factory content params payload.nonce_text
          relay_hub_address relay
    signature ← sign_personal_hash text_hash signer (keccak bytes)
    ok (proxy_request args sender wallet content params payload.nonce_text signature)
