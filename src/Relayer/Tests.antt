-- ===== src/Relayer/Tests.antt =====
-- Requests of Safe wallets at concrete inputs, with an instance of the parameters.
use polymarket_client.Base.{
  ℕ, ◌≡◌, ◌≤◌, ◌+◌, ◌*◌, refl, arith, Option, none, some, List, [], ◌∷◌, length,
}
use polymarket_client.Base.Int.{pos}
use polymarket_client.Base.Result.{Result, ok, err, ◌>>=◌}
use polymarket_client.Base.Text.{Text, codes, trim_space, trim_left, is_space}
use polymarket_client.Clob.Number.{parse_int, parse_unsigned, parse_digits}
use polymarket_client.Eth.Bytes.{fill_bytes}
use polymarket_client.Eth.Sample.{sample, sample-IsEthereum}
use polymarket_client.Relayer.{
  NonceType, safe_nonce, NonceResponse, SafeTransaction, SafeArgs, SubmitTransactionRequest,
  RelayerError, normalize_hex, parse_uint256,
}
use polymarket_client.Relayer.Safe.{encode_safe_transaction, encode_safe_transactions}
use polymarket_client.Relayer.MultiSend.{AskAll, multi_send, multi_send-encode_safe_transactions}
use polymarket_client.Relayer.Proxy.{proxy_gas_limit}
use polymarket_client.Relayer.Proxy.GasLimit.{proxy_gas_limit_lem}

abbrev approval : SafeTransaction
approval = record {
  to = sample.address_hex 7;
  operation = 0;
  data_hex = sample.encode_hex (9 ∷ 94 ∷ []);
  value_text = codes "0";
}

abbrev payment : SafeTransaction
payment = record {
  to = sample.address_hex 8;
  operation = 0;
  data_hex = [];
  value_text = codes " 300";
}

abbrev two_transactions : List SafeTransaction
two_transactions = approval ∷ payment ∷ []

abbrev sent_bytes : Result RelayerError (List ℕ) → List ℕ
sent_bytes r = elim r [ ok l ↦ l | err e ↦ [] ]

two_transactions_encode :
    encode_safe_transactions sample two_transactions
    ≡ ok (sent_bytes (encode_safe_transactions sample two_transactions))
unfolding encode_safe_transactions encode_safe_transaction normalize_hex parse_uint256 trim_space
    trim_left is_space parse_int parse_unsigned parse_digits fill_bytes ◌>>=◌
two_transactions_encode = refl

multi_send-encode_safe_transactions_example : AskAll sample two_transactions (
    multi_send
      (length (sent_bytes (encode_safe_transactions sample two_transactions)))
      (sent_bytes (encode_safe_transactions sample two_transactions)))
multi_send-encode_safe_transactions_example =
    multi_send-encode_safe_transactions sample sample-IsEthereum two_transactions
      (sent_bytes (encode_safe_transactions sample two_transactions)) two_transactions_encode

abbrev nonce_answer : Text → NonceType → Option NonceResponse
nonce_answer owner kind = some (record { nonce_text = codes "3"; address = [] })

abbrev two_args : SafeArgs
two_args = record {
  sender = [];
  proxy_wallet = [];
  chain_id = pos 137;
  transactions = two_transactions;
  metadata = [];
}

abbrev no_request : SubmitTransactionRequest
no_request = record {
  sender = [];
  to = [];
  proxy_wallet = [];
  data_hex = [];
  nonce_text = [];
  signature = [];
  signature_params = none;
  kind = safe_nonce;
  deposit_wallet_params = none;
  metadata = [];
  value_text = [];
}

abbrev request_in : Result RelayerError SubmitTransactionRequest → SubmitTransactionRequest
request_in r = elim r [ ok q ↦ q | err e ↦ no_request ]

proxy_gas_limit_lem_example :
    (g : ℕ) × (proxy_gas_limit (pos 20) ≡ pos g)
    × (3000000 ≤ g)
    × (20 * 150000 + 500000 ≤ g)
    × (g + 480000 ≤ 20 * 150000 + 3450000)
proxy_gas_limit_lem_example = proxy_gas_limit_lem 20 (omega arith) (omega arith)
