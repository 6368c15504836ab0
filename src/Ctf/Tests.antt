-- ===== src/Ctf/Tests.antt =====
-- Transactions of the conditional tokens at concrete inputs, with an instance of the parameters.
use polymarket_client.Base.{ℕ, ◌≡◌, refl, true, Option, none, some, [], ◌∷◌}
use polymarket_client.Base.Int.{pos}
use polymarket_client.Base.Result.{Result, ok, err, ◌>>=◌}
use polymarket_client.Base.Text.{Text, codes, trim_space, trim_left, is_space}
use polymarket_client.Clob.Number.{parse_int, parse_unsigned, parse_digits, print_nat, print_loop}
use polymarket_client.Eth.Bytes.{fill_bytes, set_bytes}
use polymarket_client.Eth.Sample.{sample, sample-IsEthereum}
use polymarket_client.Relayer.{safe_nonce, SubmitTransactionRequest}
use polymarket_client.Ctf.{
  CtfError, CtfTransaction, positions_binary, contract_config, build_split_position_tx,
}
use polymarket_client.Ctf.Batch.{
  BatchArgs, BatchData, NonceSource, answers, parse_uint256_big, normalize_call, normalize_calls,
  normalize_deposit_wallet_batch_calls, call_message, call_messages,
  build_deposit_wallet_batch_typed_data, deposit_wallet_factory_address,
  fetch_deposit_wallet_batch_nonce, sign_batch, deposit_wallet_batch_relayer_request,
}
use polymarket_client.Ctf.Batch.Signed.{SignsBatch, deposit_wallet_batch_relayer_request_lem}
use polymarket_client.Ctf.Relay.{Services, Submitter, CtfRelayerArgs, relayed}

abbrev no_request : SubmitTransactionRequest
no_request = record {
  sender = [];
  to = [];
  proxy_wallet = [];
  data_hex = [];
  nonce_text = [];
  signature = [];
  signature_params = none;
  kind = safe_nonce;
  deposit_wallet_params = none;
  metadata = [];
  value_text = [];
}

abbrev request_in : Result CtfError SubmitTransactionRequest → SubmitTransactionRequest
request_in r = elim r [ ok q ↦ q | err e ↦ no_request ]

-- A batch whose nonce the relayer gives.
abbrev typed_signature : ℕ → BatchData → Option Text
typed_signature signer data_of = some (sample.address_hex signer)

abbrev ninth_nonce : Text → NonceSource
ninth_nonce owner = answers (codes " 9")

abbrev one_call : BatchArgs
one_call = record {
  sender = [];
  factory = [];
  wallet = sample.address_hex 12;
  nonce_text = [];
  deadline_text = codes "2000";
  calls =
      record {
        target = sample.address_hex 7;
        value_text = [];
        data_hex = sample.encode_hex (9 ∷ 94 ∷ []);
      }
      ∷ [];
  metadata = [];
}

abbrev one_request : SubmitTransactionRequest
one_request = request_in (
    deposit_wallet_batch_relayer_request sample typed_signature ninth_nonce (some 5) (pos 137)
      (some one_call) true)

one_call_signed :
    deposit_wallet_batch_relayer_request sample typed_signature ninth_nonce
      (some 5)
      (pos 137)
      (some one_call)
      true
    ≡ ok one_request
unfolding deposit_wallet_batch_relayer_request sign_batch fetch_deposit_wallet_batch_nonce
    deposit_wallet_factory_address build_deposit_wallet_batch_typed_data call_messages call_message
    normalize_deposit_wallet_batch_calls normalize_calls normalize_call parse_uint256_big
    contract_config trim_space trim_left is_space parse_int parse_unsigned parse_digits print_nat
    print_loop fill_bytes set_bytes ◌>>=◌
one_call_signed = refl

deposit_wallet_batch_relayer_request_lem_example :
    SignsBatch sample typed_signature ninth_nonce (some 5) (pos 137) one_request
deposit_wallet_batch_relayer_request_lem_example =
    deposit_wallet_batch_relayer_request_lem sample typed_signature ninth_nonce sample-IsEthereum
      (some 5) (pos 137) (some one_call) true one_request one_call_signed

-- A split of a position by a Safe wallet.
abbrev services : Services
services = record {
  text_hash = λ l. fill_bytes 32 (set_bytes l 0);
  relay_payload = λ owner kind. some (record { nonce_text = codes "3"; address = [] });
  submit = λ r. some (codes "accepted");
  sign_typed = typed_signature;
  nonces = ninth_nonce;
}

abbrev submitter : Submitter
submitter = record { key = some 5; chain = pos 137; has_relayer = true }

abbrev safe_args : CtfRelayerArgs
safe_args = record {
  kind = safe_nonce;
  sender = [];
  proxy_wallet = [];
  metadata = [];
  gas_limit_text = [];
}

abbrev split : Result CtfError CtfTransaction
split =
    build_split_position_tx sample (pos 137) (some (positions_binary 0 77 (some (pos 1000)))) true

abbrev split_request : SubmitTransactionRequest
split_request = elim (relayed sample services submitter split (some safe_args)) [
  | ok q ↦ q.0
  | err e ↦ no_request
]
