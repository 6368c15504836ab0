-- ===== src/Ctf/Relay.antt =====
-- clob/ctf.go and clob/relayer_ctf_ops.go: the transactions of the
-- conditional tokens, submitted by a relayer. The answer of a submission comes with the request that
-- was submitted.
pub mod Faithful
pub mod DepositWallet
use polymarket_client.Base.{
  ℕ, Bool, true, false, not, ◌||◌, Option, none, some, List, [], ◌∷◌, if◌then◌else◌, is_empty,
}
use polymarket_client.Base.Int.{ℤ}
use polymarket_client.Base.Result.{Result, ok, err, ◌>>=◌, ◌>>◌, err_if, ok_or, map_err}
use polymarket_client.Base.Text.{Text, codes, trim_space}
use polymarket_client.Eth.{Ethereum}
use polymarket_client.Relayer.{
  RelayerError, NonceType, proxy_nonce, safe_nonce, wallet_nonce, wallet_create_nonce, other_nonce,
  plain_call, SafeTransaction, ProxyTransaction, SignatureParams, SubmitTransactionRequest,
  NonceResponse, SafeArgs, ProxyArgs,
}
use polymarket_client.Relayer.Safe.{safe_submit_transaction_request}
use polymarket_client.Relayer.Proxy.{
  encode_proxy_transaction_data, proxy_submit_transaction_request,
}
use polymarket_client.Ctf.{
  CtfError, nil_request, nil_output, nil_transaction, no_signer, no_relayer, invalid_from,
  missing_proxy_wallet, invalid_proxy_wallet, wrong_relayer_type, invalid_relayer_type,
  submission_failed, relayer_failed, CtfTransaction, PositionsRequest, RedeemRequest,
  ConvertRequest, build_split_position_tx, build_merge_positions_tx, build_redeem_positions_tx,
  build_redeem_neg_risk_tx, build_convert_positions_tx,
}
use polymarket_client.Ctf.Batch.{
  BatchArgs, BatchData, NonceSource, deposit_wallet_batch_relayer_request,
  ctf_deposit_wallet_transaction_request,
}

-- `RelayerCTFRequest`.
pub record RelayerCtfRequest : Type 0 where
  pub to : Text
  pub sender : Text
  pub proxy_wallet : Text
  pub data_hex : Text
  pub nonce_text : Text
  pub signature : Text
  pub signature_params : Option SignatureParams
  pub kind : NonceType
  pub metadata : Text
  pub value_text : Text

-- `CTFRelayerArgs`.
pub record CtfRelayerArgs : Type 0 where
  pub kind : NonceType
  pub sender : Text
  pub proxy_wallet : Text
  pub metadata : Text
  pub gas_limit_text : Text

abbrev pub no_args : CtfRelayerArgs
no_args = record {
  kind = other_nonce [];
  sender = [];
  proxy_wallet = [];
  metadata = [];
  gas_limit_text = [];
}

abbrev pub args_or_empty : Option CtfRelayerArgs → CtfRelayerArgs
args_or_empty none = no_args
args_or_empty (some a) = a

-- The client, as far as the submissions go: its signer, its chain, and whether it has a relayer
-- client.
pub record Submitter : Type 0 where
  pub key : Option ℕ
  pub chain : ℤ
  pub has_relayer : Bool

-- The services: the nonces of the relayer, and the submission, none if it fails.
pub record Services : Type 0 where
  pub text_hash : List ℕ → List ℕ
  pub relay_payload : Text → NonceType → Option NonceResponse
  pub submit : SubmitTransactionRequest → Option Text
  pub sign_typed : ℕ → BatchData → Option Text
  pub nonces : Text → NonceSource

abbrev pub request_of : SubmitTransactionRequest → RelayerCtfRequest
request_of s = record {
  to = s.to;
  sender = s.sender;
  proxy_wallet = s.proxy_wallet;
  data_hex = s.data_hex;
  nonce_text = s.nonce_text;
  signature = s.signature;
  signature_params = s.signature_params;
  kind = s.kind;
  metadata = s.metadata;
  value_text = s.value_text;
}

module _ (eth : Ethereum) (services : Services) (client : Submitter) where
  open eth use {is_hex_address, hex_to_address, address_hex, decode_hex, encode_hex}

  abbrev pub safe_transaction_of : CtfTransaction → SafeTransaction
  safe_transaction_of tx = record {
    to = address_hex tx.to;
    operation = 0;
    data_hex = encode_hex tx.content;
    value_text = codes "0";
  }

  abbrev pub proxy_transaction_of : CtfTransaction → ProxyTransaction
  proxy_transaction_of tx = record {
    to = address_hex tx.to;
    type_code = plain_call;
    data_hex = encode_hex tx.content;
    value_text = codes "0";
  }

  abbrev pub safe_args_of : List SafeTransaction → Text → CtfRelayerArgs → SafeArgs
  safe_args_of txs sender args = record {
    sender = sender;
    proxy_wallet = args.proxy_wallet;
    chain_id = client.chain;
    transactions = txs;
    metadata = args.metadata;
  }

  abbrev pub proxy_args_of : Text → Text → CtfRelayerArgs → ProxyArgs
  proxy_args_of content sender args = record {
    sender = sender;
    proxy_wallet = args.proxy_wallet;
    data_hex = content;
    metadata = args.metadata;
    gas_limit_text = args.gas_limit_text;
  }

  abbrev pub signed_safe :
      List SafeTransaction → Text → CtfRelayerArgs → Result CtfError SubmitTransactionRequest
  signed_safe txs sender args = map_err relayer_failed (
      safe_submit_transaction_request eth services.relay_payload client.key
        (safe_args_of txs sender args))

  abbrev pub signed_proxy :
      List ProxyTransaction → Text → CtfRelayerArgs → Result CtfError SubmitTransactionRequest
  signed_proxy txs sender args = do
    content ← map_err relayer_failed (encode_proxy_transaction_data eth txs)
    map_err relayer_failed (
        proxy_submit_transaction_request eth services.text_hash services.relay_payload client.key
          (proxy_args_of content sender args))

  -- The switch over the type of the wallet. The relayer client signs for both.
  abbrev pub signed_by_kind :
      NonceType
      → List SafeTransaction
      → List ProxyTransaction
      → Text
      → CtfRelayerArgs
      → Result CtfError SubmitTransactionRequest
  signed_by_kind safe_nonce ss ps sender args = signed_safe ss sender args
  signed_by_kind proxy_nonce ss ps sender args = signed_proxy ps sender args
  signed_by_kind wallet_nonce ss ps sender args = err wrong_relayer_type
  signed_by_kind wallet_create_nonce ss ps sender args = err wrong_relayer_type
  signed_by_kind (other_nonce t) ss ps sender args = err invalid_relayer_type

  abbrev pub relayer_sender : ℕ → Text → Text
  relayer_sender signer given =
      if is_empty (trim_space given) then address_hex signer else trim_space given

  -- The request of a transaction, after the checks of the pointers.
  unfoldable pub relayer_request_of :
      CtfTransaction → CtfRelayerArgs → Result CtfError RelayerCtfRequest
  relayer_request_of tx args = do
    signer ← ok_or no_signer client.key
    err_if (not client.has_relayer) no_relayer
    let sender = relayer_sender signer args.sender
    err_if (not (is_hex_address sender)) invalid_from
    signed ←
        signed_by_kind args.kind (safe_transaction_of tx ∷ []) (proxy_transaction_of tx ∷ []) sender
          args
    ok (request_of signed)

  -- `BuildCTFRelayerRequest`.
  unfoldable pub build_ctf_relayer_request :
      Option CtfTransaction → Option CtfRelayerArgs → Bool → Result CtfError RelayerCtfRequest
  unfolding relayer_request_of
  build_ctf_relayer_request given req out = do
    tx ← ok_or nil_transaction given
    err_if (not out) nil_output
    relayer_request_of tx (args_or_empty req)

  -- `SubmitRelayerTransaction`, with the request that it submits.
  unfoldable pub submit_relayer_transaction :
      SubmitTransactionRequest → Result CtfError (SubmitTransactionRequest × Text)
  submit_relayer_transaction r = do
    err_if (not client.has_relayer) no_relayer
    answer ← ok_or submission_failed (services.submit r)
    ok (r, answer)

  abbrev pub submitted_request : CtfTransaction → RelayerCtfRequest → SubmitTransactionRequest
  submitted_request tx r = record {
    sender = r.sender;
    to = if is_empty (trim_space r.to) then address_hex tx.to else trim_space r.to;
    proxy_wallet = r.proxy_wallet;
    data_hex =
        if is_empty (trim_space r.data_hex) then encode_hex tx.content else trim_space r.data_hex;
    nonce_text = r.nonce_text;
    signature = r.signature;
    signature_params = r.signature_params;
    kind = r.kind;
    deposit_wallet_params = none;
    metadata = r.metadata;
    value_text = r.value_text;
  }

  -- `SubmitCTFRelayerTransaction`.
  unfoldable pub submit_ctf_relayer_transaction :
      Option CtfTransaction
      → Option RelayerCtfRequest
      → Result CtfError (SubmitTransactionRequest × Text)
  unfolding submit_relayer_transaction
  submit_ctf_relayer_transaction given req = do
    tx ← ok_or nil_transaction given
    r ← ok_or nil_request req
    err_if (is_empty (trim_space r.proxy_wallet)) missing_proxy_wallet
    err_if (not (is_hex_address r.proxy_wallet)) invalid_proxy_wallet
    submit_relayer_transaction (submitted_request tx r)

  -- The three steps that the operations of a relayer share.
  unfoldable pub relayed :
      Result CtfError CtfTransaction
      → Option CtfRelayerArgs
      → Result CtfError (SubmitTransactionRequest × Text)
  unfolding build_ctf_relayer_request submit_ctf_relayer_transaction
  relayed built args = do
    tx ← built
    r ← build_ctf_relayer_request (some tx) args true
    submit_ctf_relayer_transaction (some tx) (some r)

  unfoldable pub split_position_relayer :
      Option PositionsRequest
      → Option CtfRelayerArgs
      → Result CtfError (SubmitTransactionRequest × Text)
  unfolding relayed build_split_position_tx
  split_position_relayer req args = relayed (build_split_position_tx eth client.chain req true) args

  unfoldable pub merge_positions_relayer :
      Option PositionsRequest
      → Option CtfRelayerArgs
      → Result CtfError (SubmitTransactionRequest × Text)
  unfolding relayed build_merge_positions_tx
  merge_positions_relayer req args =
      relayed (build_merge_positions_tx eth client.chain req true) args

  unfoldable pub redeem_positions_relayer :
      Option RedeemRequest
      → Option CtfRelayerArgs
      → Result CtfError (SubmitTransactionRequest × Text)
  unfolding relayed build_redeem_positions_tx
  redeem_positions_relayer req args =
      relayed (build_redeem_positions_tx eth client.chain req true) args

  unfoldable pub redeem_neg_risk_relayer :
      Option ℕ → Option CtfRelayerArgs → Result CtfError (SubmitTransactionRequest × Text)
  unfolding relayed build_redeem_neg_risk_tx
  redeem_neg_risk_relayer req args =
      relayed (build_redeem_neg_risk_tx eth client.chain req true) args

  unfoldable pub convert_positions_relayer :
      Option ConvertRequest
      → Option CtfRelayerArgs
      → Result CtfError (SubmitTransactionRequest × Text)
  unfolding relayed build_convert_positions_tx
  convert_positions_relayer req args =
      relayed (build_convert_positions_tx eth client.chain req true) args
