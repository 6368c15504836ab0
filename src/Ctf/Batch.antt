-- ===== src/Ctf/Batch.antt =====
-- clob/deposit_wallet_batch.go and clob/deposit_wallet_ctf.go: signed batches of a deposit wallet.
pub mod SameData
pub mod Signed
use polymarket_client.Base.{
  ℕ, suc, ◌^◌, Bool, true, false, not, ◌||◌, Option, none, some, List, [], ◌∷◌, nat_eq, ltb,
  if◌then◌else◌, is_empty,
}
use polymarket_client.Base.Int.{ℤ, pos, negsuc, is_not_positive}
use polymarket_client.Base.Result.{Result, ok, err, ◌>>=◌, ◌>>◌, err_if, ok_or}
use polymarket_client.Base.Text.{Text, codes, trim_space}
use polymarket_client.Clob.Number.{parse_int, print_nat}
use polymarket_client.Eth.{Ethereum}
use polymarket_client.Relayer.{
  NonceType, wallet_nonce, DepositWalletCall, DepositWalletParams, SubmitTransactionRequest,
}
use polymarket_client.Ctf.{
  Named, nonce, deadline, call_value, CtfError, nil_output, nil_transaction, nil_args, missing,
  not_a_number, overflow, no_factory, no_signer, no_chain_id, no_relayer, no_nonce_lookup,
  missing_target, missing_data, invalid_from, invalid_factory, missing_wallet, invalid_wallet,
  missing_call_target, invalid_call_target, undecodable_call, no_calls, nonce_failed, empty_nonce,
  signing_failed, CtfTransaction, contract_config,
}

pub record BatchArgs : Type 0 where
  pub sender : Text
  pub factory : Text
  pub wallet : Text
  pub nonce_text : Text
  pub deadline_text : Text
  pub calls : List DepositWalletCall
  pub metadata : Text

-- What the configured relayer client answers to the request of the nonce of an address.
pub data NonceSource : Type 0 where
  no_client no_lookup lookup_failed : NonceSource
  answers : Text → NonceSource

-- The typed data of a batch: its domain is the chain and the wallet.
pub record BatchData : Type 0 where
  pub chain : ℤ
  pub wallet : Text
  pub nonce_text : Text
  pub deadline_text : Text
  pub calls : List DepositWalletCall

abbrev pub in_uint256 : Named → Option ℤ → Result CtfError ℕ
in_uint256 name none = err (not_a_number name)
in_uint256 name (some (negsuc n)) = err (not_a_number name)
in_uint256 name (some (pos n)) = if ltb n (2 ^ 256) then ok n else err (overflow name)

unfoldable pub parse_uint256_big : Named → Text → Result CtfError ℕ
parse_uint256_big name v =
    if is_empty (trim_space v)
    then err (missing name)
    else in_uint256 name (parse_int (trim_space v))

abbrev pub or_else : Text → Text → Text
or_else d v = if is_empty v then d else v

abbrev pub or_zero : Text → Text
or_zero v = or_else (codes "0") v

abbrev pub or_empty_hex : Text → Text
or_empty_hex v = or_else (codes "0x") v

module _ (eth : Ethereum) where
  open eth use {is_hex_address, hex_to_address, address_hex, decode_hex, encode_hex}

  unfoldable pub normalize_call : DepositWalletCall → Result CtfError DepositWalletCall
  unfolding parse_uint256_big
  normalize_call call = do
    err_if (is_empty (trim_space call.target)) missing_call_target
    err_if (not (is_hex_address (trim_space call.target))) invalid_call_target
    amount ← parse_uint256_big call_value (or_zero (trim_space call.value_text))
    content ← ok_or undecodable_call (decode_hex (or_empty_hex (trim_space call.data_hex)))
    ok (record {
      target = address_hex (hex_to_address (trim_space call.target));
      value_text = or_zero (trim_space call.value_text);
      data_hex = or_empty_hex (trim_space call.data_hex);
    })

  unfoldable pub normalize_calls : List DepositWalletCall → Result CtfError (List DepositWalletCall)
  unfolding normalize_call
  normalize_calls [] = ok []
  normalize_calls (call ∷ calls) = do
    first ← normalize_call call
    rest ← normalize_calls calls
    ok (first ∷ rest)

  -- `normalizeDepositWalletBatchCalls`.
  unfoldable pub normalize_deposit_wallet_batch_calls :
      List DepositWalletCall → Result CtfError (List DepositWalletCall)
  unfolding normalize_calls
  normalize_deposit_wallet_batch_calls calls = do
    err_if (is_empty calls) no_calls
    normalize_calls calls

  unfoldable pub call_message : DepositWalletCall → Result CtfError DepositWalletCall
  unfolding parse_uint256_big
  call_message call = do
    amount ← parse_uint256_big call_value call.value_text
    ok (record call {
      target = address_hex (hex_to_address call.target);
      value_text = print_nat amount;
    })

  unfoldable pub call_messages : List DepositWalletCall → Result CtfError (List DepositWalletCall)
  unfolding call_message
  call_messages [] = ok []
  call_messages (call ∷ calls) = do
    first ← call_message call
    rest ← call_messages calls
    ok (first ∷ rest)

  unfoldable pub build_deposit_wallet_batch_typed_data :
      ℤ → Text → Text → Text → List DepositWalletCall → Result CtfError BatchData
  unfolding parse_uint256_big normalize_deposit_wallet_batch_calls call_messages
  build_deposit_wallet_batch_typed_data chain wallet nonce_text deadline_text calls = do
    err_if (is_not_positive chain) no_chain_id
    err_if (not (is_hex_address wallet)) invalid_wallet
    number ← parse_uint256_big nonce nonce_text
    time ← parse_uint256_big deadline deadline_text
    normalized ← normalize_deposit_wallet_batch_calls calls
    messages ← call_messages normalized
    ok (record {
      chain = chain;
      wallet = address_hex (hex_to_address wallet);
      nonce_text = print_nat number;
      deadline_text = print_nat time;
      calls = messages;
    })

  abbrev pub known_factory : ℕ → Result CtfError ℕ
  known_factory a = if nat_eq a 0 then err no_factory else ok a

  -- The check reads the text untrimmed.
  unfoldable pub deposit_wallet_factory_address : ℤ → Text → Result CtfError ℕ
  unfolding contract_config
  deposit_wallet_factory_address chain given =
      if is_empty (trim_space given)
      then (do config ← contract_config chain; known_factory config.deposit_wallet_factory)
      else if is_hex_address given
      then ok (hex_to_address given)
      else err invalid_factory

  unfoldable pub fetch_deposit_wallet_batch_nonce : NonceSource → Result CtfError Text
  fetch_deposit_wallet_batch_nonce no_client = err no_relayer
  fetch_deposit_wallet_batch_nonce no_lookup = err no_nonce_lookup
  fetch_deposit_wallet_batch_nonce lookup_failed = err nonce_failed
  fetch_deposit_wallet_batch_nonce (answers n) =
      if is_empty (trim_space n) then err empty_nonce else ok (trim_space n)

  abbrev pub sender_of : ℕ → Text → Result CtfError Text
  sender_of signer given =
      let from_text =
        if is_empty (trim_space given) then address_hex signer else trim_space given in
      if is_hex_address from_text
      then ok (address_hex (hex_to_address from_text))
      else err invalid_from

  abbrev pub wallet_of : Text → Result CtfError Text
  wallet_of given = do
    err_if (is_empty (trim_space given)) missing_wallet
    err_if (not (is_hex_address (trim_space given))) invalid_wallet
    ok (address_hex (hex_to_address (trim_space given)))

  abbrev pub batch_request :
      BatchArgs → Text → ℕ → Text → List DepositWalletCall → Text → Text → SubmitTransactionRequest
  batch_request args sender factory wallet calls nonce_text signature = record {
    sender = sender;
    to = address_hex factory;
    proxy_wallet = [];
    data_hex = [];
    nonce_text = nonce_text;
    signature = signature;
    signature_params = none;
    kind = wallet_nonce;
    deposit_wallet_params = some (record {
      deposit_wallet = wallet;
      deadline = trim_space args.deadline_text;
      calls = calls;
    });
    metadata = args.metadata;
    value_text = [];
  }

  -- `sign_typed` stands for `polyauth.SignTypedData`.
  module _ (sign_typed : ℕ → BatchData → Option Text) (nonces : Text → NonceSource) where
    -- The part that hashes and signs.
    unfoldable pub sign_batch :
        ℕ
        → ℤ
        → BatchArgs
        → Text
        → ℕ
        → Text
        → List DepositWalletCall
        → Text
        → Result CtfError SubmitTransactionRequest
    unfolding parse_uint256_big build_deposit_wallet_batch_typed_data
    sign_batch signer chain args sender factory wallet calls nonce_text = do
      number ← parse_uint256_big nonce nonce_text
      typed ←
          build_deposit_wallet_batch_typed_data chain wallet nonce_text
            (trim_space args.deadline_text) calls
      signature ← ok_or signing_failed (sign_typed signer typed)
      ok (batch_request args sender factory wallet calls nonce_text signature)

    -- `DepositWalletBatchRelayerRequest`, with its signer, if any, its chain, its arguments, if
    -- any, and whether it is given an output.
    unfoldable pub deposit_wallet_batch_relayer_request :
        Option ℕ → ℤ → Option BatchArgs → Bool → Result CtfError SubmitTransactionRequest
    unfolding parse_uint256_big normalize_deposit_wallet_batch_calls deposit_wallet_factory_address
        fetch_deposit_wallet_batch_nonce sign_batch
    deposit_wallet_batch_relayer_request key chain given out = do
      err_if (not out) nil_output
      signer ← ok_or no_signer key
      err_if (is_not_positive chain) no_chain_id
      args ← ok_or nil_args given
      sender ← sender_of signer args.sender
      factory ← deposit_wallet_factory_address chain args.factory
      wallet ← wallet_of args.wallet
      time ← parse_uint256_big deadline (trim_space args.deadline_text)
      calls ← normalize_deposit_wallet_batch_calls args.calls
      nonce_text ←
          (if is_empty (trim_space args.nonce_text)
            then fetch_deposit_wallet_batch_nonce (nonces sender)
            else ok (trim_space args.nonce_text))
      sign_batch signer chain args sender factory wallet calls nonce_text

    abbrev pub call_of_tx : CtfTransaction → DepositWalletCall
    call_of_tx tx = record {
      target = address_hex tx.to;
      value_text = codes "0";
      data_hex = encode_hex tx.content;
    }

    -- `CTFDepositWalletTransactionRequest`; the calls of the arguments are not read.
    unfoldable pub ctf_deposit_wallet_transaction_request :
        Option ℕ
        → ℤ
        → Option CtfTransaction
        → Option BatchArgs
        → Bool
        → Result CtfError SubmitTransactionRequest
    unfolding deposit_wallet_batch_relayer_request
    ctf_deposit_wallet_transaction_request key chain given_tx given out = do
      tx ← ok_or nil_transaction given_tx
      err_if (nat_eq tx.to 0) missing_target
      err_if (is_empty tx.content) missing_data
      args ← ok_or nil_args given
      deposit_wallet_batch_relayer_request key chain
          (some (record args { calls = call_of_tx tx ∷ [] })) out
