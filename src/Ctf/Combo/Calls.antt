-- ===== src/Ctf/Combo/Calls.antt =====
-- clob/combo_positions.go and clob/combo_relayer_ops.go: the operations on combos, for an account, a
-- deposit wallet or a wallet of the relayer.
pub mod Batched
use polymarket_client.Base.{
  ℕ, suc, Bool, true, not, ◌||◌, Option, none, some, List, [], ◌∷◌, if◌then◌else◌, is_empty, map,
}
use polymarket_client.Base.Result.{Result, ok, err, ◌>>=◌, ◌>>◌, err_if, ok_or}
use polymarket_client.Base.Text.{Text}
use polymarket_client.Eth.{Ethereum}
use polymarket_client.Relayer.{SubmitTransactionRequest}
use polymarket_client.Ctf.{
  CtfError, nil_output, nil_args, no_signer, no_relayer, no_combo_transactions, invalid_from,
  invalid_proxy_wallet, invalid_wallet, not_sent, CtfTransaction,
}
use polymarket_client.Ctf.Batch.{BatchArgs, call_of_tx}
use polymarket_client.Ctf.Relay.{
  CtfRelayerArgs, args_or_empty, Submitter, Services, safe_transaction_of, proxy_transaction_of,
  signed_by_kind, relayer_sender, submit_relayer_transaction,
}
use polymarket_client.Ctf.Sent.{Receipt, Node, send_ctf_tx_and_wait}
use polymarket_client.Ctf.Relay.DepositWallet.{deposit_wallet_batch}
use polymarket_client.Ctf.Combo.{
  ComboRequest, ComboRedeemRequest, signer_address, build_combo_split_position_txs,
  build_combo_merge_positions_txs, build_combo_redeem_position_tx, resolve_combo_merge_amount,
  resolve_combo_redeem_amount,
}

module _ (eth : Ethereum) (services : Services) (client : Submitter) where
  open eth use {is_hex_address, hex_to_address}

  -- A receipt in front of those of the later transactions.
  abbrev pub then_sent :
      ℕ → Result CtfError Receipt → List Receipt × Option CtfError → List Receipt × Option CtfError
  then_sent i (err e) rest = ([], some (not_sent i e))
  then_sent i (ok r) rest = (r ∷ rest.0, rest.1)

  -- The loop over the transactions, from an index on; the node may answer each in another way.
  unfoldable pub send_from :
      (ℕ → Option Node) → ℕ → List CtfTransaction → List Receipt × Option CtfError
  unfolding send_ctf_tx_and_wait
  send_from nodes i [] = ([], none)
  send_from nodes i (tx ∷ txs) =
      then_sent i (send_ctf_tx_and_wait client (nodes i) tx) (send_from nodes (suc i) txs)

  -- `sendComboTransactions`, with the receipts that it leaves.
  unfoldable pub send_combo_transactions :
      (ℕ → Option Node) → List CtfTransaction → Bool → List Receipt × Option CtfError
  unfolding send_from
  send_combo_transactions nodes txs out =
      if out then send_from nodes 0 txs else ([], some nil_output)

  abbrev pub sent_if_built :
      (ℕ → Option Node)
      → Result CtfError (List CtfTransaction)
      → Bool
      → List Receipt × Option CtfError
  sent_if_built nodes (err e) out = ([], some e)
  sent_if_built nodes (ok txs) out = send_combo_transactions nodes txs out

  unfoldable pub combo_split_position :
      (ℕ → Option Node) → Option ComboRequest → Bool → List Receipt × Option CtfError
  unfolding build_combo_split_position_txs send_combo_transactions
  combo_split_position nodes req out =
      sent_if_built nodes (build_combo_split_position_txs eth client.chain req true) out

  -- The transactions of a merge, or of a redemption, for the owner of the positions.
  unfoldable pub merge_txs :
      Option (ℕ → List ℕ → Option (List ℕ))
      → Option ComboRequest
      → ℕ
      → Result CtfError (List CtfTransaction)
  unfolding resolve_combo_merge_amount build_combo_merge_positions_txs
  merge_txs call req owner = do
    resolved ← resolve_combo_merge_amount eth client.chain call req owner
    build_combo_merge_positions_txs eth client.chain (some resolved) true

  unfoldable pub redeem_tx :
      Option (ℕ → List ℕ → Option (List ℕ))
      → Option ComboRedeemRequest
      → ℕ
      → Result CtfError CtfTransaction
  unfolding resolve_combo_redeem_amount build_combo_redeem_position_tx
  redeem_tx call req owner = do
    resolved ← resolve_combo_redeem_amount eth client.chain call req owner
    build_combo_redeem_position_tx eth client.chain (some resolved) true

  unfoldable pub combo_merge_positions :
      Option (ℕ → List ℕ → Option (List ℕ))
      → (ℕ → Option Node)
      → Option ComboRequest
      → Bool
      → List Receipt × Option CtfError
  unfolding merge_txs send_combo_transactions
  combo_merge_positions call nodes req out =
      sent_if_built nodes (merge_txs call req (signer_address client.key)) out

  unfoldable pub combo_redeem_position :
      Option (ℕ → List ℕ → Option (List ℕ))
      → Option Node
      → Option ComboRedeemRequest
      → Result CtfError Receipt
  unfolding redeem_tx send_ctf_tx_and_wait
  combo_redeem_position call node req = do
    tx ← redeem_tx call req (signer_address client.key)
    send_ctf_tx_and_wait client node tx

  -- `submitComboDepositWallet`; the calls of the arguments are not read.
  unfoldable pub submit_combo_deposit_wallet :
      List CtfTransaction → Option BatchArgs → Result CtfError (SubmitTransactionRequest × Text)
  unfolding deposit_wallet_batch
  submit_combo_deposit_wallet txs given = do
    args ← ok_or nil_args given
    deposit_wallet_batch eth services client (
        some (record args { calls = map (call_of_tx eth services.sign_typed services.nonces) txs }))

  -- The owner that the wallet of the arguments is.
  abbrev pub deposit_owner : Option BatchArgs → Result CtfError ℕ
  deposit_owner none = err invalid_wallet
  deposit_owner (some a) =
      if is_hex_address a.wallet then ok (hex_to_address a.wallet) else err invalid_wallet

  abbrev pub relayer_owner : Option CtfRelayerArgs → Result CtfError ℕ
  relayer_owner none = err invalid_proxy_wallet
  relayer_owner (some a) =
      if is_hex_address a.proxy_wallet
      then ok (hex_to_address a.proxy_wallet)
      else err invalid_proxy_wallet

  unfoldable pub combo_split_position_with_deposit_wallet :
      Option ComboRequest → Option BatchArgs → Result CtfError (SubmitTransactionRequest × Text)
  unfolding build_combo_split_position_txs submit_combo_deposit_wallet
  combo_split_position_with_deposit_wallet req args = do
    txs ← build_combo_split_position_txs eth client.chain req true
    submit_combo_deposit_wallet txs args

  unfoldable pub combo_merge_positions_with_deposit_wallet :
      Option (ℕ → List ℕ → Option (List ℕ))
      → Option ComboRequest
      → Option BatchArgs
      → Result CtfError (SubmitTransactionRequest × Text)
  unfolding merge_txs submit_combo_deposit_wallet
  combo_merge_positions_with_deposit_wallet call req args = do
    owner ← deposit_owner args
    txs ← merge_txs call req owner
    submit_combo_deposit_wallet txs args

  unfoldable pub combo_redeem_position_with_deposit_wallet :
      Option (ℕ → List ℕ → Option (List ℕ))
      → Option ComboRedeemRequest
      → Option BatchArgs
      → Result CtfError (SubmitTransactionRequest × Text)
  unfolding redeem_tx submit_combo_deposit_wallet
  combo_redeem_position_with_deposit_wallet call req args = do
    owner ← deposit_owner args
    tx ← redeem_tx call req owner
    submit_combo_deposit_wallet (tx ∷ []) args

  -- `submitComboRelayer`.
  unfoldable pub submit_combo_relayer :
      List CtfTransaction
      → Option CtfRelayerArgs
      → Result CtfError (SubmitTransactionRequest × Text)
  unfolding submit_relayer_transaction
  submit_combo_relayer txs given = do
    signer ← ok_or no_signer client.key
    err_if (not client.has_relayer) no_relayer
    let args = args_or_empty given
    err_if (is_empty txs) no_combo_transactions
    let sender = relayer_sender eth services client signer args.sender
    err_if (not (is_hex_address sender) || not (is_hex_address args.proxy_wallet)) invalid_from
    signed ←
        signed_by_kind eth services client args.kind
          (map (safe_transaction_of eth services client) txs)
          (map (proxy_transaction_of eth services client) txs) sender args
    submit_relayer_transaction eth services client signed

  unfoldable pub combo_split_position_relayer :
      Option ComboRequest
      → Option CtfRelayerArgs
      → Result CtfError (SubmitTransactionRequest × Text)
  unfolding build_combo_split_position_txs submit_combo_relayer
  combo_split_position_relayer req args = do
    txs ← build_combo_split_position_txs eth client.chain req true
    submit_combo_relayer txs args

  unfoldable pub combo_merge_positions_relayer :
      Option (ℕ → List ℕ → Option (List ℕ))
      → Option ComboRequest
      → Option CtfRelayerArgs
      → Result CtfError (SubmitTransactionRequest × Text)
  unfolding merge_txs submit_combo_relayer
  combo_merge_positions_relayer call req args = do
    owner ← relayer_owner args
    txs ← merge_txs call req owner
    submit_combo_relayer txs args

  unfoldable pub combo_redeem_position_relayer :
      Option (ℕ → List ℕ → Option (List ℕ))
      → Option ComboRedeemRequest
      → Option CtfRelayerArgs
      → Result CtfError (SubmitTransactionRequest × Text)
  unfolding redeem_tx submit_combo_relayer
  combo_redeem_position_relayer call req args = do
    owner ← relayer_owner args
    tx ← redeem_tx call req owner
    submit_combo_relayer (tx ∷ []) args
