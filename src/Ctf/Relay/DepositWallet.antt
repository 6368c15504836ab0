-- ===== src/Ctf/Relay/DepositWallet.antt =====
-- clob/deposit_wallet_ctf.go and clob/deposit_wallet_ctf_ops.go: the transactions of the conditional
-- tokens, submitted for a deposit wallet.
use polymarket_client.Base.{ℕ, true, Option, some}
use polymarket_client.Base.Result.{Result, ◌>>=◌}
use polymarket_client.Base.Text.{Text}
use polymarket_client.Eth.{Ethereum}
use polymarket_client.Relayer.{SubmitTransactionRequest}
use polymarket_client.Ctf.{
  CtfError, CtfTransaction, PositionsRequest, RedeemRequest, ConvertRequest,
  build_split_position_tx, build_merge_positions_tx, build_redeem_positions_tx,
  build_redeem_neg_risk_tx, build_convert_positions_tx,
}
use polymarket_client.Ctf.Batch.{
  BatchArgs, deposit_wallet_batch_relayer_request, ctf_deposit_wallet_transaction_request,
}
use polymarket_client.Ctf.Relay.{Submitter, Services, submit_relayer_transaction}

module _ (eth : Ethereum) (services : Services) (client : Submitter) where
  -- `SubmitCTFDepositWalletTransaction`, after a builder.
  unfoldable pub with_deposit_wallet :
      Result CtfError CtfTransaction
      → Option BatchArgs
      → Result CtfError (SubmitTransactionRequest × Text)
  unfolding ctf_deposit_wallet_transaction_request submit_relayer_transaction
  with_deposit_wallet built args = do
    tx ← built
    r ←
        ctf_deposit_wallet_transaction_request eth services.sign_typed services.nonces client.key
          client.chain (some tx) args true
    submit_relayer_transaction eth services client r

  -- `DepositWalletBatch`.
  unfoldable pub deposit_wallet_batch :
      Option BatchArgs → Result CtfError (SubmitTransactionRequest × Text)
  unfolding deposit_wallet_batch_relayer_request submit_relayer_transaction
  deposit_wallet_batch args = do
    r ←
        deposit_wallet_batch_relayer_request eth services.sign_typed services.nonces client.key
          client.chain args true
    submit_relayer_transaction eth services client r

  unfoldable pub split_position_with_deposit_wallet :
      Option PositionsRequest → Option BatchArgs → Result CtfError (SubmitTransactionRequest × Text)
  unfolding with_deposit_wallet build_split_position_tx
  split_position_with_deposit_wallet req args =
      with_deposit_wallet (build_split_position_tx eth client.chain req true) args

  unfoldable pub merge_positions_with_deposit_wallet :
      Option PositionsRequest → Option BatchArgs → Result CtfError (SubmitTransactionRequest × Text)
  unfolding with_deposit_wallet build_merge_positions_tx
  merge_positions_with_deposit_wallet req args =
      with_deposit_wallet (build_merge_positions_tx eth client.chain req true) args

  unfoldable pub redeem_positions_with_deposit_wallet :
      Option RedeemRequest → Option BatchArgs → Result CtfError (SubmitTransactionRequest × Text)
  unfolding with_deposit_wallet build_redeem_positions_tx
  redeem_positions_with_deposit_wallet req args =
      with_deposit_wallet (build_redeem_positions_tx eth client.chain req true) args

  unfoldable pub redeem_neg_risk_with_deposit_wallet :
      Option ℕ → Option BatchArgs → Result CtfError (SubmitTransactionRequest × Text)
  unfolding with_deposit_wallet build_redeem_neg_risk_tx
  redeem_neg_risk_with_deposit_wallet req args =
      with_deposit_wallet (build_redeem_neg_risk_tx eth client.chain req true) args

  unfoldable pub convert_positions_with_deposit_wallet :
      Option ConvertRequest → Option BatchArgs → Result CtfError (SubmitTransactionRequest × Text)
  unfolding with_deposit_wallet build_convert_positions_tx
  convert_positions_with_deposit_wallet req args =
      with_deposit_wallet (build_convert_positions_tx eth client.chain req true) args
