-- ===== src/Ctf/Sent.antt =====
-- clob/ctf.go: the transactions of the conditional tokens that an account sends to a node itself.
use polymarket_client.Base.{ℕ, ◌+◌, ◌*◌, Bool, true, not, Option, List}
use polymarket_client.Base.Int.{ℤ}
use polymarket_client.Base.Result.{Result, ok, ◌>>=◌, ◌>>◌, err_if, ok_or}
use polymarket_client.Base.Text.{Text}
use polymarket_client.Eth.{Ethereum}
use polymarket_client.Ctf.{
  CtfError, no_signer, no_rpc, node_failed, reverted, CtfTransaction, PositionsRequest,
  RedeemRequest, ConvertRequest, build_split_position_tx, build_merge_positions_tx,
  build_redeem_positions_tx, build_redeem_neg_risk_tx, build_convert_positions_tx,
}
use polymarket_client.Ctf.Relay.{Submitter}

pub record Receipt : Type 0 where
  pub failed : Bool
  pub hash : Text
  pub block : ℕ

-- A transaction with its fees; its value is 0.
pub record FeeTransaction : Type 0 where
  pub chain : ℤ
  pub nonce : ℕ
  pub fee_cap : ℕ
  pub tip_cap : ℕ
  pub gas : ℕ
  pub to : ℕ
  pub content : List ℕ

-- What a node answers while one transaction is sent: the nonce of an account, the tip and the fee of
-- the latest block, the gas that a call needs, whether it takes a signed transaction in, and the
-- receipt that the wait ends with, if any.
pub record Node : Type 0 where
  pub dials : Bool
  pub pending_nonce : ℕ → Option ℕ
  pub tip : Option ℕ
  pub base_fee : Option ℕ
  pub estimate : ℕ → CtfTransaction → ℕ → ℕ → Option ℕ
  pub sign_tx : ℕ → FeeTransaction → Option Text
  pub takes : Text → Bool
  pub receipt : Text → Option Receipt

module _ (client : Submitter) where
  -- The signature, the sending and the wait.
  unfoldable pub send_signed : Node → ℕ → FeeTransaction → Result CtfError Receipt
  send_signed node signer tx = do
    signed ← ok_or node_failed (node.sign_tx signer tx)
    err_if (not (node.takes signed)) node_failed
    receipt ← ok_or node_failed (node.receipt signed)
    err_if receipt.failed reverted
    ok receipt

  -- `sendCTFTxAndWait`.
  unfoldable pub send_ctf_tx_and_wait : Option Node → CtfTransaction → Result CtfError Receipt
  unfolding send_signed
  send_ctf_tx_and_wait url tx = do
    signer ← ok_or no_signer client.key
    node ← ok_or no_rpc url
    err_if (not node.dials) node_failed
    number ← ok_or node_failed (node.pending_nonce signer)
    tip ← ok_or node_failed node.tip
    fee ← ok_or node_failed node.base_fee
    gas ← ok_or node_failed (node.estimate signer tx (tip + fee * 2) tip)
    send_signed node signer (record {
      chain = client.chain;
      nonce = number;
      fee_cap = tip + fee * 2;
      tip_cap = tip;
      gas = gas;
      to = tx.to;
      content = tx.content;
    })

  unfoldable pub split_position :
      Ethereum → Option Node → Option PositionsRequest → Result CtfError Receipt
  unfolding send_ctf_tx_and_wait build_split_position_tx
  split_position eth url req = do
    tx ← build_split_position_tx eth client.chain req true
    send_ctf_tx_and_wait url tx

  unfoldable pub merge_positions :
      Ethereum → Option Node → Option PositionsRequest → Result CtfError Receipt
  unfolding send_ctf_tx_and_wait build_merge_positions_tx
  merge_positions eth url req = do
    tx ← build_merge_positions_tx eth client.chain req true
    send_ctf_tx_and_wait url tx

  unfoldable pub redeem_positions :
      Ethereum → Option Node → Option RedeemRequest → Result CtfError Receipt
  unfolding send_ctf_tx_and_wait build_redeem_positions_tx
  redeem_positions eth url req = do
    tx ← build_redeem_positions_tx eth client.chain req true
    send_ctf_tx_and_wait url tx

  unfoldable pub redeem_neg_risk : Ethereum → Option Node → Option ℕ → Result CtfError Receipt
  unfolding send_ctf_tx_and_wait build_redeem_neg_risk_tx
  redeem_neg_risk eth url req = do
    tx ← build_redeem_neg_risk_tx eth client.chain req true
    send_ctf_tx_and_wait url tx

  unfoldable pub convert_positions :
      Ethereum → Option Node → Option ConvertRequest → Result CtfError Receipt
  unfolding send_ctf_tx_and_wait build_convert_positions_tx
  convert_positions eth url req = do
    tx ← build_convert_positions_tx eth client.chain req true
    send_ctf_tx_and_wait url tx
