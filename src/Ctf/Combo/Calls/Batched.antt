-- ===== src/Ctf/Combo/Calls/Batched.antt =====
-- The transactions of a combo as one transaction of a Safe wallet.
use polymarket_client.Base.{ℕ, ◌≡◌, ◌<◌, ◌^◌, some, List, [], ◌∷◌, length, map}
use polymarket_client.Base.Text.{Text, codes}
use polymarket_client.Eth.{Ethereum, abi_bytes}
use polymarket_client.Relayer.{SubmitTransactionRequest}
use polymarket_client.Relayer.MultiSend.{Call, multi_send}
use polymarket_client.Relayer.Signed.{Signs}
use polymarket_client.Ctf.{CtfTransaction}
use polymarket_client.Ctf.Relay.{Submitter, Services}

-- The call that a transaction asks for.
abbrev pub call_for : CtfTransaction → Call
call_for tx = record { operation = 0; target = tx.to; amount = 0; content = tx.content }

-- A transaction with an address, and data whose bytes an `int` counts.
abbrev pub Fits : CtfTransaction → Type 0
Fits tx = (tx.to < 2 ^ 160) × (length tx.content < 2 ^ 63)

abbrev multi_send_contract : ℕ
multi_send_contract = 0xA238CBeb142c10Ef7Ad8442C6D1f9E89e07e7761

module _ (eth : Ethereum) (services : Services) (client : Submitter) where
  open eth use {is_hex_address, hex_to_address, address_hex, decode_hex, encode_hex, pack}

  -- What is sent for transactions, and what its signature is of.
  pub record SendsAll (txs : List CtfTransaction) (r : SubmitTransactionRequest) : Type 0 where
    pub encoded : List ℕ
    pub payload : List ℕ
    pub calls : multi_send (length encoded) encoded ≡ map call_for txs
    pub packed : pack (abi_bytes encoded ∷ []) ≡ some payload
    pub same_data : r.data_hex ≡ encode_hex (0x8d ∷ 0x80 ∷ 0xff ∷ 0x0a ∷ payload)
    pub target : r.to ≡ address_hex multi_send_contract
    pub no_value : r.value_text ≡ codes "0"
    pub signer : ℕ
    pub given_key : client.key ≡ some signer
    pub signed : Signs eth signer client.chain 1 r
