-- ===== src/Ctf/Relay/Faithful.antt =====
-- What a transaction becomes on its way through the relayer for a Safe wallet.
use polymarket_client.Base.{ℕ, ◌≡◌, sym, ap, ◌∙◌, not, some, List}
use polymarket_client.Base.Result.{Result, ok, err_if, ok_or, >>=-eq-ok, ok_or-eq-ok, ok_injective}
use polymarket_client.Base.Text.{Text, codes}
use polymarket_client.Eth.{Ethereum, IsEthereum}
use polymarket_client.Relayer.{SafeTransaction, SubmitTransactionRequest, normalize_hex, prefixed}
use polymarket_client.Relayer.Signed.{Signs}
use polymarket_client.Ctf.{no_relayer, submission_failed, CtfTransaction}
use polymarket_client.Ctf.Relay.{Submitter, Services, submit_relayer_transaction}

module _ (eth : Ethereum) where
  open eth use {is_hex_address, hex_to_address, address_hex, decode_hex, encode_hex}

  pub normalize-encode : IsEthereum eth → (l : List ℕ) → normalize_hex (encode_hex l) ≡ encode_hex l
  unfolding normalize_hex
  normalize-encode v l =
      let (rest, e) = v.encoded_prefix l in ap prefixed (v.encoded_trimmed l ∙ e) ∙ sym e

  -- What is sent for a transaction, and what its signature is of.
  pub record Sends (client : Submitter) (tx : CtfTransaction) (r : SubmitTransactionRequest)
      : Type 0 where
    pub target : r.to ≡ address_hex tx.to
    pub reads : decode_hex r.data_hex ≡ some tx.content
    pub no_value : r.value_text ≡ codes "0"
    pub signer : ℕ
    pub given_key : client.key ≡ some signer
    pub signed : Signs eth signer client.chain 0 r

  abbrev single_of : CtfTransaction → SafeTransaction
  single_of tx = record {
    to = address_hex tx.to;
    operation = 0;
    data_hex = encode_hex tx.content;
    value_text = codes "0";
  }

module _ (eth : Ethereum) (services : Services) (client : Submitter) where
  open eth use {is_hex_address, hex_to_address, address_hex, decode_hex, encode_hex}

  pub submitted-same :
      (sent r : SubmitTransactionRequest) (answer : Text)
      → submit_relayer_transaction eth services client sent ≡ ok (r, answer)
      → (sent ≡ r) × (services.submit r ≡ some answer)
  unfolding submit_relayer_transaction
  submitted-same sent r answer h =
      let (u, e0, h0) = >>=-eq-ok (err_if (not client.has_relayer) no_relayer) _ h in
      let (t, e1, h1) = >>=-eq-ok (ok_or submission_failed (services.submit sent)) _ h0 in
      let both = ok_injective h1 in
      let same : sent ≡ r = ap (λ (x : SubmitTransactionRequest × Text). x.0) both in
      (
        same,
        ap services.submit (sym same)
            ∙ ok_or-eq-ok submission_failed (services.submit sent) e1
            ∙ ap (λ (x : SubmitTransactionRequest × Text). some (x.1)) both,
      )
