-- ===== src/Ctf/Batch/Signed.antt =====
-- What the signature of a batch is of.
use polymarket_client.Base.{
  ℕ, ◌≡◌, refl, sym, ap, subst, ◌∙◌, Bool, not, Option, some, List, if◌then◌else◌, is_empty,
}
use polymarket_client.Base.Int.{ℤ, is_not_positive}
use polymarket_client.Base.Result.{ok, err_if, ok_or, >>=-eq-ok, ok_or-eq-ok, ok_injective}
use polymarket_client.Base.Text.{Text, trim_space}
use polymarket_client.Clob.Number.{print_nat}
use polymarket_client.Eth.{Ethereum, IsEthereum}
use polymarket_client.Relayer.{DepositWalletCall, DepositWalletParams, SubmitTransactionRequest}
use polymarket_client.Ctf.{
  missing_wallet, nonce, deadline, no_chain_id, invalid_wallet, no_calls, signing_failed,
  nil_output, no_signer, nil_args,
}
use polymarket_client.Ctf.Batch.{
  BatchArgs, NonceSource, BatchData, parse_uint256_big, normalize_deposit_wallet_batch_calls,
  call_messages, build_deposit_wallet_batch_typed_data, deposit_wallet_factory_address, sender_of,
  wallet_of, fetch_deposit_wallet_batch_nonce, sign_batch, deposit_wallet_batch_relayer_request,
}
use polymarket_client.Ctf.Batch.SameData.{
  AllNormal, normalize_calls-AllNormal, normalize_calls-normal, SameCalls, same_calls,
}

module _ (eth : Ethereum) where
  open eth use {is_hex_address, hex_to_address, address_hex}

  -- The typed data has what a request sends.
  pub record SameData (chain : ℤ) (t : BatchData) (nonce_text : Text) (p : DepositWalletParams)
      : Type 0 where
    pub same_chain : t.chain ≡ chain
    pub same_wallet : t.wallet ≡ p.deposit_wallet
    pub number : ℕ
    pub reads_nonce : parse_uint256_big nonce nonce_text ≡ ok number
    pub prints_nonce : t.nonce_text ≡ print_nat number
    pub time : ℕ
    pub reads_deadline : parse_uint256_big deadline p.deadline ≡ ok time
    pub prints_deadline : t.deadline_text ≡ print_nat time
    pub same_calls : SameCalls eth t.calls p.calls

  abbrev params_with : Text → Text → List DepositWalletCall → DepositWalletParams
  params_with w d cs = record { deposit_wallet = w; deadline = d; calls = cs }

  typed_data-SameData :
      IsEthereum eth
      → (chain : ℤ) (wallet nonce_text deadline_text : Text) (calls : List DepositWalletCall)
        (t : BatchData)
      → address_hex (hex_to_address wallet) ≡ wallet
      → AllNormal eth calls
      → build_deposit_wallet_batch_typed_data eth chain wallet nonce_text deadline_text calls ≡ ok t
      → SameData chain t nonce_text (params_with wallet deadline_text calls)
  unfolding build_deposit_wallet_batch_typed_data normalize_deposit_wallet_batch_calls
  typed_data-SameData v chain wallet nonce_text deadline_text calls t w n h =
      let (u0, e0, h0) = >>=-eq-ok (err_if (is_not_positive chain) no_chain_id) _ h in
      let (u1, e1, h1) = >>=-eq-ok (err_if (not (is_hex_address wallet)) invalid_wallet) _ h0 in
      let (number, e2, h2) = >>=-eq-ok (parse_uint256_big nonce nonce_text) _ h1 in
      let (time, e3, h3) = >>=-eq-ok (parse_uint256_big deadline deadline_text) _ h2 in
      let (normalized, e4, h4) = >>=-eq-ok (normalize_deposit_wallet_batch_calls eth calls) _ h3 in
      let (messages, e5, h5) = >>=-eq-ok (call_messages eth normalized) _ h4 in
      let (u6, e6, h6) = >>=-eq-ok (err_if (is_empty calls) no_calls) _ e4 in
      let same : calls ≡ normalized =
        ok_injective (sym (normalize_calls-normal eth v calls n) ∙ h6) in
      let sent = same_calls eth v calls messages n (ap (call_messages eth) same ∙ e5) in
      subst (λ d. SameData chain d nonce_text (params_with wallet deadline_text calls))
        (ok_injective h5)
        (record {
          same_chain = refl;
          same_wallet = w;
          number = number;
          reads_nonce = e2;
          prints_nonce = refl;
          time = time;
          reads_deadline = e3;
          prints_deadline = refl;
          same_calls = sent;
        })

  module _ (sign_typed : ℕ → BatchData → Option Text) (nonces : Text → NonceSource) where
    -- The signature of a request is the signer's, of typed data that has what the request sends.
    pub record SignsBatch (key : Option ℕ) (chain : ℤ) (r : SubmitTransactionRequest) : Type 0 where
      pub signer : ℕ
      pub given_key : key ≡ some signer
      pub typed : BatchData
      pub params : DepositWalletParams
      pub given_params : r.deposit_wallet_params ≡ some params
      pub signs : sign_typed signer typed ≡ some r.signature
      pub same_data : SameData chain typed r.nonce_text params

    sign_batch-SignsBatch :
        IsEthereum eth
        → (key : Option ℕ) (signer : ℕ) (chain : ℤ) (args : BatchArgs) (sender : Text) (factory : ℕ)
          (wallet : Text) (calls : List DepositWalletCall) (nonce_text : Text)
          (r : SubmitTransactionRequest)
        → key ≡ some signer
        → address_hex (hex_to_address wallet) ≡ wallet
        → AllNormal eth calls
        → sign_batch eth sign_typed nonces signer chain args sender factory wallet calls nonce_text
          ≡ ok r
        → SignsBatch key chain r
    unfolding sign_batch
    sign_batch-SignsBatch v key signer chain args sender factory wallet calls nonce_text r k w n h =
        let (number, e0, h0) = >>=-eq-ok (parse_uint256_big nonce nonce_text) _ h in
        let (t, e1, h1) =
          >>=-eq-ok
            (build_deposit_wallet_batch_typed_data eth chain wallet nonce_text
              (trim_space args.deadline_text) calls)
            _ h0 in
        let (signature, e2, h2) = >>=-eq-ok (ok_or signing_failed (sign_typed signer t)) _ h1 in
        subst (SignsBatch key chain) (ok_injective h2) (record {
          signer = signer;
          given_key = k;
          typed = t;
          params = params_with wallet (trim_space args.deadline_text) calls;
          given_params = refl;
          signs = ok_or-eq-ok signing_failed (sign_typed signer t) e2;
          same_data =
              typed_data-SameData v chain wallet nonce_text (trim_space args.deadline_text) calls t
                w n e1;
        })

    wallet_of-normal :
        IsEthereum eth
        → (given wallet : Text) → wallet_of eth given ≡ ok wallet
        → address_hex (hex_to_address wallet) ≡ wallet
    wallet_of-normal v given wallet h =
        let (u0, e0, h0) = >>=-eq-ok (err_if (is_empty (trim_space given)) missing_wallet) _ h in
        let (u1, e1, h1) =
          >>=-eq-ok (err_if (not (is_hex_address (trim_space given))) invalid_wallet) _ h0 in
        subst (λ t. address_hex (hex_to_address t) ≡ t) (ok_injective h1)
          (ap address_hex
            (v.reads_back (hex_to_address (trim_space given)) (v.addresses_fit (trim_space given))))

    normalized-AllNormal :
        IsEthereum eth
        → (cs ds : List DepositWalletCall) → normalize_deposit_wallet_batch_calls eth cs ≡ ok ds
        → AllNormal eth ds
    unfolding normalize_deposit_wallet_batch_calls
    normalized-AllNormal v cs ds h =
        let (u, e, h0) = >>=-eq-ok (err_if (is_empty cs) no_calls) _ h in
        normalize_calls-AllNormal eth v cs ds h0

    -- A request that `DepositWalletBatchRelayerRequest` returns is signed by the signer over typed
    -- data of its chain that has just what the request sends: the same wallet, the same calls with
    -- the same targets and data, and the numbers that its values, its nonce and its deadline read as.
    pub deposit_wallet_batch_relayer_request_lem :
        IsEthereum eth
        → (key : Option ℕ) (chain : ℤ) (given : Option BatchArgs) (out : Bool)
          (r : SubmitTransactionRequest)
        → deposit_wallet_batch_relayer_request eth sign_typed nonces key chain given out ≡ ok r
        → SignsBatch key chain r
    unfolding deposit_wallet_batch_relayer_request
    deposit_wallet_batch_relayer_request_lem v key chain given out r h =
        let (u0, e0, h0) = >>=-eq-ok (err_if (not out) nil_output) _ h in
        let (signer, e1, h1) = >>=-eq-ok (ok_or no_signer key) _ h0 in
        let (u2, e2, h2) = >>=-eq-ok (err_if (is_not_positive chain) no_chain_id) _ h1 in
        let (args, e3, h3) = >>=-eq-ok (ok_or nil_args given) _ h2 in
        let (sender, e4, h4) = >>=-eq-ok (sender_of eth signer args.sender) _ h3 in
        let (factory, e5, h5) =
          >>=-eq-ok (deposit_wallet_factory_address eth chain args.factory) _ h4 in
        let (wallet, e6, h6) = >>=-eq-ok (wallet_of eth args.wallet) _ h5 in
        let (time, e7, h7) =
          >>=-eq-ok (parse_uint256_big deadline (trim_space args.deadline_text)) _ h6 in
        let (calls, e8, h8) =
          >>=-eq-ok (normalize_deposit_wallet_batch_calls eth args.calls) _ h7 in
        let (nonce_text, e9, h9) =
          >>=-eq-ok
            (if is_empty (trim_space args.nonce_text)
              then fetch_deposit_wallet_batch_nonce eth (nonces sender)
              else ok (trim_space args.nonce_text))
            _ h8 in
        sign_batch-SignsBatch v key signer chain args sender factory wallet calls nonce_text r
          (ok_or-eq-ok no_signer key e1) (wallet_of-normal v args.wallet wallet e6)
          (normalized-AllNormal v args.calls calls e8) h9
