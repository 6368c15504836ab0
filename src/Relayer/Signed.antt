-- ===== src/Relayer/Signed.antt =====
-- What the signature of a request of a Safe wallet is of.
use polymarket_client.Base.{ℕ, ◌≡◌, refl, sym, ◌∙◌, some, List, [], ◌∷◌}
use polymarket_client.Base.Int.{ℤ}
use polymarket_client.Base.Result.{ok, ok_injective}
use polymarket_client.Base.Text.{Text, codes, trim_space, trim_left, is_space}
use polymarket_client.Clob.Number.{parse_int, parse_unsigned, parse_digits}
use polymarket_client.Eth.{Ethereum, AbiValue, abi_address, abi_uint256, abi_uint8, abi_bytes32}
use polymarket_client.Relayer.{
  Quantity, value, nonce, SafeArgs, SafeTransaction, SubmitTransactionRequest, normalize_hex,
  default_zero, parse_uint256,
}
use polymarket_client.Relayer.Safe.{
  zero_address, safe_type_hash, create_safe_typed_data_digest, pack_safe_signature,
  aggregate_safe_transactions,
}

module _ (eth : Ethereum) where
  open eth use {
    is_hex_address, hex_to_address, address_hex, decode_hex, encode_hex, keccak, pack, sign,
  }

  -- The arguments that a transaction's hash is taken of.
  abbrev pub hash_values : ℕ → ℕ → List ℕ → ℕ → ℕ → ℕ → ℕ → ℕ → List AbiValue
  hash_values target amount content operation number tx_gas base price =
      abi_bytes32 (safe_type_hash eth)
      ∷ abi_address target
      ∷ abi_uint256 amount
      ∷ abi_bytes32 (keccak content)
      ∷ abi_uint8 operation
      ∷ abi_uint256 tx_gas
      ∷ abi_uint256 base
      ∷ abi_uint256 price
      ∷ abi_address (hex_to_address zero_address)
      ∷ abi_address (hex_to_address zero_address)
      ∷ abi_uint256 number
      ∷ []

  -- The signature of a request is the signer's, of the hash of the request's own fields.
  pub record Signs (signer : ℕ) (chain : ℤ) (operation : ℕ) (r : SubmitTransactionRequest)
      : Type 0 where
    pub content : List ℕ
    pub amount : ℕ
    pub number : ℕ
    pub encoded : List ℕ
    pub digest : List ℕ
    pub raw : List ℕ
    pub packed : List ℕ
    pub reads_content : decode_hex r.data_hex ≡ some content
    pub reads_amount : parse_uint256 value (default_zero r.value_text) ≡ ok amount
    pub reads_nonce : parse_uint256 nonce r.nonce_text ≡ ok number
    pub hashes :
        pack (hash_values (hex_to_address r.to) amount content operation number 0 0 0)
        ≡ some encoded
    pub in_domain :
        create_safe_typed_data_digest eth chain (hex_to_address r.proxy_wallet) (keccak encoded)
        ≡ ok digest
    pub signs : sign signer digest ≡ some raw
    pub packs : pack_safe_signature raw ≡ ok packed
    pub same_signature : r.signature ≡ encode_hex packed

  parse_zero : (q : Quantity) → parse_uint256 q (codes "0") ≡ ok 0
  unfolding parse_uint256 trim_space trim_left is_space parse_int parse_unsigned parse_digits
  parse_zero q = refl

  pub parse_zero-ok : (q : Quantity) {n : ℕ} → parse_uint256 q (codes "0") ≡ ok n → 0 ≡ n
  parse_zero-ok q h = ok_injective (sym (parse_zero q) ∙ h)

  -- What a request has of the transactions of its call.
  pub record Comes (args : SafeArgs) (signer : ℕ) (r : SubmitTransactionRequest) : Type 0 where
    pub tx : SafeTransaction
    pub aggregated : aggregate_safe_transactions eth args.transactions args.chain_id ≡ ok tx
    pub same_target : r.to ≡ address_hex (hex_to_address tx.to)
    pub same_data : r.data_hex ≡ normalize_hex tx.data_hex
    pub same_value : r.value_text ≡ tx.value_text
    pub signed : Signs signer args.chain_id tx.operation r
