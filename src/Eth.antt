-- ===== src/Eth.antt =====
-- What the source takes from go-ethereum: addresses, hexadecimal texts, the hash, the packing of
-- arguments and signatures. An address is a number below 2 ^ 160, a hash a list of 32 bytes.
pub mod Bytes
pub mod Sample
use polymarket_client.Base.{
  ℕ, ◌≡◌, ◌<◌, ◌^◌, Bool, true, Option, false, some, List, [], ◌∷◌, ◌++◌, is_empty, All, length,
}
use polymarket_client.Base.Int.{ℤ}
use polymarket_client.Base.Text.{Text, codes, trim_space}

-- The arguments of a packing, with the types of the ABI.
pub data AbiValue : Type 0 where
  abi_address abi_uint256 abi_uint8 : ℕ → AbiValue
  abi_bytes32 abi_bytes31 abi_bytes abi_address_array : List ℕ → AbiValue
  abi_uint256_array : List ℤ → AbiValue
  abi_int : ℤ → AbiValue
  abi_bool : ℕ → AbiValue
  abi_tuple_array : List (ℕ × ℕ × ℤ × List ℕ) → AbiValue

-- `IsHexAddress`, `HexToAddress`, `Address.Hex`, `hexutil.Decode`, `hexutil.Encode`, `Keccak256`,
-- `Arguments.Pack`, `ABI.Pack` with the name of the method, and `crypto.Sign` with the key of the
-- address.
pub record Ethereum : Type 0 where
  pub is_hex_address : Text → Bool
  pub hex_to_address : Text → ℕ
  pub address_hex : ℕ → Text
  pub decode_hex : Text → Option (List ℕ)
  pub encode_hex : List ℕ → Text
  pub keccak : List ℕ → List ℕ
  pub pack : List AbiValue → Option (List ℕ)
  pub pack_call : Text → List AbiValue → Option (List ℕ)
  pub sign : ℕ → List ℕ → Option (List ℕ)

-- What the theorems use of them: an address has 160 bits; its checksummed form is an address, reads
-- as it and has no white space; a text decodes to fewer bytes than an `int` counts, and the encoding
-- of so few bytes decodes to them; an encoding has its prefix and no white space; a hash
-- has 32 bytes.
pub record IsEthereum (e : Ethereum) : Type 0 where
  pub addresses_fit : (t : Text) → e.hex_to_address t < 2 ^ 160
  pub checksummed : (a : ℕ) → e.is_hex_address (e.address_hex a) ≡ true
  pub reads_back : (a : ℕ) → a < 2 ^ 160 → e.hex_to_address (e.address_hex a) ≡ a
  pub no_blanks : (a : ℕ) → trim_space (e.address_hex a) ≡ e.address_hex a
  pub not_empty : (a : ℕ) → is_empty (e.address_hex a) ≡ false
  pub contents_fit : (t : Text) (l : List ℕ) → e.decode_hex t ≡ some l → length l < 2 ^ 63
  pub decodes : (l : List ℕ) → length l < 2 ^ 63 → e.decode_hex (e.encode_hex l) ≡ some l
  pub encoded_prefix : (l : List ℕ) → (rest : Text) × (e.encode_hex l ≡ codes "0x" ++ rest)
  pub encoded_trimmed : (l : List ℕ) → trim_space (e.encode_hex l) ≡ e.encode_hex l
  pub hash_size : (l : List ℕ) → length (e.keccak l) ≡ 32
  pub hash_bytes : (l : List ℕ) → All (λ (b : ℕ). b < 256) (e.keccak l)
