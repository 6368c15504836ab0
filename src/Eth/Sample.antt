-- ===== src/Eth/Sample.antt =====
-- An instance of the parameters, for tests: a byte is one wide digit of a text.
use polymarket_client.Base.{
  ℕ, ◌≡◌, ◌<◌, ◌+◌, ◌-◌, ◌%◌, ◌^◌, refl, ap, ◌∙◌, true, false, ◌||◌, Option, none, some, List, [],
  ◌∷◌, ◌++◌, nat_eq, ltb, if◌then◌else◌, length, map, arith, All, Bool-cases, inl, inr,
}
use polymarket_client.Base.Text.{Text, codes, trim_space, is_space}
use polymarket_client.Base.Trim.{IsSolid, trim_space-AllSolid}
use polymarket_client.Eth.{
  Ethereum, IsEthereum, AbiValue, abi_address, abi_uint256, abi_uint8, abi_bytes32, abi_bytes31,
  abi_address_array, abi_bytes, abi_uint256_array, abi_int, abi_bool, abi_tuple_array,
}
use polymarket_client.Eth.Bytes.{
  fill_bytes, set_bytes, length-fill_bytes, set_bytes-fill_bytes, fill_bytes-AllBytes,
}

abbrev wide : ℕ → ℕ
wide b = b + 0x10000

abbrev wide_hex : List ℕ → Text
wide_hex l = codes "0x" ++ map wide l

abbrev narrow : List ℕ → Option (List ℕ)
narrow l = if ltb (length l) (2 ^ 63) then some (map (λ c. c - 0x10000) l) else none

abbrev wide_bytes : Text → Option (List ℕ)
wide_bytes (c ∷ d ∷ l) = narrow l
wide_bytes _ = none

abbrev number_in : Option (List ℕ) → ℕ
number_in none = 0
number_in (some l) = set_bytes l 0 % 2 ^ 160

-- The bytes of the arguments, but for tuples.
abbrev packed_value : AbiValue → List ℕ
packed_value (abi_address a) = fill_bytes 32 a
packed_value (abi_uint256 n) = fill_bytes 32 n
packed_value (abi_uint8 n) = fill_bytes 32 n
packed_value (abi_bytes32 l) = l
packed_value (abi_bytes31 l) = l
packed_value (abi_address_array l) = fill_bytes 32 (length l)
packed_value (abi_bytes l) = fill_bytes 32 (length l) ++ l
packed_value (abi_uint256_array l) = fill_bytes 32 (length l)
packed_value (abi_int z) = []
packed_value (abi_bool b) = fill_bytes 32 b
packed_value (abi_tuple_array l) = []

abbrev packed_values : List AbiValue → List ℕ
packed_values [] = []
packed_values (v ∷ vs) = packed_value v ++ packed_values vs

abbrev pub sample : Ethereum
sample = record {
  is_hex_address = λ t. nat_eq (length t) 22 || nat_eq (length t) 42;
  hex_to_address = λ t. number_in (wide_bytes t);
  address_hex = λ a. wide_hex (fill_bytes 20 a);
  decode_hex = wide_bytes;
  encode_hex = wide_hex;
  keccak = λ l. fill_bytes 32 (set_bytes l 0);
  pack = λ vs. some (packed_values vs);
  pack_call = λ method vs. some (method ++ packed_values vs);
  sign = λ key hash. some (fill_bytes 32 key ++ (fill_bytes 32 (set_bytes hash 0) ++ (27 ∷ [])));
}

wide-IsSolid : (b : ℕ) → is_space (wide b) ≡ false
unfolding is_space
wide-IsSolid b = ground arith

wide-AllSolid : (l : List ℕ) → All IsSolid (map wide l)
wide-AllSolid [] = tt
wide-AllSolid (b ∷ l) = (wide-IsSolid b, wide-AllSolid l)

wide_hex-AllSolid : (l : List ℕ) → All IsSolid (wide_hex l)
unfolding is_space
wide_hex-AllSolid l = (refl, (refl, wide-AllSolid l))

wide_trimmed : (l : List ℕ) → trim_space (wide_hex l) ≡ wide_hex l
wide_trimmed l = trim_space-AllSolid (wide_hex l) (wide_hex-AllSolid l)

length-wide : (l : List ℕ) → length (map wide l) ≡ length l
length-wide [] = refl
length-wide (b ∷ l) = omega (arith, length-wide l)

narrow-wide : (l : List ℕ) → map (λ c. c - 0x10000) (map wide l) ≡ l
narrow-wide [] = refl
narrow-wide (b ∷ l) =
    let e : b + 0x10000 - 0x10000 ≡ b = omega arith in
    ap (λ x. x ∷ map (λ c. c - 0x10000) (map wide l)) e ∙ ap (λ x. b ∷ x) (narrow-wide l)

wide_bytes-wide_hex : (l : List ℕ) → length l < 2 ^ 63 → wide_bytes (wide_hex l) ≡ some l
wide_bytes-wide_hex l h =
    let short : ltb (length (map wide l)) (2 ^ 63) ≡ true = let e = length-wide l in ground arith in
    rw short (ap some (narrow-wide l))

length-narrow : (l : List ℕ) → length (map (λ c. c - 0x10000) l) ≡ length l
length-narrow [] = refl
length-narrow (c ∷ l) = omega (arith, length-narrow l)

abbrev size : Option (List ℕ) → ℕ
size none = 0
size (some l) = length l

narrow-lt : (r l : List ℕ) → narrow r ≡ some l → length l < 2 ^ 63
narrow-lt r l h = elim (Bool-cases (ltb (length r) (2 ^ 63))) [
  | inl e ↦
      let same = ap size (rw e at h) in
      let n = length-narrow r in let short : length r < 2 ^ 63 = ground arith in omega arith
  | inr e ↦ absurd (ground (arith, h))
]

number_in-lt : (o : Option (List ℕ)) → number_in o < 2 ^ 160
number_in-lt none = omega arith
number_in-lt (some l) = omega arith

bytes-lt : (t : Text) (l : List ℕ) → wide_bytes t ≡ some l → length l < 2 ^ 63
bytes-lt [] l h = cc
bytes-lt (c ∷ []) l h = cc
bytes-lt (c ∷ d ∷ r) l h = narrow-lt r l h

address_back : (a : ℕ) → a < 2 ^ 160 → number_in (wide_bytes (wide_hex (fill_bytes 20 a))) ≡ a
address_back a h =
    let n = length-fill_bytes 20 a in
    let e = set_bytes-fill_bytes 20 a (omega arith) in
    ap number_in (wide_bytes-wide_hex (fill_bytes 20 a) (omega arith))
    ∙ ap (λ x. x % 2 ^ 160) e
    ∙ omega arith

pub sample-IsEthereum : IsEthereum sample
sample-IsEthereum = record {
  addresses_fit = λ t. number_in-lt (wide_bytes t);
  checksummed = λ a.
      let n = length-fill_bytes 20 a in
      let m = length-wide (fill_bytes 20 a) in
      let e : length (map wide (fill_bytes 20 a)) ≡ 20 = omega arith in rw e refl;
  reads_back = address_back;
  no_blanks = λ a. wide_trimmed (fill_bytes 20 a);
  not_empty = λ a. refl;
  contents_fit = bytes-lt;
  decodes = wide_bytes-wide_hex;
  encoded_prefix = λ l. (map wide l, refl);
  encoded_trimmed = wide_trimmed;
  hash_size = λ l. length-fill_bytes 32 (set_bytes l 0);
  hash_bytes = λ l. fill_bytes-AllBytes 32 (set_bytes l 0);
}
