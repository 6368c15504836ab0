-- ===== src/Ctf/Combo/Derived.antt =====
-- The ids that are derived from the legs of a combo.
use polymarket_client.Base.{
  ℕ, zero, suc, ◌≡◌, ◌<◌, ◌+◌, ◌*◌, ◌-◌, ◌/◌, ◌%◌, ◌^◌, refl, ap, subst, ◌∙◌, true, false, List, [],
  ◌∷◌, ◌++◌, nat_eq, ltb, length, take, drop, arith, All, map, Bool-cases, inl, inr,
}
use polymarket_client.Base.Int.{pos}
use polymarket_client.Base.Result.{ok, ok_or, >>=-eq-ok, ok_injective}
use polymarket_client.Base.Text.{Text, trim_space, is_space}
use polymarket_client.Base.Trim.{IsSolid, trim_space-AllSolid}
use polymarket_client.Clob.Number.{print_nat, print_loop}
use polymarket_client.Clob.Number.Print.{parse_int-print_nat, print_nat-nonempty}
use polymarket_client.Combo.Legs.{
  legs, canonicalize_combo_legs, parse_combo_position_id, decode_combo_position_id, decoded,
}
use polymarket_client.Eth.{Ethereum, IsEthereum, abi_uint256, abi_uint256_array, abi_bytes}
use polymarket_client.Eth.Bytes.{
  IsByte, fill_bytes, set_bytes, set_bytes-append, set_bytes-shift, set_bytes-lt, length-half,
  All-drop, All-take,
}
use polymarket_client.Ctf.{pack_failed}
use polymarket_client.Ctf.Combo.{
  ComboContext, of_legs, fourteen_zeros, condition_bytes, position_of,
  derive_combo_position_context,
}

AllSolid-append : (a b : Text) → All IsSolid a → All IsSolid b → All IsSolid (a ++ b)
AllSolid-append [] b h k = k
AllSolid-append (x ∷ a) b h k = (h.0, AllSolid-append a b h.1 k)

digit-IsSolid : (d : ℕ) → d < 10 → is_space (b'0' + d) ≡ false
unfolding is_space
digit-IsSolid d h = ground arith

print_loop-AllSolid : (f n : ℕ) → All IsSolid (print_loop f n)
unfolding print_loop
print_loop-AllSolid zero n = tt
print_loop-AllSolid (suc f) n = elim (Bool-cases (ltb n 10)) [
  | inl e ↦ rw (All, e) (digit-IsSolid n (ground arith), tt)
  | inr e ↦
      rw (All, e)
        (AllSolid-append (print_loop f (n / 10)) ((b'0' + n % 10) ∷ [])
          (print_loop-AllSolid f (n / 10)) (digit-IsSolid (n % 10) (omega arith), tt))
]

-- A number of 256 bits that is printed is read back.
parse-print : (n : ℕ) → n < 2 ^ 256 → parse_combo_position_id (print_nat n) ≡ legs n
unfolding parse_combo_position_id
parse-print n h =
    let trimmed : trim_space (print_nat n) ≡ print_nat n =
      trim_space-AllSolid (print_nat n) (unfold print_nat in print_loop-AllSolid (suc n) n) in
    let fits : ltb (2 ^ 256 - 1) n ≡ false = ground arith in
    rw (trimmed, print_nat-nonempty n, parse_int-print_nat n, fits) refl

zeros_behind : (m : ℕ) → set_bytes fourteen_zeros m ≡ m * 2 ^ 112
unfolding set_bytes fill_bytes
zeros_behind m = omega arith

half_behind :
    (low : List ℕ)
    → length low ≡ 16
    → All IsByte low
    → (s : ℕ) × (s < 2 ^ 128) × (set_bytes low 3 ≡ 3 * 2 ^ 128 + s)
half_behind low n b =
    let few = set_bytes-lt low b in
    let e = set_bytes-shift low 3 in (set_bytes low 0, rw n at few, rw n at e)

-- The number of 31 bytes, by the 16 that come from the hash.
condition_number :
    (hash : List ℕ)
    → length hash ≡ 32
    → All IsByte hash
    → (s : ℕ) × (s < 2 ^ 128) × (set_bytes (condition_bytes hash) 0 ≡ (3 * 2 ^ 128 + s) * 2 ^ 112)
unfolding condition_bytes set_bytes
condition_number hash n b =
    let low = take 16 (drop 16 hash) in
    let (s, lt, e) =
      half_behind low (length-half hash n) (All-take 16 (drop 16 hash) (All-drop 16 hash b)) in
    (
      s,
      lt,
      set_bytes-append low fourteen_zeros 3
          ∙ ap (set_bytes fourteen_zeros) e
          ∙ zeros_behind (3 * 2 ^ 128 + s),
    )

decoded-whole :
    (n c o s : ℕ)
    → o < 2
    → s < 2 ^ 128
    → c ≡ (3 * 2 ^ 128 + s) * 2 ^ 112
    → n ≡ c * 256 + o
    → decoded (legs n) ≡ legs (c, o)
decoded-whole n c o s h k e w =
    let half : n / 256 ≡ c = omega arith in
    let outcome : n % 256 ≡ o = omega arith in
    let module_byte : nat_eq (n / 2 ^ 248) 3 ≡ true = ground arith in
    let small : ltb 1 o ≡ false = ground arith in rw (module_byte, outcome, small, half) refl

module _ (eth : Ethereum) where
  decode-context :
      IsEthereum eth
      → (base : List ℕ) (o : ℕ) → o < 2
      → decode_combo_position_id (position_of (condition_bytes (eth.keccak base)) o)
        ≡ legs (set_bytes (condition_bytes (eth.keccak base)) 0, o)
  unfolding decode_combo_position_id
  decode-context v base o h =
      let condition = condition_bytes (eth.keccak base) in
      let (s, lt, e) = condition_number (eth.keccak base) (v.hash_size base) (v.hash_bytes base) in
      let n = set_bytes (condition ++ (o ∷ [])) 0 in
      let whole : n ≡ set_bytes condition 0 * 256 + o =
        set_bytes-append condition (o ∷ []) 0 ∙ unfold set_bytes in refl in
      ap decoded (parse-print n (omega arith))
      ∙ decoded-whole n (set_bytes condition 0) o s h lt e whole

  -- The two positions that are derived from legs are positions of the combinatorial module: each
  -- decodes to the condition that is derived with it, the first to the outcome 0 and the second to
  -- the outcome 1.
  pub decode-derive_combo_position_context :
      IsEthereum eth
      → (ids : List Text) (c : ComboContext) → derive_combo_position_context eth ids ≡ ok c
      → (decode_combo_position_id c.yes_id ≡ legs (set_bytes c.condition_id 0, 0))
        × (decode_combo_position_id c.no_id ≡ legs (set_bytes c.condition_id 0, 1))
  unfolding derive_combo_position_context
  decode-derive_combo_position_context v ids c h =
      let (canonical, e0, h0) = >>=-eq-ok (of_legs (canonicalize_combo_legs ids)) _ h in
      let (encoded, e1, h1) =
        >>=-eq-ok (ok_or pack_failed (eth.pack (abi_uint256_array (map pos canonical) ∷ []))) _
          h0 in
      let (base, e2, h2) =
        >>=-eq-ok (ok_or pack_failed (eth.pack (abi_uint256 3 ∷ abi_bytes encoded ∷ []))) _ h1 in
      subst
        (λ (d : ComboContext).
          (decode_combo_position_id d.yes_id ≡ legs (set_bytes d.condition_id 0, 0))
          × (decode_combo_position_id d.no_id ≡ legs (set_bytes d.condition_id 0, 1)))
        (ok_injective h2)
        (decode-context v base 0 (omega arith), decode-context v base 1 (omega arith))
