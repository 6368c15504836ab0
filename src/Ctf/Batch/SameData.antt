-- ===== src/Ctf/Batch/SameData.antt =====
-- Normalizing the calls of a batch, and their typed data.
use polymarket_client.Base.{
  ℕ, ◌≡◌, ◌<◌, ◌^◌, refl, sym, ap, subst, ◌∙◌, inl, inr, true, false, not, some, List, [], ◌∷◌,
  is_empty, Bool-cases, if-cases,
}
use polymarket_client.Base.Result.{ok, ◌>>=◌, err_if, ok_or, >>=-eq-ok, ok_or-eq-ok, ok_injective}
use polymarket_client.Base.Text.{Text, codes, trim_space, trim_left, is_space}
use polymarket_client.Base.Trim.{trim_space_idem}
use polymarket_client.Clob.Number.{print_nat}
use polymarket_client.Eth.{Ethereum, IsEthereum}
use polymarket_client.Relayer.{DepositWalletCall}
use polymarket_client.Ctf.{call_value, missing_call_target, invalid_call_target, undecodable_call}
use polymarket_client.Ctf.Batch.{
  parse_uint256_big, or_else, or_zero, or_empty_hex, normalize_call, normalize_calls, call_message,
  call_messages,
}

-- A default that is trimmed, for a text that is blank.
or_else_trim :
    (d v : Text)
    → trim_space d ≡ d
    → or_else d (trim_space (or_else d (trim_space v))) ≡ or_else d (trim_space v)
or_else_trim d v t = elim (Bool-cases (is_empty (trim_space v))) [
  | inl e ↦ rw (e, t) (if-cases (λ x. x ≡ d) (is_empty d) (λ _. refl) (λ _. refl))
  | inr e ↦ rw (e, trim_space_idem v, e) refl
]

trim_zero : trim_space (codes "0") ≡ codes "0"
unfolding trim_space trim_left is_space
trim_zero = refl

trim_hex : trim_space (codes "0x") ≡ codes "0x"
unfolding trim_space trim_left is_space
trim_hex = refl

or_zero_trim : (v : Text) → or_zero (trim_space (or_zero (trim_space v))) ≡ or_zero (trim_space v)
or_zero_trim v = or_else_trim (codes "0") v trim_zero

or_empty_hex_trim :
    (v : Text)
    → or_empty_hex (trim_space (or_empty_hex (trim_space v))) ≡ or_empty_hex (trim_space v)
or_empty_hex_trim v = or_else_trim (codes "0x") v trim_hex

module _ (eth : Ethereum) where
  open eth use {is_hex_address, hex_to_address, address_hex, decode_hex}

  -- A call that normalizing does not change.
  pub record IsNormal (c : DepositWalletCall) : Type 0 where
    pub address : ℕ
    pub in_range : address < 2 ^ 160
    pub target_normal : c.target ≡ address_hex address
    pub value_normal : or_zero (trim_space c.value_text) ≡ c.value_text
    pub data_normal : or_empty_hex (trim_space c.data_hex) ≡ c.data_hex
    pub quantity : ℕ
    pub reads_value : parse_uint256_big call_value c.value_text ≡ ok quantity
    pub content : List ℕ
    pub reads_data : decode_hex c.data_hex ≡ some content

  normalize_call-IsNormal :
      IsEthereum eth → (c d : DepositWalletCall) → normalize_call eth c ≡ ok d → IsNormal d
  unfolding normalize_call
  normalize_call-IsNormal v c d h =
      let (u, e0, h0) =
        >>=-eq-ok (err_if (is_empty (trim_space c.target)) missing_call_target) _ h in
      let (w, e1, h1) =
        >>=-eq-ok (err_if (not (is_hex_address (trim_space c.target))) invalid_call_target) _ h0 in
      let (amount, e2, h2) =
        >>=-eq-ok (parse_uint256_big call_value (or_zero (trim_space c.value_text))) _ h1 in
      let (content, e3, h3) =
        >>=-eq-ok (ok_or undecodable_call (decode_hex (or_empty_hex (trim_space c.data_hex)))) _
          h2 in
      subst IsNormal (ok_injective h3) (record {
        address = hex_to_address (trim_space c.target);
        in_range = v.addresses_fit (trim_space c.target);
        target_normal = refl;
        value_normal = or_zero_trim c.value_text;
        data_normal = or_empty_hex_trim c.data_hex;
        quantity = amount;
        reads_value = e2;
        content = content;
        reads_data = ok_or-eq-ok undecodable_call _ e3;
      })

  abbrev pub AllNormal : List DepositWalletCall → Type 0
  AllNormal [] = Unit
  AllNormal (c ∷ cs) = IsNormal c × AllNormal cs

  pub normalize_calls-AllNormal :
      IsEthereum eth
      → (cs ds : List DepositWalletCall) → normalize_calls eth cs ≡ ok ds
      → AllNormal ds
  unfolding normalize_calls
  normalize_calls-AllNormal v [] ds h = subst AllNormal (ok_injective h) tt
  normalize_calls-AllNormal v (c ∷ cs) ds h =
      let (first, e0, h0) = >>=-eq-ok (normalize_call eth c) _ h in
      let (rest, e1, h1) = >>=-eq-ok (normalize_calls eth cs) _ h0 in
      subst AllNormal (ok_injective h1)
        (normalize_call-IsNormal v c first e0, normalize_calls-AllNormal v cs rest e1)

  abbrev call_with : Text → Text → Text → DepositWalletCall
  call_with t a c = record { target = t; value_text = a; data_hex = c }

  -- Normalizing once more changes nothing.
  normalize_call-normal :
      IsEthereum eth → (c : DepositWalletCall) → IsNormal c → normalize_call eth c ≡ ok c
  unfolding normalize_call ◌>>=◌
  normalize_call-normal v c n =
      let trimmed : trim_space c.target ≡ c.target =
        ap trim_space n.target_normal ∙ v.no_blanks n.address ∙ sym n.target_normal in
      let full : is_empty c.target ≡ false = ap is_empty n.target_normal ∙ v.not_empty n.address in
      let valid : is_hex_address c.target ≡ true =
        ap is_hex_address n.target_normal ∙ v.checksummed n.address in
      let again : address_hex (hex_to_address c.target) ≡ c.target =
        ap (λ t. address_hex (hex_to_address t)) n.target_normal
        ∙ ap address_hex (v.reads_back n.address n.in_range)
        ∙ sym n.target_normal in
      rw (trimmed, full, valid, n.value_normal, n.data_normal, n.reads_value, n.reads_data)
        (ap (λ t. ok (call_with t c.value_text c.data_hex)) again)

  pub normalize_calls-normal :
      IsEthereum eth → (cs : List DepositWalletCall) → AllNormal cs → normalize_calls eth cs ≡ ok cs
  unfolding normalize_calls ◌>>=◌
  normalize_calls-normal v [] n = refl
  normalize_calls-normal v (c ∷ cs) n =
      rw (normalize_call-normal v c n.0, normalize_calls-normal v cs n.1) refl

  -- A call of the typed data, and the call of the request that it stands for.
  pub record SameCall (m c : DepositWalletCall) : Type 0 where
    pub same_target : m.target ≡ c.target
    pub same_data : m.data_hex ≡ c.data_hex
    pub quantity : ℕ
    pub reads : parse_uint256_big call_value c.value_text ≡ ok quantity
    pub prints : m.value_text ≡ print_nat quantity

  abbrev pub SameCalls : List DepositWalletCall → List DepositWalletCall → Type 0
  SameCalls [] [] = Unit
  SameCalls (m ∷ ms) (c ∷ cs) = SameCall m c × SameCalls ms cs
  SameCalls _ _ = ⊥

  pub same_calls :
      IsEthereum eth
      → (cs ms : List DepositWalletCall) → AllNormal cs
      → call_messages eth cs ≡ ok ms
      → SameCalls ms cs
  unfolding call_messages call_message
  same_calls v [] ms n h = subst (λ l. SameCalls l []) (ok_injective h) tt
  same_calls v (c ∷ cs) ms n h =
      let (first, e0, h0) = >>=-eq-ok (call_message eth c) _ h in
      let (rest, e1, h1) = >>=-eq-ok (call_messages eth cs) _ h0 in
      let (amount, e2, h2) = >>=-eq-ok (parse_uint256_big call_value c.value_text) _ e0 in
      let made : SameCall
          (record c {
            target = address_hex (hex_to_address c.target);
            value_text = print_nat amount;
          })
          c =
        record {
          same_target =
              ap (λ t. address_hex (hex_to_address t)) n.0.target_normal
              ∙ ap address_hex (v.reads_back n.0.address n.0.in_range)
              ∙ sym n.0.target_normal;
          same_data = refl;
          quantity = amount;
          reads = e2;
          prints = refl;
        } in
      subst (λ l. SameCalls l (c ∷ cs)) (ok_injective h1)
        (subst (λ m. SameCall m c) (ok_injective h2) made, same_calls v cs rest n.1 e1)
