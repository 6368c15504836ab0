-- ===== src/Relayer/MultiSend.antt =====
-- What the MultiSend contract reads in the bytes of a batch.
use polymarket_client.Base.{
  ℕ, zero, suc, ◌≡◌, ◌≤◌, ◌<◌, ◌^◌, refl, sym, ap, subst, ◌∙◌, true, Option, none, some, List, [],
  ◌∷◌, ◌++◌, if◌then◌else◌, is_empty, length, take, drop, arith, length-append, All, Bool-cases,
  inl, inr,
}
use mathlib.Core.List.{append_assoc}
use polymarket_client.Base.Int.{ℤ, pos, negsuc}
use polymarket_client.Base.Result.{ok, >>=-eq-ok, err_if-eq-ok, ok_or-eq-ok, ok_injective}
use polymarket_client.Base.Text.{Text, codes, trim_space}
use polymarket_client.Clob.Number.{parse_int}
use polymarket_client.Eth.{Ethereum, IsEthereum}
use polymarket_client.Eth.Bytes.{
  byte_limit, fill_bytes, set_bytes, length-fill_bytes, set_bytes-fill_bytes, take-full, drop-full,
}
use polymarket_client.Relayer.{
  Quantity, value, SafeTransaction, normalize_hex, parse_uint256, in_uint256,
}
use polymarket_client.Relayer.Safe.{left_pad32, encode_safe_transaction, encode_safe_transactions}

-- A call that the contract makes.
pub record Call : Type 0 where
  pub operation : ℕ
  pub target : ℕ
  pub amount : ℕ
  pub content : List ℕ

-- The loop of the contract over the bytes, by the format that it documents: one byte for the
-- operation, 20 for the target, 32 for the value, 32 for the length of the data, the data. Fuel
-- above the number of the bytes is enough.
unfoldable pub multi_send : ℕ → List ℕ → List Call
multi_send zero l = []
multi_send (suc f) [] = []
multi_send (suc f) (o ∷ l) =
    let after_target = drop 20 l in
    let after_amount = drop 32 after_target in
    let size = set_bytes (take 32 after_amount) 0 in
    let content = drop 32 after_amount in
    let call : Call = record {
      operation = o;
      target = set_bytes (take 20 l) 0;
      amount = set_bytes (take 32 after_target) 0;
      content = take size content;
    } in
    call ∷ multi_send f (drop size content)

-- The bytes of a call.
abbrev pub call_bytes : Call → List ℕ
call_bytes c =
    c.operation
    ∷ (fill_bytes 20 c.target
        ++ (left_pad32 c.amount ++ (left_pad32 (length c.content) ++ c.content)))

pub record Fits (c : Call) : Type 0 where
  pub target_fits : c.target < 2 ^ 160
  pub amount_fits : c.amount < 2 ^ 256
  pub content_fits : length c.content < 2 ^ 256

-- A number in its bytes, in front of others.
front_number :
    (k n : ℕ) (rest : List ℕ) → n < byte_limit k → set_bytes (take k (fill_bytes k n ++ rest)) 0 ≡ n
front_number k n rest h =
    ap (λ l. set_bytes l 0) (take-full (fill_bytes k n) rest k (length-fill_bytes k n))
    ∙ set_bytes-fill_bytes k n h

behind_number : (k n : ℕ) (rest : List ℕ) → drop k (fill_bytes k n ++ rest) ≡ rest
behind_number k n rest = drop-full (fill_bytes k n) rest k (length-fill_bytes k n)

abbrev call_of : ℕ → ℕ → ℕ → List ℕ → Call
call_of o t a c = record { operation = o; target = t; amount = a; content = c }

read_call :
    (f o t a : ℕ) (c rest : List ℕ)
    → t < 2 ^ 160
    → a < 2 ^ 256
    → length c < 2 ^ 256
    → multi_send
        (suc f)
        (o ∷ (fill_bytes 20 t ++ (fill_bytes 32 a ++ (fill_bytes 32 (length c) ++ (c ++ rest)))))
      ≡ call_of o t a c ∷ multi_send f rest
unfolding multi_send
read_call f o t a c rest ht ha hc =
    let l3 = c ++ rest in
    let l2 = fill_bytes 32 (length c) ++ l3 in
    let l1 = fill_bytes 32 a ++ l2 in
    rw (
      behind_number 20 t l1,
      behind_number 32 a l2,
      behind_number 32 (length c) l3,
      front_number 20 t l1 (omega arith),
      front_number 32 a l2 (omega arith),
      front_number 32 (length c) l3 (omega arith),
      take-full c rest (length c) refl,
      drop-full c rest (length c) refl,
    )

call_bytes-append :
    (c : Call) (rest : List ℕ)
    → call_bytes c ++ rest
      ≡ c.operation
        ∷ (fill_bytes 20 c.target
            ++ (fill_bytes 32 c.amount
                ++ (fill_bytes 32 (length c.content) ++ (c.content ++ rest))))
call_bytes-append c rest = simp append_assoc

abbrev all_bytes : List Call → List ℕ
all_bytes [] = []
all_bytes (c ∷ cs) = call_bytes c ++ all_bytes cs

multi_send-all_bytes :
    (cs : List Call) (f : ℕ) → All Fits cs → length cs ≤ f → multi_send f (all_bytes cs) ≡ cs
unfolding multi_send
multi_send-all_bytes [] zero a h = refl
multi_send-all_bytes [] (suc f) a h = refl
multi_send-all_bytes (c ∷ cs) zero a h = absurd (omega arith)
multi_send-all_bytes (c ∷ cs) (suc f) a h =
    ap (multi_send (suc f)) (call_bytes-append c (all_bytes cs))
    ∙ read_call f c.operation c.target c.amount c.content (all_bytes cs) a.0.target_fits
        a.0.amount_fits a.0.content_fits
    ∙ ap (λ l. c ∷ l) (multi_send-all_bytes cs f a.1 (omega arith))

length-all_bytes : (cs : List Call) → length cs ≤ length (all_bytes cs)
length-all_bytes [] = omega arith
length-all_bytes (c ∷ cs) =
    let n = length-append (call_bytes c) (all_bytes cs) in omega (arith, length-all_bytes cs)

in_uint256-lt : (q : Quantity) (z : Option ℤ) {n : ℕ} → in_uint256 q z ≡ ok n → n < 2 ^ 256
in_uint256-lt q none h = cc
in_uint256-lt q (some (negsuc n)) h = cc
in_uint256-lt q (some (pos m)) h = ground (arith, h)

pub parse_uint256-lt : (q : Quantity) (t : Text) {n : ℕ} → parse_uint256 q t ≡ ok n → n < 2 ^ 256
unfolding parse_uint256
parse_uint256-lt q t h = elim (Bool-cases (is_empty (trim_space t))) [
  | inl e ↦ absurd (ground (arith, h))
  | inr e ↦ in_uint256-lt q (parse_int (trim_space t)) (rw (e, parse_uint256) at h)
]

module _ (eth : Ethereum) where
  -- What a transaction asks for.
  pub record Asks (tx : SafeTransaction) (c : Call) : Type 0 where
    pub same_operation : c.operation ≡ tx.operation
    pub is_address : eth.is_hex_address tx.to ≡ true
    pub same_target : c.target ≡ eth.hex_to_address tx.to
    pub same_amount :
        parse_uint256 value
          (if is_empty (trim_space tx.value_text) then codes "0" else tx.value_text)
        ≡ ok c.amount
    pub same_content : eth.decode_hex (normalize_hex tx.data_hex) ≡ some c.content

  encode-call :
      IsEthereum eth
      → (tx : SafeTransaction) (l : List ℕ) → encode_safe_transaction eth tx ≡ ok l
      → (c : Call) × Asks tx c × Fits c × (call_bytes c ≡ l)
  unfolding encode_safe_transaction
  encode-call v tx l h =
      let (u, e0, h0) = >>=-eq-ok _ _ h in
      let (content, e1, h1) = >>=-eq-ok _ _ h0 in
      let (amount, e2, h2) = >>=-eq-ok _ _ h1 in
      let d = ok_or-eq-ok _ _ e1 in
      (
        call_of tx.operation (eth.hex_to_address tx.to) amount content,
        record {
          same_operation = refl;
          is_address = let b = err_if-eq-ok _ _ e0 in ground arith;
          same_target = refl;
          same_amount = e2;
          same_content = d;
        },
        record {
          target_fits = v.addresses_fit tx.to;
          amount_fits = parse_uint256-lt value _ e2;
          content_fits = let f = v.contents_fit _ content d in omega arith;
        },
        ok_injective h2,
      )

  abbrev pub AskAll : List SafeTransaction → List Call → Type 0
  AskAll [] [] = Unit
  AskAll (tx ∷ txs) (c ∷ cs) = Asks tx c × AskAll txs cs
  AskAll _ _ = ⊥

  encode-calls :
      IsEthereum eth
      → (txs : List SafeTransaction) (l : List ℕ) → encode_safe_transactions eth txs ≡ ok l
      → (cs : List Call) × AskAll txs cs × All Fits cs × (all_bytes cs ≡ l)
  unfolding encode_safe_transactions
  encode-calls v [] l h = ([], tt, tt, ok_injective h)
  encode-calls v (tx ∷ txs) l h =
      let (first, e0, h0) = >>=-eq-ok _ _ h in
      let (rest, e1, h1) = >>=-eq-ok _ _ h0 in
      let (c, a, f, q) = encode-call v tx first e0 in
      let (cs, asks, fs, qs) = encode-calls v txs rest e1 in
      (
        c ∷ cs,
        (a, asks),
        (f, fs),
        ap (λ x. x ++ all_bytes cs) q ∙ ap (λ x. first ++ x) qs ∙ ok_injective h1,
      )

  -- The bytes of a batch that is encoded read back, as the MultiSend contract reads them, as one
  -- call for each transaction, in their order: with its operation, target, value and data.
  pub multi_send-encode_safe_transactions :
      IsEthereum eth
      → (txs : List SafeTransaction) (l : List ℕ) → encode_safe_transactions eth txs ≡ ok l
      → AskAll txs (multi_send (length l) l)
  multi_send-encode_safe_transactions v txs l h =
      let (cs, asks, fs, q) = encode-calls v txs l h in
      let read : multi_send (length (all_bytes cs)) (all_bytes cs) ≡ cs =
        multi_send-all_bytes cs (length (all_bytes cs)) fs (length-all_bytes cs) in
      subst (AskAll txs) (sym (ap (λ x. multi_send (length x) x) (sym q) ∙ read)) asks
