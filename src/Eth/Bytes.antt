-- ===== src/Eth/Bytes.antt =====
-- Numbers as bytes, the highest first: `big.Int.FillBytes` and `big.Int.SetBytes`.
use native.Mathlib.Nat.{mul-le-mul_right}
use polymarket_client.Base.{
  ℕ, zero, suc, ◌≡◌, ◌≤◌, ◌<◌, ◌+◌, ◌-◌, ◌*◌, ◌/◌, ◌%◌, refl, ap, ◌∙◌, List, [], ◌∷◌, ◌++◌, length,
  All, arith, length-append, take, drop,
}

-- The lowest bytes of a number.
unfoldable pub fill_bytes : ℕ → ℕ → List ℕ
fill_bytes zero n = []
fill_bytes (suc k) n = fill_bytes k (n / 256) ++ (n % 256 ∷ [])

-- The number of the bytes that follow those of `acc`.
unfoldable pub set_bytes : List ℕ → ℕ → ℕ
set_bytes [] acc = acc
set_bytes (b ∷ bs) acc = set_bytes bs (acc * 256 + b)

-- How many numbers so many bytes hold.
abbrev pub byte_limit : ℕ → ℕ
byte_limit zero = 1
byte_limit (suc k) = 256 * byte_limit k

pub set_bytes-append :
    (a b : List ℕ) (acc : ℕ) → set_bytes (a ++ b) acc ≡ set_bytes b (set_bytes a acc)
unfolding set_bytes
set_bytes-append [] b acc = refl
set_bytes-append (x ∷ a) b acc = set_bytes-append a b (acc * 256 + x)

pub length-fill_bytes : (k n : ℕ) → length (fill_bytes k n) ≡ k
unfolding fill_bytes
length-fill_bytes zero n = refl
length-fill_bytes (suc k) n =
    omega
      (arith, length-append (fill_bytes k (n / 256)) (n % 256 ∷ []), length-fill_bytes k (n / 256))

-- A number that fits is read back.
pub set_bytes-fill_bytes : (k n : ℕ) → n < byte_limit k → set_bytes (fill_bytes k n) 0 ≡ n
unfolding fill_bytes set_bytes
set_bytes-fill_bytes zero n h = omega arith
set_bytes-fill_bytes (suc k) n h =
    let ih = set_bytes-fill_bytes k (n / 256) (omega arith) in
    set_bytes-append (fill_bytes k (n / 256)) (n % 256 ∷ []) 0 ∙ omega arith

pub take-full : (a b : List ℕ) (k : ℕ) → length a ≡ k → take k (a ++ b) ≡ a
take-full [] b zero h = refl
take-full [] b (suc k) h = absurd (omega arith)
take-full (x ∷ a) b zero h = absurd (omega arith)
take-full (x ∷ a) b (suc k) h = ap (λ l. x ∷ l) (take-full a b k (omega arith))

pub drop-full : (a b : List ℕ) (k : ℕ) → length a ≡ k → drop k (a ++ b) ≡ b
drop-full [] b zero h = refl
drop-full [] b (suc k) h = absurd (omega arith)
drop-full (x ∷ a) b zero h = absurd (omega arith)
drop-full (x ∷ a) b (suc k) h = drop-full a b k (omega arith)

abbrev pub IsByte : ℕ → Type 0
IsByte b = b < 256

All-append : (a b : List ℕ) → All IsByte a → All IsByte b → All IsByte (a ++ b)
All-append [] b h k = k
All-append (x ∷ a) b h k = (h.0, All-append a b h.1 k)

pub fill_bytes-AllBytes : (k n : ℕ) → All IsByte (fill_bytes k n)
unfolding fill_bytes
fill_bytes-AllBytes zero n = tt
fill_bytes-AllBytes (suc k) n =
    All-append (fill_bytes k (n / 256)) (n % 256 ∷ []) (fill_bytes-AllBytes k (n / 256))
      (omega arith, tt)

scaled : (acc b l : ℕ) → (acc * 256 + b) * l ≡ acc * (256 * l) + b * l
scaled acc b l = grind arith

-- The bytes that follow leave room for their own number.
pub set_bytes-shift :
    (l : List ℕ) (acc : ℕ) → set_bytes l acc ≡ acc * byte_limit (length l) + set_bytes l 0
unfolding set_bytes
set_bytes-shift [] acc = omega arith
set_bytes-shift (b ∷ l) acc =
    let e = set_bytes-shift l (acc * 256 + b) in
    let f = set_bytes-shift l b in
    let g = scaled acc b (byte_limit (length l)) in
    let z : 0 + b ≡ b = omega arith in rw z (omega arith)

pub set_bytes-lt : (l : List ℕ) → All IsByte l → set_bytes l 0 < byte_limit (length l)
unfolding set_bytes
set_bytes-lt [] h = omega arith
set_bytes-lt (b ∷ l) h =
    let f = set_bytes-shift l b in
    let ih = set_bytes-lt l h.1 in
    let z : 0 + b ≡ b = omega arith in
    let m : (b + 1) * byte_limit (length l) ≤ 256 * byte_limit (length l) =
      mul-le-mul_right (byte_limit (length l)) (omega arith) in
    rw z (omega arith)

length-drop : (k : ℕ) (l : List ℕ) → length (drop k l) ≡ length l - k
length-drop zero l = omega arith
length-drop (suc k) [] = omega arith
length-drop (suc k) (x ∷ l) = omega (arith, length-drop k l)

length-take : (k : ℕ) (l : List ℕ) → k ≤ length l → length (take k l) ≡ k
length-take zero l h = refl
length-take (suc k) [] h = absurd (omega arith)
length-take (suc k) (x ∷ l) h = omega (arith, length-take k l (omega arith))

pub length-half : (l : List ℕ) → length l ≡ 32 → length (take 16 (drop 16 l)) ≡ 16
length-half l h = let d = length-drop 16 l in length-take 16 (drop 16 l) (omega arith)

pub All-drop : (k : ℕ) (l : List ℕ) → All IsByte l → All IsByte (drop k l)
All-drop zero l h = h
All-drop (suc k) [] h = tt
All-drop (suc k) (x ∷ l) h = All-drop k l h.1

pub All-take : (k : ℕ) (l : List ℕ) → All IsByte l → All IsByte (take k l)
All-take zero l h = tt
All-take (suc k) [] h = tt
All-take (suc k) (x ∷ l) h = (h.0, All-take k l h.1)
