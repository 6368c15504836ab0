-- ===== src/Clob/Number/Print.antt =====
-- Reading what was printed gives the number back.
use polymarket_client.Base.{
  ℕ, zero, suc, ◌+◌, ◌-◌, ◌*◌, ◌/◌, ◌%◌, ◌<◌, ◌≡◌, inl, inr, true, false, some, [], ◌∷◌, ◌++◌,
  arith, ltb, Bool-cases, is_empty,
}
use polymarket_client.Base.Int.{ℤ, pos, negsuc}
use polymarket_client.Base.Text.{Text}
use polymarket_client.Clob.Number.{
  is_digit, parse_digits, parse_unsigned, parse_int, print_loop, print_nat, print_int,
}

parse_digits-snoc :
    (s : Text) (c acc n : ℕ)
    → parse_digits s acc ≡ some n
    → is_digit c ≡ true
    → parse_digits (s ++ (c ∷ [])) acc ≡ some (n * 10 + (c - b'0'))
unfolding parse_digits
parse_digits-snoc [] c acc n h d = ground arith
parse_digits-snoc (x ∷ s) c acc n h d =
    ground (arith, parse_digits-snoc s c (acc * 10 + (x - b'0')) n)

parse_digits-print_loop : (f n : ℕ) → n < f → parse_digits (print_loop f n) 0 ≡ some n
unfolding print_loop
parse_digits-print_loop zero n h = elim h [ ]
parse_digits-print_loop (suc f) n h = elim (Bool-cases (ltb n 10)) [
  | inl e ↦ rw (e, print_loop) (unfold parse_digits in ground arith)
  | inr e ↦
      let ih = parse_digits-print_loop f (n / 10) (ground arith) in
      rw (e, print_loop)
        (ground (arith, parse_digits-snoc (print_loop f (n / 10)) (b'0' + n % 10) 0 (n / 10) ih))
]

-- The text begins with a digit.
starts_with_digit :
    (f n : ℕ) → n < f → (c : ℕ) × (s : Text) × (print_loop f n ≡ c ∷ s) × (is_digit c ≡ true)
unfolding print_loop
starts_with_digit zero n h = elim h [ ]
starts_with_digit (suc f) n h = elim (Bool-cases (ltb n 10)) [
  | inl e ↦ (b'0' + n, [], rw (e, print_loop), ground arith)
  | inr e ↦
      let (c, s, p, d) = starts_with_digit f (n / 10) (ground arith) in
      (c, s ++ ((b'0' + n % 10) ∷ []), rw (e, print_loop, p), d)
]

parse_unsigned-print_nat : (n : ℕ) → parse_unsigned (print_nat n) ≡ some n
unfolding print_nat parse_unsigned
parse_unsigned-print_nat n =
    let (c, s, p, d) = starts_with_digit (suc n) n (omega arith) in
    let q = parse_digits-print_loop (suc n) n (omega arith) in rw (p, parse_unsigned) (rw p at q)

pub parse_int-print_nat : (n : ℕ) → parse_int (print_nat n) ≡ some (pos n)
unfolding print_nat parse_int
parse_int-print_nat n =
    let (c, s, p, d) = starts_with_digit (suc n) n (omega arith) in
    let q = parse_digits-print_loop (suc n) n (omega arith) in
    rw (p, parse_int) (unfold parse_unsigned in ground (arith, rw p at q))

-- Reading the text of an integer gives the integer back.
pub parse_int-print_int : (z : ℤ) → parse_int (print_int z) ≡ some z
unfolding print_int
parse_int-print_int (pos n) = parse_int-print_nat n
parse_int-print_int (negsuc n) =
    let q = parse_unsigned-print_nat (suc n) in unfold parse_int in rw q (ground arith)

pub print_nat-nonempty : (n : ℕ) → is_empty (print_nat n) ≡ false
unfolding print_nat
print_nat-nonempty n = let (c, s, p, d) = starts_with_digit (suc n) n (omega arith) in rw p
