-- ===== src/Combo/Messages/Keys.antt =====
-- Which requests wait under the same key.
use polymarket_client.Base.{
  ℕ, ◌≡◌, ◌≢◌, refl, ap, ◌∙◌, Bool, false, [], ◌∷◌, ◌++◌, nat_eq, any, arith,
}
use polymarket_client.Base.Text.{Text}
use polymarket_client.Combo.Messages.{quote_key, cancel_key, confirm_key}

abbrev pub has_colon : Text → Bool
has_colon t = any (λ c. nat_eq c b':') t

abbrev tail : Text → Text
tail [] = []
tail (c ∷ cs) = cs

abbrev first : Text → ℕ
first [] = 0
first (c ∷ cs) = c

abbrev after_6 : Text → Text
after_6 t = tail (tail (tail (tail (tail (tail t)))))

abbrev after_7 : Text → Text
after_7 t = tail (after_6 t)

abbrev after_8 : Text → Text
after_8 t = tail (after_7 t)

split_colon :
    (r q r' q' : Text)
    → has_colon r ≡ false
    → has_colon r' ≡ false
    → r ++ (b':' ∷ q) ≡ r' ++ (b':' ∷ q')
    → (r ≡ r') × (q ≡ q')
split_colon [] q [] q' h k e = (refl, ap tail e)
split_colon [] q (c ∷ r') q' h k e = let f = ap first e in absurd (ground arith)
split_colon (c ∷ r) q [] q' h k e = let f = ap first e in absurd (ground arith)
split_colon (c ∷ r) q (d ∷ r') q' h k e =
    let f : c ≡ d = ap first e in
    let (a, b) = split_colon r q r' q' (ground arith) (ground arith) (ap tail e) in
    (ap (λ l. c ∷ l) a ∙ ap (λ x. x ∷ r') f, b)

-- Requests whose RFQ ids have no colon wait under the same key only if they ask for the
-- same operation on the same ids: a quote, a cancellation or an answer to a confirmation.
pub keys_distinct :
    (r q r' q' : Text)
    → has_colon r ≡ false
    → has_colon r' ≡ false
    → (quote_key r ≡ quote_key r' → r ≡ r')
      × (cancel_key r q ≡ cancel_key r' q' → (r ≡ r') × (q ≡ q'))
      × (confirm_key r q ≡ confirm_key r' q' → (r ≡ r') × (q ≡ q'))
      × (quote_key r ≢ cancel_key r' q')
      × (quote_key r ≢ confirm_key r' q')
      × (cancel_key r q ≢ confirm_key r' q')
unfolding quote_key cancel_key confirm_key
keys_distinct r q r' q' h k = (
  λ e. ap after_6 e,
  λ e. split_colon r q r' q' h k (ap after_7 e),
  λ e. split_colon r q r' q' h k (ap after_8 e),
  λ e. let f = ap first e in absurd (ground arith),
  λ e. let f = ap first e in absurd (ground arith),
  λ e.
      let f = ap (λ t. first (tail t)) e in
      let g = ap (λ t. first (tail (tail t))) e in let a = ap first e in absurd (ground arith),
)
