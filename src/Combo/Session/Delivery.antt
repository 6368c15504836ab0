-- ===== src/Combo/Session/Delivery.antt =====
-- How often a channel stands in the table, and how often it has been sent a result.
use polymarket_client.Base.{
  ℕ, ◌≡◌, ◌≤◌, ◌+◌, refl, ap, subst, inl, inr, false, none, List, [], ◌∷◌, ◌++◌, nat_eq,
  if◌then◌else◌, arith, Bool-cases, ◌==◌,
}
use polymarket_client.Base.Map.{lookup, assign, delete, IsMap, assign-IsMap, delete-IsMap}
use polymarket_client.Base.Text.{Text, text_Comparable}
use polymarket_client.Combo.Pending.{Session, waiting, or_empty, remove_item, put_items}
use polymarket_client.Combo.Session.{Reply, close_channels, close_all}

abbrev pub occurs : ℕ → List ℕ → ℕ
occurs c [] = 0
occurs c (d ∷ ds) = (if nat_eq d c then 1 else 0) + occurs c ds

unfoldable pub in_table : ℕ → List (Text × List ℕ) → ℕ
in_table c [] = 0
in_table c ((k, chs) ∷ m) = occurs c chs + in_table c m

unfoldable pub results : ℕ → List (ℕ × Reply) → ℕ
results c [] = 0
results c ((d, r) ∷ sent) = (if nat_eq d c then 1 else 0) + results c sent

pub occurs-snoc :
    (c d : ℕ) (l : List ℕ) → occurs c (l ++ (d ∷ [])) ≡ occurs c l + (if nat_eq d c then 1 else 0)
occurs-snoc c d [] = omega arith
occurs-snoc c d (x ∷ l) = let ih = occurs-snoc c d l in omega arith

pub in_table-assign :
    (c : ℕ) (k : Text) (v : List ℕ) (m : List (Text × List ℕ))
    → in_table c (assign k v m) + occurs c (or_empty (lookup k m)) ≡ in_table c m + occurs c v
unfolding in_table assign lookup
in_table-assign c k v [] = omega arith
in_table-assign c k v ((j, w) ∷ m) = elim (Bool-cases (j == k)) [
  | inl e ↦ rw (e, assign, lookup) (omega arith)
  | inr e ↦ let ih = in_table-assign c k v m in rw (e, assign, lookup) (omega arith)
]

-- A key that a map has not is not deleted.
delete_missing :
    (c : ℕ) (k : Text) (m : List (Text × List ℕ))
    → lookup k m ≡ none
    → in_table c (delete k m) ≡ in_table c m
unfolding in_table delete lookup
delete_missing c k [] h = refl
delete_missing c k ((j, w) ∷ m) h = elim (Bool-cases (j == k)) [
  | inl e ↦ absurd (ground (arith, rw (e, lookup) at h))
  | inr e ↦ rw (e, delete) (ap (λ n. occurs c w + n) (delete_missing c k m (rw (e, lookup) at h)))
]

in_table-delete :
    (c : ℕ) (k : Text) (m : List (Text × List ℕ))
    → IsMap m
    → in_table c (delete k m) + occurs c (or_empty (lookup k m)) ≡ in_table c m
unfolding in_table delete lookup
in_table-delete c k [] v = omega arith
in_table-delete c k ((j, w) ∷ m) v = elim (Bool-cases (j == k)) [
  | inl e ↦
      let h =
        delete_missing c k m
          (subst (λ t. lookup t m ≡ none) ((text_Comparable.same_iff j k).0 e) v.0) in
      rw (e, delete, lookup) (omega arith)
  | inr e ↦ let ih = in_table-delete c k m v.1 in rw (e, delete, lookup) (omega arith)
]

-- The items of a key in place of those that wait.
pub in_table-put_items :
    (c : ℕ) (k : Text) (items : List ℕ) (s : Session)
    → IsMap s.pending
    → in_table c (put_items k items s).pending + occurs c (waiting s k)
      ≡ in_table c s.pending + occurs c items
in_table-put_items c k [] s v = let e = in_table-delete c k s.pending v in omega arith
in_table-put_items c k (d ∷ ds) s v = in_table-assign c k (d ∷ ds) s.pending

pub put_items-IsMap :
    (k : Text) (items : List ℕ) (s : Session)
    → IsMap s.pending
    → IsMap (put_items k items s).pending
put_items-IsMap k [] s v = delete-IsMap k s.pending v
put_items-IsMap k (d ∷ ds) s v = assign-IsMap k (d ∷ ds) s.pending v

pub occurs-remove_item :
    (c d : ℕ) (items : List ℕ) → occurs c (remove_item d items) ≤ occurs c items
unfolding remove_item
occurs-remove_item c d [] = omega arith
occurs-remove_item c d (x ∷ xs) = ground (arith, occurs-remove_item c d xs)

results-close_channels :
    (c : ℕ) (chs : List ℕ) (sent : List (ℕ × Reply))
    → results c (close_channels chs sent) ≡ occurs c chs + results c sent
unfolding results close_channels
results-close_channels c [] sent = omega arith
results-close_channels c (d ∷ ds) sent = let ih = results-close_channels c ds sent in omega arith

pub results-close_all :
    (c : ℕ) (m : List (Text × List ℕ)) (sent : List (ℕ × Reply))
    → results c (close_all m sent) ≡ in_table c m + results c sent
unfolding in_table close_all
results-close_all c [] sent = omega arith
results-close_all c ((k, chs) ∷ m) sent =
    omega (arith, results-close_channels c chs (close_all m sent), results-close_all c m sent)

pub occurs-other :
    (c d : ℕ) (items : List ℕ)
    → nat_eq d c ≡ false
    → occurs c (remove_item d items) ≡ occurs c items
unfolding remove_item
occurs-other c d [] n = refl
occurs-other c d (x ∷ xs) n = ground (arith, occurs-other c d xs n)
