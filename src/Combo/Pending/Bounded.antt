-- ===== src/Combo/Pending/Bounded.antt =====
-- The table stays bounded, with one request for each key.
use polymarket_client.Base.{
  ℕ, ◌≡◌, ◌≤◌, ◌+◌, refl, inl, inr, Bool, true, false, Option, List, [], ◌∷◌, nat_eq, leb,
  if◌then◌else◌, length, All, arith, Bool-cases, Option-cases, ◌==◌, ap, ◌∙◌, ◌⊎◌,
}
use polymarket_client.Base.Map.{
  lookup, assign, delete, IsMap, assign-IsMap, delete-IsMap, All-assign, All-delete, All-lookup,
}
use polymarket_client.Base.Text.{Text, text_Comparable}
use polymarket_client.Combo.Pending.{
  Session, PendingError, total, waiting, or_empty, add_pending, remove_item, put_items,
  remove_pending, resolve,
}

-- Each key has one entry with one channel, and there are at most `max_pending` of them.
pub record IsBounded (s : Session) : Type 0 where
  pub is_map : IsMap s.pending
  pub single : All (λ (e : Text × List ℕ). length (e.1) ≡ 1) s.pending
  pub bounded : total s.pending ≤ s.max_pending

total-assign :
    (k : Text) (v : List ℕ) (m : List (Text × List ℕ))
    → total (assign k v m) + length (or_empty (lookup k m)) ≡ total m + length v
unfolding total assign lookup
total-assign k v [] = omega arith
total-assign k v ((j, w) ∷ m) = elim (Bool-cases (j == k)) [
  | inl e ↦ rw (e, assign, lookup) (omega arith)
  | inr e ↦ let ih = total-assign k v m in rw (e, assign, lookup) (omega arith)
]

total-delete : (k : Text) (m : List (Text × List ℕ)) → total (delete k m) ≤ total m
unfolding total delete
total-delete k [] = omega arith
total-delete k ((j, w) ∷ m) = elim (Bool-cases (j == k)) [
  | inl e ↦ let ih = total-delete k m in rw (e, delete) (omega arith)
  | inr e ↦ let ih = total-delete k m in rw (e, delete) (omega arith)
]

delete-IsBounded :
    (k : Text) (s : Session) → IsBounded s → IsBounded (record s { pending = delete k s.pending })
delete-IsBounded k s h = record {
  is_map = delete-IsMap k s.pending h.is_map;
  single = All-delete _ k s.pending h.single;
  bounded = let d = total-delete k s.pending in let b = h.bounded in omega arith;
}

-- One more channel for a key that has none, below the limit, keeps the bound, and so does the
-- channel that a key has.
assign-IsBounded :
    (k : Text) (c : ℕ) (s : Session)
    → total s.pending + 1 ≤ s.max_pending + length (waiting s k)
    → IsBounded s
    → IsBounded (record s { pending = assign k (c ∷ []) s.pending })
assign-IsBounded k c s b h = record {
  is_map = assign-IsMap k (c ∷ []) s.pending h.is_map;
  single = All-assign _ k (c ∷ []) s.pending refl h.single;
  bounded = let a = total-assign k (c ∷ []) s.pending in omega arith;
}

one_item : (v : List ℕ) → length v ≡ 1 → (c : ℕ) × (v ≡ c ∷ [])
one_item [] h = absurd (ground arith)
one_item (c ∷ []) h = (c, refl)
one_item (c ∷ d ∷ v) h = absurd (ground arith)

waiting_cases :
    (k : Text) (s : Session) → IsBounded s → (waiting s k ≡ []) ⊎ ((c : ℕ) × (waiting s k ≡ c ∷ []))
waiting_cases k s h = elim (Option-cases (lookup k s.pending)) [
  | inl e ↦ inl (ap or_empty e)
  | inr (v, e) ↦
      let (c, p) = one_item v (All-lookup _ k s.pending h.single e) in inr (c, ap or_empty e ∙ p)
]

either-IsBounded :
    (b : Bool) (x y : Session × Option PendingError)
    → IsBounded x.0
    → IsBounded y.0
    → IsBounded ((if b then x else y).0)
either-IsBounded true x y h k = h
either-IsBounded false x y h k = k

add-IsBounded :
    (s : Session) (key : Text) (ch : ℕ) → IsBounded s → IsBounded ((add_pending key ch s).0)
unfolding add_pending
add-IsBounded s key ch h = either-IsBounded s.closed _ _ h (elim (waiting_cases key s h) [
  | inr (c, w) ↦ rw w h
  | inl w ↦ elim (Bool-cases (leb s.max_pending (total s.pending))) [
    | inl f ↦ rw (w, f) h
    | inr f ↦
        let room : total s.pending + 1 ≤ s.max_pending + length (waiting s key) =
          rw w (ground arith) in
        rw (w, f) (assign-IsBounded key ch s room h)
  ]
])

put-IsBounded :
    (s : Session) (key : Text) (c : ℕ)
    → waiting s key ≡ c ∷ []
    → IsBounded s
    → IsBounded (put_items key (c ∷ []) s)
put-IsBounded s key c w h =
    let room : total s.pending + 1 ≤ s.max_pending + length (waiting s key) =
      let b = h.bounded in rw w (omega arith) in
    assign-IsBounded key c s room h

remove-IsBounded :
    (s : Session) (key : Text) (ch : ℕ) → IsBounded s → IsBounded (remove_pending key ch s)
unfolding remove_pending remove_item
remove-IsBounded s key ch h = elim (waiting_cases key s h) [
  | inl w ↦ rw (w, remove_pending) (delete-IsBounded key s h)
  | inr (c, w) ↦ elim (Bool-cases (nat_eq c ch)) [
    | inl e ↦ rw (w, remove_pending, e) (delete-IsBounded key s h)
    | inr e ↦ rw (w, remove_pending, e) (put-IsBounded s key c w h)
  ]
]

resolve-IsBounded : (s : Session) (key : Text) → IsBounded s → IsBounded ((resolve key s).0)
unfolding resolve
resolve-IsBounded s key h = elim (waiting_cases key s h) [
  | inl w ↦ rw (w, resolve) h
  | inr (c, w) ↦ rw (w, resolve) (delete-IsBounded key s h)
]

-- `addPending`, `removePending` and `resolve` keep the table of the requests bounded: a key waits
-- for at most one acknowledgement, and there are at most `maxPending` of them.
pub pending-IsBounded :
    (s : Session) (key : Text) (ch : ℕ)
    → IsBounded s
    → IsBounded ((add_pending key ch s).0)
      × IsBounded (remove_pending key ch s)
      × IsBounded ((resolve key s).0)
pending-IsBounded s key ch h =
    (add-IsBounded s key ch h, remove-IsBounded s key ch h, resolve-IsBounded s key h)
