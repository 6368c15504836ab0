-- ===== src/Ws/Market/Valid.antt =====
-- The invariant of the reference counts.
use polymarket_client.Base.{
  ℕ, suc, ◌-◌, ◌<◌, ◌≡◌, refl, inl, inr, false, [], ◌∷◌, arith, nat_eq, All, is_empty, Bool-cases,
  Option-cases, ◌≢◌,
}
use polymarket_client.Base.Map.{
  lookup, assign, IsMap, assign-IsMap, delete-IsMap, All-assign, All-delete, All-lookup,
}
use polymarket_client.Base.Text.{Text, text_Comparable}
use polymarket_client.Ws.Market.State.{
  Feature, feature_Comparable, Refs, MarketState, ref_count, asset_refs, increment, lower,
  decrement, new_market_state,
}
use polymarket_client.Ws.Market.Counts.{IsRefs, IsValid}

pub assign-nonempty : (f : Feature) (n : ℕ) (refs : Refs) → is_empty (assign f n refs) ≡ false
unfolding assign
assign-nonempty f n [] = refl
assign-nonempty f n (e ∷ refs) = ground arith

assign-IsRefs :
    (f : Feature) (n : ℕ) (refs : Refs)
    → 0 < n
    → IsMap refs
    → All (λ e. 0 < e.1) refs
    → IsRefs (assign f n refs)
assign-IsRefs f n refs h m p = record {
  is_map = assign-IsMap f n refs m;
  positive = All-assign (λ e. 0 < e.1) f n refs h p;
  nonempty = assign-nonempty f n refs;
}

lower-IsRefs :
    (f : Feature) (refs : Refs)
    → IsRefs refs
    → ref_count refs f ≢ 0
    → is_empty (lower refs f) ≡ false
    → IsRefs (lower refs f)
unfolding lower
lower-IsRefs f refs v n h = elim (Bool-cases (nat_eq (ref_count refs f) 1)) [
  | inl e ↦ rw e (record {
    is_map = delete-IsMap f refs v.is_map;
    positive = All-delete (λ e. 0 < e.1) f refs v.positive;
    nonempty = rw e at h;
  })
  | inr e ↦ rw e (assign-IsRefs f (ref_count refs f - 1) refs (ground arith) v.is_map v.positive)
]

pub new_market_state-IsValid : IsValid new_market_state
unfolding new_market_state
new_market_state-IsValid = record { is_map = tt; counts = tt }

pub increment-IsValid :
    (s : MarketState) (id : Text) (f : Feature) → IsValid s → IsValid (increment s id f)
unfolding increment asset_refs
increment-IsValid s id f v = record {
  is_map = assign-IsMap id _ s.assets v.is_map;
  counts = All-assign (λ e. IsRefs e.1) id _ s.assets new v.counts;
}
  where
    refs : Refs
    refs = asset_refs s id

    new : IsRefs (assign f (suc (ref_count refs f)) refs)
    new = elim (Option-cases (lookup id s.assets)) [
      | inl e ↦ rw (e, asset_refs) (assign-IsRefs f _ [] (omega arith) tt tt)
      | inr (r, e) ↦
          let w = All-lookup (λ e. IsRefs e.1) id s.assets v.counts e in
          rw (e, asset_refs) (assign-IsRefs f _ r (omega arith) w.is_map w.positive)
    ]

pub decrement-IsValid :
    (s : MarketState) (id : Text) (f : Feature) → IsValid s → IsValid (decrement s id f)
unfolding decrement
decrement-IsValid s id f v = elim (Option-cases (lookup id s.assets)) [
  | inl e ↦ rw (e, decrement) v
  | inr (r, e) ↦
      rw (e, decrement)
        (elim (Bool-cases (nat_eq (ref_count r f) 0)) [
          | inl z ↦ rw z v
          | inr z ↦ rw z (elim (Bool-cases (is_empty (lower r f))) [
            | inl y ↦ rw y (record {
              is_map = delete-IsMap id s.assets v.is_map;
              counts = All-delete (λ e. IsRefs e.1) id s.assets v.counts;
            })
            | inr y ↦ rw y (record {
              is_map = assign-IsMap id _ s.assets v.is_map;
              counts =
                  All-assign (λ e. IsRefs e.1) id _ s.assets
                    (lower-IsRefs f r (All-lookup (λ e. IsRefs e.1) id s.assets v.counts e)
                      (ground arith) y)
                    v.counts;
            })
          ])
        ])
]
