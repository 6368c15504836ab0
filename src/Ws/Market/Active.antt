-- ===== src/Ws/Market/Active.antt =====
-- Which assets are active, and which need the custom feature, after a step of the counts.
use polymarket_client.Base.{
  ℕ, suc, ◌-◌, ◌<◌, ◌≡◌, refl, inl, inr, Bool, true, false, not, ◌&&◌, ◌||◌, List, [], ◌∷◌, arith,
  ltb, nat_eq, if◌then◌else◌, All, any, is_empty, Bool-cases, Option-cases, ◌↔◌, ◌≢◌,
}
use polymarket_client.Base.Map.{lookup, assign, delete, IsMap, All-lookup, any-lookup, any-delete}
use polymarket_client.Base.Text.{Text, text_eq, text_eq_iff, text_Comparable}
use polymarket_client.Ws.Market.State.{
  Feature, feature_eq, feature_eq_iff, feature_Comparable, Refs, MarketState, ref_count, asset_refs,
  feature_count, increment, lower, decrement, asset_active, asset_active_excluding_feature,
  asset_custom_active, custom_entry, requires_custom,
}
use polymarket_client.Ws.Market.Counts.{
  IsRefs, IsValid, feature_count-asset_refs, asset_refs-increment, asset_refs-decrement,
}
use polymarket_client.Ws.Market.Valid.{assign-nonempty}

-- What holds of the map of an asset, the empty map of an asset without subscriptions included.
record IsCounts (refs : Refs) : Type 0 where
  is_map : IsMap refs
  positive : All (λ e. 0 < e.1) refs

asset_refs-IsCounts : (s : MarketState) (id : Text) → IsValid s → IsCounts (asset_refs s id)
unfolding asset_refs
asset_refs-IsCounts s id v = elim (Option-cases (lookup id s.assets)) [
  | inl e ↦ rw (e, asset_refs) (record { is_map = tt; positive = tt })
  | inr (r, e) ↦
      let w = All-lookup (λ e. IsRefs e.1) id s.assets v.counts e in
      rw (e, asset_refs) (record { is_map = w.is_map; positive = w.positive })
]

pub asset_active-increment :
    (s : MarketState) (id j : Text) (f : Feature)
    → asset_active (increment s id f) j ≡ (text_eq id j || asset_active s j)
unfolding asset_active
asset_active-increment s id j f = ground (
  arith,
  asset_refs-increment s id j f,
  assign-nonempty f (suc (ref_count (asset_refs s id) f)) (asset_refs s id),
)

nonempty-delete :
    (f : Feature) (refs : Refs)
    → All (λ e. 0 < e.1) refs
    → not (is_empty (delete f refs)) ≡ any (λ e. not (feature_eq e.0 f) && ltb 0 e.1) refs
unfolding delete
nonempty-delete f [] h = refl
nonempty-delete f ((g, n) ∷ refs) h = ground (arith, nonempty-delete f refs h.1)

nonempty_of_count : (refs : Refs) (f : Feature) → ref_count refs f ≢ 0 → is_empty refs ≡ false
unfolding ref_count lookup
nonempty_of_count [] f h = absurd (h refl)
nonempty_of_count (e ∷ refs) f h = refl

abbrev other_entry : Feature → Feature × ℕ → Bool
other_entry f e = not (feature_eq e.0 f) && ltb 0 e.1

nonempty-lower :
    (f : Feature) (refs : Refs)
    → All (λ e. 0 < e.1) refs
    → not (is_empty (lower refs f))
      ≡ (if nat_eq (ref_count refs f) 1 then any (other_entry f) refs else true)
unfolding lower
nonempty-lower f refs h =
    ground (arith, nonempty-delete f refs h, assign-nonempty f (ref_count refs f - 1) refs)

-- Lowering the last count of an asset leaves it active exactly if another feature has a count.
pub asset_active-decrement :
    (s : MarketState) (id j : Text) (f : Feature)
    → IsValid s
    → asset_active (decrement s id f) j ≡ (
        if text_eq id j && nat_eq (feature_count s id f) 1
        then asset_active_excluding_feature s id f
        else asset_active s j)
unfolding asset_active asset_active_excluding_feature
asset_active-decrement s id j f v = ground (
  arith,
  text_eq_iff id j,
  asset_refs-decrement s id j f,
  feature_count-asset_refs s id f,
  nonempty-lower f (asset_refs s id) (asset_refs-IsCounts s id v).positive,
  nonempty_of_count (asset_refs s id) f,
)

custom-assign :
    (f : Feature) (n : ℕ) (refs : Refs)
    → any custom_entry (assign f (suc n) refs) ≡ (requires_custom f || any custom_entry refs)
unfolding assign custom_entry
custom-assign f n [] = ground arith
custom-assign f n ((g, w) ∷ refs) = ground (arith, feature_eq_iff g f, custom-assign f n refs)

pub asset_custom_active-increment :
    (s : MarketState) (id j : Text) (f : Feature)
    → asset_custom_active (increment s id f) j
      ≡ ((text_eq id j && requires_custom f) || asset_custom_active s j)
unfolding asset_custom_active
asset_custom_active-increment s id j f = ground (
  arith,
  text_eq_iff id j,
  asset_refs-increment s id j f,
  custom-assign f (ref_count (asset_refs s id) f) (asset_refs s id),
)

any-nonempty {ℓ} : {A : Type ℓ} (q : A → Bool) (l : List A) → any q l ≡ true → is_empty l ≡ false
any-nonempty q [] h = cc
any-nonempty q (x ∷ l) h = refl

pub asset_custom_active-asset_active :
    (s : MarketState) (id : Text) → asset_custom_active s id ≡ true → asset_active s id ≡ true
unfolding asset_custom_active asset_active
asset_custom_active-asset_active s id h =
    ground (arith, any-nonempty custom_entry (asset_refs s id))

custom_of_count :
    (refs : Refs) (f : Feature)
    → ref_count refs f ≢ 0
    → requires_custom f ≡ true
    → any custom_entry refs ≡ true
unfolding ref_count
custom_of_count refs f n c = elim (Option-cases (lookup f refs)) [
  | inl e ↦ absurd (ground arith)
  | inr (m, e) ↦ any-lookup custom_entry f refs e (unfold custom_entry in ground arith)
]

custom-lower :
    (f : Feature) (refs : Refs)
    → ref_count refs f ≢ 0
    → any custom_entry (lower refs f) ≡ true
    → any custom_entry refs ≡ true
unfolding lower
custom-lower f refs n h = elim (Bool-cases (nat_eq (ref_count refs f) 1)) [
  | inl e ↦ any-delete custom_entry f refs (rw e at h)
  | inr e ↦
      let p : ref_count refs f - 1 ≡ suc (ref_count refs f - 2) = ground arith in
      let h' = rw (e, p) at h in
      ground (arith, custom-assign f (ref_count refs f - 2) refs, custom_of_count refs f n)
]

-- Lowering a count makes no asset need the custom feature.
pub asset_custom_active-decrement :
    (s : MarketState) (id j : Text) (f : Feature)
    → asset_custom_active (decrement s id f) j ≡ true
    → asset_custom_active s j ≡ true
unfolding asset_custom_active
asset_custom_active-decrement s id j f h =
    ground
      (arith, text_eq_iff id j, asset_refs-decrement s id j f, custom-lower f (asset_refs s id))

count_of_nonempty :
    (refs : Refs)
    → All (λ e. 0 < e.1) refs
    → not (is_empty refs) ≡ true
    → (f : Feature) × (0 < ref_count refs f)
unfolding ref_count lookup
count_of_nonempty [] p h = cc
count_of_nonempty ((f, n) ∷ refs) p h = let same = (feature_eq_iff f f).1 refl in (f, ground arith)

-- An asset is active exactly if one of its features has a count.
pub asset_active_iff :
    (s : MarketState) (id : Text)
    → IsValid s
    → (asset_active s id ≡ true) ↔ ((f : Feature) × (0 < feature_count s id f))
unfolding asset_active
asset_active_iff s id v = (
  λ h.
      let (f, p) = count_of_nonempty (asset_refs s id) (asset_refs-IsCounts s id v).positive h in
      (f, omega (arith, feature_count-asset_refs s id f)),
  λ p. ground (arith, feature_count-asset_refs s id p.0, nonempty_of_count (asset_refs s id) p.0),
)

pub active_of_count :
    (s : MarketState) (id : Text) (f : Feature)
    → feature_count s id f ≢ 0
    → asset_active s id ≡ true
unfolding asset_active
active_of_count s id f h =
    ground (arith, feature_count-asset_refs s id f, nonempty_of_count (asset_refs s id) f)

pub custom_active_of_count :
    (s : MarketState) (id : Text) (f : Feature)
    → requires_custom f ≡ true
    → 0 < feature_count s id f
    → asset_custom_active s id ≡ true
unfolding asset_custom_active
custom_active_of_count s id f c h =
    custom_of_count (asset_refs s id) f (omega (arith, feature_count-asset_refs s id f)) c
