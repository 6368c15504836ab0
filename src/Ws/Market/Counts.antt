-- ===== src/Ws/Market/Counts.antt =====
-- What `increment` and `decrement` do to every count, and the invariant they keep.
use polymarket_client.Base.{
  ℕ, suc, ◌+◌, ◌-◌, ◌<◌, ◌≡◌, refl, inl, inr, false, ◌&&◌, [], arith, nat_eq, if◌then◌else◌, All,
  is_empty, is_empty-eq, Option-cases,
}
use polymarket_client.Base.Map.{lookup, assign, IsMap, lookup-assign, lookup-delete}
use polymarket_client.Base.Text.{Text, text_eq, text_eq_iff, text_Comparable}
use polymarket_client.Ws.Market.State.{
  Feature, feature_eq, feature_eq_iff, feature_Comparable, Refs, MarketState, ref_count, asset_refs,
  feature_count, increment, lower, decrement,
}

-- The counts of one asset: one entry for each feature, none of them 0, and at least one.
pub record IsRefs (refs : Refs) : Type 0 where
  pub is_map : IsMap refs
  pub positive : All (λ e. 0 < e.1) refs
  pub nonempty : is_empty refs ≡ false

-- One entry for each asset, and each holds proper counts.
pub record IsValid (s : MarketState) : Type 0 where
  pub is_map : IsMap s.assets
  pub counts : All (λ e. IsRefs e.1) s.assets

ref_count-assign :
    (refs : Refs) (f g : Feature) (n : ℕ)
    → ref_count (assign f n refs) g ≡ (if feature_eq f g then n else ref_count refs g)
unfolding ref_count
ref_count-assign refs f g n = ground (arith, lookup-assign f g n refs)

ref_count-lower :
    (refs : Refs) (f g : Feature)
    → ref_count (lower refs f) g
      ≡ (if feature_eq f g then ref_count refs f - 1 else ref_count refs g)
unfolding ref_count lower
ref_count-lower refs f g =
    ground (arith, lookup-assign f g (ref_count refs f - 1) refs, lookup-delete f g refs)

ref_count-nil : (f : Feature) → ref_count [] f ≡ 0
unfolding ref_count lookup
ref_count-nil f = refl

pub asset_refs-increment :
    (s : MarketState) (id j : Text) (f : Feature)
    → asset_refs (increment s id f) j ≡ (
        if text_eq id j
        then assign f (suc (ref_count (asset_refs s id) f)) (asset_refs s id)
        else asset_refs s j)
unfolding increment asset_refs
asset_refs-increment s id j f = ground (
  arith,
  lookup-assign id j (assign f (suc (ref_count (asset_refs s id) f)) (asset_refs s id)) s.assets,
)

pub asset_refs-decrement :
    (s : MarketState) (id j : Text) (f : Feature)
    → asset_refs (decrement s id f) j ≡ (
        if text_eq id j
        then (if nat_eq (ref_count (asset_refs s id) f) 0
            then asset_refs s id
            else lower (asset_refs s id) f)
        else asset_refs s j)
unfolding decrement asset_refs
asset_refs-decrement s id j f = elim (Option-cases (lookup id s.assets)) [
  | inl e ↦ ground (arith, text_eq_iff id j, ref_count-nil f)
  | inr (refs, e) ↦ ground (
    arith,
    text_eq_iff id j,
    lookup-assign id j (lower refs f) s.assets,
    lookup-delete id j s.assets,
    is_empty-eq (lower refs f),
  )
]

-- Every count is that of the asset's map.
pub feature_count-asset_refs :
    (s : MarketState) (id : Text) (f : Feature)
    → feature_count s id f ≡ ref_count (asset_refs s id) f
unfolding feature_count asset_refs ref_count lookup
feature_count-asset_refs s id f = ground arith

-- `increment` raises the count of its asset and feature by one, and leaves all other counts.
pub feature_count-increment :
    (s : MarketState) (id j : Text) (f g : Feature)
    → feature_count (increment s id f) j g
      ≡ feature_count s j g + (if text_eq id j && feature_eq f g then 1 else 0)
feature_count-increment s id j f g = ground (
  arith,
  text_eq_iff id j,
  feature_eq_iff f g,
  feature_count-asset_refs (increment s id f) j g,
  feature_count-asset_refs s j g,
  asset_refs-increment s id j f,
  ref_count-assign (asset_refs s id) f g (suc (ref_count (asset_refs s id) f)),
)

-- `decrement` lowers the count of its asset and feature by one unless it is 0, and leaves all
-- other counts.
pub feature_count-decrement :
    (s : MarketState) (id j : Text) (f g : Feature)
    → feature_count (decrement s id f) j g
      ≡ feature_count s j g - (if text_eq id j && feature_eq f g then 1 else 0)
feature_count-decrement s id j f g = ground (
  arith,
  text_eq_iff id j,
  feature_eq_iff f g,
  feature_count-asset_refs (decrement s id f) j g,
  feature_count-asset_refs s j g,
  asset_refs-decrement s id j f,
  ref_count-lower (asset_refs s id) f g,
)
