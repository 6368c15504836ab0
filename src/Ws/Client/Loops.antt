-- ===== src/Ws/Client/Loops.antt =====
-- The loops over the ids that raise or lower the counts.
use polymarket_client.Base.{
  ◌+◌, ◌-◌, ◌≡◌, refl, true, false, ◌&&◌, ◌||◌, List, [], ◌∷◌, arith, nat_eq, if◌then◌else◌,
  contains,
}
use polymarket_client.Base.Text.{Text, text_eq, text_eq_iff, text_Comparable}
use polymarket_client.Ws.Strings.Sorted.{IsDistinct}
use polymarket_client.Ws.Market.State.{
  Feature, feature_eq, MarketState, feature_count, increment, decrement, asset_active,
  asset_active_excluding_feature, asset_custom_active, requires_custom,
}
use polymarket_client.Ws.Market.Counts.{
  IsValid, feature_count-increment, feature_count-decrement, asset_refs-decrement,
}
use polymarket_client.Ws.Market.Valid.{increment-IsValid, decrement-IsValid}
use polymarket_client.Ws.Market.Active.{
  asset_active-increment, asset_active-decrement, asset_custom_active-increment,
  asset_custom_active-decrement,
}
use polymarket_client.Ws.Client.{increment_all, decrement_all}

module _ (f : Feature) where
  pub increment_all-IsValid :
      (s : MarketState) (ids : List Text) → IsValid s → IsValid (increment_all s ids f)
  unfolding increment_all
  increment_all-IsValid s [] v = v
  increment_all-IsValid s (i ∷ ids) v =
      increment_all-IsValid (increment s i f) ids (increment-IsValid s i f v)

  pub decrement_all-IsValid :
      (s : MarketState) (ids : List Text) → IsValid s → IsValid (decrement_all s ids f)
  unfolding decrement_all
  decrement_all-IsValid s [] v = v
  decrement_all-IsValid s (i ∷ ids) v =
      decrement_all-IsValid (decrement s i f) ids (decrement-IsValid s i f v)

  pub feature_count-increment_all :
      (s : MarketState) (ids : List Text) (a : Text) (g : Feature)
      → IsDistinct ids
      → feature_count (increment_all s ids f) a g
        ≡ feature_count s a g + (if contains ids a && feature_eq f g then 1 else 0)
  unfolding increment_all
  feature_count-increment_all s [] a g d = omega arith
  feature_count-increment_all s (i ∷ ids) a g d = ground (
    arith,
    text_eq_iff i a,
    feature_count-increment s i a f g,
    feature_count-increment_all (increment s i f) ids a g d.1,
  )

  pub feature_count-decrement_all :
      (s : MarketState) (ids : List Text) (a : Text) (g : Feature)
      → IsDistinct ids
      → feature_count (decrement_all s ids f) a g
        ≡ feature_count s a g - (if contains ids a && feature_eq f g then 1 else 0)
  unfolding decrement_all
  feature_count-decrement_all s [] a g d = omega arith
  feature_count-decrement_all s (i ∷ ids) a g d = ground (
    arith,
    text_eq_iff i a,
    feature_count-decrement s i a f g,
    feature_count-decrement_all (decrement s i f) ids a g d.1,
  )

  pub asset_active-increment_all :
      (s : MarketState) (ids : List Text) (a : Text)
      → asset_active (increment_all s ids f) a ≡ (contains ids a || asset_active s a)
  unfolding increment_all
  asset_active-increment_all s [] a = refl
  asset_active-increment_all s (i ∷ ids) a =
      ground
        (arith, asset_active-increment s i a f, asset_active-increment_all (increment s i f) ids a)

  pub asset_custom_active-increment_all :
      (s : MarketState) (ids : List Text) (a : Text)
      → asset_custom_active (increment_all s ids f) a
        ≡ ((contains ids a && requires_custom f) || asset_custom_active s a)
  unfolding increment_all
  asset_custom_active-increment_all s [] a = refl
  asset_custom_active-increment_all s (i ∷ ids) a = ground (
    arith,
    asset_custom_active-increment s i a f,
    asset_custom_active-increment_all (increment s i f) ids a,
  )

  excluding-decrement :
      (s : MarketState) (i a : Text)
      → text_eq i a ≡ false
      → asset_active_excluding_feature (decrement s i f) a f ≡ asset_active_excluding_feature s a f
  unfolding asset_active_excluding_feature
  excluding-decrement s i a h = rw (asset_refs-decrement s i a f, h)

  pub asset_active-decrement_all :
      (s : MarketState) (ids : List Text) (a : Text)
      → IsDistinct ids
      → IsValid s
      → asset_active (decrement_all s ids f) a ≡ (
          if contains ids a && nat_eq (feature_count s a f) 1
          then asset_active_excluding_feature s a f
          else asset_active s a)
  unfolding decrement_all
  asset_active-decrement_all s [] a d v = refl
  asset_active-decrement_all s (i ∷ ids) a d v = ground (
    arith,
    text_eq_iff i a,
    excluding-decrement s i a,
    feature_count-decrement s i a f f,
    asset_active-decrement s i a f v,
    asset_active-decrement_all (decrement s i f) ids a d.1 (decrement-IsValid s i f v),
  )

  pub asset_custom_active-decrement_all :
      (s : MarketState) (ids : List Text) (a : Text)
      → asset_custom_active (decrement_all s ids f) a ≡ true
      → asset_custom_active s a ≡ true
  unfolding decrement_all
  asset_custom_active-decrement_all s [] a h = h
  asset_custom_active-decrement_all s (i ∷ ids) a h =
      asset_custom_active-decrement s i a f
        (asset_custom_active-decrement_all (decrement s i f) ids a h)
