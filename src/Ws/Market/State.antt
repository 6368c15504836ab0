-- ===== src/Ws/Market/State.antt =====
-- `marketSubscriptionState`: for each asset, how many subscriptions each feature has.
-- A Go map is an association list, and an `int` counter, of at most the calls made, a number.
use polymarket_client.Base.{
  ℕ, suc, ◌-◌, ◌≡◌, ◌↔◌, Bool, true, false, not, ◌&&◌, Option, none, some, List, [], map, arith,
  ltb, nat_eq, if◌then◌else◌, Comparable, length, any, is_empty, keep_if,
}
use polymarket_client.Base.Map.{lookup, assign, delete}
use polymarket_client.Base.Text.{Text, text_Comparable}
use polymarket_client.Ws.Strings.Defs.{sort_strings}

-- `marketSubscriptionFeature`, a `uint8` by `iota`.
pub data Feature : Type 0 where
  order_book prices last_trade_price tick_size_change midpoints best_bid_ask : Feature
  new_markets market_resolutions : Feature

unfoldable pub code_of : Feature → ℕ
code_of order_book = 0
code_of prices = 1
code_of last_trade_price = 2
code_of tick_size_change = 3
code_of midpoints = 4
code_of best_bid_ask = 5
code_of new_markets = 6
code_of market_resolutions = 7

unfoldable pub feature_eq : Feature → Feature → Bool
feature_eq f g = nat_eq (code_of f) (code_of g)

pub feature_eq_iff : (f g : Feature) → (feature_eq f g ≡ true) ↔ (f ≡ g)
unfolding feature_eq code_of
feature_eq_iff f g = ground arith

instance abbrev pub feature_Comparable : Comparable Feature
feature_Comparable = record { same_as = feature_eq; same_iff = feature_eq_iff }

unfoldable pub supports_initial_dump : Feature → Bool
supports_initial_dump f = feature_eq f order_book

unfoldable pub requires_custom : Feature → Bool
requires_custom best_bid_ask = true
requires_custom new_markets = true
requires_custom market_resolutions = true
requires_custom _ = false

abbrev pub Refs : Type 0
Refs = List (Feature × ℕ)

pub record MarketState : Type 0 where
  pub assets : List (Text × Refs)

unfoldable pub new_market_state : MarketState
new_market_state = record { assets = [] }

abbrev pub value_or : Option ℕ → ℕ
value_or none = 0
value_or (some n) = n

-- `refs[feature]`, which is 0 for a missing key.
unfoldable pub ref_count : Refs → Feature → ℕ
ref_count refs f = value_or (lookup f refs)

-- `s.assets[assetID]`, which is nil, an empty map, for a missing key.
unfoldable pub asset_refs : MarketState → Text → Refs
asset_refs s id = elim (lookup id s.assets) [ none ↦ [] | some refs ↦ refs ]

unfoldable pub feature_count : MarketState → Text → Feature → ℕ
feature_count s id f = elim (lookup id s.assets) [ none ↦ 0 | some refs ↦ ref_count refs f ]

unfoldable pub increment : MarketState → Text → Feature → MarketState
increment s id f =
    let refs = asset_refs s id in
    record s { assets = assign id (assign f (suc (ref_count refs f)) refs) s.assets }

-- The map that `decrement` leaves for the asset.
unfoldable pub lower : Refs → Feature → Refs
lower refs f =
    if nat_eq (ref_count refs f) 1 then delete f refs else assign f (ref_count refs f - 1) refs

unfoldable pub decrement : MarketState → Text → Feature → MarketState
decrement s id f = elim (lookup id s.assets) [
  | none ↦ s
  | some refs ↦
      if nat_eq (ref_count refs f) 0
      then s
      else let refs' = lower refs f in
        if is_empty refs'
        then record s { assets = delete id s.assets }
        else record s { assets = assign id refs' s.assets }
]

unfoldable pub asset_active : MarketState → Text → Bool
asset_active s id = not (is_empty (asset_refs s id))

unfoldable pub asset_active_excluding_feature : MarketState → Text → Feature → Bool
asset_active_excluding_feature s id f =
    any (λ e. not (feature_eq e.0 f) && ltb 0 e.1) (asset_refs s id)

unfoldable pub custom_entry : Feature × ℕ → Bool
custom_entry e = ltb 0 e.1 && requires_custom e.0

unfoldable pub asset_custom_active : MarketState → Text → Bool
asset_custom_active s id = any custom_entry (asset_refs s id)

unfoldable pub active_count : MarketState → ℕ
active_count s = length s.assets

unfoldable pub active_asset_ids : MarketState → List Text
active_asset_ids s = sort_strings (map (λ e. e.0) (keep_if (λ e. not (is_empty e.1)) s.assets))

unfoldable pub initial_dump_active : MarketState → Bool
initial_dump_active s = any (λ e. ltb 0 (ref_count e.1 order_book)) s.assets

unfoldable pub custom_active : MarketState → Bool
custom_active s = any (λ e. any custom_entry e.1) s.assets
