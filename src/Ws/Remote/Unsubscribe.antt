-- ===== src/Ws/Remote/Unsubscribe.antt =====
-- `unsubscribeMarketAssets` and `replayMarketSubscription` keep the far end in step.
use mathlib.Core.List.{map}
use polymarket_client.Base.{
  ◌≡◌, refl, ◌∙◌, inl, inr, Bool, true, false, not, ◌&&◌, Option, none, some, List, [], ◌∷◌, arith,
  is_empty, contains, Bool-cases, Option-cases, any, if◌then◌else◌, nat_eq, contains-keep_if,
  keep_if,
}
use polymarket_client.Base.Map.{lookup, IsMap, any-lookup}
use polymarket_client.Base.Text.{Text, text_Comparable, text_eq_iff}
use polymarket_client.Ws.Strings.Defs.{canonical_strings}
use polymarket_client.Ws.Strings.Canonical.{canonical_strings-IsSorted}
use polymarket_client.Ws.Strings.Sorted.{
  IsDistinct, IsSorted-IsDistinct, keep_if-IsDistinct, contains-sort_strings,
}
use polymarket_client.Ws.Market.State.{
  Feature, MarketState, Refs, asset_refs, asset_active, asset_custom_active, feature_count,
  asset_active_excluding_feature, active_asset_ids, custom_active, custom_entry,
}
use polymarket_client.Ws.Market.Counts.{IsValid}
use polymarket_client.Ws.Market.Active.{active_of_count, asset_custom_active-asset_active}
use polymarket_client.Ws.Client.{
  empty, unsubscribe, MarketFrame, Client, market_frame, decrement_ids, removed_ids, decrement_all,
  unsubscribe_market_assets, replay_market_subscription, replay_initial_dump,
}
use polymarket_client.Ws.Client.Loops.{
  asset_active-decrement_all, asset_custom_active-decrement_all,
}
use polymarket_client.Ws.Remote.{Remote, fresh, InSync, receive_all, send_if_any-cases}
use polymarket_client.Ws.Remote.Subscribe.{commit-InSync}

module _ (s : MarketState) (f : Feature) (ids : List Text) (d : IsDistinct ids)
    (v : IsValid s) where
  active_after :
      (a : Text)
      → asset_active (decrement_all s (decrement_ids s f ids) f) a
        ≡ (asset_active s a && not (contains (removed_ids s f ids) a))
  unfolding decrement_ids removed_ids
  active_after a = ground (
    arith,
    asset_active-decrement_all f s (decrement_ids s f ids) a (keep_if-IsDistinct _ ids d) v,
    contains-keep_if (λ id. not (nat_eq (feature_count s id f) 0)) ids a,
    contains-keep_if
        (λ id. nat_eq (feature_count s id f) 1 && not (asset_active_excluding_feature s id f)) ids
        a,
    active_of_count s a f,
  )

  custom_after :
      (r : Remote) (a : Text)
      → InSync r s
      → asset_custom_active (decrement_all s (decrement_ids s f ids) f) a ≡ true
      → (r.custom a ≡ true) × (contains (removed_ids s f ids) a ≡ false)
  custom_after r a h c =
      let s' = decrement_all s (decrement_ids s f ids) f in
      let active = asset_custom_active-asset_active s' a c in
      (
        h.custom a (asset_custom_active-decrement_all f s (decrement_ids s f ids) a c),
        ground (arith, active_after a),
      )

  removed-InSync :
      (r : Remote) (removed : List Text)
      → removed ≡ removed_ids s f ids
      → InSync r s
      → InSync
          (receive_all r
            (if is_empty removed then [] else market_frame removed unsubscribe none false ∷ []))
          (decrement_all s (decrement_ids s f ids) f)
  unfolding market_frame
  removed-InSync r [] e h = record {
    active = λ a. rw (active_after a, ← e) (ground (arith, h.active a));
    custom = λ a c. (custom_after r a h c).0;
  }
  removed-InSync r (x ∷ xs) e h = record {
    active = λ a. rw (active_after a, ← e) (ground (arith, h.active a));
    custom = λ a c.
        let p = custom_after r a h c in
        let q : contains (x ∷ xs) a ≡ false = rw (← e) at p.1 in ground arith;
  }

pub unsubscribe-InSync :
    (write : MarketFrame → Option Text) (c : Client) (f : Feature) (r : Remote)
    (asset_ids : List Text)
    → IsValid c.market_subs
    → InSync r c.market_subs
    → let o = unsubscribe_market_assets write c f asset_ids in
      InSync (receive_all r o.sent) o.client.market_subs
unfolding unsubscribe_market_assets
unsubscribe-InSync write c f r asset_ids v h =
    let ids = canonical_strings asset_ids in
    let d = IsSorted-IsDistinct ids (canonical_strings-IsSorted asset_ids) in
    let s = c.market_subs in
    elim (Bool-cases (is_empty ids)) [
      | inl e ↦ rw e h
      | inr e ↦ rw e (elim (Bool-cases (is_empty (decrement_ids s f ids))) [
        | inl z ↦ rw z h
        | inr z ↦ rw z (
            commit-InSync r c _ _ _
              (send_if_any-cases write c (removed_ids s f ids) unsubscribe none false) h
              (removed-InSync s f ids d v r (removed_ids s f ids) refl h))
      ])
    ]

abbrev refs_of : Option Refs → Refs
refs_of none = []
refs_of (some refs) = refs

contains_keys :
    (m : List (Text × Refs)) (a : Text)
    → IsMap m
    → contains (map (λ e. e.0) (keep_if (λ e. not (is_empty e.1)) m)) a
      ≡ not (is_empty (refs_of (lookup a m)))
unfolding lookup
contains_keys [] a h = refl
contains_keys ((j, refs) ∷ m) a h = ground (arith, text_eq_iff j a, contains_keys m a h.1)

-- `activeAssetIDs` lists exactly the active assets.
pub contains-active_asset_ids :
    (s : MarketState) (a : Text) → IsValid s → contains (active_asset_ids s) a ≡ asset_active s a
unfolding active_asset_ids asset_active asset_refs
contains-active_asset_ids s a v =
    contains-sort_strings (map (λ e. e.0) (keep_if (λ e. not (is_empty e.1)) s.assets)) a
    ∙ ground (arith, contains_keys s.assets a v.is_map)

asset_custom_active-custom_active :
    (s : MarketState) (a : Text) → asset_custom_active s a ≡ true → custom_active s ≡ true
unfolding asset_custom_active custom_active asset_refs
asset_custom_active-custom_active s a h = elim (Option-cases (lookup a s.assets)) [
  | inl e ↦ let h' = rw (e, asset_refs) at h in cc
  | inr (refs, e) ↦ any-lookup (λ e. any custom_entry e.1) a s.assets e (rw (e, asset_refs) at h)
]

replayed-InSync :
    (s : MarketState) (ids : List Text) (dump : Option Bool)
    → ((a : Text) → contains ids a ≡ asset_active s a)
    → InSync
        (receive_all fresh
          (if is_empty ids then [] else market_frame ids empty dump (custom_active s) ∷ []))
        s
unfolding market_frame
replayed-InSync s [] dump e = record {
  active = e;
  custom = λ a c. ground (arith, e a, asset_custom_active-asset_active s a);
}
replayed-InSync s (x ∷ xs) dump e = record {
  active = e;
  custom = λ a c.
      ground
        (arith, e a, asset_custom_active-asset_active s a, asset_custom_active-custom_active s a);
}

-- On a new connection the replayed frame brings the far end up to the counts, if it is written.
pub replay-InSync :
    (write : MarketFrame → Option Text) (c : Client)
    → IsValid c.market_subs
    → let m = replay_market_subscription write c in
      m.failed ≡ none → InSync (receive_all fresh m.frames) c.market_subs
unfolding replay_market_subscription
replay-InSync write c v ok =
    let s = c.market_subs in
    let ids = active_asset_ids s in
    let dump = replay_initial_dump c in
    let synced = replayed-InSync s ids dump (λ a. contains-active_asset_ids s a v) in
    elim (send_if_any-cases write c ids empty dump (custom_active s)) [
      | inl (e, p) ↦ rw p synced
      | inr (x, e, p) ↦ absurd (cc)
    ]
