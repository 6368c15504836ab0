-- ===== src/Ws/Remote/Subscribe.antt =====
-- `subscribeMarketAssets` keeps the far end in step, whether its frame is written or not.
use polymarket_client.Base.{
  ◌≡◌, refl, inl, inr, ◌⊎◌, Bool, true, false, not, ◌&&◌, ◌||◌, Option, none, some, List, [], ◌∷◌,
  arith, is_empty, contains, Bool-cases, if◌then◌else◌, nat_eq, All, contains-keep_if, All-keep_if,
  contains-nonempty,
}
use polymarket_client.Base.Text.{Text, text_Comparable}
use polymarket_client.Ws.Strings.Defs.{canonical_strings, union_sorted_strings}
use polymarket_client.Ws.Strings.Canonical.{IsCanonical, canonical_strings-IsCanonical}
use polymarket_client.Ws.Strings.Normal.{contains-union_sorted_strings, union_sorted_strings_lem}
use polymarket_client.Ws.Market.State.{
  Feature, MarketState, asset_active, asset_custom_active, requires_custom, supports_initial_dump,
  feature_count, active_count,
}
use polymarket_client.Ws.Client.{
  Operation, empty, subscribe, MarketFrame, Client, SendError, Sending, market_frame, new_ids,
  custom_enable_ids, initial_dump_ids, frame_union, increment_all, commit, subscribe_market_assets,
  market_initial_dump,
}
use polymarket_client.Ws.Client.Loops.{
  asset_active-increment_all, asset_custom_active-increment_all,
}
use polymarket_client.Ws.Remote.{Remote, InSync, is_unsubscribe, receive_all, send_if_any-cases}

-- The ids of a later frame are those with something to turn on.
pub contains-frame_union :
    (s : MarketState) (f : Feature) (ids : List Text) (a : Text)
    → All IsCanonical ids
    → contains (frame_union s f ids) a ≡ (
        contains ids a
        && (not (asset_active s a)
            || (requires_custom f && not (asset_custom_active s a))
            || (supports_initial_dump f && nat_eq (feature_count s a f) 0)))
unfolding frame_union new_ids custom_enable_ids initial_dump_ids
contains-frame_union s f ids a h = ground (
  arith,
  contains-union_sorted_strings (new_ids s ids) (custom_enable_ids s f ids)
      (All-keep_if IsCanonical _ ids h) (All-keep_if IsCanonical _ ids h) a,
  contains-union_sorted_strings (union_sorted_strings (new_ids s ids) (custom_enable_ids s f ids))
      (initial_dump_ids s f ids)
      (union_sorted_strings_lem (new_ids s ids) (custom_enable_ids s f ids)).1
      (All-keep_if IsCanonical _ ids h) a,
  contains-keep_if (λ id. not (asset_active s id)) ids a,
  contains-keep_if (λ id. requires_custom f && not (asset_custom_active s id)) ids a,
  contains-keep_if (λ id. supports_initial_dump f && nat_eq (feature_count s id f) 0) ids a,
)

-- A frame that names every id with something to turn on brings the far end up to the new counts.
frame-InSync :
    (r : Remote) (s : MarketState) (f : Feature) (ids sent : List Text) (o : Operation)
    (dump : Option Bool) (custom : Bool)
    → is_unsubscribe o ≡ false
    → InSync r s
    → ((a : Text) → contains sent a ≡ true → contains ids a ≡ true)
    → ((a : Text) → contains ids a ≡ true → asset_active s a ≡ false → contains sent a ≡ true)
    → ((a : Text)
        → contains ids a ≡ true
        → requires_custom f ≡ true
        → asset_custom_active s a ≡ false
        → (contains sent a ≡ true) × (custom ≡ true))
    → InSync
        (receive_all r (if is_empty sent then [] else market_frame sent o dump custom ∷ []))
        (increment_all s ids f)
unfolding market_frame
frame-InSync r s f ids [] o dump custom u h sub new cust = record {
  active = λ a. ground (arith, h.active a, new a, asset_active-increment_all f s ids a);
  custom = λ a c. ground (arith, h.custom a, cust a, asset_custom_active-increment_all f s ids a);
}
frame-InSync r s f ids (x ∷ xs) o dump custom u h sub new cust = record {
  active = λ a. ground (arith, h.active a, sub a, new a, asset_active-increment_all f s ids a);
  custom = λ a c. ground (arith, h.custom a, cust a, asset_custom_active-increment_all f s ids a);
}

-- What `commit` leaves is in step, if it is so whenever the frame is written.
pub commit-InSync :
    (r : Remote) (c : Client) (m : Sending) (s : MarketState) (frames : List MarketFrame)
    → ((m.failed ≡ none) × (m.frames ≡ frames))
      ⊎ ((e : SendError) × (m.failed ≡ some e) × (m.frames ≡ []))
    → InSync r c.market_subs
    → InSync (receive_all r frames) s
    → InSync (receive_all r (commit c m s).sent) (commit c m s).client.market_subs
unfolding commit
commit-InSync r c m s frames (inl (e, p)) h k = rw (e, commit) (rw p k)
commit-InSync r c m s frames (inr (x, e, p)) h k = rw (e, commit) (rw p h)

module _ (write : MarketFrame → Option Text) (c : Client) (f : Feature) (r : Remote) where
  first-InSync :
      (ids : List Text)
      → InSync r c.market_subs
      → InSync
          (receive_all r (
            if is_empty ids
            then []
            else market_frame ids empty (market_initial_dump c f true) (requires_custom f) ∷ []))
          (increment_all c.market_subs ids f)
  first-InSync ids h =
      frame-InSync r c.market_subs f ids ids empty _ (requires_custom f) refl h (λ a k. k)
        (λ a k _. k) (λ a k q _. (k, q))

  later-InSync :
      (ids : List Text) (dump : Option Bool)
      → All IsCanonical ids
      → InSync r c.market_subs
      → let union = frame_union c.market_subs f ids in
        InSync
          (receive_all r (
            if is_empty union
            then []
            else market_frame union subscribe dump (requires_custom f && not (is_empty union))
              ∷ []))
          (increment_all c.market_subs ids f)
  later-InSync ids dump k h =
      let s = c.market_subs in
      let union = frame_union s f ids in
      frame-InSync r s f ids union subscribe dump (requires_custom f && not (is_empty union)) refl h
        (λ a p. ground (arith, contains-frame_union s f ids a k))
        (λ a p q. ground (arith, contains-frame_union s f ids a k))
        (λ a p q t. ground (arith, contains-frame_union s f ids a k, contains-nonempty union a))

  pub subscribe-InSync :
      (asset_ids : List Text)
      → InSync r c.market_subs
      → let o = subscribe_market_assets write c f asset_ids in
        InSync (receive_all r o.sent) o.client.market_subs
  unfolding subscribe_market_assets
  subscribe-InSync asset_ids h =
      let ids = canonical_strings asset_ids in
      let k = canonical_strings-IsCanonical asset_ids in
      let s = c.market_subs in
      elim (Bool-cases (is_empty ids)) [
        | inl e ↦ rw e h
        | inr e ↦ rw e (elim (Bool-cases (nat_eq (active_count s) 0)) [
          | inl z ↦ rw z (
              commit-InSync r c _ _ _ (send_if_any-cases write c ids empty _ _) h
                (first-InSync ids h))
          | inr z ↦ rw z (
              commit-InSync r c _ _ _
                (send_if_any-cases write c (frame_union s f ids) subscribe _ _) h
                (later-InSync ids _ k h))
        ])
      ]
