-- ===== src/Ws/Remote/Failure.antt =====
-- A call whose frame is not written changes nothing; one that succeeds counts each id once.
use polymarket_client.Base.{
  ◌≡◌, refl, inl, inr, false, not, ◌&&◌, Option, none, some, List, [], arith, is_empty, contains,
  Bool-cases, Option-cases, if◌then◌else◌, nat_eq, contains-keep_if, ◌⊎◌, is_empty-eq,
  nonempty_of_keep_if, ◌+◌, ◌-◌,
}
use polymarket_client.Base.Text.{Text, text_Comparable}
use polymarket_client.Ws.Strings.Defs.{canonical_strings}
use polymarket_client.Ws.Strings.Canonical.{canonical_strings-IsSorted}
use polymarket_client.Ws.Strings.Sorted.{IsDistinct, IsSorted-IsDistinct, keep_if-IsDistinct}
use polymarket_client.Ws.Market.State.{
  Feature, feature_eq, feature_eq_iff, MarketState, feature_count, active_count,
}
use polymarket_client.Ws.Market.Counts.{IsValid}
use polymarket_client.Ws.Client.{
  MarketFrame, Client, SendError, Sending, Outcome, empty, subscribe, unsubscribe, increment_all,
  decrement_all, decrement_ids, removed_ids, frame_union, commit, subscribe_market_assets,
  unsubscribe_market_assets,
}
use polymarket_client.Ws.Client.Loops.{
  increment_all-IsValid, decrement_all-IsValid, feature_count-increment_all,
  feature_count-decrement_all,
}
use polymarket_client.Ws.Remote.{send_if_any-cases}

-- A failed call leaves the client as it was and has written no frame.
pub record IsAtomic (c : Client) (s : MarketState) (o : Outcome) : Type 0 where
  pub failed : (e : SendError) → o.failure ≡ some e → (o.client ≡ c) × (o.sent ≡ [])
  pub done : o.failure ≡ none → o.client.market_subs ≡ s

commit-IsAtomic :
    (c : Client) (m : Sending) (s : MarketState) (frames : List MarketFrame)
    → ((m.failed ≡ none) × (m.frames ≡ frames))
      ⊎ ((e : SendError) × (m.failed ≡ some e) × (m.frames ≡ []))
    → IsAtomic c s (commit c m s)
unfolding commit
commit-IsAtomic c m s frames (inl (e, p)) =
    rw (e, commit) (record { failed = λ x q. cc; done = λ q. refl })
commit-IsAtomic c m s frames (inr (x, e, p)) =
    rw (e, commit) (record { failed = λ y q. (refl, p); done = λ q. cc })

unchanged-IsAtomic :
    (c : Client) → IsAtomic c c.market_subs (record { client = c; sent = []; failure = none })
unchanged-IsAtomic c = record { failed = λ x q. cc; done = λ q. refl }

pub subscribe-IsAtomic :
    (write : MarketFrame → Option Text) (c : Client) (f : Feature) (asset_ids : List Text)
    → IsAtomic c
        (increment_all c.market_subs (canonical_strings asset_ids) f)
        (subscribe_market_assets write c f asset_ids)
unfolding subscribe_market_assets increment_all
subscribe-IsAtomic write c f asset_ids =
    let ids = canonical_strings asset_ids in
    elim (Bool-cases (is_empty ids)) [
      | inl e ↦ let p = is_empty-eq ids e in rw (p, increment_all) (unchanged-IsAtomic c)
      | inr e ↦ rw e (elim (Bool-cases (nat_eq (active_count c.market_subs) 0)) [
        | inl z ↦ rw z (commit-IsAtomic c _ _ _ (send_if_any-cases write c ids empty _ _))
        | inr z ↦ rw z (
            commit-IsAtomic c _ _ _
              (send_if_any-cases write c (frame_union c.market_subs f ids) subscribe _ _))
      ])
    ]

ids_of_decrement_ids :
    (s : MarketState) (f : Feature) (ids : List Text)
    → is_empty (decrement_ids s f ids) ≡ false
    → is_empty ids ≡ false
unfolding decrement_ids
ids_of_decrement_ids s f ids h = nonempty_of_keep_if _ ids h

pub unsubscribe-IsAtomic :
    (write : MarketFrame → Option Text) (c : Client) (f : Feature) (asset_ids : List Text)
    → IsAtomic c
        (decrement_all c.market_subs
          (decrement_ids c.market_subs f (canonical_strings asset_ids))
          f)
        (unsubscribe_market_assets write c f asset_ids)
unfolding unsubscribe_market_assets decrement_all
unsubscribe-IsAtomic write c f asset_ids =
    let ids = canonical_strings asset_ids in
    let s = c.market_subs in
    elim (Bool-cases (is_empty (decrement_ids s f ids))) [
      | inl z ↦
          let p = is_empty-eq (decrement_ids s f ids) z in
          elim (Bool-cases (is_empty ids)) [
            | inl e ↦ rw (e, p, decrement_all) (unchanged-IsAtomic c)
            | inr e ↦ rw (e, z, p, decrement_all) (unchanged-IsAtomic c)
          ]
      | inr z ↦
          let e : is_empty ids ≡ false = ids_of_decrement_ids s f ids z in
          rw (e, z)
            (commit-IsAtomic c _ _ _
              (send_if_any-cases write c (removed_ids s f ids) unsubscribe none false))
    ]

lowered :
    (s : MarketState) (f : Feature) (ids : List Text)
    → IsDistinct ids
    → (a : Text) (g : Feature)
    → feature_count (decrement_all s (decrement_ids s f ids) f) a g
      ≡ feature_count s a g - (if contains ids a && feature_eq f g then 1 else 0)
unfolding decrement_ids
lowered s f ids d a g = ground (
  arith,
  feature_eq_iff f g,
  feature_count-decrement_all f s (decrement_ids s f ids) a g (keep_if-IsDistinct _ ids d),
  contains-keep_if (λ id. not (nat_eq (feature_count s id f) 0)) ids a,
)

kept :
    {c : Client} {s : MarketState} (o : Outcome)
    → IsAtomic c s o
    → IsValid c.market_subs
    → IsValid s
    → IsValid o.client.market_subs
kept o h v w = elim (Option-cases o.failure) [
  | inl e ↦ rw (h.done e) w
  | inr (x, e) ↦ rw ((h.failed x e).0) v
]

-- A `Subscribe…` call either fails, and then has sent nothing and changed nothing, or raises the
-- count of its feature by one at each of its ids, and leaves all other counts.
pub subscribe_counts :
    (write : MarketFrame → Option Text) (c : Client) (f : Feature) (asset_ids : List Text)
    → let o = subscribe_market_assets write c f asset_ids in
      ((e : SendError) → o.failure ≡ some e → (o.client ≡ c) × (o.sent ≡ []))
      × (o.failure ≡ none
          → (a : Text) (g : Feature)
          → feature_count o.client.market_subs a g
            ≡ feature_count c.market_subs a g
              + (if contains (canonical_strings asset_ids) a && feature_eq f g then 1 else 0))
subscribe_counts write c f asset_ids =
    let h = subscribe-IsAtomic write c f asset_ids in
    let ids = canonical_strings asset_ids in
    let d = IsSorted-IsDistinct ids (canonical_strings-IsSorted asset_ids) in
    (h.failed, λ ok a g. rw (h.done ok) (feature_count-increment_all f c.market_subs ids a g d))

-- An `Unsubscribe…` call either fails, and then has sent nothing and changed nothing, or lowers
-- the count of its feature by one at each of its ids, except where it is 0, and leaves all other
-- counts.
pub unsubscribe_counts :
    (write : MarketFrame → Option Text) (c : Client) (f : Feature) (asset_ids : List Text)
    → let o = unsubscribe_market_assets write c f asset_ids in
      ((e : SendError) → o.failure ≡ some e → (o.client ≡ c) × (o.sent ≡ []))
      × (o.failure ≡ none
          → (a : Text) (g : Feature)
          → feature_count o.client.market_subs a g
            ≡ feature_count c.market_subs a g
              - (if contains (canonical_strings asset_ids) a && feature_eq f g then 1 else 0))
unsubscribe_counts write c f asset_ids =
    let h = unsubscribe-IsAtomic write c f asset_ids in
    let s = c.market_subs in
    let ids = canonical_strings asset_ids in
    let d = IsSorted-IsDistinct ids (canonical_strings-IsSorted asset_ids) in
    (h.failed, λ ok a g. rw (h.done ok) (lowered s f ids d a g))

-- After a subscription and its unsubscription, both done, every count is as before.
pub unsubscribe-subscribe :
    (write write' : MarketFrame → Option Text) (c : Client) (f : Feature) (asset_ids : List Text)
    → let o = subscribe_market_assets write c f asset_ids in
      let o' = unsubscribe_market_assets write' o.client f asset_ids in
      o.failure ≡ none
      → o'.failure ≡ none
      → (a : Text) (g : Feature)
      → feature_count o'.client.market_subs a g ≡ feature_count c.market_subs a g
unsubscribe-subscribe write write' c f asset_ids ok ok' a g =
    let o = subscribe_market_assets write c f asset_ids in
    let raised = (subscribe_counts write c f asset_ids).1 ok a g in
    let lowered' = (unsubscribe_counts write' o.client f asset_ids).1 ok' a g in omega arith

pub subscribe-IsValid :
    (write : MarketFrame → Option Text) (c : Client) (f : Feature) (asset_ids : List Text)
    → IsValid c.market_subs
    → IsValid (subscribe_market_assets write c f asset_ids).client.market_subs
subscribe-IsValid write c f asset_ids v =
    kept (subscribe_market_assets write c f asset_ids) (subscribe-IsAtomic write c f asset_ids) v
      (increment_all-IsValid f c.market_subs (canonical_strings asset_ids) v)

pub unsubscribe-IsValid :
    (write : MarketFrame → Option Text) (c : Client) (f : Feature) (asset_ids : List Text)
    → IsValid c.market_subs
    → IsValid (unsubscribe_market_assets write c f asset_ids).client.market_subs
unsubscribe-IsValid write c f asset_ids v =
    kept (unsubscribe_market_assets write c f asset_ids) (unsubscribe-IsAtomic write c f asset_ids)
      v
      (decrement_all-IsValid f c.market_subs
        (decrement_ids c.market_subs f (canonical_strings asset_ids)) v)
