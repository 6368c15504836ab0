-- ===== src/Ws/Remote.antt =====
-- The far end of the market channel, as the frames describe it: which assets a connection receives
-- events for, and for which of them the custom features are on.
pub mod Subscribe
pub mod Unsubscribe
pub mod Session
pub mod Failure
use polymarket_client.Base.{
  ◌≡◌, refl, inl, inr, ◌⊎◌, Bool, true, false, not, ◌&&◌, ◌||◌, Option, none, some, List, [], ◌∷◌,
  arith, is_empty, contains, Bool-cases, Option-cases, if◌then◌else◌,
}
use polymarket_client.Base.Text.{Text, text_Comparable}
use polymarket_client.Ws.Market.State.{MarketState, asset_active, asset_custom_active}
use polymarket_client.Ws.Client.{
  Operation, empty, subscribe, unsubscribe, MarketFrame, Client, SendError, market_frame,
  send_market_subscription, send_if_any,
}

pub record Remote : Type 0 where
  pub active : Text → Bool
  pub custom : Text → Bool

-- A new connection receives nothing.
abbrev pub fresh : Remote
fresh = record { active = λ a. false; custom = λ a. false }

abbrev pub is_unsubscribe : Operation → Bool
is_unsubscribe unsubscribe = true
is_unsubscribe _ = false

-- An `unsubscribe` frame ends the events of its assets. Any other frame adds its assets, and turns
-- the custom features of these on if it says so.
abbrev pub receive : Remote → MarketFrame → Remote
receive r m = record {
  active = λ a.
      if is_unsubscribe m.operation
      then r.active a && not (contains m.asset_ids a)
      else r.active a || contains m.asset_ids a;
  custom = λ a.
      if is_unsubscribe m.operation
      then r.custom a && not (contains m.asset_ids a)
      else r.custom a || (m.custom_feature_enabled && contains m.asset_ids a);
}

abbrev pub receive_all : Remote → List MarketFrame → Remote
receive_all r [] = r
receive_all r (m ∷ ms) = receive_all (receive r m) ms

-- The far end sends the events of the active assets and of no others, and has the custom features
-- on wherever a subscription needs them.
pub record InSync (r : Remote) (s : MarketState) : Type 0 where
  pub active : (a : Text) → r.active a ≡ asset_active s a
  pub custom : (a : Text) → asset_custom_active s a ≡ true → r.custom a ≡ true

-- A frame is written whole, or is not written and the call reports why. No ids, no frame.
pub send_if_any-cases :
    (write : MarketFrame → Option Text) (c : Client) (ids : List Text) (o : Operation)
    (dump : Option Bool) (custom : Bool)
    → let r = send_if_any write c ids o dump custom in
      ((r.failed ≡ none)
        × (r.frames ≡ (if is_empty ids then [] else market_frame ids o dump custom ∷ [])))
      ⊎ ((e : SendError) × (r.failed ≡ some e) × (r.frames ≡ []))
unfolding send_if_any send_market_subscription
send_if_any-cases write c [] o dump custom = inl (refl, refl)
send_if_any-cases write c (i ∷ ids) o dump custom = elim (Option-cases c.conn) [
  | inl e ↦ rw (e, send_market_subscription) (inr (_, refl, refl))
  | inr (n, e) ↦
      rw (e, send_market_subscription)
        (elim (Option-cases (write (market_frame (i ∷ ids) o dump custom))) [
          | inl w ↦ rw (w, send_market_subscription) (inl (refl, refl))
          | inr (x, w) ↦ rw (w, send_market_subscription) (inr (_, refl, refl))
        ])
]
