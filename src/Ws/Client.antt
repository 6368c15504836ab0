-- ===== src/Ws/Client.antt =====
-- clob/ws/client.go: the calls that subscribe, unsubscribe and replay the market subscriptions.
-- `write` stands for `wsjson.Write` on the current connection: it returns the error, if any.
pub mod Loops
use polymarket_client.Base.{
  ℕ, ◌≡◌, refl, Bool, true, false, not, ◌&&◌, Option, none, some, List, [], ◌∷◌, nat_eq,
  if◌then◌else◌, is_empty, keep_if,
}
use polymarket_client.Base.Text.{Text}
use polymarket_client.Ws.Strings.Defs.{canonical_strings, union_sorted_strings}
use polymarket_client.Ws.Market.State.{
  Feature, MarketState, supports_initial_dump, requires_custom, feature_count, increment, decrement,
  asset_active, asset_active_excluding_feature, asset_custom_active, active_count, active_asset_ids,
  initial_dump_active, custom_active,
}

-- `Channel`, of which these two are subscribed to by frames.
pub data Channel : Type 0 where
  market user : Channel

-- The field `operation`, left out of the frame when it is empty.
pub data Operation : Type 0 where
  empty subscribe unsubscribe : Operation

-- `marketSubscriptionFrame`: a field that is left out is `none`.
pub record MarketFrame : Type 0 where
  pub kind : Option Channel
  pub operation : Operation
  pub asset_ids : List Text
  pub initial_dump : Option Bool
  pub custom_feature_enabled : Bool

pub data SendError : Type 0 where
  not_connected no_credentials : SendError
  write_failed : Text → SendError

-- `clob.Credentials`.
pub record Credentials : Type 0 where
  pub key : Text
  pub secret : Text
  pub passphrase : Text

-- The fields of `Client` that the subscriptions read and write.
pub record Client : Type 0 where
  pub conn : Option ℕ
  pub order_book_initial_dump : Bool
  pub creds : Option Credentials
  pub market_subs : MarketState
  pub user_subs : List (List Text)

-- What a call leaves: the client, the frames that were written, and the error.
pub record Outcome : Type 0 where
  pub client : Client
  pub sent : List MarketFrame
  pub failure : Option SendError

pub record Sending : Type 0 where
  pub frames : List MarketFrame
  pub failed : Option SendError

unfoldable pub market_frame : List Text → Operation → Option Bool → Bool → MarketFrame
market_frame ids operation dump custom = record {
  kind = elim operation [ empty ↦ some market | _ ↦ none ];
  operation = operation;
  asset_ids = ids;
  initial_dump = dump;
  custom_feature_enabled = custom;
}

unfoldable pub send_market_subscription :
    (MarketFrame → Option Text) → Client → List Text → Operation → Option Bool → Bool → Sending
send_market_subscription write c ids operation dump custom = elim c.conn [
  | none ↦ record { frames = []; failed = some not_connected }
  | some _ ↦
      let frame = market_frame ids operation dump custom in
      elim (write frame) [
        | none ↦ record { frames = frame ∷ []; failed = none }
        | some e ↦ record { frames = []; failed = some (write_failed e) }
      ]
]

unfoldable pub market_initial_dump : Client → Feature → Bool → Option Bool
market_initial_dump c f include =
    if include && supports_initial_dump f then some c.order_book_initial_dump else none

unfoldable pub replay_initial_dump : Client → Option Bool
replay_initial_dump c =
    if initial_dump_active c.market_subs then some c.order_book_initial_dump else none

-- The three lists that the first loop of `subscribeMarketAssets` collects.
unfoldable pub new_ids : MarketState → List Text → List Text
new_ids s = keep_if (λ id. not (asset_active s id))

unfoldable pub initial_dump_ids : MarketState → Feature → List Text → List Text
initial_dump_ids s f = keep_if (λ id. supports_initial_dump f && nat_eq (feature_count s id f) 0)

unfoldable pub custom_enable_ids : MarketState → Feature → List Text → List Text
custom_enable_ids s f = keep_if (λ id. requires_custom f && not (asset_custom_active s id))

unfoldable pub frame_union : MarketState → Feature → List Text → List Text
frame_union s f ids =
    union_sorted_strings (union_sorted_strings (new_ids s ids) (custom_enable_ids s f ids))
      (initial_dump_ids s f ids)

-- The loops that change the counts, after the frame is sent.
unfoldable pub increment_all : MarketState → List Text → Feature → MarketState
increment_all s [] f = s
increment_all s (id ∷ ids) f = increment_all (increment s id f) ids f

unfoldable pub decrement_all : MarketState → List Text → Feature → MarketState
decrement_all s [] f = s
decrement_all s (id ∷ ids) f = decrement_all (decrement s id f) ids f

-- `if err := send(...); err != nil { return err }`, then the counts change.
unfoldable pub commit : Client → Sending → MarketState → Outcome
commit c r s = elim r.failed [
  | none ↦ record { client = record c { market_subs = s }; sent = r.frames; failure = none }
  | some e ↦ record { client = c; sent = r.frames; failure = some e }
]

-- The frame is skipped if there are no ids to send.
unfoldable pub send_if_any :
    (MarketFrame → Option Text) → Client → List Text → Operation → Option Bool → Bool → Sending
send_if_any write c ids operation dump custom =
    if is_empty ids
    then record { frames = []; failed = none }
    else send_market_subscription write c ids operation dump custom

unfoldable pub subscribe_market_assets :
    (MarketFrame → Option Text) → Client → Feature → List Text → Outcome
subscribe_market_assets write c f asset_ids =
    let ids = canonical_strings asset_ids in
    let s = c.market_subs in
    let union = frame_union s f ids in
    let dump = market_initial_dump c f (not (is_empty (initial_dump_ids s f ids))) in
    let custom = requires_custom f && not (is_empty union) in
    let first = send_if_any write c ids empty (market_initial_dump c f true) (requires_custom f) in
    let later = send_if_any write c union subscribe dump custom in
    if is_empty ids
    then record { client = c; sent = []; failure = none }
    else commit c (if nat_eq (active_count s) 0 then first else later) (increment_all s ids f)

-- The two lists that the first loop of `unsubscribeMarketAssets` collects.
unfoldable pub decrement_ids : MarketState → Feature → List Text → List Text
decrement_ids s f = keep_if (λ id. not (nat_eq (feature_count s id f) 0))

unfoldable pub removed_ids : MarketState → Feature → List Text → List Text
removed_ids s f =
    keep_if (λ id. nat_eq (feature_count s id f) 1 && not (asset_active_excluding_feature s id f))

unfoldable pub unsubscribe_market_assets :
    (MarketFrame → Option Text) → Client → Feature → List Text → Outcome
unsubscribe_market_assets write c f asset_ids =
    let ids = canonical_strings asset_ids in
    let s = c.market_subs in
    let lowered = decrement_ids s f ids in
    let unchanged : Outcome = record { client = c; sent = []; failure = none } in
    if is_empty ids
    then unchanged
    else if is_empty lowered
    then unchanged
    else commit c (send_if_any write c (removed_ids s f ids) unsubscribe none false)
        (decrement_all s lowered f)

unfoldable pub replay_market_subscription : (MarketFrame → Option Text) → Client → Sending
replay_market_subscription write c =
    send_if_any write c (active_asset_ids c.market_subs) empty (replay_initial_dump c)
      (custom_active c.market_subs)
