-- ===== src/Ws/Rtds.antt =====
-- clob/ws/rtds/client.go and types.go: the list of the subscriptions to topics. The filters of a
-- subscription may be of any type: `Other` stands for the values that are no text, no list and no
-- map. `encode` stands for the encoding of a subscription whose filters are as they are sent,
-- `encode_filters` for that of a value, both by encoding/json, and `write` for `wsjson.Write` on the
-- current connection: it returns the error, if any.
pub mod Rollback
pub mod Poisoned
pub mod Interval
mod Tests
use polymarket_client.Base.{
  ℕ, zero, suc, ◌≡◌, ◌-◌, ◌*◌, ◌/◌, Bool, true, false, ◌&&◌, ◌||◌, Option, none, some, List, [],
  ◌∷◌, ◌++◌, if◌then◌else◌, length, get_elem?, take, drop, ltb, leb, nat_eq, is_empty, map,
}
use polymarket_client.Base.Text.{Text, codes, text_eq}

pub data Filters (Other : Type 0) : Type 0 where
  no_filters : Filters Other
  text_filter : Text → Filters Other
  list_filter : List Text → Filters Other
  map_filter : List (Text × Text) → Filters Other
  other_filter : Other → Filters Other

pub record Credentials : Type 0 where
  pub key : Text
  pub secret : Text
  pub passphrase : Text

pub record Subscription (Other : Type 0) : Type 0 where
  pub topic : Text
  pub kind : Text
  pub filters : Filters Other
  pub gamma_auth : Option Text
  pub clob_auth : Option Credentials

pub data Action : Type 0 where
  subscribes unsubscribes : Action

pub data SendError : Type 0 where
  not_connected not_encoded : SendError
  write_failed : Text → SendError

-- `SubscriptionRequest`, with its subscriptions as they are sent.
pub record Frame : Type 0 where
  pub action : Action
  pub subscriptions : List Text

-- `Client`, the connection and the subscriptions.
pub record Topics (Other : Type 0) : Type 0 where
  pub connected : Bool
  pub creds : Option Credentials
  pub gamma_auth : Option Text
  pub subs : List (Subscription Other)

abbrev pub crypto_prices : Text
crypto_prices = codes "crypto_prices"

abbrev pub crypto_prices_chainlink : Text
crypto_prices_chainlink = codes "crypto_prices_chainlink"

abbrev pub equity_prices : Text
equity_prices = codes "equity_prices"

abbrev pub type_update : Text
type_update = codes "update"

abbrev pub type_all : Text
type_all = codes "*"

-- `strings.Join` with a comma.
unfoldable pub join : List Text → Text
join [] = []
join (s ∷ []) = s
join (s ∷ t ∷ ts) = s ++ (b',' ∷ join (t ∷ ts))

-- `defaultStaleCheckInterval`, in nanoseconds, of a timeout that is positive.
unfoldable pub default_stale_check_interval : ℕ → ℕ
default_stale_check_interval timeout =
    let interval = timeout / 2 in
    if nat_eq interval 0
    then timeout
    else if ltb interval 1000000000
    then interval
    else if ltb (30 * 1000000000) interval
    then 30 * 1000000000
    else interval

-- What a call leaves: the client, the frames that are written, and the error.
pub record Outcome (Other : Type 0) : Type 0 where
  pub client : Topics Other
  pub sent : List Frame
  pub failure : Option SendError

abbrev pub same_identity : Option Text → Option Text → Bool
same_identity (some a) (some b) = text_eq a b
same_identity _ _ = false

abbrev pub cons_encoded : Option Text → Option (List Text) → Option (List Text)
cons_encoded (some t) (some ts) = some (t ∷ ts)
cons_encoded _ _ = none

module _ {Other : Type 0} (encode_filters : Filters Other → Option Text)
    (encode : Subscription Other → Option Text) where
  abbrev pub is_marshaled_topic : Text → Bool
  is_marshaled_topic topic = text_eq topic crypto_prices_chainlink || text_eq topic equity_prices

  abbrev pub marshaled : Option Text → Option (Filters Other)
  marshaled none = none
  marshaled (some t) = some (text_filter t)

  -- `subscriptionWireFilters`, with the filters themselves where it has none to set.
  unfoldable pub wire_filters : Text → Filters Other → Option (Filters Other)
  wire_filters topic no_filters = some (
      if text_eq topic crypto_prices || text_eq topic crypto_prices_chainlink
      then text_filter []
      else no_filters)
  wire_filters topic (text_filter t) = some (text_filter t)
  wire_filters topic (list_filter l) =
      if text_eq topic crypto_prices
      then some (text_filter (join l))
      else if is_marshaled_topic topic
      then marshaled (encode_filters (list_filter l))
      else some (list_filter l)
  wire_filters topic (map_filter m) =
      if is_marshaled_topic topic
      then marshaled (encode_filters (map_filter m))
      else some (map_filter m)
  wire_filters topic (other_filter o) =
      if is_marshaled_topic topic
      then marshaled (encode_filters (other_filter o))
      else some (other_filter o)

  abbrev pub encode_with : Subscription Other → Option (Filters Other) → Option Text
  encode_with s none = none
  encode_with s (some f) = encode (record s { filters = f })

  -- `MarshalJSON`, which is also `subscriptionIdentity`.
  unfoldable pub identity : Subscription Other → Option Text
  unfolding wire_filters
  identity s = encode_with s (wire_filters s.topic s.filters)

  unfoldable pub encode_all : List (Subscription Other) → Option (List Text)
  unfolding identity
  encode_all [] = some []
  encode_all (s ∷ ss) = cons_encoded (identity s) (encode_all ss)

  unfoldable pub same_subscription : Subscription Other → Subscription Other → Bool
  unfolding identity
  same_subscription a b = same_identity (identity a) (identity b)

  -- The loop of `removeSubscriptionLocked`, from index `i - 1` down to 0.
  unfoldable pub remove_loop :
      ℕ → List (Subscription Other) → Subscription Other → List (Subscription Other)
  unfolding same_subscription
  remove_loop zero subs target = subs
  remove_loop (suc i) subs target =
      let rest = remove_loop i subs target in
      elim (get_elem? subs i) [
        | none ↦ rest
        | some sub ↦ if same_subscription sub target then take i subs ++ drop (suc i) subs else rest
      ]

  unfoldable pub remove_subscription :
      List (Subscription Other) → Subscription Other → List (Subscription Other)
  unfolding remove_loop
  remove_subscription subs target = remove_loop (length subs) subs target

  -- `removeSubscription` for each of the targets.
  unfoldable pub remove_each :
      List (Subscription Other) → List (Subscription Other) → List (Subscription Other)
  unfolding remove_subscription
  remove_each subs [] = subs
  remove_each subs (t ∷ ts) = remove_each (remove_subscription subs t) ts

  module _ (write : Frame → Option Text) where
    abbrev pub written : Frame → Option Text → List Frame × Option SendError
    written f none = (f ∷ [], none)
    written f (some e) = ([], some (write_failed e))

    abbrev pub send_encoded : Action → Option (List Text) → List Frame × Option SendError
    send_encoded a none = ([], some not_encoded)
    send_encoded a (some texts) =
        let f : Frame = record { action = a; subscriptions = texts } in written f (write f)

    -- `sendJSON` of a request.
    unfoldable pub send_json :
        Topics Other → Action → List (Subscription Other) → List Frame × Option SendError
    unfolding encode_all
    send_json c a subs =
        if c.connected then send_encoded a (encode_all subs) else ([], some not_connected)

    -- The rollback of a subscription whose request failed.
    abbrev pub settle :
        Topics Other → List (Subscription Other) → List Frame × Option SendError → Outcome Other
    settle c subs (sent, none) = record { client = c; sent = sent; failure = none }
    settle c subs (sent, some e) = record {
      client = record c { subs = remove_each c.subs subs };
      sent = sent;
      failure = some e;
    }

    unfoldable pub subscribe : Topics Other → Subscription Other → Outcome Other
    unfolding send_json remove_each
    subscribe c sub =
        let c' = record c { subs = c.subs ++ (sub ∷ []) } in
        settle c' (sub ∷ []) (send_json c' subscribes (sub ∷ []))

    unfoldable pub subscribe_many : Topics Other → List (Subscription Other) → Outcome Other
    unfolding send_json remove_each
    subscribe_many c [] = record { client = c; sent = []; failure = none }
    subscribe_many c (sub ∷ subs) =
        let c' = record c { subs = c.subs ++ (sub ∷ subs) } in
        settle c' (sub ∷ subs) (send_json c' subscribes (sub ∷ subs))

    unfoldable pub unsubscribe : Topics Other → Subscription Other → Outcome Other
    unfolding send_json remove_subscription
    unsubscribe c sub =
        let c' = record c { subs = remove_subscription c.subs sub } in
        let (sent, e) = send_json c' unsubscribes (sub ∷ []) in
        record { client = c'; sent = sent; failure = e }

    -- `replaySubscriptions`, whose error goes to the channel of the errors.
    unfoldable pub replay_subscriptions : Topics Other → List Frame × Option SendError
    unfolding send_json
    replay_subscriptions c = if is_empty c.subs then ([], none) else send_json c subscribes c.subs

    module _ (to_lower : Text → Text) (to_upper : Text → Text) where
      abbrev pub topic_of : Text → Text → Filters Other → Subscription Other
      topic_of topic kind filters = record {
        topic = topic;
        kind = kind;
        filters = filters;
        gamma_auth = none;
        clob_auth = none;
      }

      unfoldable pub subscribe_crypto_prices : Topics Other → List Text → Outcome Other
      unfolding subscribe join
      subscribe_crypto_prices c symbols = subscribe c (
          topic_of crypto_prices type_update
            (text_filter (if is_empty symbols then [] else to_lower (join symbols))))

      unfoldable pub subscribe_chainlink_prices : Topics Other → Text → Outcome Other
      unfolding subscribe
      subscribe_chainlink_prices c symbol = subscribe c (
          topic_of crypto_prices_chainlink type_all (
            if is_empty symbol
            then text_filter []
            else map_filter ((codes "symbol", to_lower symbol) ∷ [])))

      abbrev pub equity_of : Text → Subscription Other
      equity_of symbol =
          topic_of equity_prices type_update (map_filter ((codes "symbol", to_upper symbol) ∷ []))

      unfoldable pub subscribe_equity_prices : Topics Other → List Text → Outcome Other
      unfolding subscribe subscribe_many
      subscribe_equity_prices c [] = subscribe c (topic_of equity_prices type_update no_filters)
      subscribe_equity_prices c (s ∷ symbols) = subscribe_many c (map equity_of (s ∷ symbols))

      unfoldable pub subscribe_comments : Topics Other → Text → Option Credentials → Outcome Other
      unfolding subscribe
      subscribe_comments c comment_type creds =
          let kind = if is_empty comment_type then type_all else comment_type in
          let base = topic_of (codes "comments") kind no_filters in
          elim creds [
            | none ↦ subscribe c (record base { gamma_auth = c.gamma_auth; clob_auth = c.creds })
            | some k ↦ subscribe c (record base { clob_auth = some k })
          ]
