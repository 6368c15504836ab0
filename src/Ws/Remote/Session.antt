-- ===== src/Ws/Remote/Session.antt =====
-- The life of a client: calls, lost connections and reconnections, in any order.
use polymarket_client.Base.{ℕ, ◌≡◌, Bool, Option, none, some, List, []}
use polymarket_client.Base.Text.{Text}
use polymarket_client.Ws.Market.State.{Feature, new_market_state}
use polymarket_client.Ws.Market.Counts.{IsValid}
use polymarket_client.Ws.Client.{
  MarketFrame, Client, Credentials, subscribe_market_assets, unsubscribe_market_assets,
  replay_market_subscription,
}
use polymarket_client.Ws.Remote.{Remote, fresh, InSync, receive_all}

-- The client and the far end of its present connection.
pub record World : Type 0 where
  pub client : Client
  pub remote : Remote

abbrev pub subscribed : (MarketFrame → Option Text) → Feature → List Text → World → World
subscribed write f ids w =
    let o = subscribe_market_assets write w.client f ids in
    record { client = o.client; remote = receive_all w.remote o.sent }

abbrev pub unsubscribed : (MarketFrame → Option Text) → Feature → List Text → World → World
unsubscribed write f ids w =
    let o = unsubscribe_market_assets write w.client f ids in
    record { client = o.client; remote = receive_all w.remote o.sent }

-- `connect` stores the new connection and replays the subscriptions over it.
abbrev pub attached : ℕ → Client → Client
attached n c = record c { conn = some n }

abbrev pub reconnected : (MarketFrame → Option Text) → ℕ → World → World
reconnected write n w =
    let c = attached n w.client in
    record { client = c; remote = receive_all fresh (replay_market_subscription write c).frames }

-- `scheduleReconnect` clears the connection.
abbrev pub dropped : World → World
dropped w = record { client = record w.client { conn = none }; remote = fresh }

-- Any write of a call may fail, but the write of a replay.
pub data Step (w : World) : World → Type 0 where
  subscribes :
      (write : MarketFrame → Option Text) (f : Feature) (ids : List Text)
      → Step w (subscribed write f ids w)
  unsubscribes :
      (write : MarketFrame → Option Text) (f : Feature) (ids : List Text)
      → Step w (unsubscribed write f ids w)
  connects :
      (write : MarketFrame → Option Text) (n : ℕ)
      → (replay_market_subscription write (attached n w.client)).failed ≡ none
      → Step w (reconnected write n w)
  drops : Step w (dropped w)

pub data Reach (w : World) : World → Type 0 where
  here : Reach w w
  next : {u v : World} → Reach w u → Step u v → Reach w v

pub record Inv (w : World) : Type 0 where
  pub valid : IsValid w.client.market_subs
  pub synced : (n : ℕ) → w.client.conn ≡ some n → InSync w.remote w.client.market_subs

-- `New`, before any connection.
abbrev pub new_client : Bool → Option Credentials → Client
new_client dump creds = record {
  conn = none;
  order_book_initial_dump = dump;
  creds = creds;
  market_subs = new_market_state;
  user_subs = [];
}

abbrev pub start : Bool → Option Credentials → World
start dump creds = record { client = new_client dump creds; remote = fresh }
