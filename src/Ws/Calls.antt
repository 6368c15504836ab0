-- ===== src/Ws/Calls.antt =====
-- clob/ws/client.go: the methods that a user of the client calls, one for each kind of event.
use polymarket_client.Base.{Option, List}
use polymarket_client.Base.Text.{Text}
use polymarket_client.Ws.Market.State.{
  order_book, prices, last_trade_price, tick_size_change, midpoints, best_bid_ask, new_markets,
  market_resolutions,
}
use polymarket_client.Ws.Client.{
  Client, MarketFrame, Outcome, subscribe_market_assets, unsubscribe_market_assets,
}
use polymarket_client.Ws.User.{UserFrame, UserOutcome, add_user_and_send, remove_user_and_send}

module _ (write : MarketFrame → Option Text) (c : Client) (asset_ids : List Text) where
  unfoldable pub subscribe_order_book : Outcome
  subscribe_order_book = subscribe_market_assets write c order_book asset_ids

  unfoldable pub unsubscribe_order_book : Outcome
  unsubscribe_order_book = unsubscribe_market_assets write c order_book asset_ids

  unfoldable pub subscribe_prices : Outcome
  subscribe_prices = subscribe_market_assets write c prices asset_ids

  unfoldable pub unsubscribe_prices : Outcome
  unsubscribe_prices = unsubscribe_market_assets write c prices asset_ids

  unfoldable pub subscribe_tick_size_change : Outcome
  subscribe_tick_size_change = subscribe_market_assets write c tick_size_change asset_ids

  unfoldable pub unsubscribe_tick_size_change : Outcome
  unsubscribe_tick_size_change = unsubscribe_market_assets write c tick_size_change asset_ids

  unfoldable pub subscribe_midpoints : Outcome
  subscribe_midpoints = subscribe_market_assets write c midpoints asset_ids

  unfoldable pub unsubscribe_midpoints : Outcome
  unsubscribe_midpoints = unsubscribe_market_assets write c midpoints asset_ids

  unfoldable pub subscribe_best_bid_ask : Outcome
  subscribe_best_bid_ask = subscribe_market_assets write c best_bid_ask asset_ids

  unfoldable pub unsubscribe_best_bid_ask : Outcome
  unsubscribe_best_bid_ask = unsubscribe_market_assets write c best_bid_ask asset_ids

  unfoldable pub subscribe_last_trade_price : Outcome
  subscribe_last_trade_price = subscribe_market_assets write c last_trade_price asset_ids

  unfoldable pub unsubscribe_last_trade_price : Outcome
  unsubscribe_last_trade_price = unsubscribe_market_assets write c last_trade_price asset_ids

  unfoldable pub subscribe_new_markets : Outcome
  subscribe_new_markets = subscribe_market_assets write c new_markets asset_ids

  unfoldable pub unsubscribe_new_markets : Outcome
  unsubscribe_new_markets = unsubscribe_market_assets write c new_markets asset_ids

  unfoldable pub subscribe_market_resolutions : Outcome
  subscribe_market_resolutions = subscribe_market_assets write c market_resolutions asset_ids

  unfoldable pub unsubscribe_market_resolutions : Outcome
  unsubscribe_market_resolutions = unsubscribe_market_assets write c market_resolutions asset_ids

module _ (write : UserFrame → Option Text) (c : Client) (markets : List Text) where
  unfoldable pub subscribe_user_events : UserOutcome
  subscribe_user_events = add_user_and_send write c markets

  unfoldable pub unsubscribe_user_events : UserOutcome
  unsubscribe_user_events = remove_user_and_send write c markets

  unfoldable pub subscribe_orders : UserOutcome
  subscribe_orders = subscribe_user_events

  unfoldable pub unsubscribe_orders : UserOutcome
  unsubscribe_orders = unsubscribe_user_events

  unfoldable pub subscribe_trades : UserOutcome
  subscribe_trades = subscribe_user_events

  unfoldable pub unsubscribe_trades : UserOutcome
  unsubscribe_trades = unsubscribe_user_events
