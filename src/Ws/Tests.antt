-- ===== src/Ws/Tests.antt =====
-- The WebSocket client at concrete inputs.
use polymarket_client.Base.{
  ◌+◌, ◌-◌, ◌≡◌, refl, ◌↔◌, ◌&&◌, true, false, Option, none, some, List, [], ◌∷◌, ◌++◌, All, any,
  contains, count, nat_eq, if◌then◌else◌,
}
use polymarket_client.Base.Map.{lookup, assign, delete}
use polymarket_client.Base.Text.{
  Text, codes, text_eq, text_lt, text_Comparable, is_space, trim_left, trim_space,
}
use polymarket_client.Ws.Strings.Defs.{
  insert_string, sort_strings, canonical_loop, canonical_strings, union_sorted_strings,
}
use polymarket_client.Ws.Strings.Sorted.{IsSorted}
use polymarket_client.Ws.Strings.Canonical.{has_value, IsCanonical}
use polymarket_client.Ws.Strings.Normal
use polymarket_client.Ws.Market.State.{
  Feature, order_book, prices, best_bid_ask, code_of, feature_eq, supports_initial_dump,
  requires_custom, MarketState, new_market_state, ref_count, asset_refs, feature_count, increment,
  lower, decrement, asset_active, asset_active_excluding_feature, custom_entry, asset_custom_active,
  active_count, active_asset_ids, initial_dump_active, custom_active,
}
use polymarket_client.Ws.Market.Counts.{IsValid}
use polymarket_client.Ws.Market.Valid
use polymarket_client.Ws.Market.Active
use polymarket_client.Ws.Client.{
  empty, subscribe, unsubscribe, MarketFrame, SendError, Client, market_frame,
  send_market_subscription, market_initial_dump, replay_initial_dump, new_ids, initial_dump_ids,
  custom_enable_ids, frame_union, increment_all, decrement_all, commit, send_if_any,
  subscribe_market_assets, decrement_ids, removed_ids, unsubscribe_market_assets,
  replay_market_subscription,
}
use polymarket_client.Ws.Remote.Failure
use polymarket_client.Ws.Remote.Session.{
  World, start, subscribed, reconnected, Reach, here, next, connects, subscribes, attached,
  new_client,
}
use polymarket_client.Ws.User.{
  UserFrame, seen_count, tally, use_up, same_strings, remove_loop,
  remove_matching_user_subscription, send_user_subscription, add_user_and_send,
  remove_user_and_send,
}
use polymarket_client.Ws.User.SameStrings
use polymarket_client.Ws.User.Remove.{Removed, add_user_and_send_lem, remove_user_and_send_lem}

program : Unit {0}
unfolding lookup assign delete text_eq text_lt is_space trim_left trim_space insert_string
    sort_strings canonical_loop canonical_strings union_sorted_strings code_of feature_eq
    supports_initial_dump requires_custom new_market_state ref_count asset_refs feature_count
    increment lower decrement asset_active asset_active_excluding_feature custom_entry
    asset_custom_active active_count active_asset_ids initial_dump_active custom_active market_frame
    send_market_subscription market_initial_dump replay_initial_dump new_ids initial_dump_ids
    custom_enable_ids frame_union increment_all decrement_all commit send_if_any
    subscribe_market_assets decrement_ids removed_ids unsubscribe_market_assets
    replay_market_subscription seen_count tally use_up same_strings remove_loop
    remove_matching_user_subscription send_user_subscription add_user_and_send remove_user_and_send
program = tt

abbrev asset_a : Text
asset_a = codes "a"

abbrev asset_b : Text
asset_b = codes "b"

abbrev written : MarketFrame → Option Text
written m = none

abbrev refused : MarketFrame → Option Text
refused m = some (codes "closed")

abbrev untidy : List Text
untidy = codes " b " ∷ codes "a" ∷ [] ∷ codes "b" ∷ []

canonical_untidy : canonical_strings untidy ≡ asset_a ∷ asset_b ∷ []
unfolding program
canonical_untidy = refl

abbrev connected : Client
connected = attached 1 (new_client true none)

first_frame :
    (subscribe_market_assets written connected order_book untidy).sent
    ≡ market_frame (asset_a ∷ asset_b ∷ []) empty (some true) false ∷ []
unfolding program
first_frame = refl

abbrev one_book : Client
one_book = (subscribe_market_assets written connected order_book (asset_a ∷ [])).client

-- A second feature of an asset with events sends no frame, unless it is a custom one.
second_frame : (subscribe_market_assets written one_book prices (asset_a ∷ [])).sent ≡ []
unfolding program
second_frame = refl

custom_frame :
    (subscribe_market_assets written one_book best_bid_ask (asset_a ∷ [])).sent
    ≡ market_frame (asset_a ∷ []) subscribe none true ∷ []
unfolding program
custom_frame = refl

last_frame :
    (unsubscribe_market_assets written one_book order_book (asset_a ∷ [])).sent
    ≡ market_frame (asset_a ∷ []) unsubscribe none false ∷ []
unfolding program
last_frame = refl

abbrev opened : World
opened = reconnected written 1 (start true none)

abbrev bidding : World
bidding = subscribed written best_bid_ask (asset_a ∷ []) opened

abbrev bidding-Reach : Reach (start true none) bidding
unfolding program
bidding-Reach =
    next (next here (connects written 1 refl)) (subscribes written best_bid_ask (asset_a ∷ []))

subscribe_counts_example :
    let o = subscribe_market_assets refused one_book best_bid_ask untidy in
    ((e : SendError) → o.failure ≡ some e → (o.client ≡ one_book) × (o.sent ≡ []))
    × (o.failure ≡ none
        → (a : Text) (g : Feature)
        → feature_count o.client.market_subs a g
          ≡ feature_count one_book.market_subs a g
            + (if contains (canonical_strings untidy) a && feature_eq best_bid_ask g then 1 else 0))
subscribe_counts_example = Failure.subscribe_counts refused one_book best_bid_ask untidy

unsubscribe_counts_example :
    let o = unsubscribe_market_assets written one_book order_book untidy in
    ((e : SendError) → o.failure ≡ some e → (o.client ≡ one_book) × (o.sent ≡ []))
    × (o.failure ≡ none
        → (a : Text) (g : Feature)
        → feature_count o.client.market_subs a g
          ≡ feature_count one_book.market_subs a g
            - (if contains (canonical_strings untidy) a && feature_eq order_book g then 1 else 0))
unsubscribe_counts_example = Failure.unsubscribe_counts written one_book order_book untidy

unsubscribe-subscribe_example :
    feature_count
      (unsubscribe_market_assets written
        (subscribe_market_assets written one_book prices untidy).client
        prices
        untidy).client.market_subs
      asset_a
      order_book
    ≡ feature_count one_book.market_subs asset_a order_book
unfolding program
unsubscribe-subscribe_example =
    Failure.unsubscribe-subscribe written written one_book prices untidy refl refl asset_a
      order_book

canonical_strings_lem_example :
    IsSorted (canonical_strings untidy)
    × All IsCanonical (canonical_strings untidy)
    × ((a : Text) → contains (canonical_strings untidy) a ≡ any (has_value a) untidy)
canonical_strings_lem_example = Normal.canonical_strings_lem untidy

abbrev counted : MarketState
counted = increment (increment new_market_state asset_a order_book) asset_a order_book

counted-IsValid : IsValid counted
counted-IsValid =
    Valid.increment-IsValid (increment new_market_state asset_a order_book) asset_a order_book
      (Valid.increment-IsValid new_market_state asset_a order_book Valid.new_market_state-IsValid)

asset_active-decrement_example : asset_active (decrement counted asset_a order_book) asset_b ≡ (
    if text_eq asset_a asset_b && nat_eq (feature_count counted asset_a order_book) 1
    then asset_active_excluding_feature counted asset_a order_book
    else asset_active counted asset_b)
asset_active-decrement_example =
    Active.asset_active-decrement counted asset_a asset_b order_book counted-IsValid

same_strings_iff_example :
    (same_strings untidy (asset_b ∷ []) ≡ true)
    ↔ ((x : Text) → count x untidy ≡ count x (asset_b ∷ []))
same_strings_iff_example = SameStrings.same_strings_iff untidy (asset_b ∷ [])

abbrev user_written : UserFrame → Option Text
user_written m = none

abbrev reader : Client
reader = record connected { user_subs = (asset_a ∷ []) ∷ [] }

add_user_and_send_lem_example :
    let o = add_user_and_send user_written reader (asset_b ∷ []) in
    ((e : SendError) → o.failure ≡ some e → (o.client ≡ reader) × (o.sent ≡ []))
    × (o.failure ≡ none
        → o.client ≡ record reader { user_subs = reader.user_subs ++ ((asset_b ∷ []) ∷ []) })
add_user_and_send_lem_example = add_user_and_send_lem user_written reader (asset_b ∷ [])

remove_user_and_send_lem_example :
    Removed
      (asset_b ∷ [])
      reader.user_subs
      (remove_user_and_send user_written reader (asset_b ∷ [])).client.user_subs
    × (let o = add_user_and_send user_written reader (asset_b ∷ []) in
        o.failure ≡ none
        → (remove_user_and_send user_written o.client (asset_b ∷ [])).client.user_subs
          ≡ reader.user_subs)
remove_user_and_send_lem_example =
    remove_user_and_send_lem user_written user_written reader (asset_b ∷ [])
