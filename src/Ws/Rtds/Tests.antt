-- ===== src/Ws/Rtds/Tests.antt =====
-- Subscriptions to topics, and the theorems about them at these.
use polymarket_client.Base.{ℕ, ◌≡◌, refl, true, Option, none, some, [], ◌∷◌, ◌++◌}
use polymarket_client.Base.Text.{Text, codes, text_eq}
use polymarket_client.Ws.Rtds.{
  Filters, no_filters, other_filter, Subscription, Topics, SendError, Frame, identity, wire_filters,
  equity_prices, type_update, subscribe, subscribe_many, unsubscribe,
}
use polymarket_client.Ws.Rtds.Rollback.{
  IsEncodable, without_last, same_as, subscribe_many_lem, unsubscribe_lem,
}

abbrev no_encoding : Filters ℕ → Option Text
no_encoding f = none

abbrev by_name : Subscription ℕ → Option Text
by_name s = some (s.topic ++ s.kind)

abbrev broken : Frame → Option Text
broken f = some (codes "broken pipe")

abbrev written : Frame → Option Text
written f = none

abbrev comments : Subscription ℕ
comments = record {
  topic = codes "comments";
  kind = codes "*";
  filters = no_filters;
  gamma_auth = none;
  clob_auth = none;
}

abbrev equities : Subscription ℕ
equities = record {
  topic = equity_prices;
  kind = type_update;
  filters = other_filter 5;
  gamma_auth = none;
  clob_auth = none;
}

abbrev online : Topics ℕ
online = record { connected = true; creds = none; gamma_auth = none; subs = comments ∷ [] }

comments-IsEncodable : IsEncodable no_encoding by_name comments
unfolding identity wire_filters text_eq
comments-IsEncodable = (codes "comments*", refl)

subscribe_many_lem_example :
    let o = subscribe_many no_encoding by_name broken online (comments ∷ comments ∷ []) in
    ((e : SendError) → o.failure ≡ some e → (o.client ≡ online) × (o.sent ≡ []))
    × (o.failure ≡ none → o.client ≡ record online { subs = comments ∷ comments ∷ comments ∷ [] })
subscribe_many_lem_example =
    subscribe_many_lem no_encoding by_name broken online (comments ∷ comments ∷ [])
      (comments-IsEncodable, (comments-IsEncodable, tt))

unsubscribe_lem_example :
    let o = subscribe no_encoding by_name written online comments in
    ((unsubscribe no_encoding by_name written online comments).client.subs
      ≡ without_last (same_as no_encoding by_name comments) (comments ∷ []))
    × (o.failure ≡ none
        → (unsubscribe no_encoding by_name written o.client comments).client.subs ≡ comments ∷ [])
unsubscribe_lem_example =
    unsubscribe_lem no_encoding by_name written online comments comments-IsEncodable
