-- ===== src/Combo/Options/Tests.antt =====
-- A client with an option that is refused and one that is taken.
use polymarket_client.Base.{List, [], ◌∷◌}
use polymarket_client.Base.Int.{pos}
use polymarket_client.Combo.Options.{ClientOption, max_pending_option, event_buffer_option}

abbrev chosen : List ClientOption
chosen = max_pending_option (pos 0) ∷ event_buffer_option (pos 8) ∷ []
