-- ===== src/Combo/Messages/Tests.antt =====
-- The keys of two requests.
use polymarket_client.Base.{◌≡◌, ◌≢◌, refl}
use polymarket_client.Base.Text.{codes}
use polymarket_client.Combo.Messages.{quote_key, cancel_key, confirm_key}
use polymarket_client.Combo.Messages.Keys.{keys_distinct}

keys_distinct_example :
    (quote_key (codes "a") ≡ quote_key (codes "b") → codes "a" ≡ codes "b")
    × (cancel_key (codes "a") (codes "q") ≡ cancel_key (codes "b") (codes "q:1")
        → (codes "a" ≡ codes "b") × (codes "q" ≡ codes "q:1"))
    × (confirm_key (codes "a") (codes "q") ≡ confirm_key (codes "b") (codes "q:1")
        → (codes "a" ≡ codes "b") × (codes "q" ≡ codes "q:1"))
    × (quote_key (codes "a") ≢ cancel_key (codes "b") (codes "q:1"))
    × (quote_key (codes "a") ≢ confirm_key (codes "b") (codes "q:1"))
    × (cancel_key (codes "a") (codes "q") ≢ confirm_key (codes "b") (codes "q:1"))
keys_distinct_example = keys_distinct (codes "a") (codes "q") (codes "b") (codes "q:1") refl refl
