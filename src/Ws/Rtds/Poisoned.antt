-- ===== src/Ws/Rtds/Poisoned.antt =====
-- A subscription to a topic that cannot be encoded.
use polymarket_client.Base.{◌≡◌, Option, some, List, []}
use polymarket_client.Base.Text.{Text}
use polymarket_client.Ws.Rtds.{SendError, Frame}

abbrev pub Fails : List Frame × Option SendError → Type 0
Fails r = (r.0 ≡ []) × ((e : SendError) × (r.1 ≡ some e))
