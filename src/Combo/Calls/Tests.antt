-- ===== src/Combo/Calls/Tests.antt =====
-- A session in which a quote is cancelled, and the theorems about sessions at it.
use polymarket_client.Base.{ℕ, Bool, true, Option, none, some}
use polymarket_client.Base.Map.{lookup, assign, delete}
use polymarket_client.Base.Text.{Text, codes, text_eq}
use polymarket_client.Combo.Pending.{total, add_pending, resolve}
use polymarket_client.Combo.Messages.{
  QuoteReference, ack_cancel, quote_key, cancel_key, confirm_key,
}
use polymarket_client.Combo.Session.{
  RfqSession, acknowledge, deliver, handle, receive, request, close_channels, close_all, shutdown,
}
use polymarket_client.Combo.Quote.{Identity}
use polymarket_client.Clob.Order.{eoa}
use polymarket_client.Combo.Calls.{
  cancel_quote, call_key, begin_call, receives, closes, act, opened,
}

abbrev any_address : Text → Bool
any_address t = true

abbrev tenth : Text → ℕ
tenth t = 10

abbrev cancelled : QuoteReference
cancelled = record { rfq_id = codes "r"; quote_id = codes "q" }

abbrev quoter : Identity
quoter = record {
  signer_address = codes "0x0A";
  maker_address = codes "0x0a";
  signature_type = eoa;
}

program : Unit {0}
unfolding lookup assign delete text_eq total add_pending resolve quote_key cancel_key confirm_key
    acknowledge deliver handle receive request close_channels close_all shutdown call_key begin_call
    act
program = tt

abbrev started : RfqSession
started = begin_call (some 10) 137 quoter (cancel_quote cancelled) (opened 1 4)

abbrev or_opened : Option RfqSession → RfqSession
or_opened none = opened 1 4
or_opened (some s) = s

abbrev acknowledged : RfqSession
acknowledged =
    or_opened (act any_address tenth (some 10) 137 quoter (receives (ack_cancel cancelled)) started)

abbrev ended : RfqSession
ended = or_opened (act any_address tenth (some 10) 137 quoter closes acknowledged)
