-- ===== src/Combo/Session.antt =====
-- combo/ws/client.go: a session. The channels of requests are numbers, each made by its request;
-- what is sent on them is kept in order. The channel of the authentication and that of the errors
-- hold one value, and the one of the events `event_buffer`.
pub mod Delivery
pub mod Kept
pub mod Entered
use polymarket_client.Base.{
  ℕ, suc, ◌≡◌, ◌+◌, Bool, true, false, not, ◌&&◌, ◌||◌, Option, none, some, List, [], ◌∷◌, ◌++◌,
  ltb, leb, nat_eq, if◌then◌else◌, is_empty, length, map,
}
use polymarket_client.Base.Text.{Text}
use polymarket_client.Combo.Quote.{Identity}
use polymarket_client.Combo.Pending.{Session, PendingError, add_pending, remove_pending, resolve}
use polymarket_client.Combo.Messages.{
  Decision, other_decision, QuoteReference, RfqError, Event, quote_request, confirmation_request,
  execution_update, trade, unknown, Message, undecodable, auth, event, ack_quote, ack_cancel,
  ack_confirmation, rfq_error, MessageError, decode_failed, malformed_execution,
  malformed_acknowledgement, malformed_error, uncorrelated_error, session_closed, buffer_full,
  read_failed, validate_quote_request, validate_trade, validate_confirmation_request,
  valid_execution_status, quote_key, cancel_key, confirm_key, ErrorKey, keyed, unkeyed,
  uncorrelated, error_key,
}

-- `pendingResult`.
pub data Reply : Type 0 where
  reference : QuoteReference → Reply
  decision : QuoteReference → Decision → Reply
  failure : RfqError → Reply
  closed_reply : Reply

-- What stands in the channel of the errors.
pub data Reported : Type 0 where
  request_error : RfqError → Reported
  terminal : MessageError → Reported

pub record RfqSession : Type 0 where
  pub table : Session
  pub next_channel : ℕ
  pub delivered : List (ℕ × Reply)
  pub events : List Event
  pub event_buffer : ℕ
  pub errors : Option Reported
  pub authenticated : Option Bool

-- A message is handled, with the error that ends the session, if any, or the read loop waits for
-- room in the channel of the authentication.
pub data Handled : Type 0 where
  handled : RfqSession → Option MessageError → Handled
  blocked : Handled

unfoldable pub push : Event → RfqSession → Handled
push e s =
    if s.table.closed
    then handled s (some session_closed)
    else if ltb (length s.events) s.event_buffer
    then handled (record s { events = s.events ++ (e ∷ []) }) none
    else handled s (some buffer_full)

-- The result is sent to the request that has waited longest under the key, if one waits.
abbrev pub deliver_to : Session × Option ℕ → Reply → RfqSession → RfqSession
deliver_to (table, none) r s = record s { table = table }
deliver_to (table, some ch) r s = record s { table = table; delivered = (ch, r) ∷ s.delivered }

unfoldable pub deliver : Text → Reply → RfqSession → RfqSession
deliver key r s = deliver_to (resolve key s.table) r s

abbrev pub store_error : Option Reported → Reported → RfqSession → RfqSession
store_error none r s = if s.table.closed then s else record s { errors = some r }
store_error (some old) r s = s

unfoldable pub report_error : Reported → RfqSession → RfqSession
report_error r s = store_error s.errors r s

abbrev pub push_if_valid : Option MessageError → Event → RfqSession → Handled
push_if_valid none e s = push e s
push_if_valid (some x) e s = handled s (some x)

unfoldable pub acknowledge : Bool → Text → Reply → RfqSession → Handled
unfolding deliver
acknowledge malformed key r s =
    if malformed then handled s (some malformed_acknowledgement) else handled (deliver key r s) none

abbrev pub is_other_decision : Decision → Bool
is_other_decision (other_decision d) = true
is_other_decision _ = false

abbrev pub handle_keyed : ErrorKey → RfqError → RfqSession → Handled
handle_keyed (keyed key) e s = handled (deliver key (failure e) s) none
handle_keyed unkeyed e s = handled (report_error (request_error e) s) none
handle_keyed uncorrelated e s = handled s (some uncorrelated_error)

unfoldable pub handle_error : RfqError → RfqSession → Handled
unfolding deliver report_error
handle_error e s =
    if is_empty e.error_code || is_empty e.message
    then handled s (some malformed_error)
    else handle_keyed (error_key e) e s

abbrev pub authenticate : Option Bool → Bool → RfqSession → Handled
authenticate none success s = handled (record s { authenticated = some success }) none
authenticate (some old) success s = blocked

-- Everything that waits gets the error of a closed session.
unfoldable pub close_channels : List ℕ → List (ℕ × Reply) → List (ℕ × Reply)
close_channels [] sent = sent
close_channels (ch ∷ chs) sent = (ch, closed_reply) ∷ close_channels chs sent

unfoldable pub close_all : List (Text × List ℕ) → List (ℕ × Reply) → List (ℕ × Reply)
unfolding close_channels
close_all [] sent = sent
close_all ((k, chs) ∷ m) sent = close_channels chs (close_all m sent)

abbrev pub terminal_error : Option MessageError → Option Reported → Option Reported
terminal_error none old = old
terminal_error (some e) old = some (terminal e)

unfoldable pub shutdown : Option MessageError → RfqSession → RfqSession
unfolding close_all
shutdown e s = if s.table.closed then s else record s {
  table = record s.table { closed = true; pending = [] };
  delivered = close_all s.table.pending s.delivered;
  errors = terminal_error e s.errors;
}

-- One round of `readLoop` whose read succeeds; `none` where the loop waits.
abbrev pub after_handle : Handled → Option RfqSession
after_handle blocked = none
after_handle (handled s none) = some s
after_handle (handled s (some e)) = some (shutdown (some e) s)

module _ (is_hex_address : Text → Bool) (hex_to_address : Text → ℕ) (identity : Identity) where
  unfoldable pub handle_event : Event → RfqSession → Handled
  unfolding push
  handle_event (quote_request r) s = push_if_valid (validate_quote_request r) (quote_request r) s
  handle_event (confirmation_request r) s =
      push_if_valid (validate_confirmation_request is_hex_address hex_to_address identity r)
        (confirmation_request r) s
  handle_event (execution_update rfq status) s =
      if is_empty rfq || not (valid_execution_status status)
      then handled s (some malformed_execution)
      else push (execution_update rfq status) s
  handle_event (trade t) s = push_if_valid (validate_trade t) (trade t) s
  handle_event (unknown kind) s = push (unknown kind) s

  unfoldable pub handle : Message → RfqSession → Handled
  unfolding handle_event acknowledge handle_error
  handle undecodable s = handled s (some decode_failed)
  handle (auth success) s = authenticate s.authenticated success s
  handle (event e) s = handle_event e s
  handle (ack_quote r) s =
      acknowledge (is_empty r.rfq_id || is_empty r.quote_id) (quote_key r.rfq_id) (reference r) s
  handle (ack_cancel r) s =
      acknowledge (is_empty r.rfq_id || is_empty r.quote_id) (cancel_key r.rfq_id r.quote_id)
        (reference r) s
  handle (ack_confirmation r d) s =
      acknowledge (is_empty r.rfq_id || is_empty r.quote_id || is_other_decision d)
        (confirm_key r.rfq_id r.quote_id) (decision r d) s
  handle (rfq_error e) s = handle_error e s

  unfoldable pub receive : Message → RfqSession → Option RfqSession
  unfolding handle shutdown
  receive m s = after_handle (handle m s)

-- A request puts its new channel into the table, or is refused.
abbrev pub requested : Session × Option PendingError → RfqSession → RfqSession
requested (table, e) s = record s { table = table; next_channel = s.next_channel + 1 }

unfoldable pub request : Text → RfqSession → RfqSession
request key s = requested (add_pending key s.next_channel s.table) s

-- A request that failed to be written, timed out or was cancelled leaves the table.
unfoldable pub give_up : Text → ℕ → RfqSession → RfqSession
give_up key ch s = record s { table = remove_pending key ch s.table }

abbrev pub drop_event : List Event → RfqSession → RfqSession
drop_event [] s = s
drop_event (e ∷ es) s = record s { events = es }

unfoldable pub take_event : RfqSession → RfqSession
take_event s = drop_event s.events s

unfoldable pub take_error : RfqSession → RfqSession
take_error s = record s { errors = none }

unfoldable pub take_authenticated : RfqSession → RfqSession
take_authenticated s = record s { authenticated = none }
