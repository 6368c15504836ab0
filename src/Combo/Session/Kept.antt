-- ===== src/Combo/Session/Kept.antt =====
-- No result of a request is lost or sent twice, in every order of the steps of a session.
use polymarket_client.Base.{
  ℕ, ◌≡◌, ◌≤◌, ◌+◌, refl, sym, subst, ◌∙◌, Bool, true, Option, none, some, List, [], ◌∷◌, ◌++◌,
  is_empty, not, ltb, arith, ◌||◌, length, if-cases,
}
use polymarket_client.Base.Map.{IsMap}
use polymarket_client.Base.Text.{Text, text_Comparable}
use polymarket_client.Combo.Quote.{Identity}
use polymarket_client.Combo.Pending.{Session, waiting, put_items, resolve, resolve_items}
use polymarket_client.Combo.Messages.{
  Event, Message, malformed_execution, valid_execution_status, undecodable, auth, event, ack_quote,
  ack_cancel, ack_confirmation, rfq_error, MessageError, RfqError, ErrorKey, keyed, unkeyed,
  uncorrelated, error_key, quote_request, confirmation_request, execution_update, trade, unknown,
}
use polymarket_client.Combo.Session.{
  Reply, failure, Reported, request_error, RfqSession, Handled, handled, blocked, push, deliver_to,
  deliver, report_error, store_error, terminal_error, push_if_valid, acknowledge, handle_keyed,
  handle_error, authenticate, close_all, shutdown, handle_event, handle,
}
use polymarket_client.Combo.Session.Delivery.{
  occurs, in_table, results, in_table-put_items, put_items-IsMap, results-close_all,
}

-- How many of the results of a channel are still to come, or have been sent.
abbrev pub count : ℕ → RfqSession → ℕ
count c s = in_table c s.table.pending + results c s.delivered

-- What holds of the table, the channels and the buffer of the events.
pub record Inv (s : RfqSession) : Type 0 where
  pub is_map : IsMap s.table.pending
  pub emptied : s.table.closed ≡ true → (c : ℕ) → in_table c s.table.pending ≡ 0
  pub buffered : length s.events ≤ s.event_buffer

-- No result is lost, and none comes from nowhere.
pub record Keeps (s t : RfqSession) : Type 0 where
  pub inv : Inv t
  pub counted : (c : ℕ) → count c t ≡ count c s
  pub numbered : t.next_channel ≡ s.next_channel

pub Keeps-refl : (s : RfqSession) → Inv s → Keeps s s
Keeps-refl s v = record { inv = v; counted = λ c. refl; numbered = refl }

pub Keeps-trans : (s t u : RfqSession) → Keeps s t → Keeps t u → Keeps s u
Keeps-trans s t u k l = record {
  inv = l.inv;
  counted = λ c. l.counted c ∙ k.counted c;
  numbered = l.numbered ∙ k.numbered;
}

abbrev pub HandledKeeps : RfqSession → Handled → Type 0
HandledKeeps s (handled t e) = Keeps s t
HandledKeeps s blocked = Unit

pub put_items_closed :
    (k : Text) (items : List ℕ) (t : Session) → (put_items k items t).closed ≡ t.closed
put_items_closed k [] t = refl
put_items_closed k (d ∷ ds) t = refl

deliver_items :
    (k : Text) (w : List ℕ) (r : Reply) (s : RfqSession)
    → waiting s.table k ≡ w
    → Inv s
    → Keeps s (deliver_to (resolve_items k w s.table) r s)
unfolding results
deliver_items k [] r s e v = record {
  inv = record { is_map = v.is_map; emptied = v.emptied; buffered = v.buffered };
  counted = λ c. refl;
  numbered = refl;
}
deliver_items k (d ∷ ds) r s e v =
    let moved : (c : ℕ)
        → in_table c (put_items k ds s.table).pending + occurs c (d ∷ ds)
          ≡ in_table c s.table.pending + occurs c ds =
      λ c.
        subst
          (λ w.
            in_table c (put_items k ds s.table).pending + occurs c w
            ≡ in_table c s.table.pending + occurs c ds)
          e (in_table-put_items c k ds s.table v.is_map) in
    record {
      inv = record {
        is_map = put_items-IsMap k ds s.table v.is_map;
        emptied = λ f c.
            let m = moved c in
            let n = v.emptied (sym (put_items_closed k ds s.table) ∙ f) c in omega arith;
        buffered = v.buffered;
      };
      counted = λ c. let m = moved c in omega arith;
      numbered = refl;
    }

deliver-Keeps : (k : Text) (r : Reply) (s : RfqSession) → Inv s → Keeps s (deliver k r s)
unfolding deliver resolve
deliver-Keeps k r s v = deliver_items k (waiting s.table k) r s refl v

length-snoc : (e : Event) (l : List Event) → length (l ++ (e ∷ [])) ≡ length l + 1
length-snoc e [] = omega arith
length-snoc e (d ∷ l) = let ih = length-snoc e l in omega arith

push-Keeps : (e : Event) (s : RfqSession) → Inv s → HandledKeeps s (push e s)
unfolding push
push-Keeps e s v =
    if-cases (HandledKeeps s) s.table.closed (λ _. Keeps-refl s v)
      (λ _.
        if-cases (HandledKeeps s) (ltb (length s.events) s.event_buffer)
          (λ b. record {
            inv = record {
              is_map = v.is_map;
              emptied = v.emptied;
              buffered = ground (arith, length-snoc e s.events);
            };
            counted = λ c. refl;
            numbered = refl;
          })
          (λ _. Keeps-refl s v))

push_if_valid-Keeps :
    (x : Option MessageError) (e : Event) (s : RfqSession)
    → Inv s
    → HandledKeeps s (push_if_valid x e s)
push_if_valid-Keeps none e s v = push-Keeps e s v
push_if_valid-Keeps (some x) e s v = Keeps-refl s v

store_error-Keeps :
    (o : Option Reported) (r : Reported) (s : RfqSession) → Inv s → Keeps s (store_error o r s)
store_error-Keeps (some old) r s v = Keeps-refl s v
store_error-Keeps none r s v =
    let t = record s { errors = some r } in
    let k : Keeps s t = record {
      inv = record { is_map = v.is_map; emptied = v.emptied; buffered = v.buffered };
      counted = λ c. refl;
      numbered = refl;
    } in
    if-cases (Keeps s) s.table.closed (λ _. Keeps-refl s v) (λ _. k)

report_error-Keeps : (r : Reported) (s : RfqSession) → Inv s → Keeps s (report_error r s)
unfolding report_error
report_error-Keeps r s v = store_error-Keeps s.errors r s v

acknowledge-Keeps :
    (malformed : Bool) (k : Text) (r : Reply) (s : RfqSession)
    → Inv s
    → HandledKeeps s (acknowledge malformed k r s)
unfolding acknowledge
acknowledge-Keeps malformed k r s v =
    if-cases (HandledKeeps s) malformed (λ _. Keeps-refl s v) (λ _. deliver-Keeps k r s v)

handle_keyed-Keeps :
    (k : ErrorKey) (e : RfqError) (s : RfqSession) → Inv s → HandledKeeps s (handle_keyed k e s)
handle_keyed-Keeps (keyed k) e s v = deliver-Keeps k (failure e) s v
handle_keyed-Keeps unkeyed e s v = report_error-Keeps (request_error e) s v
handle_keyed-Keeps uncorrelated e s v = Keeps-refl s v

handle_error-Keeps : (e : RfqError) (s : RfqSession) → Inv s → HandledKeeps s (handle_error e s)
unfolding handle_error
handle_error-Keeps e s v =
    if-cases (HandledKeeps s) (is_empty e.error_code || is_empty e.message) (λ _. Keeps-refl s v)
      (λ _. handle_keyed-Keeps (error_key e) e s v)

authenticate-Keeps :
    (o : Option Bool) (b : Bool) (s : RfqSession) → Inv s → HandledKeeps s (authenticate o b s)
authenticate-Keeps none b s v = record {
  inv = record { is_map = v.is_map; emptied = v.emptied; buffered = v.buffered };
  counted = λ c. refl;
  numbered = refl;
}
authenticate-Keeps (some o) b s v = tt

pub shutdown-Keeps : (e : Option MessageError) (s : RfqSession) → Inv s → Keeps s (shutdown e s)
unfolding shutdown in_table
shutdown-Keeps e s v =
    let t = record s {
      table = record s.table { closed = true; pending = [] };
      delivered = close_all s.table.pending s.delivered;
      errors = terminal_error e s.errors;
    } in
    let k : Keeps s t = record {
      inv = record { is_map = tt; emptied = λ f c. refl; buffered = v.buffered };
      counted = λ c. let r = results-close_all c s.table.pending s.delivered in omega arith;
      numbered = refl;
    } in
    if-cases (Keeps s) s.table.closed (λ _. Keeps-refl s v) (λ _. k)

module _ (is_hex_address : Text → Bool) (hex_to_address : Text → ℕ) (identity : Identity) where
  handle_event-Keeps :
      (e : Event) (s : RfqSession)
      → Inv s
      → HandledKeeps s (handle_event is_hex_address hex_to_address identity e s)
  unfolding handle_event
  handle_event-Keeps (quote_request r) s v = push_if_valid-Keeps _ (quote_request r) s v
  handle_event-Keeps (confirmation_request r) s v =
      push_if_valid-Keeps _ (confirmation_request r) s v
  handle_event-Keeps (execution_update rfq status) s v =
      if-cases (HandledKeeps s) (is_empty rfq || not (valid_execution_status status))
        {x = handled s (some malformed_execution)} (λ _. Keeps-refl s v)
        (λ _. push-Keeps (execution_update rfq status) s v)
  handle_event-Keeps (trade t) s v = push_if_valid-Keeps _ (trade t) s v
  handle_event-Keeps (unknown kind) s v = push-Keeps (unknown kind) s v

  pub handle-Keeps :
      (m : Message) (s : RfqSession)
      → Inv s
      → HandledKeeps s (handle is_hex_address hex_to_address identity m s)
  unfolding handle
  handle-Keeps undecodable s v = Keeps-refl s v
  handle-Keeps (auth b) s v = authenticate-Keeps s.authenticated b s v
  handle-Keeps (event e) s v = handle_event-Keeps e s v
  handle-Keeps (ack_quote r) s v = acknowledge-Keeps _ _ _ s v
  handle-Keeps (ack_cancel r) s v = acknowledge-Keeps _ _ _ s v
  handle-Keeps (ack_confirmation r d) s v = acknowledge-Keeps _ _ _ s v
  handle-Keeps (rfq_error e) s v = handle_error-Keeps e s v
