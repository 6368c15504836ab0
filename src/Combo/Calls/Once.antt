-- ===== src/Combo/Calls/Once.antt =====
-- Every request that a session accepts gets one result.
use polymarket_client.Base.{
  ℕ, ◌≡◌, ◌≤◌, ◌+◌, refl, ◌∙◌, ◌⊎◌, inl, inr, Bool, true, Option, none, some, List, [], ◌∷◌, nat_eq,
  if◌then◌else◌, arith, length, of_some,
}
use polymarket_client.Base.Text.{Text}
use polymarket_client.Combo.Quote.{Identity}
use polymarket_client.Combo.Pending.{add_pending}
use polymarket_client.Combo.Messages.{Event, Message, read_failed}
use polymarket_client.Combo.Session.{
  RfqSession, Handled, handled, blocked, after_handle, receive, shutdown, request, give_up,
  drop_event, take_event, take_error, take_authenticated,
}
use polymarket_client.Combo.Session.Delivery.{in_table, results}
use polymarket_client.Combo.Session.Kept.{
  count, Inv, Keeps, Keeps-refl, Keeps-trans, HandledKeeps, handle-Keeps, shutdown-Keeps,
}
use polymarket_client.Combo.Session.Entered.{
  accepted, request_lem, give_up-Inv, give_up-count, give_up-other,
}
use polymarket_client.Combo.Calls.{
  Call, CallError, call_key, enter, begin_call, Action, calls, gives_up, receives, read_fails,
  closes, takes_event, takes_error, takes_authentication, act, Reach, here, next, opened,
  is_patient, Patient, stay, go,
}

-- No channel counts twice, and none before it is made.
pub record Once (s : RfqSession) : Type 0 where
  pub inv : Inv s
  pub once : (c : ℕ) → count c s ≤ 1
  pub fresh : (c : ℕ) → s.next_channel ≤ c → count c s ≡ 0

Keeps-Once : (s t : RfqSession) → Once s → Keeps s t → Once t
Keeps-Once s t v k = record {
  inv = k.inv;
  once = λ c. let o = v.once c in let n = k.counted c in omega arith;
  fresh = λ c l. k.counted c ∙ v.fresh c (let n = k.numbered in omega arith);
}

drop_event-Keeps :
    (l : List Event) (s : RfqSession) → length l ≤ s.event_buffer → Inv s → Keeps s (drop_event l s)
drop_event-Keeps [] s b v = Keeps-refl s v
drop_event-Keeps (e ∷ es) s b v = record {
  inv = record { is_map = v.is_map; emptied = v.emptied; buffered = ground arith };
  counted = λ c. refl;
  numbered = refl;
}

take_event-Keeps : (s : RfqSession) → Inv s → Keeps s (take_event s)
unfolding take_event
take_event-Keeps s v = drop_event-Keeps s.events s v.buffered v

take_error-Keeps : (s : RfqSession) → Inv s → Keeps s (take_error s)
unfolding take_error
take_error-Keeps s v = record {
  inv = record { is_map = v.is_map; emptied = v.emptied; buffered = v.buffered };
  counted = λ c. refl;
  numbered = refl;
}

take_authenticated-Keeps : (s : RfqSession) → Inv s → Keeps s (take_authenticated s)
unfolding take_authenticated
take_authenticated-Keeps s v = record {
  inv = record { is_map = v.is_map; emptied = v.emptied; buffered = v.buffered };
  counted = λ c. refl;
  numbered = refl;
}

handled-Keeps :
    (s : RfqSession) (h : Handled) {t : RfqSession}
    → HandledKeeps s h
    → after_handle h ≡ some t
    → Keeps s t
handled-Keeps s blocked k e = cc
handled-Keeps s (handled u none) k e = of_some (Keeps s) e k
handled-Keeps s (handled u (some x)) k e =
    of_some (Keeps s) e (Keeps-trans s u (shutdown (some x) u) k (shutdown-Keeps (some x) u k.inv))

request-Once : (k : Text) (s : RfqSession) → Once s → Once (request k s)
unfolding request
request-Once k s v =
    let (i, n) = request_lem k s v.inv in
    record {
      inv = i;
      once = λ c. let o = v.once c in let m = n c in let f = v.fresh c in ground arith;
      fresh = λ c l. let o = v.fresh c (omega arith) in let m = n c in ground arith;
    }

enter-Once : (k : CallError ⊎ Text) (s : RfqSession) → Once s → Once (enter k s)
enter-Once (inl e) s v = v
enter-Once (inr k) s v = request-Once k s v

-- What counts once is not the channel of a new request.
enter-counted :
    (k : CallError ⊎ Text) (s : RfqSession) (c : ℕ)
    → Once s
    → count c s ≡ 1
    → count c (enter k s) ≡ 1
enter-counted (inl e) s c v o = o
enter-counted (inr k) s c v o =
    let n : count c (request k s)
        ≡ count c s + (if accepted k s then (if nat_eq s.next_channel c then 1 else 0) else 0) =
      unfold request in (request_lem k s v.inv).1 c in
    let f = v.fresh c in ground arith

accepted_lem :
    (k : Text) (s : RfqSession)
    → (add_pending k s.next_channel s.table).1 ≡ none
    → accepted k s ≡ true
unfolding add_pending
accepted_lem k s h = ground (arith, h)

enter-accepted :
    (k : Text) (s : RfqSession)
    → Once s
    → (add_pending k s.next_channel s.table).1 ≡ none
    → count s.next_channel (enter (inr k) s) ≡ 1
enter-accepted k s v h =
    let a = accepted_lem k s h in
    let n : count s.next_channel (request k s)
        ≡ count s.next_channel s
          + (if accepted k s then (if nat_eq s.next_channel s.next_channel then 1 else 0) else 0) =
      unfold request in (request_lem k s v.inv).1 s.next_channel in
    let f = v.fresh s.next_channel (omega arith) in ground arith

give_up-Once : (k : Text) (ch : ℕ) (s : RfqSession) → Once s → Once (give_up k ch s)
give_up-Once k ch s v = record {
  inv = give_up-Inv k ch s v.inv;
  once = λ c. let o = v.once c in let l = give_up-count k ch s c v.inv in omega arith;
  fresh = λ c l.
      let n : (give_up k ch s).next_channel ≡ s.next_channel = unfold give_up in refl in
      let o = v.fresh c (omega arith) in let m = give_up-count k ch s c v.inv in omega arith;
}

module _ (is_hex_address : Text → Bool) (hex_to_address : Text → ℕ) (key : Option ℕ) (chain : ℕ)
    (identity : Identity) where
  receive-Keeps :
      (m : Message) (s : RfqSession) {t : RfqSession}
      → Inv s
      → receive is_hex_address hex_to_address identity m s ≡ some t
      → Keeps s t
  unfolding receive
  receive-Keeps m s v e =
      handled-Keeps s _ (handle-Keeps is_hex_address hex_to_address identity m s v) e

  begin_call-Once : (c : Call) (s : RfqSession) → Once s → Once (begin_call key chain identity c s)
  unfolding begin_call
  begin_call-Once c s v = enter-Once (call_key key chain identity c) s v

  act-Once :
      (a : Action) (s : RfqSession) {t : RfqSession}
      → Once s
      → act is_hex_address hex_to_address key chain identity a s ≡ some t
      → Once t
  unfolding act
  act-Once (calls c) s v e = of_some Once e (begin_call-Once c s v)
  act-Once (gives_up k ch) s v e = of_some Once e (give_up-Once k ch s v)
  act-Once (receives m) s {t} v e = Keeps-Once s t v (receive-Keeps m s v.inv e)
  act-Once read_fails s v e =
      of_some Once e (Keeps-Once s _ v (shutdown-Keeps (some read_failed) s v.inv))
  act-Once closes s v e = of_some Once e (Keeps-Once s _ v (shutdown-Keeps none s v.inv))
  act-Once takes_event s v e = of_some Once e (Keeps-Once s _ v (take_event-Keeps s v.inv))
  act-Once takes_error s v e = of_some Once e (Keeps-Once s _ v (take_error-Keeps s v.inv))
  act-Once takes_authentication s v e =
      of_some Once e (Keeps-Once s _ v (take_authenticated-Keeps s v.inv))

  opened-Once : (max_pending event_buffer : ℕ) → Once (opened max_pending event_buffer)
  unfolding in_table results
  opened-Once max_pending event_buffer = record {
    inv = record { is_map = tt; emptied = λ f c. refl; buffered = ground arith };
    once = λ c. ground arith;
    fresh = λ c l. refl;
  }

  Reach-Once :
      (max_pending event_buffer : ℕ) {s : RfqSession}
      → Reach is_hex_address hex_to_address key chain identity (opened max_pending event_buffer) s
      → Once s
  Reach-Once max_pending event_buffer here = opened-Once max_pending event_buffer
  Reach-Once max_pending event_buffer (next {t} r a e) =
      act-Once a t (Reach-Once max_pending event_buffer r) e

  act-counted :
      (c : ℕ) (a : Action) (s : RfqSession) {t : RfqSession}
      → Once s
      → count c s ≡ 1
      → is_patient c a ≡ true
      → act is_hex_address hex_to_address key chain identity a s ≡ some t
      → count c t ≡ 1
  unfolding act
  act-counted c (calls d) s {t} v o p e =
      of_some (λ t. count c t ≡ 1) e
        (unfold begin_call in enter-counted (call_key key chain identity d) s c v o)
  act-counted c (gives_up k ch) s v o p e =
      of_some (λ t. count c t ≡ 1) e (give_up-other k ch s c v.inv (ground arith) ∙ o)
  act-counted c (receives m) s v o p e = (receive-Keeps m s v.inv e).counted c ∙ o
  act-counted c read_fails s v o p e =
      of_some (λ t. count c t ≡ 1) e ((shutdown-Keeps (some read_failed) s v.inv).counted c ∙ o)
  act-counted c closes s v o p e =
      of_some (λ t. count c t ≡ 1) e ((shutdown-Keeps none s v.inv).counted c ∙ o)
  act-counted c takes_event s v o p e =
      of_some (λ t. count c t ≡ 1) e ((take_event-Keeps s v.inv).counted c ∙ o)
  act-counted c takes_error s v o p e =
      of_some (λ t. count c t ≡ 1) e ((take_error-Keeps s v.inv).counted c ∙ o)
  act-counted c takes_authentication s v o p e =
      of_some (λ t. count c t ≡ 1) e ((take_authenticated-Keeps s v.inv).counted c ∙ o)

  Patient-counted :
      {c : ℕ} {s t : RfqSession}
      → Once s
      → count c s ≡ 1
      → Patient is_hex_address hex_to_address key chain identity c s t
      → Once t × (count c t ≡ 1)
  Patient-counted v o stay = (v, o)
  Patient-counted {c} v o (go {t} r a p e) =
      let (w, q) = Patient-counted v o r in (act-Once a t w e, act-counted c a t w q p e)

  pub answered :
      (max_pending event_buffer : ℕ) {s t : RfqSession} (call : Call) (k : Text)
      → Reach is_hex_address hex_to_address key chain identity (opened max_pending event_buffer) s
      → call_key key chain identity call ≡ inr k
      → (add_pending k s.next_channel s.table).1 ≡ none
      → Patient is_hex_address hex_to_address key chain identity s.next_channel
          (begin_call key chain identity call s)
          t
      → (in_table s.next_channel t.table.pending + results s.next_channel t.delivered ≡ 1)
        × (t.table.closed ≡ true → results s.next_channel t.delivered ≡ 1)
  unfolding begin_call
  answered max_pending event_buffer {s} {t} call k r e h p =
      let v = Reach-Once max_pending event_buffer r in
      let o : count s.next_channel (begin_call key chain identity call s) ≡ 1 =
        rw e (enter-accepted k s v h) in
      let (w, q) = Patient-counted (begin_call-Once call s v) o p in
      (q, λ f. let z = w.inv.emptied f s.next_channel in omega arith)
