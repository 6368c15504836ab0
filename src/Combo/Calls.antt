-- ===== src/Combo/Calls.antt =====
-- combo/ws/client.go: the calls of a session, and the steps in which a session, its callers and its
-- read loop take turns. A call is its part up to the table of the pending requests; that it waits
-- no longer is a step of its own. Shutting down is one step: a call that enters the table between
-- the emptying of the table and the close of `done` is told by `done` alone.
pub mod Once
mod Tests
use polymarket_client.Base.{
  ℕ, ◌≡◌, ◌⊎◌, inl, inr, Bool, true, false, ◌||◌, Option, none, some, List, [], if◌then◌else◌,
  is_empty, nat_eq, not, ◌&&◌,
}
use polymarket_client.Base.Text.{Text}
use polymarket_client.Combo.Checked.{QuoteError, Quoted, quoted, refused}
use polymarket_client.Combo.Quote.{
  Identity, QuoteRequest, QuoteOptions, QuoteEnv, BuiltQuote, build_and_sign,
}
use polymarket_client.Combo.Messages.{
  Decision, QuoteReference, Message, MessageError, read_failed, quote_key, cancel_key, confirm_key,
}
use polymarket_client.Combo.Session.{
  RfqSession, is_other_decision, receive, shutdown, request, give_up, take_event, take_error,
  take_authenticated,
}

pub data CallError : Type 0 where
  missing_ids invalid_decision : CallError
  not_built : QuoteError → CallError

-- `Quote`, `CancelQuote` and `RespondConfirmation`. What a quote asks of its surroundings is an
-- input of the call.
pub data Call : Type 0 where
  quote : QuoteEnv → QuoteRequest → QuoteOptions → Call
  cancel_quote : QuoteReference → Call
  respond_confirmation : QuoteReference → Decision → Call

abbrev pub built_key : Text → Quoted BuiltQuote → CallError ⊎ Text
built_key rfq (refused e) = inl (not_built e)
built_key rfq (quoted q) = inr (quote_key rfq)

-- A new session, with the room of its buffer and the limit of its table.
abbrev pub opened : ℕ → ℕ → RfqSession
opened max_pending event_buffer = record {
  table = record { closed = false; pending = []; max_pending = max_pending };
  next_channel = 0;
  delivered = [];
  events = [];
  event_buffer = event_buffer;
  errors = none;
  authenticated = none;
}

pub data Action : Type 0 where
  calls : Call → Action
  gives_up : Text → ℕ → Action
  receives : Message → Action
  read_fails closes takes_event takes_error takes_authentication : Action

abbrev pub enter : CallError ⊎ Text → RfqSession → RfqSession
enter (inl e) s = s
enter (inr k) s = request k s

module _ (key : Option ℕ) (chain : ℕ) (identity : Identity) where
  -- The checks of a call, and the key under which it waits.
  unfoldable pub call_key : Call → CallError ⊎ Text
  call_key (quote env r opts) =
      if is_empty r.rfq_id
      then inl missing_ids
      else built_key r.rfq_id (build_and_sign env key chain identity r opts)
  call_key (cancel_quote r) =
      if is_empty r.rfq_id || is_empty r.quote_id
      then inl missing_ids
      else inr (cancel_key r.rfq_id r.quote_id)
  call_key (respond_confirmation r d) =
      if is_empty r.rfq_id || is_empty r.quote_id
      then inl missing_ids
      else if is_other_decision d
      then inl invalid_decision
      else inr (confirm_key r.rfq_id r.quote_id)

  unfoldable pub begin_call : Call → RfqSession → RfqSession
  unfolding call_key
  begin_call c s = enter (call_key c) s

-- The request of the channel does not give up.
abbrev pub is_patient : ℕ → Action → Bool
is_patient c (gives_up k ch) = not (nat_eq ch c)
is_patient c _ = true

module _ (is_hex_address : Text → Bool) (hex_to_address : Text → ℕ) (key : Option ℕ) (chain : ℕ)
    (identity : Identity) where
  -- `none` where the step has to wait.
  unfoldable pub act : Action → RfqSession → Option RfqSession
  act (calls c) s = some (begin_call key chain identity c s)
  act (gives_up k ch) s = some (give_up k ch s)
  act (receives m) s = receive is_hex_address hex_to_address identity m s
  act read_fails s = some (shutdown (some read_failed) s)
  act closes s = some (shutdown none s)
  act takes_event s = some (take_event s)
  act takes_error s = some (take_error s)
  act takes_authentication s = some (take_authenticated s)

  pub data Reach (s : RfqSession) : RfqSession → Type 0 where
    here : Reach s s
    next : {t u : RfqSession} → Reach s t → (a : Action) → act a t ≡ some u → Reach s u

  -- Steps in which it does not.
  pub data Patient (c : ℕ) (s : RfqSession) : RfqSession → Type 0 where
    stay : Patient c s s
    go :
        {t u : RfqSession}
        → Patient c s t
        → (a : Action) → is_patient c a ≡ true
        → act a t ≡ some u
        → Patient c s u
