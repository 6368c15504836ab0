-- ===== src/Ws/Connection.antt =====
-- clob/ws/client.go: the life of the connection, `connect`, `Close` and `scheduleReconnect`. The
-- steps of the goroutines between two accesses of the shared atomics are the steps of the model, and
-- follow one another in any order. Dialing a server is an input of its step; durations are in
-- seconds.
pub mod Invariant
pub mod Recovery
pub mod Lost
mod Tests
use polymarket_client.Base.{
  ℕ, zero, suc, ◌≡◌, ◌+◌, ◌*◌, Bool, true, false, not, ◌&&◌, ◌||◌, Option, none, some, List, [],
  ◌∷◌, ◌++◌, ltb, nat_eq, if◌then◌else◌,
}

-- Where a goroutine stands that has set the flag `reconnecting`: before the swap of the connection
-- that failed, in the loop with its backoff before and in the dial, and at the deferred reset.
pub data Holder : Type 0 where
  claiming : ℕ → Holder
  waiting dialing : ℕ → Holder
  finishing : Holder

-- `Client`, the fields of its connection. `goroutines` counts those that `connect` starts: the read
-- loop, and the heartbeat and the watchdog where they are on. `watching` has the connection of each
-- one that is alive, and `calls` counts the calls of `connect` from outside that dial. The last
-- three count the callbacks.
pub record Connections : Type 0 where
  pub conn : Option ℕ
  pub closed : Bool
  pub connected : Bool
  pub reconnecting : Bool
  pub auto_reconnect : Bool
  pub goroutines : ℕ
  pub watching : List ℕ
  pub holders : List Holder
  pub calls : ℕ
  pub next_conn : ℕ
  pub on_connected : ℕ
  pub on_reconnected : ℕ
  pub on_disconnected : ℕ

-- `New`, before any connection.
abbrev pub unconnected : Bool → ℕ → Connections
unconnected auto goroutines = record {
  conn = none;
  closed = false;
  connected = false;
  reconnecting = false;
  auto_reconnect = auto;
  goroutines = goroutines;
  watching = [];
  holders = [];
  calls = 0;
  next_conn = 0;
  on_connected = 0;
  on_reconnected = 0;
  on_disconnected = 0;
}

-- The element of an index, and the others.
unfoldable pub pull {ℓ} : {A : Type ℓ} → ℕ → List A → Option (A × List A)
pull i [] = none
pull zero (x ∷ xs) = some (x, xs)
pull (suc i) (x ∷ xs) = elim (pull i xs) [ none ↦ none | some (y, ys) ↦ some (y, x ∷ ys) ]

unfoldable pub starts : ℕ → ℕ → List ℕ → List ℕ
starts zero c watching = watching
starts (suc n) c watching = c ∷ starts n c watching

-- The swap of the pointer, of the flag `connected`, and the goroutines, after a dial.
unfoldable pub attach : Connections → Connections
attach s = record s {
  conn = some s.next_conn;
  connected = true;
  on_connected = if s.connected then s.on_connected else s.on_connected + 1;
  on_reconnected = if s.connected then s.on_reconnected + 1 else s.on_reconnected;
  watching = starts s.goroutines s.next_conn s.watching;
  next_conn = s.next_conn + 1;
}

-- `if backoff < time.Minute { backoff *= 2 }`
abbrev pub next_backoff : ℕ → ℕ
next_backoff b = if ltb b 60 then b * 2 else b

abbrev pub is_conn : ℕ → Option ℕ → Bool
is_conn c none = false
is_conn c (some d) = nat_eq c d

-- `scheduleReconnect` up to the first swap, called by a goroutine of the connection c.
unfoldable pub schedule_reconnect : ℕ → Connections → Connections
schedule_reconnect c s =
    if s.closed || not s.auto_reconnect
    then record s {
      on_disconnected = if s.auto_reconnect then s.on_disconnected else s.on_disconnected + 1;
    }
    else if s.reconnecting
    then s
    else record s { reconnecting = true; holders = claiming c ∷ s.holders }

-- The rest of it, and the loop that it starts, by one step of the goroutine. `done` tells whether
-- the timer fired before the context ended, and whether a dial succeeded. The context ends only when
-- the client is closed.
unfoldable pub work : Holder → Bool → Connections → Option Connections
unfolding attach
work (claiming c) done s =
    if is_conn c s.conn
    then some (record s { conn = none; holders = waiting 1 ∷ s.holders })
    else some (record s { reconnecting = false })
work (waiting b) true s = some (record s { holders = dialing b ∷ s.holders })
work (waiting b) false s = if s.closed then some (record s { reconnecting = false }) else none
work (dialing b) true s = some (record (attach s) { holders = finishing ∷ s.holders })
work (dialing b) false s = some (record s { holders = waiting (next_backoff b) ∷ s.holders })
work finishing done s = some (record s { reconnecting = false })

unfoldable pub close : Connections → Connections
close s = if s.closed then s else record s {
  closed = true;
  on_disconnected = if s.connected then s.on_disconnected + 1 else s.on_disconnected;
}

-- A call of `connect` from outside passes its test, and later has dialed or failed.
unfoldable pub call_connect : Connections → Option Connections
call_connect s = if s.closed then none else some (record s { calls = s.calls + 1 })

unfoldable pub call_dialed : Bool → ℕ → Connections → Option Connections
unfolding attach
call_dialed done zero s = none
call_dialed true (suc n) s = some (attach (record s { calls = n }))
call_dialed false (suc n) s = some (record s { calls = n })

-- A step of the client: a call from outside, or one of a goroutine by its index. A goroutine of a
-- connection schedules a reconnection and ends, or just ends.
pub data Event : Type 0 where
  connects closes : Event
  dialed : Bool → Event
  reports leaves : ℕ → Event
  works : ℕ → Bool → Event

unfoldable pub after_report : Option (ℕ × List ℕ) → Connections → Option Connections
unfolding schedule_reconnect
after_report none s = none
after_report (some (c, rest)) s = some (schedule_reconnect c (record s { watching = rest }))

unfoldable pub after_leave : Option (ℕ × List ℕ) → Connections → Option Connections
after_leave none s = none
after_leave (some (c, rest)) s = some (record s { watching = rest })

unfoldable pub after_work : Option (Holder × List Holder) → Bool → Connections → Option Connections
unfolding work
after_work none done s = none
after_work (some (h, rest)) done s = work h done (record s { holders = rest })

-- `none` where the step cannot be taken.
unfoldable pub happens : Event → Connections → Option Connections
happens connects s = call_connect s
happens closes s = some (close s)
happens (dialed done) s = call_dialed done s.calls s
happens (reports i) s = after_report (pull i s.watching) s
happens (leaves i) s = after_leave (pull i s.watching) s
happens (works i done) s = after_work (pull i s.holders) done s

pub data Reach (s : Connections) : Connections → Type 0 where
  here : Reach s s
  next : {t u : Connections} → Reach s t → (e : Event) → happens e t ≡ some u → Reach s u

-- The steps of the goroutines.
abbrev pub is_own : Event → Bool
is_own (reports i) = true
is_own (leaves i) = true
is_own (works i done) = true
is_own _ = false

-- Without calls from outside.
pub data Alone (s : Connections) : Connections → Type 0 where
  stay : Alone s s
  go :
      {t u : Connections}
      → Alone s t
      → (e : Event) → is_own e ≡ true
      → happens e t ≡ some u
      → Alone s u
