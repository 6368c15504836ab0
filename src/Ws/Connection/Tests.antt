-- ===== src/Ws/Connection/Tests.antt =====
-- Runs of the connection, and the theorems about it at them.
use polymarket_client.Base.{refl, true, Option, none, some, List, [], ◌∷◌}
use polymarket_client.Ws.Connection.{
  Connections, unconnected, pull, starts, attach, schedule_reconnect, work, close, call_connect,
  call_dialed, Event, connects, dialed, reports, works, after_report, after_leave, after_work,
  happens, Reach, Alone, here, next,
}
use polymarket_client.Ws.Connection.Recovery.{reconnects, IsConnected}

abbrev or_start : Option Connections → Connections
or_start none = unconnected true 1
or_start (some s) = s

-- The steps of a run.
program : Unit {0}
unfolding happens call_connect call_dialed after_report after_leave after_work pull starts attach
    schedule_reconnect work close
program = tt

-- A call connects, and the read loop fails: its connection is given up.
abbrev dropped_events : List Event
dropped_events = connects ∷ dialed true ∷ reports 0 ∷ works 0 true ∷ []

abbrev run : List Event → Connections → Connections
run [] s = s
run (e ∷ es) s = run es (or_start (happens e s))

abbrev dropped : Connections
dropped = run dropped_events (unconnected true 1)

dropped_reached : Reach (unconnected true 1) dropped
unfolding program
dropped_reached =
    next (next (next (next here connects refl) (dialed true) refl) (reports 0) refl) (works 0 true)
      refl

abbrev redialing : Connections
redialing = or_start (happens (works 0 true) dropped)

reconnects_example : (t : Connections) × Alone dropped t × IsConnected t
unfolding program
reconnects_example = reconnects true 1 dropped_reached refl refl refl
