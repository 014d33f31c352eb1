-- ===== src/Web/Devices/Stream.antt =====
-- The actor `streamEvents` of apps/web/src/state/devicesMachine.ts: it keeps a connection to the
-- server's stream, and after an error opens a new one with growing delays. A connection is a
-- number; a closed one raises no events.
use merossity.Prelude.{ℕ, ◌+◌, ◌-◌, ◌≤◌, min}
use merossity.Prelude.{◌≡◌, ◌⊎◌, Bool, true, false, not}
use merossity.Prelude.{◌||◌, Option, none, some, List, [], ◌∷◌, arith}
use merossity.Prelude.{◌==◌, if◌then◌else◌}
use merossity.Prelude.{is_some, get_or, length, get_elem?}
use merossity.Web.Devices.Types.{
  DevicesEvent, monitor_stream_connected, monitor_stream_disconnected,
}

pub record StreamEvents : Type 0 where
  pub retry_index : ℕ
  pub source : Option ℕ
  pub reconnect_timer : Bool
  pub closed : Bool
  pub next_source : ℕ

pub data StreamInput : Type 0 where
  opened failed : (source : ℕ) → StreamInput
  timer_fired stopped : StreamInput

-- What the actor sends back, and the delay of a timer that it sets.
pub data StreamOutput : Type 0 where
  send_back : DevicesEvent → StreamOutput
  set_timer : (delay_ms : ℕ) → StreamOutput

abbrev pub reconnect_delays_ms : List ℕ
reconnect_delays_ms = 1000 ∷ 2000 ∷ 5000 ∷ 10000 ∷ 30000 ∷ []

-- The index is in range by the `min`, so the default is never read.
unfoldable pub reconnect_delay_ms : ℕ → ℕ
reconnect_delay_ms retry_index =
    get_or (get_elem? reconnect_delays_ms (min retry_index (length reconnect_delays_ms - 1))) 0

unfoldable pub schedule_reconnect : StreamEvents → StreamEvents × List StreamOutput
schedule_reconnect s = if s.closed || s.reconnect_timer then (s, []) else (
  record s { retry_index = s.retry_index + 1; reconnect_timer = true },
  set_timer (reconnect_delay_ms s.retry_index) ∷ [],
)

-- Closes the old connection, if there is one, and opens another.
unfoldable pub open_stream : StreamEvents → StreamEvents
open_stream s =
    if s.closed
    then s
    else record s { source = some s.next_source; next_source = s.next_source + 1 }

unfoldable pub start_stream : StreamEvents
unfolding open_stream
start_stream = open_stream (record {
  retry_index = 0;
  source = none;
  reconnect_timer = false;
  closed = false;
  next_source = 0;
})

abbrev is_source : ℕ → Option ℕ → Bool
is_source id none = false
is_source id (some i) = i == id

unfoldable pub stream_step : StreamEvents → StreamInput → StreamEvents × List StreamOutput
unfolding schedule_reconnect open_stream
stream_step s (opened id) =
    if is_source id s.source
    then (record s { retry_index = 0 }, send_back monitor_stream_connected ∷ [])
    else (s, [])
stream_step s (failed id) =
    if is_source id s.source
    then (
      (schedule_reconnect (record s { source = none })).0,
      send_back monitor_stream_disconnected ∷ (schedule_reconnect (record s { source = none })).1,
    )
    else (s, [])
stream_step s timer_fired =
    if s.reconnect_timer then (open_stream (record s { reconnect_timer = false }), []) else (s, [])
stream_step s stopped = (record s { closed = true; reconnect_timer = false; source = none }, [])

unfoldable pub run_stream : StreamEvents → List StreamInput → StreamEvents
run_stream s [] = s
run_stream s (i ∷ inputs) = run_stream (stream_step s i).0 inputs

-- Until it is stopped the actor has a connection or a timer that will open one, and never both;
-- afterwards it has neither.
abbrev pub IsAlive : StreamEvents → Type 0
IsAlive s =
    ((s.closed ≡ false) × (s.reconnect_timer ≡ not (is_some s.source)))
    ⊎ ((s.closed ≡ true) × (s.reconnect_timer ≡ false) × (s.source ≡ none))

-- The delays grow from one second to half a minute, and stay there from the fifth on.
pub reconnect_delay_ms_schedule :
    (a b : ℕ)
    → a ≤ b
    → (reconnect_delay_ms a ≤ reconnect_delay_ms b)
      × (1000 ≤ reconnect_delay_ms a)
      × (reconnect_delay_ms (a + 4) ≡ 30000)
unfolding reconnect_delay_ms
reconnect_delay_ms_schedule a b h = (ground arith, ground arith, ground arith)
