-- ===== src/Poller/Operations.antt =====
-- What the service of packages/core/src/api/state-poller.ts does, by the parts between the awaits of
-- its methods. The parts of different calls may come in any order.
use merossity.Prelude.{ℕ, String}
use merossity.Prelude.{Bool}
use merossity.Prelude.{Option, none, some, List, [], ◌∷◌}
use merossity.Prelude.{if◌then◌else◌}
use merossity.Prelude.{get_or}
use merossity.Prelude.Results.{Result}
use merossity.Poller.Types.{PollReason, TelemetryReason, KnownHost}
use merossity.Poller.Service.{
  Service, Message, boost_device, push_to_subscriber, subscribe, unsubscribe,
}
use merossity.Poller.Recovery.{finish_resolve}
use merossity.Poller.Reading.{Answers}
use merossity.Poller.Poll.{start_poll, settle_poll, release_poll}
use merossity.Poller.PollNow.{poll_now}
use merossity.Poller.Telemetry.{
  TelemetryAnswers, start_telemetry, settle_telemetry, release_telemetry,
}
use merossity.Poller.Tick.{begin_tick, sync_hosts, launch, end_tick}

-- `pollDevice`, `pollTelemetry`, `tryResolveHost` after its first part, `tick`, `pollNow`,
-- `boostDevice` and the streams.
pub data Operation : Type 0 where
  polling_starts polling_ends metering_starts metering_ends boosted : (uuid : String) → Operation
  polling_settles : (uuid : String) → PollReason → (started random_value : ℕ) → Answers → Operation
  metering_settles :
      (uuid : String) → TelemetryReason → (interval started : ℕ) → TelemetryAnswers → Operation
  look_up_ends : (uuid : String) → Result (Option KnownHost) → (written : Bool) → Operation
  tick_begins tick_launches : Operation
  tick_syncs : List (String × KnownHost) → Operation
  tick_ends : (started : ℕ) → Operation
  asked_now : Option (List String) → Operation
  subscribed : Operation
  unsubscribed : (id : ℕ) → Operation
  written_to : (id : ℕ) → Message → Operation

module _ (to_lower_case to_upper_case : String → String) (locale_le : String → String → Bool) where
  -- The service afterwards, and the device whose look-up is started.
  unfoldable pub perform : (now : ℕ) → Operation → Service → Service × Option String
  perform now (polling_starts uuid) s = (get_or (start_poll uuid now s) s, none)
  perform now (polling_ends uuid) s = (release_poll uuid s, none)
  perform now (metering_starts uuid) s = (get_or (start_telemetry uuid now s) s, none)
  perform now (metering_ends uuid) s = (release_telemetry uuid s, none)
  perform now (boosted uuid) s = (boost_device uuid now s, none)
  perform now (polling_settles uuid reason started r answers) s =
      let (s', _, looking) = settle_poll to_lower_case uuid reason started now r answers s in
      (s', if looking then some uuid else none)
  perform now (metering_settles uuid reason interval started answers) s =
      (settle_telemetry to_upper_case uuid reason interval started now answers s, none)
  perform now (look_up_ends uuid outcome written) s =
      (finish_resolve uuid outcome written now s, none)
  perform now tick_begins s = elim (begin_tick now s) [ none ↦ (s, none) | some r ↦ (r.0, none) ]
  perform now tick_launches s = ((launch now s).0, none)
  perform now (tick_syncs hosts) s = (sync_hosts now hosts s, none)
  perform now (tick_ends started) s = (end_tick started now s, none)
  perform now (asked_now wanted) s = ((poll_now wanted now s).0, none)
  perform now subscribed s = (subscribe locale_le s, none)
  perform now (unsubscribed id) s = (unsubscribe id s, none)
  perform now (written_to id message) s = (push_to_subscriber id message s, none)

  -- The look-ups that a sequence of operations starts, each operation with its time.
  unfoldable pub look_ups : List (ℕ × Operation) → Service → List (Option String)
  look_ups [] s = []
  look_ups ((now, o) ∷ os) s = let (s', looking) = perform now o s in looking ∷ look_ups os s'
