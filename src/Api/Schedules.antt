-- ===== src/Api/Schedules.antt =====
-- The handlers of packages/core/src/api that read the rules of a device one by one:
-- get-device-timerx.ts and get-device-triggerx.ts. The digest of the device tells the ids; each rule
-- is asked for by its id. JavaScript gives the order of two texts (`locale_le`).
pub mod Ordered
pub mod Asked
use merossity.Prelude.{ℕ, zero, suc, ◌+◌, ◌-◌, ◌*◌, ◌/◌, ◌%◌, ◌^◌, ◌≤◌, ◌<◌, min, max, String}
use merossity.Prelude.{◌≡◌, refl, sym, ap, ◌∙◌, ◌≢◌, ◌↔◌, ◌⊎◌, inl, inr, Bool, true, false, not}
use merossity.Prelude.{
  ◌&&◌, ◌||◌, Option, none, some, List, [], ◌∷◌, ◌++◌, map, arith, eq_iff, eq_refl,
}
use merossity.Prelude.{ltb, leb, ◌==◌, str_eq, if◌then◌else◌, ltb→lt, lt→ltb, leb→le, ==_iff, tests}
use merossity.Prelude.{
  Bool-cases, Option-cases, is_some, get_or, or_else, map_option, length, get_elem?,
}
use merossity.Prelude.{take, drop, find, any, all, keep, All, All-append, All-take, All-keep}
use merossity.Prelude.Integers.{ℤ}
use merossity.Prelude.Sorting.{sort}
use merossity.Prelude.Maps.{Map}
use merossity.Prelude.Texts.{trim}
use merossity.Json.{Number, Value, object, Fields, get, round}
use merossity.Poller.Types.{LanScheduleDigestEntry}
use merossity.Poller.Digest.{to_number, is_one, coerce_finite_number, extract_lan_schedule_digest}
use merossity.Poller.PollNow.{unique}
use merossity.Api.Client.{
  Action, request, Request, get_system_all, get_timer_x, get_trigger_x, LanConfig, Network, Handler,
  done, ◌>>=◌, ◌>>◌, reply, send, lan_access, refuse_if, to_text, is_undefined,
}
use merossity.Api.Rules.{rule_of}

-- `TimerXRule` of get-device-timerx.ts.
pub record TimerXRead : Type 0 where
  pub id : String
  pub enable : Option Bool
  pub channel : Option ℤ
  pub alias : Option String
  pub type : Option ℤ
  pub week : Option ℤ
  pub time : Option ℤ
  pub sun_offset : Option ℤ
  pub duration : Option ℤ
  pub extend : Option Value

-- The bodies of the answers.
pub record Timers : Type 0 where
  pub host : String
  pub digest : List LanScheduleDigestEntry
  pub timers : List TimerXRead
  pub raw_by_id : Map Value

pub record Triggers : Type 0 where
  pub host : String
  pub digest : List LanScheduleDigestEntry
  pub raw_by_id : Map Value

-- `[...new Set(digest.map((d) => d.id).filter(Boolean))]`
unfoldable pub digest_ids : List LanScheduleDigestEntry → List String
digest_ids digest = unique (keep (λ id. not (str_eq id "")) (map (λ d. d.id) digest))

-- The loop over the ids, one request at a time; an error ends it.
unfoldable pub ask_each : Network → (ask : String → Action) → List String → Handler (Map Value)
ask_each net ask [] = reply []
ask_each net ask (id ∷ ids) = do
  resp ← send net (ask id)
  rest ← ask_each net ask ids
  reply ((id, resp) ∷ rest)

-- The rule in an answer.
unfoldable pub timer_rule_in : Value → Option Fields
timer_rule_in resp =
    let timerx = get "timerx" (get "payload" resp) in
    or_else (rule_of "timerx" timerx) (rule_of "timerx" (get "timerx" timerx))

-- The first place of an id in the digest.
unfoldable pub digest_index : List LanScheduleDigestEntry → String → Option ℕ
digest_index [] id = none
digest_index (d ∷ digest) id =
    let rest = digest_index digest id in
    if str_eq d.id id then some 0 else map_option (λ n. n + 1) rest

-- Rules of the digest come first, in its order, and the others by their ids.
abbrev pub index_le : (ids : Bool) → Option ℕ → Option ℕ → Bool
index_le ids (some i) (some j) = leb i j
index_le ids (some i) none = true
index_le ids none (some j) = false
index_le ids none none = ids

module _ (parse_number : Value → Number) (print_value : Value → String)
    (locale_le : String → String → Bool) where
  unfoldable pub timer_le : List LanScheduleDigestEntry → TimerXRead → TimerXRead → Bool
  timer_le digest a b =
      index_le (locale_le a.id b.id) (digest_index digest a.id) (digest_index digest b.id)

  abbrev int_in : (key : String) → Fields → Option ℤ
  int_in key raw = map_option round (coerce_finite_number parse_number (get key (object raw)))

  abbrev given : {A : Type 0} → (Value → A) → Value → Option A
  given read v = if is_undefined v then none else some (read v)

  -- `parseTimerXRule`: a value that is no number is as good as none.
  unfoldable pub timer_of : Fields → TimerXRead
  timer_of raw = record {
    id = trim (to_text print_value (get "id" (object raw)));
    enable = given (λ v. is_one (to_number parse_number v)) (get "enable" (object raw));
    channel = int_in "channel" raw;
    alias = given (to_text print_value) (get "alias" (object raw));
    type = int_in "type" raw;
    week = int_in "week" raw;
    time = int_in "time" raw;
    sun_offset = int_in "sunOffset" raw;
    duration = int_in "duration" raw;
    extend = given (λ v. v) (get "extend" (object raw));
  }

  -- The rules that the answers hold, those with an id.
  unfoldable pub timers_in : Map Value → List TimerXRead
  timers_in [] = []
  timers_in ((id, resp) ∷ raws) =
      let rest = timers_in raws in
      elim (timer_rule_in resp) [
        | none ↦ rest
        | some raw ↦ if str_eq (timer_of raw).id "" then rest else timer_of raw ∷ rest
      ]

  abbrev pub digest_in : (kind : String) → Value → List LanScheduleDigestEntry
  digest_in kind resp = extract_lan_schedule_digest parse_number print_value locale_le resp kind

  module _ (cfg : LanConfig) (net : Network) where
    -- The requests of a handler: the digest, and then the rules of its ids.
    unfoldable pub read_rules :
        (kind : String) (ask : String → Request) (uuid : String)
        → Handler (String × List LanScheduleDigestEntry × Map Value)
    read_rules kind ask uuid = do
      (host, key) ← lan_access cfg uuid
      system_all ← send net (request host key get_system_all)
      raws ← ask_each net (λ id. request host key (ask id)) (digest_ids (digest_in kind system_all))
      reply (host, digest_in kind system_all, raws)

    unfoldable pub get_device_timer_x : (body : Value) → Handler Timers
    get_device_timer_x body = do
      let uuid = to_text print_value (get "uuid" body)
      refuse_if (str_eq uuid "") "missing_uuid" "Missing uuid"
      (host, digest, raws) ← read_rules "timerx" get_timer_x uuid
      reply (record {
        host = host;
        digest = digest;
        timers = sort (timer_le digest) (timers_in raws);
        raw_by_id = raws;
      })

    unfoldable pub get_device_trigger_x : (body : Value) → Handler Triggers
    get_device_trigger_x body = do
      let uuid = to_text print_value (get "uuid" body)
      refuse_if (str_eq uuid "") "missing_uuid" "Missing uuid"
      (host, digest, raws) ← read_rules "triggerx" get_trigger_x uuid
      reply (record { host = host; digest = digest; raw_by_id = raws })
