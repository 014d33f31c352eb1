-- ===== src/Web/Views/Timers.antt =====
-- The timers of apps/web/src/views/devices/DeviceCard.tsx: the pane that lists them, its requests to
-- the server, and the editor of one timer. A handler that waits is split at its awaits: `start_…`
-- is what it does before, and `end_…` what it does with the answers. JavaScript gives the number
-- that a text is converted to (`parse_number`) and the text of a number (`print_value`).
pub mod Saved
use merossity.Prelude.{ℕ, zero, suc, ◌+◌, ◌-◌, ◌*◌, ◌/◌, ◌%◌, ◌^◌, ◌≤◌, ◌<◌, min, max, String}
use merossity.Prelude.{◌≡◌, refl, sym, ap, ◌∙◌, ◌≢◌, ◌↔◌, ◌⊎◌, inl, inr, Bool, true, false, not}
use merossity.Prelude.{
  ◌&&◌, ◌||◌, Option, none, some, List, [], ◌∷◌, ◌++◌, map, arith, eq_iff, eq_refl,
}
use merossity.Prelude.{ltb, leb, ◌==◌, str_eq, if◌then◌else◌, ltb→lt, lt→ltb, leb→le, ==_iff, tests}
use merossity.Prelude.{
  Bool-cases, Option-cases, is_some, get_or, or_else, map_option, length, get_elem?,
}
use merossity.Prelude.{take, drop, find, any, all, keep, All, All-append, All-take, All-keep}
use Prim.Native.String.{◌++◌ as append_text}
use merossity.Prelude.Integers.{ℤ, pos, negsuc}
use merossity.Prelude.Maps.{Map, insert, lookup}
use merossity.Prelude.Results.{Result, ok, err}
use merossity.Prelude.Texts.{trim}
use merossity.Json.{
  Number, finite, Value, undefined, null, text, number, object, Fields, field, end, get, unit,
}
use merossity.Poller.Types.{LanScheduleDigestEntry}
use merossity.Poller.Digest.{to_number, is_one}
use merossity.Api.Client.{to_text, is_undefined}
use merossity.Api.Schedules.{TimerXRead}

pub data EditorMode : Type 0 where
  create edit : EditorMode

pub record TimerEditor : Type 0 where
  pub mode : EditorMode
  pub id : String
  pub alias : String
  pub channel : String
  pub enable : Bool
  pub type : String
  pub week : String
  pub time : String
  pub sun_offset : String
  pub duration : String
  pub toggle_onoff : Bool

-- "New timer", with a random id.
unfoldable pub new_editor : (random_id : String) → TimerEditor
new_editor random_id = record {
  mode = create;
  id = random_id;
  alias = "";
  channel = "0";
  enable = true;
  type = "0";
  week = "0";
  time = "-1";
  sun_offset = "0";
  duration = "0";
  toggle_onoff = true;
}

-- The number 0 or 1 of a switch.
abbrev pub bit_value : Bool → Value
bit_value b = number (finite (pos (if b then unit else 0)))

-- A number in a JSON text: what is not finite is written as null.
unfoldable pub json_number : Number → Value
json_number (finite z) = number (finite z)
json_number _ = null

-- `isObjectRecord`
abbrev is_record : Value → Bool
is_record (object fields) = true
is_record _ = false

module _ (parse_number : Value → Number) where
  -- `Number(t)`, as the request has it.
  abbrev pub sent_number : String → Value
  sent_number t = json_number (to_number parse_number (text t))

  -- The timer that is sent for a new one.
  unfoldable pub timer_fields : TimerEditor → Fields
  timer_fields e = field "id" (text (trim e.id)) (
      field "alias" (text e.alias) (
        field "channel" (sent_number e.channel) (
          field "enable" (bit_value e.enable) (
            field "type" (sent_number e.type) (
              field "week" (sent_number e.week) (
                field "time" (sent_number e.time) (
                  field "sunOffset" (sent_number e.sun_offset) (
                    field "duration" (sent_number e.duration) (
                      field "extend"
                        (object (
                          field "toggle" (object (field "onoff" (bit_value e.toggle_onoff) end))
                            end))
                        (field "createTime" (number (finite (pos 0))) end))))))))))

  -- The changes that are sent for one that is there.
  unfoldable pub patch_fields : TimerEditor → Fields
  patch_fields e = field "alias" (text e.alias) (
      field "channel" (sent_number e.channel) (
        field "enable" (bit_value e.enable) (
          field "type" (sent_number e.type) (
            field "week" (sent_number e.week) (
              field "time" (sent_number e.time) (
                field "sunOffset" (sent_number e.sun_offset) (
                  field "duration" (sent_number e.duration)
                    (field "toggleOnoff" (bit_value e.toggle_onoff) end))))))))

  -- Whether the extension of a rule switches on; `none` where it does not say.
  unfoldable pub toggle_onoff_from_extend : Value → Option Bool
  toggle_onoff_from_extend extend =
      let toggle = get "toggle" extend in
      if is_record toggle && not (is_undefined (get "onoff" toggle))
      then some (is_one (to_number parse_number (get "onoff" toggle)))
      else none

  module _ (print_value : Value → String) where
    -- `String(n ?? other)`
    abbrev pub shown_number : Option ℤ → (other : ℤ) → String
    shown_number n other = print_value (number (finite (get_or n other)))

    -- "Edit"
    unfoldable pub edit_timer : TimerXRead → TimerEditor
    edit_timer t = record {
      mode = edit;
      id = t.id;
      alias = get_or t.alias "";
      channel = shown_number t.channel (pos 0);
      enable = get_or t.enable false;
      type = shown_number t.type (pos 0);
      week = shown_number t.week (pos 0);
      time = shown_number t.time (negsuc (unit - 1));
      sun_offset = shown_number t.sun_offset (pos 0);
      duration = shown_number t.duration (pos 0);
      toggle_onoff = get_or (toggle_onoff_from_extend (get_or t.extend undefined)) false;
    }

-- The pane: what it waits for, the last error, the digest and the timers that the server answered,
-- the actions under way, and the editor where it is open.
pub record TimersPane : Type 0 where
  pub loading : Bool
  pub error : Option String
  pub digest : Option (List LanScheduleDigestEntry)
  pub timers : Option (List TimerXRead)
  pub pending : Map Bool
  pub editor : Option TimerEditor

-- What a handler asks the server for, or the devices machine.
pub data TimerRequest : Type 0 where
  list_timers : TimerRequest
  set_timer patch_timer : TimerEditor → TimerRequest
  delete_timer : (id : String) → TimerRequest

-- What the server answers to `/api/device/timerx/list`.
abbrev pub Listing : Type 0
Listing = List LanScheduleDigestEntry × List TimerXRead

abbrev pub show : Listing → TimersPane → TimersPane
show (digest, timers) p = record p { digest = some digest; timers = some timers }

-- `refreshTimerX`
unfoldable pub start_refresh : (ready : Bool) → TimersPane → TimersPane × List TimerRequest
start_refresh true p = (record p { error = none; loading = true }, list_timers ∷ [])
start_refresh false p = (p, [])

unfoldable pub end_refresh : Result Listing → TimersPane → TimersPane
end_refresh (ok listing) p = record (show listing p) { loading = false }
end_refresh (err message) p = record p { error = some message; loading = false }

abbrev pub save_key : (id : String) → String
save_key id = append_text id ":save"

abbrev pub delete_key : (id : String) → String
delete_key id = append_text id ":delete"

abbrev save_request : TimerEditor → TimerRequest
save_request e = elim e.mode [ create ↦ set_timer e | edit ↦ patch_timer e ]

-- "Save": the requests come one after the other, the second where the first succeeds.
unfoldable pub start_save : TimersPane → TimersPane × List TimerRequest
start_save p = elim p.editor [
  | none ↦ (p, [])
  | some e ↦ if str_eq (trim e.id) "" then (record p { error = some "Missing timer id" }, []) else (
    record p { error = none; pending = insert (save_key (trim e.id)) true p.pending },
    save_request e ∷ list_timers ∷ [],
  )
]

-- The Boolean says whether the devices machine is asked for the state.
unfoldable pub end_save : (id : String) → Result Listing → TimersPane → TimersPane × Bool
end_save id (ok listing) p = (
  record (show listing p) { editor = none; pending = insert (save_key id) false p.pending },
  true,
)
end_save id (err message) p =
    (record p { error = some message; pending = insert (save_key id) false p.pending }, false)

-- "Delete"
unfoldable pub start_delete : (id : String) → TimersPane → TimersPane × List TimerRequest
start_delete id p = (
  record p { error = none; pending = insert (delete_key id) true p.pending },
  delete_timer id ∷ list_timers ∷ [],
)

unfoldable pub end_delete : (id : String) → Result Listing → TimersPane → TimersPane × Bool
end_delete id (ok listing) p =
    (record (show listing p) { pending = insert (delete_key id) false p.pending }, true)
end_delete id (err message) p =
    (record p { error = some message; pending = insert (delete_key id) false p.pending }, false)

-- A button is off while its action is under way.
unfoldable pub is_pending : (key : String) → TimersPane → Bool
is_pending key p = get_or (lookup key p.pending) false
