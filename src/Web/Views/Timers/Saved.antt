-- ===== src/Web/Views/Timers/Saved.antt =====
-- A timer that is made in the editor of DeviceCard.tsx: what the server sends to the device, and
-- what the editor shows when the timer is read again.
use merossity.Prelude.{String}
use merossity.Prelude.{◌≡◌, refl, ap, ◌∙◌, ◌≢◌, inl, inr, Bool, false}
use merossity.Prelude.{List, [], ◌∷◌, ◌++◌, arith, eq_iff}
use merossity.Prelude.{str_eq}
use merossity.Prelude.{Bool-cases, map_option}
use merossity.Prelude.Integers.{ℤ, pos}
use merossity.Prelude.Texts.{trim}
use merossity.Prelude.Results.{ok}
use merossity.Json.{Number, finite, Value, number, text, object, Fields, field, end, get, round}
use merossity.Poller.Digest.{to_number, is_one, coerce_finite_number}
use merossity.Poller.Reading.{require_lan_key}
use merossity.Api.Client.{
  Action, request, set_timer_x, LanConfig, Network, done, polled, require_lan_host, follow,
  refuse_if,
}
use merossity.Api.Client.Outcomes.{send_ok, lan_access_ok}
use merossity.Api.Schedules.{timer_of}
use merossity.Api.Switching.{set_device_timer_x}
use merossity.Web.Views.Timers.{
  TimerEditor, edit, timer_fields, json_number, toggle_onoff_from_extend, shown_number, edit_timer,
  bit_value, sent_number,
}

module _ (parse_number : Value → Number) (print_value : Value → String)
    (locale_le : String → String → Bool) where
  -- A text that stands for an integer, written as JavaScript writes it.
  abbrev pub IsInteger : String → Type 0
  IsInteger t =
      (z : ℤ) × (parse_number (text t) ≡ finite z)
      × (round z ≡ z)
      × (print_value (number (finite z)) ≡ t)

  -- An editor whose number fields are integers, and whose id has no space around it.
  abbrev pub IsFilled : TimerEditor → Type 0
  IsFilled e =
      (trim e.id ≡ e.id)
      × IsInteger e.channel
      × IsInteger e.type
      × IsInteger e.week
      × IsInteger e.time
      × IsInteger e.sun_offset
      × IsInteger e.duration

  shown-sent :
      (t : String) (other : ℤ)
      → IsInteger t
      → shown_number parse_number print_value
          (map_option round (coerce_finite_number parse_number (sent_number parse_number t)))
          other
        ≡ t
  unfolding coerce_finite_number json_number to_number
  shown-sent t other (z, n, r, shown) = rw (n, r) shown

  bit_value-read : (b : Bool) → is_one (to_number parse_number (bit_value b)) ≡ b
  unfolding to_number
  bit_value-read b = elim (Bool-cases b) [ inl e ↦ rw e refl | inr e ↦ rw e refl ]

  same_editor :
      (e f : TimerEditor)
      → e.mode ≡ f.mode
      → e.id ≡ f.id
      → e.alias ≡ f.alias
      → e.channel ≡ f.channel
      → e.enable ≡ f.enable
      → e.type ≡ f.type
      → e.week ≡ f.week
      → e.time ≡ f.time
      → e.sun_offset ≡ f.sun_offset
      → e.duration ≡ f.duration
      → e.toggle_onoff ≡ f.toggle_onoff
      → e ≡ f
  same_editor e f a b c d g h i j k l m = cc

  abbrev pub read_again : TimerEditor → TimerEditor
  read_again e =
      edit_timer parse_number print_value
        (timer_of parse_number print_value locale_le (timer_fields parse_number e))

  edit-saved : (e : TimerEditor) → IsFilled e → read_again e ≡ record e { mode = edit }
  unfolding edit_timer timer_of timer_fields get toggle_onoff_from_extend
  edit-saved e (i, c, t, w, m, s, d) =
      same_editor (read_again e) (record e { mode = edit }) refl (ap trim i ∙ i) refl
        (shown-sent e.channel (pos 0) c) (bit_value-read e.enable) (shown-sent e.type (pos 0) t)
        (shown-sent e.week (pos 0) w) (shown-sent e.time _ m) (shown-sent e.sun_offset (pos 0) s)
        (shown-sent e.duration (pos 0) d) (bit_value-read e.toggle_onoff)

  -- The body of the request for a new timer.
  abbrev pub set_body : (uuid : String) → TimerEditor → Value
  set_body uuid e =
      object (field "uuid" (text uuid) (field "timer" (object (timer_fields parse_number e)) end))

  module _ (cfg : LanConfig) (net : Network) where
    -- A new timer of the editor, with integers in its number fields and an id that is not blank, is
    -- sent to the device as one rule, given that the host, the key and the device's answer are
    -- there. That rule, read by get-device-timerx.ts and opened in the editor, fills it as it was.
    pub edit-set_device_timer_x :
        (uuid : String) (e : TimerEditor) (log : List Action) {host key : String} {resp : Value}
        → uuid ≢ ""
        → e.id ≢ ""
        → IsFilled e
        → require_lan_host cfg uuid ≡ ok host
        → require_lan_key cfg.cloud_key cfg.env_key ≡ ok key
        → let rule = object (timer_fields parse_number e) in
          net log (request host key (set_timer_x rule)) ≡ ok resp
          → (rule : Fields) × (set_device_timer_x parse_number print_value cfg net
                (set_body uuid e)
                log
              ≡ (
                done (record { host = host; id = e.id; resp = resp }),
                (log ++ request host key (set_timer_x (object rule)) ∷ []) ++ polled cfg uuid,
              ))
            × (edit_timer parse_number print_value
                  (timer_of parse_number print_value locale_le rule)
                ≡ record e { mode = edit })
    unfolding set_device_timer_x refuse_if follow get timer_fields
    edit-set_device_timer_x uuid e log {host} {key} {resp} u n filled h k a =
        let full : str_eq uuid "" ≡ false = ground (arith, eq_iff uuid "") in
        let named : str_eq e.id "" ≡ false = ground (arith, eq_iff e.id "") in
        let trimmed : trim (trim e.id) ≡ e.id = ap trim (filled.0) ∙ filled.0 in
        let sent =
          send_ok net (request host key (set_timer_x (object (timer_fields parse_number e)))) log
            a in
        (
          timer_fields parse_number e,
          rw (full, refuse_if, follow, trimmed, named, lan_access_ok cfg uuid log h k, sent) refl,
          edit-saved e filled,
        )
