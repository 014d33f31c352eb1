-- ===== src/Web/Devices/Parsers/RoundTrip.antt =====
-- What the poller sends on the stream and what the application reads of it.
use merossity.Prelude.{ℕ, ◌+◌, ◌*◌, ◌/◌, ◌%◌, ◌<◌, String}
use merossity.Prelude.{◌≡◌, refl, ap, ◌∙◌, ◌≢◌, Bool, true, false}
use merossity.Prelude.{Option, none, some, List, [], ◌∷◌, arith, eq_iff}
use merossity.Prelude.{ltb, str_eq, if◌then◌else◌}
use merossity.Prelude.{All}
use native.Mathlib.Nat.{mul-mod_left}
use merossity.Prelude.Integers.{ℤ, pos}
use merossity.Prelude.Sorting.{sort_sorted, IsSorted}
use merossity.Prelude.Texts.{trim}
use merossity.Json.{
  Number, finite, Value, null, number, boolean, text, array, object, Items, nil, cons, Fields,
  field, end, get, is_truthy, natural_of, unit,
}
use merossity.Poller.Types.{
  LanToggleXChannel, LanLightState, LanScheduleDigestEntry, DeviceStateDto, Kind, togglex, light,
  mixed, PollReason, poller, manual,
}
use merossity.Poller.Digest.{to_number, is_one, read_items}
use merossity.Poller.Digest.Colours.{natural}
use merossity.Web.Devices.Types.{StreamDeviceState}
use merossity.Web.Devices.Parsers.{
  parse_channel, parse_channels, parse_light, parse_lights, parse_digest_entry,
  parse_schedule_digest, parse_stream_state, channel_order, light_order, digest_order, text_of,
}

-- The values that `JSON.stringify` and `JSON.parse` make of a state.
abbrev pub wire_bit : Bool → Value
wire_bit b = natural (if b then 1 else 0)

abbrev pub wire_number : String → Option ℤ → Fields → Fields
wire_number key none rest = rest
wire_number key (some z) rest = field key (number (finite z)) rest

abbrev pub wire_channel : LanToggleXChannel → Value
wire_channel c = object (field "channel" (natural c.channel) (field "onoff" (wire_bit c.onoff) end))

abbrev pub wire_light : LanLightState → Value
wire_light l = object (
    field "channel" (natural l.channel) (
      field "onoff" (wire_bit l.onoff) (
        wire_number "luminance" l.luminance
          (wire_number "temperature" l.temperature (wire_number "rgb" l.rgb end)))))

abbrev pub wire_digest_entry : LanScheduleDigestEntry → Value
wire_digest_entry e = object (
    field "channel" (natural e.channel)
      (field "id" (text e.id) (field "count" (natural e.count) end)))

abbrev pub wire_items : {A : Type 0} → (A → Value) → List A → Items
wire_items wire [] = nil
wire_items wire (x ∷ xs) = cons (wire x) (wire_items wire xs)

read_items-wire_items :
    {A : Type 0} (read : Value → Option A) (wire : A → Value) (xs : List A)
    → All (λ x. read (wire x) ≡ some x) xs
    → read_items read (wire_items wire xs) ≡ xs
unfolding read_items
read_items-wire_items read wire [] h = refl
read_items-wire_items read wire (x ∷ xs) (first, rest) =
    rw (first, read_items-wire_items read wire xs rest) refl

natural_of-natural : (n : ℕ) → natural_of (finite (pos (n * unit))) ≡ some n
unfolding natural_of
natural_of-natural n =
    let whole : n * unit % unit ≡ 0 = mul-mod_left n unit in
    let quotient : n * unit / unit ≡ n = omega arith in rw (whole, quotient) refl

every : {A : Type 0} {P : A → Type 0} → ((x : A) → P x) → (xs : List A) → All P xs
every p [] = tt
every p (x ∷ xs) = (p x, every p xs)

bit_read : (b : Bool) → is_one (finite (pos ((if b then 1 else 0) * unit))) ≡ b
bit_read true = refl
bit_read false = refl

module _ (parse_number : Value → Number) where
  channel_read : (c : LanToggleXChannel) → parse_channel parse_number (wire_channel c) ≡ some c
  unfolding parse_channel get to_number
  channel_read c = rw (natural_of-natural c.channel, bit_read c.onoff) refl

  light_read :
      (n : ℕ) (b : Bool) (luminance temperature rgb : Option ℤ)
      → let l : LanLightState = record {
        channel = n;
        onoff = b;
        luminance = luminance;
        temperature = temperature;
        rgb = rgb;
      } in
        parse_light parse_number (wire_light l) ≡ some l
  unfolding parse_light get to_number
  light_read n b none none none = rw (natural_of-natural n, bit_read b) refl
  light_read n b none none (some r) = rw (natural_of-natural n, bit_read b) refl
  light_read n b none (some t) none = rw (natural_of-natural n, bit_read b) refl
  light_read n b none (some t) (some r) = rw (natural_of-natural n, bit_read b) refl
  light_read n b (some l) none none = rw (natural_of-natural n, bit_read b) refl
  light_read n b (some l) none (some r) = rw (natural_of-natural n, bit_read b) refl
  light_read n b (some l) (some t) none = rw (natural_of-natural n, bit_read b) refl
  light_read n b (some l) (some t) (some r) = rw (natural_of-natural n, bit_read b) refl

  channels_read :
      (cs : List LanToggleXChannel)
      → IsSorted channel_order cs
      → parse_channels parse_number (array (wire_items wire_channel cs)) ≡ cs
  unfolding parse_channels
  channels_read cs h =
      rw
        (read_items-wire_items (parse_channel parse_number) wire_channel cs (every channel_read cs))
        (sort_sorted channel_order cs h)

  lights_read :
      (ls : List LanLightState)
      → IsSorted light_order ls
      → parse_lights parse_number (array (wire_items wire_light ls)) ≡ ls
  unfolding parse_lights
  lights_read ls h =
      rw
        (read_items-wire_items (parse_light parse_number) wire_light ls
          (every (λ l. light_read l.channel l.onoff l.luminance l.temperature l.rgb) ls))
        (sort_sorted light_order ls h)

  -- An id that the parser keeps.
  abbrev pub IsId : String → Type 0
  IsId id = (trim id ≡ id) × (id ≢ "")

  module _ (print_value : Value → String) (locale_le : String → String → Bool) where
    digest_entry_read :
        (e : LanScheduleDigestEntry)
        → IsId e.id
        → parse_digest_entry parse_number print_value locale_le (wire_digest_entry e) ≡ some e
    unfolding parse_digest_entry get to_number
    digest_entry_read e (same, full) =
        let named : str_eq e.id "" ≡ false = ground (arith, full, eq_iff e.id "") in
        let count : (e.count * unit + unit / 2) / unit ≡ e.count = omega arith in
        rw (same, named, natural_of-natural e.channel, count) refl

    entries :
        (es : List LanScheduleDigestEntry)
        → All (λ e. IsId e.id) es
        → All
            (λ e.
              parse_digest_entry parse_number print_value locale_le (wire_digest_entry e) ≡ some e)
            es
    entries [] h = tt
    entries (e ∷ es) (h, hs) = (digest_entry_read e h, entries es hs)

    digest_read :
        (es : List LanScheduleDigestEntry)
        → IsSorted (digest_order parse_number print_value locale_le) es
        → All (λ e. IsId e.id) es
        → parse_schedule_digest parse_number print_value locale_le
            (array (wire_items wire_digest_entry es))
          ≡ es
    unfolding parse_schedule_digest
    digest_read es h ids =
        rw
          (read_items-wire_items (parse_digest_entry parse_number print_value locale_le)
            wire_digest_entry es (entries es ids))
          (sort_sorted (digest_order parse_number print_value locale_le) es h)

    abbrev pub kind_text : Kind → String
    kind_text togglex = "togglex"
    kind_text light = "light"
    kind_text mixed = "mixed"

    abbrev pub source_text : PollReason → String
    source_text poller = "poller"
    source_text manual = "manual"

    abbrev pub wire_text : String → Option String → Fields → Fields
    wire_text key none rest = rest
    wire_text key (some t) rest = field key (text t) rest

    abbrev pub wire_light_or_null : Option LanLightState → Value
    wire_light_or_null none = null
    wire_light_or_null (some l) = wire_light l

    unfoldable pub wire_state : DeviceStateDto → Value
    wire_state s = object (
        field "uuid" (text s.uuid) (
          field "host" (text s.host) (
            field "kind" (text (kind_text s.kind)) (
              field "channel" (natural s.channel) (
                field "onoff" (wire_bit s.onoff) (
                  field "channels" (array (wire_items wire_channel s.channels)) (
                    field "lights" (array (wire_items wire_light s.lights)) (
                      field "light" (wire_light_or_null s.light) (
                        field "timerxDigest" (array (wire_items wire_digest_entry s.timerx_digest))
                          (field "triggerxDigest"
                            (array (wire_items wire_digest_entry s.triggerx_digest))
                            (field "updatedAt" (natural s.updated_at) (
                              field "source" (text (source_text s.source)) (
                                field "stale" (boolean s.stale)
                                  (wire_text "error" s.error end))))))))))))))

    -- The state that the application should see.
    abbrev pub seen_state : DeviceStateDto → StreamDeviceState
    seen_state s = record {
      uuid = s.uuid;
      host = s.host;
      kind = some (kind_text s.kind);
      channel = s.channel;
      onoff = s.onoff;
      channels = some s.channels;
      lights = some s.lights;
      light = s.light;
      timerx_digest = some s.timerx_digest;
      triggerx_digest = some s.triggerx_digest;
      updated_at = pos (s.updated_at * unit);
      stale = s.stale;
      source = some (source_text s.source);
      error = s.error;
    }

    -- A state that the poller may keep.
    pub record IsSendable (s : DeviceStateDto) : Type 0 where
      pub id : IsId s.uuid
      pub timed : 0 < s.updated_at
      pub channels : IsSorted channel_order s.channels
      pub lights : IsSorted light_order s.lights
      pub timers : IsSorted (digest_order parse_number print_value locale_le) s.timerx_digest
      pub triggers : IsSorted (digest_order parse_number print_value locale_le) s.triggerx_digest
      pub timer_ids : All (λ e. IsId e.id) s.timerx_digest
      pub trigger_ids : All (λ e. IsId e.id) s.triggerx_digest

    maybe_light_read :
        (o : Option LanLightState) → parse_light parse_number (wire_light_or_null o) ≡ o
    unfolding parse_light natural_of to_number get
    maybe_light_read none = refl
    maybe_light_read (some l) = light_read l.channel l.onoff l.luminance l.temperature l.rgb

    error_read : (o : Option String) → text_of (get "error" (object (wire_text "error" o end))) ≡ o
    unfolding get
    error_read none = refl
    error_read (some t) = refl

    -- A state that the poller sends is read as it is, where its uuid and the ids of its schedules are
    -- trimmed and not blank, its lists are in order and it was read after 1970.
    pub parse_stream_state-wire_state :
        (s : DeviceStateDto)
        → IsSendable s
        → parse_stream_state parse_number print_value locale_le (wire_state s) ≡ some (seen_state s)
    unfolding parse_stream_state wire_state get to_number is_truthy
    parse_stream_state-wire_state s h =
        let named : str_eq s.uuid "" ≡ false = ground (arith, h.id.1, eq_iff s.uuid "") in
        let later : ltb 0 (s.updated_at * unit) ≡ true = ground (arith, h.timed) in
        let uuid = h.id.0 in
        let channel = natural_of-natural s.channel in
        let onoff = bit_read s.onoff in
        let channels = channels_read s.channels h.channels in
        let lights = lights_read s.lights h.lights in
        let light = maybe_light_read s.light in
        let timers = digest_read s.timerx_digest h.timers h.timer_ids in
        let triggers = digest_read s.triggerx_digest h.triggers h.trigger_ids in
        let shown : String → Option String → Option StreamDeviceState = λ uuid error. some (record {
          uuid = uuid;
          host = s.host;
          kind = some (kind_text s.kind);
          channel = s.channel;
          onoff = s.onoff;
          channels = some s.channels;
          lights = some s.lights;
          light = s.light;
          timerx_digest = some s.timerx_digest;
          triggerx_digest = some s.triggerx_digest;
          updated_at = pos (s.updated_at * unit);
          stale = s.stale;
          source = some (source_text s.source);
          error = error;
        }) in
        rw (uuid, named, channel, later, onoff, channels, lights, light, timers, triggers)
          (ap (λ u. shown u (text_of (get "error" (object (wire_text "error" s.error end))))) uuid
            ∙ ap (λ e. shown s.uuid e) (error_read s.error))
