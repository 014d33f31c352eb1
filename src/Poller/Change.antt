-- ===== src/Poller/Change.antt =====
-- Whether a polled state differs from the stored one, in packages/core/src/api/state-poller.ts.
pub mod Material
use merossity.Prelude.{Bool, true, false, not}
use merossity.Prelude.{◌||◌, Option, none, some, List, ◌∷◌}
use merossity.Prelude.{◌==◌, str_eq, if◌then◌else◌}
use merossity.Prelude.{length}
use merossity.Prelude.Integers.{ℤ, int_eq}
use merossity.Poller.Types.{
  LanToggleXChannel, LanLightState, LanScheduleDigestEntry, Kind, togglex, light, mixed,
  DeviceStateDto,
}

abbrev pub bool_eq : Bool → Bool → Bool
bool_eq true b = b
bool_eq false b = not b

abbrev kind_eq : Kind → Kind → Bool
kind_eq togglex togglex = true
kind_eq light light = true
kind_eq mixed mixed = true
kind_eq _ _ = false

-- `(a ?? null) === (b ?? null)`
abbrev pub opt_eq : Option ℤ → Option ℤ → Bool
opt_eq none none = true
opt_eq (some a) (some b) = int_eq a b
opt_eq _ _ = false

abbrev differs : Bool → Bool
differs = not

-- The loop of `sameChannels`, run on lists of one length.
channels_loop : List LanToggleXChannel → List LanToggleXChannel → Bool
channels_loop (l ∷ ls) (r ∷ rs) =
    let rest = channels_loop ls rs in
    if differs (l.channel == r.channel) || differs (bool_eq l.onoff r.onoff) then false else rest
channels_loop _ _ = true

unfoldable pub same_channels : List LanToggleXChannel → List LanToggleXChannel → Bool
unfolding channels_loop
same_channels a b = if differs (length a == length b) then false else channels_loop a b

digest_loop : List LanScheduleDigestEntry → List LanScheduleDigestEntry → Bool
digest_loop (l ∷ ls) (r ∷ rs) =
    let rest = digest_loop ls rs in
    if differs (l.channel == r.channel)
    then false
    else if differs (str_eq l.id r.id)
    then false
    else if differs (l.count == r.count)
    then false
    else rest
digest_loop _ _ = true

unfoldable pub same_schedule_digest :
    List LanScheduleDigestEntry → List LanScheduleDigestEntry → Bool
unfolding digest_loop
same_schedule_digest a b = if differs (length a == length b) then false else digest_loop a b

-- The five tests on a pair of lights; true where one of them returns.
unfoldable pub light_changed : LanLightState → LanLightState → Bool
light_changed a b =
    differs (a.channel == b.channel)
    || differs (bool_eq a.onoff b.onoff)
    || differs (opt_eq a.luminance b.luminance)
    || differs (opt_eq a.temperature b.temperature)
    || differs (opt_eq a.rgb b.rgb)

unfoldable pub lights_loop : List LanLightState → List LanLightState → Bool
unfolding light_changed
lights_loop (a ∷ as') (b ∷ bs) =
    let rest = lights_loop as' bs in if light_changed a b then true else rest
lights_loop _ _ = false

-- The tests on `prev.light` and `next.light`.
abbrev pub primary_light_changed : Option LanLightState → Option LanLightState → Bool
primary_light_changed (some a) (some b) = light_changed a b
primary_light_changed none none = false
primary_light_changed _ _ = true

unfoldable pub has_material_state_change : Option DeviceStateDto → DeviceStateDto → Bool
has_material_state_change none next = true
has_material_state_change (some prev) next =
    differs (str_eq prev.host next.host)
    || differs (kind_eq prev.kind next.kind)
    || differs (prev.channel == next.channel)
    || differs (bool_eq prev.onoff next.onoff)
    || differs (bool_eq prev.stale next.stale)
    || not (same_channels prev.channels next.channels)
    || not (same_schedule_digest prev.timerx_digest next.timerx_digest)
    || not (same_schedule_digest prev.triggerx_digest next.triggerx_digest)
    || differs (length prev.lights == length next.lights)
    || lights_loop prev.lights next.lights
    || primary_light_changed prev.light next.light
