-- ===== src/Poller/Change/Material.antt =====
-- What `hasMaterialStateChange` compares.
use merossity.Prelude.{length, refl, ◌==◌}
use merossity.Prelude.{ℕ, String}
use merossity.Prelude.{◌≡◌, ◌↔◌, Bool, true, false}
use merossity.Prelude.{Option, none, some, List, [], ◌∷◌, arith, eq_iff}
use merossity.Prelude.Integers.{ℤ, int_eq_iff}
use merossity.Poller.Types.{
  LanToggleXChannel, LanLightState, LanScheduleDigestEntry, Kind, DeviceStateDto,
}
use merossity.Poller.Change.{
  opt_eq, same_channels, same_schedule_digest, light_changed, lights_loop, primary_light_changed,
  has_material_state_change,
}

-- The part of a state that a subscriber is told of when it changes: all but the uuid, the time,
-- the source and the error.
pub record Material : Type 0 where
  pub host : String
  pub kind : Kind
  pub channel : ℕ
  pub onoff : Bool
  pub stale : Bool
  pub channels : List LanToggleXChannel
  pub timerx_digest : List LanScheduleDigestEntry
  pub triggerx_digest : List LanScheduleDigestEntry
  pub lights : List LanLightState
  pub light : Option LanLightState

abbrev pub material : DeviceStateDto → Material
material s = record {
  host = s.host;
  kind = s.kind;
  channel = s.channel;
  onoff = s.onoff;
  stale = s.stale;
  channels = s.channels;
  timerx_digest = s.timerx_digest;
  triggerx_digest = s.triggerx_digest;
  lights = s.lights;
  light = s.light;
}

opt_eq_iff : (a b : Option ℤ) → (opt_eq a b ≡ true) ↔ (a ≡ b)
opt_eq_iff none none = ground arith
opt_eq_iff none (some b) = ground arith
opt_eq_iff (some a) none = ground arith
opt_eq_iff (some a) (some b) = ground (arith, int_eq_iff a b)

same_channels_iff : (a b : List LanToggleXChannel) → (same_channels a b ≡ true) ↔ (a ≡ b)
unfolding same_channels
same_channels_iff [] [] = ground arith
same_channels_iff [] (r ∷ rs) = ground arith
same_channels_iff (l ∷ ls) [] = ground arith
same_channels_iff (l ∷ ls) (r ∷ rs) = ground (arith, same_channels_iff ls rs)

same_schedule_digest_iff :
    (a b : List LanScheduleDigestEntry) → (same_schedule_digest a b ≡ true) ↔ (a ≡ b)
unfolding same_schedule_digest
same_schedule_digest_iff [] [] = ground arith
same_schedule_digest_iff [] (r ∷ rs) = ground arith
same_schedule_digest_iff (l ∷ ls) [] = ground arith
same_schedule_digest_iff (l ∷ ls) (r ∷ rs) =
    ground (arith, eq_iff l.id r.id, same_schedule_digest_iff ls rs)

light_changed_iff : (a b : LanLightState) → (light_changed a b ≡ false) ↔ (a ≡ b)
unfolding light_changed
light_changed_iff a b = ground (
  arith,
  opt_eq_iff a.luminance b.luminance,
  opt_eq_iff a.temperature b.temperature,
  opt_eq_iff a.rgb b.rgb,
)

lights_loop_iff :
    (a b : List LanLightState)
    → (((length a == length b) ≡ true) × (lights_loop a b ≡ false)) ↔ (a ≡ b)
unfolding lights_loop
lights_loop_iff [] [] = ground arith
lights_loop_iff [] (b ∷ bs) = ground arith
lights_loop_iff (a ∷ as') [] = ground arith
lights_loop_iff (a ∷ as') (b ∷ bs) = ground (arith, light_changed_iff a b, lights_loop_iff as' bs)

primary_light_changed_iff :
    (a b : Option LanLightState) → (primary_light_changed a b ≡ false) ↔ (a ≡ b)
primary_light_changed_iff none none = ground arith
primary_light_changed_iff none (some b) = ground arith
primary_light_changed_iff (some a) none = ground arith
primary_light_changed_iff (some a) (some b) = ground (arith, light_changed_iff a b)

-- A state is reported as changed exactly when there is no earlier one, or its material part
-- differs from the earlier one's.
pub has_material_state_change_iff :
    (prev next : DeviceStateDto)
    → (has_material_state_change none next ≡ true)
      × ((has_material_state_change (some prev) next ≡ false) ↔ (material prev ≡ material next))
unfolding has_material_state_change
has_material_state_change_iff prev next = (
  refl,
  ground (
    arith,
    eq_iff prev.host next.host,
    same_channels_iff prev.channels next.channels,
    same_schedule_digest_iff prev.timerx_digest next.timerx_digest,
    same_schedule_digest_iff prev.triggerx_digest next.triggerx_digest,
    lights_loop_iff prev.lights next.lights,
    primary_light_changed_iff prev.light next.light,
  ),
)
