-- ===== src/Api/States/Shown.antt =====
-- What is answered of a state, and the state that a poll keeps.
use merossity.Prelude.{ℕ, String}
use merossity.Prelude.{◌≡◌, refl, ap, inl, inr, Bool, true, false}
use merossity.Prelude.{◌||◌, none, some, List, [], ◌∷◌, arith, eq_iff}
use merossity.Prelude.{ltb, ◌==◌, str_eq}
use merossity.Prelude.{Bool-cases, Option-cases, get_or, map_option, length}
use merossity.Prelude.{find}
use merossity.Prelude.Maps.{lookup}
use merossity.Poller.Types.{LanToggleXChannel, LanLightState, DeviceStateDto, manual}
use merossity.Poller.Service.{Service}
use merossity.Poller.Change.{has_material_state_change}
use merossity.Poller.Change.Material.{Material, material, has_material_state_change_iff}
use merossity.Poller.Reading.{Primary, primary_of}
use merossity.Poller.Poll.{publish_state}
use merossity.Api.Client.{Reply, done, refused}
use merossity.Api.States.{state_reply}

pub no_items : {A : Type 0} {xs : List A} → ltb 0 (length xs) ≡ false → xs ≡ []
no_items {xs = []} h = refl
no_items {xs = x ∷ xs} h = ground (arith, h)

abbrev pub is_refused : {A : Type 0} → Reply A → Bool
is_refused (done a) = false
is_refused (refused code message) = true

-- A reading of a state that has a channel or a light finds its first one.
pub primary_of-some :
    (channels : List LanToggleXChannel) (lights : List LanLightState)
    → (ltb 0 (length channels) || ltb 0 (length lights)) ≡ true
    → (p : Primary) × (primary_of channels lights ≡ some p)
unfolding primary_of
primary_of-some [] [] h = cc
primary_of-some (c ∷ cs) [] h = elim (Option-cases (find (λ c. c.channel == 0) (c ∷ cs))) [
  | inl e ↦ rw (primary_of, e) (_, refl)
  | inr (c', e) ↦ rw (primary_of, e) (_, refl)
]
primary_of-some channels (l ∷ ls) h = elim (Option-cases (find (λ l. l.channel == 0) (l ∷ ls))) [
  | inl e ↦ rw (primary_of, e) (_, refl)
  | inr (l', e) ↦ rw (primary_of, e) (_, refl)
]

-- A state with a material part.
abbrev with_material : Material → DeviceStateDto
with_material m = record {
  uuid = "";
  host = m.host;
  kind = m.kind;
  channel = m.channel;
  onoff = m.onoff;
  channels = m.channels;
  lights = m.lights;
  light = m.light;
  timerx_digest = m.timerx_digest;
  triggerx_digest = m.triggerx_digest;
  updated_at = 0;
  source = manual;
  stale = m.stale;
  error = none;
}

-- What is answered of a state depends on its material part only.
pub state_reply-material :
    (channel : ℕ) (a b : DeviceStateDto)
    → material a ≡ material b
    → state_reply channel a ≡ state_reply channel b
unfolding state_reply
state_reply-material channel a b h = ap (λ m. state_reply channel (with_material m)) h

-- The state that a poll that succeeds answers has what was read.
module _ (uuid : String) (s : Service) where
  -- A state that is kept for the device bears its uuid.
  abbrev pub IsOwn : Type 0
  IsOwn = get_or (map_option (λ p. str_eq p.uuid uuid) (lookup uuid s.state_by_uuid)) true ≡ true

  pub kept_state :
      (next : DeviceStateDto)
      → next.uuid ≡ uuid
      → IsOwn
      → let kept = (publish_state uuid manual next s).1 in
        (kept.uuid ≡ uuid) × (material kept ≡ material next)
  unfolding publish_state
  kept_state next e own = elim (Option-cases (lookup uuid s.state_by_uuid)) [
    | inl f ↦ rw (publish_state, f, (has_material_state_change_iff next next).0) (e, refl)
    | inr (prev, f) ↦ elim (Bool-cases (has_material_state_change (some prev) next)) [
      | inl g ↦ rw (publish_state, f, g) (e, refl)
      | inr g ↦
          let same = (has_material_state_change_iff prev next).1.0 g in
          rw (publish_state, f, g) (ground (arith, eq_iff prev.uuid uuid, rw f at own), same)
    ]
  ]
