-- ===== src/Web/Devices/Toggle.antt =====
-- The optimistic toggle of apps/web/src/state/devicesMachine.ts and its rollback.
use merossity.Prelude.{String}
use merossity.Prelude.{◌≡◌, refl, ap, ◌∙◌, inl, inr, Bool, true, not}
use merossity.Prelude.{none, some, List, [], ◌∷◌, map, arith, eq_iff}
use merossity.Prelude.{◌==◌, if◌then◌else◌}
use merossity.Prelude.{Bool-cases, Option-cases, map_option}
use merossity.Prelude.{find, any, keep}
use merossity.Prelude.Integers.{ℤ}
use merossity.Prelude.Maps.{lookup, insert, lookup-insert, lookup-delete}
use merossity.Poller.Types.{LanToggleXChannel}
use merossity.Web.Devices.Types.{DevicesContext}
use merossity.Web.Devices.Actions.{
  toggled_channels, optimistic_state, prepare_optimistic_toggle, rollback_optimistic_toggle,
}

-- Rolling back a toggle restores the state of every device, and forgets the toggle.
pub rollback-prepare :
    (uuid : String) (onoff : Bool) (now : ℤ) (c : DevicesContext) (u : String)
    → let c' = rollback_optimistic_toggle (prepare_optimistic_toggle uuid onoff now c) in
      (lookup u c'.device_states ≡ lookup u c.device_states) × (c'.toggle_rollback ≡ none)
unfolding rollback_optimistic_toggle prepare_optimistic_toggle
rollback-prepare uuid onoff now c u =
    let shown = optimistic_state (lookup uuid c.device_states) (lookup uuid c.hosts) onoff now in
    elim (Option-cases (lookup uuid c.device_states)) [
      | inl e ↦ ground (
        arith,
        eq_iff uuid u,
        lookup-delete uuid u (insert uuid shown c.device_states),
        lookup-insert uuid u shown c.device_states,
      )
      | inr (p, e) ↦ ground (
        arith,
        eq_iff uuid u,
        lookup-insert uuid u p (insert uuid shown c.device_states),
        lookup-insert uuid u shown c.device_states,
      )
    ]

abbrev pub is_first : LanToggleXChannel → Bool
is_first c = c.channel == 0

toggled_map :
    (base : List LanToggleXChannel) (onoff : Bool)
    → let toggled = map (λ c. if is_first c then record c { onoff = onoff } else c) base in
      (map_option (λ c. c.onoff) (find is_first toggled)
        ≡ map_option (λ c. onoff) (find is_first base))
      × (keep (λ c. not (is_first c)) toggled ≡ keep (λ c. not (is_first c)) base)
toggled_map [] onoff = (refl, refl)
toggled_map (c ∷ base) onoff = ground (arith, toggled_map base onoff)

find_of_any :
    (base : List LanToggleXChannel)
    → any is_first base ≡ true
    → (c : LanToggleXChannel) × (find is_first base ≡ some c)
find_of_any [] h = cc
find_of_any (c ∷ base) h = elim (Bool-cases (is_first c)) [
  | inl e ↦ rw e (c, refl)
  | inr e ↦ rw e (find_of_any base (rw e at h))
]

-- A toggle shows channel 0 at the wanted position, and leaves the other channels alone.
pub toggled_channels_lem :
    (base : List LanToggleXChannel) (onoff : Bool)
    → (map_option (λ c. c.onoff) (find is_first (toggled_channels base onoff)) ≡ some onoff)
      × (keep (λ c. not (is_first c)) (toggled_channels base onoff)
          ≡ keep (λ c. not (is_first c)) base)
unfolding toggled_channels
toggled_channels_lem base onoff = elim (Bool-cases (any is_first base)) [
  | inl e ↦
      let (c, found) = find_of_any base e in
      let (shown, others) = toggled_map base onoff in
      rw e (shown ∙ ap (map_option (λ x. onoff)) found, others)
  | inr e ↦ rw e (refl, refl)
]
