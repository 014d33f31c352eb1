-- ===== src/Inventory/Grouped.antt =====
-- The groups of packages/core/src/meross/inventory.ts have each device of the list once, in order.
use merossity.Prelude.{String}
use merossity.Prelude.{◌≡◌, refl, ◌⊎◌, inl, inr, Bool, true, false}
use merossity.Prelude.{Option, none, some, List, [], ◌∷◌, ◌++◌}
use merossity.Prelude.{str_eq, if◌then◌else◌}
use merossity.Prelude.{Bool-cases, Option-cases, is_some}
use merossity.Prelude.{All}
use mathlib.Core.List.{Perm, perm_middle}
use mathlib.Core.List.Perm
use merossity.Prelude.Sorting.{sort-perm, sort-IsSorted, sort-All, IsSorted}
use merossity.Prelude.Maps.{Map, lookup}
use merossity.Prelude.Results.{ok, err}
use merossity.Json.{Value, Items, nil, cons, get}
use merossity.Api.Client.{LanConfig, to_text, require_lan_host}
use merossity.Cloud.Login.{DeviceHost, MerossConfig, lan_config}
use merossity.Inventory.{
  InventoryDevice, inventory_device, group_loop, device_le, group_devices_for_control,
}

module _ (print_value : Value → String) (hosts : Map DeviceHost) where
  -- The devices of the list that have a uuid, in its order.
  abbrev pub listed : Items → List InventoryDevice
  listed nil = []
  listed (cons d devices) =
      let uuid = to_text print_value (get "uuid" d) in
      if str_eq uuid ""
      then listed devices
      else inventory_device print_value hosts uuid d ∷ listed devices

  group_loop-perm :
      (devices : Items)
      → let groups = group_loop print_value hosts devices in
        Perm (groups.ready ++ groups.inaccessible) (listed devices)
  unfolding group_loop
  group_loop-perm nil = Perm.refl []
  group_loop-perm (cons d devices) =
      let rest = group_loop-perm devices in
      let groups = group_loop print_value hosts devices in
      let uuid = to_text print_value (get "uuid" d) in
      let inv = inventory_device print_value hosts uuid d in
      elim (Bool-cases (str_eq uuid "")) [
        | inl e ↦ rw e rest
        | inr e ↦ elim (Bool-cases (is_some inv.host)) [
          | inl f ↦ rw (e, f) (Perm.cons inv rest)
          | inr f ↦
              rw (e, f)
                (Perm.trans (perm_middle groups.ready groups.inaccessible) (Perm.cons inv rest))
        ]
      ]

-- The handlers for a device find its host, which the group has.
abbrev pub IsReady : LanConfig → InventoryDevice → Type 0
IsReady lan d = (host : String) × (d.host ≡ some host) × (require_lan_host lan d.uuid ≡ ok host)

-- They find none.
abbrev pub IsInaccessible : LanConfig → InventoryDevice → Type 0
IsInaccessible lan d =
    (message : String) × (d.host ≡ none) × (require_lan_host lan d.uuid ≡ err message)

module _ (print_value : Value → String) (polls : Bool) (env_key : Option String)
    (cfg : MerossConfig) where
  abbrev lan : LanConfig
  lan = lan_config polls env_key cfg

  lan_host_known :
      (uuid : String) {entry : DeviceHost}
      → lookup uuid cfg.hosts ≡ some entry
      → str_eq entry.host "" ≡ false
      → require_lan_host lan uuid ≡ ok entry.host
  unfolding require_lan_host
  lan_host_known uuid e f = rw (require_lan_host, e, f) refl

  lan_host_blank :
      (uuid : String) {entry : DeviceHost}
      → lookup uuid cfg.hosts ≡ some entry
      → str_eq entry.host "" ≡ true
      → (message : String) × (require_lan_host lan uuid ≡ err message)
  unfolding require_lan_host
  lan_host_blank uuid e f = rw (require_lan_host, e, f) (_, refl)

  lan_host_missing :
      (uuid : String)
      → lookup uuid cfg.hosts ≡ none
      → (message : String) × (require_lan_host lan uuid ≡ err message)
  unfolding require_lan_host
  lan_host_missing uuid e = rw (require_lan_host, e) (_, refl)

  inventory_device-cases :
      (uuid : String) (d : Value)
      → let inv = inventory_device print_value cfg.hosts uuid d in
        ((is_some inv.host ≡ true) × IsReady lan inv)
        ⊎ ((is_some inv.host ≡ false) × IsInaccessible lan inv)
  unfolding inventory_device
  inventory_device-cases uuid d = elim (Option-cases (lookup uuid cfg.hosts)) [
    | inl e ↦ let (message, m) = lan_host_missing uuid e in rw e (inr (refl, (message, refl, m)))
    | inr (entry, e) ↦ elim (Bool-cases (str_eq entry.host "")) [
      | inl f ↦
          let (message, m) = lan_host_blank uuid e f in rw (e, f) (inr (refl, (message, refl, m)))
      | inr f ↦ rw (e, f) (inl (refl, (entry.host, refl, lan_host_known uuid e f)))
    ]
  ]

  group_loop-split :
      (devices : Items)
      → let groups = group_loop print_value cfg.hosts devices in
        All (IsReady lan) groups.ready × All (IsInaccessible lan) groups.inaccessible
  unfolding group_loop
  group_loop-split nil = (tt, tt)
  group_loop-split (cons d devices) =
      let (ready, inaccessible) = group_loop-split devices in
      let uuid = to_text print_value (get "uuid" d) in
      elim (Bool-cases (str_eq uuid "")) [
        | inl e ↦ rw e (ready, inaccessible)
        | inr e ↦ elim (inventory_device-cases uuid d) [
          | inl (f, h) ↦ rw (e, f) ((h, ready), inaccessible)
          | inr (f, h) ↦ rw (e, f) (ready, (h, inaccessible))
        ]
      ]

  -- For any total and transitive order of texts, each device of the list with a uuid is in one of
  -- the groups, once for each time that it is listed. The handlers for a device find its host
  -- exactly in the first group, with the host that the group has. Both groups are in order.
  pub group_devices_for_control-split :
      (lower_case : String → String) (locale_le : String → String → Bool)
      (total : (x y : String) → (locale_le x y ≡ true) ⊎ (locale_le y x ≡ true))
      (trans : (x y z : String)
        → locale_le x y ≡ true
        → locale_le y z ≡ true
        → locale_le x z ≡ true)
      (devices : Items)
      → let groups = group_devices_for_control lower_case locale_le print_value devices cfg.hosts in
        Perm (groups.ready ++ groups.inaccessible) (listed print_value cfg.hosts devices)
        × All (IsReady lan) groups.ready
        × All (IsInaccessible lan) groups.inaccessible
        × IsSorted (device_le lower_case locale_le) groups.ready
        × IsSorted (device_le lower_case locale_le) groups.inaccessible
  unfolding group_devices_for_control
  group_devices_for_control-split lower_case locale_le total trans devices =
      let le = device_le lower_case locale_le in
      let groups = group_loop print_value cfg.hosts devices in
      let (ready, inaccessible) = group_loop-split devices in
      let in_order = sort-IsSorted le (λ x y. total _ _) (λ x y z. trans _ _ _) in
      (
        Perm.trans (Perm.append (sort-perm le groups.ready) (sort-perm le groups.inaccessible))
            (group_loop-perm print_value cfg.hosts devices),
        sort-All le (IsReady lan) groups.ready ready,
        sort-All le (IsInaccessible lan) groups.inaccessible inaccessible,
        in_order groups.ready,
        in_order groups.inaccessible,
      )
