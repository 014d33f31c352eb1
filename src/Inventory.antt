-- ===== src/Inventory.antt =====
-- packages/core/src/meross/inventory.ts: the devices of the cloud's list, with their hosts, in two
-- groups: those whose host is known and the others, each in the order of names, types and uuids.
-- JavaScript gives the text of a value (`print_value`), the lower case of a text and the order of
-- two texts (`locale_le`).
pub mod Grouped
use merossity.Prelude.{ℕ, zero, suc, ◌+◌, ◌-◌, ◌*◌, ◌/◌, ◌%◌, ◌^◌, ◌≤◌, ◌<◌, min, max, String}
use merossity.Prelude.{◌≡◌, refl, sym, ap, ◌∙◌, ◌≢◌, ◌↔◌, ◌⊎◌, inl, inr, Bool, true, false, not}
use merossity.Prelude.{
  ◌&&◌, ◌||◌, Option, none, some, List, [], ◌∷◌, ◌++◌, map, arith, eq_iff, eq_refl,
}
use merossity.Prelude.{ltb, leb, ◌==◌, str_eq, if◌then◌else◌, ltb→lt, lt→ltb, leb→le, ==_iff, tests}
use merossity.Prelude.{
  Bool-cases, Option-cases, is_some, get_or, or_else, map_option, length, get_elem?,
}
use merossity.Prelude.{take, drop, find, any, all, keep, All, All-append, All-take, All-keep}
use Prim.Native.String.{◌++◌ as append_text}
use merossity.Prelude.Sorting.{sort}
use merossity.Prelude.Maps.{Map, lookup}
use merossity.Prelude.Texts.{trim}
use merossity.Prelude.{◌>>=◌}
use merossity.Json.{Value, Items, nil, cons, get, is_truthy}
use merossity.Poller.Recovery.{non_empty}
use merossity.Api.Client.{to_text}
use merossity.Cloud.Login.{DeviceHost}

pub record InventoryDevice : Type 0 where
  pub uuid : String
  pub name : String
  pub type : String
  pub online : String
  pub host : Option String
  pub mac : Option String
  pub host_updated_at : Option String

pub record Groups : Type 0 where
  pub ready : List InventoryDevice
  pub inaccessible : List InventoryDevice

module _ (print_value : Value → String) where
  -- `[a, b].filter(Boolean).join(' / ')`
  abbrev joined : (a b : Value) → String
  joined a b =
      let left = to_text print_value a in
      let right = to_text print_value b in
      if is_truthy a
      then if is_truthy b then append_text left (append_text " / " right) else left
      else if is_truthy b
      then right
      else ""

  unfoldable pub inventory_device : Map DeviceHost → (uuid : String) → Value → InventoryDevice
  inventory_device hosts uuid d =
      let entry = lookup uuid hosts in
      record {
        uuid = uuid;
        name = to_text print_value (get "devName" d);
        type = joined (get "deviceType" d) (get "subType" d);
        online = to_text print_value (get "onlineStatus" d);
        host = entry >>= λ e. non_empty e.host;
        mac = entry >>= λ e. e.mac >>= non_empty;
        host_updated_at = entry >>= λ e. non_empty e.updated_at;
      }

  -- The loop over the devices.
  unfoldable pub group_loop : Map DeviceHost → Items → Groups
  group_loop hosts nil = record { ready = []; inaccessible = [] }
  group_loop hosts (cons d devices) =
      let rest = group_loop hosts devices in
      let uuid = to_text print_value (get "uuid" d) in
      let inv = inventory_device hosts uuid d in
      if str_eq uuid ""
      then rest
      else if is_some inv.host
      then record rest { ready = inv ∷ rest.ready }
      else record rest { inaccessible = inv ∷ rest.inaccessible }

module _ (lower_case : String → String) (locale_le : String → String → Bool) where
  abbrev norm : String → String
  norm s = lower_case (trim s)

  -- A blank name comes last.
  unfoldable pub device_sort_key : InventoryDevice → String
  device_sort_key d =
      let name = norm d.name in
      let name_key = if str_eq name "" then "1:" else append_text "0:" name in
      append_text name_key
        (append_text "\n" (append_text (norm d.type) (append_text "\n" (norm d.uuid))))

  abbrev pub device_le : InventoryDevice → InventoryDevice → Bool
  device_le a b = locale_le (device_sort_key a) (device_sort_key b)

  unfoldable pub group_devices_for_control :
      (print_value : Value → String) → (devices : Items) → Map DeviceHost → Groups
  group_devices_for_control print_value devices hosts =
      let groups = group_loop print_value hosts devices in
      record {
        ready = sort device_le groups.ready;
        inaccessible = sort device_le groups.inaccessible;
      }
