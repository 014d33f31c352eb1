-- ===== src/Web/Views/Card/Tabs.antt =====
-- The tabs of the dialog of DeviceCard.tsx.
use merossity.Prelude.{◌≡◌, refl, inl, inr, Bool, true, false}
use merossity.Prelude.{List, [], ◌∷◌, arith}
use merossity.Prelude.{if◌then◌else◌}
use merossity.Prelude.{Bool-cases}
use merossity.Web.Views.Card.{
  ManageTab, color, power, schedules, diagnostics, CardView, available_tabs, has_tab, first_tab,
  close_system_dump, normalize_tab, coerce_tab, CardRequest, request_refresh, power_history,
  list_timer_x, list_trigger_x, fetch_diagnostics, start_fetch_for_tab, Manage, ManageEvent,
  open_manage, open_changed, selection_changed, manage_step,
}

-- Lights and plugs have a tab of their own; the other two are always there.
abbrev pub offers : CardView → ManageTab → Bool
offers v color = v.smart_light
offers v power = v.plug_like
offers v schedules = true
offers v diagnostics = true

available_tabs_lem : (v : CardView) (t : ManageTab) → has_tab t (available_tabs v) ≡ offers v t
unfolding available_tabs
available_tabs_lem v color = ground arith
available_tabs_lem v power = ground arith
available_tabs_lem v schedules = ground arith
available_tabs_lem v diagnostics = ground arith

-- The tab that stands in for one that is not there.
abbrev pub first_offered : CardView → ManageTab
first_offered v = if v.smart_light then color else if v.plug_like then power else schedules

first_tab_lem : (v : CardView) → first_tab (available_tabs v) ≡ first_offered v
unfolding available_tabs
first_tab_lem v = elim (Bool-cases v.smart_light) [
  | inl e ↦ rw e refl
  | inr e ↦ elim (Bool-cases v.plug_like) [ inl f ↦ rw (e, f) refl | inr f ↦ rw (e, f) refl ]
]

offers-first_offered : (v : CardView) → offers v (first_offered v) ≡ true
offers-first_offered v = elim (Bool-cases v.smart_light) [
  | inl e ↦ rw e refl
  | inr e ↦ elim (Bool-cases v.plug_like) [ inl f ↦ rw (e, f) refl | inr f ↦ rw (e, f) refl ]
]

normalize_tab_lem :
    (v : CardView) (t : ManageTab) → normalize_tab v t ≡ (if offers v t then t else first_offered v)
unfolding normalize_tab
normalize_tab_lem v t = rw (available_tabs_lem v t, first_tab_lem v) refl

normalize_tab-offers : (v : CardView) (t : ManageTab) → offers v (normalize_tab v t) ≡ true
normalize_tab-offers v t =
    rw (normalize_tab_lem v t)
      (elim (Bool-cases (offers v t)) [ inl e ↦ rw e e | inr e ↦ rw e (offers-first_offered v) ])

-- What a tab asks the server and the devices machine for.
abbrev pub asks : ManageTab → List CardRequest
asks color = request_refresh ∷ []
asks power = power_history ∷ []
asks schedules = list_timer_x ∷ list_trigger_x ∷ []
asks diagnostics = request_refresh ∷ fetch_diagnostics ∷ []

start_fetch-offered :
    (v : CardView) (t : ManageTab)
    → offers v t ≡ true
    → start_fetch_for_tab v t ≡ (if v.ready then asks t else [])
unfolding start_fetch_for_tab
start_fetch-offered v color h = refl
start_fetch-offered v power h = ground (arith, h)
start_fetch-offered v schedules h = refl
start_fetch-offered v diagnostics h = refl

-- The tab that an event is for.
abbrev pub wanted : CardView → Manage → ManageEvent → ManageTab
wanted v m (open_manage desired) = desired
wanted v m (open_changed b) = m.tab
wanted v m (selection_changed key) = coerce_tab v key

-- What is shown and asked for after an event.
abbrev pub Shows : CardView → (desired : ManageTab) → Manage × List CardRequest → Type 0
Shows v desired (m, asked) =
    (offers v m.tab ≡ true)
    × (m.tab ≡ (if offers v desired then desired else first_offered v))
    × (asked ≡ (if v.ready then asks m.tab else []))

abbrev pub Follows : CardView → Manage → ManageEvent → Manage × List CardRequest → Type 0
Follows v m (open_changed false) (after, asked) =
    (after ≡ record m { is_open = false }) × (asked ≡ close_system_dump ∷ [])
Follows v m event shown = Shows v (wanted v m event) shown

normalize_tab-Shows :
    (v : CardView) (m : Manage) (t : ManageTab)
    → Shows v t (record m { tab = normalize_tab v t }, start_fetch_for_tab v (normalize_tab v t))
normalize_tab-Shows v m t = (
  normalize_tab-offers v t,
  normalize_tab_lem v t,
  start_fetch-offered v (normalize_tab v t) (normalize_tab-offers v t),
)

-- Whatever opens the dialog or chooses a tab, by whatever key: the tab that is shown is one that the
-- device has, the one wanted where the device has it and the first one otherwise; and where the host
-- is known, exactly the requests of that tab are made, else none. Closing changes nothing but that,
-- and only closes the dump.
pub manage_step-Follows :
    (v : CardView) (event : ManageEvent) (m : Manage) → Follows v m event (manage_step v event m)
unfolding manage_step
manage_step-Follows v (open_manage desired) m =
    normalize_tab-Shows v (record m { is_open = true }) desired
manage_step-Follows v (open_changed false) m = (refl, refl)
manage_step-Follows v (open_changed true) m =
    normalize_tab-Shows v (record m { is_open = true }) m.tab
manage_step-Follows v (selection_changed key) m = normalize_tab-Shows v m (coerce_tab v key)
