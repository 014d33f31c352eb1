-- ===== src/Web/Views/Lights/Dragged.antt =====
-- A slider of SmartLightControls.tsx that is dragged is not moved by the device.
use merossity.Prelude.{ℕ}
use merossity.Prelude.{◌≡◌, ◌⊎◌, Bool, true, false}
use merossity.Prelude.{Option, none, some, List, [], ◌∷◌, ◌++◌}
use merossity.Prelude.{All}
use merossity.Prelude.Integers.{ℤ, pos}
use merossity.Web.Views.Lights.{Patch}
use merossity.Web.Views.Lights.Drafts.{
  Controls, ControlsEvent, lum_changed, lum_released, controls_step,
}

module _ (Colour : Type 0) (parse_color : ℕ → Colour) (rgb_of : Colour → Option ℕ) where
  -- All but the inputs of the brightness slider.
  abbrev pub is_elsewhere : ControlsEvent Colour parse_color rgb_of → Bool
  is_elsewhere (lum_changed n) = false
  is_elsewhere (lum_released n) = false
  is_elsewhere _ = true

  -- The events one after the other, with the requests that they send.
  pub run_controls :
      List (ControlsEvent Colour parse_color rgb_of)
      → Controls Colour parse_color rgb_of
      → Controls Colour parse_color rgb_of × List Patch
  run_controls [] c = (c, [])
  run_controls (e ∷ events) c =
      let (next, patches) = controls_step Colour parse_color rgb_of e c in
      let (after, rest) = run_controls events next in (after, patches ++ rest)

  -- A request that has a brightness, or that dims.
  abbrev pub HasBrightness : ℤ → Patch → Type 0
  HasBrightness n p =
      (p.luminance ≡ some n)
      ⊎ (p ≡ record { luminance = some (pos 0); temperature = none; rgb = none })

  -- What holds while the slider is dragged at `n`.
  abbrev pub Holds : ℤ → Controls Colour parse_color rgb_of × List Patch → Type 0
  Holds n (c, patches) = (c.draft_lum ≡ n) × (c.dragging_lum ≡ true) × All (HasBrightness n) patches
