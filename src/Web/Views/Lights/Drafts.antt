-- ===== src/Web/Views/Lights/Drafts.antt =====
-- What the controls of SmartLightControls.tsx hold: the drafts of the values, which follow the device
-- unless they are being dragged, and the requests that they send. The colours of the wheel are those
-- of its library (`Colour`), with the colour of a number and the number of a colour, where it has one.
-- A control may be off while a request is under way; what it does where it is not is told here.
use merossity.Prelude.{ℕ, ◌+◌, ◌*◌, ◌/◌, min}
use merossity.Prelude.{Bool, true, false}
use merossity.Prelude.{Option, none, some, List, [], ◌∷◌}
use merossity.Prelude.{if◌then◌else◌}
use merossity.Prelude.{is_some}
use merossity.Prelude.Integers.{ℤ, pos}
use merossity.Prelude.{◌>>=◌}
use merossity.Json.{unit}
use merossity.Poller.Types.{LanLightState}
use merossity.Web.Views.Lights.{Patch, device_lum, device_temp, device_rgb}

-- The number of `rgbToHex`, of a value of the device.
abbrev hex_number : ℕ → ℕ
hex_number n = min 16777215 ((n + unit / 2) / unit)

pub data LightMode : Type 0 where
  white colour : LightMode

module _ (Colour : Type 0) (parse_color : (rgb : ℕ) → Colour) (rgb_of : Colour → Option ℕ) where
  pub record Controls : Type 0 where
    pub mode : LightMode
    pub draft_lum : ℤ
    pub draft_temp : ℤ
    pub draft_color : Colour
    pub dragging_lum : Bool
    pub dragging_temp : Bool
    pub dragging_color : Bool
    pub busy : Bool

  -- The controls as they are first drawn.
  unfoldable pub initial_controls : Option LanLightState → Controls
  initial_controls light = record {
    mode = if is_some (light >>= λ l. l.temperature) then white else colour;
    draft_lum = pos (device_lum light);
    draft_temp = pos (device_temp light);
    draft_color = parse_color (hex_number (device_rgb light));
    dragging_lum = false;
    dragging_temp = false;
    dragging_color = false;
    busy = false;
  }

  -- A new value of the device, an input of the user, or the answer to a request.
  pub data ControlsEvent : Type 0 where
    lum_told temp_told rgb_told : ℕ → ControlsEvent
    lum_changed lum_released : ℤ → ControlsEvent
    temp_changed temp_released : ℤ → ControlsEvent
    temp_chosen : ℕ → ControlsEvent
    color_changed color_released : Colour → ControlsEvent
    rgb_chosen : ℕ → ControlsEvent
    dim_pressed : ControlsEvent
    mode_chosen : LightMode → ControlsEvent
    answered : ControlsEvent

  abbrev whole_number : ℕ → ℤ
  whole_number n = pos (n * unit)

  -- A request, which makes the controls busy until it is answered.
  abbrev sending : Controls → Patch → Controls × List Patch
  sending c patch = (record c { busy = true }, patch ∷ [])

  abbrev Kept : Type 0
  Kept = Controls → Controls × List Patch

  abbrev follow_lum : ℕ → Kept
  follow_lum n c = (if c.dragging_lum then c else record c { draft_lum = pos n }, [])

  abbrev follow_temp : ℕ → Kept
  follow_temp n c = (if c.dragging_temp then c else record c { draft_temp = pos n }, [])

  abbrev follow_rgb : ℕ → Kept
  follow_rgb n c =
      (if c.dragging_color then c else record c { draft_color = parse_color (hex_number n) }, [])

  abbrev change_lum : ℤ → Kept
  change_lum n c = (record c { dragging_lum = true; draft_lum = n }, [])

  abbrev release_lum : ℤ → Kept
  release_lum n c =
      sending (record c { dragging_lum = false; draft_lum = n })
        (record { luminance = some n; temperature = none; rgb = none })

  abbrev change_temp : ℤ → Kept
  change_temp n c = (record c { dragging_temp = true; draft_temp = n }, [])

  abbrev release_temp : ℤ → Kept
  release_temp n c =
      sending (record c { dragging_temp = false; draft_temp = n })
        (record { luminance = some c.draft_lum; temperature = some n; rgb = none })

  -- "Warm", "Neutral" and "Cool".
  abbrev choose_temp : ℕ → Kept
  choose_temp n c =
      sending (record c { draft_temp = whole_number n })
        (record { luminance = some c.draft_lum; temperature = some (whole_number n); rgb = none })

  abbrev change_color : Colour → Kept
  change_color k c = (record c { dragging_color = true; draft_color = k }, [])

  abbrev pub release_color : Colour → Kept
  release_color k c =
      let let_go = record c { dragging_color = false; draft_color = k } in
      elim (rgb_of k) [
        | none ↦ (let_go, [])
        | some n ↦ sending let_go (record {
          luminance = some c.draft_lum;
          temperature = none;
          rgb = some (whole_number n);
        })
      ]

  -- One of the colours that are offered.
  abbrev choose_rgb : ℕ → Kept
  choose_rgb n c =
      sending (record c { draft_color = parse_color n })
        (record { luminance = some c.draft_lum; temperature = none; rgb = some (whole_number n) })

  abbrev press_dim : Kept
  press_dim c = sending c (record { luminance = some (pos 0); temperature = none; rgb = none })

  unfoldable pub controls_step : ControlsEvent → Controls → Controls × List Patch
  controls_step (lum_told n) c = follow_lum n c
  controls_step (temp_told n) c = follow_temp n c
  controls_step (rgb_told n) c = follow_rgb n c
  controls_step (lum_changed n) c = change_lum n c
  controls_step (lum_released n) c = release_lum n c
  controls_step (temp_changed n) c = change_temp n c
  controls_step (temp_released n) c = release_temp n c
  controls_step (temp_chosen n) c = choose_temp n c
  controls_step (color_changed k) c = change_color k c
  controls_step (color_released k) c = release_color k c
  controls_step (rgb_chosen n) c = choose_rgb n c
  controls_step dim_pressed c = press_dim c
  controls_step (mode_chosen m) c = (record c { mode = m }, [])
  controls_step answered c = (record c { busy = false }, [])
