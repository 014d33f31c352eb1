-- ===== src/Poller/Digest.antt =====
-- The extractors of packages/core/src/api/shared.ts: what the digest of a `System.All` response
-- says of channels, lights and schedules. JavaScript gives the number that a text, a list or an
-- object is converted to (`parse_number`), the text of a value (`print_value`) and the order of
-- two texts (`locale_le`).
pub mod Ordered
pub mod Least
pub mod Colours
use merossity.Prelude.{ℕ, ◌+◌, ◌*◌, ◌/◌, ◌%◌, ◌^◌, String}
use merossity.Prelude.{Bool, false}
use merossity.Prelude.{◌&&◌, ◌||◌, Option, none, some, List, [], ◌∷◌}
use merossity.Prelude.{ltb, leb, ◌==◌, str_eq, if◌then◌else◌}
use merossity.Prelude.{map_option, length}
use merossity.Prelude.{all}
use merossity.Prelude.Integers.{ℤ, pos, negsuc}
use merossity.Prelude.Sorting.{sort}
use merossity.Prelude.Texts.{trim}
use merossity.Prelude.{◌>>=◌}
use merossity.Json.{
  Number, nan, finite, Value, undefined, null, boolean, number, text, array, object, Items, nil,
  cons, get, coalesce, is_truthy, natural_of, round, unit,
}
use merossity.Poller.Types.{LanToggleXChannel, LanLightState, LanScheduleDigestEntry}

-- `Array.isArray(c) ? c : [c]`
unfoldable pub items_of : Value → Items
items_of (array items) = items
items_of v = cons v nil

-- The loop over the items, which goes on where an item is not an entry.
unfoldable pub read_items {ℓ} : {A : Type ℓ} → (Value → Option A) → Items → List A
read_items read nil = []
read_items read (cons v items) =
    let rest = read_items read items in elim (read v) [ none ↦ rest | some a ↦ a ∷ rest ]

-- The loop over the candidates, which ends at the first one with an entry.
unfoldable pub first_read {ℓ} :
    {A : Type ℓ} → (Value → Option A) → (A → A → Bool) → List Value → Option (List A)
first_read read le [] = none
first_read read le (c ∷ cs) =
    let rest = first_read read le cs in
    let out = read_items read (items_of c) in
    if is_truthy c && ltb 0 (length out) then some (sort le out) else rest

abbrev digest_of : Value → Value
digest_of resp = get "digest" (get "all" (get "payload" resp))

abbrev finite_of : Number → Option ℤ
finite_of (finite z) = some z
finite_of _ = none

abbrev pub is_one : Number → Bool
is_one (finite (pos z)) = z == unit
is_one _ = false

-- A number that is an integer from 0 to 255.
unfoldable pub byte_of : ℤ → Option ℕ
byte_of (pos z) = if z % unit == 0 && leb (z / unit) 255 then some (z / unit) else none
byte_of (negsuc n) = none

-- `((r & 0xff) << 16) | ((g & 0xff) << 8) | (b & 0xff)` for three bytes.
unfoldable pub pack_rgb : Option ℤ → Option ℤ → Option ℤ → Option ℤ
pack_rgb r g b = do
  r' ← r
  g' ← g
  b' ← b
  r0 ← byte_of r'
  g0 ← byte_of g'
  b0 ← byte_of b'
  some (pos ((r0 * 2 ^ 16 + g0 * 2 ^ 8 + b0) * unit))

abbrev pub togglex_candidates : Value → List Value
togglex_candidates resp =
    let digest = digest_of resp in
    get "togglex" digest
    ∷ get "toggleX" digest
    ∷ get "toggle" digest
    ∷ get "togglex" (get "togglex" digest)
    ∷ []

abbrev pub light_candidates : Value → List Value
light_candidates resp =
    let digest = digest_of resp in
    get "light" digest
    ∷ get "light" (get "light" digest)
    ∷ get "lamp" digest
    ∷ get "lamp" (get "lamp" digest)
    ∷ []

module _ (parse_number : Value → Number) where
  -- `Number(v)`
  unfoldable pub to_number : Value → Number
  to_number undefined = nan
  to_number null = finite (pos 0)
  to_number (boolean b) = finite (pos (if b then unit else 0))
  to_number (number n) = n
  to_number v = parse_number v

  unfoldable pub coerce_finite_number : Value → Option ℤ
  coerce_finite_number (text t) =
      if str_eq (trim t) "" then none else finite_of (parse_number (text t))
  coerce_finite_number (number n) = finite_of n
  coerce_finite_number _ = none

  rgb_parts : Value → Option ℤ
  rgb_parts (array (cons r (cons g (cons b _)))) =
      pack_rgb (coerce_finite_number r) (coerce_finite_number g) (coerce_finite_number b)
  rgb_parts (object fields) =
      let v = object fields in
      pack_rgb (coerce_finite_number (coalesce (get "r" v) (get "red" v)))
        (coerce_finite_number (coalesce (get "g" v) (get "green" v)))
        (coerce_finite_number (coalesce (get "b" v) (get "blue" v)))
  rgb_parts _ = none

  unfoldable pub coerce_rgb : Value → Option ℤ
  unfolding rgb_parts
  coerce_rgb v = elim (coerce_finite_number v) [ some n ↦ some (round n) | none ↦ rgb_parts v ]

  unfoldable pub togglex_entry : Value → Option LanToggleXChannel
  togglex_entry item =
      map_option (λ n. record { channel = n; onoff = is_one (to_number (get "onoff" item)) })
        (natural_of (to_number (get "channel" item)))

  unfoldable pub extract_lan_toggle_x : Value → Option (List LanToggleXChannel)
  extract_lan_toggle_x resp =
      first_read togglex_entry (λ a b. leb a.channel b.channel) (togglex_candidates resp)

  unfoldable pub light_entry : Value → Option LanLightState
  light_entry item =
      map_option
        (λ n. record {
          channel = n;
          onoff = is_one (to_number (coalesce (get "onoff" item) (get "state" item)));
          luminance = coerce_finite_number (
              coalesce (get "luminance" item)
                (coalesce (get "brightness" item) (coalesce (get "luma" item) (get "lum" item))));
          temperature = coerce_finite_number (
              coalesce (get "temperature" item) (
                coalesce (get "temp" item)
                  (coalesce (get "colorTemp" item) (get "colortemp" item))));
          rgb = coerce_rgb (get "rgb" item);
        })
        (natural_of (to_number (get "channel" item)))

  unfoldable pub extract_lan_light : Value → Option (List LanLightState)
  extract_lan_light resp =
      first_read light_entry (λ a b. leb a.channel b.channel) (light_candidates resp)

  -- `Math.max(0, Math.round(count))`
  abbrev pub count_of : Option ℤ → ℕ
  count_of (some (pos z)) = (z + unit / 2) / unit
  count_of _ = 0

  module _ (print_value : Value → String) (locale_le : String → String → Bool) where
    -- `String(v ?? '')`
    abbrev to_text : Value → String
    to_text undefined = ""
    to_text null = ""
    to_text (text t) = t
    to_text v = print_value v

    unfoldable pub digest_entry : Value → Option LanScheduleDigestEntry
    digest_entry item = do
      n ← natural_of (to_number (get "channel" item))
      let id = trim (to_text (get "id" item))
      if str_eq id ""
          then none
          else some (record {
            channel = n;
            id = id;
            count = count_of (coerce_finite_number (get "count" item));
          })

    unfoldable pub digest_le : LanScheduleDigestEntry → LanScheduleDigestEntry → Bool
    digest_le a b = ltb a.channel b.channel || (a.channel == b.channel && locale_le a.id b.id)

    digest_candidates : List Value → List LanScheduleDigestEntry
    digest_candidates [] = []
    digest_candidates (c ∷ cs) =
        let rest = digest_candidates cs in
        if is_truthy c then sort digest_le (read_items digest_entry (items_of c)) else rest

    -- The first candidate that is there is taken, with or without entries.
    unfoldable pub extract_lan_schedule_digest :
        Value → (kind : String) → List LanScheduleDigestEntry
    unfolding digest_candidates
    extract_lan_schedule_digest resp kind =
        let digest = digest_of resp in
        digest_candidates (get kind digest ∷ get kind (get kind digest) ∷ [])
