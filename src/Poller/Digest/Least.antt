-- ===== src/Poller/Digest/Least.antt =====
-- A device that is read shows the least of its channels.
use merossity.Prelude.{ℕ, ◌≤◌, ◌<◌, String}
use merossity.Prelude.{◌≡◌, refl, sym, ◌⊎◌, inl, inr, Bool, true}
use merossity.Prelude.{none, some, List, [], ◌∷◌, arith}
use merossity.Prelude.{leb, ◌==◌}
use merossity.Prelude.{Bool-cases, Option-cases, get_or, map_option, length}
use merossity.Prelude.{find, All}
use merossity.Prelude.Sorting.{sort-IsSorted, IsSorted}
use mathlib.Core.Path.{subst}
use merossity.Prelude.Results.{ok}
use merossity.Json.{Number, Value}
use merossity.Poller.Types.{LanToggleXChannel, LanLightState, DeviceStateDto, PollReason}
use merossity.Poller.Reading.{
  SystemAll, Answers, first_or, Primary, primary_of, normalize_channels, read_state,
}
use merossity.Poller.Digest.{extract_lan_toggle_x, extract_lan_light, extract_lan_schedule_digest}
use merossity.Poller.Digest.Ordered.{channel_le, light_le, extract_lan_light-Chosen}

module _ {ℓ} {A : Type ℓ} (channel_of : A → ℕ) where
  abbrev le_channel : A → A → Bool
  le_channel x y = leb (channel_of x) (channel_of y)

  at_least :
      (x : A) (ys : List A)
      → All (λ y. le_channel x y ≡ true) ys
      → All (λ y. channel_of x ≤ channel_of y) ys
  at_least x [] h = tt
  at_least x (y ∷ ys) h = (ground (arith, h.0), at_least x ys h.1)

  none_on_zero :
      (x : A) (ys : List A)
      → 0 < channel_of x
      → All (λ y. le_channel x y ≡ true) ys
      → find (λ y. channel_of y == 0) ys ≡ none
  none_on_zero x [] p h = refl
  none_on_zero x (y ∷ ys) p h = ground (arith, h.0, none_on_zero x ys p h.1)

  -- The first element on channel 0, or else the first one, is the head of a list in order.
  head_found :
      (x : A) (xs : List A)
      → IsSorted le_channel (x ∷ xs)
      → first_or (λ y. channel_of y == 0) (x ∷ xs) ≡ some x
  head_found x xs h = elim (Bool-cases (channel_of x == 0)) [
    | inl e ↦ rw e refl
    | inr e ↦ rw (e, none_on_zero x xs (ground arith) h.0) refl
  ]

-- The response as the extractors read it.
abbrev pub system_all_of :
    (Value → Number) → (Value → String) → (String → String → Bool) → Value → SystemAll
system_all_of parse_number print_value locale_le resp = record {
  togglex_of = extract_lan_toggle_x parse_number resp;
  light_of = extract_lan_light parse_number resp;
  timerx_of = extract_lan_schedule_digest parse_number print_value locale_le resp "timerx";
  triggerx_of = extract_lan_schedule_digest parse_number print_value locale_le resp "triggerx";
}

-- What a reading shows: the least of its lights, or of its channels where it has no light.
abbrev pub ShowsLeast : DeviceStateDto → Type 0
ShowsLeast reading =
    IsSorted channel_le reading.channels
    × IsSorted light_le reading.lights
    × ((All (λ l. reading.channel ≤ l.channel) reading.lights × (0 < length reading.lights))
        ⊎ (All (λ c. reading.channel ≤ c.channel) reading.channels × (reading.lights ≡ [])))

primary-least :
    (channels : List LanToggleXChannel) (lights : List LanLightState) {p : Primary}
    → IsSorted channel_le channels
    → IsSorted light_le lights
    → primary_of channels lights ≡ some p
    → (All (λ l. p.channel ≤ l.channel) lights × (0 < length lights))
      ⊎ (All (λ c. p.channel ≤ c.channel) channels × (lights ≡ []))
unfolding primary_of
primary-least [] [] hc hl e = cc
primary-least (c ∷ channels) [] {p} hc hl e =
    let same : c.channel ≡ p.channel = ground (arith, head_found (λ x. x.channel) c channels hc) in
    inr (
      subst (λ n. All (λ x. n ≤ x.channel) (c ∷ channels)) same
          (omega arith, at_least (λ x. x.channel) c channels hc.0),
      refl,
    )
primary-least channels (l ∷ lights) {p} hc hl e =
    let same : l.channel ≡ p.channel = ground (arith, head_found (λ x. x.channel) l lights hl) in
    inl (
      subst (λ n. All (λ x. n ≤ x.channel) (l ∷ lights)) same
          (omega arith, at_least (λ x. x.channel) l lights hl.0),
      omega arith,
    )

lights-IsSorted :
    (parse_number : Value → Number) (resp : Value)
    → IsSorted light_le (get_or (extract_lan_light parse_number resp) [])
lights-IsSorted parse_number resp = elim (Option-cases (extract_lan_light parse_number resp)) [
  | inl e ↦ rw e tt
  | inr (lights, e) ↦ rw e (extract_lan_light-Chosen parse_number resp e).ordered
]

channels-IsSorted :
    (channels : List LanToggleXChannel) → IsSorted channel_le (normalize_channels channels)
unfolding normalize_channels
channels-IsSorted channels =
    sort-IsSorted channel_le (λ x y. ground arith) (λ x y z p q. ground arith) channels

read_state-parts :
    (uuid : String) (reason : PollReason) (answers : Answers) {resp : SystemAll}
    {reading : DeviceStateDto}
    → answers.system_all ≡ ok resp
    → read_state uuid reason answers ≡ ok reading
    → (reading.channels ≡ normalize_channels (get_or resp.togglex_of []))
      × (reading.lights ≡ get_or resp.light_of [])
      × (map_option (λ p. p.channel) (primary_of reading.channels reading.lights)
          ≡ some reading.channel)
unfolding read_state
read_state-parts uuid reason answers a e = ground arith

-- A device that is read shows its channels and its lights in the order of their channels, and is
-- said to be on the least channel of its lights, or on its least channel where it has no light,
-- whatever the response holds.
pub read_state-ShowsLeast :
    (parse_number : Value → Number) (print_value : Value → String)
    (locale_le : String → String → Bool) (uuid : String) (reason : PollReason) (answers : Answers)
    (resp : Value) {reading : DeviceStateDto}
    → answers.system_all ≡ ok (system_all_of parse_number print_value locale_le resp)
    → read_state uuid reason answers ≡ ok reading
    → ShowsLeast reading
read_state-ShowsLeast parse_number print_value locale_le uuid reason answers resp {reading} a e =
    let (c, l, shown) = read_state-parts uuid reason answers a e in
    let hc : IsSorted channel_le reading.channels =
      subst (IsSorted channel_le) (sym c) (channels-IsSorted _) in
    let hl : IsSorted light_le reading.lights =
      subst (IsSorted light_le) (sym l) (lights-IsSorted parse_number resp) in
    elim (Option-cases (primary_of reading.channels reading.lights)) [
      | inl n ↦ cc (rw n at shown)
      | inr (p, found) ↦
          let same : p.channel ≡ reading.channel = ground (arith, rw found at shown) in
          (
            hc,
            hl,
            subst
                (λ n.
                  (All (λ x. n ≤ x.channel) reading.lights × (0 < length reading.lights))
                  ⊎ (All (λ x. n ≤ x.channel) reading.channels × (reading.lights ≡ [])))
                same (primary-least reading.channels reading.lights hc hl found),
          )
    ]
