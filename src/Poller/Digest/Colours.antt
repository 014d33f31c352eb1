-- ===== src/Poller/Digest/Colours.antt =====
-- Colours of `coerceRgb` in packages/core/src/api/shared.ts.
use merossity.Prelude.{ℕ, ◌+◌, ◌*◌, ◌/◌, ◌%◌, ◌^◌, ◌≤◌}
use merossity.Prelude.{◌≡◌, refl}
use merossity.Prelude.{some, arith}
use native.Mathlib.Nat.{mul-mod_left}
use merossity.Prelude.Integers.{pos}
use merossity.Json.{Number, finite, Value, number, array, cons, nil, unit}
use merossity.Poller.Digest.{byte_of, pack_rgb, coerce_finite_number, coerce_rgb}

-- A natural number as a JSON value.
abbrev pub natural : ℕ → Value
natural n = number (finite (pos (n * unit)))

byte_of-natural : (n : ℕ) → n ≤ 255 → byte_of (pos (n * unit)) ≡ some n
unfolding byte_of
byte_of-natural n h =
    let whole : n * unit % unit ≡ 0 = mul-mod_left n unit in
    let quotient : n * unit / unit ≡ n = omega arith in rw (whole, quotient) (ground (arith, h))

-- A list of three bytes becomes the number whose bytes they are, the red one first.
pub coerce_rgb-array :
    (parse_number : Value → Number) (r g b : ℕ)
    → (r ≤ 255) × (g ≤ 255) × (b ≤ 255)
    → let n = r * 2 ^ 16 + g * 2 ^ 8 + b in
      (coerce_rgb parse_number (array (cons (natural r) (cons (natural g) (cons (natural b) nil))))
        ≡ some (pos (n * unit)))
      × (n / 2 ^ 16 ≡ r)
      × (n / 2 ^ 8 % 256 ≡ g)
      × (n % 256 ≡ b)
unfolding coerce_rgb coerce_finite_number pack_rgb
coerce_rgb-array parse_number r g b (hr, hg, hb) = (
  rw (byte_of-natural r hr, byte_of-natural g hg, byte_of-natural b hb) refl,
  omega arith,
  omega arith,
  omega arith,
)
