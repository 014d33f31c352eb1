-- ===== src/Lan/Address/Masks.antt =====
-- Network masks of packages/core/src/meross/lan/discovery.ts.
use merossity.Prelude.{ℕ, zero, suc, ◌+◌, ◌-◌, ◌*◌, ◌/◌, ◌%◌, ◌^◌, ◌≤◌, ◌<◌}
use merossity.Prelude.{◌≡◌, refl, sym, ap, ◌∙◌, ◌⊎◌, inl, inr, true, false}
use merossity.Prelude.{arith}
use merossity.Prelude.{leb}
use merossity.Prelude.{Bool-cases}
use native.Mathlib.Nat.{
  mod-lt, mod-eq_of_lt, div-add-mod', mod-eq-sub-div-mul, pow-suc, pow-le-pow_right,
  div-div-eq-div-mul,
}
use merossity.Prelude.Results.{ok}
use merossity.Lan.Address.{int_to_ip, size, prefix_loop, netmask_to_prefix}
use merossity.Lan.Address.Hosts.{ip_to_int-int_to_ip}

twice : (k b P : ℕ) → (2 * k + b) * P ≡ k * (P * 2) + b * P
twice k b P = grind arith

-- The remainder by 2^(i + 1) is the bit i and the remainder by 2^i.
mod_step : (n P : ℕ) → n % (P * 2) ≡ n / P % 2 * P + n % P
mod_step n P =
    let q = n / P in
    let halves : 2 * (q / 2) + q % 2 ≡ q = omega arith in
    let spread : q * P ≡ q / 2 * (P * 2) + q % 2 * P =
      ap (λ x. x * P) (sym halves) ∙ twice (q / 2) (q % 2) P in
    let whole : q * P + n % P ≡ n = div-add-mod' n P in
    let cut : n % (P * 2) ≡ n - n / (P * 2) * (P * 2) = mod-eq-sub-div-mul n (P * 2) in
    let nested : n / (P * 2) ≡ q / 2 = sym (div-div-eq-div-mul n P 2) in
    cut ∙ ap (λ x. n - x * (P * 2)) nested ∙ omega (arith, spread, whole)

-- The highest of the bits that are left, and the others.
bit_cases :
    (n i : ℕ)
    → ((n / 2 ^ i % 2 ≡ 0) × (n % 2 ^ suc i ≡ n % 2 ^ i))
      ⊎ ((n / 2 ^ i % 2 ≡ 1) × (n % 2 ^ suc i ≡ 2 ^ i + n % 2 ^ i))
bit_cases n i =
    let stepped : n % 2 ^ suc i ≡ n / 2 ^ i % 2 * 2 ^ i + n % 2 ^ i =
      ap (λ m. n % m) (pow-suc 2 i) ∙ mod_step n (2 ^ i) in
    let two : (n / 2 ^ i % 2 ≡ 0) ⊎ (n / 2 ^ i % 2 ≡ 1) = ground arith in
    elim two [
      | inl e ↦ inl (e, stepped ∙ ap (λ b. b * 2 ^ i + n % 2 ^ i) e ∙ omega arith)
      | inr e ↦ inr (e, stepped ∙ ap (λ b. b * 2 ^ i + n % 2 ^ i) e ∙ omega arith)
    ]

power_pos : (i : ℕ) → 0 < 2 ^ i
power_pos i = pow-le-pow_right {n = 2} (omega arith) {i = 0} {j = i} (omega arith)

zeros_left : (left n bits : ℕ) → n % 2 ^ left ≡ 0 → prefix_loop left n true bits ≡ ok bits
unfolding prefix_loop
zeros_left zero n bits h = refl
zeros_left (suc i) n bits h = elim (bit_cases n i) [
  | inl (e, same) ↦ rw (e, prefix_loop) (zeros_left i n bits (sym same ∙ h))
  | inr (e, more) ↦ ground (arith, power_pos i)
]

ones_left :
    (left z n bits : ℕ)
    → z ≤ left
    → n % 2 ^ left ≡ 2 ^ left - 2 ^ z
    → prefix_loop left n false bits ≡ ok (bits + (left - z))
unfolding prefix_loop
ones_left zero z n bits p h = ap ok (omega arith)
ones_left (suc i) z n bits p h =
    let below : n % 2 ^ i < 2 ^ i = mod-lt n (power_pos i) in
    let double : 2 ^ suc i ≡ 2 ^ i * 2 = pow-suc 2 i in
    let some_zeros : 0 < 2 ^ z = power_pos z in
    elim (Bool-cases (leb z i)) [
      | inl inside ↦
          let small : 2 ^ z ≤ 2 ^ i =
            pow-le-pow_right {n = 2} (omega arith) {i = z} {j = i} (ground arith) in
          elim (bit_cases n i) [
            | inl (e, same) ↦ ground (arith, same, h, double, below, small)
            | inr (e, more) ↦
                rw (e, prefix_loop)
                  (ones_left i z n (bits + 1) (ground arith) (omega (arith, more, h, double, small))
                    ∙ ap ok (ground arith))
          ]
      | inr outside ↦
          let top : z ≡ suc i = ground arith in
          let none_left : n % 2 ^ suc i ≡ 0 = h ∙ ap (λ x. 2 ^ suc i - 2 ^ x) top ∙ omega arith in
          elim (bit_cases n i) [
            | inl (e, same) ↦
                rw (e, prefix_loop)
                  (zeros_left i n bits (sym same ∙ none_left) ∙ ap ok (omega (arith, top)))
            | inr (e, more) ↦ ground (arith, more, none_left, power_pos i)
          ]
    ]

-- The mask of a prefix: so many ones above zeros.
abbrev pub mask_of : ℕ → ℕ
mask_of prefix = 2 ^ 32 - size prefix

-- The mask of each prefix is read as that prefix.
pub netmask_to_prefix-mask :
    (prefix : ℕ) → prefix ≤ 32 → netmask_to_prefix (int_to_ip (mask_of prefix)) ≡ ok prefix
unfolding netmask_to_prefix
netmask_to_prefix-mask prefix h =
    let fits : mask_of prefix < 2 ^ 32 = omega (arith, power_pos (32 - prefix)) in
    rw (ip_to_int-int_to_ip (mask_of prefix) fits) (
      ones_left 32 (32 - prefix) (mask_of prefix) 0 (omega arith) (mod-eq_of_lt fits)
      ∙ ap ok (omega arith))
