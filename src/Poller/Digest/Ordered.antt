-- ===== src/Poller/Digest/Ordered.antt =====
-- What the extractors give is in order, and a device that is read shows its least channel.
use merossity.Prelude.{◌<◌}
use merossity.Prelude.{◌≡◌, ◌⊎◌, inl, inr, Bool, true}
use merossity.Prelude.{◌&&◌, Option, some, List, [], ◌∷◌, arith}
use merossity.Prelude.{ltb, leb}
use merossity.Prelude.{Bool-cases, length}
use mathlib.Core.List.{Perm, Mem, mem-cons_self, mem-cons_of_mem}
use mathlib.Core.Path.{subst}
use merossity.Prelude.Sorting.{sort, sort-perm, sort-length, sort-IsSorted, IsSorted}
use merossity.Json.{Number, Value, is_truthy}
use merossity.Poller.Types.{LanToggleXChannel, LanLightState}
use merossity.Poller.Digest.{
  items_of, read_items, first_read, togglex_entry, togglex_candidates, extract_lan_toggle_x,
  light_entry, light_candidates, extract_lan_light,
}

-- The candidate that a loop ends at: it is there, and has an entry; the result has its entries, in
-- order.
pub record Chosen {ℓ} {A : Type ℓ} (read : Value → Option A) (le : A → A → Bool) (cs : List Value)
    (out : List A) : Type ℓ where
  pub candidate : Value
  pub listed : Mem candidate cs
  pub there : is_truthy candidate ≡ true
  pub full : 0 < length out
  pub entries : Perm out (read_items read (items_of candidate))
  pub ordered : IsSorted le out

first_read-Chosen {ℓ} :
    {A : Type ℓ} (read : Value → Option A) (le : A → A → Bool)
    (total : (x y : A) → (le x y ≡ true) ⊎ (le y x ≡ true))
    (trans : (x y z : A) → le x y ≡ true → le y z ≡ true → le x z ≡ true) (cs : List Value)
    {out : List A}
    → first_read read le cs ≡ some out
    → Chosen read le cs out
unfolding first_read
first_read-Chosen read le total trans [] h = cc
first_read-Chosen read le total trans (c ∷ cs) {out} h =
    let out' = sort le (read_items read (items_of c)) in
    elim (Bool-cases (is_truthy c && ltb 0 (length (read_items read (items_of c))))) [
      | inl e ↦
          let same : out' ≡ out = ground (arith, rw e at h) in
          subst (Chosen read le (c ∷ cs)) same (record {
            candidate = c;
            listed = mem-cons_self;
            there = ground arith;
            full = ground (arith, sort-length le (read_items read (items_of c)));
            entries = sort-perm le (read_items read (items_of c));
            ordered = sort-IsSorted le total trans (read_items read (items_of c));
          })
      | inr e ↦
          let chosen = first_read-Chosen read le total trans cs (rw e at h) in
          record {
            candidate = chosen.candidate;
            listed = mem-cons_of_mem c chosen.listed;
            there = chosen.there;
            full = chosen.full;
            entries = chosen.entries;
            ordered = chosen.ordered;
          }
    ]

abbrev pub channel_le : LanToggleXChannel → LanToggleXChannel → Bool
channel_le a b = leb a.channel b.channel

abbrev pub light_le : LanLightState → LanLightState → Bool
light_le a b = leb a.channel b.channel

-- The channels that are found are the entries of a candidate that is there and has one, in the
-- order of their numbers.
pub extract_lan_toggle_x-Chosen :
    (parse_number : Value → Number) (resp : Value) {channels : List LanToggleXChannel}
    → extract_lan_toggle_x parse_number resp ≡ some channels
    → Chosen (togglex_entry parse_number) channel_le (togglex_candidates resp) channels
unfolding extract_lan_toggle_x
extract_lan_toggle_x-Chosen parse_number resp h =
    first_read-Chosen (togglex_entry parse_number) channel_le (λ x y. ground arith)
      (λ x y z p q. ground arith) (togglex_candidates resp) h

-- The lights that are found are the entries of a candidate that is there and has one, in the order
-- of their channels.
pub extract_lan_light-Chosen :
    (parse_number : Value → Number) (resp : Value) {lights : List LanLightState}
    → extract_lan_light parse_number resp ≡ some lights
    → Chosen (light_entry parse_number) light_le (light_candidates resp) lights
unfolding extract_lan_light
extract_lan_light-Chosen parse_number resp h =
    first_read-Chosen (light_entry parse_number) light_le (λ x y. ground arith)
      (λ x y z p q. ground arith) (light_candidates resp) h
