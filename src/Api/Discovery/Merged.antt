-- ===== src/Api/Discovery/Merged.antt =====
-- The hosts that discover-hosts.ts finds, merged into those of the configuration.
use merossity.Prelude.{String}
use merossity.Prelude.{◌≡◌, refl, ◌∙◌, inl, inr, false}
use merossity.Prelude.{none, [], ◌∷◌, arith, eq_iff}
use merossity.Prelude.{str_eq}
use merossity.Prelude.{Bool-cases, or_else}
use mathlib.Core.Path.{subst}
use merossity.Prelude.Maps.{Map, lookup, insert, lookup-insert}
use merossity.Cloud.Login.{DeviceHost}
use merossity.Api.Discovery.{merge_hosts}

-- No uuid has two entries.
unfoldable pub Distinct : Map DeviceHost → Type 0
Distinct [] = Unit
Distinct ((u, entry) ∷ found) = (lookup u found ≡ none) × Distinct found

pub insert-Distinct :
    (uuid : String) (new : DeviceHost) (found : Map DeviceHost)
    → Distinct found
    → Distinct (insert uuid new found)
unfolding Distinct insert lookup
insert-Distinct uuid new [] h = (refl, tt)
insert-Distinct uuid new ((u, entry) ∷ found) h = elim (Bool-cases (str_eq u uuid)) [
  | inl e ↦ rw e h
  | inr e ↦
      let other : str_eq uuid u ≡ false = ground (arith, eq_iff u uuid, eq_iff uuid u) in
      rw e (rw (lookup-insert uuid u new found, other) (h.0), insert-Distinct uuid new found (h.1))
]

-- What is merged stands over what is there.
pub merge_hosts-lookup :
    (uuid : String) (found hosts : Map DeviceHost)
    → Distinct found
    → lookup uuid (merge_hosts hosts found) ≡ or_else (lookup uuid found) (lookup uuid hosts)
unfolding Distinct merge_hosts lookup
merge_hosts-lookup uuid [] hosts h = refl
merge_hosts-lookup uuid ((u, entry) ∷ found) hosts h =
    let rest = merge_hosts-lookup uuid found (insert u entry hosts) (h.1) in
    let there = lookup-insert u uuid entry hosts in
    elim (Bool-cases (str_eq u uuid)) [
      | inl e ↦
          let same : u ≡ uuid = ground (arith, eq_iff u uuid) in
          let gone : lookup uuid found ≡ none = subst (λ k. lookup k found ≡ none) same (h.0) in
          rw e (rest ∙ (rw (gone, there, e) refl))
      | inr e ↦ rw e (rest ∙ (rw (there, e) refl))
    ]
