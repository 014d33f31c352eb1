-- ===== src/Poller/Keys.antt =====
-- Lists of keys without repetition: the keys of the maps of promises and the set `resolving` of
-- packages/core/src/api/state-poller.ts.
use merossity.Prelude.{String}
use merossity.Prelude.{◌≡◌, refl, true, false}
use merossity.Prelude.{List, [], ◌∷◌, ◌++◌, arith, eq_iff, eq_refl}
use merossity.Prelude.{str_eq}
use merossity.Poller.Service.{has_key, remove_key}

-- No key stands twice.
abbrev pub IsDistinct : List String → Type 0
IsDistinct [] = Unit
IsDistinct (k ∷ ks) = (has_key k ks ≡ false) × IsDistinct ks

has_key-append :
    (k u : String) (ks : List String)
    → has_key k ks ≡ false
    → str_eq k u ≡ false
    → has_key k (ks ++ u ∷ []) ≡ false
has_key-append k u [] h e = ground (arith, eq_iff k u, eq_iff u k)
has_key-append k u (j ∷ ks) h e = ground (arith, has_key-append k u ks)

pub IsDistinct-append :
    (u : String) (ks : List String)
    → has_key u ks ≡ false
    → IsDistinct ks
    → IsDistinct (ks ++ u ∷ [])
IsDistinct-append u [] h d = (refl, tt)
IsDistinct-append u (k ∷ ks) h d =
    (has_key-append k u ks d.0 (ground arith), IsDistinct-append u ks (ground arith) d.1)

has_key-remove_key :
    (k u : String) (ks : List String) → has_key k ks ≡ false → has_key k (remove_key u ks) ≡ false
has_key-remove_key k u [] h = refl
has_key-remove_key k u (j ∷ ks) h = ground (arith, has_key-remove_key k u ks)

pub IsDistinct-remove_key :
    (u : String) (ks : List String) → IsDistinct ks → IsDistinct (remove_key u ks)
IsDistinct-remove_key u [] d = tt
IsDistinct-remove_key u (k ∷ ks) d =
    ground (arith, has_key-remove_key k u ks, IsDistinct-remove_key u ks)

pub has_key-remove_key_self : (u : String) (ks : List String) → has_key u (remove_key u ks) ≡ false
has_key-remove_key_self u [] = refl
has_key-remove_key_self u (k ∷ ks) = ground (arith, has_key-remove_key_self u ks)

pub has_key-append_self : (u : String) (ks : List String) → has_key u (ks ++ u ∷ []) ≡ true
has_key-append_self u [] = ground (arith, eq_refl u)
has_key-append_self u (k ∷ ks) = ground (arith, has_key-append_self u ks)
