-- ===== src/Cloud/Domains.antt =====
-- packages/core/src/meross/cloud/http.ts: the domains of the cloud, without a scheme and without
-- slashes at the end, and the ones that a login tries.
use Prim.Native.Char.{code}
use Prim.Native.String.{String, [], ◌∷◌}
use mathlib.Core.Bool.{◌&&◌}
use merossity.Prelude.{Option, none, some}
use merossity.Prelude.{◌==◌, str_eq, if◌then◌else◌}

-- What follows a prefix.
after_prefix : String → String → Option String
after_prefix s [] = some s
after_prefix [] (c ∷ p) = none
after_prefix (d ∷ s) (c ∷ p) =
    let rest = after_prefix s p in if code d == code c then rest else none

drop_scheme : String → String
unfolding after_prefix
drop_scheme s = elim (after_prefix s "https://") [
  | some rest ↦ rest
  | none ↦ elim (after_prefix s "http://") [ some rest ↦ rest | none ↦ s ]
]

-- `replace(/\/+$/, '')`
drop_slashes : String → String
drop_slashes [] = []
drop_slashes (c ∷ s) =
    let rest = drop_slashes s in if str_eq rest "" && code c == 47 then [] else c ∷ rest

unfoldable pub strip_scheme : String → String
unfolding drop_scheme drop_slashes
strip_scheme domain = drop_slashes (drop_scheme domain)
