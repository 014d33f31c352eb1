-- ===== src/Tests/Addresses.antt =====
-- Addresses of packages/core/src/meross/lan/ping-sweep.ts, worked out.
use merossity.Prelude.{ℕ}
use merossity.Prelude.{◌≡◌, refl}
use merossity.Prelude.{Option, some, List, [], ◌∷◌, arith}
use merossity.Lan.Address.{ip_to_int, int_to_ip}
use merossity.Prelude.Results.{ok}
use merossity.Lan.Address.{netmask_to_prefix}
use merossity.Lan.Address.Masks.{netmask_to_prefix-mask}

abbrev router_parts : List (Option ℕ)
router_parts = some 192 ∷ some 168 ∷ some 1 ∷ some 1 ∷ []

abbrev router : ℕ
router = 3232235777

ip_to_int-router : ip_to_int router_parts ≡ ok router
unfolding ip_to_int
ip_to_int-router = refl

netmask_to_prefix-mask_example : netmask_to_prefix (int_to_ip 4294967040) ≡ ok 24
netmask_to_prefix-mask_example = netmask_to_prefix-mask 24 (omega arith)
