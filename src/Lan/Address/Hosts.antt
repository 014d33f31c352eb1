-- ===== src/Lan/Address/Hosts.antt =====
-- Round trips of addresses, and the hosts of a range.
use merossity.Prelude.{ℕ, ◌^◌, ◌<◌}
use merossity.Prelude.{◌≡◌}
use merossity.Prelude.{Option, some, List, [], ◌∷◌, arith}
use merossity.Prelude.Results.{ok}
use merossity.Lan.Address.{ip_to_int, int_to_ip}

-- An address printed and read again is the same.
pub ip_to_int-int_to_ip : (n : ℕ) → n < 2 ^ 32 → ip_to_int (int_to_ip n) ≡ ok n
unfolding ip_to_int int_to_ip
ip_to_int-int_to_ip n h = ground arith

-- What is read as an address has four bytes, lies below 2^32, and prints as it was.
pub int_to_ip-ip_to_int :
    (parts : List (Option ℕ)) {n : ℕ}
    → ip_to_int parts ≡ ok n
    → (n < 2 ^ 32) × (int_to_ip n ≡ parts)
unfolding ip_to_int int_to_ip
int_to_ip-ip_to_int (some a ∷ some b ∷ some c ∷ some d ∷ []) h = ground arith
int_to_ip-ip_to_int _ h = cc
