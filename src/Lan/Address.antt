-- ===== src/Lan/Address.antt =====
-- IPv4 addresses and CIDR ranges of packages/core/src/meross/lan/ping-sweep.ts and discovery.ts,
-- which has the same two conversions. An address is a number below 2^32, the unsigned reading of
-- the 32 bits on which JavaScript's operators work. A text is given as the numbers that `split`
-- and `parseInt` make of its parts, `none` for NaN. The bit operations on these numbers are
-- written as the arithmetic that they are there: the bytes do not overlap, and a mask of `prefix`
-- ones above zeros cuts off the remainder by 2^(32 - prefix).
use merossity.Prelude.{ℕ, zero, suc, ◌+◌, ◌-◌, ◌*◌, ◌/◌, ◌%◌, ◌^◌}
use merossity.Prelude.{Bool, true, false}
use merossity.Prelude.{◌&&◌, ◌||◌, Option, none, some, List, [], ◌∷◌}
use merossity.Prelude.{ltb, leb, ◌==◌, if◌then◌else◌}
pub mod Hosts
pub mod Masks
use merossity.Prelude.Results.{Result, ok, err, ◌>>=◌}

-- `((a << 24) | (b << 16) | (c << 8) | d) >>> 0` for four bytes; an error for all else.
unfoldable pub ip_to_int : List (Option ℕ) → Result ℕ
ip_to_int (some a ∷ some b ∷ some c ∷ some d ∷ []) =
    if leb a 255 && (leb b 255 && (leb c 255 && leb d 255))
    then ok (a * 2 ^ 24 + b * 2 ^ 16 + c * 2 ^ 8 + d)
    else err "Invalid IPv4"
ip_to_int _ = err "Invalid IPv4"

-- `n >>> k & 255`, for each of the four bytes.
unfoldable pub int_to_ip : ℕ → List (Option ℕ)
int_to_ip n =
    some (n / 2 ^ 24 % 256) ∷ some (n / 2 ^ 16 % 256) ∷ some (n / 2 ^ 8 % 256) ∷ some (n % 256) ∷ []

pub record Cidr : Type 0 where
  pub network : ℕ
  pub broadcast : ℕ
  pub prefix : ℕ

-- The number of addresses of a range.
abbrev pub size : ℕ → ℕ
size prefix = 2 ^ (32 - prefix)

-- `base & mask`, and the network with the mask's complement.
unfoldable pub cidr_of : (base prefix : ℕ) → Cidr
cidr_of base prefix =
    let network = base / size prefix * size prefix in
    record { network = network; broadcast = network + (size prefix - 1); prefix = prefix }

-- `parseCidr`, given the parts of the address and the number behind the slash.
unfoldable pub parse_cidr : List (Option ℕ) → Option ℕ → Result Cidr
unfolding ip_to_int cidr_of
parse_cidr ip none = err "Invalid CIDR"
parse_cidr ip (some prefix) =
    if ltb 32 prefix then err "Invalid CIDR" else do base ← ip_to_int ip; ok (cidr_of base prefix)

-- The loop from `n` to the broadcast address, which is left out; `count` addresses are left.
hosts_from : (count n : ℕ) → List ℕ
hosts_from zero n = []
hosts_from (suc count) n = n ∷ hosts_from count (n + 1)

unfoldable pub list_hosts : Cidr → List ℕ
unfolding hosts_from
list_hosts c =
    if leb 31 c.prefix then [] else hosts_from (c.broadcast - (c.network + 1)) (c.network + 1)

-- Whether a network mask is ones above zeros, and how many: the loop over the bits, from the
-- highest down, `left` of them still to come.
prefix_loop : (left n : ℕ) → (seen_zero : Bool) → (bits : ℕ) → Result ℕ
prefix_loop zero n seen_zero bits = ok bits
prefix_loop (suc i) n seen_zero bits = elim (n / 2 ^ i % 2 == 1) [
  | true ↦ elim seen_zero [
    | true ↦ err "Non-contiguous netmask"
    | false ↦ prefix_loop i n false (bits + 1)
  ]
  | false ↦ prefix_loop i n true bits
]

unfoldable pub netmask_to_prefix : List (Option ℕ) → Result ℕ
unfolding prefix_loop ip_to_int
netmask_to_prefix mask = do n ← ip_to_int mask; prefix_loop 32 n false 0

unfoldable pub is_private_ipv4 : List (Option ℕ) → Bool
unfolding ip_to_int
is_private_ipv4 ip = elim (ip_to_int ip) [
  | err _ ↦ false
  | ok n ↦
      let a = n / 2 ^ 24 % 256 in
      let b = n / 2 ^ 16 % 256 in
      a == 10 || ((a == 172 && (leb 16 b && leb b 31)) || (a == 192 && b == 168))
]
