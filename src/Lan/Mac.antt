-- ===== src/Lan/Mac.antt =====
-- packages/core/src/meross/lan/mac.ts: one spelling of a MAC address. JavaScript gives the lower
-- case of a text.
use Prim.Native.Nat.{ℕ, zero, suc}
use Prim.Native.Char.{code}
use Prim.Native.String.{String, [], ◌∷◌}
use mathlib.Core.Bool.{Bool, true, false, ◌&&◌, ◌||◌}
use merossity.Prelude.{leb, ◌==◌, if◌then◌else◌, Option, none, some}
use merossity.Prelude.Texts.{trim}

-- A digit of base 16, in either case.
abbrev is_hex : ℕ → Bool
is_hex c = (leb 48 c && leb c 57) || (leb 97 c && leb c 102) || (leb 65 c && leb c 70)

-- `replaceAll('-', ':')`
dashes_to_colons : String → String
dashes_to_colons [] = []
dashes_to_colons (c ∷ s) =
    let rest = dashes_to_colons s in if code c == 45 then ":" ∷ rest else c ∷ rest

-- `replaceAll(':', '')`
drop_colons : String → String
drop_colons [] = []
drop_colons (c ∷ s) = let rest = drop_colons s in if code c == 58 then rest else c ∷ rest

-- `n` more pairs of digits, each after a colon or a dash.
more_pairs : ℕ → String → Bool
more_pairs zero [] = true
more_pairs (suc n) (s ∷ a ∷ b ∷ rest) =
    (code s == 58 || code s == 45) && is_hex (code a) && is_hex (code b) && more_pairs n rest
more_pairs _ _ = false

-- `MAC_RE`
is_mac : String → Bool
unfolding more_pairs
is_mac (a ∷ b ∷ rest) = is_hex (code a) && is_hex (code b) && more_pairs 5 rest
is_mac _ = false

-- `HEX12_RE`, for `n` digits.
all_hex : ℕ → String → Bool
all_hex zero [] = true
all_hex (suc n) (a ∷ rest) = is_hex (code a) && all_hex n rest
all_hex _ _ = false

-- `compact.match(/.{2}/g).join(':')` on an even number of digits.
join_pairs : String → String
join_pairs (a ∷ b ∷ []) = a ∷ b ∷ []
join_pairs (a ∷ b ∷ rest) = a ∷ b ∷ ":" ∷ join_pairs rest
join_pairs s = s

-- `none` where the source throws.
unfoldable pub normalize_mac : (lower_case : String → String) → String → Option String
unfolding dashes_to_colons drop_colons is_mac all_hex join_pairs
normalize_mac lower_case mac =
    let normalized = dashes_to_colons (lower_case (trim mac)) in
    let compact = drop_colons normalized in
    if is_mac normalized
    then some normalized
    else if all_hex 12 compact
    then some (join_pairs compact)
    else none
