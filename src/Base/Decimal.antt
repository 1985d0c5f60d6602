-- ===== src/Base/Decimal.antt =====
-- `to_string` of an unsigned number, `str::parse::<u64>`, and the minimum of a vector.
pub mod RoundTrip
use Prim.Native.Nat.{◌/◌, ◌%◌, ◌^◌}
use Prim.Native.String.{◌++◌ as append_text}
use vsm_agent_kernel.Base.{
  ℕ, zero, suc, ◌+◌, ◌-◌, ◌*◌, String, ◌&&◌, Option, none, some, List, [], ◌∷◌, ltb, leb, nat_beq,
  if◌then◌else◌,
}
use vsm_agent_kernel.Base.Bytes.{bytes}

abbrev pub digit : ℕ → String
digit d =
    if nat_beq d 0
    then "0"
    else if nat_beq d 1
    then "1"
    else if nat_beq d 2
    then "2"
    else if nat_beq d 3
    then "3"
    else if nat_beq d 4
    then "4"
    else if nat_beq d 5
    then "5"
    else if nat_beq d 6
    then "6"
    else if nat_beq d 7
    then "7"
    else if nat_beq d 8
    then "8"
    else "9"

-- A number below `rounds` has at most that many digits.
unfoldable pub digits : ℕ → ℕ → String
digits zero n = ""
digits (suc rounds) n =
    let front = append_text (digits rounds (n / 10)) (digit (n % 10)) in
    if ltb n 10 then digit n else front

unfoldable pub decimal : ℕ → String
unfolding digits
decimal n = digits (suc n) n

-- As `parse::<u32>`, up to `u64::MAX`.
unfoldable pub read_u64_digits : ℕ → List ℕ → Option ℕ
read_u64_digits value [] = some value
read_u64_digits value (b ∷ bs) =
    let next = value * 10 + (b - 48) in
    let rest = read_u64_digits next bs in
    if leb 48 b && leb b 57 then (if ltb next (2 ^ 64) then rest else none) else none

unfoldable pub read_u64_number : List ℕ → Option ℕ
unfolding read_u64_digits
read_u64_number [] = none
read_u64_number (b ∷ bs) = read_u64_digits 0 (b ∷ bs)

unfoldable pub read_u64_signed : List ℕ → Option ℕ
unfolding read_u64_number
read_u64_signed [] = none
read_u64_signed (b ∷ bs) = if nat_beq b 43 then read_u64_number bs else read_u64_number (b ∷ bs)

unfoldable pub parse_u64 : String → Option ℕ
unfolding bytes read_u64_signed
parse_u64 s = read_u64_signed (bytes s)

abbrev pub least : ℕ → ℕ → ℕ
least a b = if leb a b then a else b

abbrev pub greatest : ℕ → ℕ → ℕ
greatest a b = if leb a b then b else a

-- A cap that may be absent, and one more cap.
abbrev pub min_cap : Option ℕ → ℕ → ℕ
min_cap none c = c
min_cap (some cap) c = least cap c

-- `into_iter().min()`.
unfoldable pub minimum : List ℕ → Option ℕ
minimum [] = none
minimum (a ∷ as') = some (min_cap (minimum as') a)
