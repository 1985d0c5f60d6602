-- ===== src/Base/Bytes.antt =====
-- Rust's `str::bytes`, the UTF-8 of a text, and `str::parse::<u32>`.
use Prim.Native.Nat.{◌/◌, ◌%◌, ◌^◌}
use Prim.Native.Char.{code}
use Prim.Native.String.{[] as no_text, ◌∷◌ as char_then}
use vsm_agent_kernel.Base.{
  ℕ, ◌+◌, ◌-◌, ◌*◌, String, ◌&&◌, Option, none, some, List, [], ◌∷◌, ◌++◌, ltb, leb, nat_beq,
  if◌then◌else◌,
}

-- The bytes of a character of the given number.
abbrev pub encode : ℕ → List ℕ
encode n =
    if ltb n 128
    then n ∷ []
    else if ltb n 2048
    then (192 + n / 64) ∷ (128 + n % 64) ∷ []
    else if ltb n 65536
    then (224 + n / 4096) ∷ (128 + (n / 64) % 64) ∷ (128 + n % 64) ∷ []
    else (240 + n / 262144) ∷ (128 + (n / 4096) % 64) ∷ (128 + (n / 64) % 64) ∷ (128 + n % 64) ∷ []

unfoldable pub bytes : String → List ℕ
bytes no_text = []
bytes (char_then c s) = encode (code c) ++ bytes s

-- The digits behind the value read so far; `none` at another byte and past `u32::MAX`.
unfoldable pub read_digits : ℕ → List ℕ → Option ℕ
read_digits value [] = some value
read_digits value (b ∷ bs) =
    let next = value * 10 + (b - 48) in
    let rest = read_digits next bs in
    if leb 48 b && leb b 57 then (if ltb next (2 ^ 32) then rest else none) else none

-- At least one digit.
unfoldable pub read_number : List ℕ → Option ℕ
unfolding read_digits
read_number [] = none
read_number (b ∷ bs) = read_digits 0 (b ∷ bs)

-- One plus sign may stand in front.
unfoldable pub read_signed : List ℕ → Option ℕ
unfolding read_number
read_signed [] = none
read_signed (b ∷ bs) = if nat_beq b 43 then read_number bs else read_number (b ∷ bs)

unfoldable pub parse_u32 : String → Option ℕ
unfolding bytes read_signed
parse_u32 s = read_signed (bytes s)
