-- ===== src/Base/Chars.antt =====
-- The characters of a text by their numbers, the tests on texts that the code makes of them, and `join`.
use Prim.Native.Char.{code}
use Prim.Native.String.{[] as no_text, ◌∷◌ as char_then, ◌++◌ as append_text}
use vsm_agent_kernel.Base.{
  ℕ, ◌+◌, String, Bool, true, false, not, ◌&&◌, ◌||◌, List, [], ◌∷◌, leb, nat_beq, if◌then◌else◌,
}

unfoldable pub codes : String → List ℕ
codes no_text = []
codes (char_then c s) = code c ∷ codes s

-- `char::is_whitespace`.
unfoldable pub is_whitespace : ℕ → Bool
is_whitespace c =
    (leb 9 c && leb c 13)
    || nat_beq c 32
    || nat_beq c 133
    || nat_beq c 160
    || nat_beq c 5760
    || (leb 8192 c && leb c 8202)
    || nat_beq c 8232
    || nat_beq c 8233
    || nat_beq c 8239
    || nat_beq c 8287
    || nat_beq c 12288

-- `split([',', '|'])`, and the count of the parts that `trim` does not leave empty. The flag says
-- whether the part under way has a character that is not white.
unfoldable pub count_parts : Bool → List ℕ → ℕ
unfolding is_whitespace
count_parts filled [] = if filled then 1 else 0
count_parts filled (c ∷ cs) =
    let closed = (if filled then 1 else 0) + count_parts false cs in
    let longer = count_parts (filled || not (is_whitespace c)) cs in
    if nat_beq c 44 || nat_beq c 124 then closed else longer

unfoldable pub lower_case : ℕ → ℕ
lower_case c = if leb 65 c && leb c 90 then c + 32 else c

unfoldable pub same_letters : List ℕ → List ℕ → Bool
unfolding lower_case
same_letters [] [] = true
same_letters [] (d ∷ ds) = false
same_letters (c ∷ cs) [] = false
same_letters (c ∷ cs) (d ∷ ds) = nat_beq (lower_case c) (lower_case d) && same_letters cs ds

-- `str::eq_ignore_ascii_case`.
unfoldable pub eq_ignore_ascii_case : String → String → Bool
unfolding codes same_letters
eq_ignore_ascii_case s t = same_letters (codes s) (codes t)

-- `slice::join` on texts.
unfoldable pub join : String → List String → String
join separator [] = ""
join separator (s ∷ []) = s
join separator (s ∷ t ∷ rest) = append_text s (append_text separator (join separator (t ∷ rest)))
