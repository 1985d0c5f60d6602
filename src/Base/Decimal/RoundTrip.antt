-- ===== src/Base/Decimal/RoundTrip.antt =====
-- A number that is written in decimal is read back.
use Prim.Native.Nat.{◌/◌, ◌%◌, ◌^◌}
use Prim.Native.Char.{code}
use Prim.Native.String.append
use Prim.Native.String.{[] as no_text, ◌∷◌ as char_then, ◌++◌ as append_text}
use vsm_agent_kernel.Base.{
  ℕ, zero, suc, ◌+◌, ◌-◌, ◌*◌, ◌≤◌, ◌<◌, ◌≡◌, refl, sym, ap, ◌∙◌, String, false, some, List, [],
  ◌∷◌, ◌++◌, ltb, nat_beq, arith, Bool-cases, inl, inr,
}
use mathlib.Core.List.{append_assoc, append-nil}
use vsm_agent_kernel.Base.Bytes.{bytes, encode}
use vsm_agent_kernel.Base.Decimal.{
  digit, digits, decimal, read_u64_digits, read_u64_number, read_u64_signed, parse_u64,
}

bytes-append : (s t : String) → bytes (append_text s t) ≡ bytes s ++ bytes t
unfolding bytes
bytes-append no_text t = ap bytes (λ i. append.nil t i)
bytes-append (char_then c s) t =
    ap bytes (λ i. append.cons c s t i)
    ∙ ap (λ bs. encode (code c) ++ bs) (bytes-append s t)
    ∙ sym (append_assoc (encode (code c)) (bytes s) (bytes t))

bytes-digit : (d : ℕ) → d < 10 → bytes (digit d) ≡ (48 + d) ∷ []
unfolding bytes
bytes-digit zero h = refl
bytes-digit (suc zero) h = refl
bytes-digit (suc (suc zero)) h = refl
bytes-digit (suc (suc (suc zero))) h = refl
bytes-digit (suc (suc (suc (suc zero)))) h = refl
bytes-digit (suc (suc (suc (suc (suc zero))))) h = refl
bytes-digit (suc (suc (suc (suc (suc (suc zero)))))) h = refl
bytes-digit (suc (suc (suc (suc (suc (suc (suc zero))))))) h = refl
bytes-digit (suc (suc (suc (suc (suc (suc (suc (suc zero)))))))) h = refl
bytes-digit (suc (suc (suc (suc (suc (suc (suc (suc (suc zero))))))))) h = refl
bytes-digit (suc (suc (suc (suc (suc (suc (suc (suc (suc (suc d)))))))))) h = absurd (omega arith)

-- One more digit behind the value read so far.
read-digit :
    (value d : ℕ) (bs : List ℕ)
    → d < 10
    → value * 10 + d < 2 ^ 64
    → read_u64_digits value ((48 + d) ∷ bs) ≡ read_u64_digits (value * 10 + d) bs
unfolding read_u64_digits
read-digit value d bs h k = let e : 48 + d - 48 ≡ d = omega arith in rw e (ground arith)

digits_one : (rounds n : ℕ) → n < 10 → digits (suc rounds) n ≡ digit n
unfolding digits
digits_one rounds n h = ground arith

digits_more :
    (rounds n : ℕ)
    → 10 ≤ n
    → bytes (digits (suc rounds) n) ≡ bytes (digits rounds (n / 10)) ++ (48 + n % 10) ∷ []
unfolding digits
digits_more rounds n h =
    let e : ltb n 10 ≡ false = ground arith in
    rw e (
      bytes-append (digits rounds (n / 10)) (digit (n % 10))
      ∙ ap (λ bs. bytes (digits rounds (n / 10)) ++ bs) (bytes-digit (n % 10) (omega arith)))

zero_first : (n : ℕ) → 0 * 10 + n ≡ n
zero_first n = omega arith

read-digits :
    (rounds n : ℕ) (bs : List ℕ)
    → n < rounds
    → n < 2 ^ 64
    → read_u64_digits 0 (bytes (digits rounds n) ++ bs) ≡ read_u64_digits n bs
read-digits zero n bs h k = absurd (omega arith)
read-digits (suc rounds) n bs h k = elim (Bool-cases (ltb n 10)) [
  | inl e ↦
      let small : n < 10 = ground arith in
      rw (digits_one rounds n small, bytes-digit n small)
        (read-digit 0 n bs small (omega arith) ∙ ap (λ m. read_u64_digits m bs) (zero_first n))
  | inr e ↦
      let large : 10 ≤ n = ground arith in
      let whole : n / 10 * 10 + n % 10 ≡ n = omega arith in
      rw (digits_more rounds n large, append_assoc)
        (read-digits rounds (n / 10) ((48 + n % 10) ∷ bs) (omega arith) (omega arith)
          ∙ read-digit (n / 10) (n % 10) bs (omega arith) (omega arith)
          ∙ ap (λ m. read_u64_digits m bs) whole)
]

-- The text starts with a digit.
first-digits :
    (rounds n : ℕ)
    → n < rounds
    → (d : ℕ) × (rest : List ℕ) × (bytes (digits rounds n) ≡ (48 + d) ∷ rest)
first-digits zero n h = absurd (omega arith)
first-digits (suc rounds) n h = elim (Bool-cases (ltb n 10)) [
  | inl e ↦
      let small : n < 10 = ground arith in
      (n, [], ap bytes (digits_one rounds n small) ∙ bytes-digit n small)
  | inr e ↦
      let large : 10 ≤ n = ground arith in
      let (d, rest, p) = first-digits rounds (n / 10) (omega arith) in
      (
        d,
        rest ++ (48 + n % 10) ∷ [],
        digits_more rounds n large ∙ ap (λ bs. bs ++ (48 + n % 10) ∷ []) p,
      )
]

read_signed-digit :
    (bs : List ℕ) (d : ℕ) (rest : List ℕ)
    → bs ≡ (48 + d) ∷ rest
    → read_u64_signed bs ≡ read_u64_digits 0 bs
unfolding read_u64_signed read_u64_number
read_signed-digit bs d rest h =
    let plus : nat_beq (48 + d) 43 ≡ false = ground arith in rw (h, plus)

pub parse_u64-decimal : (n : ℕ) → n < 2 ^ 64 → parse_u64 (decimal n) ≡ some n
unfolding parse_u64 decimal read_u64_digits
parse_u64-decimal n h =
    let (d, rest, p) = first-digits (suc n) n (omega arith) in
    read_signed-digit (bytes (digits (suc n) n)) d rest p
    ∙ ap (read_u64_digits 0) (sym (append-nil (bytes (digits (suc n) n))))
    ∙ read-digits (suc n) n [] (omega arith) h
