-- ===== src/Base/Tests.antt =====
-- Boolean tests, the conditional, case lemmas, and the interface of keys with an equality test.
use Prim.Native.Nat.{ℕ, compare, Ordering}
use Prim.Native.String.{String, compare as compare_str}
use mathlib.Core.Path.{◌≡◌, refl}
use mathlib.Core.Logic.{◌≢◌, ◌↔◌, ◌⊎◌, inl, inr}
use mathlib.Core.Bool.{Bool, true, false, ◌&&◌, ◌||◌}
use mathlib.Core.Option.{Option, none, some}
use native.Mathlib.Omega.{arith}
use text.Mathlib.Text.{is_lt, ◌==◌ as str_eq}
use text.Mathlib.TextEquality.{eq_iff}

abbrev pub ltb : ℕ → ℕ → Bool
ltb a b = elim (compare a b) [ Ordering.lt ↦ true | _ ↦ false ]

abbrev pub leb : ℕ → ℕ → Bool
leb a b = elim (compare a b) [ Ordering.gt ↦ false | _ ↦ true ]

abbrev pub nat_beq : ℕ → ℕ → Bool
nat_beq a b = elim (compare a b) [ Ordering.eq ↦ true | _ ↦ false ]

infix 1 if◌then◌else◌
abbrev pub if◌then◌else◌ {ℓ} : {A : Type ℓ} → Bool → A → A → A
if true then x else y = x
if false then x else y = y

pub nat_beq_iff : (a b : ℕ) → (nat_beq a b ≡ true) ↔ (a ≡ b)
nat_beq_iff a b = ground arith

-- To split on a computed value and keep the equation.
pub Bool-cases : (b : Bool) → (b ≡ true) ⊎ (b ≡ false)
Bool-cases true = inl refl
Bool-cases false = inr refl

pub and-left : (a b : Bool) → (a && b) ≡ true → a ≡ true
and-left a b h = ground arith

pub and-right : (a b : Bool) → (a && b) ≡ true → b ≡ true
and-right a b h = ground arith

pub or-cases : (a b : Bool) → (a || b) ≡ true → (a ≡ true) ⊎ (b ≡ true)
or-cases true b h = inl refl
or-cases false b h = inr h

pub or-left : (a b : Bool) → a ≡ true → (a || b) ≡ true
or-left a b h = ground arith

pub or-right : (a b : Bool) → b ≡ true → (a || b) ≡ true
or-right a b h = ground arith

pub Option-cases {ℓ} : {A : Type ℓ} (o : Option A) → (o ≡ none) ⊎ ((a : A) × (o ≡ some a))
Option-cases none = inl refl
Option-cases (some a) = inr (a, refl)

-- A type with Rust's `PartialEq` and `Ord`. Only the law of the equality test is assumed: the
-- order decides the positions in a map, and no theorem here rests on its laws.
pub record Key {ℓ} (K : Type ℓ) : Type ℓ where
  pub beq : K → K → Bool
  pub before : K → K → Bool
  pub beq_iff : (a b : K) → (beq a b ≡ true) ↔ (a ≡ b)

infix 50 ◌==◌
abbrev pub ◌==◌ {ℓ} : {K : Type ℓ} ⦃o : Key K⦄ → K → K → Bool
◌==◌ ⦃o⦄ = o.beq

module _ {ℓ} {K : Type ℓ} ⦃o : Key K⦄ where
  pub ==_refl : (a : K) → (a == a) ≡ true
  ==_refl a = (o.beq_iff a a).1 refl

  pub ==_eq : {a b : K} → (a == b) ≡ true → a ≡ b
  ==_eq {a} {b} h = (o.beq_iff a b).0 h

  pub ==_ne : (a b : K) → a ≢ b → (a == b) ≡ false
  ==_ne a b h = ground (arith, o.beq_iff a b)

-- A string is compared by its bytes, as in Rust.
instance abbrev pub string_key : Key String
string_key = record { beq = str_eq; before = λ s t. is_lt (compare_str s t); beq_iff = eq_iff }

instance abbrev pub nat_key : Key ℕ
nat_key = record { beq = nat_beq; before = ltb; beq_iff = nat_beq_iff }

-- A pair is compared field by field, the first one first.
abbrev pair_beq {ℓ κ} : {A : Type ℓ} {B : Type κ} (a : Key A) (b : Key B) → A × B → A × B → Bool
pair_beq a b p q = a.beq p.0 q.0 && b.beq p.1 q.1

pub pair_beq_iff {ℓ κ} :
    {A : Type ℓ} {B : Type κ} (a : Key A) (b : Key B) (p q : A × B)
    → (pair_beq a b p q ≡ true) ↔ (p ≡ q)
pair_beq_iff a b (x, y) (z, w) =
    (ground (arith, a.beq_iff x z, b.beq_iff y w), ground (arith, a.beq_iff x z, b.beq_iff y w))

instance abbrev pub pair_key {ℓ κ} : {A : Type ℓ} {B : Type κ} ⦃a : Key A⦄ ⦃b : Key B⦄ → Key (A × B)
pair_key ⦃a⦄ ⦃b⦄ = record {
  beq = pair_beq a b;
  before = λ p q. a.before p.0 q.0 || (a.beq p.0 q.0 && b.before p.1 q.1);
  beq_iff = pair_beq_iff a b;
}
