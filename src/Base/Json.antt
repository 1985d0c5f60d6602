-- ===== src/Base/Json.antt =====
-- `serde_json::Value`, by the accessors that the code calls. Nothing is assumed of them.
use vsm_agent_kernel.Base.{ℕ, String, Option, none, some, List}

pub record Json {ℓ} (V : Type ℓ) : Type ℓ where
  pub get_field : V → String → Option V
  pub as_str : V → Option String
  pub as_u64 : V → Option ℕ
  pub as_array : V → Option (List V)

-- `and_then`.
abbrev pub and_then {ℓ κ} : {A : Type ℓ} {B : Type κ} → Option A → (A → Option B) → Option B
and_then none next = none
and_then (some a) next = next a

-- `or_else` with a value at hand.
abbrev pub or_else {ℓ} : {A : Type ℓ} → Option A → Option A → Option A
or_else none other = other
or_else (some a) other = some a

module _ {V : Type 0} ⦃j : Json V⦄ where
  abbrev pub text_field : V → String → Option String
  text_field value key = and_then (j.get_field value key) j.as_str

  abbrev pub number_field : V → String → Option ℕ
  number_field value key = and_then (j.get_field value key) j.as_u64
