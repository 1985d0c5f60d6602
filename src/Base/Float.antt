-- ===== src/Base/Float.antt =====
-- Rust's `f64`, as the operations that the code calls. Nothing is assumed of them unless a theorem says so:
-- they round, and a comparison with NaN is false.
use vsm_agent_kernel.Base.{ℕ, String, Bool, Option}

pub record Float {ℓ} (F : Type ℓ) : Type ℓ where
  -- The literal `m.d`, as its digits without the point and the number of digits behind it.
  pub literal : ℕ → ℕ → F
  pub negate : F → F
  pub of_nat : ℕ → F
  -- What `Iterator::sum` starts from.
  pub empty_sum : F
  pub plus : F → F → F
  pub minus : F → F → F
  pub times : F → F → F
  pub divide : F → F → F
  pub powi : F → ℕ → F
  pub at_least : F → F → Bool
  pub less : F → F → Bool
  pub equal : F → F → Bool
  pub larger : F → F → F
  pub parse : String → Option F

module _ {ℓ} {F : Type ℓ} ⦃f : Float F⦄ where
  abbrev pub naught : F
  naught = f.literal 0 0
