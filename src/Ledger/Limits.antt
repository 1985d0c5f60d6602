-- ===== src/Ledger/Limits.antt =====
-- How the reads of crates/vsm-ledger/src/memory.rs limit what they return, and `Iterator::max_by`.
pub mod Ends
use vsm_agent_kernel.Base.{
  ℕ, ◌-◌, ◌&&◌, Option, none, some, List, [], ◌∷◌, ltb, leb, length, if◌then◌else◌,
}

-- `events.split_off(events.len().saturating_sub(limit))`, and `records.truncate(limit)`.
abbrev pub drop {ℓ} : {A : Type ℓ} → ℕ → List A → List A
drop n [] = []
drop n (x ∷ xs) = let rest = drop (n - 1) xs in if leb n 0 then x ∷ xs else rest

abbrev pub truncate {ℓ} : {A : Type ℓ} → ℕ → List A → List A
truncate n [] = []
truncate n (x ∷ xs) = let rest = truncate (n - 1) xs in if leb n 0 then [] else x ∷ rest

abbrev pub newest {ℓ} : {A : Type ℓ} → Option ℕ → List A → List A
newest none xs = xs
newest (some limit) xs = drop (length xs - limit) xs

-- `if limit > 0 && records.len() > limit`.
abbrev pub limited {ℓ} : {A : Type ℓ} → ℕ → List A → List A
limited limit xs = if ltb 0 limit && ltb limit (length xs) then truncate limit xs else xs

-- `max_by`, which keeps the last one of those that compare as equal.
abbrev pub max_by_from {ℓ} : {A : Type ℓ} → (A → ℕ) → A → List A → A
max_by_from key best [] = best
max_by_from key best (x ∷ xs) = max_by_from key (if leb (key best) (key x) then x else best) xs

abbrev pub max_by {ℓ} : {A : Type ℓ} → (A → ℕ) → List A → Option A
max_by key [] = none
max_by key (x ∷ xs) = some (max_by_from key x xs)
