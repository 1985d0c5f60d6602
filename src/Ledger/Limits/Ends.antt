-- ===== src/Ledger/Limits/Ends.antt =====
-- What the limits of the ledger's reads (crates/vsm-ledger/src/memory.rs) keep, and what `max_by` finds.
use mathlib.Core.List.{append-nil}
use mathlib.Core.Option.{some-injective}
use vsm_agent_kernel.Base.{
  ℕ, ◌-◌, ◌≤◌, ◌≡◌, ◌≢◌, ◌⊎◌, inl, inr, refl, ap, subst, Option, none, some, List, [], ◌∷◌, ◌++◌,
  arith, Bool-cases, All, length, length-append, ◌&&◌, ltb, leb,
}
use vsm_agent_kernel.Ledger.Limits.{drop, truncate, newest, limited, max_by_from, max_by}

module _ {ℓ} {A : Type ℓ} where
  -- The part of a list that a limit on its end keeps: no more than the limit, and less than the limit only
  -- if nothing is left out.
  pub record KeepsNewest (limit : Option ℕ) (all kept : List A) : Type ℓ where
    pub older : List A
    pub split : older ++ kept ≡ all
    pub unlimited : limit ≡ none → length older ≡ 0
    pub limited_to : (n : ℕ) → limit ≡ some n → length kept ≤ n
    pub full : (n : ℕ) → limit ≡ some n → length older ≢ 0 → length kept ≡ n

  -- The same at the front, where the limit 0 is no limit.
  pub record KeepsFirst (limit : ℕ) (all kept : List A) : Type ℓ where
    pub later : List A
    pub split : kept ++ later ≡ all
    pub unlimited : limit ≡ 0 → length later ≡ 0
    pub limited_to : limit ≢ 0 → length kept ≤ limit
    pub full : length later ≢ 0 → length kept ≡ limit

  drop-split :
      (n : ℕ) (xs : List A)
      → n ≤ length xs
      → (older : List A) × (older ++ drop n xs ≡ xs) × (length older ≡ n)
  drop-split n [] h = ([], refl, omega arith)
  drop-split n (x ∷ xs) h = elim (Bool-cases (leb n 0)) [
    | inl e ↦ rw e ([], refl, ground arith)
    | inr e ↦
        let (older, s, k) = drop-split (n - 1) xs (ground arith) in
        rw e (x ∷ older, ap (λ ys. x ∷ ys) s, ground arith)
  ]

  truncate-split :
      (n : ℕ) (xs : List A)
      → n ≤ length xs
      → (later : List A) × (truncate n xs ++ later ≡ xs) × (length (truncate n xs) ≡ n)
  truncate-split n [] h = ([], refl, omega arith)
  truncate-split n (x ∷ xs) h = elim (Bool-cases (leb n 0)) [
    | inl e ↦ rw e (x ∷ xs, refl, ground arith)
    | inr e ↦
        let (later, s, k) = truncate-split (n - 1) xs (ground arith) in
        rw e (later, ap (λ ys. x ∷ ys) s, ground arith)
  ]

  pub newest-KeepsNewest : (limit : Option ℕ) (xs : List A) → KeepsNewest limit xs (newest limit xs)
  newest-KeepsNewest none xs = record {
    older = [];
    split = refl;
    unlimited = λ h. refl;
    limited_to = λ n h. absurd (ground arith);
    full = λ n h k. absurd (ground arith);
  }
  newest-KeepsNewest (some limit) xs =
      let (older, s, k) = drop-split (length xs - limit) xs (omega arith) in
      let all = length-append older (drop (length xs - limit) xs) in
      let whole = ap length s in
      record {
        older = older;
        split = s;
        unlimited = λ h. absurd (ground arith);
        limited_to = λ n h. omega (arith, all, whole, k, some-injective limit n h);
        full = λ n h more. omega (arith, all, whole, k, some-injective limit n h, more);
      }

  pub limited-KeepsFirst : (limit : ℕ) (xs : List A) → KeepsFirst limit xs (limited limit xs)
  limited-KeepsFirst limit xs = elim (Bool-cases (ltb 0 limit && ltb limit (length xs))) [
    | inl e ↦
        let (later, s, k) = truncate-split limit xs (ground arith) in
        rw e (record {
          later = later;
          split = s;
          unlimited = λ h. absurd (ground arith);
          limited_to = λ h. omega (arith, k);
          full = λ h. k;
        })
    | inr e ↦ rw e (record {
      later = [];
      split = append-nil xs;
      unlimited = λ h. refl;
      limited_to = λ h. ground arith;
      full = λ h. absurd (h refl);
    })
  ]

module _ {A : Type 0} where
  abbrev pub Among : A → List A → Type 0
  Among a [] = ⊥
  Among a (x ∷ xs) = (x ≡ a) ⊎ Among a xs

  -- An element that no other one exceeds.
  pub record IsMaximum (key : A → ℕ) (xs : List A) (best : A) : Type 0 where
    pub member : Among best xs
    pub greatest : All (λ x. key x ≤ key best) xs

  skip_second : {b : A} (a x : A) (xs : List A) → Among b (a ∷ xs) → Among b (a ∷ x ∷ xs)
  skip_second a x xs (inl e) = inl e
  skip_second a x xs (inr m) = inr (inr m)

  max_by_from-IsMaximum :
      (key : A → ℕ) (best : A) (xs : List A) → IsMaximum key (best ∷ xs) (max_by_from key best xs)
  max_by_from-IsMaximum key best [] = record { member = inl refl; greatest = (omega arith, tt) }
  max_by_from-IsMaximum key best (x ∷ xs) = elim (Bool-cases (leb (key best) (key x))) [
    | inl e ↦
        let m = max_by_from-IsMaximum key x xs in
        rw e
          (record { member = inr m.member; greatest = (ground (arith, m.greatest.0), m.greatest) })
    | inr e ↦
        let m = max_by_from-IsMaximum key best xs in
        rw e (record {
          member = skip_second best x xs m.member;
          greatest = (m.greatest.0, (ground (arith, m.greatest.0), m.greatest.1));
        })
  ]

  pub max_by-IsMaximum :
      (key : A → ℕ) (xs : List A) (best : A) → max_by key xs ≡ some best → IsMaximum key xs best
  max_by-IsMaximum key [] best h = absurd (ground arith)
  max_by-IsMaximum key (x ∷ xs) best h =
      subst (λ r. IsMaximum key (x ∷ xs) r) (some-injective (max_by_from key x xs) best h)
        (max_by_from-IsMaximum key x xs)

  pub max_by-none : (key : A → ℕ) (xs : List A) → max_by key xs ≡ none → xs ≡ []
  max_by-none key [] h = refl
  max_by-none key (x ∷ xs) h = absurd (ground arith)
