-- ===== src/Base/Sorting.antt =====
-- `slice::sort_by`: the stable sort of the Rust standard library, as insertion sort, and what a stable
-- sort is: the result is in order, and the elements of each key stand as they stood.
use vsm_agent_kernel.Base.{
  ℕ, suc, ◌≡◌, refl, Bool, true, false, List, [], ◌∷◌, arith, nat_beq, leb, length, retain,
  Bool-cases, inl, inr, if◌then◌else◌, All,
}

module _ {ℓ} {A : Type ℓ} where
  -- `first a b`: `a` may stand before `b`, the comparison is not `Greater`.
  unfoldable pub insert_sorted : (A → A → Bool) → A → List A → List A
  insert_sorted first a [] = a ∷ []
  insert_sorted first a (b ∷ bs) =
      let rest = b ∷ insert_sorted first a bs in if first a b then a ∷ b ∷ bs else rest

  unfoldable pub sort_by : (A → A → Bool) → List A → List A
  unfolding insert_sorted
  sort_by first [] = []
  sort_by first (a ∷ bs) = insert_sorted first a (sort_by first bs)

  -- Each element may stand before the next one.
  abbrev pub StartsAt : (A → A → Bool) → A → List A → Type 0
  StartsAt first a [] = Unit
  StartsAt first a (b ∷ bs) = (first a b ≡ true) × StartsAt first b bs

  abbrev pub IsSorted : (A → A → Bool) → List A → Type 0
  IsSorted first [] = Unit
  IsSorted first (a ∷ bs) = StartsAt first a bs

  pub record IsStableSort (first : A → A → Bool) (key : A → ℕ) (xs ys : List A) : Type ℓ where
    pub sorted : IsSorted first ys
    pub stable : (k : ℕ) → retain (λ a. nat_beq (key a) k) ys ≡ retain (λ a. nat_beq (key a) k) xs
    pub same_length : length ys ≡ length xs

  module _ (first : A → A → Bool) (total : (a b : A) → first a b ≡ false → first b a ≡ true) where
    insert-StartsAt :
        (c a : A) (bs : List A)
        → first c a ≡ true
        → StartsAt first c bs
        → StartsAt first c (insert_sorted first a bs)
    unfolding insert_sorted
    insert-StartsAt c a [] h k = (h, tt)
    insert-StartsAt c a (b ∷ bs) h k = elim (Bool-cases (first a b)) [
      | inl e ↦ rw e (h, (e, k.1))
      | inr e ↦ rw e (k.0, insert-StartsAt b a bs (total a b e) k.1)
    ]

    insert-IsSorted :
        (a : A) (bs : List A) → IsSorted first bs → IsSorted first (insert_sorted first a bs)
    unfolding insert_sorted
    insert-IsSorted a [] h = tt
    insert-IsSorted a (b ∷ bs) h = elim (Bool-cases (first a b)) [
      | inl e ↦ rw e (e, h)
      | inr e ↦ rw e (insert-StartsAt b a bs (total a b e) h)
    ]

    sort-IsSorted : (xs : List A) → IsSorted first (sort_by first xs)
    unfolding sort_by
    sort-IsSorted [] = tt
    sort-IsSorted (a ∷ bs) = insert-IsSorted a (sort_by first bs) (sort-IsSorted bs)

  length-insert_sorted :
      (first : A → A → Bool) (a : A) (bs : List A)
      → length (insert_sorted first a bs) ≡ suc (length bs)
  unfolding insert_sorted
  length-insert_sorted first a [] = refl
  length-insert_sorted first a (b ∷ bs) = ground (arith, length-insert_sorted first a bs)

  length-sort_by : (first : A → A → Bool) (xs : List A) → length (sort_by first xs) ≡ length xs
  unfolding sort_by
  length-sort_by first [] = refl
  length-sort_by first (a ∷ bs) =
      omega (arith, length-insert_sorted first a (sort_by first bs), length-sort_by first bs)

  -- An element of the key is passed over by none of the same key.
  module _ (first : A → A → Bool) (key : A → ℕ)
      (same : (a b : A) → first a b ≡ false → nat_beq (key a) (key b) ≡ false) where
    retain-insert_sorted :
        (k : ℕ) (a : A) (bs : List A)
        → retain (λ x. nat_beq (key x) k) (insert_sorted first a bs)
          ≡ retain (λ x. nat_beq (key x) k) (a ∷ bs)
    unfolding retain insert_sorted
    retain-insert_sorted k a [] = refl
    retain-insert_sorted k a (b ∷ bs) = elim (Bool-cases (first a b)) [
      | inl e ↦ rw e refl
      | inr e ↦ ground (arith, retain-insert_sorted k a bs, same a b e)
    ]

    retain-sort_by :
        (k : ℕ) (xs : List A)
        → retain (λ x. nat_beq (key x) k) (sort_by first xs) ≡ retain (λ x. nat_beq (key x) k) xs
    unfolding sort_by retain
    retain-sort_by k [] = refl
    retain-sort_by k (a ∷ bs) =
        ground (arith, retain-insert_sorted k a (sort_by first bs), retain-sort_by k bs)

  -- `a.key.cmp(&b.key)` and `b.key.cmp(&a.key)`.
  abbrev pub ascending : (A → ℕ) → A → A → Bool
  ascending key a b = leb (key a) (key b)

  abbrev pub descending : (A → ℕ) → A → A → Bool
  descending key a b = leb (key b) (key a)

  pub sort-ascending :
      (key : A → ℕ) (xs : List A) → IsStableSort (ascending key) key xs (sort_by (ascending key) xs)
  sort-ascending key xs = record {
    sorted = sort-IsSorted (ascending key) (λ a b h. ground arith) xs;
    stable = λ k. retain-sort_by (ascending key) key (λ a b h. ground arith) k xs;
    same_length = length-sort_by (ascending key) xs;
  }

  pub sort-descending :
      (key : A → ℕ) (xs : List A)
      → IsStableSort (descending key) key xs (sort_by (descending key) xs)
  sort-descending key xs = record {
    sorted = sort-IsSorted (descending key) (λ a b h. ground arith) xs;
    stable = λ k. retain-sort_by (descending key) key (λ a b h. ground arith) k xs;
    same_length = length-sort_by (descending key) xs;
  }

module _ {ℓ κ} {A : Type ℓ} (P : A → Type κ) where
  All-insert_sorted :
      (first : A → A → Bool) (a : A) (bs : List A)
      → P a
      → All P bs
      → All P (insert_sorted first a bs)
  unfolding insert_sorted
  All-insert_sorted first a [] p h = (p, tt)
  All-insert_sorted first a (b ∷ bs) p h = elim (Bool-cases (first a b)) [
    | inl e ↦ rw e (p, h)
    | inr e ↦ rw e (h.0, All-insert_sorted first a bs p h.1)
  ]

  pub All-sort_by : (first : A → A → Bool) (xs : List A) → All P xs → All P (sort_by first xs)
  unfolding sort_by
  All-sort_by first [] h = tt
  All-sort_by first (a ∷ bs) h = All-insert_sorted first a _ h.0 (All-sort_by first bs h.1)
