-- ===== src/Base/TreeMap.antt =====
-- `std::collections::BTreeMap`: the entries in the order of their keys. The laws are in `if` form.
use mathlib.Core.Path.{◌≡◌, refl}
use mathlib.Core.Bool.{Bool, true, false}
use mathlib.Core.List.{List, [], ◌∷◌}
use mathlib.Core.Option.{Option, none, some}
use native.Mathlib.Omega.{arith}
use vsm_agent_kernel.Base.Tests.{Key, ◌==◌, if◌then◌else◌}
use vsm_agent_kernel.Base.Lists.{contains}

abbrev pub TreeMap {ℓ κ} : Type ℓ → Type κ → Type (ℓ ⊔ κ)
TreeMap K V = List (K × V)

-- `option_map` is `Option::map`.
abbrev pub option_map {ℓ κ} : {A : Type ℓ} {B : Type κ} → (A → B) → Option A → Option B
option_map f none = none
option_map f (some a) = some (f a)

abbrev pub is_some {ℓ} : {A : Type ℓ} → Option A → Bool
is_some none = false
is_some (some a) = true

module _ {ℓ κ} {K : Type ℓ} {V : Type κ} ⦃o : Key K⦄ where
  unfoldable pub get : K → TreeMap K V → Option V
  get k [] = none
  get k ((j, v) ∷ m) = let rest = get k m in if j == k then some v else rest

  -- An entry of an equal key is replaced, a new one goes before the first greater key.
  unfoldable pub insert : K → V → TreeMap K V → TreeMap K V
  insert k v [] = (k, v) ∷ []
  insert k v ((j, w) ∷ m) =
      let rest = (j, w) ∷ insert k v m in
      if j == k then (k, v) ∷ m else if o.before k j then (k, v) ∷ (j, w) ∷ m else rest

  unfoldable pub remove : K → TreeMap K V → TreeMap K V
  remove k [] = []
  remove k ((j, w) ∷ m) = let rest = remove k m in if j == k then rest else (j, w) ∷ rest

  -- `get_mut` followed by a write to the value that it found.
  unfoldable pub modify : K → (V → V) → TreeMap K V → TreeMap K V
  modify k f [] = []
  modify k f ((j, w) ∷ m) =
      let rest = (j, w) ∷ modify k f m in if j == k then (j, f w) ∷ m else rest

  -- A loop of removals.
  unfoldable pub remove_all : List K → TreeMap K V → TreeMap K V
  remove_all [] m = m
  remove_all (k ∷ ks) m = remove_all ks (remove k m)

  unfoldable pub values : TreeMap K V → List V
  values [] = []
  values ((k, v) ∷ m) = v ∷ values m

  pub get-insert :
      (k j : K) (v : V) (m : TreeMap K V)
      → get j (insert k v m) ≡ (if k == j then some v else get j m)
  unfolding get insert
  get-insert k j v [] = refl
  get-insert k j v ((i, w) ∷ m) =
      ground (arith, o.beq_iff k j, o.beq_iff i k, o.beq_iff i j, get-insert k j v m)

  pub get-remove :
      (k j : K) (m : TreeMap K V) → get j (remove k m) ≡ (if k == j then none else get j m)
  unfolding get remove
  get-remove k j [] = ground arith
  get-remove k j ((i, w) ∷ m) =
      ground (arith, o.beq_iff k j, o.beq_iff i k, o.beq_iff i j, get-remove k j m)

  pub get-modify :
      (k j : K) (f : V → V) (m : TreeMap K V)
      → get j (modify k f m) ≡ (if k == j then option_map f (get j m) else get j m)
  unfolding get modify
  get-modify k j f [] = ground arith
  get-modify k j f ((i, w) ∷ m) =
      ground (arith, o.beq_iff k j, o.beq_iff i k, o.beq_iff i j, get-modify k j f m)

  -- A write that leaves the value as it is changes nothing.
  pub modify_same :
      (k : K) (f : V → V) (v : V) (m : TreeMap K V) → get k m ≡ some v → f v ≡ v → modify k f m ≡ m
  unfolding get modify
  modify_same k f v [] h e = refl
  modify_same k f v ((i, w) ∷ m) h e = ground (arith, modify_same k f v m)

  pub get-remove_all :
      (ks : List K) (j : K) (m : TreeMap K V)
      → get j (remove_all ks m) ≡ (if contains ks j then none else get j m)
  unfolding remove_all contains
  get-remove_all [] j m = refl
  get-remove_all (k ∷ ks) j m = ground (arith, get-remove_all ks j (remove k m), get-remove k j m)

pub ruleset map_laws = (get-insert, get-remove, get-modify, get-remove_all)
