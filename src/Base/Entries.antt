-- ===== src/Base/Entries.antt =====
-- `BTreeMap::entry(..).or_insert_with(..)` with a write to the value, and a loop of writes to all values.
use vsm_agent_kernel.Base.{◌≡◌, refl, Option, none, some, [], ◌∷◌, Key, ◌==◌, arith, if◌then◌else◌}
use vsm_agent_kernel.Base.TreeMap.{
  TreeMap, get, insert, modify, option_map, is_some, get-insert, get-modify,
}

abbrev pub unwrap_or {ℓ} : {A : Type ℓ} → A → Option A → A
unwrap_or default none = default
unwrap_or default (some a) = a

module _ {ℓ κ} {K : Type ℓ} {V : Type κ} ⦃o : Key K⦄ where
  unfoldable pub update_entry : K → V → (V → V) → TreeMap K V → TreeMap K V
  update_entry k default write m =
      modify k write (if is_some (get k m) then m else insert k default m)

  unfoldable pub map_entries : (K → V → V) → TreeMap K V → TreeMap K V
  map_entries write [] = []
  map_entries write ((k, v) ∷ m) = (k, write k v) ∷ map_entries write m

  pub get-update_entry :
      (k j : K) (default : V) (write : V → V) (m : TreeMap K V)
      → get j (update_entry k default write m)
        ≡ (if k == j then some (write (unwrap_or default (get k m))) else get j m)
  unfolding update_entry
  get-update_entry k j default write m = ground (
    arith,
    o.beq_iff k j,
    get-modify k j write m,
    get-modify k j write (insert k default m),
    get-insert k j default m,
  )

  pub get-map_entries :
      (write : K → V → V) (j : K) (m : TreeMap K V)
      → get j (map_entries write m) ≡ option_map (write j) (get j m)
  unfolding get map_entries
  get-map_entries write j [] = refl
  get-map_entries write j ((k, v) ∷ m) = ground (arith, o.beq_iff k j, get-map_entries write j m)
