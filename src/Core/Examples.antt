-- ===== src/Core/Examples.antt =====
-- Tests of the model of crates/vsm-core, and the theorems at concrete inputs.
use text.Mathlib.TextEquality.{eq_iff}
use vsm_agent_kernel.Base.{
  suc, ◌≡◌, ◌≢◌, ◌↔◌, ◌⊎◌, refl, true, none, some, List, [], ◌∷◌, contains, retain, string_key,
  arith, ◌==◌, if◌then◌else◌,
}
use vsm_agent_kernel.Base.Results.{Result, ok}
use vsm_agent_kernel.Base.TreeMap.{get, insert, modify, option_map}
use vsm_agent_kernel.Core.Id.{NodeId}
use vsm_agent_kernel.Core.Genome.{
  OrganizationalGenome, GenomeError, World, new, add_child, update_node, subtree_ids, ancestor_ids,
  collect_subtree, remove_subtree, keeps_channel,
}
use vsm_agent_kernel.Core.Fixtures.{uuid, root, coder, one, two, two-Within, root_held, coder_held}
use vsm_agent_kernel.Core.Genome.Tree.{Holds, Below}
use vsm_agent_kernel.Core.Genome.Subtree.{subtree_ids-Below}
use vsm_agent_kernel.Core.Genome.Termination.{subtree_ids_total, collect_subtree_self_child}
use vsm_agent_kernel.Core.Genome.Ancestors.{ancestor_ids_total}
use vsm_agent_kernel.Core.Genome.Removed.{without_child}
use vsm_agent_kernel.Core.Genome.WellFormed.{
  IsWellFormed, new-IsWellFormed, add_child-IsWellFormed, remove_subtree-IsWellFormed,
  remove_subtree_exact,
}

two-IsWellFormed : IsWellFormed two.genome
two-IsWellFormed =
    add_child-IsWellFormed uuid one "r" coder refl (new-IsWellFormed "g" root refl refl)

r_ne_c : "c" ≢ two.genome.root_node_id
unfolding new add_child
r_ne_c = ground (arith, eq_iff "c" "r")

subtree_of_root : subtree_ids 2 two.genome "r" ≡ some (ok ("r" ∷ "c" ∷ []))
unfolding new add_child update_node get insert modify subtree_ids
subtree_of_root = refl

ancestors_of_coder : ancestor_ids 1 two.genome "c" ≡ some (ok ("r" ∷ []))
unfolding new add_child update_node get insert modify ancestor_ids
ancestors_of_coder = refl

abbrev both_ids : List NodeId
both_ids = "r" ∷ "c" ∷ []

subtree_ids-Below_example : (contains both_ids "c" ≡ true) ↔ Below two.genome "r" "c"
subtree_ids-Below_example = subtree_ids-Below 2 two.genome "r" both_ids subtree_of_root "c"

add_child-IsWellFormed_example : IsWellFormed (add_child uuid one "r" coder).1.genome
add_child-IsWellFormed_example =
    add_child-IsWellFormed uuid one "r" coder refl (new-IsWellFormed "g" root refl refl)

subtree_ids_total_example :
    (ids : List NodeId) × (subtree_ids 2 two.genome "r" ≡ some (ok ids))
    × ((a : NodeId) → (contains ids a ≡ true) ↔ Below two.genome "r" a)
subtree_ids_total_example =
    subtree_ids_total two.genome two-Within.0 2 "r" (record root { children = "c" ∷ [] }) root_held
      (omega (arith, two-Within.1))

ancestor_ids_total_example :
    (ids : List NodeId) × (ancestor_ids 1 two.genome "c" ≡ some (ok ids))
    × ((a : NodeId) → Below two.genome a "c" ↔ ((a ≡ "c") ⊎ (contains ids a ≡ true)))
ancestor_ids_total_example =
    ancestor_ids_total two.genome two-Within.0 1 "c" (record coder { parent_id = some "r" })
      coder_held two-Within.1

remove_subtree-IsWellFormed_example :
    (r : Result GenomeError (List NodeId)) × (after : OrganizationalGenome) × (remove_subtree
        (suc two-IsWellFormed.tree.height)
        two.genome
        "c"
      ≡ some (r, after))
    × IsWellFormed after
remove_subtree-IsWellFormed_example =
    remove_subtree-IsWellFormed (suc two-IsWellFormed.tree.height) two.genome "c" two-IsWellFormed
      (omega arith)

remove_subtree_exact_example :
    (removed : List NodeId) × (after : OrganizationalGenome) × (remove_subtree 2 two.genome "c"
      ≡ some (ok removed, after))
    × ((a : NodeId) → (contains removed a ≡ true) ↔ Below two.genome "c" a)
    × ((a : NodeId)
        → get a after.nodes ≡ (
            if contains removed a
            then none
            else if "r" == a
            then option_map (without_child "c") (get a two.genome.nodes)
            else get a two.genome.nodes))
    × (after.channels ≡ retain (keeps_channel removed) two.genome.channels)
remove_subtree_exact_example =
    remove_subtree_exact 2 two.genome "c" (record coder { parent_id = some "r" }) "r" two-Within.0
      r_ne_c coder_held refl (omega (arith, two-Within.1))

-- A node that lists itself as its child, as `AddChild` allows it.
abbrev looped : World
looped = (add_child uuid one "r" (record coder { children = "c" ∷ [] })).1

looped_held : Holds looped.genome "c" (record coder { children = "c" ∷ []; parent_id = some "r" })
unfolding new add_child update_node get insert modify
looped_held = refl

collect_subtree_self_child_example : collect_subtree 1000 looped.genome "c" [] ≡ none
collect_subtree_self_child_example =
    collect_subtree_self_child 1000 looped.genome "c"
      (record coder { children = "c" ∷ []; parent_id = some "r" }) [] [] looped_held refl
