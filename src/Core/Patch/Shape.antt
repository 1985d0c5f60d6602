-- ===== src/Core/Patch/Shape.antt =====
-- The patches of crates/vsm-core/src/patch.rs keep the genome a tree, and `apply` returns.
use vsm_agent_kernel.Base.{
  ℕ, suc, ◌+◌, ◌≤◌, ◌<◌, String, ◌≡◌, refl, inl, inr, Bool, true, ◌&&◌, Option, some, is_empty,
  empty-nil, string_key, arith, Bool-cases, and-left, and-right, Option-cases,
}
use vsm_agent_kernel.Base.Results.{Result, ok, err}
use vsm_agent_kernel.Base.TreeMap.{get}
use vsm_agent_kernel.Core.Id.{NodeId}
use vsm_agent_kernel.Core.Node.{ViableNode}
use vsm_agent_kernel.Core.Genome.{World, GenomeError, add_child}
use vsm_agent_kernel.Core.Genome.Tree.{IsTree}
use vsm_agent_kernel.Core.Genome.Rewritten.{KeepsPlace}
use vsm_agent_kernel.Core.Genome.Within.{
  Within, Within-le, add_child-Within, update_node-Within, remove_subtree-Within,
}
use vsm_agent_kernel.Core.Patch.{
  OrganizationalGenomePatch, Patches, PatchError, Applied, add_child_patch,
  promote_leaf_to_metasystem, remove_subtree_patch, add_channel, remove_channel,
  add_prompt_component, remove_prompt_component, add_tool, remove_tool, set_node_status, batch, nil,
  cons, discard, write_node, extracted, promoted, after_extraction, promote, prompt_without,
  removes_component, remove_component, removal, apply_one, apply, apply_all,
}

-- The nodes that a patch brings have no children of their own.
unfoldable mutual
  pub childless : OrganizationalGenomePatch → Bool
  childless (add_child_patch parent_id child) = is_empty child.children
  childless (batch patches) = all_childless patches
  childless _ = true

  pub all_childless : Patches → Bool
  all_childless nil = true
  all_childless (cons patch rest) = childless patch && all_childless rest

-- By how many levels at most a patch makes the tree higher.
unfoldable mutual
  pub growth : OrganizationalGenomePatch → ℕ
  growth (add_child_patch parent_id child) = 1
  growth (promote_leaf_to_metasystem node_id name) = 1
  growth (batch patches) = total_growth patches
  growth _ = 0

  pub total_growth : Patches → ℕ
  total_growth nil = 0
  total_growth (cons patch rest) = growth patch + total_growth rest

module _ (w : World) (id : NodeId) (write : ViableNode → ViableNode) (h : ℕ) where
  write_node-Within :
      KeepsPlace write → Within h w.genome → Within h (write_node w id write).1.genome
  unfolding write_node
  write_node-Within keeps inv = update_node-Within w.genome id write h keeps inv

after_extraction-Within :
    (node_id : NodeId) (h : ℕ) (r : Result GenomeError NodeId × World)
    → Within h r.1.genome
    → Within h (after_extraction node_id r).1.genome
unfolding after_extraction promoted
after_extraction-Within node_id h (err e, w) inv = inv
after_extraction-Within node_id h (ok _, w) inv =
    write_node-Within w node_id promoted h (λ n. (refl, refl, refl)) inv

promote-Within :
    (uuid : ℕ → String) (w : World) (node_id : NodeId) (name : String) (h : ℕ)
    → Within h w.genome
    → Within (suc h) (promote uuid w node_id name).1.genome
unfolding promote extracted
promote-Within uuid w node_id name h inv = elim (Option-cases (get node_id w.genome.nodes)) [
  | inl missing ↦ rw (missing, promote) (Within-le h (suc h) w.genome (omega arith) inv)
  | inr (node, held) ↦
      rw (held, promote)
        (elim (Bool-cases (is_empty node.children)) [
          | inr parent ↦ rw parent (Within-le h (suc h) w.genome (omega arith) inv)
          | inl leaf ↦ rw leaf (
              after_extraction-Within node_id (suc h) _ (
                add_child-Within uuid (record w { issued = w.issued + 1 }) node_id
                  (extracted (uuid w.issued) node_id name node) h refl inv))
        ])
]

remove_component-Within :
    (w : World) (id : NodeId) (component_id : String) (h : ℕ)
    → Within h w.genome
    → Within h (remove_component w id component_id).1.genome
unfolding remove_component
remove_component-Within w id component_id h inv = elim (Option-cases (get id w.genome.nodes)) [
  | inl missing ↦ rw (missing, remove_component) inv
  | inr (node, held) ↦
      let written : Within h
          (write_node w id
            (λ n. record n { prompt = prompt_without component_id n.prompt })).1.genome =
        write_node-Within w id _ h (λ n. (refl, refl, refl)) inv in
      rw (held, remove_component)
        (elim (Bool-cases (removes_component component_id node.prompt)) [
          | inl e ↦ rw e written
          | inr e ↦ rw e written
        ])
]

-- A patch that returns, and leaves a tree of the height `h` at most.
abbrev pub Returns : ℕ → Option Applied → Type 0
Returns h r =
    (result : Result PatchError (Unit {0})) × (after : World) × (r ≡ some (result, after))
    × Within h after.genome

-- A value that is there.
there : (h : ℕ) (r : Applied) → Within h r.1.genome → Returns h (some r)
there h r inv = (r.0, r.1, refl, inv)

writes :
    (w : World) (id : NodeId) (write : ViableNode → ViableNode) (h : ℕ)
    → KeepsPlace write
    → Within h w.genome
    → Returns (h + 0) (some (write_node w id write))
writes w id write h keeps inv = there (h + 0) (write_node w id write) (
    Within-le h (h + 0) (write_node w id write).1.genome (omega arith)
      (write_node-Within w id write h keeps inv))

apply_one-Returns :
    (patch : OrganizationalGenomePatch) (uuid : ℕ → String) (fuel : ℕ) (w : World) (h : ℕ)
    → childless patch ≡ true
    → h < fuel
    → Within h w.genome
    → Returns (h + growth patch) (apply_one uuid fuel w patch)
unfolding apply_one growth childless
apply_one-Returns (add_child_patch p child) uuid fuel w h c enough inv =
    let kept = add_child-Within uuid w p child h (empty-nil child.children c) inv in
    there (h + 1) (discard (add_child uuid w p child).0, (add_child uuid w p child).1)
      (Within-le (suc h) (h + 1) (add_child uuid w p child).1.genome (omega arith) kept)
apply_one-Returns (promote_leaf_to_metasystem id name) uuid fuel w h c enough inv =
    there (h + 1) (promote uuid w id name) (
      Within-le (suc h) (h + 1) (promote uuid w id name).1.genome (omega arith)
        (promote-Within uuid w id name h inv))
apply_one-Returns (remove_subtree_patch id) uuid fuel w h c enough inv =
    let (r, after, e, kept) = remove_subtree-Within fuel w.genome id h enough inv in
    (
      discard r,
      record w { genome = after },
      unfold removal in rw (e, removal),
      Within-le h (h + 0) after (omega arith) kept,
    )
apply_one-Returns (add_channel channel) uuid fuel w h c enough inv =
    there (h + 0) _ (Within-le h (h + 0) w.genome (omega arith) inv)
apply_one-Returns (remove_channel id) uuid fuel w h c enough inv =
    there (h + 0) _ (Within-le h (h + 0) w.genome (omega arith) inv)
apply_one-Returns (add_prompt_component id section component) uuid fuel w h c enough inv =
    writes w id _ h (λ n. (refl, refl, refl)) inv
apply_one-Returns (remove_prompt_component id component_id) uuid fuel w h c enough inv =
    there (h + 0) (remove_component w id component_id) (
      Within-le h (h + 0) (remove_component w id component_id).1.genome (omega arith)
        (remove_component-Within w id component_id h inv))
apply_one-Returns (add_tool id tool) uuid fuel w h c enough inv =
    writes w id _ h (λ n. (refl, refl, refl)) inv
apply_one-Returns (remove_tool id name) uuid fuel w h c enough inv =
    writes w id _ h (λ n. (refl, refl, refl)) inv
apply_one-Returns (set_node_status id status) uuid fuel w h c enough inv =
    writes w id _ h (λ n. (refl, refl, refl)) inv
apply_one-Returns (batch patches) uuid fuel w h c enough inv =
    there (h + total_growth patches) (ok tt, w)
      (Within-le h (h + total_growth patches) w.genome (omega arith) inv)

-- A batch returns if its first patch does, and the rest does from wherever that leads.
batch_step :
    (patch : OrganizationalGenomePatch) (rest : Patches) (uuid : ℕ → String) (fuel : ℕ) (w : World)
    (g k m : ℕ)
    → g ≤ m
    → k ≤ m
    → Returns g (apply patch uuid fuel w)
    → ((after : World) → Within g after.genome → Returns k (apply_all rest uuid fuel after))
    → Returns m (apply_all (cons patch rest) uuid fuel w)
unfolding apply_all
batch_step patch rest uuid fuel w g k m g_le k_le (err x, after, e, kept) tail =
    (err x, after, rw (e, apply_all), Within-le g m after.genome g_le kept)
batch_step patch rest uuid fuel w g k m g_le k_le (ok _, after, e, kept) tail =
    let (result, last, e', kept') = tail after kept in
    (result, last, rw (e, apply_all) e', Within-le k m last.genome k_le kept')

mutual
  unfolding apply growth childless

  apply-Returns :
      (patch : OrganizationalGenomePatch) (uuid : ℕ → String) (fuel : ℕ) (w : World) (h : ℕ)
      → childless patch ≡ true
      → h + growth patch < fuel
      → Within h w.genome
      → Returns (h + growth patch) (apply patch uuid fuel w)
  apply-Returns (batch patches) uuid fuel w h c enough inv =
      apply_all-Returns patches uuid fuel w h c enough inv
  apply-Returns (add_child_patch p child) uuid fuel w h c enough inv =
      apply_one-Returns (add_child_patch p child) uuid fuel w h c (omega arith) inv
  apply-Returns (promote_leaf_to_metasystem id name) uuid fuel w h c enough inv =
      apply_one-Returns (promote_leaf_to_metasystem id name) uuid fuel w h c (omega arith) inv
  apply-Returns (remove_subtree_patch id) uuid fuel w h c enough inv =
      apply_one-Returns (remove_subtree_patch id) uuid fuel w h c (omega arith) inv
  apply-Returns (add_channel ch) uuid fuel w h c enough inv =
      apply_one-Returns (add_channel ch) uuid fuel w h c (omega arith) inv
  apply-Returns (remove_channel id) uuid fuel w h c enough inv =
      apply_one-Returns (remove_channel id) uuid fuel w h c (omega arith) inv
  apply-Returns (add_prompt_component id s k) uuid fuel w h c enough inv =
      apply_one-Returns (add_prompt_component id s k) uuid fuel w h c (omega arith) inv
  apply-Returns (remove_prompt_component id k) uuid fuel w h c enough inv =
      apply_one-Returns (remove_prompt_component id k) uuid fuel w h c (omega arith) inv
  apply-Returns (add_tool id t) uuid fuel w h c enough inv =
      apply_one-Returns (add_tool id t) uuid fuel w h c (omega arith) inv
  apply-Returns (remove_tool id t) uuid fuel w h c enough inv =
      apply_one-Returns (remove_tool id t) uuid fuel w h c (omega arith) inv
  apply-Returns (set_node_status id s) uuid fuel w h c enough inv =
      apply_one-Returns (set_node_status id s) uuid fuel w h c (omega arith) inv

  apply_all-Returns :
      (patches : Patches) (uuid : ℕ → String) (fuel : ℕ) (w : World) (h : ℕ)
      → all_childless patches ≡ true
      → h + total_growth patches < fuel
      → Within h w.genome
      → Returns (h + total_growth patches) (apply_all patches uuid fuel w)
  apply_all-Returns nil uuid fuel w h c enough inv =
      there (h + 0) (ok tt, w) (Within-le h (h + 0) w.genome (omega arith) inv)
  apply_all-Returns (cons patch rest) uuid fuel w h c enough inv =
      batch_step patch rest uuid fuel w (h + growth patch) (h + growth patch + total_growth rest)
        (h + (growth patch + total_growth rest)) (omega arith) (omega arith)
        (apply-Returns patch uuid fuel w h (and-left _ (all_childless rest) c) (omega arith) inv)
        (λ after kept.
          apply_all-Returns rest uuid fuel after (h + growth patch)
            (and-right (childless patch) (all_childless rest) c) (omega arith) kept)

pub apply-IsTree :
    (patch : OrganizationalGenomePatch) (uuid : ℕ → String) (fuel : ℕ) (w : World)
    (tree : IsTree w.genome)
    → childless patch ≡ true
    → tree.height + growth patch < fuel
    → (result : Result PatchError (Unit {0})) × (after : World) × (apply patch uuid fuel w
        ≡ some (result, after))
      × (tree' : IsTree after.genome) × (tree'.height ≤ tree.height + growth patch)
apply-IsTree patch uuid fuel w tree c enough =
    let (result, after, e, kept) =
      apply-Returns patch uuid fuel w tree.height c enough (tree, omega arith) in
    (result, after, e, kept.0, kept.1)
