-- ===== src/Core/Patch/Keeps.antt =====
-- A patch of crates/vsm-core/src/patch.rs that is no batch and fails has changed nothing.
use vsm_agent_kernel.Base.{
  ℕ, ◌+◌, String, ◌≡◌, refl, sym, ap, ◌∙◌, inl, inr, Bool, true, false, not, ◌||◌, none, some, List,
  is_empty, nat_beq_iff, length, retain, retain_all, string_key, arith, Bool-cases, Option-cases,
  if◌then◌else◌, ◌==◌,
}
use mathlib.Core.Option.{some-injective}
use vsm_agent_kernel.Base.Results.{Result, ok, err}
use vsm_agent_kernel.Base.TreeMap.{get, modify_same}
use vsm_agent_kernel.Core.Id.{NodeId}
use vsm_agent_kernel.Core.Node.{ViableNode, PromptComponent, PromptGenome}
use vsm_agent_kernel.Core.Genome.{
  OrganizationalGenome, World, GenomeError, node_not_found, node_already_exists, add_child,
  update_node, remove_subtree,
}
use vsm_agent_kernel.Core.Genome.Tree.{Holds}
use vsm_agent_kernel.Core.Genome.Added.{add_child_no_parent, add_child_taken, add_child-added}
use vsm_agent_kernel.Core.Patch.Promotion.{
  after_extraction-added, promote_missing, promote_parent, promote_leaf,
}
use vsm_agent_kernel.Core.Patch.{
  OrganizationalGenomePatch, PatchError, Applied, add_child_patch, promote_leaf_to_metasystem,
  remove_subtree_patch, add_channel, remove_channel, add_prompt_component, remove_prompt_component,
  add_tool, remove_tool, set_node_status, batch, genome_error, prompt_component_not_found, discard,
  write_node, extracted, after_extraction, promote, drop_component, contract_is, prompt_without,
  shrunk, removes_component, remove_component, removal, apply,
}

unfoldable pub is_batch : OrganizationalGenomePatch → Bool
is_batch (batch patches) = true
is_batch _ = false

-- An outcome that is an error leaves the genome `before`.
abbrev FailsUnchanged : OrganizationalGenome → Applied → Type 0
FailsUnchanged before r =
    (e : PatchError) (after : World) → r ≡ (err e, after) → after.genome ≡ before

write_node-FailsUnchanged :
    (w : World) (id : NodeId) (write : ViableNode → ViableNode)
    → FailsUnchanged w.genome (write_node w id write)
unfolding write_node update_node
write_node-FailsUnchanged w id write e after h = elim (Option-cases (get id w.genome.nodes)) [
  | inl missing ↦ ground arith
  | inr (node, held) ↦ absurd (ground arith)
]

add_child-FailsUnchanged :
    (uuid : ℕ → String) (w : World) (p : NodeId) (child : ViableNode) (e : GenomeError)
    → (add_child uuid w p child).0 ≡ err e
    → (add_child uuid w p child).1 ≡ w
add_child-FailsUnchanged uuid w p child e h = elim (Option-cases (get p w.genome.nodes)) [
  | inl missing ↦ ground (arith, add_child_no_parent uuid w p child missing)
  | inr (parent, held) ↦ elim (Option-cases (get child.id w.genome.nodes)) [
    | inl fresh ↦ absurd (ground (arith, add_child-added uuid w p child parent held fresh))
    | inr (old, taken) ↦ ground (arith, add_child_taken uuid w p child parent old held taken)
  ]
]

-- Where the outcome is known to be `(x, v)`, the state it leaves is `v`.
leaves :
    {r : Applied} {x y : Result PatchError (Unit {0})} {v after : World}
    → r ≡ (x, v)
    → r ≡ (y, after)
    → after.genome ≡ v.genome
leaves p q = ap (λ (r : Applied). r.1.genome) (sym q ∙ p)

after_extraction_err :
    (id : NodeId) (e : GenomeError) (w : World)
    → after_extraction id (err e, w) ≡ (err (genome_error e), w)
unfolding after_extraction
after_extraction_err id e w = refl

promote-FailsUnchanged :
    (uuid : ℕ → String) (w : World) (id : NodeId) (name : String)
    → FailsUnchanged w.genome (promote uuid w id name)
promote-FailsUnchanged uuid w id name e after h = elim (Option-cases (get id w.genome.nodes)) [
  | inl missing ↦ leaves (promote_missing uuid w id name missing) h
  | inr (node, held) ↦ elim (Bool-cases (is_empty node.children)) [
    | inr parent ↦ leaves (promote_parent uuid w id name node held parent) h
    | inl leaf ↦ elim (Option-cases (get (uuid w.issued) w.genome.nodes)) [
      | inl fresh ↦
          let (last, q, _) =
            after_extraction-added uuid (record w { issued = w.issued + 1 }) id
              (extracted (uuid w.issued) id name node) node held (unfold extracted in fresh) in
          absurd (ground (arith, promote_leaf uuid w id name node held leaf ∙ q))
      | inr (old, taken) ↦
          let child = extracted (uuid w.issued) id name node in
          let w' : World = record w { issued = w.issued + 1 } in
          leaves {x = err (genome_error (node_already_exists child.id))} {v = w'}
            (promote_leaf uuid w id name node held leaf
              ∙ ap (after_extraction id)
                  (add_child_taken uuid w' id child node old held (unfold extracted in taken))
              ∙ after_extraction_err id (node_already_exists child.id) w')
            h
    ]
  ]
]

-- A prompt without the component is left as it is.
drop_component_same :
    (component_id : String) (section : List PromptComponent)
    → shrunk component_id section ≡ false
    → drop_component component_id section ≡ section
unfolding shrunk
drop_component_same component_id section h =
    retain_all (λ c. not (c.id == component_id)) section
      (ground (
        arith,
        nat_beq_iff (length (retain (λ c. not (c.id == component_id)) section)) (length section),
      ))

none_of_five :
    (a b c d e : Bool)
    → (a || b || c || d || e) ≡ false
    → (a ≡ false) × (b ≡ false) × (c ≡ false) × (d ≡ false) × (e ≡ false)
none_of_five a b c d e h = ground arith

prompt_without_same :
    (component_id : String) (p : PromptGenome)
    → removes_component component_id p ≡ false
    → prompt_without component_id p ≡ p
unfolding prompt_without
prompt_without_same component_id p h =
    let (a, b, c, d, e) =
      none_of_five (shrunk component_id p.behavior_rules) (shrunk component_id p.domain_hints)
        (shrunk component_id p.codebase_conventions) (shrunk component_id p.negative_constraints)
        (contract_is component_id p.output_contract) (unfold removes_component in h) in
    λ i. record p {
      behavior_rules = drop_component_same component_id p.behavior_rules a i;
      domain_hints = drop_component_same component_id p.domain_hints b i;
      codebase_conventions = drop_component_same component_id p.codebase_conventions c i;
      negative_constraints = drop_component_same component_id p.negative_constraints d i;
      output_contract = (if e i then none else p.output_contract);
    }

-- A write that leaves the node as it is leaves the genome as it is.
write_node_same :
    (w : World) (id : NodeId) (node : ViableNode) (write : ViableNode → ViableNode)
    → Holds w.genome id node
    → write node ≡ node
    → (write_node w id write).1.genome ≡ w.genome
unfolding write_node update_node
write_node_same w id node write held e =
    rw (held, update_node)
      (λ i. record w.genome { nodes = modify_same id write node w.genome.nodes held e i })

-- The write that the loop over the sections makes.
abbrev rewrite_prompt : World → NodeId → String → Applied
rewrite_prompt w id component_id =
    write_node w id (λ n. record n { prompt = prompt_without component_id n.prompt })

removed :
    (w : World) (id : NodeId) (component_id : String) (node : ViableNode)
    → Holds w.genome id node
    → removes_component component_id node.prompt ≡ true
    → remove_component w id component_id ≡ (ok tt, (rewrite_prompt w id component_id).1)
unfolding remove_component
removed w id component_id node held found = rw (held, remove_component) (rw found refl)

not_removed :
    (w : World) (id : NodeId) (component_id : String) (node : ViableNode)
    → Holds w.genome id node
    → removes_component component_id node.prompt ≡ false
    → remove_component w id component_id
      ≡ (err (prompt_component_not_found component_id), (rewrite_prompt w id component_id).1)
unfolding remove_component
not_removed w id component_id node held absent = rw (held, remove_component) (rw absent refl)

remove_component-FailsUnchanged :
    (w : World) (id : NodeId) (component_id : String)
    → FailsUnchanged w.genome (remove_component w id component_id)
unfolding remove_component
remove_component-FailsUnchanged w id component_id e after h =
    elim (Option-cases (get id w.genome.nodes)) [
      | inl missing ↦
          leaves {r = remove_component w id component_id}
            {x = err (genome_error (node_not_found id))} {v = w}
            (rw (missing, remove_component) refl) h
      | inr (node, held) ↦ elim (Bool-cases (removes_component component_id node.prompt)) [
        | inl found ↦ absurd (ground (arith, removed w id component_id node held found))
        | inr absent ↦
            leaves (not_removed w id component_id node held absent) h
            ∙ write_node_same w id node _ held (λ i. record node {
              prompt = prompt_without_same component_id node.prompt absent i;
            })
      ]
    ]

discard_err :
    (r : Result GenomeError NodeId) (e : PatchError)
    → discard r ≡ err e
    → (e' : GenomeError) × (r ≡ err e')
discard_err (ok a) e h = absurd (ground arith)
discard_err (err e') e h = (e', refl)

add_child_patch-FailsUnchanged :
    (uuid : ℕ → String) (w : World) (p : NodeId) (child : ViableNode)
    → FailsUnchanged w.genome (discard (add_child uuid w p child).0, (add_child uuid w p child).1)
add_child_patch-FailsUnchanged uuid w p child e after h =
    let (e', q) = discard_err (add_child uuid w p child).0 e (ap (λ (r : Applied). r.0) h) in
    ap (λ (r : Applied). r.1.genome) (sym h)
    ∙ ap (λ (z : World). z.genome) (add_child-FailsUnchanged uuid w p child e' q)

removal-FailsUnchanged :
    (fuel : ℕ) (w : World) (id : NodeId) (e : PatchError) (after : World)
    → removal w (remove_subtree fuel w.genome id) ≡ some (err e, after)
    → after.genome ≡ w.genome
unfolding removal remove_subtree
removal-FailsUnchanged fuel w id e after h = ground arith

-- A patch that is no batch and returns an error has left the genome as it was.
pub apply_error-keeps :
    (patch : OrganizationalGenomePatch) (uuid : ℕ → String) (fuel : ℕ) (w : World) (e : PatchError)
    (after : World)
    → is_batch patch ≡ false
    → apply patch uuid fuel w ≡ some (err e, after)
    → after.genome ≡ w.genome
unfolding apply is_batch
apply_error-keeps (add_child_patch p child) uuid fuel w e after no_batch h =
    add_child_patch-FailsUnchanged uuid w p child e after (some-injective _ _ h)
apply_error-keeps (promote_leaf_to_metasystem id name) uuid fuel w e after no_batch h =
    promote-FailsUnchanged uuid w id name e after (some-injective _ _ h)
apply_error-keeps (remove_subtree_patch id) uuid fuel w e after no_batch h =
    removal-FailsUnchanged fuel w id e after h
apply_error-keeps (add_channel channel) uuid fuel w e after no_batch h = absurd (ground arith)
apply_error-keeps (remove_channel id) uuid fuel w e after no_batch h = absurd (ground arith)
apply_error-keeps (add_prompt_component id section c) uuid fuel w e after no_batch h =
    write_node-FailsUnchanged w id _ e after (some-injective _ _ h)
apply_error-keeps (remove_prompt_component id c) uuid fuel w e after no_batch h =
    remove_component-FailsUnchanged w id c e after (some-injective _ _ h)
apply_error-keeps (add_tool id tool) uuid fuel w e after no_batch h =
    write_node-FailsUnchanged w id _ e after (some-injective _ _ h)
apply_error-keeps (remove_tool id name) uuid fuel w e after no_batch h =
    write_node-FailsUnchanged w id _ e after (some-injective _ _ h)
apply_error-keeps (set_node_status id status) uuid fuel w e after no_batch h =
    write_node-FailsUnchanged w id _ e after (some-injective _ _ h)
apply_error-keeps (batch patches) uuid fuel w e after no_batch h = absurd (ground arith)
