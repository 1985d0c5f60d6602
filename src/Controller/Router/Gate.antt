-- ===== src/Controller/Router/Gate.antt =====
-- The eligibility test of the router (crates/vsm-controller/src/router.rs) against the gate of the
-- worker harness (crates/vsm-worker/src/harness.rs).
use vsm_agent_kernel.Base.{
  String, ◌≡◌, ◌↔◌, ◌⊎◌, refl, inl, inr, Bool, true, false, not, ◌&&◌, ◌||◌, some, string_key,
  arith, sym, ◌∙◌, and-left, and-right, or-left, or-right, Bool-cases, Option-cases, if◌then◌else◌,
}
use vsm_agent_kernel.Base.Results.{ok}
use vsm_agent_kernel.Base.TreeMap.{get}
use vsm_agent_kernel.Core.Capability.{CapabilitySet}
use vsm_agent_kernel.Core.Node.{ViableNode, capabilities, is_metasystem, is_leaf}
use vsm_agent_kernel.Core.Task.{TaskPacket}
use vsm_agent_kernel.Worker.Gate.Passes.{ensure_executable_leaf_iff}
use vsm_agent_kernel.Worker.Gate.{ensure_executable_leaf, allowed, is_true}
use vsm_agent_kernel.Controller.Router.{
  is_retired, capability_allowed, requires_code_write, code_ok, required_ok,
}

-- A child that is not retired, and delegates further or passes the worker's gate.
abbrev pub Accepts : ViableNode → TaskPacket → Type 0
Accepts child task =
    (is_retired child.status ≡ false)
    × ((is_metasystem child ≡ true) ⊎ (ensure_executable_leaf child task ≡ ok tt))

unfoldable pub eligible : TaskPacket → ViableNode → Bool
eligible task child =
    not (is_retired child.status)
    && (is_metasystem child
        || (code_ok task (capabilities child) && required_ok task (capabilities child)))

allowed_agree : (c : String) (caps : CapabilitySet) → allowed c caps ≡ capability_allowed c caps
unfolding allowed capability_allowed
allowed_agree c caps = refl

leaf_or_metasystem :
    (node : ViableNode) → is_leaf node ≡ (if is_metasystem node then false else true)
unfolding is_leaf is_metasystem
leaf_or_metasystem node = ground arith

module _ (task : TaskPacket) (caps : CapabilitySet) where
  required_same : requires_code_write task ≡ is_true (get "requires_code_write" task.metadata)
  unfolding requires_code_write is_true
  required_same = ground arith

  writes :
      code_ok task caps ≡ true
      → is_true (get "requires_code_write" task.metadata) ≡ true
      → caps.can_write_code ≡ true
  unfolding code_ok
  writes h e = ground (arith, required_same)

  writes_back :
      (is_true (get "requires_code_write" task.metadata) ≡ true → caps.can_write_code ≡ true)
      → code_ok task caps ≡ true
  unfolding code_ok
  writes_back f = elim (Bool-cases (is_true (get "requires_code_write" task.metadata))) [
    | inl e ↦ or-right (not (requires_code_write task)) _ (f e)
    | inr e ↦ or-left (not (requires_code_write task)) _ (ground (arith, required_same))
  ]

  named :
      (c : String)
      → get "required_capability" task.metadata ≡ some c
      → required_ok task caps ≡ true
      → capability_allowed c caps ≡ true
  unfolding required_ok
  named c e h = rw (e, required_ok) at h

  named_back :
      ((c : String)
        → get "required_capability" task.metadata ≡ some c
        → capability_allowed c caps ≡ true)
      → required_ok task caps ≡ true
  unfolding required_ok
  named_back f = elim (Option-cases (get "required_capability" task.metadata)) [
    | inl e ↦ rw (e, required_ok) refl
    | inr (c, e) ↦ rw (e, required_ok) (f c e)
  ]

-- On a leaf the router's test passes exactly when the worker's gate does.
gate_iff :
    (child : ViableNode) (task : TaskPacket)
    → is_metasystem child ≡ false
    → ((code_ok task (capabilities child) && required_ok task (capabilities child)) ≡ true)
      ↔ (ensure_executable_leaf child task ≡ ok tt)
gate_iff child task leaf = (
  λ h. (ensure_executable_leaf_iff child task).1 (record {
    leaf = ground (arith, leaf_or_metasystem child);
    code_write = λ e.
        writes task (capabilities child) (and-left _ (required_ok task (capabilities child)) h) e;
    named = λ c e.
        allowed_agree c (capabilities child)
        ∙ named task (capabilities child) c e (and-right (code_ok task (capabilities child)) _ h);
  }),
  λ h.
      let m = (ensure_executable_leaf_iff child task).0 h in
      ground (
        arith,
        writes_back task (capabilities child) m.code_write,
        named_back task (capabilities child)
            (λ c e. sym (allowed_agree c (capabilities child)) ∙ m.named c e),
      ),
)

-- The router's test is `Accepts`.
pub eligible_iff :
    (task : TaskPacket) (child : ViableNode) → (eligible task child ≡ true) ↔ Accepts child task
unfolding eligible
eligible_iff task child = elim (Bool-cases (is_metasystem child)) [
  | inl meta ↦ (λ h. (ground arith, inl meta), λ a. ground (arith, a.0))
  | inr leaf ↦ (
    λ h. (ground arith, inr ((gate_iff child task leaf).0 (ground arith))),
    λ a. elim a.1 [
      | inl meta ↦ absurd (ground arith)
      | inr gate ↦ ground (arith, a.0, (gate_iff child task leaf).1 gate)
    ],
  )
]
