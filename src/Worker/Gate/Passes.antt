-- ===== src/Worker/Gate/Passes.antt =====
-- What the worker's gate (crates/vsm-worker/src/harness.rs, `ensure_executable_leaf`) lets pass.
use vsm_agent_kernel.Base.{
  String, ◌≡◌, ◌↔◌, refl, sym, ◌∙◌, inl, inr, true, Option, none, some, string_key, arith,
  Bool-cases,
}
use vsm_agent_kernel.Base.Results.{Result, ok, err, ◌>>=◌}
use vsm_agent_kernel.Base.TreeMap.{get}
use vsm_agent_kernel.Core.Capability.{CapabilitySet, for_metasystem}
use vsm_agent_kernel.Core.Node.{ViableNode, capabilities, is_leaf, is_metasystem}
use vsm_agent_kernel.Core.Task.{TaskPacket}
use vsm_agent_kernel.Worker.Error.{WorkerError, not_executable_leaf}
use vsm_agent_kernel.Worker.Gate.{
  allowed, require_capability, is_true, require_code_write, require_named, ensure_executable_leaf,
}

-- The three demands of the gate, each on its own.
pub record MayExecute (node : ViableNode) (task : TaskPacket) : Type 0 where
  pub leaf : is_leaf node ≡ true
  pub code_write :
      is_true (get "requires_code_write" task.metadata) ≡ true
      → (capabilities node).can_write_code ≡ true
  pub named :
      (c : String)
      → get "required_capability" task.metadata ≡ some c
      → allowed c (capabilities node) ≡ true

pub allowed-write_code : (caps : CapabilitySet) → allowed "write_code" caps ≡ caps.can_write_code
unfolding allowed
allowed-write_code caps = refl

module _ (node : ViableNode) (task : TaskPacket) where
  code_write_passes :
      require_code_write node task ≡ ok tt
      → is_true (get "requires_code_write" task.metadata) ≡ true
      → (capabilities node).can_write_code ≡ true
  unfolding require_code_write
  code_write_passes h e = ground (arith, allowed-write_code (capabilities node))

  code_write_holds :
      (is_true (get "requires_code_write" task.metadata) ≡ true
        → (capabilities node).can_write_code ≡ true)
      → require_code_write node task ≡ ok tt
  unfolding require_capability
  code_write_holds f = elim (Bool-cases (is_true (get "requires_code_write" task.metadata))) [
    | inl e ↦
        unfold require_code_write in ground (arith, allowed-write_code (capabilities node), f e)
    | inr e ↦ unfold require_code_write in ground arith
  ]

  named_passes :
      (o : Option String)
      → require_named node o ≡ ok tt
      → (c : String) → o ≡ some c
      → allowed c (capabilities node) ≡ true
  unfolding require_named
  named_passes none h c e = absurd (ground arith)
  named_passes (some d) h c e = ground arith

  named_holds :
      (o : Option String)
      → ((c : String) → o ≡ some c → allowed c (capabilities node) ≡ true)
      → require_named node o ≡ ok tt
  unfolding require_named require_capability
  named_holds none f = refl
  named_holds (some d) f = rw (f d refl) refl

  leaf_then :
      is_leaf node ≡ true
      → ensure_executable_leaf node task ≡ (
          require_code_write node task >>= λ _.
          require_named node (get "required_capability" task.metadata))
  unfolding ensure_executable_leaf
  leaf_then leaf = rw leaf refl

  passes_leaf : ensure_executable_leaf node task ≡ ok tt → is_leaf node ≡ true
  unfolding ensure_executable_leaf
  passes_leaf h = ground arith

  both_pass :
      (m k : Result WorkerError (Unit {0})) → (m >>= λ _. k) ≡ ok tt → (m ≡ ok tt) × (k ≡ ok tt)
  both_pass (ok u) k h = (refl, h)
  both_pass (err e) k h = absurd (ground arith)

pub ensure_executable_leaf_iff :
    (node : ViableNode) (task : TaskPacket)
    → (ensure_executable_leaf node task ≡ ok tt) ↔ MayExecute node task
ensure_executable_leaf_iff node task = (
  λ h.
      let leaf = passes_leaf node task h in
      let (a, b) =
        both_pass node task (require_code_write node task)
          (require_named node (get "required_capability" task.metadata))
          (sym (leaf_then node task leaf) ∙ h) in
      record {
        leaf = leaf;
        code_write = code_write_passes node task a;
        named = λ c e. named_passes node task (get "required_capability" task.metadata) b c e;
      },
  λ m. rw (leaf_then node task m.leaf) (
      rw (code_write_holds node task m.code_write)
        (named_holds node task (get "required_capability" task.metadata) m.named)),
)

pub metasystem_never_executes :
    (node : ViableNode) (task : TaskPacket)
    → is_metasystem node ≡ true
    → (capabilities node ≡ for_metasystem)
      × (ensure_executable_leaf node task ≡ err (not_executable_leaf node.id))
unfolding ensure_executable_leaf is_leaf is_metasystem capabilities
metasystem_never_executes node task h = (ground arith, ground arith)
