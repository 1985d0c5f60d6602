-- ===== src/Controller/Resource/Allocation/Policy.antt =====
-- What limits the tokens that `allocate_resource_bargain` (crates/vsm-controller/src/runtime.rs) approves.
use vsm_agent_kernel.Base.{
  ℕ, ◌≤◌, ◌++◌, String, ◌≡◌, refl, true, false, Option, none, some, List, [], any, string_key, ◌==◌,
  arith, inl, inr,
}
use vsm_agent_kernel.Base.Decimal.{min_cap, minimum}
use vsm_agent_kernel.Base.Float.{Float}
use vsm_agent_kernel.Base.Json.{and_then}
use vsm_agent_kernel.Base.Results.{ok, Result-cases}
use vsm_agent_kernel.Core.Genome.{OrganizationalGenome, get_node}
use vsm_agent_kernel.Core.Id.{NodeId}
use vsm_agent_kernel.Core.Node.{ViableNode}
use vsm_agent_kernel.Core.Orders.{ResourceBargain}
use vsm_agent_kernel.Controller.Resource.Allocation.{
  Capped, cap_by_pressure, cap_by_epoch, approve_tokens, resource_task_token_cap, effective_cap,
  decide_tokens, decide_on, allocate_between, allocate_for, allocate_from,
  allocate_resource_bargain, is_zero,
}
use vsm_agent_kernel.Controller.Resource.Epoch.{
  ResourceEpochAccounting, remaining_tokens, remaining_messages, keep_some,
}
use vsm_agent_kernel.Controller.Resource.Pressure.{
  CoordinationPressureSummary, EnvironmentPressureSummary, coordination_pressure_token_cap,
  homeostat_resource_token_cap,
}

-- A cap, where there is one, is not exceeded.
abbrev pub Allows : Option ℕ → ℕ → Type 0
Allows none n = Unit
Allows (some cap) n = n ≤ cap

min_cap-Allows : (cap : Option ℕ) (new n : ℕ) → n ≤ min_cap cap new → (n ≤ new) × Allows cap n
min_cap-Allows none new n h = (h, tt)
min_cap-Allows (some cap) new n h = (ground arith, ground arith)

cap_by_pressure-Allows :
    (requested : ℕ) (cause : String) (o : Option ℕ) (c : Capped) (n : ℕ)
    → Allows (cap_by_pressure requested cause o c).cap n
    → Allows o n × Allows c.cap n
unfolding cap_by_pressure
cap_by_pressure-Allows requested cause none c n h = (tt, h)
cap_by_pressure-Allows requested cause (some new) c n h = min_cap-Allows c.cap new n h

cap_by_epoch-Allows :
    (requested : ℕ) (o : Option ℕ) (c : Capped) (n : ℕ)
    → Allows (cap_by_epoch requested o c).cap n
    → Allows o n × Allows c.cap n
unfolding cap_by_epoch
cap_by_epoch-Allows requested none c n h = (tt, h)
cap_by_epoch-Allows requested (some new) c n h = min_cap-Allows c.cap new n h

task_cap-Allows :
    (a b : Option ℕ) (n : ℕ)
    → Allows (minimum (keep_some a ++ keep_some b)) n
    → Allows a n × Allows b n
unfolding minimum
task_cap-Allows none none n h = (tt, tt)
task_cap-Allows none (some b) n h = (tt, h)
task_cap-Allows (some a) none n h = (h, tt)
task_cap-Allows (some a) (some b) n h = min_cap-Allows (some b) a n h

approve_tokens-Allows :
    (requested : ℕ) (cap : Option ℕ) (reasons : List String) (n : ℕ)
    → (approve_tokens requested cap reasons).0 ≡ some n
    → (n ≤ requested) × Allows cap n
unfolding approve_tokens
approve_tokens-Allows requested none reasons n h = (ground arith, tt)
approve_tokens-Allows requested (some cap) reasons n h = (ground arith, ground arith)

module _ {F : Type 0} ⦃f : Float F⦄ (environment : Option (EnvironmentPressureSummary F))
    (coordination : Option (CoordinationPressureSummary F))
    (epoch : Option ResourceEpochAccounting) where
  -- What has to hold for an approval of `n` tokens, of a node and the controller's node.
  pub record WithinPolicy (parent requester : ViableNode) (bargain : ResourceBargain) (n : ℕ)
      : Type 0 where
    pub child : any (λ child_id. child_id == requester.id) parent.children ≡ true
    pub allocates : parent.system_3.can_allocate_budget ≡ true
    pub message_left : is_zero (and_then epoch remaining_messages) ≡ false
    pub requested : ℕ
    pub asked : bargain.requested_tokens ≡ some requested
    pub within_request : n ≤ requested
    pub within_parent : Allows parent.system_3.default_task_budget_tokens n
    pub within_requester : Allows requester.context_policy.max_total_task_tokens n
    pub within_epoch : Allows (and_then epoch remaining_tokens) n
    pub within_homeostat :
        Allows
          (and_then environment (λ pressure. homeostat_resource_token_cap pressure requested))
          n
    pub within_coordination :
        Allows
          (and_then coordination (λ pressure. coordination_pressure_token_cap pressure requested))
          n

  decide_tokens-WithinPolicy :
      (parent requester : ViableNode) (bargain : ResourceBargain) (o : Option ℕ) (n : ℕ)
      → bargain.requested_tokens ≡ o
      → any (λ child_id. child_id == requester.id) parent.children ≡ true
      → parent.system_3.can_allocate_budget ≡ true
      → is_zero (and_then epoch remaining_messages) ≡ false
      → (decide_tokens parent requester o environment coordination epoch).0 ≡ some n
      → WithinPolicy parent requester bargain n
  unfolding decide_tokens effective_cap resource_task_token_cap
  decide_tokens-WithinPolicy parent requester bargain none n asked child allocates left h = cc
  decide_tokens-WithinPolicy parent requester bargain (some r) n asked child allocates left h =
      let first : Capped = record {
        cap = resource_task_token_cap parent requester;
        reasons = [];
      } in
      let homeostat = and_then environment (λ pressure. homeostat_resource_token_cap pressure r) in
      let coordinated =
        and_then coordination (λ pressure. coordination_pressure_token_cap pressure r) in
      let second = cap_by_pressure r "Three-Four homeostat resource pressure" homeostat first in
      let third = cap_by_pressure r "System 2 coordination pressure" coordinated second in
      let last = cap_by_epoch r (and_then epoch remaining_tokens) third in
      let granted = approve_tokens-Allows r last.cap last.reasons n h in
      let by_epoch = cap_by_epoch-Allows r (and_then epoch remaining_tokens) third n granted.1 in
      let by_two =
        cap_by_pressure-Allows r "System 2 coordination pressure" coordinated second n by_epoch.1 in
      let by_homeostat =
        cap_by_pressure-Allows r "Three-Four homeostat resource pressure" homeostat first n
          by_two.1 in
      let by_task =
        task_cap-Allows parent.system_3.default_task_budget_tokens
          requester.context_policy.max_total_task_tokens n by_homeostat.1 in
      record {
        child = child;
        allocates = allocates;
        message_left = left;
        requested = r;
        asked = asked;
        within_request = granted.0;
        within_parent = by_task.0;
        within_requester = by_task.1;
        within_epoch = by_epoch.0;
        within_homeostat = by_homeostat.0;
        within_coordination = by_two.0;
      }

  -- Past the guards, and not at an early return, the decision has tokens.
  abbrev Guarded : ViableNode → ViableNode → Type 0
  Guarded parent requester =
      (any (λ child_id. child_id == requester.id) parent.children ≡ true)
      × (parent.system_3.can_allocate_budget ≡ true)
      × (is_zero (and_then epoch remaining_messages) ≡ false)

  decide_on-tokens :
      (now : ℕ) (requester : ViableNode) (bargain : ResourceBargain) (t : Option ℕ × List String)
      → (decide_on now requester bargain t).approved_tokens ≡ t.0
  unfolding decide_on
  decide_on-tokens now requester bargain (tokens, reasons) = refl

  allocate_between-Guarded :
      (now : ℕ) (bargain : ResourceBargain) (parent requester : ViableNode) (n : ℕ)
      → (allocate_between now bargain environment coordination epoch parent
          requester).approved_tokens
        ≡ some n
      → Guarded parent requester
        × ((decide_tokens parent requester bargain.requested_tokens environment coordination
              epoch).0
            ≡ some n)
  unfolding allocate_between
  allocate_between-Guarded now bargain parent requester n h =
      let past =
        decide_on-tokens now requester bargain (
          decide_tokens parent requester bargain.requested_tokens environment coordination epoch) in
      ((ground arith, ground arith, ground arith), ground arith)

  abbrev pub Approval : OrganizationalGenome → NodeId → ResourceBargain → ℕ → Type 0
  Approval genome controller_node_id bargain n =
      (parent : ViableNode) × (requester : ViableNode) × (get_node genome controller_node_id
        ≡ ok parent)
      × (get_node genome bargain.requested_by ≡ ok requester)
      × WithinPolicy parent requester bargain n

  -- A decision that approves tokens is one on a bargain that asks for tokens, of a node that is in the genome
  -- and a direct child of the controller's node, which may allocate budget, while the epoch has a message
  -- left; and the tokens are no more than what is asked, the controller's budget per task, the requester's
  -- maximum per task, what is left of the epoch's budget, and the caps that the pressure of the homeostat and
  -- of coordination set, each where there is one.
  pub allocate_resource_bargain-WithinPolicy :
      (now : ℕ) (genome : OrganizationalGenome) (controller_node_id : NodeId)
      (bargain : ResourceBargain) (n : ℕ)
      → (allocate_resource_bargain now genome controller_node_id bargain environment coordination
          epoch).approved_tokens
        ≡ some n
      → Approval genome controller_node_id bargain n
  unfolding allocate_resource_bargain allocate_from allocate_for
  allocate_resource_bargain-WithinPolicy now genome controller_node_id bargain n h =
      elim (Result-cases (get_node genome controller_node_id)) [
        | inl (e, p) ↦ absurd (ground (arith, p))
        | inr (parent, p) ↦ elim (Result-cases (get_node genome bargain.requested_by)) [
          | inl (e, q) ↦ absurd (ground (arith, p, q))
          | inr (requester, q) ↦
              let granted : (Guarded parent requester)
                  × ((decide_tokens parent requester bargain.requested_tokens environment
                        coordination epoch).0
                      ≡ some n) =
                allocate_between-Guarded now bargain parent requester n (ground (arith, p, q)) in
              (
                parent,
                requester,
                p,
                q,
                decide_tokens-WithinPolicy parent requester bargain bargain.requested_tokens n refl
                    granted.0.0 granted.0.1 granted.0.2 granted.1,
              )
        ]
      ]
