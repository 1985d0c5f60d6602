-- ===== src/Controller/Resource/Allocation.antt =====
-- `allocate_resource_bargain` (crates/vsm-controller/src/runtime.rs): the controller's decision on a bargain.
-- `F` stands for `f64`, and `Utc::now()` is the argument `now`.
pub mod Policy
pub mod Statuses
pub mod Budgets
use Prim.Native.String.{◌++◌ as append_text}
use vsm_agent_kernel.Base.{
  ℕ, ◌+◌, String, Bool, true, false, not, ◌&&◌, ◌||◌, Option, none, some, List, [], ◌∷◌, ◌++◌, any,
  length, is_empty, retain, string_key, ◌==◌, ltb, nat_beq, if◌then◌else◌,
}
use vsm_agent_kernel.Base.Decimal.{decimal, least, minimum, min_cap}
use vsm_agent_kernel.Base.Float.{Float}
use vsm_agent_kernel.Base.Json.{and_then}
use vsm_agent_kernel.Base.Results.{Result, ok, err}
use vsm_agent_kernel.Base.TreeMap.{is_some}
use vsm_agent_kernel.Core.Genome.{OrganizationalGenome, GenomeError, get_node}
use vsm_agent_kernel.Core.Genome
use vsm_agent_kernel.Core.Id.{NodeId}
use vsm_agent_kernel.Core.Node.{ViableNode, ToolSpec}
use vsm_agent_kernel.Core.Orders.{
  ResourceBargain, ResourceAllocationStatus, ResourceAllocationDecision, approved,
  partially_approved, denied,
}
use vsm_agent_kernel.Controller.Resource.Epoch.{
  ResourceEpochAccounting, remaining_tokens, remaining_messages, keep_some,
}
use vsm_agent_kernel.Controller.Resource.Pressure.{
  CoordinationPressureSummary, EnvironmentPressureSummary, coordination_pressure_token_cap,
  homeostat_resource_token_cap,
}

-- The `Display` of the error.
abbrev pub genome_error_text : GenomeError → String
genome_error_text (Genome.node_not_found id) = append_text "node not found: " id
genome_error_text (Genome.node_already_exists id) = append_text "node already exists: " id
genome_error_text Genome.root_cannot_have_parent = "root node cannot have a parent"
genome_error_text Genome.cycle_detected = "parent-child cycle detected"
genome_error_text Genome.cannot_remove_root = "cannot remove root node"

abbrev pub resource_allocation_decision :
    ℕ
    → ResourceBargain
    → ResourceAllocationStatus
    → Option ℕ
    → List String
    → List String
    → List String
    → List String
    → List String
    → ResourceAllocationDecision
resource_allocation_decision now bargain status tokens tools no_tools refs no_refs reasons =
    record {
      requested_by = bargain.requested_by;
      task_id = bargain.task_id;
      status = status;
      approved_tokens = tokens;
      approved_tool_permissions = tools;
      denied_tool_permissions = no_tools;
      approved_context_refs = refs;
      denied_context_refs = no_refs;
      reasons = reasons;
      allocation_policy = "system3_genome_resource_policy_v1";
      created_at = now;
    }

-- The decision of an early return.
abbrev pub deny : ℕ → ResourceBargain → String → ResourceAllocationDecision
deny now bargain reason =
    resource_allocation_decision now bargain denied none [] bargain.requested_tool_permissions []
      bargain.requested_context_refs (reason ∷ [])

abbrev pub resource_allocation_accepts_work : ResourceAllocationDecision → Bool
resource_allocation_accepts_work decision = elim decision.status [
  | approved ↦ true
  | partially_approved ↦ true
  | denied ↦ false
]

unfoldable pub resource_task_token_cap : ViableNode → ViableNode → Option ℕ
unfolding minimum
resource_task_token_cap parent requester = minimum (
    keep_some parent.system_3.default_task_budget_tokens
    ++ keep_some requester.context_policy.max_total_task_tokens)

abbrev pub tool_grants : String → ToolSpec → Bool
tool_grants permission tool =
    tool.enabled
    && ((tool.name == permission) || any (λ granted. granted == permission) tool.permissions)

unfoldable pub tool_permission_allowed : ViableNode → String → Bool
unfolding any
tool_permission_allowed node permission =
    if any (λ no_tool. no_tool == permission) node.permissions.denied_tools
    then false
    else if not (is_empty node.permissions.allowed_tools)
    then any (λ tool. tool == permission) node.permissions.allowed_tools
    else if is_empty node.tools
    then true
    else any (tool_grants permission) node.tools

unfoldable pub context_ref_allowed : ViableNode → String → Bool
unfolding any
context_ref_allowed node context_ref =
    let policy = node.context_policy in
    if is_empty policy.fixed_context_refs && is_empty policy.retrievable_context_refs
    then true
    else any (λ allowed. allowed == context_ref)
        (policy.fixed_context_refs ++ policy.retrievable_context_refs)

-- A loop that sorts the requests into those that pass and those that do not, which are also reasons.
unfoldable pub denial_reasons : String → (String → Bool) → List String → List String
denial_reasons label test [] = []
denial_reasons label test (request ∷ requests) =
    (if test request then [] else append_text label request ∷ [])
    ++ denial_reasons label test requests

-- The token cap so far, with the reasons.
pub record Capped : Type 0 where
  pub cap : Option ℕ
  pub reasons : List String

-- `token_cap.map(|cap| new < cap).unwrap_or(true)`.
abbrev pub tightens : ℕ → Option ℕ → Bool
tightens new none = true
tightens new (some cap) = ltb new cap

abbrev pub capped_text : ℕ → ℕ → String → String
capped_text requested cap cause = append_text "requested_tokens=" (
    append_text (decimal requested)
      (append_text " capped_to=" (append_text (decimal cap) (append_text " by " cause))))

unfoldable pub cap_by_pressure : ℕ → String → Option ℕ → Capped → Capped
unfolding decimal
cap_by_pressure requested cause none c = c
cap_by_pressure requested cause (some new) c = record {
  cap = some (min_cap c.cap new);
  reasons =
      if tightens new c.cap
      then c.reasons ++ capped_text requested (min_cap c.cap new) cause ∷ []
      else c.reasons;
}

unfoldable pub cap_by_epoch : ℕ → Option ℕ → Capped → Capped
unfolding decimal
cap_by_epoch requested none c = c
cap_by_epoch requested (some remaining) c = record {
  cap = some (min_cap c.cap remaining);
  reasons =
      if nat_beq remaining 0
      then c.reasons ++ "ResourceBargaining token budget exhausted for this epoch" ∷ []
      else if tightens remaining c.cap && ltb remaining requested
      then c.reasons ++ capped_text requested remaining "ResourceBargaining epoch budget" ∷ []
      else c.reasons;
}

-- The `match` on the token cap: the approved tokens, with the reasons.
unfoldable pub approve_tokens : ℕ → Option ℕ → List String → Option ℕ × List String
unfolding decimal
approve_tokens requested none reasons = (some requested, reasons)
approve_tokens requested (some cap) reasons =
    if nat_beq cap 0
    then (none, reasons ++ "token request denied because effective token cap is zero" ∷ [])
    else if ltb cap requested
    then (some cap, reasons ++ capped_text requested cap "System 3 resource policy" ∷ [])
    else (some requested, reasons)

abbrev pub count_tokens : Option ℕ → ℕ
count_tokens none = 0
count_tokens (some tokens) = 1

abbrev pub one_if : Bool → ℕ
one_if b = if b then 1 else 0

abbrev pub partly : Option ℕ → Option ℕ → Bool
partly none _ = false
partly (some requested) none = false
partly (some requested) (some tokens) = ltb tokens requested

-- The status from the numbers of requests, of approvals and of denials.
unfoldable pub choose_status : ℕ → ℕ → ℕ → ResourceAllocationStatus
choose_status requested approvals denials =
    if nat_beq requested 0
    then denied
    else if nat_beq approvals requested && nat_beq denials 0
    then approved
    else if ltb 0 approvals
    then partially_approved
    else denied

unfoldable pub status_reasons : ℕ → ℕ → ℕ → List String
status_reasons requested approvals denials =
    if nat_beq requested 0
    then "no concrete resource request supplied" ∷ []
    else if nat_beq approvals requested && nat_beq denials 0
    then "resource bargain approved within System 3 policy" ∷ []
    else []

-- The part of the function behind the early returns and the tokens.
unfoldable pub decide_on :
    ℕ → ViableNode → ResourceBargain → Option ℕ × List String → ResourceAllocationDecision
unfolding tool_permission_allowed context_ref_allowed denial_reasons retain choose_status
    status_reasons
decide_on now requester bargain (tokens, token_reasons) =
    let tool_ok = tool_permission_allowed requester in
    let ref_ok = context_ref_allowed requester in
    let tools = retain tool_ok bargain.requested_tool_permissions in
    let no_tools = retain (λ p. not (tool_ok p)) bargain.requested_tool_permissions in
    let refs = retain ref_ok bargain.requested_context_refs in
    let no_refs = retain (λ r. not (ref_ok r)) bargain.requested_context_refs in
    let requested =
      count_tokens bargain.requested_tokens
      + length bargain.requested_tool_permissions
      + length bargain.requested_context_refs in
    let approvals = count_tokens tokens + length tools + length refs in
    let denials =
      length no_tools
      + length no_refs
      + one_if (is_some bargain.requested_tokens && not (is_some tokens))
      + one_if (partly bargain.requested_tokens tokens) in
    resource_allocation_decision now bargain (choose_status requested approvals denials) tokens
      tools no_tools refs no_refs
      (token_reasons
        ++ (denial_reasons "tool_permission_denied=" tool_ok bargain.requested_tool_permissions
            ++ (denial_reasons "context_ref_denied=" ref_ok bargain.requested_context_refs
                ++ status_reasons requested approvals denials)))

abbrev pub is_zero : Option ℕ → Bool
is_zero none = false
is_zero (some n) = nat_beq n 0

module _ {F : Type 0} ⦃f : Float F⦄ where
  -- The three further caps are applied in turn.
  unfoldable pub effective_cap :
      ViableNode
      → ViableNode
      → ℕ
      → Option (EnvironmentPressureSummary F)
      → Option (CoordinationPressureSummary F)
      → Option ResourceEpochAccounting
      → Capped
  unfolding resource_task_token_cap cap_by_pressure cap_by_epoch homeostat_resource_token_cap
      coordination_pressure_token_cap remaining_tokens
  effective_cap parent requester requested environment coordination epoch =
      let first : Capped = record {
        cap = resource_task_token_cap parent requester;
        reasons = [];
      } in
      let second =
        cap_by_pressure requested "Three-Four homeostat resource pressure"
          (and_then environment (λ pressure. homeostat_resource_token_cap pressure requested))
          first in
      let third =
        cap_by_pressure requested "System 2 coordination pressure"
          (and_then coordination (λ pressure. coordination_pressure_token_cap pressure requested))
          second in
      cap_by_epoch requested (and_then epoch remaining_tokens) third

  unfoldable pub decide_tokens :
      ViableNode
      → ViableNode
      → Option ℕ
      → Option (EnvironmentPressureSummary F)
      → Option (CoordinationPressureSummary F)
      → Option ResourceEpochAccounting
      → Option ℕ × List String
  unfolding effective_cap approve_tokens
  decide_tokens parent requester none environment coordination epoch = (none, [])
  decide_tokens parent requester (some requested) environment coordination epoch =
      let capped = effective_cap parent requester requested environment coordination epoch in
      approve_tokens requested capped.cap capped.reasons

  -- The guards past the two lookups.
  unfoldable pub allocate_between :
      ℕ
      → ResourceBargain
      → Option (EnvironmentPressureSummary F)
      → Option (CoordinationPressureSummary F)
      → Option ResourceEpochAccounting
      → ViableNode
      → ViableNode
      → ResourceAllocationDecision
  unfolding decide_on decide_tokens any remaining_messages
  allocate_between now bargain environment coordination epoch parent requester =
      if not (any (λ child_id. child_id == requester.id) parent.children)
      then deny now bargain
          "requesting node is not a direct System 1 child of this System 3 controller"
      else if not parent.system_3.can_allocate_budget
      then deny now bargain "System 3 resource allocation disabled by genome policy"
      else if is_zero (and_then epoch remaining_messages)
      then deny now bargain "ResourceBargaining message budget exhausted for this epoch"
      else decide_on now requester bargain
          (decide_tokens parent requester bargain.requested_tokens environment coordination epoch)

  -- With the outcome of the requester's lookup as the last argument.
  unfoldable pub allocate_for :
      ℕ
      → ResourceBargain
      → Option (EnvironmentPressureSummary F)
      → Option (CoordinationPressureSummary F)
      → Option ResourceEpochAccounting
      → ViableNode
      → Result GenomeError ViableNode
      → ResourceAllocationDecision
  unfolding allocate_between
  allocate_for now bargain environment coordination epoch parent (err e) =
      deny now bargain (append_text "requesting node unavailable: " (genome_error_text e))
  allocate_for now bargain environment coordination epoch parent (ok requester) =
      allocate_between now bargain environment coordination epoch parent requester

  -- With the outcomes of both lookups as the last arguments.
  unfoldable pub allocate_from :
      ℕ
      → ResourceBargain
      → Option (EnvironmentPressureSummary F)
      → Option (CoordinationPressureSummary F)
      → Option ResourceEpochAccounting
      → Result GenomeError ViableNode
      → Result GenomeError ViableNode
      → ResourceAllocationDecision
  unfolding allocate_for
  allocate_from now bargain environment coordination epoch (err e) requester =
      deny now bargain (append_text "controller node unavailable: " (genome_error_text e))
  allocate_from now bargain environment coordination epoch (ok parent) requester =
      allocate_for now bargain environment coordination epoch parent requester

  unfoldable pub allocate_resource_bargain :
      ℕ
      → OrganizationalGenome
      → NodeId
      → ResourceBargain
      → Option (EnvironmentPressureSummary F)
      → Option (CoordinationPressureSummary F)
      → Option ResourceEpochAccounting
      → ResourceAllocationDecision
  unfolding allocate_from get_node
  allocate_resource_bargain now genome controller_node_id bargain environment coordination epoch =
      allocate_from now bargain environment coordination epoch (get_node genome controller_node_id)
        (get_node genome bargain.requested_by)
