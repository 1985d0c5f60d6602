-- ===== src/Controller/Resource/Allocation/Statuses.antt =====
-- What the decision of `allocate_resource_bargain` (crates/vsm-controller/src/runtime.rs) says of the requests.
use vsm_agent_kernel.Base.{
  ℕ, ◌+◌, ◌≤◌, ◌≡◌, refl, Bool, true, false, not, ◌&&◌, ◌||◌, Option, none, some, List, [], ◌∷◌,
  any, contains, length, retain, string_key, ◌==◌, String, arith, Bool-cases, inl, inr, ltb,
  nat_beq, length-retain, if◌then◌else◌,
}
use vsm_agent_kernel.Base.Float.{Float}
use vsm_agent_kernel.Base.Json.{and_then}
use vsm_agent_kernel.Base.Results.{Result, ok, err}
use vsm_agent_kernel.Base.TreeMap.{is_some}
use vsm_agent_kernel.Core.Genome.{OrganizationalGenome, GenomeError, get_node}
use vsm_agent_kernel.Core.Id.{NodeId}
use vsm_agent_kernel.Core.Node.{ViableNode}
use vsm_agent_kernel.Core.Orders.{ResourceBargain, ResourceAllocationDecision, approved, denied}
use vsm_agent_kernel.Controller.Resource.Allocation.{
  approve_tokens, count_tokens, one_if, partly, choose_status, effective_cap, decide_tokens,
  decide_on, allocate_between, allocate_for, allocate_from, allocate_resource_bargain, is_zero,
  deny, tool_permission_allowed, context_ref_allowed,
}
use vsm_agent_kernel.Controller.Resource.Epoch.{ResourceEpochAccounting, remaining_messages}
use vsm_agent_kernel.Controller.Resource.Pressure.{
  CoordinationPressureSummary, EnvironmentPressureSummary,
}

-- Each request stands in exactly one of the two lists.
abbrev pub Sorted : List String → List String → List String → Type 0
Sorted requests granted refused =
    (r : String)
    → ((contains granted r || contains refused r) ≡ contains requests r)
      × ((contains granted r && contains refused r) ≡ false)

contains-retain :
    (test : String → Bool) (requests : List String) (r : String)
    → contains (retain test requests) r ≡ (contains requests r && test r)
unfolding contains retain
contains-retain test [] r = refl
contains-retain test (q ∷ qs) r = ground (arith, contains-retain test qs r, string_key.beq_iff q r)

retain-Sorted :
    (test : String → Bool) (requests : List String)
    → Sorted requests (retain test requests) (retain (λ r. not (test r)) requests)
retain-Sorted test requests r = (
  ground (arith, contains-retain test requests r, contains-retain (λ q. not (test q)) requests r),
  ground (arith, contains-retain test requests r, contains-retain (λ q. not (test q)) requests r),
)

denied-Sorted : (requests : List String) → Sorted requests [] requests
unfolding contains
denied-Sorted requests r = (refl, refl)

-- What a decision says of a bargain.
pub record Answers (bargain : ResourceBargain) (d : ResourceAllocationDecision) : Type 0 where
  pub for_requester : d.requested_by ≡ bargain.requested_by
  pub for_task : d.task_id ≡ bargain.task_id
  pub tools :
      Sorted bargain.requested_tool_permissions d.approved_tool_permissions
        d.denied_tool_permissions
  pub refs : Sorted bargain.requested_context_refs d.approved_context_refs d.denied_context_refs
  pub nothing :
      d.status ≡ denied
      → (d.approved_tokens ≡ none)
        × (d.approved_tool_permissions ≡ [])
        × (d.approved_context_refs ≡ [])
  pub everything :
      d.status ≡ approved
      → (d.approved_tokens ≡ bargain.requested_tokens)
        × (d.denied_tool_permissions ≡ [])
        × (d.denied_context_refs ≡ [])

length_zero {ℓ} : {A : Type ℓ} (xs : List A) → length xs ≡ 0 → xs ≡ []
length_zero [] h = refl
length_zero (x ∷ xs) h = absurd (omega arith)

-- `denied` is chosen only where nothing is approved, `approved` only where nothing is denied.
choose_status-denied :
    (requested approvals denials : ℕ)
    → approvals ≤ requested
    → choose_status requested approvals denials ≡ denied
    → approvals ≡ 0
unfolding choose_status
choose_status-denied requested approvals denials le h = ground arith

choose_status-approved :
    (requested approvals denials : ℕ)
    → choose_status requested approvals denials ≡ approved
    → denials ≡ 0
unfolding choose_status
choose_status-approved requested approvals denials h = ground arith

-- Tokens are approved only where some are asked for, and no more than that.
abbrev Fits : Option ℕ → Option ℕ → Type 0
Fits none none = Unit
Fits none (some n) = ⊥
Fits (some r) none = Unit
Fits (some r) (some n) = n ≤ r

count-Fits :
    (asked tokens : Option ℕ) → Fits asked tokens → count_tokens tokens ≤ count_tokens asked
count-Fits none none h = omega arith
count-Fits none (some n) h = absurd h
count-Fits (some r) none h = omega arith
count-Fits (some r) (some n) h = omega arith

none-Fits : (tokens : Option ℕ) → count_tokens tokens ≡ 0 → tokens ≡ none
none-Fits none h = refl
none-Fits (some n) h = absurd (omega arith)

all-Fits :
    (asked tokens : Option ℕ)
    → Fits asked tokens
    → one_if (is_some asked && not (is_some tokens)) ≡ 0
    → one_if (partly asked tokens) ≡ 0
    → tokens ≡ asked
all-Fits none none h p q = refl
all-Fits none (some n) h p q = absurd h
all-Fits (some r) none h p q = absurd (omega arith)
all-Fits (some r) (some n) h p q = ground arith

decide_on-Answers :
    (now : ℕ) (requester : ViableNode) (bargain : ResourceBargain) (tokens : Option ℕ)
    (reasons : List String)
    → Fits bargain.requested_tokens tokens
    → Answers bargain (decide_on now requester bargain (tokens, reasons))
unfolding decide_on
decide_on-Answers now requester bargain tokens reasons fits =
    let tool_ok = tool_permission_allowed requester in
    let ref_ok = context_ref_allowed requester in
    let tools = retain tool_ok bargain.requested_tool_permissions in
    let no_tools = retain (λ p. not (tool_ok p)) bargain.requested_tool_permissions in
    let refs = retain ref_ok bargain.requested_context_refs in
    let no_refs = retain (λ r. not (ref_ok r)) bargain.requested_context_refs in
    let requested =
      count_tokens bargain.requested_tokens
      + length bargain.requested_tool_permissions
      + length bargain.requested_context_refs in
    let approvals = count_tokens tokens + length tools + length refs in
    let missing = one_if (is_some bargain.requested_tokens && not (is_some tokens)) in
    let part = one_if (partly bargain.requested_tokens tokens) in
    let denials = length no_tools + length no_refs + missing + part in
    let le : approvals ≤ requested = omega (
      arith,
      count-Fits bargain.requested_tokens tokens fits,
      length-retain {0} tool_ok bargain.requested_tool_permissions,
      length-retain {0} ref_ok bargain.requested_context_refs,
    ) in
    record {
      for_requester = refl;
      for_task = refl;
      tools = retain-Sorted tool_ok bargain.requested_tool_permissions;
      refs = retain-Sorted ref_ok bargain.requested_context_refs;
      nothing = λ h.
          let zero_approvals : approvals ≡ 0 =
            choose_status-denied requested approvals denials le h in
          (
            none-Fits tokens (omega arith),
            length_zero tools (omega arith),
            length_zero refs (omega arith),
          );
      everything = λ h.
          let zero_denials : denials ≡ 0 = choose_status-approved requested approvals denials h in
          (
            all-Fits bargain.requested_tokens tokens fits (omega arith) (omega arith),
            length_zero no_tools (omega arith),
            length_zero no_refs (omega arith),
          );
    }

deny-Answers :
    (now : ℕ) (bargain : ResourceBargain) (reason : String)
    → Answers bargain (deny now bargain reason)
deny-Answers now bargain reason = record {
  for_requester = refl;
  for_task = refl;
  tools = denied-Sorted bargain.requested_tool_permissions;
  refs = denied-Sorted bargain.requested_context_refs;
  nothing = λ _. (refl, refl, refl);
  everything = λ h. cc;
}

approve_tokens-Fits :
    (requested : ℕ) (cap : Option ℕ) (reasons : List String)
    → Fits (some requested) (approve_tokens requested cap reasons).0
unfolding approve_tokens
approve_tokens-Fits requested none reasons = omega arith
approve_tokens-Fits requested (some cap) reasons = elim (Bool-cases (nat_beq cap 0)) [
  | inl z ↦ rw z tt
  | inr z ↦ rw z (elim (Bool-cases (ltb cap requested)) [
    | inl l ↦ rw l (ground arith)
    | inr l ↦ rw l (omega arith)
  ])
]

-- What both branches have, the choice has.
if_both {ℓ κ} :
    {A : Type ℓ} (P : A → Type κ) (b : Bool) {x y : A} → P x → P y → P (if b then x else y)
if_both P true p q = p
if_both P false p q = q

module _ {F : Type 0} ⦃f : Float F⦄ (environment : Option (EnvironmentPressureSummary F))
    (coordination : Option (CoordinationPressureSummary F))
    (epoch : Option ResourceEpochAccounting) where
  decide_tokens-Fits :
      (parent requester : ViableNode) (asked : Option ℕ)
      → Fits asked (decide_tokens parent requester asked environment coordination epoch).0
  unfolding decide_tokens
  decide_tokens-Fits parent requester none = tt
  decide_tokens-Fits parent requester (some r) =
      let capped = effective_cap parent requester r environment coordination epoch in
      approve_tokens-Fits r capped.cap capped.reasons

  allocate_between-Answers :
      (now : ℕ) (bargain : ResourceBargain) (parent requester : ViableNode)
      → Answers bargain
          (allocate_between now bargain environment coordination epoch parent requester)
  unfolding allocate_between
  allocate_between-Answers now bargain parent requester =
      let tokens =
        decide_tokens parent requester bargain.requested_tokens environment coordination epoch in
      if_both (Answers bargain) (not (any (λ child_id. child_id == requester.id) parent.children))
        (deny-Answers now bargain
          "requesting node is not a direct System 1 child of this System 3 controller")
        (if_both (Answers bargain) (not parent.system_3.can_allocate_budget)
          (deny-Answers now bargain "System 3 resource allocation disabled by genome policy")
          (if_both (Answers bargain) (is_zero (and_then epoch remaining_messages))
            (deny-Answers now bargain "ResourceBargaining message budget exhausted for this epoch")
            (decide_on-Answers now requester bargain tokens.0 tokens.1
              (decide_tokens-Fits parent requester bargain.requested_tokens))))

  allocate_from-Answers :
      (now : ℕ) (bargain : ResourceBargain) (a b : Result GenomeError ViableNode)
      → Answers bargain (allocate_from now bargain environment coordination epoch a b)
  unfolding allocate_from allocate_for
  allocate_from-Answers now bargain (err e) b = deny-Answers now bargain _
  allocate_from-Answers now bargain (ok parent) (err e) = deny-Answers now bargain _
  allocate_from-Answers now bargain (ok parent) (ok requester) =
      allocate_between-Answers now bargain parent requester

  pub allocate_resource_bargain-Answers :
      (now : ℕ) (genome : OrganizationalGenome) (controller_node_id : NodeId)
      (bargain : ResourceBargain)
      → Answers bargain (
          allocate_resource_bargain now genome controller_node_id bargain environment coordination
            epoch)
  unfolding allocate_resource_bargain
  allocate_resource_bargain-Answers now genome controller_node_id bargain =
      allocate_from-Answers now bargain (get_node genome controller_node_id)
        (get_node genome bargain.requested_by)
