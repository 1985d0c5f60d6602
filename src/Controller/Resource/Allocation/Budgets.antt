-- ===== src/Controller/Resource/Allocation/Budgets.antt =====
-- The decisions of one epoch, one after the other (crates/vsm-controller/src/runtime.rs): what
-- `resource_epoch_accounting` reads from the events that `handle_resource_bargain` records.
use Prim.Native.Nat.{◌^◌}
use vsm_agent_kernel.Base.{
  ℕ, ◌+◌, ◌-◌, ◌≤◌, ◌<◌, ◌≡◌, refl, ◌∙◌, String, true, false, Option, none, some, List, [], ◌∷◌,
  string_key, ◌==◌, ==_refl, arith,
}
use vsm_agent_kernel.Base.Decimal.{decimal}
use vsm_agent_kernel.Base.Decimal.RoundTrip.{parse_u64-decimal}
use vsm_agent_kernel.Base.Entries.{unwrap_or}
use vsm_agent_kernel.Base.Float.{Float}
use vsm_agent_kernel.Base.Json.{Json}
use vsm_agent_kernel.Base.TreeMap.{TreeMap, get, insert, get-insert}
use vsm_agent_kernel.Core.Genome.{OrganizationalGenome}
use vsm_agent_kernel.Core.Id.{NodeId}
use vsm_agent_kernel.Core.Orders.{ResourceBargain, ResourceAllocationDecision}
use vsm_agent_kernel.Controller.Resource.Allocation.{allocate_resource_bargain}
use vsm_agent_kernel.Controller.Resource.Allocation.Policy.{allocate_resource_bargain-WithinPolicy}
use vsm_agent_kernel.Controller.Resource.Epoch.{
  ResourceEpochAccounting, remaining_tokens, insert_number, add_resource_epoch_metadata,
  event_tokens, counts_for, count_event,
}
use vsm_agent_kernel.Controller.Resource.Pressure.{
  CoordinationPressureSummary, EnvironmentPressureSummary,
}
use vsm_agent_kernel.Controller.Trial.Operations.{saturating_add}
use vsm_agent_kernel.Ledger.Event.{LedgerEvent}

-- The accounting that counts one more decision.
abbrev pub spend : Option ℕ → ResourceEpochAccounting → ResourceEpochAccounting
spend approved_tokens e = record e {
  allocation_count = saturating_add e.allocation_count 1;
  allocated_tokens = saturating_add e.allocated_tokens (unwrap_or 0 approved_tokens);
}

-- A bargain as it reaches the decision, with the genome and the pressure at that time.
pub record Round (F : Type 0) : Type 0 where
  pub now : ℕ
  pub genome : OrganizationalGenome
  pub bargain : ResourceBargain
  pub environment : EnvironmentPressureSummary F
  pub coordination : CoordinationPressureSummary F

module _ {F : Type 0} ⦃f : Float F⦄ (controller_node_id : NodeId) where
  abbrev pub decide : ResourceEpochAccounting → Round F → ResourceAllocationDecision
  decide e r =
      allocate_resource_bargain r.now r.genome controller_node_id r.bargain (some r.environment)
        (some r.coordination) (some e)

  -- The tokens approved over all rounds, each decided with what the earlier ones left.
  unfoldable pub approved_total : ResourceEpochAccounting → List (Round F) → ℕ
  unfolding allocate_resource_bargain saturating_add
  approved_total e [] = 0
  approved_total e (r ∷ rs) =
      let tokens = (decide e r).approved_tokens in
      unwrap_or 0 tokens + approved_total (spend tokens e) rs

  decide-le :
      (e : ResourceEpochAccounting) (r : Round F) (budget : ℕ)
      → e.token_budget ≡ some budget
      → (o : Option ℕ) → (decide e r).approved_tokens ≡ o
      → unwrap_or 0 o ≤ budget - e.allocated_tokens
  unfolding remaining_tokens
  decide-le e r budget h none p = omega arith
  decide-le e r budget h (some n) p =
      let (parent, requester, found, asked, policy) =
        allocate_resource_bargain-WithinPolicy (some r.environment) (some r.coordination) (some e)
          r.now r.genome controller_node_id r.bargain n p in
      let within = policy.within_epoch in ground (arith, within, h)

  pub approved_total-le :
      (e : ResourceEpochAccounting) (rs : List (Round F)) (budget : ℕ)
      → e.token_budget ≡ some budget
      → budget < 2 ^ 64
      → approved_total e rs ≤ budget - e.allocated_tokens
  unfolding approved_total saturating_add
  approved_total-le e [] budget h k = omega arith
  approved_total-le e (r ∷ rs) budget h k =
      let tokens = (decide e r).approved_tokens in
      ground (
        arith,
        decide-le e r budget h tokens refl,
        approved_total-le (spend tokens e) rs budget h k,
      )

-- The metadata of a recorded event, of the requester and the epoch.
abbrev pub recorded :
    TreeMap String String → NodeId → ResourceEpochAccounting → Option ℕ → TreeMap String String
recorded metadata requested_by e approved_tokens =
    add_resource_epoch_metadata (insert "requested_by" requested_by metadata) e approved_tokens

get-insert_number :
    (key j : String) (o : Option ℕ) (m : TreeMap String String)
    → (key == j) ≡ false
    → get j (insert_number key o m) ≡ get j m
unfolding insert_number
get-insert_number key j none m h = refl
get-insert_number key j (some n) m h = get-insert key j (decimal n) m ∙ rw h

-- The later entries have other keys.
get-recorded_numbers :
    (j : String) (metadata : TreeMap String String) (requested_by : NodeId)
    (e : ResourceEpochAccounting) (approved_tokens : Option ℕ)
    → ("resource_epoch_budget_tokens" == j) ≡ false
    → ("resource_epoch_remaining_before_tokens" == j) ≡ false
    → ("resource_epoch_remaining_after_tokens" == j) ≡ false
    → ("resource_epoch_message_budget" == j) ≡ false
    → ("resource_epoch_remaining_messages_before" == j) ≡ false
    → ("resource_epoch_remaining_messages_after" == j) ≡ false
    → get j (recorded metadata requested_by e approved_tokens)
      ≡ get j (
          insert "resource_epoch_approved_tokens" (decimal (unwrap_or 0 approved_tokens)) (
            insert "resource_epoch_allocated_before_tokens" (decimal e.allocated_tokens) (
              insert "resource_epoch_allocation_count_after"
                (decimal (saturating_add e.allocation_count 1))
                (insert "resource_epoch_allocation_count_before" (decimal e.allocation_count) (
                  insert "resource_epoch_key" e.epoch_key
                    (insert "requested_by" requested_by metadata))))))
unfolding add_resource_epoch_metadata
get-recorded_numbers j metadata requested_by e approved_tokens a b c d g h =
    get-insert_number "resource_epoch_remaining_messages_after" j _ _ h
    ∙ get-insert_number "resource_epoch_remaining_messages_before" j _ _ g
    ∙ get-insert_number "resource_epoch_message_budget" j _ _ d
    ∙ get-insert_number "resource_epoch_remaining_after_tokens" j _ _ c
    ∙ get-insert_number "resource_epoch_remaining_before_tokens" j _ _ b
    ∙ get-insert_number "resource_epoch_budget_tokens" j _ _ a

module _ (metadata : TreeMap String String) (requested_by : NodeId) (e : ResourceEpochAccounting)
    (approved_tokens : Option ℕ) where
  get-recorded_key :
      get "resource_epoch_key" (recorded metadata requested_by e approved_tokens) ≡ some e.epoch_key
  get-recorded_key =
      get-recorded_numbers "resource_epoch_key" metadata requested_by e approved_tokens refl refl
        refl refl refl refl
      ∙ simp get-insert (refl)

  get-recorded_requester :
      get "requested_by" (recorded metadata requested_by e approved_tokens) ≡ some requested_by
  get-recorded_requester =
      get-recorded_numbers "requested_by" metadata requested_by e approved_tokens refl refl refl
        refl refl refl
      ∙ simp get-insert (refl)

  get-recorded_tokens :
      get "resource_epoch_approved_tokens" (recorded metadata requested_by e approved_tokens)
      ≡ some (decimal (unwrap_or 0 approved_tokens))
  get-recorded_tokens =
      get-recorded_numbers "resource_epoch_approved_tokens" metadata requested_by e approved_tokens
        refl refl refl refl refl refl
      ∙ simp get-insert (refl)

-- The event that records a decision is one that the accounting of the same requester and epoch counts, and it
-- counts for one allocation and for just the tokens that were approved, zero if none were, whatever its payload
-- is and whatever stands under the keys other than the three that the accounting reads.
pub count_event-recorded :
    {V : Type 0} ⦃j : Json V⦄ (event : LedgerEvent V) (metadata : TreeMap String String)
    (requested_by : NodeId) (e after : ResourceEpochAccounting) (approved_tokens : Option ℕ)
    → get "resource_epoch_key" event.metadata
      ≡ get "resource_epoch_key" (recorded metadata requested_by e approved_tokens)
    → get "requested_by" event.metadata
      ≡ get "requested_by" (recorded metadata requested_by e approved_tokens)
    → get "resource_epoch_approved_tokens" event.metadata
      ≡ get "resource_epoch_approved_tokens" (recorded metadata requested_by e approved_tokens)
    → unwrap_or 0 approved_tokens < 2 ^ 64
    → (counts_for e.epoch_key requested_by event ≡ true)
      × (count_event event after ≡ spend approved_tokens after)
unfolding event_tokens
count_event-recorded event metadata requested_by e after approved_tokens p q r k = (
  rw (
    p,
    q,
    get-recorded_key metadata requested_by e approved_tokens,
    get-recorded_requester metadata requested_by e approved_tokens,
    ==_refl e.epoch_key,
    ==_refl requested_by,
  ),
  rw (
    r,
    get-recorded_tokens metadata requested_by e approved_tokens,
    parse_u64-decimal (unwrap_or 0 approved_tokens) k,
  ),
)
