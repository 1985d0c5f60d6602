-- ===== src/Controller/Resource/Pressure.antt =====
-- The summaries of recent events by which the controller caps an allocation
-- (crates/vsm-controller/src/runtime.rs). A count in `u64` is a number without a bound here.
use Prim.Native.Nat.{◌/◌}
use Prim.Native.String.{◌++◌ as append_text}
use vsm_agent_kernel.Base.{
  ℕ, ◌+◌, String, Bool, false, not, ◌&&◌, ◌||◌, Option, none, some, List, [], ◌∷◌, ◌++◌, length,
  any, string_key, ◌==◌, ltb, leb, if◌then◌else◌,
}
use vsm_agent_kernel.Base.Decimal.{decimal, parse_u64, least, greatest}
use vsm_agent_kernel.Base.Entries.{unwrap_or}
use vsm_agent_kernel.Base.Float.{Float, naught}
use vsm_agent_kernel.Base.Json.{Json, and_then, or_else, text_field, number_field}
use vsm_agent_kernel.Base.TreeMap.{get}
use vsm_agent_kernel.Core.Id.{NodeId}
use vsm_agent_kernel.Ledger.Event.{LedgerEvent, LedgerEventKind, other}

pub record CoordinationPressureSummary (F : Type 0) : Type 0 where
  pub event_count : ℕ
  pub contention_count : ℕ
  pub oscillation_count : ℕ
  pub dependency_blocked_count : ℕ
  pub pressure : F
  pub max_severity : ℕ
  pub reasons : List String

pub record EnvironmentPressureSummary (F : Type 0) : Type 0 where
  pub event_count : ℕ
  pub risk_pressure : F
  pub opportunity_pressure : F
  pub feedback_pressure : F
  pub future_probe_count : ℕ
  pub environment_interaction_count : ℕ
  pub homeostat_count : ℕ
  pub max_severity : ℕ
  pub reasons : List String

-- At most eight reasons are kept.
abbrev pub push_reason : List String → String → List String
push_reason reasons reason = if ltb (length reasons) 8 then reasons ++ reason ∷ [] else reasons

abbrev pub is_text : String → Option String → Bool
is_text wanted none = false
is_text wanted (some value) = value == wanted

module _ {V : Type 0} ⦃j : Json V⦄ where
  abbrev pub any_node : String → Option (List V) → Bool
  any_node child_key none = false
  any_node child_key (some nodes) = any (λ node. is_text child_key (j.as_str node)) nodes

  unfoldable pub coordination_event_affects_child : LedgerEvent V → String → Bool
  unfolding any
  coordination_event_affects_child event child_key =
      is_text child_key (text_field event.payload "source_node_id")
      || is_text child_key (text_field event.payload "target_node_id")
      || any_node child_key (and_then (j.get_field event.payload "affected_node_ids") j.as_array)

  unfoldable pub coordination_kind : LedgerEvent V → String
  coordination_kind event =
      unwrap_or "Other"
        (or_else (text_field event.payload "kind") (get "coordination_kind" event.metadata))

  unfoldable pub coordination_severity : LedgerEvent V → ℕ
  unfolding parse_u64
  coordination_severity event =
      least
        (unwrap_or 1 (
          or_else (number_field event.payload "severity")
            (and_then (get "severity" event.metadata) parse_u64)))
        10

abbrev pub is_homeostat_event : LedgerEventKind → Bool
is_homeostat_event (other name) = name == "three_four_homeostat_signal"
is_homeostat_event _ = false

module _ {F : Type 0} ⦃f : Float F⦄ where
  abbrev pub no_coordination : CoordinationPressureSummary F
  no_coordination = record {
    event_count = 0;
    contention_count = 0;
    oscillation_count = 0;
    dependency_blocked_count = 0;
    pressure = naught;
    max_severity = 0;
    reasons = [];
  }

  -- The writes after the `match` on the kind.
  abbrev pub note_coordination :
      String → ℕ → CoordinationPressureSummary F → CoordinationPressureSummary F
  note_coordination kind severity s = record s {
    max_severity = greatest s.max_severity severity;
    reasons = push_reason s.reasons (
        append_text "system2_coordination kind="
          (append_text kind (append_text " severity=" (decimal severity))));
  }

  unfoldable pub add_coordination :
      String → ℕ → CoordinationPressureSummary F → CoordinationPressureSummary F
  unfolding decimal
  add_coordination kind severity s =
      let weight = f.of_nat (greatest severity 1) in
      if kind == "Contention"
      then note_coordination kind severity (record s {
        event_count = s.event_count + 1;
        contention_count = s.contention_count + 1;
        pressure = f.plus s.pressure weight;
      })
      else if kind == "Oscillation"
      then note_coordination kind severity (record s {
        event_count = s.event_count + 1;
        oscillation_count = s.oscillation_count + 1;
        pressure = f.plus s.pressure (f.times weight (f.literal 125 2));
      })
      else if kind == "DependencyBlocked"
      then note_coordination kind severity (record s {
        event_count = s.event_count + 1;
        dependency_blocked_count = s.dependency_blocked_count + 1;
        pressure = f.plus s.pressure (f.times weight (f.literal 75 2));
      })
      else s

  module _ {V : Type 0} ⦃j : Json V⦄ where
    unfoldable pub add_coordination_events :
        String
        → List (LedgerEvent V)
        → CoordinationPressureSummary F
        → CoordinationPressureSummary F
    unfolding coordination_event_affects_child coordination_kind coordination_severity
        add_coordination
    add_coordination_events child_key [] s = s
    add_coordination_events child_key (event ∷ events) s =
        add_coordination_events child_key events (
          if coordination_event_affects_child event child_key
          then add_coordination (coordination_kind event) (coordination_severity event) s
          else s)

    unfoldable pub coordination_from_events :
        List (LedgerEvent V) → NodeId → CoordinationPressureSummary F
    unfolding add_coordination_events
    coordination_from_events events child_node_id =
        add_coordination_events child_node_id events no_coordination

  unfoldable pub affects_allocation : CoordinationPressureSummary F → Bool
  affects_allocation s =
      ltb 0 s.event_count && (leb 5 s.max_severity || f.at_least s.pressure (f.literal 80 1))

  unfoldable pub coordination_pressure_token_cap : CoordinationPressureSummary F → ℕ → Option ℕ
  unfolding affects_allocation
  coordination_pressure_token_cap s requested_tokens =
      let strong =
        leb 8 s.max_severity
        || ltb 1 s.oscillation_count
        || f.at_least s.pressure (f.literal 160 1) in
      if not (affects_allocation s)
      then none
      else some (greatest (requested_tokens / (if strong then 4 else 2)) 1)

  abbrev pub no_environment : EnvironmentPressureSummary F
  no_environment = record {
    event_count = 0;
    risk_pressure = naught;
    opportunity_pressure = naught;
    feedback_pressure = naught;
    future_probe_count = 0;
    environment_interaction_count = 0;
    homeostat_count = 0;
    max_severity = 0;
    reasons = [];
  }

  abbrev pub add_risk : F → EnvironmentPressureSummary F → EnvironmentPressureSummary F
  add_risk amount s = record s { risk_pressure = f.plus s.risk_pressure amount }

  abbrev pub add_opportunity : F → EnvironmentPressureSummary F → EnvironmentPressureSummary F
  add_opportunity amount s = record s {
    opportunity_pressure = f.plus s.opportunity_pressure amount;
  }

  abbrev pub add_feedback : F → EnvironmentPressureSummary F → EnvironmentPressureSummary F
  add_feedback amount s = record s { feedback_pressure = f.plus s.feedback_pressure amount }

  -- `match kind`.
  unfoldable pub add_kind : String → F → EnvironmentPressureSummary F → EnvironmentPressureSummary F
  add_kind kind weight s =
      if kind == "Risk"
      then add_risk weight s
      else if kind == "Opportunity"
      then add_opportunity weight s
      else if kind == "UserFeedback"
      then add_feedback weight s
      else if kind == "DependencyChange"
      then add_risk (f.times weight (f.literal 75 2)) s
      else if kind == "CapabilityChange"
      then add_opportunity (f.times weight (f.literal 75 2)) s
      else if (kind == "FutureRisk")
          || (kind == "PresentConstraint")
          || (kind == "ResourceImbalance")
          || (kind == "CoordinationDebt")
      then add_risk weight s
      else if (kind == "FutureOpportunity") || (kind == "CapabilityGap")
      then add_opportunity weight s
      else s

  -- `match balance`.
  unfoldable pub add_balance :
      String → F → EnvironmentPressureSummary F → EnvironmentPressureSummary F
  add_balance balance weight s =
      if balance == "FutureDominant"
      then add_opportunity (f.times weight (f.literal 5 1)) s
      else if (balance == "PresentDominant") || (balance == "Conflict")
      then add_risk (f.times weight (f.literal 5 1)) s
      else if balance == "Balanced"
      then add_feedback (f.times weight (f.literal 25 2)) s
      else s

  -- `match source_channel`.
  unfoldable pub add_channel :
      String → String → String → F → EnvironmentPressureSummary F → EnvironmentPressureSummary F
  unfolding add_balance
  add_channel source_channel kind balance weight s =
      if source_channel == "FutureProbeToEnvironment"
      then (let probed = record s { future_probe_count = s.future_probe_count + 1 } in
          if not (kind == "Opportunity")
          then add_opportunity (f.times weight (f.literal 35 2)) probed
          else probed)
      else if source_channel == "EnvironmentToEnvironment"
      then (let met = record s {
        environment_interaction_count = s.environment_interaction_count + 1;
      } in
          if not (kind == "Risk") then add_risk (f.times weight (f.literal 35 2)) met else met)
      else if source_channel == "ThreeFourHomeostat"
      then add_balance balance weight (record s { homeostat_count = s.homeostat_count + 1 })
      else s

  abbrev pub count_homeostat : Bool → EnvironmentPressureSummary F → EnvironmentPressureSummary F
  count_homeostat test s = if test then record s { homeostat_count = s.homeostat_count + 1 } else s

  module _ {V : Type 0} ⦃j : Json V⦄ where
    unfoldable pub add_environment :
        LedgerEvent V → EnvironmentPressureSummary F → EnvironmentPressureSummary F
    unfolding add_kind add_channel decimal
    add_environment event s =
        let severity = least (unwrap_or 1 (number_field event.payload "severity")) 10 in
        let kind = unwrap_or "Observation" (text_field event.payload "kind") in
        let source_channel = unwrap_or "Unknown" (
          or_else (text_field event.payload "source_channel")
            (get "source_channel" event.metadata)) in
        let balance = unwrap_or "Balanced" (text_field event.payload "balance") in
        let weight = f.of_nat (greatest severity 1) in
        let counted : EnvironmentPressureSummary F = record s {
          event_count = s.event_count + 1;
          max_severity = greatest s.max_severity severity;
        } in
        let weighed =
          add_channel source_channel kind balance weight (add_kind kind weight counted) in
        let homeostat =
          count_homeostat
            (is_homeostat_event event.kind && not (source_channel == "ThreeFourHomeostat"))
            weighed in
        record homeostat {
          reasons = push_reason homeostat.reasons (
              append_text "environment_signal channel=" (
                append_text source_channel (
                  append_text " kind="
                    (append_text kind (append_text " severity=" (decimal severity))))));
        }

    unfoldable pub add_environment_events :
        List (LedgerEvent V) → EnvironmentPressureSummary F → EnvironmentPressureSummary F
    unfolding add_environment
    add_environment_events [] s = s
    add_environment_events (event ∷ events) s =
        add_environment_events events (add_environment event s)

    unfoldable pub environment_from_events : List (LedgerEvent V) → EnvironmentPressureSummary F
    unfolding add_environment_events
    environment_from_events events = add_environment_events events no_environment

  unfoldable pub resource_pressure_affects_allocation : EnvironmentPressureSummary F → Bool
  resource_pressure_affects_allocation s =
      ltb 0 s.homeostat_count && leb 7 s.max_severity && f.at_least s.risk_pressure (f.literal 70 1)

  unfoldable pub homeostat_resource_token_cap : EnvironmentPressureSummary F → ℕ → Option ℕ
  unfolding resource_pressure_affects_allocation
  homeostat_resource_token_cap s requested_tokens =
      let strong = leb 9 s.max_severity || f.at_least s.risk_pressure (f.literal 120 1) in
      if not (resource_pressure_affects_allocation s)
      then none
      else some (greatest (requested_tokens / (if strong then 4 else 2)) 1)
