-- ===== src/Core/Fitness/Score.antt =====
-- The score of one trace (crates/vsm-core/src/fitness.rs), with the units of coordination that its metadata
-- tell. `F` stands for `f64`.
use Prim.Native.String.{◌++◌ as append_text}
use vsm_agent_kernel.Base.{
  ℕ, ◌+◌, suc, String, Bool, true, false, not, ◌||◌, Option, none, some, string_key, ◌==◌, ltb,
  if◌then◌else◌,
}
use vsm_agent_kernel.Base.Bytes.{parse_u32}
use vsm_agent_kernel.Base.Chars.{codes, count_parts, eq_ignore_ascii_case}
use vsm_agent_kernel.Base.Float.{Float, naught}
use vsm_agent_kernel.Base.Int.{ℤ, pos, negsuc}
use vsm_agent_kernel.Base.TreeMap.{get, is_some}
use vsm_agent_kernel.Core.Trace.{TaskTrace, total_score, token_total}
use vsm_agent_kernel.Core.Fitness.{FitnessWeights}

-- `i64::unsigned_abs`.
abbrev pub unsigned_abs : ℤ → ℕ
unsigned_abs (pos n) = n
unsigned_abs (negsuc n) = suc n

-- `flag == Some(true)`.
abbrev pub is_true : Option Bool → Bool
is_true none = false
is_true (some b) = b

unfoldable pub is_truthy : String → Bool
unfolding eq_ignore_ascii_case
is_truthy value = (value == "true") || (value == "1") || eq_ignore_ascii_case value "yes"

unfoldable pub metadata_or_else : Option String → Option String → Option String
metadata_or_else (some value) other = some value
metadata_or_else none other = other

-- `is_some_and`.
abbrev pub is_some_and {ℓ} : {A : Type ℓ} → (A → Bool) → Option A → Bool
is_some_and test none = false
is_some_and test (some a) = test a

unfoldable pub revised_more_than_once : String → Bool
unfolding parse_u32
revised_more_than_once value = is_some_and (λ depth. ltb 0 depth) (parse_u32 value)

unfoldable pub count_list : Option String → ℕ
unfolding codes count_parts
count_list none = 0
count_list (some value) = count_parts false (codes value)

module _ {F : Type 0} ⦃f : Float F⦄ where
  unfoldable pub metadata_value : TaskTrace F → String → Option String
  unfolding metadata_or_else
  metadata_value trace key =
      metadata_or_else (get key trace.metadata)
        (get (append_text "task_metadata." key) trace.metadata)

  -- `.and_then(|value| value.parse::<f64>().ok())`, and 0.0 without a number.
  unfoldable pub number_or_zero : Option String → F
  number_or_zero none = naught
  number_or_zero (some value) = elim (f.parse value) [ none ↦ naught | some x ↦ x ]

  unfoldable pub count_metadata_list : TaskTrace F → String → ℕ
  unfolding metadata_value count_list
  count_metadata_list trace key = count_list (metadata_value trace key)

  unfoldable pub channel_coordination_units : String → F
  channel_coordination_units channel =
      if (channel == "ResourceBargaining") || (channel == "OperationToEnvironment")
      then naught
      else if (channel == "Command") || (channel == "ManagementToOperation")
      then f.literal 10 1
      else if (channel == "System2Coordination")
          || (channel == "OperationToOperation")
          || (channel == "Audit")
      then f.literal 15 1
      else if channel == "ThreeFourHomeostat"
      then f.literal 10 1
      else if (channel == "FutureProbeToEnvironment") || (channel == "EnvironmentToEnvironment")
      then f.literal 5 1
      else if channel == "Algedonic"
      then f.literal 20 1
      else naught

  -- `units += amount` under a test.
  unfoldable pub add_if : Bool → F → F → F
  add_if test amount units = if test then f.plus units amount else units

  unfoldable pub add_source : Option String → F → F
  unfolding channel_coordination_units
  add_source none units = units
  add_source (some channel) units = f.plus units (channel_coordination_units channel)

  unfoldable pub add_outbound : Option String → F → F
  unfolding channel_coordination_units
  add_outbound none units = units
  add_outbound (some channel) units =
      f.plus units (f.times (channel_coordination_units channel) (f.literal 5 1))

  unfoldable pub trace_coordination_units : TaskTrace F → F
  unfolding metadata_value number_or_zero count_metadata_list add_if add_source add_outbound
      metadata_or_else revised_more_than_once is_truthy
  trace_coordination_units trace =
      let counted = number_or_zero (metadata_value trace "coordination_message_count") in
      let sourced =
        add_source
          (metadata_or_else (metadata_value trace "vsm_source_channel")
            (metadata_value trace "source_channel"))
          counted in
      let sent = add_outbound (metadata_value trace "vsm_outbound_channel") sourced in
      let depending = f.plus sent (f.of_nat (count_metadata_list trace "dependency_task_ids")) in
      let handed =
        add_if (is_some (metadata_value trace "handoff_kind")) (f.literal 10 1) depending in
      let managed =
        add_if (is_some (metadata_value trace "management_kind")) (f.literal 10 1) handed in
      let revised =
        add_if
          (is_some_and revised_more_than_once (metadata_value trace "decomposition_revision_depth"))
          (f.literal 10 1) managed in
      let split =
        add_if
          (is_some_and (λ role. not (role == "implementation"))
            (metadata_value trace "decomposition_role"))
          (f.literal 5 1) revised in
      let shadowed =
        add_if (is_some_and is_truthy (metadata_value trace "trial_shadow")) (f.literal 10 1)
          split in
      f.larger shadowed naught

  unfoldable pub score_merge : Option Bool → FitnessWeights F → F → F
  score_merge none weights score = score
  score_merge (some true) weights score = f.plus score weights.accepted_merge_value
  score_merge (some false) weights score = f.minus score weights.failed_task_penalty

  -- `score -= penalty` under a flag.
  unfoldable pub penalize : Option Bool → F → F → F
  penalize flag penalty score = if is_true flag then f.minus score penalty else score

  unfoldable pub score_trace : TaskTrace F → FitnessWeights F → F
  unfolding total_score token_total trace_coordination_units score_merge penalize
  score_trace trace weights =
      let merged = score_merge trace.merged weights (total_score trace) in
      let reverted = penalize trace.reverted weights.reverted_penalty merged in
      let regressed = penalize trace.post_merge_regression weights.regression_penalty reverted in
      let overridden = penalize trace.human_override weights.human_override_penalty regressed in
      let paid =
        f.minus overridden (f.times (f.of_nat (token_total trace)) weights.token_cost_weight) in
      let waited = f.minus paid (f.times (f.of_nat trace.latency_ms) weights.latency_ms_weight) in
      let edited = f.minus waited (
        f.times (f.of_nat (unsigned_abs trace.lines_added + unsigned_abs trace.lines_deleted))
          weights.line_delta_weight) in
      f.minus edited (f.times (trace_coordination_units trace) weights.coordination_message_weight)
