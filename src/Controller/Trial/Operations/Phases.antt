-- ===== src/Controller/Trial/Operations/Phases.antt =====
-- What `TrialManager` (crates/vsm-controller/src/trial.rs) promises: at most one trial is active, and what has
-- ended is archived. The abstract state forgets all but the suggestions' ids.
use vsm_agent_kernel.Base.{
  ℕ, String, ◌≡◌, refl, ◌∙◌, ap, Bool, true, false, ◌||◌, Option, none, some, List, [], ◌∷◌,
  string_key, ◌==◌, arith, Option-cases, inl, inr, Bool-cases, if◌then◌else◌,
}
use mathlib.Core.Path.{fun_ext}
use vsm_agent_kernel.Base.Float.{Float, naught}
use vsm_agent_kernel.Base.Results.{Result, ok, err}
use vsm_agent_kernel.Base.TreeMap.{get, is_some, insert, get-insert}
use vsm_agent_kernel.Core.Id.{NodeId, SuggestionId}
use vsm_agent_kernel.Core.Genome.{OrganizationalGenome}
use vsm_agent_kernel.Core.Patch.{PatchError}
use vsm_agent_kernel.Core.Trace.{TaskTrace}
use vsm_agent_kernel.Controller.Trial.Lifecycle.{
  register_candidate_worker, activate_unless, activate_queued_trial, restore_unless,
  restore_active_trial,
}
use vsm_agent_kernel.Controller.Trial.Manager.{TrialManager}
use vsm_agent_kernel.Controller.Trial.Operations.{
  start_with, start_unless, mark_task_routed, record_trace, record_in, promote_active, prune_active,
  freeze_active, freeze_in, end_active, archive,
}
use vsm_agent_kernel.Ledger.Memory.{is_queued}
use vsm_agent_kernel.Ledger.Trial.{StoredTrialRecord}
use vsm_agent_kernel.Runtime.Trial.{MutationTrial}

-- A call of the manager. `start` has what `from_suggestion` made; the numbers are the times read.
pub data Call (F : Type 0) : Type 0 where
  start : ℕ → ℕ → ℕ → NodeId → Result PatchError (MutationTrial F) → Call F
  activate : ℕ → StoredTrialRecord F → OrganizationalGenome → Call F
  restore : StoredTrialRecord F → OrganizationalGenome → List (TaskTrace F) → Call F
  register : NodeId → Call F
  mark_routed : Call F
  trace : TaskTrace F → Call F
  promote : ℕ → ℕ → NodeId → Call F
  prune : ℕ → ℕ → NodeId → Call F
  freeze : ℕ → ℕ → NodeId → String → Call F

module _ {F : Type 0} ⦃f : Float F⦄ where
  unfoldable pub call : TrialManager F → Call F → TrialManager F
  unfolding start_with activate_queued_trial restore_active_trial register_candidate_worker
      record_trace promote_active prune_active freeze_active
  call m (start created updated begun node made) = (start_with m created updated begun node made).1
  call m (activate now stored candidate) = (activate_queued_trial naught now m stored candidate).1
  call m (restore stored candidate traces) = (restore_active_trial m stored candidate traces).1
  call m (register node) = register_candidate_worker m node
  call m mark_routed = mark_task_routed m
  call m (trace t) = (record_trace m t).1
  call m (promote created updated node) = (promote_active m created updated node).1
  call m (prune created updated node) = (prune_active m created updated node).1
  call m (freeze created updated node reason) = (freeze_active m created updated node reason).1

  unfoldable pub calls : TrialManager F → List (Call F) → TrialManager F
  unfolding call
  calls m [] = m
  calls m (c ∷ cs) = calls (call m c) cs

-- The suggestion on trial, and those whose trials are over.
pub record Phase : Type 0 where
  pub current : Option SuggestionId
  pub over : SuggestionId → Bool

module _ {F : Type 0} where
  -- The suggestion that a call puts on trial if none is.
  unfoldable pub begins : Call F → Option SuggestionId
  begins (start created updated begun node (ok made)) = some made.suggestion.id
  begins (start created updated begun node (err e)) = none
  begins (activate now stored candidate) =
      if is_queued stored.status then some stored.suggestion.id else none
  begins (restore stored candidate traces) = some stored.suggestion.id
  begins (register node) = none
  begins mark_routed = none
  begins (trace t) = none
  begins (promote created updated node) = none
  begins (prune created updated node) = none
  begins (freeze created updated node reason) = none

  -- Whether a call ends the trial under way.
  unfoldable pub ends : Call F → Bool
  ends (promote created updated node) = true
  ends (prune created updated node) = true
  ends (freeze created updated node reason) = true
  ends (start created updated begun node made) = false
  ends (activate now stored candidate) = false
  ends (restore stored candidate traces) = false
  ends (register node) = false
  ends mark_routed = false
  ends (trace t) = false

  -- While a suggestion is on trial nothing but an end of the trial changes the phase.
  unfoldable pub next : Option SuggestionId → (SuggestionId → Bool) → Call F → Phase
  unfolding begins ends
  next none over c = record { current = begins c; over = over }
  next (some s) over c =
      if ends c
      then record { current = none; over = λ id. (s == id) || over id }
      else record { current = some s; over = over }

  unfoldable pub nexts : Phase → List (Call F) → Phase
  unfolding next
  nexts p [] = p
  nexts p (c ∷ cs) = nexts (next p.current p.over c) cs

  abbrev pub current_of : Option (MutationTrial F) → Option SuggestionId
  current_of none = none
  current_of (some t) = some t.suggestion.id

  abbrev pub over_of : TrialManager F → SuggestionId → Bool
  over_of m id = is_some (get id m.archived)

  abbrev pub phase : TrialManager F → Phase
  phase m = record { current = current_of m.active; over = over_of m }

module _ {F : Type 0} ⦃f : Float F⦄ where
  over-archive :
      (m : TrialManager F) (t : MutationTrial F) (id : SuggestionId)
      → over_of (archive m t) id ≡ ((t.suggestion.id == id) || over_of m id)
  unfolding archive
  over-archive m t id = ground (arith, get-insert t.suggestion.id id t m.archived)

  phase-archive :
      (m : TrialManager F) (t : MutationTrial F)
      → phase (archive m t)
        ≡ record { current = none; over = λ id. (t.suggestion.id == id) || over_of m id }
  unfolding archive
  phase-archive m t = λ i. record { current = none; over = fun_ext (over-archive m t) i }

  -- A call on a manager without an active trial.
  phase-call_idle :
      (m : TrialManager F)
      → m.active ≡ none
      → (c : Call F) → phase (call m c) ≡ next (current_of m.active) (over_of m) c
  unfolding call next start_with start_unless activate_queued_trial activate_unless
      restore_active_trial restore_unless record_trace record_in promote_active prune_active
      freeze_active freeze_in end_active
  phase-call_idle m h (start created updated begun node (ok made)) = ground arith
  phase-call_idle m h (start created updated begun node (err e)) = ground arith
  phase-call_idle m h (activate now stored candidate) =
      elim (Bool-cases (is_queued stored.status)) [ inl q ↦ ground arith | inr q ↦ ground arith ]
  phase-call_idle m h (restore stored candidate traces) = ground arith
  phase-call_idle m h (register node) = ground arith
  phase-call_idle m h mark_routed = ground arith
  phase-call_idle m h (trace t) = ground arith
  phase-call_idle m h (promote created updated node) = ground arith
  phase-call_idle m h (prune created updated node) = ground arith
  phase-call_idle m h (freeze created updated node reason) = ground arith

  phase-call_running :
      (m : TrialManager F) (t : MutationTrial F)
      → m.active ≡ some t
      → (c : Call F) → phase (call m c) ≡ next (current_of m.active) (over_of m) c
  unfolding call next start_with start_unless activate_queued_trial activate_unless
      restore_active_trial restore_unless record_trace record_in promote_active prune_active
      freeze_active freeze_in end_active
  phase-call_running m t h (start created updated begun node made) = ground arith
  phase-call_running m t h (activate now stored candidate) = ground arith
  phase-call_running m t h (restore stored candidate traces) = ground arith
  phase-call_running m t h (register node) = ground arith
  phase-call_running m t h mark_routed = ground arith
  phase-call_running m t h (trace new) = ground arith
  phase-call_running m t h (promote created updated node) = ground (arith, phase-archive m t)
  phase-call_running m t h (prune created updated node) = ground (arith, phase-archive m t)
  phase-call_running m t h (freeze created updated node reason) = ground (
    arith,
    phase-archive (record m { active_metadata = insert "freeze_reason" reason m.active_metadata })
        t,
  )

  phase-call :
      (m : TrialManager F) (c : Call F) → phase (call m c) ≡ next (phase m).current (phase m).over c
  phase-call m c = elim (Option-cases m.active) [
    | inl h ↦ phase-call_idle m h c
    | inr (t, h) ↦ phase-call_running m t h c
  ]

  -- Seen as the suggestion on trial and the set of those whose trials are over, the manager does under any
  -- sequence of calls what the abstract machine does: a start, an activation of a queued record or a
  -- restoration puts its suggestion on trial only when none is, a promotion, a pruning or a freeze ends the
  -- one on trial and adds it to the set, and no other call changes either.
  pub phase-calls :
      (m : TrialManager F) (cs : List (Call F)) → phase (calls m cs) ≡ nexts (phase m) cs
  unfolding calls nexts
  phase-calls m [] = refl
  phase-calls m (c ∷ cs) = phase-calls (call m c) cs ∙ ap (λ p. nexts p cs) (phase-call m c)
