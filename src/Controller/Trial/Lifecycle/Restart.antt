-- ===== src/Controller/Trial/Lifecycle/Restart.antt =====
-- A restart of the controller while a trial is active (crates/vsm-controller/src/trial.rs).
use vsm_agent_kernel.Base.{ℕ, ◌≡◌, refl, sym, subst, true, none, some, [], string_key}
use vsm_agent_kernel.Base.Results.{ok, err}
use vsm_agent_kernel.Base.TreeMap.{insert, get-insert}
use vsm_agent_kernel.Core.Id.{GenomeId, SuggestionId}
use vsm_agent_kernel.Core.Genome.{OrganizationalGenome}
use vsm_agent_kernel.Core.Task.{TaskPacket}
use vsm_agent_kernel.Controller.Error.{trial_already_active}
use vsm_agent_kernel.Controller.Trial.Manager.{TrialManager}
use vsm_agent_kernel.Controller.Trial.Lifecycle.{
  StartedTrial, started_trial, activated, take_over, activate_unless, activate_queued_trial,
  restore_unless, restore_active_trial, tag_task_for_trial, task_trial_suggestion_id,
}
use vsm_agent_kernel.Ledger.Memory.{is_queued}
use vsm_agent_kernel.Ledger.Trial.{StoredTrialRecord}
use vsm_agent_kernel.Runtime.Trial.{restore}

-- To activate a queued trial on a manager without an active one succeeds. A manager that is restored
-- from the record that the activation returned, without traces, is in the same state as the one that
-- activated the trial and returns the same, and either one then refuses a second activation.
pub restore-activate :
    {F : Type 0} (zero : F) (now : ℕ) (manager : TrialManager F) (r : StoredTrialRecord F)
    (candidate : OrganizationalGenome)
    → manager.active ≡ none
    → is_queued r.status ≡ true
    → (started : StartedTrial F) × (after : TrialManager F) × (activate_queued_trial zero now
          manager r candidate
        ≡ (ok started, after))
      × (restore_active_trial manager started.stored candidate [] ≡ (ok started, after))
      × (activate_queued_trial zero now after r candidate
          ≡ (err (trial_already_active r.suggestion.id), after))
unfolding activate_queued_trial restore_active_trial activate_unless restore_unless
restore-activate zero now manager r candidate idle queued =
    let started = activated zero now r in
    let after = take_over manager started (restore r.suggestion r.base_genome_id candidate []) in
    (
      started_trial started,
      after,
      subst
          (λ o.
            activate_unless zero now manager r candidate o ≡ (ok (started_trial started), after))
          (sym idle) (rw (activate_unless, queued) refl),
      subst
          (λ o. restore_unless manager started candidate [] o ≡ (ok (started_trial started), after))
          (sym idle) refl,
      refl,
    )

-- The suggestion of a tagged task is the one that it was tagged for.
pub task_trial_suggestion_id-tag_task_for_trial :
    (task : TaskPacket) (id : SuggestionId) (genome_id : GenomeId)
    → task_trial_suggestion_id (tag_task_for_trial task id genome_id) ≡ some id
unfolding task_trial_suggestion_id tag_task_for_trial
task_trial_suggestion_id-tag_task_for_trial task id genome_id =
    let plain = insert "trial_id" id task.metadata in
    let tagged = insert "related_suggestion_id" id plain in
    rw
      (
        get-insert "candidate_genome_id" "related_suggestion_id" genome_id tagged,
        get-insert "related_suggestion_id" "related_suggestion_id" id plain,
      )
      refl
