-- ===== src/Controller/Trial/Operations/Accounts.antt =====
-- What the manager of the trials (crates/vsm-controller/src/trial.rs) keeps of the traces of the active trial.
use vsm_agent_kernel.Base.{
  ℕ, String, ◌≡◌, refl, ap, ◌∙◌, true, Option, none, some, List, [], ◌∷◌, ◌++◌, All, All-append,
  string_key, Bool-cases, inl, inr, subst, sym,
}
use vsm_agent_kernel.Base.Float.{Float, naught}
use vsm_agent_kernel.Base.Results.{Result, ok, err}
use vsm_agent_kernel.Core.Id.{NodeId, SuggestionId}
use vsm_agent_kernel.Core.Genome.{OrganizationalGenome}
use vsm_agent_kernel.Core.Patch.{PatchError}
use vsm_agent_kernel.Core.Trace.{TaskTrace, token_total}
use vsm_agent_kernel.Controller.Trial.Lifecycle.{
  register_candidate_worker, activate_unless, activate_queued_trial, restore_unless,
  restore_active_trial,
}
use vsm_agent_kernel.Controller.Trial.Manager.{TrialManager}
use vsm_agent_kernel.Controller.Trial.Operations.{
  saturating_add, names_suggestion, start_with, start_unless, record_trace, record_in,
  promote_active, prune_active, freeze_active, freeze_in, end_active, archive,
}
use vsm_agent_kernel.Controller.Trial.Operations.Phases.{
  Call, start, activate, restore, register, mark_routed, trace, promote, prune, freeze, call, calls,
}
use vsm_agent_kernel.Ledger.Memory.{is_queued}
use vsm_agent_kernel.Ledger.Trial.{
  StoredTrialStatus, StoredTrialDecision, StoredTrialRecord, promoted, pruned,
}
use vsm_agent_kernel.Runtime.Trial.{MutationTrial}

module _ {F : Type 0} where
  -- The tokens of all traces, added up with saturation from the first on.
  unfoldable pub spent : ℕ → List (TaskTrace F) → ℕ
  unfolding saturating_add token_total
  spent total [] = total
  spent total (t ∷ ts) = spent (saturating_add total (token_total t)) ts

  spent-append :
      (total : ℕ) (ts : List (TaskTrace F)) (t : TaskTrace F)
      → spent total (ts ++ t ∷ []) ≡ saturating_add (spent total ts) (token_total t)
  unfolding spent
  spent-append total [] t = refl
  spent-append total (u ∷ ts) t = spent-append (saturating_add total (token_total u)) ts t

  abbrev pub Names : SuggestionId → TaskTrace F → Type 0
  Names id t = names_suggestion id t ≡ true

  -- Every trace of the trial names its suggestion, and the tokens are theirs.
  abbrev pub Accounted : TrialManager F → Option (MutationTrial F) → Type 0
  Accounted m none = Unit
  Accounted m (some t) =
      All (Names t.suggestion.id) t.traces × (m.consumed_tokens ≡ spent 0 t.traces)

  -- A trial that starts anew has no traces; one that comes back brings accounted traces with it.
  abbrev pub Proper : Call F → Type 0
  Proper (start created updated begun node (ok made)) = made.traces ≡ []
  Proper (start created updated begun node (err e)) = Unit
  Proper (activate now stored candidate) = Unit
  Proper (restore stored candidate traces) =
      All (Names stored.suggestion.id) traces × (stored.consumed_tokens ≡ spent 0 traces)
  Proper (register node) = Unit
  Proper mark_routed = Unit
  Proper (trace t) = Unit
  Proper (promote created updated node) = Unit
  Proper (prune created updated node) = Unit
  Proper (freeze created updated node reason) = Unit

module _ {F : Type 0} ⦃f : Float F⦄ where
  abbrev AccountedNow : TrialManager F → Type 0
  AccountedNow m = Accounted m m.active

  start_unless-Accounted :
      (m : TrialManager F)
      → AccountedNow m
      → (created updated begun : ℕ) (node : NodeId) (made : Result PatchError (MutationTrial F))
      → Proper (start created updated begun node made)
      → (o : Option (MutationTrial F))
      → AccountedNow (start_unless m created updated begun node made o).1
  unfolding start_unless spent
  start_unless-Accounted m h created updated begun node made p (some t) = h
  start_unless-Accounted m h created updated begun node (err e) p none = h
  start_unless-Accounted m h created updated begun node (ok made) p none =
      subst (λ ts. All (Names made.suggestion.id) ts × (0 ≡ spent 0 ts)) (sym p) (tt, refl)

  activate_unless-Accounted :
      (m : TrialManager F)
      → AccountedNow m
      → (now : ℕ) (stored : StoredTrialRecord F) (candidate : OrganizationalGenome)
        (o : Option (MutationTrial F))
      → AccountedNow (activate_unless naught now m stored candidate o).1
  unfolding activate_unless spent
  activate_unless-Accounted m h now stored candidate (some t) = h
  activate_unless-Accounted m h now stored candidate none =
      elim (Bool-cases (is_queued stored.status)) [ inl q ↦ rw q (tt, refl) | inr q ↦ rw q h ]

  restore_unless-Accounted :
      (m : TrialManager F)
      → AccountedNow m
      → (stored : StoredTrialRecord F) (candidate : OrganizationalGenome)
        (traces : List (TaskTrace F))
      → Proper (restore stored candidate traces)
      → (o : Option (MutationTrial F)) → AccountedNow (restore_unless m stored candidate traces o).1
  unfolding restore_unless
  restore_unless-Accounted m h stored candidate traces p (some t) = h
  restore_unless-Accounted m h stored candidate traces p none = p

  record_in-Accounted :
      (m : TrialManager F)
      → AccountedNow m
      → (new : TaskTrace F) (o : Option (MutationTrial F)) → Accounted m o
      → AccountedNow (record_in m new o).1
  unfolding record_in
  record_in-Accounted m h new none k = h
  record_in-Accounted m h new (some t) k =
      elim (Bool-cases (names_suggestion t.suggestion.id new)) [
        | inl e ↦ rw e (
          All-append (Names t.suggestion.id) t.traces (new ∷ []) k.0 (e, tt),
          ap (λ total. saturating_add total (token_total new)) k.1
              ∙ sym (spent-append 0 t.traces new),
        )
        | inr e ↦ rw e h
      ]

  end_active-Accounted :
      (m : TrialManager F)
      → AccountedNow m
      → (created updated : ℕ) (node : NodeId) (status : StoredTrialStatus)
        (decision : Option StoredTrialDecision) (o : Option (MutationTrial F))
      → AccountedNow (end_active m created updated node status decision o).1
  unfolding end_active archive
  end_active-Accounted m h created updated node status decision none = h
  end_active-Accounted m h created updated node status decision (some t) = tt

  freeze_in-Accounted :
      (m : TrialManager F)
      → AccountedNow m
      → (created updated : ℕ) (node : NodeId) (reason : String) (o : Option (MutationTrial F))
      → AccountedNow (freeze_in m created updated node reason o).1
  unfolding freeze_in end_active archive
  freeze_in-Accounted m h created updated node reason none = h
  freeze_in-Accounted m h created updated node reason (some t) = tt

  call-Accounted :
      (m : TrialManager F) → AccountedNow m → (c : Call F) → Proper c → AccountedNow (call m c)
  unfolding call start_with activate_queued_trial restore_active_trial record_trace
      register_candidate_worker promote_active prune_active freeze_active
  call-Accounted m h (start created updated begun node made) p =
      start_unless-Accounted m h created updated begun node made p m.active
  call-Accounted m h (activate now stored candidate) p =
      activate_unless-Accounted m h now stored candidate m.active
  call-Accounted m h (restore stored candidate traces) p =
      restore_unless-Accounted m h stored candidate traces p m.active
  call-Accounted m h (register node) p = h
  call-Accounted m h mark_routed p = h
  call-Accounted m h (trace new) p = record_in-Accounted m h new m.active h
  call-Accounted m h (promote created updated node) p =
      end_active-Accounted m h created updated node promoted (some StoredTrialDecision.promote)
        m.active
  call-Accounted m h (prune created updated node) p =
      end_active-Accounted m h created updated node pruned (some StoredTrialDecision.prune) m.active
  call-Accounted m h (freeze created updated node reason) p =
      freeze_in-Accounted m h created updated node reason m.active

  pub calls-Accounted :
      (m : TrialManager F) (cs : List (Call F))
      → Accounted m m.active
      → All Proper cs
      → Accounted (calls m cs) (calls m cs).active
  unfolding calls
  calls-Accounted m [] h p = h
  calls-Accounted m (c ∷ cs) h p = calls-Accounted (call m c) cs (call-Accounted m h c p.0) p.1
