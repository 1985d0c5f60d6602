-- ===== src/Runtime/Trial.antt =====
-- crates/vsm-runtime/src/trial.rs: a mutation on trial, made from a genome and a suggestion, and the ledger of
-- the trials that run and those that are over. `F` stands for `f64`.
pub mod Candidate
pub mod Evaluation
use vsm_agent_kernel.Base.{ℕ, suc, ◌+◌, String, Option, none, some, List, [], ◌∷◌, ◌++◌, string_key}
use vsm_agent_kernel.Base.Results.{Result, ok, err}
use vsm_agent_kernel.Base.TreeMap.{TreeMap, get, insert, remove}
use vsm_agent_kernel.Core.Id.{GenomeId, SuggestionId}
use vsm_agent_kernel.Core.Genome.{OrganizationalGenome, World}
use vsm_agent_kernel.Core.Patch.{PatchError, Applied, apply}
use vsm_agent_kernel.Core.Suggestion.{GeneSuggestion}
use vsm_agent_kernel.Core.Trace.{TaskTrace}

pub record TrialConfig (F : Type 0) : Type 0 where
  pub min_tasks_before_decision : ℕ
  pub promote_margin : F
  pub prune_below : F

pub record MutationTrial (F : Type 0) : Type 0 where
  pub suggestion : GeneSuggestion
  pub base_genome_id : GenomeId
  pub candidate_genome : OrganizationalGenome
  pub traces : List (TaskTrace F)

-- What `from_suggestion` makes of the patched copy: its lineage and its new id.
unfoldable pub descend :
    OrganizationalGenome → SuggestionId → GenomeId → OrganizationalGenome → OrganizationalGenome
descend base suggestion_id new_id candidate = record candidate {
  id = new_id;
  lineage = record candidate.lineage {
    parent_genome_ids = candidate.lineage.parent_genome_ids ++ base.id ∷ [];
    mutation_ids = candidate.lineage.mutation_ids ++ suggestion_id ∷ [];
  };
}

-- The outcome with the number of ids drawn; `none` if the fuel of the patch does not reach.
unfoldable pub candidate_trial :
    {F : Type 0}
    → (ℕ → String)
    → OrganizationalGenome
    → GeneSuggestion
    → Option Applied
    → Option (Result PatchError (MutationTrial F) × ℕ)
unfolding descend
candidate_trial uuid base suggestion none = none
candidate_trial uuid base suggestion (some (err e, after)) = some (err e, after.issued)
candidate_trial uuid base suggestion (some (ok done, after)) = some (
  ok (record {
    suggestion = suggestion;
    base_genome_id = base.id;
    candidate_genome = descend base suggestion.id (uuid after.issued) after.genome;
    traces = [];
  }),
  suc after.issued,
)

-- `MutationTrial::from_suggestion`: the patch is applied to a copy of the base.
unfoldable pub from_suggestion :
    {F : Type 0}
    → (ℕ → String)
    → ℕ
    → ℕ
    → OrganizationalGenome
    → GeneSuggestion
    → Option (Result PatchError (MutationTrial F) × ℕ)
unfolding candidate_trial apply
from_suggestion uuid fuel issued base suggestion =
    candidate_trial uuid base suggestion
      (apply suggestion.patch uuid fuel (record { genome = base; issued = issued }))

abbrev pub restore :
    {F : Type 0}
    → GeneSuggestion
    → GenomeId
    → OrganizationalGenome
    → List (TaskTrace F)
    → MutationTrial F
restore suggestion base_genome_id candidate_genome traces = record {
  suggestion = suggestion;
  base_genome_id = base_genome_id;
  candidate_genome = candidate_genome;
  traces = traces;
}

abbrev pub record_trace : {F : Type 0} → MutationTrial F → TaskTrace F → MutationTrial F
record_trace trial trace = record trial { traces = trial.traces ++ trace ∷ [] }

pub record TrialLedger (F : Type 0) : Type 0 where
  pub active : TreeMap String (MutationTrial F)
  pub archived : TreeMap String (MutationTrial F)

module _ {F : Type 0} where
  unfoldable pub add_trial : TrialLedger F → MutationTrial F → TrialLedger F
  add_trial l trial = record l { active = insert trial.suggestion.id trial l.active }

  unfoldable pub finish_trial :
      TrialLedger F → SuggestionId → Option (MutationTrial F) × TrialLedger F
  finish_trial l suggestion_id = elim (get suggestion_id l.active) [
    | none ↦ (none, l)
    | some trial ↦ (
      some trial,
      record {
        active = remove suggestion_id l.active;
        archived = insert suggestion_id trial l.archived;
      },
    )
  ]
