-- ===== src/Runtime/Trial/Candidate.antt =====
-- What a trial (crates/vsm-runtime/src/trial.rs) starts from, and where it stands in the ledger of trials.
use vsm_agent_kernel.Base.{
  ℕ, suc, ◌+◌, ◌≤◌, ◌<◌, String, ◌≡◌, inl, inr, refl, true, none, some, List, [], ◌∷◌, ◌++◌,
  string_key, arith, ◌==◌, ◌&&◌, Option-cases, if◌then◌else◌,
}
use vsm_agent_kernel.Base.Results.{Result, ok, err}
use vsm_agent_kernel.Base.TreeMap.{get, is_some, insert, remove, get-insert, get-remove}
use vsm_agent_kernel.Core.Id.{SuggestionId}
use vsm_agent_kernel.Core.Genome.{OrganizationalGenome, World}
use vsm_agent_kernel.Core.Genome.Tree.{IsTree}
use vsm_agent_kernel.Core.Patch.{PatchError}
use vsm_agent_kernel.Core.Patch.Shape.{childless, growth, apply-IsTree}
use vsm_agent_kernel.Core.Suggestion.{GeneSuggestion}
use vsm_agent_kernel.Runtime.Trial.{
  MutationTrial, TrialLedger, descend, candidate_trial, from_suggestion, finish_trial,
}

-- A trial of a suggestion: its candidate is a tree, not much higher than the base, and the base is its
-- nearest ancestor.
pub record IsTrialOf {F : Type 0} (base : OrganizationalGenome) (height : ℕ)
    (suggestion : GeneSuggestion) (trial : MutationTrial F) : Type 0 where
  pub tree : IsTree trial.candidate_genome
  pub not_higher : tree.height ≤ height + growth suggestion.patch
  pub of_base : trial.base_genome_id ≡ base.id
  pub of_suggestion : trial.suggestion ≡ suggestion
  pub parents : List String
  pub mutations : List String
  pub ancestor : trial.candidate_genome.lineage.parent_genome_ids ≡ parents ++ base.id ∷ []
  pub mutation : trial.candidate_genome.lineage.mutation_ids ≡ mutations ++ suggestion.id ∷ []
  pub no_trace : trial.traces ≡ []

abbrev pub Outcome :
    {F : Type 0} → (MutationTrial F → Type 0) → Result PatchError (MutationTrial F) → Type 0
Outcome P (ok trial) = P trial
Outcome P (err e) = Unit

candidate_trial-Outcome :
    {F : Type 0} (uuid : ℕ → String) (base : OrganizationalGenome) (suggestion : GeneSuggestion)
    (h : ℕ) (result : Result PatchError (Unit {0})) (after : World) (tree : IsTree after.genome)
    → tree.height ≤ h + growth suggestion.patch
    → (r : Result PatchError (MutationTrial F)) × (n : ℕ) × (candidate_trial uuid base suggestion
          (some (result, after))
        ≡ some (r, n))
      × Outcome (IsTrialOf base h suggestion) r
unfolding candidate_trial
candidate_trial-Outcome uuid base suggestion h (err e) after tree b =
    (err e, after.issued, refl, tt)
candidate_trial-Outcome uuid base suggestion h (ok done) after tree b = (
  ok (record {
    suggestion = suggestion;
    base_genome_id = base.id;
    candidate_genome = descend base suggestion.id (uuid after.issued) after.genome;
    traces = [];
  }),
  suc after.issued,
  refl,
  unfold descend in
      record {
        tree = tree;
        not_higher = b;
        of_base = refl;
        of_suggestion = refl;
        parents = after.genome.lineage.parent_genome_ids;
        mutations = after.genome.lineage.mutation_ids;
        ancestor = refl;
        mutation = refl;
        no_trace = refl;
      },
)

pub from_suggestion-IsTrialOf :
    {F : Type 0} (uuid : ℕ → String) (fuel issued : ℕ) (base : OrganizationalGenome)
    (suggestion : GeneSuggestion) (tree : IsTree base)
    → childless suggestion.patch ≡ true
    → tree.height + growth suggestion.patch < fuel
    → (r : Result PatchError (MutationTrial F)) × (n : ℕ) × (from_suggestion uuid fuel issued base
          suggestion
        ≡ some (r, n))
      × Outcome (IsTrialOf base tree.height suggestion) r
unfolding from_suggestion
from_suggestion-IsTrialOf uuid fuel issued base suggestion tree c enough =
    let (result, after, e, tree', b) =
      apply-IsTree suggestion.patch uuid fuel (record { genome = base; issued = issued }) tree c
        enough in
    rw e (candidate_trial-Outcome uuid base suggestion tree.height result after tree' b)

finish_known :
    {F : Type 0} (l : TrialLedger F) (id : SuggestionId) (trial : MutationTrial F)
    → get id l.active ≡ some trial
    → finish_trial l id
      ≡ (some trial, record { active = remove id l.active; archived = insert id trial l.archived })
unfolding finish_trial
finish_known l id trial e = rw (finish_trial, e) refl

finish_unknown :
    {F : Type 0} (l : TrialLedger F) (id : SuggestionId)
    → get id l.active ≡ none
    → finish_trial l id ≡ (none, l)
unfolding finish_trial
finish_unknown l id e = rw (finish_trial, e) refl

-- To finish a trial returns the active trial of the id, if there is one, and moves it to the archive. Every
-- other trial stays where it is, and without an active trial of the id nothing changes.
pub finish_trial_moves :
    {F : Type 0} (l : TrialLedger F) (id : SuggestionId) (j : String)
    → ((finish_trial l id).0 ≡ get id l.active)
      × (get j (finish_trial l id).1.active ≡ (if id == j then none else get j l.active))
      × (get j (finish_trial l id).1.archived
          ≡ (if (id == j) && is_some (get id l.active) then get id l.active else get j l.archived))
finish_trial_moves l id j = elim (Option-cases (get id l.active)) [
  | inl e ↦
      rw (finish_unknown l id e, e) (refl, ground (arith, string_key.beq_iff id j), ground arith)
  | inr (trial, e) ↦
      rw (finish_known l id trial e, e)
        (refl, get-remove id j l.active, ground (arith, get-insert id j trial l.archived))
]
