-- ===== src/Ledger/EventKind.antt =====
-- The equality of event kinds (crates/vsm-ledger/src/event.rs derives `PartialEq`): the variants by their
-- number, and the text of `Other`.
pub mod Keys
use vsm_agent_kernel.Base.{
  ℕ, String, ◌≡◌, ◌↔◌, refl, sym, ap, ◌∙◌, List, [], ◌∷◌, zero, suc, Key, string_key, nat_key,
  pair_key, ==_refl, ==_eq, ◌==◌, Bool, true,
}
use vsm_agent_kernel.Ledger.Event.{
  LedgerEventKind, other, controller_started, worker_started, message_received, message_published,
  directive_accepted, task_mapped, task_routed, task_result_received, trace_written,
  algedonic_signal_received, audit_started, audit_completed, gene_suggestion_created,
  genome_patch_applied, trial_queued, trial_started, trial_task_routed, trial_trace_recorded,
  trial_decision_recorded, trial_promoted, trial_pruned, trial_rejected, trial_frozen,
  evolution_generation_created,
}

abbrev pub discriminant : LedgerEventKind → ℕ × String
discriminant controller_started = (0, "")
discriminant worker_started = (1, "")
discriminant message_received = (2, "")
discriminant message_published = (3, "")
discriminant directive_accepted = (4, "")
discriminant task_mapped = (5, "")
discriminant task_routed = (6, "")
discriminant task_result_received = (7, "")
discriminant trace_written = (8, "")
discriminant algedonic_signal_received = (9, "")
discriminant audit_started = (10, "")
discriminant audit_completed = (11, "")
discriminant gene_suggestion_created = (12, "")
discriminant genome_patch_applied = (13, "")
discriminant trial_queued = (14, "")
discriminant trial_started = (15, "")
discriminant trial_task_routed = (16, "")
discriminant trial_trace_recorded = (17, "")
discriminant trial_decision_recorded = (18, "")
discriminant trial_promoted = (19, "")
discriminant trial_pruned = (20, "")
discriminant trial_rejected = (21, "")
discriminant trial_frozen = (22, "")
discriminant evolution_generation_created = (23, "")
discriminant (other value) = (24, value)

abbrev pub plain_kinds : List LedgerEventKind
plain_kinds =
    controller_started ∷ worker_started ∷ message_received ∷ message_published ∷ directive_accepted
    ∷ task_mapped ∷ task_routed ∷ task_result_received ∷ trace_written ∷ algedonic_signal_received
    ∷ audit_started ∷ audit_completed ∷ gene_suggestion_created ∷ genome_patch_applied
    ∷ trial_queued ∷ trial_started ∷ trial_task_routed ∷ trial_trace_recorded
    ∷ trial_decision_recorded ∷ trial_promoted ∷ trial_pruned ∷ trial_rejected ∷ trial_frozen
    ∷ evolution_generation_created ∷ []

-- The variant of a number, which is `Other` past the plain ones.
abbrev pick : List LedgerEventKind → ℕ → String → LedgerEventKind
pick [] n value = other value
pick (k ∷ ks) zero value = k
pick (k ∷ ks) (suc n) value = pick ks n value

abbrev variant : ℕ × String → LedgerEventKind
variant (n, value) = pick plain_kinds n value

variant-discriminant : (k : LedgerEventKind) → variant (discriminant k) ≡ k
variant-discriminant controller_started = refl
variant-discriminant worker_started = refl
variant-discriminant message_received = refl
variant-discriminant message_published = refl
variant-discriminant directive_accepted = refl
variant-discriminant task_mapped = refl
variant-discriminant task_routed = refl
variant-discriminant task_result_received = refl
variant-discriminant trace_written = refl
variant-discriminant algedonic_signal_received = refl
variant-discriminant audit_started = refl
variant-discriminant audit_completed = refl
variant-discriminant gene_suggestion_created = refl
variant-discriminant genome_patch_applied = refl
variant-discriminant trial_queued = refl
variant-discriminant trial_started = refl
variant-discriminant trial_task_routed = refl
variant-discriminant trial_trace_recorded = refl
variant-discriminant trial_decision_recorded = refl
variant-discriminant trial_promoted = refl
variant-discriminant trial_pruned = refl
variant-discriminant trial_rejected = refl
variant-discriminant trial_frozen = refl
variant-discriminant evolution_generation_created = refl
variant-discriminant (other value) = refl

abbrev pub kind_beq : LedgerEventKind → LedgerEventKind → Bool
kind_beq a b = discriminant a == discriminant b

pub kind_beq_iff : (a b : LedgerEventKind) → (kind_beq a b ≡ true) ↔ (a ≡ b)
kind_beq_iff a b = (
  λ h.
      sym (variant-discriminant a)
      ∙ ap variant {x = discriminant a} {y = discriminant b} (==_eq h)
      ∙ variant-discriminant b,
  λ e. rw e (==_refl (discriminant b)),
)

instance abbrev pub kind_key : Key LedgerEventKind
kind_key = record {
  beq = kind_beq;
  before = λ a b. Key.before pair_key (discriminant a) (discriminant b);
  beq_iff = kind_beq_iff;
}
