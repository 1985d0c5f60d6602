-- ===== src/Ledger/EventKind/Keys.antt =====
-- The keys under which the kinds of events are stored (crates/vsm-ledger/src/event.rs).
use text.Mathlib.TextPositions.{slice-append_right, len-append}
use text.Mathlib.Text.{starts_with}
use Prim.Native.String.{slice, len, ◌++◌ as append_text}
use vsm_agent_kernel.Base.{
  String, ◌≡◌, refl, sym, ap, ◌∙◌, Bool, false, List, [], ◌∷◌, any, ◌||◌, string_key, ◌==◌,
  if◌then◌else◌, arith,
}
use vsm_agent_kernel.Ledger.Snapshot.Keys.{prefixed_differs}
use vsm_agent_kernel.Ledger.Event.{
  LedgerEventKind, other, event_key, controller_started, worker_started, message_received,
  message_published, directive_accepted, task_mapped, task_routed, task_result_received,
  trace_written, algedonic_signal_received, audit_started, audit_completed, gene_suggestion_created,
  genome_patch_applied, trial_queued, trial_started, trial_task_routed, trial_trace_recorded,
  trial_decision_recorded, trial_promoted, trial_pruned, trial_rejected, trial_frozen,
  evolution_generation_created,
}
use vsm_agent_kernel.Ledger.EventKind.{plain_kinds}

-- The kind of a key: the one with that key among the plain ones, and else `Other` of what follows the
-- prefix.
kind_of_key : List LedgerEventKind → String → LedgerEventKind
kind_of_key [] key = other (slice key (len "other:") (len key))
kind_of_key (k ∷ ks) key = let rest = kind_of_key ks key in if key == event_key k then k else rest

abbrev prefixed : LedgerEventKind → Bool
prefixed k = starts_with (event_key k) "other:"

unprefixed : any prefixed plain_kinds ≡ false
unfolding any
unprefixed = refl

or_false_left : (a b : Bool) → (a || b) ≡ false → a ≡ false
or_false_left a b h = ground arith

or_false_right : (a b : Bool) → (a || b) ≡ false → b ≡ false
or_false_right a b h = ground arith

kind_of_other :
    (ks : List LedgerEventKind) (value : String)
    → any prefixed ks ≡ false
    → kind_of_key ks (event_key (other value)) ≡ other value
unfolding kind_of_key any
kind_of_other [] value h = ap other (
    ap (slice (append_text "other:" value) (len "other:")) (len-append "other:" value)
    ∙ slice-append_right "other:" value)
kind_of_other (k ∷ ks) value h =
    rw (prefixed_differs value (event_key k) (or_false_left _ _ h))
      (kind_of_other ks value (or_false_right _ _ h))

kind_of_key-event_key : (k : LedgerEventKind) → kind_of_key plain_kinds (event_key k) ≡ k
unfolding kind_of_key
kind_of_key-event_key controller_started = refl
kind_of_key-event_key worker_started = refl
kind_of_key-event_key message_received = refl
kind_of_key-event_key message_published = refl
kind_of_key-event_key directive_accepted = refl
kind_of_key-event_key task_mapped = refl
kind_of_key-event_key task_routed = refl
kind_of_key-event_key task_result_received = refl
kind_of_key-event_key trace_written = refl
kind_of_key-event_key algedonic_signal_received = refl
kind_of_key-event_key audit_started = refl
kind_of_key-event_key audit_completed = refl
kind_of_key-event_key gene_suggestion_created = refl
kind_of_key-event_key genome_patch_applied = refl
kind_of_key-event_key trial_queued = refl
kind_of_key-event_key trial_started = refl
kind_of_key-event_key trial_task_routed = refl
kind_of_key-event_key trial_trace_recorded = refl
kind_of_key-event_key trial_decision_recorded = refl
kind_of_key-event_key trial_promoted = refl
kind_of_key-event_key trial_pruned = refl
kind_of_key-event_key trial_rejected = refl
kind_of_key-event_key trial_frozen = refl
kind_of_key-event_key evolution_generation_created = refl
kind_of_key-event_key (other value) = kind_of_other plain_kinds value unprefixed

-- Two kinds of events that are stored under one key are the same kind: a selection by the key selects
-- exactly the events of the kind.
pub event_key_injective : (a b : LedgerEventKind) → event_key a ≡ event_key b → a ≡ b
event_key_injective a b e =
    sym (kind_of_key-event_key a)
    ∙ ap (kind_of_key plain_kinds) {x = event_key a} {y = event_key b} e
    ∙ kind_of_key-event_key b
