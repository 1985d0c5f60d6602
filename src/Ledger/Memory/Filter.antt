-- ===== src/Ledger/Memory/Filter.antt =====
-- What `filter_event` (crates/vsm-ledger/src/memory.rs) lets pass.
use vsm_agent_kernel.Base.{
  ℕ, ◌≤◌, String, ◌≡◌, ◌↔◌, refl, sym, ◌∙◌, Bool, true, false, not, ◌&&◌, Option, none, some, Key,
  string_key, ==_refl, arith, is_empty, contains,
}
use mathlib.Core.Option.{some-injective}
use vsm_agent_kernel.Core.Id.{NodeId, TaskId, DirectiveId}
use vsm_agent_kernel.Ledger.Event.{LedgerEvent, EventFilter}
use vsm_agent_kernel.Ledger.EventKind.{kind_key}
use vsm_agent_kernel.Ledger.Memory.{field_ok, since_ok, filter_event}

-- Each field that the filter sets, as a demand on the event.
pub record Matches {V : Type 0} (event : LedgerEvent V) (filter : EventFilter) : Type 0 where
  pub kind : is_empty filter.kinds ≡ false → contains filter.kinds event.kind ≡ true
  pub node : (n : NodeId) → filter.node_id ≡ some n → event.node_id ≡ some n
  pub task : (t : TaskId) → filter.task_id ≡ some t → event.task_id ≡ some t
  pub directive : (d : DirectiveId) → filter.directive_id ≡ some d → event.directive_id ≡ some d
  pub correlation : (c : String) → filter.correlation_id ≡ some c → event.correlation_id ≡ some c
  pub not_before : (s : ℕ) → filter.since ≡ some s → s ≤ event.created_at

module _ {ℓ} {A : Type ℓ} ⦃o : Key A⦄ where
  field_passes :
      (wanted field : Option A)
      → field_ok wanted field ≡ true
      → (a : A) → wanted ≡ some a
      → field ≡ some a
  field_passes none field h a e = absurd (ground arith)
  field_passes (some w) none h a e = absurd (ground arith)
  field_passes (some w) (some v) h a e = ground (arith, o.beq_iff v w)

  field_holds :
      (wanted field : Option A)
      → ((a : A) → wanted ≡ some a → field ≡ some a)
      → field_ok wanted field ≡ true
  field_holds none field f = refl
  field_holds (some w) field f = rw (f w refl) (==_refl w)

since_passes :
    (since : Option ℕ) (time : ℕ) → since_ok since time ≡ true → (s : ℕ) → since ≡ some s → s ≤ time
since_passes none time h s e = absurd (ground arith)
since_passes (some t) time h s e = ground (arith, some-injective t s e)

since_holds :
    (since : Option ℕ) (time : ℕ)
    → ((s : ℕ) → since ≡ some s → s ≤ time)
    → since_ok since time ≡ true
since_holds none time f = refl
since_holds (some t) time f = ground (arith, f t refl)

module _ {V : Type 0} (event : LedgerEvent V) (filter : EventFilter) where
  abbrev kind_test : Bool
  kind_test = not (not (is_empty filter.kinds) && not (contains filter.kinds event.kind))

  six_tests : filter_event event filter ≡ (
      kind_test
      && field_ok filter.node_id event.node_id
      && field_ok filter.task_id event.task_id
      && field_ok filter.directive_id event.directive_id
      && field_ok filter.correlation_id event.correlation_id
      && since_ok filter.since event.created_at)
  unfolding filter_event
  six_tests = ground arith

  six_pass :
      (a b c d e f : Bool)
      → (a && b && c && d && e && f) ≡ true
      → (a ≡ true) × (b ≡ true) × (c ≡ true) × (d ≡ true) × (e ≡ true) × (f ≡ true)
  six_pass a b c d e f h =
      (ground arith, ground arith, ground arith, ground arith, ground arith, ground arith)

-- An event passes the filter exactly if it has each field that the filter names, is of one of the
-- filter's kinds if there are any, and is not before the filter's time.
pub filter_event_iff :
    {V : Type 0} (event : LedgerEvent V) (filter : EventFilter)
    → (filter_event event filter ≡ true) ↔ Matches event filter
filter_event_iff event filter = (
  λ h.
      let (a, b, c, d, e, f) =
        six_pass event filter (kind_test event filter) (field_ok filter.node_id event.node_id)
          (field_ok filter.task_id event.task_id) (field_ok filter.directive_id event.directive_id)
          (field_ok filter.correlation_id event.correlation_id)
          (since_ok filter.since event.created_at) (sym (six_tests event filter) ∙ h) in
      record {
        kind = λ k. ground arith;
        node = field_passes filter.node_id event.node_id b;
        task = field_passes filter.task_id event.task_id c;
        directive = field_passes filter.directive_id event.directive_id d;
        correlation = field_passes filter.correlation_id event.correlation_id e;
        not_before = since_passes filter.since event.created_at f;
      },
  λ m.
      six_tests event filter
      ∙ ground (
        arith,
        m.kind,
        field_holds filter.node_id event.node_id m.node,
        field_holds filter.task_id event.task_id m.task,
        field_holds filter.directive_id event.directive_id m.directive,
        field_holds filter.correlation_id event.correlation_id m.correlation,
        since_holds filter.since event.created_at m.not_before,
      ),
)
