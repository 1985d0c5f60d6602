-- ===== src/Worker/Harness/Served.antt =====
-- That a worker serves its tasks (crates/vsm-worker/src/harness.rs), whatever the model answers.
use vsm_agent_kernel.Base.{
  ℕ, zero, suc, ◌+◌, ◌-◌, ◌≤◌, ◌<◌, ◌≡◌, refl, ap, ◌∙◌, String, true, not, Option, none, some, List,
  [], ◌∷◌, ◌++◌, map, take, length, length-append, All, string_key, ◌==◌, arith, Bool-cases, inl,
  inr, ltb, if◌then◌else◌,
}
use mathlib.Core.List.{map-append, append_assoc, append-nil}
use vsm_agent_kernel.Base.Float.{Float}
use vsm_agent_kernel.Base.Json.{Json}
use vsm_agent_kernel.Base.Results.{Result, ok, err}
use vsm_agent_kernel.Core.Envelope
use vsm_agent_kernel.Core.Envelope.{MessageEnvelope, as_str}
use vsm_agent_kernel.Core.Id.{TaskId}
use vsm_agent_kernel.Core.Task.{TaskPacket, TaskResult}
use vsm_agent_kernel.Worker.Harness.{
  Services, WorkerHarness, ◌>>=◌, pure, question, execute_task, elsewhere, handle_task,
  handle_envelope, push_some, handle_until, subscription, run_until_tasks,
}
use vsm_agent_kernel.Worker.Harness.Executed.{
  EndsAt, Ends-map, bind_at, Reliable, execute_task-Ends,
}
use vsm_agent_kernel.Worker.Harness.Results.{IsOf}

take-nil : {A : Type 0} (n : ℕ) → take {A = A} n [] ≡ []
take-nil zero = refl
take-nil (suc n) = refl

take-sub :
    {A : Type 0} (m n : ℕ) (x : A) (xs : List A)
    → n < m
    → take (m - n) (x ∷ xs) ≡ x ∷ take (m - (n + 1)) xs
take-sub m n x xs h = let e : m - n ≡ suc (m - (n + 1)) = omega arith in rw e

module _ {F V S : Type 0} ⦃f : Float F⦄ ⦃j : Json V⦄ (services : Services F V S)
    (harness : WorkerHarness) (fuel : ℕ) where
  -- The task that an envelope brings to this worker, if it brings one.
  abbrev pub taken : Result String TaskPacket → Option TaskPacket
  taken (err e) = none
  taken (ok task) = if elsewhere services harness task.assigned_to then none else some task

  abbrev pub takes : MessageEnvelope V → Option TaskPacket
  takes envelope =
      if not (envelope.payload_type == as_str Envelope.task_packet)
      then none
      else taken (services.payload_as envelope.payload)

  -- A payload that is called a task packet is one.
  abbrev pub Readable : MessageEnvelope V → Type 0
  Readable envelope =
      (envelope.payload_type == as_str Envelope.task_packet) ≡ true
      → (task : TaskPacket) × (services.payload_as envelope.payload ≡ ok task)

  -- The outcome of an envelope that brings the task, or none.
  abbrev pub Outcome : Option TaskPacket → Option TaskResult → Type 0
  Outcome none o = o ≡ none
  Outcome (some task) o =
      (result : TaskResult) × (o ≡ some result) × IsOf task.id harness.node_id result

  abbrev pub ids : List TaskResult → List TaskId
  ids = map (λ result. result.task_id)

  abbrev pub front : Option TaskPacket → List TaskId → List TaskId
  front none rest = rest
  front (some task) rest = task.id ∷ rest

  -- The tasks that the envelopes bring to this worker, in their order.
  unfoldable pub brought : List (MessageEnvelope V) → List TaskId
  brought [] = []
  brought (envelope ∷ envelopes) = front (takes envelope) (brought envelopes)

  module _ (reliable : Reliable services harness fuel) where
    handle_task-Ends :
        (envelope : MessageEnvelope V) (task : TaskPacket) (s : S)
        → EndsAt (Outcome (taken (ok task))) (handle_task services harness fuel envelope task s)
    unfolding handle_task
    handle_task-Ends envelope task s =
        elim (Bool-cases (elsewhere services harness task.assigned_to)) [
          | inl e ↦ rw e (refl)
          | inr e ↦ rw e (
              bind_at (IsOf task.id harness.node_id) (Outcome (some task))
                (λ result. pure (some result)) (execute_task services harness fuel task envelope s)
                (execute_task-Ends services harness fuel reliable task envelope s)
                (λ result t h. (result, refl, h)) s)
        ]

    handle_envelope-Ends :
        (envelope : MessageEnvelope V) (s : S)
        → Readable envelope
        → EndsAt (Outcome (takes envelope)) (handle_envelope services harness fuel envelope s)
    unfolding handle_envelope
    handle_envelope-Ends envelope s readable =
        elim (Bool-cases (envelope.payload_type == as_str Envelope.task_packet)) [
          | inr e ↦ rw e (refl)
          | inl e ↦ let (task, p) = readable e in rw (e, p) (handle_task-Ends envelope task s)
        ]

    push-Outcome :
        (max_tasks : ℕ) (handled : List TaskResult) (later : List TaskId) (o : Option TaskPacket)
        (r : Option TaskResult)
        → Outcome o r
        → length handled < max_tasks
        → ids (push_some services harness handled r)
            ++ take (max_tasks - length (push_some services harness handled r)) later
          ≡ ids handled ++ take (max_tasks - length handled) (front o later)
    push-Outcome max_tasks handled later none r h k = rw h
    push-Outcome max_tasks handled later (some task) r (result, e, of) k = rw (
      e,
      length-append handled (result ∷ []),
      take-sub max_tasks (length handled) task.id later k,
      map-append (λ (x : TaskResult). x.task_id) handled (result ∷ []),
      append_assoc,
      of.of_task,
    )

    push-length :
        (max_tasks : ℕ) (handled : List TaskResult) (r : Option TaskResult)
        → length handled < max_tasks
        → length (push_some services harness handled r) ≤ max_tasks
    push-length max_tasks handled none k = omega arith
    push-length max_tasks handled (some result) k =
        omega (arith, length-append {0} handled (result ∷ []))

    handle_until-Ends :
        (max_tasks : ℕ) (envelopes : List (MessageEnvelope V)) (handled : List TaskResult) (s : S)
        → length handled ≤ max_tasks
        → All Readable envelopes
        → EndsAt
            (λ results.
              ids results ≡ ids handled ++ take (max_tasks - length handled) (brought envelopes))
            (handle_until services harness fuel max_tasks (map ok envelopes) handled s)
    unfolding handle_until brought
    handle_until-Ends max_tasks [] handled s k readable =
        rw (take-nil (max_tasks - length handled), append-nil)
    handle_until-Ends max_tasks (envelope ∷ envelopes) handled s k readable =
        elim (Bool-cases (ltb (length handled) max_tasks)) [
          | inr e ↦
              let full : max_tasks - length handled ≡ 0 = ground arith in rw (e, full, append-nil)
          | inl e ↦ rw e (
              bind_at (Outcome (takes envelope)) _
                (λ r.
                  handle_until services harness fuel max_tasks (map ok envelopes)
                    (push_some services harness handled r))
                (handle_envelope services harness fuel envelope s)
                (handle_envelope-Ends envelope s readable.0)
                (λ r t h.
                  let more : length handled < max_tasks = ground arith in
                  Ends-map _ _
                    (handle_until services harness fuel max_tasks (map ok envelopes)
                      (push_some services harness handled r) t)
                    (λ results q.
                      q
                      ∙ push-Outcome max_tasks handled (brought envelopes) (takes envelope) r h
                          more)
                    (handle_until-Ends max_tasks envelopes (push_some services harness handled r) t
                      (push-length max_tasks handled r more) readable.1))
                s)
        ]

    -- If the worker's node stays in the genome, and the trace sink, the transport and the serialization of results
    -- do not fail, a worker that is asked for a number of tasks returns, on a stream in which every envelope that
    -- is called a task packet is one, with just the results of the first that many tasks that the stream brings
    -- to it, in their order, or of all where the stream brings fewer. That holds whatever the model answers,
    -- errors included.
    pub run_until_tasks-Ends :
        (max_tasks : ℕ) (envelopes : List (MessageEnvelope V)) (s : S)
        → (services.subscribe (subscription services harness) s).0 ≡ ok (map ok envelopes)
        → All Readable envelopes
        → EndsAt
            (λ results. ids results ≡ take max_tasks (brought envelopes))
            (run_until_tasks services harness fuel max_tasks s)
    unfolding run_until_tasks
    run_until_tasks-Ends max_tasks envelopes s subscribed readable =
        let whole : max_tasks - 0 ≡ max_tasks = omega arith in
        let t = (services.subscribe (subscription services harness) s).1 in
        rw (subscribed, ◌>>=◌, question)
          (Ends-map (λ results. ids results ≡ take (max_tasks - 0) (brought envelopes))
            (λ results. ids results ≡ take max_tasks (brought envelopes))
            (handle_until services harness fuel max_tasks (map ok envelopes) [] t)
            (λ results q. q ∙ ap (λ n. take n (brought envelopes)) whole)
            (handle_until-Ends max_tasks envelopes [] t (omega arith) readable))
