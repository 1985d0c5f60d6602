-- ===== src/Worker/HarnessExamples.antt =====
-- A worker with services that keep nothing and a model that fails.
use vsm_agent_kernel.Base.{ℕ, String, ◌≡◌, refl, none, some, [], ◌∷◌, map, take, string_key}
use vsm_agent_kernel.Base.Results.{ok, err}
use vsm_agent_kernel.Base.TreeMap.{get, insert, modify}
use vsm_agent_kernel.Core.Channel.{command, normal}
use vsm_agent_kernel.Core.Envelope.{MessageEnvelope}
use vsm_agent_kernel.Core.Fixtures.{two, coder, nat_float, text_json}
use vsm_agent_kernel.Core.Genome.{new, add_child, get_node, ancestor_ids}
use vsm_agent_kernel.Core.Task.{new_task}
use vsm_agent_kernel.Worker.Error.{request}
use vsm_agent_kernel.Worker.Harness.{Services, WorkerHarness, default_config, run_until_tasks}
use vsm_agent_kernel.Worker.Harness.Executed.{EndsAt, Reliable}
use vsm_agent_kernel.Worker.Harness.Served.{ids, brought, run_until_tasks-Ends}

abbrev envelope : MessageEnvelope String
envelope = record {
  id = "m";
  channel_type = command;
  source_node_id = some "r";
  target_node_id = some "c";
  correlation_id = none;
  causation_id = none;
  priority = normal;
  created_at = 0;
  payload_type = "vsm.task_packet";
  payload = "t";
  trace = [];
  metadata = [];
}

abbrev services : Services ℕ String ℕ
services = record {
  read_genome = λ s. two.genome;
  now = λ s. (s, s);
  draw_id = λ s. ("fresh", s);
  elapsed_ms = λ a b. 0;
  complete = λ r s. (err (request "down"), s);
  record_trace = λ t s. (ok tt, s);
  publish = λ e s. (ok tt, s);
  subscribe = λ q s. (ok (map ok (envelope ∷ envelope ∷ [])), s);
  payload_as = λ v. ok (new_task v "fix" "fix it");
  to_value = λ r. ok r.summary;
  render = λ v. v;
  debug_texts = λ ts. "";
  debug_capabilities = λ c. "";
  pretty = λ t. none;
}

abbrev harness : WorkerHarness
harness = record { node_id = "c"; config = default_config }

reliable : Reliable services harness 2
unfolding get_node ancestor_ids add_child new insert modify get
reliable = record {
  node_of = λ s. record coder { parent_id = some "r" };
  ancestors_of = λ s. "r" ∷ [];
  value_of = λ r. r.summary;
  present = λ s. refl;
  rooted = λ s. refl;
  records = λ t s. refl;
  publishes = λ e s. refl;
  serializes = λ r. refl;
}

run_until_tasks-Ends_example :
    EndsAt
      (λ results.
        ids services harness 2 results
        ≡ take 1 (brought services harness 2 (envelope ∷ envelope ∷ [])))
      (run_until_tasks services harness 2 1 0)
run_until_tasks-Ends_example =
    run_until_tasks-Ends services harness 2 reliable 1 (envelope ∷ envelope ∷ []) 0 refl
      (λ _. (new_task "t" "fix" "fix it", refl), (λ _. (new_task "t" "fix" "fix it", refl), tt))
