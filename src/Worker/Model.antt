-- ===== src/Worker/Model.antt =====
-- crates/vsm-worker/src/model.rs: what a worker asks a model and what it answers, and the provider that echoes.
-- `V` stands for `serde_json::Value`.
use Prim.Native.Nat.{◌/◌}
use Prim.Native.String.{len, ◌++◌ as append_text}
use vsm_agent_kernel.Base.{ℕ, ◌+◌, String, Option, none, some}
use vsm_agent_kernel.Base.Results.{Result, ok}
use vsm_agent_kernel.Base.TreeMap.{TreeMap}
use vsm_agent_kernel.Core.Node.{ModelSpec}
use vsm_agent_kernel.Worker.Error.{ModelProviderError}

pub record ModelUsage : Type 0 where
  pub input_tokens : ℕ
  pub output_tokens : ℕ

pub total_tokens : ModelUsage → ℕ
total_tokens usage = usage.input_tokens + usage.output_tokens

pub record ModelRequest : Type 0 where
  pub model : ModelSpec
  pub instructions : String
  pub input : String
  pub metadata : TreeMap String String

pub record ModelResponse (V : Type 0) : Type 0 where
  pub output_text : String
  pub usage : Option ModelUsage
  pub raw : Option V

-- The quotient rounded up. The source computes it in `f64`, which is exact below 2^53.
unfoldable pub rough_token_estimate : String → ℕ
rough_token_estimate text = (len text + 3) / 4

-- `EchoModelProvider::complete`, with the provider's prefix.
unfoldable pub echo_complete :
    {V : Type 0} → String → ModelRequest → Result ModelProviderError (ModelResponse V)
unfolding rough_token_estimate
echo_complete prefix request =
    let output_text = append_text prefix (
      append_text ": accepted task.\n\nInstructions:\n"
        (append_text request.instructions (append_text "\n\nInput:\n" request.input))) in
    ok (record {
      usage = some (record {
        input_tokens =
            rough_token_estimate request.instructions + rough_token_estimate request.input;
        output_tokens = rough_token_estimate output_text;
      });
      output_text = output_text;
      raw = none;
    })
