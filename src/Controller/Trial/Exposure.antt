-- ===== src/Controller/Trial/Exposure.antt =====
-- The exposure policies of crates/vsm-controller/src/trial.rs: the share of the traffic that a trial gets.
pub mod Laws
use Prim.Native.Nat.{◌%◌, ◌^◌, bit_xor}
use vsm_agent_kernel.Base.{
  ℕ, ◌*◌, String, Bool, true, false, not, ◌&&◌, Option, none, some, List, [], ◌∷◌, ltb, leb,
  if◌then◌else◌,
}
use vsm_agent_kernel.Base.Bytes.{bytes}
use vsm_agent_kernel.Core.Id.{SuggestionId}
use vsm_agent_kernel.Core.Task.{TaskPacket, RiskClass, high, critical}
use vsm_agent_kernel.Core.Suggestion.{TrialMode, shadow, probation, canary, direct}
use vsm_agent_kernel.Runtime.Trial.{MutationTrial}

-- `RiskClass::High | RiskClass::Critical`.
unfoldable pub is_high_risk : RiskClass → Bool
is_high_risk high = true
is_high_risk critical = true
is_high_risk _ = false

unfoldable pub is_shadow_mode : TrialMode → Bool
is_shadow_mode shadow = true
is_shadow_mode _ = false

unfoldable pub clamped_basis_points : ℕ → ℕ
clamped_basis_points value = if leb value 10000 then value else 10000

-- One round of the hash on 64 bits, with `wrapping_mul`.
unfoldable pub hash_byte : ℕ → ℕ → ℕ
hash_byte hash byte = (bit_xor hash byte * 1099511628211) % (2 ^ 64)

unfoldable pub hash_bytes : ℕ → List ℕ → ℕ
unfolding hash_byte
hash_bytes hash [] = hash
hash_bytes hash (byte ∷ rest) = hash_bytes (hash_byte hash byte) rest

unfoldable pub deterministic_exposure_bucket : TaskPacket → SuggestionId → ℕ
unfolding hash_byte hash_bytes bytes
deterministic_exposure_bucket task suggestion_id =
    hash_bytes (hash_byte (hash_bytes 14695981039346656037 (bytes task.id)) 58)
      (bytes suggestion_id)
    % 10000

-- `is_some_and` over the share of the traffic.
unfoldable pub within_share : TaskPacket → SuggestionId → Option ℕ → Bool
unfolding deterministic_exposure_bucket clamped_basis_points
within_share task suggestion_id none = false
within_share task suggestion_id (some basis_points) =
    ltb (deterministic_exposure_bucket task suggestion_id) (clamped_basis_points basis_points)

-- The `match` on the mode of an unapproved trial.
unfoldable pub mode_passes : TrialMode → Bool → Bool
mode_passes direct share = true
mode_passes probation share = share
mode_passes canary share = share
mode_passes shadow share = false

module _ {F : Type 0} where
  unfoldable pub task_passes_exposure_policy : TaskPacket → MutationTrial F → Bool → Bool
  unfolding is_shadow_mode is_high_risk mode_passes within_share
  task_passes_exposure_policy task trial approved =
      if is_shadow_mode trial.suggestion.trial_mode
      then false
      else if is_high_risk task.risk && not approved
      then false
      else if approved
      then true
      else mode_passes trial.suggestion.trial_mode (
          within_share task trial.suggestion.id
            trial.suggestion.safety_limits.max_traffic_share_basis_points)

  unfoldable pub task_passes_shadow_exposure_policy : TaskPacket → MutationTrial F → Bool → Bool
  unfolding is_high_risk within_share
  task_passes_shadow_exposure_policy task trial approved =
      if is_high_risk task.risk && not approved
      then false
      else if approved
      then true
      else within_share task trial.suggestion.id
          trial.suggestion.safety_limits.max_traffic_share_basis_points
