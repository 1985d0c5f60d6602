-- ===== src/Controller/Trial/Exposure/Laws.antt =====
-- What the exposure policies (crates/vsm-controller/src/trial.rs) let pass.
use Prim.Native.Nat.{◌%◌}
use vsm_agent_kernel.Base.{ℕ, ◌≤◌, ◌<◌, ◌≡◌, refl, true, false, none, some, arith}
use vsm_agent_kernel.Core.Id.{SuggestionId}
use vsm_agent_kernel.Core.Task.{TaskPacket}
use vsm_agent_kernel.Controller.Trial.Exposure.{
  clamped_basis_points, deterministic_exposure_bucket, within_share,
}

remainder_bound : (n : ℕ) → n % 10000 < 10000
remainder_bound n = omega arith

bucket_bound :
    (task : TaskPacket) (id : SuggestionId) → deterministic_exposure_bucket task id < 10000
unfolding deterministic_exposure_bucket
bucket_bound task id = remainder_bound _

-- The full share admits every task, the share 0 and no share at all admit none.
pub share_ends :
    (task : TaskPacket) (id : SuggestionId)
    → (within_share task id (some 10000) ≡ true)
      × (within_share task id (some 0) ≡ false)
      × (within_share task id none ≡ false)
unfolding within_share clamped_basis_points
share_ends task id = (ground (arith, bucket_bound task id), ground arith, refl)

pub within_share_monotone :
    (task : TaskPacket) (id : SuggestionId) (less more : ℕ)
    → less ≤ more
    → within_share task id (some less) ≡ true
    → within_share task id (some more) ≡ true
unfolding within_share clamped_basis_points
within_share_monotone task id less more h e = ground arith
