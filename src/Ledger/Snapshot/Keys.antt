-- ===== src/Ledger/Snapshot/Keys.antt =====
-- The keys under which the roles of snapshots are stored (crates/vsm-ledger/src/state.rs).
use Prim.Native.String.{slice, len, ◌++◌ as append_text}
use text.Mathlib.Text.{starts_with}
use text.Mathlib.TextPositions.{starts_with-append, slice-append_right, len-append}
use vsm_agent_kernel.Base.{String, ◌≡◌, refl, ap, ◌∙◌, false, string_key, ◌==◌, ==_ne, arith}
use vsm_agent_kernel.Ledger.Snapshot.{
  GenomeSnapshotRole, champion, candidate, archived, other, role_key, from_role_key,
}

-- A text with the prefix differs from one without it.
pub prefixed_differs :
    (value plain : String)
    → starts_with plain "other:" ≡ false
    → (append_text "other:" value == plain) ≡ false
prefixed_differs value plain h =
    ==_ne (append_text "other:" value) plain (λ e.
      ground (arith, starts_with-append "other:" value, ap (λ s. starts_with s "other:") e, h))

-- A role that is stored under its key is read back as it was, also one of the kind `Other` whose text is
-- the key of another role.
pub from_role_key-role_key : (role : GenomeSnapshotRole) → from_role_key (role_key role) ≡ role
unfolding from_role_key
from_role_key-role_key champion = refl
from_role_key-role_key candidate = refl
from_role_key-role_key archived = refl
from_role_key-role_key (other value) =
    rw
      (
        prefixed_differs value "champion" refl,
        prefixed_differs value "candidate" refl,
        prefixed_differs value "archived" refl,
        starts_with-append "other:" value,
      )
      (ap other (
        ap (slice (append_text "other:" value) (len "other:")) (len-append "other:" value)
        ∙ slice-append_right "other:" value))
