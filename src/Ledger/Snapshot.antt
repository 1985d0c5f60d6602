-- ===== src/Ledger/Snapshot.antt =====
-- crates/vsm-ledger/src/state.rs: snapshots of genomes.
pub mod Keys
use Prim.Native.String.{slice, len, ◌++◌ as append_text}
use text.Mathlib.Text.{starts_with}
use vsm_agent_kernel.Base.{string_key, ◌==◌, if◌then◌else◌, ℕ, String, []}
use vsm_agent_kernel.Base.TreeMap.{TreeMap}
use vsm_agent_kernel.Core.Id.{GenomeId}
use vsm_agent_kernel.Core.Genome.{OrganizationalGenome}

pub data GenomeSnapshotRole : Type 0 where
  champion : GenomeSnapshotRole
  candidate : GenomeSnapshotRole
  archived : GenomeSnapshotRole
  other : String → GenomeSnapshotRole

pub record GenomeSnapshot : Type 0 where
  pub genome_id : GenomeId
  pub role : GenomeSnapshotRole
  pub saved_at : ℕ
  pub genome : OrganizationalGenome
  pub metadata : TreeMap String String

-- `GenomeSnapshot::new`.
abbrev pub new_snapshot : ℕ → OrganizationalGenome → GenomeSnapshotRole → GenomeSnapshot
new_snapshot now genome role = record {
  genome_id = genome.id;
  role = role;
  saved_at = now;
  genome = genome;
  metadata = [];
}

-- `GenomeSnapshotRole::as_storage_key` and `GenomeSnapshotRole::from_storage_key`.
abbrev pub role_key : GenomeSnapshotRole → String
role_key champion = "champion"
role_key candidate = "candidate"
role_key archived = "archived"
role_key (other value) = append_text "other:" value

unfoldable pub from_role_key : String → GenomeSnapshotRole
from_role_key value =
    if value == "champion"
    then champion
    else if value == "candidate"
    then candidate
    else if value == "archived"
    then archived
    else if starts_with value "other:"
    then other (slice value (len "other:") (len value))
    else other value
