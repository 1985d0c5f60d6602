-- ===== src/Ledger/Memory/Champion.antt =====
-- The champion genome of a controller (crates/vsm-ledger/src/ledger.rs, `set_champion_genome` and
-- `get_champion_genome`, over crates/vsm-ledger/src/memory.rs).
use vsm_agent_kernel.Base.{
  ℕ, ◌≡◌, refl, Bool, false, Option, none, some, string_key, arith, ◌==◌, Bool-cases, ==_refl, inl,
  inr, if◌then◌else◌,
}
use vsm_agent_kernel.Base.TreeMap.{get, get-insert}
use vsm_agent_kernel.Core.Id.{NodeId, GenomeId}
use vsm_agent_kernel.Core.Genome.{OrganizationalGenome}
use vsm_agent_kernel.Ledger.Snapshot.{champion, new_snapshot}
use vsm_agent_kernel.Ledger.Memory.{
  InMemoryLedger, save_genome_snapshot, set_champion_genome_id, get_champion_genome_id,
  get_genome_snapshot, set_champion_genome, genome_of_id, get_champion_genome,
}

-- Whether the champion of a controller is the genome of an id.
abbrev pub is_champion_id : Option GenomeId → GenomeId → Bool
is_champion_id none id = false
is_champion_id (some champion_id) id = id == champion_id

read_of :
    {F V : Type 0} (l : InMemoryLedger F V) (node : NodeId)
    → get_champion_genome l node ≡ genome_of_id l (get node l.champion_genomes)
unfolding get_champion_genome get_champion_genome_id
read_of l node = refl

module _ {F V : Type 0} (now : ℕ) (l : InMemoryLedger F V) (controller : NodeId)
    (g : OrganizationalGenome) where
  genome_of_after :
      (o : Option GenomeId)
      → genome_of_id (set_champion_genome now l controller g) o
        ≡ (if is_champion_id o g.id then some g else genome_of_id l o)
  unfolding set_champion_genome save_genome_snapshot set_champion_genome_id genome_of_id
      get_genome_snapshot
  genome_of_after none = refl
  genome_of_after (some id) =
      ground (arith, get-insert g.id id (new_snapshot now g champion) l.genomes)

  champion_after :
      (other : NodeId)
      → get other (set_champion_genome now l controller g).champion_genomes
        ≡ (if controller == other then some g.id else get other l.champion_genomes)
  unfolding set_champion_genome save_genome_snapshot set_champion_genome_id
  champion_after other = get-insert controller other g.id l.champion_genomes

-- After a champion is set, the controller reads it back. Another controller reads the new genome too if
-- its champion has the id of the new one, and else what it read before.
pub get-set_champion_genome :
    {F V : Type 0} (now : ℕ) (l : InMemoryLedger F V) (controller other : NodeId)
    (g : OrganizationalGenome)
    → get_champion_genome (set_champion_genome now l controller g) other ≡ (
        if controller == other
        then some g
        else if is_champion_id (get other l.champion_genomes) g.id
        then some g
        else get_champion_genome l other)
get-set_champion_genome now l controller other g =
    let after = set_champion_genome now l controller g in
    elim (Bool-cases (controller == other)) [
      | inl e ↦
          rw
            (
              read_of after other,
              champion_after now l controller g other,
              e,
              genome_of_after now l controller g (some g.id),
              ==_refl g.id,
            )
            refl
      | inr e ↦
          rw
            (
              read_of after other,
              champion_after now l controller g other,
              e,
              genome_of_after now l controller g (get other l.champion_genomes),
              read_of l other,
            )
            refl
    ]
