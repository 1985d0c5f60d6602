-- ===== src/Core/Patch/Batches.antt =====
-- `Batch` (crates/vsm-core/src/patch.rs): patches in order, up to the first error.
use vsm_agent_kernel.Base.{ℕ, String, ◌≡◌, refl, Option, none, some, arith, ap, sym, ◌∙◌}
use mathlib.Core.Path.{fun_ext}
use vsm_agent_kernel.Base.Results.{ok, err}
use vsm_agent_kernel.Core.Genome.{World}
use vsm_agent_kernel.Core.Patch.{
  OrganizationalGenomePatch, Patches, PatchError, Applied, batch, nil, cons, apply, apply_all,
}

-- One batch after another.
unfoldable pub concat : Patches → Patches → Patches
concat nil others = others
concat (cons patch rest) others = cons patch (concat rest others)

-- Goes on from the state of a success.
abbrev pub then_run : Option Applied → (World → Option Applied) → Option Applied
then_run none next = none
then_run (some (err e, w)) next = some (err e, w)
then_run (some (ok _, w)) next = next w

module _ (uuid : ℕ → String) (fuel : ℕ) where
  apply_all-cons :
      (patch : OrganizationalGenomePatch) (rest : Patches) (w : World)
      → apply_all (cons patch rest) uuid fuel w
        ≡ then_run (apply patch uuid fuel w) (apply_all rest uuid fuel)
  unfolding apply_all
  apply_all-cons patch rest w = go (apply patch uuid fuel w)
    where
      go :
          (r : Option Applied)
          → (elim r [
            | none ↦ none
            | some (err e, after) ↦ some (err e, after)
            | some (ok _, after) ↦ apply_all rest uuid fuel after
          ])
            ≡ then_run r (apply_all rest uuid fuel)
      go none = refl
      go (some (err e, after)) = refl
      go (some (ok u, after)) = refl

  then_run_assoc :
      (r : Option Applied) (f g : World → Option Applied)
      → then_run (then_run r f) g ≡ then_run r (λ w. then_run (f w) g)
  then_run_assoc none f g = refl
  then_run_assoc (some (err e, w)) f g = refl
  then_run_assoc (some (ok u, w)) f g = refl

  -- A batch of two parts is the first part and, if that succeeds, the second from where it ended.
  pub apply_all-concat :
      (ps qs : Patches) (w : World)
      → apply_all (concat ps qs) uuid fuel w
        ≡ then_run (apply_all ps uuid fuel w) (apply_all qs uuid fuel)
  unfolding concat
  apply_all-concat nil qs w = unfold apply_all in refl
  apply_all-concat (cons patch rest) qs w =
      apply_all-cons patch (concat rest qs) w
      ∙ ap (then_run (apply patch uuid fuel w)) (fun_ext (λ z. apply_all-concat rest qs z))
      ∙ sym (
          then_run_assoc (apply patch uuid fuel w) (apply_all rest uuid fuel)
            (apply_all qs uuid fuel))
      ∙ ap (λ z. then_run z (apply_all qs uuid fuel)) (sym (apply_all-cons patch rest w))

  FailsAt : Patches → World → PatchError → World → Type 0
  FailsAt patches w e after =
      (done : Patches) × (patch : OrganizationalGenomePatch) × (rest : Patches) × (before : World)
      × (patches ≡ concat done (cons patch rest))
      × (apply_all done uuid fuel w ≡ some (ok tt, before))
      × (apply patch uuid fuel before ≡ some (err e, after))

  fails_first :
      (patch : OrganizationalGenomePatch) (rest : Patches) (w : World) (e : PatchError)
      (after : World) (r : Option Applied)
      → apply patch uuid fuel w ≡ r
      → ((next : World)
          → apply_all rest uuid fuel next ≡ some (err e, after)
          → FailsAt rest next e after)
      → then_run r (apply_all rest uuid fuel) ≡ some (err e, after)
      → FailsAt (cons patch rest) w e after
  unfolding FailsAt concat apply_all
  fails_first patch rest w e after none p ih h = absurd (ground arith)
  fails_first patch rest w e after (some (err x, v)) p ih h =
      (nil, patch, rest, w, refl, refl, p ∙ h)
  fails_first patch rest w e after (some (ok u, next)) p ih h =
      let (done, bad, tail, before, split, ran, failed) = ih next h in
      (
        cons patch done,
        bad,
        tail,
        before,
        ap (cons patch) split,
        apply_all-cons patch done w ∙ ap (λ z. then_run z (apply_all done uuid fuel)) p ∙ ran,
        failed,
      )

  fails_at :
      (patches : Patches) (w : World) (e : PatchError) (after : World)
      → apply_all patches uuid fuel w ≡ some (err e, after)
      → FailsAt patches w e after
  fails_at nil w e after h = absurd (unfold apply_all in ground arith)
  fails_at (cons patch rest) w e after h =
      fails_first patch rest w e after (apply patch uuid fuel w) refl
        (λ next q. fails_at rest next e after q) (sym (apply_all-cons patch rest w) ∙ h)

-- A batch that returns an error has succeeded on some first patches, and failed with that error on the
-- next one. What it leaves is what those two leave: nothing is rolled back.
pub batch_fails_at :
    (patches : Patches) (uuid : ℕ → String) (fuel : ℕ) (w : World) (e : PatchError) (after : World)
    → apply (batch patches) uuid fuel w ≡ some (err e, after)
    → (done : Patches) × (patch : OrganizationalGenomePatch) × (rest : Patches) × (before : World)
      × (patches ≡ concat done (cons patch rest))
      × (apply (batch done) uuid fuel w ≡ some (ok tt, before))
      × (apply patch uuid fuel before ≡ some (err e, after))
unfolding apply FailsAt
batch_fails_at patches uuid fuel w e after h = fails_at uuid fuel patches w e after h
