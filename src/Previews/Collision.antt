-- ===== src/Previews/Collision.antt =====
-- Previews of one project whose names agree.
use kubwave.Common.{
  ◌≡◌, refl, Bool, true, false, ◌||◌, String, List, [], ◌∷◌, ◌++◌, ==_refl, arith, any,
}
use kubwave.Common.Units.{Units, same_units}
use kubwave.Store.Environments.{Environment}
use kubwave.Previews.Clone.{
  OpenPr, PreviewStore, CloneInputs, clone_preview, preview_environment, preview_name, conflicts,
}

same_units_refl : (s : Units) → same_units s s ≡ true
same_units_refl [] = refl
same_units_refl (c ∷ s) = rw (==_refl c, same_units_refl s) refl

same_of_eq : (s t : Units) → s ≡ t → same_units s t ≡ true
same_of_eq s t e = rw e (same_units_refl t)

or_left : {a : Bool} (b : Bool) → a ≡ true → (a || b) ≡ true
or_left b e = rw e refl

any-last {ℓ} :
    {A : Type ℓ} (f : A → Bool) (xs : List A) (y : A) → f y ≡ true → any f (xs ++ y ∷ []) ≡ true
any-last f [] y e = rw e refl
any-last f (x ∷ xs) y e = ground (arith, any-last f xs y e)

abbrev new_preview : CloneInputs → Environment → OpenPr → String → Environment
new_preview inputs base pr url =
    preview_environment inputs.lower inputs.now (inputs.environment_id url pr.pr_number) base pr url

same_name :
    (inputs : CloneInputs) (base other : Environment) (pr pr' : OpenPr) (url url' : String)
    → base.project_id ≡ other.project_id
    → preview_name inputs.lower pr.pr_number url ≡ preview_name inputs.lower pr'.pr_number url'
    → conflicts (new_preview inputs other pr' url') (new_preview inputs base pr url) ≡ true
unfolding preview_environment
same_name inputs base other pr pr' url url' same named =
    rw (same, ==_refl other.project_id) (or_left _ (same_of_eq _ _ named))

-- Once a pull request has a preview, another one whose preview would have the same name, in the same
-- project, gets none: its clone writes nothing. The name has the pull request's number and the last
-- part of the repository's address, so two repositories may share it, as may two base environments.
clone_preview-taken :
    (inputs : CloneInputs) (base other : Environment) (pr pr' : OpenPr) (url url' : String)
    (p : PreviewStore)
    → base.project_id ≡ other.project_id
    → preview_name inputs.lower pr.pr_number url ≡ preview_name inputs.lower pr'.pr_number url'
    → any (conflicts (new_preview inputs base pr url)) p.environments ≡ false
    → clone_preview inputs other pr' url' (clone_preview inputs base pr url p)
      ≡ clone_preview inputs base pr url p
unfolding clone_preview
clone_preview-taken inputs base other pr pr' url url' p same named free = rw free (
    rw
      (any-last (conflicts (new_preview inputs other pr' url')) p.environments
        (new_preview inputs base pr url) (same_name inputs base other pr pr' url url' same named))
      refl)
