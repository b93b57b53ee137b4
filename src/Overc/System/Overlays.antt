-- ===== src/Overc/System/Overlays.antt =====
-- Which containers of an upgrade of the system have an overlay.
use meta_overc.Base.{String, Bool, false, List, [], ◌∷◌, ◌≡◌, refl, ◌∙◌, or_false, contains}
use meta_overc.Text.{split}
use meta_overc.System.{Env}
use meta_overc.Exec.Ensures.{Ensures-if, Ensures-last, Ensures-with}
use meta_overc.Exec.Yields.{Yields, Yields-pure, yields_rules}
use meta_overc.Container
use meta_overc.Overc.System.{
  Upgraded, is_zero, dists, none_upgraded, upgrade_known, upgrade_by_dist, upgrade_containers,
  upgrade_all,
}

-- No container has an overlay, as the code has it.
abbrev pub HasNoOverlay : Upgraded → Type 0
HasNoOverlay u = u.overlay_flag ≡ false

module _ (env : Env) (template : String) (skip_del : Bool) where
  upgrade_known-HasNoOverlay :
      (cn : String) (u : Upgraded)
      → HasNoOverlay u
      → Yields HasNoOverlay (upgrade_known env cn template skip_del u)
  unfolding upgrade_known Container.is_overlay Container.get_overlay
  upgrade_known-HasNoOverlay cn u e =
      let same = or_false u.overlay_flag ∙ e in search (yields_rules) depth 10

  upgrade_by_dist-HasNoOverlay :
      (cn : String) (ds : List String) (u : Upgraded)
      → HasNoOverlay u
      → Yields HasNoOverlay (upgrade_by_dist env cn template skip_del ds u)
  unfolding upgrade_by_dist
  upgrade_by_dist-HasNoOverlay cn [] u e = Yields-pure u e
  upgrade_by_dist-HasNoOverlay cn (d ∷ ds) u e = Ensures-last _ _ (λ issue.
      Ensures-if (contains (split issue) d) _ _ (upgrade_known-HasNoOverlay cn u e)
        (upgrade_by_dist-HasNoOverlay cn ds u e))

  upgrade_containers-HasNoOverlay :
      (cns : List String) (u : Upgraded)
      → HasNoOverlay u
      → Yields HasNoOverlay (upgrade_containers env template skip_del cns u)
  unfolding upgrade_containers
  upgrade_containers-HasNoOverlay [] u e = Yields-pure u e
  upgrade_containers-HasNoOverlay (cn ∷ cns) u e = Ensures-last _ _ (λ x.
      Ensures-last _ _ (λ active.
        Ensures-with HasNoOverlay _ _
          (Ensures-if active _ _ (upgrade_by_dist-HasNoOverlay cn dists u e) (Yields-pure u e))
          (λ v d. Ensures-last _ _ (λ code.
            Ensures-if (is_zero code) _ _ (upgrade_containers-HasNoOverlay cns v d)
              (Yields-pure v d)))))

  pub upgrade_all-HasNoOverlay : Yields HasNoOverlay (upgrade_all env template skip_del)
  unfolding upgrade_all
  upgrade_all-HasNoOverlay =
      Ensures-last _ _ (λ cns. upgrade_containers-HasNoOverlay cns none_upgraded refl)
