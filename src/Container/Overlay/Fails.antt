-- ===== src/Container/Overlay/Fails.antt =====
-- What the requests for overlays return.
use meta_overc.Base.{String, ℤ, Bool, true, false, Option, none, some, ◌≡◌, refl}
use meta_overc.System.{Env}
use meta_overc.Exec.Ensures.{Ensures-last, Ensures-with}
use meta_overc.Exec.Yields.{Yields, Yields-pure, yields_rules}
use meta_overc.Container.Overlay.{
  minus_one, insert_request, check_and_insert, overlay, report_overlay, overlay_create,
  overlay_stop,
}

module _ (env : Env) where
  check_and_insert-fails :
      (cn : String) (restore : Bool) (dirs : Option String)
      → Yields (λ v. v ≡ minus_one) (check_and_insert env cn restore dirs)
  unfolding check_and_insert insert_request
  check_and_insert-fails cn restore none = Yields-pure minus_one refl
  check_and_insert-fails cn restore (some dirs) = search (yields_rules) depth 10

  overlay-fails :
      (cn : String) (dirs : Option String) (restore : Bool) (sources : Option String)
      → Yields (λ v. v ≡ minus_one) (overlay env cn dirs restore sources)
  unfolding overlay
  overlay-fails cn dirs restore sources =
      Ensures-last _ _ (λ checked. check_and_insert-fails cn restore checked)

  report_overlay-fails :
      (v : ℤ) → v ≡ minus_one → Yields (λ r. r ≡ some minus_one) (report_overlay env v)
  unfolding report_overlay
  report_overlay-fails v e = rw e (Yields-pure (some minus_one) refl)

  -- A request for an overlay never succeeds: whatever the parameters and the files of the container
  -- are, `overlay_create` and `overlay_stop` return -1 or raise an exception.
  pub overlays_fail :
      (cn : String) (dirs source : Option String)
      → Yields (λ r. r ≡ some minus_one) (overlay_create env cn dirs source)
        × Yields (λ r. r ≡ some minus_one) (overlay_stop env cn dirs)
  unfolding overlay_create overlay_stop
  overlays_fail cn dirs source = (
    Ensures-with _ _ _ (overlay-fails cn dirs false source) report_overlay-fails,
    Ensures-with _ _ _ (overlay-fails cn dirs true none) report_overlay-fails,
  )
