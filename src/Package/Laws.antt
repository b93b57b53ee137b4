-- ===== src/Package/Laws.antt =====
-- What the two methods return and keep.
use meta_overc.Base.{
  ap, String, ◌<>◌, ℤ, pos, Bool, true, false, not, ◌∷◌, Option, some, ◌≡◌, refl, int_eq,
}
use meta_overc.System.{Env, History, Execution, printed}
use meta_overc.Exec.{Outcome, ok, ◌>>=◌, ◌>>◌, pure, when, on_new_ok}
use meta_overc.Logger.{colorize, info, log, error}
use meta_overc.Process.{new_process, run}
use meta_overc.Process.Output.{rounds_of, all_output, run-finished}
use meta_overc.Package.{Package, smart_line, nsenter_line, smartpm, nsenter}

-- The child that runs a command line, started after its line has been logged
abbrev StartsChild : Env → History → String → Execution → Type 0
StartsChild env h line child =
    env.execute (printed (colorize true info ("Running: " <> line)) ∷ h) line true ≡ some child

-- The code of the child, and all of its output as the message
abbrev Finishes : Execution → Outcome Package ℤ → Type 0
Finishes child o = (o.0 ≡ ok child.code) × (o.1.message ≡ some (all_output (rounds_of child)))

when_keeps :
    (b : Bool) (text : String) (code : ℤ) (p : Package) (h : History)
    → let o = (when b (log {S = Package} error text) >> pure code) p h in
      (o.0 ≡ ok code) × (o.1 ≡ p)
unfolding when log ◌>>=◌
when_keeps true text code p h = (refl, refl)
when_keeps false text code p h = (refl, refl)

module _ (env : Env) (p : Package) (h : History) (child : Execution) where
  -- If the command line can be started, `_smartpm` returns the code of the child and keeps all of its
  -- output as the message, whether the code is 0 or not.
  smartpm-Finishes :
      (args : String) (chroot : Option String)
      → StartsChild env h (smart_line args chroot) child
      → Finishes child (smartpm env args chroot p h)
  unfolding smartpm
  smartpm-Finishes args chroot starts =
      let line = smart_line args chroot in
      let (e, d) = run-finished env line true h child starts in
      let text = some (all_output (rounds_of child)) in
      let (v, w) =
        when_keeps (not (int_eq child.code (pos 0))) line child.code (record p { message = text })
          (run env line true new_process h).2 in
      rw (on_new_ok new_process (run env line true) _ p h e d)
        (unfold ◌>>=◌ in (v, ap (λ q. q.message) w))

  -- If the command line can be started, `_nsenter` returns the code of the child and keeps all of its
  -- output as the message.
  nsenter-Finishes :
      (pid args : String)
      → StartsChild env h (nsenter_line pid args) child
      → Finishes child (nsenter env pid args p h)
  unfolding nsenter
  nsenter-Finishes pid args starts =
      let line = nsenter_line pid args in
      let (e, d) = run-finished env line true h child starts in
      rw (on_new_ok new_process (run env line true) _ p h e d) (unfold ◌>>=◌ in (refl, refl))
