-- ===== src/Overc/System/Status.antt =====
-- The status with which an aborted upgrade of the system ends the program.
use meta_overc.Base.{
  String, ℤ, Bool, true, false, none, some, List, [], ◌∷◌, ◌≡◌, refl, ap, ◌∙◌, All,
}
use meta_overc.System.{Env, History, Execution}
use meta_overc.Exec.{ok, raised, system_exit, raise, bind_ok, ◌>>=◌}
use meta_overc.Container.Scripts.{HasScript}
use meta_overc.Container.Relays.{CanStart}
use meta_overc.Overc.Object.{Overc}
use meta_overc.Overc.Containers.{rollback_cmd, container_rollback_of, container_operation}
use meta_overc.Overc.Containers.Commands.{command_line, container_operation-IsLeft}
use meta_overc.Overc.System.{
  is_zero, Upgraded, upgrade_all, rollback_containers, abort_upgrade, system_upgrade,
}
use meta_overc.Overc.System.Abort.{read_retval_set, system_upgrade-failed}

-- The code of the last of some rollbacks, or the given one if there is none
abbrev pub last_code : (String → Execution) → ℤ → List String → ℤ
last_code child_of code [] = code
last_code child_of code (cn ∷ cns) = last_code child_of (child_of cn).code cns

module _ (env : Env) (template : String) (there : HasScript env template)
    (child_of : String → Execution) where
  -- The rollback of a container can be started, and runs that child.
  abbrev pub CanUndo : String → Type 0
  CanUndo cn = CanStart env (command_line (rollback_cmd cn none template)) (child_of cn)

  rollback_containers-last_code :
      (cns : List String) (o : Overc) (h : History) (code : ℤ)
      → All CanUndo cns
      → o.retval ≡ some code
      → ((rollback_containers env template cns o h).0 ≡ ok tt)
        × ((rollback_containers env template cns o h).1.retval ≡ some (last_code child_of code cns))
  unfolding rollback_containers container_operation
  rollback_containers-last_code [] o h code all e = unfold ◌>>=◌ in (refl, e)
  rollback_containers-last_code (cn ∷ cns) o h code (starts, all) e =
      let (d, q, k) =
        container_operation-IsLeft env (child_of cn) (rollback_cmd cn none template) tt there starts
          o h in
      rw (bind_ok (container_rollback_of env cn none template true) _ o h d q)
        (rollback_containers-last_code cns _ _ (child_of cn).code all refl)

  -- If a container has failed with a code that is not 0, the script of the template exists, and all
  -- rollbacks can be started, then an upgrade of the system ends the program with the code of the last
  -- rollback of a container that had been upgraded before, which may be 0; only if there is none, it is
  -- the code of the failure.
  pub system_upgrade-last_code :
      (reboots force skipscan skip_del : Bool) (o : Overc) (h : History) (u : Upgraded) (code : ℤ)
      → (upgrade_all env template skip_del o h).0 ≡ ok u
      → (upgrade_all env template skip_del o h).1.retval ≡ some code
      → is_zero code ≡ false
      → All CanUndo u.succeeded
      → (system_upgrade env template reboots force skipscan skip_del o h).0
        ≡ raised (system_exit (last_code child_of code u.succeeded))
  unfolding abort_upgrade
  system_upgrade-last_code reboots force skipscan skip_del o h u code e r z starts =
      let k = upgrade_all env template skip_del o h in
      let (d, q) = rollback_containers-last_code u.succeeded k.1 k.2 code starts r in
      rw (system_upgrade-failed env template reboots force skipscan skip_del o h u code e r z) (
        rw (bind_ok (rollback_containers env template u.succeeded) _ k.1 k.2 d refl)
          (ap (λ out. out.0) (read_retval_set _ _ _ _ q) ∙ unfold raise in refl))
