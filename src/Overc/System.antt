-- ===== src/Overc/System.antt =====
-- Overc/overc.py: the upgrade and the rollback of the whole system.
pub mod Abort
pub mod Undone
pub mod Overlays
pub mod Done
pub mod Status
pub mod Back
use meta_overc.Base.{
  String, ◌<>◌, ℤ, pos, Bool, true, false, not, ◌&&◌, ◌||◌, Option, none, some, List, [], ◌∷◌, ◌++◌,
  int_eq, contains, leb, if◌then◌else◌,
}
use meta_overc.Text.{split}
use meta_overc.System.{Env}
use meta_overc.Exec.{Exec, system_exit, name_error, ◌>>=◌, ◌>>◌, pure, raise, when}
use meta_overc.Logger.{info, error, log}
use meta_overc.Container
use meta_overc.Overc.Object.{Overc, set_retval, read_retval, on_container}
use meta_overc.Overc.Containers.{container_upgrade_of, container_rollback_of}
use meta_overc.Overc.Host.{restart, host_upgrade_of, host_rollback}

-- `DIST.split()`
abbrev pub dists : List String
dists = "Pulsar" ∷ "overc" ∷ []

abbrev pub is_zero : ℤ → Bool
is_zero code = int_eq code (pos 0)

-- The containers that have been upgraded, in order, and whether one of them has an overlay
pub record Upgraded : Type 0 where
  pub succeeded : List String
  pub overlay_flag : Bool

abbrev pub none_upgraded : Upgraded
none_upgraded = record { succeeded = []; overlay_flag = false }

abbrev pub add_upgraded : String → Upgraded → Upgraded
add_upgraded cn u = record {
  succeeded = u.succeeded ++ (cn ∷ []);
  overlay_flag = u.overlay_flag || leb 1 (Container.is_overlay cn);
}

module _ (env : Env) where
  -- One upgrade of a container with a known distribution
  unfoldable pub upgrade_known : String → String → Bool → Upgraded → Exec Overc Upgraded
  unfolding log container_upgrade_of read_retval Container.is_overlay
  upgrade_known cn template skip_del u = do
    log info ("Updating container " <> cn)
    container_upgrade_of env cn template true false skip_del
    code ← read_retval
    if is_zero code then pure (add_upgraded cn u) else do
      log error ("*** Failed to upgrade container " <> cn)
      log error "*** Abort the system upgrade action"
      pure u

  -- The loop over the distributions, which ends with the first that the issue names
  unfoldable pub upgrade_by_dist :
      String → String → Bool → List String → Upgraded → Exec Overc Upgraded
  unfolding on_container Container.get_issue split upgrade_known
  upgrade_by_dist cn template skip_del [] u = pure u
  upgrade_by_dist cn template skip_del (dist ∷ dists') u = do
    issue ← on_container (Container.get_issue env cn)
    let rest = upgrade_by_dist cn template skip_del dists' u
    if contains (split issue) dist then upgrade_known cn template skip_del u else rest

  -- The loop over the containers, which ends with the first that fails
  unfoldable pub upgrade_containers : String → Bool → List String → Upgraded → Exec Overc Upgraded
  unfolding on_container Container.is_active upgrade_by_dist read_retval
  upgrade_containers template skip_del [] u = pure u
  upgrade_containers template skip_del (cn ∷ cns) u = do
    set_retval (pos 0)
    active ← on_container (Container.is_active env cn template)
    u' ← if active then upgrade_by_dist cn template skip_del dists u else pure u
    code ← read_retval
    let rest = upgrade_containers template skip_del cns u'
    if is_zero code then rest else pure u'

  -- The rollback of the containers that have been upgraded
  unfoldable pub rollback_containers : String → List String → Exec Overc (Unit {0})
  unfolding container_rollback_of
  rollback_containers template [] = pure tt
  rollback_containers template (cn ∷ cns) = do
    container_rollback_of env cn none template true
    rollback_containers template cns

  -- The part of `_system_upgrade` that follows the containers. The module does not import
  -- `CONTAINER_MOUNT`, which the first branch names.
  unfoldable pub upgrade_host : Bool → Bool → Bool → Bool → Exec Overc (Unit {0})
  unfolding host_upgrade_of restart
  upgrade_host reboots force skipscan overlay_flag = do
    rc ← host_upgrade_of env false force
    when (overlay_flag && (not skipscan && rc)) (raise name_error)
    when (rc && reboots) (restart env)

  -- The part of `_system_upgrade` that upgrades the containers
  unfoldable pub upgrade_all : String → Bool → Exec Overc Upgraded
  unfolding on_container Container.get_container upgrade_containers
  upgrade_all template skip_del = do
    containers ← on_container (Container.get_container env)
    upgrade_containers template skip_del containers none_upgraded

  -- The branch of `_system_upgrade` for a container that has failed
  unfoldable pub abort_upgrade : String → List String → Exec Overc (Unit {0})
  unfolding rollback_containers read_retval
  abort_upgrade template succeeded = do
    rollback_containers template succeeded
    code ← read_retval
    raise (system_exit code)

  -- `_system_upgrade`
  unfoldable pub system_upgrade : String → Bool → Bool → Bool → Bool → Exec Overc (Unit {0})
  unfolding upgrade_all read_retval abort_upgrade upgrade_host
  system_upgrade template reboots force skipscan skip_del = do
    u ← upgrade_all template skip_del
    code ← read_retval
    if is_zero code
        then upgrade_host reboots force skipscan u.overlay_flag
        else abort_upgrade template u.succeeded

  -- One rollback of a container with a known distribution, and whether it has succeeded
  unfoldable pub rollback_known : String → String → Exec Overc Bool
  unfolding log container_rollback_of read_retval
  rollback_known cn template = do
    log info ("Rollback container " <> cn)
    container_rollback_of env cn none template true
    code ← read_retval
    if is_zero code
        then pure true
        else do log error ("*** Failed to rollback container " <> cn); pure false

  unfoldable pub rollback_by_dist : String → String → List String → Exec Overc Bool
  unfolding on_container Container.get_issue split rollback_known
  rollback_by_dist cn template [] = pure false
  rollback_by_dist cn template (dist ∷ dists') = do
    issue ← on_container (Container.get_issue env cn)
    let rest = rollback_by_dist cn template dists'
    if contains (split issue) dist then rollback_known cn template else rest

  -- The loop of `system_rollback`; the result is `need_reboot`.
  unfoldable pub rollback_active : String → List String → Bool → Exec Overc Bool
  unfolding on_container Container.is_active rollback_by_dist
  rollback_active template [] need_reboot = pure need_reboot
  rollback_active template (cn ∷ cns) need_reboot = do
    active ← on_container (Container.is_active env cn template)
    done ← if active then rollback_by_dist cn template dists else pure false
    rollback_active template cns (need_reboot || done)

  -- `system_rollback`
  unfoldable pub system_rollback : String → Exec Overc (Unit {0})
  unfolding on_container Container.get_container rollback_active host_rollback restart
  system_rollback template = do
    containers ← on_container (Container.get_container env)
    need_reboot ← rollback_active template containers false
    host_rollback env
    when need_reboot (restart env)
