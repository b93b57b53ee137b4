-- ===== src/Overc/Host.antt =====
-- Overc/overc.py: the operations on the host.
pub mod Restarts
use meta_overc.Base.{
  String, ℤ, pos, Bool, true, false, ◌||◌, Option, none, some, int_eq, if◌then◌else◌,
}
use meta_overc.Text.{strip, strip_newlines}
use meta_overc.System.{
  os_path_exists, succeeded, Command, Env, dnf_check_update, dnf_updateinfo, reboot,
}
use meta_overc.Exec.{
  ask, Exec, Error, called_process, ◌>>=◌, ◌>>◌, pure, raise, get, when, try_except,
}
use meta_overc.Logger.{info, error, log}
use meta_overc.Utils.{system, check_output}
use meta_overc.Btrfs.Cleanup.{clean_essential, clean_container}
use meta_overc.Btrfs.Upgrade.{do_upgrade}
use meta_overc.Btrfs.Rollback.{do_rollback}
use meta_overc.Btrfs.FactoryReset
use meta_overc.Overc.Object.{Overc, set_message, add_message, on_agency}
use meta_overc.Overc.Containers.{container_cleanup}

-- `except subprocess.CalledProcessError as e`
unfoldable pub add_output : Error → Exec Overc ℤ
unfolding strip
add_output (called_process code output) = do add_message (strip output); pure code
add_output e = raise e

module _ (env : Env) where
  -- A query of the package manager, whose output is added to the message: its exit status
  unfoldable pub query_packages : Command → Exec Overc ℤ
  unfolding check_output strip_newlines add_output
  query_packages c =
      try_except (do out ← check_output env c; add_message (strip_newlines out); pure (pos 0))
        add_output

  unfoldable pub log_message : Bool → Exec Overc (Unit {0})
  unfolding log
  log_message good = do o ← get; if good then log info o.message else log error o.message

  -- `host_newer`
  unfoldable pub host_newer : Exec Overc ℤ
  unfolding query_packages log_message
  host_newer = do
    rc ← query_packages dnf_check_update
    log_message (int_eq rc (pos 100) || int_eq rc (pos 0))
    pure rc

  -- `host_update`
  unfoldable pub host_update : Exec Overc ℤ
  unfolding query_packages log_message
  host_update = do rc ← query_packages dnf_updateinfo; log_message (int_eq rc (pos 0)); pure rc

  -- `_need_upgrade`
  unfoldable pub need_upgrade : Exec Overc Bool
  unfolding host_newer
  need_upgrade = do rc ← host_newer; pure (int_eq rc (pos 100))

  -- `log.info("rebooting...")` and `os.system('reboot')`
  unfoldable pub restart : Exec Overc (Unit {0})
  unfolding log system
  restart = do log info "rebooting..."; system env reboot; pure tt

  -- `_host_upgrade`
  unfoldable pub host_upgrade_of : Bool → Bool → Exec Overc Bool
  unfolding need_upgrade on_agency do_upgrade log restart
  host_upgrade_of reboots force = do
    need ← need_upgrade
    if need || force
        then (do
          rc ← on_agency (do_upgrade env)
          o ← get
          set_message o.agency.message
          when reboots restart
          pure rc)
        else (do
          set_message "There is no new system available to upgrade!"
          log info "There is no new system available to upgrade!"
          pure true)

  -- `host_rollback`; `none` is `None`, which a rollback that succeeds returns.
  unfoldable pub host_rollback : Exec Overc (Option Bool)
  unfolding log on_agency do_rollback system
  host_rollback = do
    o ← get
    if o.bakup_mode
        then (do
          set_message "You are running in the backup mode, cannot do rollback!"
          log error "You are running in the backup mode, cannot do rollback!"
          pure (some false))
        else do
          log info "Start doing host rollback"
          r ← on_agency (do_rollback env)
          o' ← get
          set_message o'.agency.message
          if r
              then (do system env reboot; pure none)
              else do log error o'.agency.message; pure (some false)

  -- `factory_reset`
  unfoldable pub factory_reset : Exec Overc (Unit {0})
  unfolding on_agency FactoryReset.factory_reset clean_essential clean_container restart
  factory_reset = do
    rc ← on_agency (FactoryReset.factory_reset env)
    if rc then restart else do
      on_agency (clean_essential env)
      on_agency (clean_container env)
      o ← get
      add_message o.agency.message

  -- `host_status`
  unfoldable pub host_status : Exec Overc (Unit {0})
  unfolding log
  host_status = log info "host status"

  -- `help`, which is `None` without the package manager
  unfoldable pub help : {S : Type 0} → Exec S (Option String)
  help = do
    r ← ask env (os_path_exists "/usr/bin/dnf")
    pure (if succeeded r then some "OverC Management Tool for Host update" else none)

  -- `system_cleanup`
  unfoldable pub system_cleanup : Exec Overc (Unit {0})
  unfolding on_agency clean_essential container_cleanup
  system_cleanup = do on_agency (clean_essential env); container_cleanup env
