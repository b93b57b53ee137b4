-- ===== src/Overc/System/Back.antt =====
-- What a rollback of the system does when that of the host succeeds.
use meta_overc.Base.{String, Bool, true, false, none, ◌≡◌, refl, sym}
use meta_overc.Text.{◌/◌}
use meta_overc.System.{Env, History, reboot, test_exists, succeeded}
use meta_overc.Exec.{Exec, Outcome, ok, bind_ok, bind_assoc, ◌>>=◌, ◌>>◌, when, within, then_at}
use meta_overc.Utils.{sysroot, system}
use meta_overc.Logger.{log}
use meta_overc.Container
use meta_overc.Btrfs.Ready.{HasSum}
use meta_overc.Btrfs.Rollback.{do_rollback}
use meta_overc.Btrfs.Progress.{IsSound}
use meta_overc.Btrfs.Progress.Rollback.{HasOldKernel, do_rollback-true}
use meta_overc.Overc.Object.{Overc, on_container, on_agency}
use meta_overc.Overc.Host.{host_rollback, restart}
use meta_overc.Overc.Host.Restarts.{EndsWith}
use meta_overc.Overc.System.{rollback_active, system_rollback}

-- The rollback has returned, and the machine is restarted by the last command.
abbrev pub IsBack : {A : Type 0} → A → Outcome Overc A → Type 0
IsBack a out = (out.0 ≡ ok a) × EndsWith reboot out.2

module _ (env : Env) (o : Overc) (h : History) where
  host_rollback-IsBack :
      o.bakup_mode ≡ false
      → ((k : History) → (do_rollback env o.agency k).0 ≡ ok true)
      → IsBack none (host_rollback env o h)
  unfolding host_rollback log on_agency within system ◌>>=◌
  host_rollback-IsBack normal rolls = rw (normal, rolls _) (refl, (_, refl))

  restart-IsBack : (need : Bool) → EndsWith reboot h → IsBack tt (when need (restart env) o h)
  unfolding when restart log system ◌>>=◌
  restart-IsBack true ends = (refl, (_, refl))
  restart-IsBack false ends = (refl, ends)

-- The part of `system_rollback` that rolls back the containers
abbrev pub containers_back : Env → String → Exec Overc Bool
containers_back env template = do
  containers ← on_container (Container.get_container env)
  rollback_active env template containers false

module _ (env : Env) (template : String) where
  system_rollback-hosts :
      (o : Overc) (h : History)
      → system_rollback env template o h
        ≡ (containers_back env template >>= λ need. host_rollback env >> when need (restart env)) o
            h
  unfolding system_rollback
  system_rollback-hosts o h = sym (bind_assoc (on_container (Container.get_container env)) _ _ o h)

  -- Where the commands of the machine work as `IsSound` says, the kernel to go back to has a checksum,
  -- and the rollback of the containers returns and leaves a back end that is not in the backup mode, knows the checksum of its
  -- kernel and finds the other root file system, `system_rollback` returns, and its last command
  -- restarts the machine, whether a container has been rolled back or not.
  pub system_rollback-IsBack :
      (o o' : Overc) (h h' : History) (need : Bool)
      → containers_back env template o h ≡ (ok need, o', h')
      → IsSound env
      → HasOldKernel env o'.agency
      → HasSum o'.agency.kernel o'.agency.kernel_md5
      → o'.bakup_mode ≡ false
      → o'.agency.bakup_mode ≡ false
      → ((k : History)
          → succeeded (env.reply k (test_exists (sysroot / o'.agency.next_rootfs))) ≡ true)
      → IsBack tt (system_rollback env template o h)
  system_rollback-IsBack o o' h h' need all sound old has_sum normal main there =
      let (e, ends) =
        host_rollback-IsBack env o' h' normal
          (λ k. do_rollback-true env o'.agency k sound old has_sum main there) in
      rw
        (
          system_rollback-hosts o h,
          then_at (containers_back env template) _ o o' h h' need all,
          bind_ok (host_rollback env) _ o' h' e refl,
        )
        (restart-IsBack env _ _ need ends)
