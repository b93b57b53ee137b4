-- ===== src/Tests/Outcomes.antt =====
-- The theorems on the status of an aborted upgrade and on a rollback of the system, tried.
use meta_overc.Base.{Bool, pos, true, false, some, [], ◌≡◌, refl, inl, inr}
use meta_overc.System.{Env}
use meta_overc.Exec.{Outcome, ok, raised, system_exit, ◌>>=◌, within, on_new}
use meta_overc.Text.{split}
use meta_overc.Btrfs.Progress.{IsSound}
use meta_overc.Btrfs.Progress.Rollback.{HasOldKernel}
use meta_overc.Overc.Object.{Overc, on_container}
use meta_overc.Container.{get_container}
use meta_overc.Overc.System.{system_upgrade, system_rollback, rollback_active}
use meta_overc.Overc.System.Status.{system_upgrade-last_code}
use meta_overc.Overc.System.Back.{IsBack, containers_back, system_rollback-IsBack}
use meta_overc.Tests.{agent, child, answer}
use meta_overc.Tests.Sound.{machine-IsSound}
use meta_overc.Tests.Systems.{half, half_upgraded, second_fails, good_script}

-- The upgrade of the second container has failed with 1, the rollback of the first ends with 0, and so
-- does the program.
system_upgrade-last_code_example :
    (system_upgrade half "dom0" true true false false agent []).0 ≡ raised (system_exit (pos 0))
system_upgrade-last_code_example =
    system_upgrade-last_code half "dom0" (λ h. refl) (λ cn. child (pos 0)) true true false false
      agent [] half_upgraded (pos 1) second_fails.0 second_fails.1 refl ((λ h by_line. refl), tt)

-- Both containers are active, and all files exist.
abbrev rolling : Env
rolling = record {
  reply = λ h c. answer (pos 0) (pos 0) c;
  execute = λ h line by_line. some (good_script line);
}

rolling-IsSound : IsSound rolling
rolling-IsSound =
    let sound = machine-IsSound (pos 0) in
    record {
      makes_dirs = sound.makes_dirs;
      makes_temp_dir = sound.makes_temp_dir;
      makes_script = sound.makes_script;
      writes_script = sound.writes_script;
      sums = sound.sums;
      mounts = sound.mounts;
      shows = sound.shows;
    }

abbrev rolled_back : Outcome Overc Bool
rolled_back = containers_back rolling "dom0" agent []

both_back : rolled_back ≡ (ok true, rolled_back.1, rolled_back.2)
unfolding rollback_active get_container on_container ◌>>=◌ within on_new
both_back = refl

both_leave :
    (rolled_back.1.agency.kernel_md5 ≡ some "77aa")
    × (rolled_back.1.bakup_mode ≡ false)
    × (rolled_back.1.agency.bakup_mode ≡ false)
unfolding rollback_active get_container on_container ◌>>=◌ within on_new
both_leave = (refl, refl, refl)

rolling-HasOldKernel : HasOldKernel rolling rolled_back.1.agency
unfolding split
rolling-HasOldKernel = inl (λ h. refl, λ h. (refl, λ k. (refl, ("1f3a", refl))))

system_rollback-IsBack_example : IsBack tt (system_rollback rolling "dom0" agent [])
system_rollback-IsBack_example =
    system_rollback-IsBack rolling "dom0" agent rolled_back.1 [] rolled_back.2 true both_back
      rolling-IsSound rolling-HasOldKernel (inr ("77aa", both_leave.0)) both_leave.1 both_leave.2
      (λ k. refl)
