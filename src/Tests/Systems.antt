-- ===== src/Tests/Systems.antt =====
-- The theorems on the agent, tried on the machine.
use meta_overc.Base.{
  ◌∷◌, String, pos, true, false, some, ◌==◌, if◌then◌else◌, [], ◌≡◌, inr, refl, All,
}
use meta_overc.Exec.{Outcome, ok, ◌>>=◌, within, on_new}
use meta_overc.Exec.Keeps.{Permits}
use meta_overc.Container.Keeps.{IsForContainers}
use meta_overc.Overc.Containers.{container_command, rollback_cmd}
use meta_overc.Overc.Containers.Exit.{ExitsWith, container_command-ExitsWith}
use meta_overc.Overc.System.{upgrade_all, system_upgrade, none_upgraded, Upgraded}
use meta_overc.Exec.Ensures.{IsEnded, Ensures}
use meta_overc.Overc.Host.{host_upgrade_of}
use meta_overc.Overc.Host.Restarts.{EndsWith, host_upgrade_of-EndsWith}
use meta_overc.Overc.System.Done.{IsDone, system_upgrade-IsDone}
use meta_overc.Btrfs.Progress.{IsSound}
use meta_overc.Tests.Sound.{machine-IsSound}
use meta_overc.Overc.System.Undone.{EndsAfter, system_upgrade-EndsAfter}
use meta_overc.System.{Env, Execution, reboot}
use meta_overc.Overc.System.Abort.{system_upgrade_aborts}
use meta_overc.Overc.Object.{Overc}
use meta_overc.Tests.{machine, agent, child, answer}

container_command-ExitsWith_example : ExitsWith (
    container_command
      (machine (pos 0) (pos 0) (pos 3))
      (rollback_cmd "web" (some "first") "dom0")
      agent
      [])
container_command-ExitsWith_example =
    container_command-ExitsWith (machine (pos 0) (pos 0) (pos 3))
      (rollback_cmd "web" (some "first") "dom0") agent []

-- Every script ends with the code 3, by which a container is active and its upgrade has failed.
upgrade_all_fails :
    ((upgrade_all (machine (pos 0) (pos 1) (pos 3)) "dom0" true agent []).0 ≡ ok none_upgraded)
    × ((upgrade_all (machine (pos 0) (pos 1) (pos 3)) "dom0" true agent []).1.retval ≡ some (pos 3))
unfolding upgrade_all ◌>>=◌ within on_new
upgrade_all_fails = (refl, refl)

system_upgrade_aborts_example :
    IsEnded (system_upgrade (machine (pos 0) (pos 1) (pos 3)) "dom0" true true false true agent [])
    × All
        (Permits IsForContainers)
        (system_upgrade (machine (pos 0) (pos 1) (pos 3)) "dom0" true true false true agent []).2
system_upgrade_aborts_example =
    system_upgrade_aborts (machine (pos 0) (pos 1) (pos 3)) "dom0" true true false true agent []
      none_upgraded (pos 3) upgrade_all_fails.0 upgrade_all_fails.1 refl tt

-- Both containers are active, the first can be upgraded and the second cannot.
abbrev pub script : String → Execution
script line =
    if line == "/etc/overc/container//dom0 -A -n dom0"
    then child (pos 3)
    else if line == "/etc/overc/container//dom0 -A -n web"
    then child (pos 3)
    else if line == "/etc/overc/container//dom0 -r -n web"
    then child (pos 1)
    else child (pos 0)

abbrev pub half : Env
half = record {
  reply = λ h c. answer (pos 0) (pos 1) c;
  execute = λ h line by_line. some (script line);
}

abbrev pub half_upgraded : Upgraded
half_upgraded = record { succeeded = "dom0" ∷ []; overlay_flag = false }

pub second_fails :
    ((upgrade_all half "dom0" false agent []).0 ≡ ok half_upgraded)
    × ((upgrade_all half "dom0" false agent []).1.retval ≡ some (pos 1))
unfolding upgrade_all ◌>>=◌ within on_new
second_fails = (refl, refl)

system_upgrade-EndsAfter_example :
    EndsAfter
      ("/etc/overc/container//dom0 -R -n dom0 -f" ∷ [])
      (upgrade_all half "dom0" false agent []).2
      (system_upgrade half "dom0" true true false false agent [])
system_upgrade-EndsAfter_example =
    system_upgrade-EndsAfter half "dom0" (λ h. refl) true true false false agent [] half_upgraded
      (pos 1) second_fails.0 second_fails.1 refl

host_upgrade_of-EndsWith_example :
    Ensures
      (host_upgrade_of (machine (pos 1) (pos 1) (pos 0)) true true)
      (λ rc o h. EndsWith reboot h)
host_upgrade_of-EndsWith_example = host_upgrade_of-EndsWith (machine (pos 1) (pos 1) (pos 0))

-- The upgrade has failed, and the machine is restarted.
host_upgrade_fails :
    (host_upgrade_of (machine (pos 1) (pos 1) (pos 0)) true true agent []).0 ≡ ok false
unfolding host_upgrade_of ◌>>=◌ within on_new
host_upgrade_fails = refl

-- Both containers are active and can be upgraded, and so can the host.
abbrev pub good_script : String → Execution
good_script line =
    if line == "/etc/overc/container//dom0 -A -n dom0"
    then child (pos 3)
    else if line == "/etc/overc/container//dom0 -A -n web"
    then child (pos 3)
    else child (pos 0)

abbrev good : Env
good = record {
  reply = λ h c. answer (pos 0) (pos 1) c;
  execute = λ h line by_line. some (good_script line);
}

good-IsSound : IsSound good
good-IsSound =
    let sound = machine-IsSound (pos 1) in
    record {
      makes_dirs = sound.makes_dirs;
      makes_temp_dir = sound.makes_temp_dir;
      makes_script = sound.makes_script;
      writes_script = sound.writes_script;
      sums = sound.sums;
      mounts = sound.mounts;
      shows = sound.shows;
    }

abbrev both_upgraded : Upgraded
both_upgraded = record { succeeded = "dom0" ∷ "web" ∷ []; overlay_flag = false }

abbrev containers_done : Outcome Overc Upgraded
containers_done = upgrade_all good "dom0" false agent []

both_succeed : containers_done ≡ (ok both_upgraded, containers_done.1, containers_done.2)
unfolding upgrade_all ◌>>=◌ within on_new
both_succeed = refl

both_leave :
    (containers_done.1.retval ≡ some (pos 0))
    × (containers_done.1.agency.kernel_md5 ≡ some "77aa")
    × (containers_done.1.agency.bakup_mode ≡ false)
unfolding upgrade_all ◌>>=◌ within on_new
both_leave = (refl, refl, refl)

system_upgrade-IsDone_example :
    IsDone true (system_upgrade good "dom0" true true false false agent [])
system_upgrade-IsDone_example =
    system_upgrade-IsDone good "dom0" true true false false agent containers_done.1 []
      containers_done.2 both_upgraded both_succeed both_leave.0 good-IsSound
      (record { installs = λ h. refl; finds_kernel = λ h. refl }) (inr ("77aa", both_leave.1))
      both_leave.2 (λ k. refl)
