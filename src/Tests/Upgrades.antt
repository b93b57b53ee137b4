-- ===== src/Tests/Upgrades.antt =====
-- The theorems on the back end, tried on the machine.
use meta_overc.Base.{
  Bool, none, ◌==◌, if◌then◌else◌, pos, true, false, some, [], ◌∷◌, ◌≡◌, refl, All,
}
use meta_overc.Btrfs.FactoryReset.{factory_reset, factory_reset_essential}
use meta_overc.Btrfs.Resetting.{Resets, factory_reset-Resets}
use meta_overc.Btrfs.Resetting.Host.{IsInstalled, factory_reset-IsInstalled}
use meta_overc.Btrfs.Resetting.Half.{factory_reset-IsInstalled_by_half}
use meta_overc.System.{Env, Command, test_exists, ran, btrfs_tool, delete, list_all, IsRoutine}
use meta_overc.Btrfs.Cleanup.{cleanup_subvol, is_deleted}
use meta_overc.Btrfs.Cleanup.Exact.{path_of, cleanup_subvol-deletes}
use meta_overc.Exec.{ok, ◌>>=◌}
use meta_overc.Exec.Keeps.{Permits}
use meta_overc.Utils.{sysroot}
use meta_overc.Btrfs.Object.Keeps.{SameSystem}
use meta_overc.Btrfs.Init.{init}
use meta_overc.Btrfs.Upgrade.{do_upgrade}
use meta_overc.Btrfs.Rollback.{do_rollback}
use meta_overc.Btrfs.Safety.{Spares}
use meta_overc.Btrfs.Safety.Operations.{perform, upgrading, perform-deletes_spared}
use meta_overc.Btrfs.Refusal.{IsHarmless, do_upgrade_refused, do_rollback_refused}
use meta_overc.Btrfs.Ready.{IsReady, init-IsReady}
use meta_overc.Process.{run, new_process}
use meta_overc.Process.Output.{finished, run-finished}
use meta_overc.Text.{lines, strip}
use meta_overc.Tests.{machine, agency, child, answer}

-- The package manager fails.
upgrade_fails : (do_upgrade (machine (pos 1) (pos 1) (pos 0)) agency []).0 ≡ ok false
unfolding do_upgrade ◌>>=◌
upgrade_fails = refl

upgrade_succeeds : (do_upgrade (machine (pos 0) (pos 1) (pos 0)) agency []).0 ≡ ok true
unfolding do_upgrade ◌>>=◌
upgrade_succeeds = refl

-- There is no other root file system.
rollback_fails : (do_rollback (machine (pos 0) (pos 1) (pos 0)) agency []).0 ≡ ok false
unfolding do_rollback ◌>>=◌
rollback_fails = refl

rollback_succeeds : (do_rollback (machine (pos 0) (pos 0) (pos 0)) agency []).0 ≡ ok true
unfolding do_rollback ◌>>=◌
rollback_succeeds = refl

init_succeeds :
    (init (machine (pos 0) (pos 0) (pos 0)) tt []).0
    ≡ ok (record agency { kernel_md5 = some "1f3a" })
unfolding init ◌>>=◌
init_succeeds = refl

perform-deletes_spared_example :
    SameSystem agency (perform (machine (pos 0) (pos 1) (pos 0)) upgrading agency []).1
    × All
        (Permits (Spares "rootfs"))
        (perform (machine (pos 0) (pos 1) (pos 0)) upgrading agency []).2
perform-deletes_spared_example =
    perform-deletes_spared (machine (pos 0) (pos 1) (pos 0)) upgrading agency [] tt

do_upgrade_refused_example :
    All
      (Permits (IsHarmless "/sysroot/rootfs_upgrade"))
      (do_upgrade (machine (pos 1) (pos 1) (pos 0)) agency []).2
do_upgrade_refused_example =
    do_upgrade_refused (machine (pos 1) (pos 1) (pos 0)) agency [] tt upgrade_fails

do_rollback_refused_example :
    All (Permits IsRoutine) (do_rollback (machine (pos 0) (pos 1) (pos 0)) agency []).2
do_rollback_refused_example =
    do_rollback_refused (machine (pos 0) (pos 1) (pos 0)) agency [] tt rollback_fails

init-IsReady_example : IsReady (record agency { kernel_md5 = some "1f3a" })
init-IsReady_example =
    init-IsReady (machine (pos 0) (pos 0) (pos 0)) tt []
      (record agency { kernel_md5 = some "1f3a" }) init_succeeds

run-finished_example :
    ((run (machine (pos 0) (pos 0) (pos 3)) "ls" true new_process []).0 ≡ ok (pos 3))
    × ((run (machine (pos 0) (pos 0) (pos 3)) "ls" true new_process []).1
        ≡ finished (child (pos 3)))
run-finished_example =
    run-finished (machine (pos 0) (pos 0) (pos 3)) "ls" true [] (child (pos 3)) refl

cleanup_subvol-deletes_example :
    cleanup_subvol (machine (pos 0) (pos 0) (pos 0)) sysroot (".factory" ∷ []) true agency [] ≡ (
      ok tt,
      agency,
      ran (btrfs_tool true (delete sysroot "rootfs_upgrade"))
          ∷ ran (btrfs_tool true (list_all sysroot))
          ∷ [],
    )
unfolding path_of is_deleted lines strip
cleanup_subvol-deletes_example =
    cleanup_subvol-deletes (machine (pos 0) (pos 0) (pos 0)) sysroot (".factory" ∷ []) true agency
      []

abbrev asks_factory : Command → Bool
asks_factory (test_exists path) = path == "/opt/container/.tmp/.factory"
asks_factory _ = false

-- The containers have a factory snapshot, and there is no other root file system.
abbrev factory_machine : Env
factory_machine = record {
  reply = λ h c. answer (pos 0) (if asks_factory c then pos 0 else pos 1) c;
  execute = λ h line by_line. none;
}

reset_succeeds : (factory_reset factory_machine agency []).0 ≡ ok true
unfolding factory_reset ◌>>=◌
reset_succeeds = refl

factory_reset-Resets_example : Resets factory_machine (factory_reset factory_machine agency []).2
factory_reset-Resets_example = factory_reset-Resets factory_machine agency [] reset_succeeds

factory_reset-IsInstalled_example :
    IsInstalled factory_machine agency (factory_reset factory_machine agency []).2
factory_reset-IsInstalled_example =
    factory_reset-IsInstalled factory_machine agency [] reset_succeeds

-- The containers have no factory snapshot.
host_half_succeeds :
    (factory_reset_essential (machine (pos 0) (pos 1) (pos 0)) agency []).0 ≡ ok true
unfolding factory_reset_essential ◌>>=◌
host_half_succeeds = refl

reset_fails : (factory_reset (machine (pos 0) (pos 1) (pos 0)) agency []).0 ≡ ok false
unfolding factory_reset ◌>>=◌
reset_fails = refl

factory_reset-IsInstalled_by_half_example :
    IsInstalled
      (machine (pos 0) (pos 1) (pos 0))
      agency
      (factory_reset (machine (pos 0) (pos 1) (pos 0)) agency []).2
factory_reset-IsInstalled_by_half_example =
    factory_reset-IsInstalled_by_half (machine (pos 0) (pos 1) (pos 0)) agency [] host_half_succeeds
