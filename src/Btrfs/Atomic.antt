-- ===== src/Btrfs/Atomic.antt =====
-- What an upgrade or a rollback has done to the default subvolume, however it ends.
use meta_overc.Base.{String, Bool, true, Option, [], ◌∷◌, ◌≡◌, refl, inl, inr, format_option}
use meta_overc.Text.{lines, ◌/◌}
use meta_overc.System.{
  Command, Env, History, ran, btrfs_tool, set_default, show, IsOrdinary, IsRoutine,
  routine-IsOrdinary,
}
use meta_overc.Exec.{Exec, ok, Result-cases, ◌>>=◌, ◌>>◌, pure}
use meta_overc.Exec.Keeps.{Keeps, Since-start, Since-more}
use meta_overc.Exec.Commits.{Commits, CommitsAt, commits_rules}
use meta_overc.Utils.{sysroot, factory_snapshot, popen_lines, system}
use meta_overc.Btrfs.Object.{Btrfs, set_message, btrfs, find_value, get_btrfs_value}
use meta_overc.Btrfs.Object.Keeps.{SameSystem, object_rules, unchanged}
use meta_overc.Btrfs.Cleanup.{cleanup_subvol}
use meta_overc.Btrfs.Cleanup.Keeps.{cleanup_subvol-Keeps}
use meta_overc.Btrfs.Parts.{
  take_snapshots-Keeps, upgrade_packages-Keeps, upgrade_kernel-Keeps, upgrade_grub-Keeps,
  rollback_kernel-Keeps, rollback_grub-Keeps,
}
use meta_overc.Btrfs.Upgrade.{
  set_default_rootfs, activate, upgrade_rootfs, do_upgrade_on, do_upgrade,
}
use meta_overc.Btrfs.Rollback.{rollback_rootfs, do_rollback}

-- A command that sets no default subvolume
abbrev pub LeavesDefault : Command → Type 0
LeavesDefault (btrfs_tool host (set_default id path)) = ⊥
LeavesDefault _ = Unit

pub LeavesDefault-ordinary : (c : Command) → IsOrdinary c → LeavesDefault c
LeavesDefault-ordinary (btrfs_tool host (set_default id path)) r = absurd r
LeavesDefault-ordinary _ r = tt

pub LeavesDefault-routine : (c : Command) → IsRoutine c → LeavesDefault c
LeavesDefault-routine c r = LeavesDefault-ordinary c (routine-IsOrdinary c r)

-- Two more commands ask for the number of a root file system and make that number the default, the
-- number being what the environment answers to the first of the two.
abbrev pub Sets : Env → String → History → History → Type 0
Sets env next mid h =
    let asked = btrfs_tool true (show (sysroot / next)) in
    (id : Option String) × (h
      ≡ ran (btrfs_tool true (set_default (format_option id) sysroot)) ∷ ran asked ∷ mid)
    × (find_value "Subvolume ID" (lines (env.reply mid asked).output) ≡ ok id)

abbrev CommitsDefault : Env → Btrfs → Exec Btrfs Bool → Type 0
CommitsDefault env a = Commits (SameSystem a) LeavesDefault (Sets env a.next_rootfs)

module _ (env : Env) (a : Btrfs) where
  -- The default subvolume is set last: nothing behind it can fail.
  finish-Commits :
      (text : String)
      → CommitsDefault env a (do set_default_rootfs env true; set_message text; pure true)
  unfolding set_default_rootfs get_btrfs_value popen_lines system btrfs ◌>>=◌
  finish-Commits text = record {
    at = λ base b h p.
        let c = btrfs_tool true (show (sysroot / b.next_rootfs)) in
        elim (Result-cases (find_value "Subvolume ID" (lines (env.reply h c).output))) [
          | inl (id, e) ↦ rw e (h, p.1, (id, rw p.0.next_rootfs refl, rw (← p.0.next_rootfs) e))
          | inr (x, e) ↦ rw e (p.0, Since-more tt p.1)
        ];
  }

  activate-Commits : CommitsDefault env a (activate env true)
  unfolding activate
  activate-Commits =
      search
        (
          commits_rules, finish-Commits, upgrade_kernel-Keeps, upgrade_grub-Keeps,
          LeavesDefault-ordinary,
        )
        depth 8

  upgrade_rootfs-Commits : CommitsDefault env a (upgrade_rootfs env true)
  unfolding upgrade_rootfs
  upgrade_rootfs-Commits =
      search
        (
          commits_rules, object_rules, take_snapshots-Keeps, upgrade_packages-Keeps,
          activate-Commits, LeavesDefault-ordinary,
        )
        depth 10

  cleanup_root-leaves :
      (host : Bool)
      → Keeps (SameSystem a) LeavesDefault (cleanup_subvol env sysroot (factory_snapshot ∷ []) host)
  cleanup_root-leaves host =
      cleanup_subvol-Keeps env LeavesDefault-routine sysroot _ host (λ path d. tt)

  pub do_upgrade-Commits : CommitsDefault env a (do_upgrade env)
  unfolding do_upgrade do_upgrade_on
  do_upgrade-Commits =
      search
        (
          commits_rules, object_rules, cleanup_root-leaves, upgrade_rootfs-Commits,
          LeavesDefault-routine,
        )
        depth 14

  rollback_rootfs-Commits : CommitsDefault env a (rollback_rootfs env)
  unfolding rollback_rootfs
  rollback_rootfs-Commits =
      search
        (
          commits_rules, finish-Commits, rollback_kernel-Keeps, rollback_grub-Keeps,
          LeavesDefault-ordinary,
        )
        depth 8

  pub do_rollback-Commits : CommitsDefault env a (do_rollback env)
  unfolding do_rollback
  do_rollback-Commits =
      search (commits_rules, object_rules, rollback_rootfs-Commits, LeavesDefault-routine) depth 14

-- Unless `do_upgrade` returns `True`, it has set no default subvolume, whether it returns `False` or
-- raises an exception, and it has changed no field but the message: the history has only grown by
-- other events. If it returns `True`, it has set a default subvolume once, as its last command, by the
-- number that the environment gave for the other root file system to the command before.
pub do_upgrade-CommitsAt :
    (env : Env) (b : Btrfs) (h : History)
    → CommitsAt (SameSystem b) LeavesDefault (Sets env b.next_rootfs) h (do_upgrade env b h)
do_upgrade-CommitsAt env b h = (do_upgrade-Commits env b).at h b h (unchanged b, Since-start)

-- Unless `do_rollback` returns `True`, it has set no default subvolume, whether it returns `False` or
-- raises an exception, and it has changed no field but the message: the history has only grown by
-- other events. If it returns `True`, it has set a default subvolume once, as its last command, by the
-- number that the environment gave for the other root file system to the command before.
pub do_rollback-CommitsAt :
    (env : Env) (b : Btrfs) (h : History)
    → CommitsAt (SameSystem b) LeavesDefault (Sets env b.next_rootfs) h (do_rollback env b h)
do_rollback-CommitsAt env b h = (do_rollback-Commits env b).at h b h (unchanged b, Since-start)
