-- ===== src/Btrfs/Refusal.antt =====
-- What an upgrade or a rollback that returns `False` has done to the running system.
use meta_overc.Base.{String, Bool, true, false, [], ◌∷◌, ◌≡◌, ◌⊎◌, inl, inr, refl, All}
use meta_overc.System.{
  Command, Env, History, btrfs_tool, set_default, copy_file, copy_tree, write_file, reboot,
  IsRoutine,
}
use meta_overc.Text.{◌/◌}
use meta_overc.Exec.{Exec, ok, pure}
use meta_overc.Exec.Keeps.{
  Since-start, Since-All, Keeps, Keeps-get, Keeps-bind, Keeps-pure, Permits,
}
use meta_overc.Exec.Ensures.{Ensures, Ensures-last, Refuses, Refuses-true, refuses_rules}
use meta_overc.Utils.{factory_snapshot, sysroot}
use meta_overc.Btrfs.Object.{Btrfs, copy_script}
use meta_overc.Btrfs.Object.Keeps.{unchanged, SameSystem, object_rules}
use meta_overc.Btrfs.Cleanup.{cleanup_subvol}
use meta_overc.Btrfs.Cleanup.Keeps.{cleanup_subvol-Keeps}
use meta_overc.Btrfs.Upgrade.{
  take_snapshots, enter_rootfs, leave_rootfs, upgrade_packages, activate, upgrade_rootfs,
  do_upgrade_on, do_upgrade,
}
use meta_overc.Btrfs.Rollback.{rollback_rootfs, do_rollback}

-- A command that leaves alone what the next boot uses. The only scripts that are written copy the
-- package database in a root file system, from its place or back to it.
abbrev pub IsHarmless : String → Command → Type 0
IsHarmless root (btrfs_tool host (set_default id path)) = ⊥
IsHarmless root (copy_file host source target) = ⊥
IsHarmless root (copy_tree host source target) = ⊥
IsHarmless root (write_file path text) =
    ((dest : String) × (text ≡ copy_script (root / "var/lib/rpm/*") dest))
    ⊎ ((source : String) × (text ≡ copy_script source (root / "var/lib/rpm/")))
IsHarmless root reboot = ⊥
IsHarmless root _ = Unit

abbrev KeepsHarmless : Btrfs → {A : Type 0} → Exec Btrfs A → Type 0
KeepsHarmless a = Keeps (SameSystem a) (IsHarmless (sysroot / a.next_rootfs))

abbrev RefusesHarmless : Btrfs → Exec Btrfs Bool → Type 0
RefusesHarmless a = Refuses (SameSystem a) (IsHarmless (sysroot / a.next_rootfs))

IsRoutine-itself : (c : Command) → IsRoutine c → IsRoutine c
IsRoutine-itself c r = r

activate-true : (env : Env) (host : Bool) → Ensures (activate env host) (λ r s h. r ≡ true)
unfolding activate
activate-true env host = search (Ensures-last, ends)
  where
    ends : Ensures {S = Btrfs} (pure true) (λ r s h. r ≡ true)
    ends = unfold pure in record { at = λ s h. refl }

rollback_rootfs-true : (env : Env) → Ensures (rollback_rootfs env) (λ r s h. r ≡ true)
unfolding rollback_rootfs
rollback_rootfs-true env = search (Ensures-last, ends)
  where
    ends : Ensures {S = Btrfs} (pure true) (λ r s h. r ≡ true)
    ends = unfold pure in record { at = λ s h. refl }

module _ (env : Env) (a : Btrfs) where
  abbrev root : String
  root = sysroot / a.next_rootfs

  IsHarmless-routine : (c : Command) → IsRoutine c → IsHarmless root c
  IsHarmless-routine (btrfs_tool host (set_default id path)) r = absurd r
  IsHarmless-routine (copy_file host source target) r = absurd r
  IsHarmless-routine (copy_tree host source target) r = absurd r
  IsHarmless-routine (write_file path text) r = absurd r
  IsHarmless-routine reboot r = absurd r
  IsHarmless-routine _ r = tt

  save_database :
      (dest script : String)
      → IsHarmless root (write_file script (copy_script (root / "var/lib/rpm/*") dest))
  save_database dest script = inl (dest, refl)

  restore_database :
      (source script : String)
      → IsHarmless root (write_file script (copy_script source (root / "var/lib/rpm/")))
  restore_database source script = inr (source, refl)

  ruleset harmless = (object_rules, IsHarmless-routine, save_database, restore_database)

  enter_root-harmless : (host : Bool) → KeepsHarmless a (enter_rootfs env host root)
  unfolding enter_rootfs
  enter_root-harmless host = search harmless depth 14

  leave_root-harmless :
      (host : Bool) (tempd : String) → KeepsHarmless a (leave_rootfs env host root tempd)
  unfolding leave_rootfs
  leave_root-harmless host tempd = search harmless depth 14

  enter_rootfs-harmless :
      (host : Bool) (next : String)
      → next ≡ a.next_rootfs
      → KeepsHarmless a (enter_rootfs env host (sysroot / next))
  enter_rootfs-harmless host next e = rw e (enter_root-harmless host)

  leave_rootfs-harmless :
      (host : Bool) (next tempd : String)
      → next ≡ a.next_rootfs
      → KeepsHarmless a (leave_rootfs env host (sysroot / next) tempd)
  leave_rootfs-harmless host next tempd e = rw e (leave_root-harmless host tempd)

  upgrade_packages-harmless : (host : Bool) → KeepsHarmless a (upgrade_packages env host)
  unfolding upgrade_packages
  upgrade_packages-harmless host = Keeps-get _ (λ b same.
      Keeps-bind _ _ (enter_rootfs-harmless host _ same.next_rootfs) (λ tempd.
        Keeps-bind _ _ (search harmless) (λ result.
          Keeps-bind _ _ (leave_rootfs-harmless host _ tempd same.next_rootfs)
            (λ x. Keeps-pure result))))

  take_snapshots-harmless : (host : Bool) → KeepsHarmless a (take_snapshots env host)
  unfolding take_snapshots
  take_snapshots-harmless host = search (object_rules, IsHarmless-routine) depth 8

  cleanup_root-harmless :
      (host : Bool) → KeepsHarmless a (cleanup_subvol env sysroot (factory_snapshot ∷ []) host)
  cleanup_root-harmless host =
      cleanup_subvol-Keeps env IsHarmless-routine sysroot _ host (λ path d. tt)

  activate-refuses : (host : Bool) → RefusesHarmless a (activate env host)
  activate-refuses host = Refuses-true _ (activate-true env host)

  rollback_rootfs-Refuses : Refuses (SameSystem a) IsRoutine (rollback_rootfs env)
  rollback_rootfs-Refuses = Refuses-true _ (rollback_rootfs-true env)

  upgrade_rootfs-refuses : (host : Bool) → RefusesHarmless a (upgrade_rootfs env host)
  unfolding upgrade_rootfs
  upgrade_rootfs-refuses host =
      search
        (
          refuses_rules, object_rules, take_snapshots-harmless, upgrade_packages-harmless,
          activate-refuses,
        )
        depth 8

  do_upgrade-refuses : RefusesHarmless a (do_upgrade env)
  unfolding do_upgrade do_upgrade_on
  do_upgrade-refuses =
      search
        (
          refuses_rules, object_rules, IsHarmless-routine, cleanup_root-harmless,
          upgrade_rootfs-refuses,
        )
        depth 12

  do_rollback-Refuses : Refuses (SameSystem a) IsRoutine (do_rollback env)
  unfolding do_rollback
  do_rollback-Refuses =
      search (refuses_rules, object_rules, IsRoutine-itself, rollback_rootfs-Refuses) depth 12

pub do_upgrade_refused :
    (env : Env) (b : Btrfs) (h : History)
    → All (Permits (IsHarmless (sysroot / b.next_rootfs))) h
    → (do_upgrade env b h).0 ≡ ok false
    → All (Permits (IsHarmless (sysroot / b.next_rootfs))) (do_upgrade env b h).2
do_upgrade_refused env b h p e =
    Since-All ((do_upgrade-refuses env b).at h b h (unchanged b, Since-start) e).1 p

pub do_rollback_refused :
    (env : Env) (b : Btrfs) (h : History)
    → All (Permits IsRoutine) h
    → (do_rollback env b h).0 ≡ ok false
    → All (Permits IsRoutine) (do_rollback env b h).2
do_rollback_refused env b h p e =
    Since-All ((do_rollback-Refuses env b).at h b h (unchanged b, Since-start) e).1 p
