-- ===== src/Btrfs/Parts.antt =====
-- What the parts of the operations of `Btrfs` keep that set no default subvolume.
use meta_overc.Base.{String, Bool, List, [], ◌∷◌, ◌==◌}
use meta_overc.Text.{strip}
use meta_overc.System.{Env, Command, IsRoutine, IsOrdinary, routine-IsOrdinary}
use meta_overc.Exec.Keeps.{Keeps, Keeps-pure, Keeps-if, Keeps-bind, Keeps-or_value}
use meta_overc.Utils.Keeps.{compute_checksum-Keeps}
use meta_overc.Btrfs.Object.{Btrfs}
use meta_overc.Btrfs.Object.Keeps.{SameSystem, object_rules}
use meta_overc.Btrfs.Upgrade.{
  take_snapshots, enter_rootfs, leave_rootfs, upgrade_packages, replace_kernel, upgrade_checksum,
  upgrade_kernel, upgrade_grub,
}
use meta_overc.Btrfs.Rollback.{find_rollback_kernel, copy_kernel, rollback_kernel, rollback_grub}
use meta_overc.Btrfs.FactoryReset.{reset_kernel, reset_grub, reset_child, reset_children}

module _ (env : Env) (a : Btrfs) {Allowed : Command → Type 0}
    (ordinary : (c : Command) → IsOrdinary c → Allowed c) where
  routine : (c : Command) → IsRoutine c → Allowed c
  routine c r = ordinary c (routine-IsOrdinary c r)

  pub enter_rootfs-Keeps :
      (host : Bool) (root : String) → Keeps (SameSystem a) Allowed (enter_rootfs env host root)
  unfolding enter_rootfs
  enter_rootfs-Keeps host root = search (object_rules, ordinary, routine) depth 14

  pub leave_rootfs-Keeps :
      (host : Bool) (root tempd : String)
      → Keeps (SameSystem a) Allowed (leave_rootfs env host root tempd)
  unfolding leave_rootfs
  leave_rootfs-Keeps host root tempd = search (object_rules, ordinary, routine) depth 14

  pub upgrade_packages-Keeps :
      (host : Bool) → Keeps (SameSystem a) Allowed (upgrade_packages env host)
  unfolding upgrade_packages
  upgrade_packages-Keeps host =
      search (object_rules, ordinary, routine, enter_rootfs-Keeps, leave_rootfs-Keeps) depth 8

  pub take_snapshots-Keeps : (host : Bool) → Keeps (SameSystem a) Allowed (take_snapshots env host)
  unfolding take_snapshots
  take_snapshots-Keeps host = search (object_rules, ordinary, routine) depth 14

  pub replace_kernel-Keeps :
      (host : Bool) (kernel new : String)
      → Keeps (SameSystem a) Allowed (replace_kernel env host kernel new)
  unfolding replace_kernel
  replace_kernel-Keeps host kernel new = search (object_rules, ordinary, routine) depth 14

  pub upgrade_checksum-Keeps :
      (host : Bool) (kernel : String)
      → Keeps (SameSystem a) Allowed (upgrade_checksum env host kernel)
  unfolding upgrade_checksum
  upgrade_checksum-Keeps host kernel =
      search (object_rules, ordinary, routine, compute_checksum-Keeps) depth 14

  pub upgrade_kernel-Keeps : (host : Bool) → Keeps (SameSystem a) Allowed (upgrade_kernel env host)
  unfolding upgrade_kernel
  upgrade_kernel-Keeps host =
      search (object_rules, ordinary, routine, upgrade_checksum-Keeps, replace_kernel-Keeps) depth
        14

  pub upgrade_grub-Keeps : (host : Bool) → Keeps (SameSystem a) Allowed (upgrade_grub env host)
  unfolding upgrade_grub
  upgrade_grub-Keeps host = search (object_rules, ordinary, routine) depth 14

  pub find_rollback_kernel-Keeps :
      (next kernel : String) → Keeps (SameSystem a) Allowed (find_rollback_kernel env next kernel)
  unfolding find_rollback_kernel
  find_rollback_kernel-Keeps next kernel = search (object_rules, ordinary, routine) depth 14

  pub copy_kernel-Keeps :
      (source kernel : String) → Keeps (SameSystem a) Allowed (copy_kernel env source kernel)
  unfolding copy_kernel
  copy_kernel-Keeps source kernel = search (object_rules, ordinary, routine) depth 14

  pub rollback_kernel-Keeps : Keeps (SameSystem a) Allowed (rollback_kernel env)
  unfolding rollback_kernel
  rollback_kernel-Keeps =
      search
        (
          object_rules, ordinary, routine, find_rollback_kernel-Keeps, compute_checksum-Keeps,
          copy_kernel-Keeps,
        )
        depth 14

  pub rollback_grub-Keeps : Keeps (SameSystem a) Allowed (rollback_grub env)
  unfolding rollback_grub
  rollback_grub-Keeps = search (object_rules, ordinary, routine) depth 14

  pub reset_kernel-Keeps : Keeps (SameSystem a) Allowed (reset_kernel env)
  unfolding reset_kernel
  reset_kernel-Keeps = search (object_rules, ordinary, routine) depth 14

  pub reset_grub-Keeps : Keeps (SameSystem a) Allowed (reset_grub env)
  unfolding reset_grub
  reset_grub-Keeps = search (object_rules, ordinary, routine) depth 14

  reset_child-Keeps :
      (workdir child : String) → Keeps (SameSystem a) Allowed (reset_child env workdir child)
  unfolding reset_child
  reset_child-Keeps workdir child = search (object_rules, ordinary, routine) depth 14

  pub reset_children-Keeps :
      (workdir : String) (ls : List String)
      → Keeps (SameSystem a) Allowed (reset_children env workdir ls)
  unfolding reset_children
  reset_children-Keeps workdir [] = Keeps-pure _
  reset_children-Keeps workdir (l ∷ ls) = Keeps-if (strip l == "") _ _ (Keeps-pure _) (
      Keeps-bind _ _ (Keeps-or_value _) (λ child.
        Keeps-bind _ _ (reset_child-Keeps workdir child)
          (λ done. Keeps-if done _ _ (reset_children-Keeps workdir ls) (Keeps-pure _))))
