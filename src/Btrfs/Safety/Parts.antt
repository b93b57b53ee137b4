-- ===== src/Btrfs/Safety/Parts.antt =====
-- The deletions of the parts of the operations of `Btrfs`.
use meta_overc.Base.{String, Bool}
use meta_overc.System.{Env}
use meta_overc.Btrfs.Object.{Btrfs}
use meta_overc.Btrfs.Object.Keeps.{object_rules}
use meta_overc.Btrfs.Upgrade.{set_default_rootfs, activate, upgrade_rootfs}
use meta_overc.Btrfs.Rollback.{rollback_rootfs, do_rollback}
use meta_overc.Btrfs.FactoryReset.{activate_factory, set_default_container}
use meta_overc.Btrfs.Safety.{Spares-ordinary, Spares-routine, KeepsSpared}
use meta_overc.Btrfs.Parts.{
  upgrade_packages-Keeps, take_snapshots-Keeps, upgrade_kernel-Keeps, upgrade_grub-Keeps,
  rollback_kernel-Keeps, rollback_grub-Keeps, reset_kernel-Keeps, reset_grub-Keeps,
}

module _ (env : Env) (a : Btrfs) where
  pub set_default_rootfs-Keeps : (host : Bool) → KeepsSpared a (set_default_rootfs env host)
  unfolding set_default_rootfs
  set_default_rootfs-Keeps host = search (object_rules, Spares-ordinary, Spares-routine) depth 14

  pub activate-Keeps : (host : Bool) → KeepsSpared a (activate env host)
  unfolding activate
  activate-Keeps host =
      search
        (
          object_rules, Spares-ordinary, Spares-routine, upgrade_kernel-Keeps, upgrade_grub-Keeps,
          set_default_rootfs-Keeps,
        )
        depth 14

  pub upgrade_rootfs-Keeps : (host : Bool) → KeepsSpared a (upgrade_rootfs env host)
  unfolding upgrade_rootfs
  upgrade_rootfs-Keeps host =
      search
        (
          object_rules, Spares-ordinary, Spares-routine, take_snapshots-Keeps,
          upgrade_packages-Keeps, activate-Keeps,
        )
        depth 14

  pub rollback_rootfs-Keeps : KeepsSpared a (rollback_rootfs env)
  unfolding rollback_rootfs
  rollback_rootfs-Keeps =
      search
        (
          object_rules, Spares-ordinary, Spares-routine, rollback_kernel-Keeps, rollback_grub-Keeps,
          set_default_rootfs-Keeps,
        )
        depth 14

  pub do_rollback-Keeps : KeepsSpared a (do_rollback env)
  unfolding do_rollback
  do_rollback-Keeps =
      search (object_rules, Spares-ordinary, Spares-routine, rollback_rootfs-Keeps) depth 14

  pub activate_factory-Keeps : KeepsSpared a (activate_factory env)
  unfolding activate_factory
  activate_factory-Keeps =
      search (object_rules, Spares-ordinary, Spares-routine, reset_kernel-Keeps, reset_grub-Keeps)
        depth 14

  pub set_default_container-Keeps :
      (workdir : String) → KeepsSpared a (set_default_container env workdir)
  unfolding set_default_container
  set_default_container-Keeps workdir =
      search (object_rules, Spares-ordinary, Spares-routine) depth 14
