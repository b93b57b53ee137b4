-- ===== src/Btrfs/Safety/Operations.antt =====
-- The deletions of the operations of `Btrfs` that `Overc` calls.
use meta_overc.Base.{
  String, Bool, true, Option, none, some, List, [], ◌∷◌, ◌≡◌, refl, All, arith, contains,
}
use meta_overc.System.{Env, History}
use meta_overc.Exec.{Exec, ◌>>◌, pure}
use meta_overc.Exec.Keeps.{Since-start, Since-All, Permits, keeps_rules}
use meta_overc.Utils.{sysroot, factory_snapshot}
use meta_overc.Utils.Keeps.{random_str-Keeps}
use meta_overc.Btrfs.Object.{Btrfs}
use meta_overc.Btrfs.Object.Keeps.{unchanged, SameSystem, object_rules}
use meta_overc.Btrfs.Cleanup.{cleanup_subvol, clean_essential, clean_container, kept_in_container}
use meta_overc.Btrfs.Cleanup.Keeps.{is_deleted-ne, cleanup_subvol-Keeps, mount_container_root-Keeps}
use meta_overc.Btrfs.Upgrade.{do_upgrade_on, do_upgrade}
use meta_overc.Btrfs.Rollback.{do_rollback}
use meta_overc.Btrfs.FactoryReset.{
  factory_reset_essential, reset_children, factory_reset_container, factory_reset,
}
use meta_overc.Btrfs.Safety.{Spares, Spares-ordinary, Spares-routine, KeepsSpared}
use meta_overc.Btrfs.Parts.{reset_children-Keeps}
use meta_overc.Btrfs.Safety.Parts.{
  upgrade_rootfs-Keeps, do_rollback-Keeps, activate_factory-Keeps, set_default_container-Keeps,
}

-- The operations that `Overc` calls
pub data Operation : Type 0 where
  cleaning_essential cleaning_container resetting upgrading rolling_back : Operation

module _ (env : Env) (a : Btrfs) where
  cleanup-spares :
      (dir : String) (exclude : List String) (host : Bool)
      → contains exclude factory_snapshot ≡ true
      → KeepsSpared a (cleanup_subvol env dir exclude host)
  cleanup-spares dir exclude host c =
      cleanup_subvol-Keeps env (Spares-routine a.rootfs) dir exclude host
        (λ path d. is_deleted-ne a.rootfs exclude path factory_snapshot d c)

  pub cleanup_root-spares :
      (host : Bool) → KeepsSpared a (cleanup_subvol env sysroot (factory_snapshot ∷ []) host)
  cleanup_root-spares host = cleanup-spares sysroot _ host refl

  cleanup_container-spares :
      (dir : String) (current : Option String) (host : Bool)
      → KeepsSpared a (cleanup_subvol env dir (kept_in_container current) host)
  cleanup_container-spares dir none host = cleanup-spares dir _ host refl
  cleanup_container-spares dir (some current) host = cleanup-spares dir _ host (ground arith)

  cleanup_essential-spares :
      KeepsSpared a (cleanup_subvol env sysroot (factory_snapshot ∷ "rootfs_bakup" ∷ []) true)
  cleanup_essential-spares = cleanup-spares sysroot _ true refl

  clean_essential-spares : KeepsSpared a (clean_essential env)
  unfolding clean_essential
  clean_essential-spares = search (object_rules, Spares-routine, cleanup_essential-spares)

  clean_container-spares : KeepsSpared a (clean_container env)
  unfolding clean_container
  clean_container-spares =
      search (object_rules, Spares-routine, cleanup_container-spares, mount_container_root-Keeps)
        depth 10

  pub do_upgrade-spares : KeepsSpared a (do_upgrade env)
  unfolding do_upgrade do_upgrade_on
  do_upgrade-spares =
      search (object_rules, Spares-routine, cleanup_root-spares, upgrade_rootfs-Keeps) depth 14

  pub factory_reset_essential-spares : KeepsSpared a (factory_reset_essential env)
  unfolding factory_reset_essential
  factory_reset_essential-spares =
      search (object_rules, Spares-routine, cleanup_root-spares, activate_factory-Keeps) depth 14

  reset_children-spares :
      (workdir : String) (ls : List String) → KeepsSpared a (reset_children env workdir ls)
  reset_children-spares = reset_children-Keeps env a (Spares-ordinary a.rootfs)

  pub factory_reset_container-spares : KeepsSpared a (factory_reset_container env)
  unfolding factory_reset_container
  factory_reset_container-spares =
      search
        (
          object_rules, Spares-routine, random_str-Keeps, reset_children-spares,
          mount_container_root-Keeps, set_default_container-Keeps,
        )
        depth 14

  factory_reset-spares : KeepsSpared a (factory_reset env)
  unfolding factory_reset
  factory_reset-spares =
      search (keeps_rules, factory_reset_essential-spares, factory_reset_container-spares)

pub do_upgrade-SameSystem :
    (env : Env) (b : Btrfs) (h : History) → SameSystem b (do_upgrade env b h).1
do_upgrade-SameSystem env b h = ((do_upgrade-spares env b).at h b h (unchanged b, Since-start)).0

pub do_rollback-SameSystem :
    (env : Env) (b : Btrfs) (h : History) → SameSystem b (do_rollback env b h).1
do_rollback-SameSystem env b h = ((do_rollback-Keeps env b).at h b h (unchanged b, Since-start)).0

abbrev pub perform : Env → Operation → Exec Btrfs (Unit {0})
perform env cleaning_essential = clean_essential env
perform env cleaning_container = clean_container env
perform env resetting = do factory_reset env; pure tt
perform env upgrading = do do_upgrade env; pure tt
perform env rolling_back = do do_rollback env; pure tt

pub perform-spares : (env : Env) (op : Operation) (a : Btrfs) → KeepsSpared a (perform env op)
perform-spares env cleaning_essential a = clean_essential-spares env a
perform-spares env cleaning_container a = clean_container-spares env a
perform-spares env resetting a = search (keeps_rules, factory_reset-spares)
perform-spares env upgrading a = search (keeps_rules, do_upgrade-spares)
perform-spares env rolling_back a = search (keeps_rules, do_rollback-Keeps)

-- Whatever the environment answers, a clean-up, a factory reset, an upgrade or a rollback leaves all
-- fields of the object but its message as they are, and after a history without a deletion of the
-- running root file system or of the factory snapshot, or below these, there still is none, whether
-- the operation returns or raises.
pub perform-deletes_spared :
    (env : Env) (op : Operation) (b : Btrfs) (h : History)
    → All (Permits (Spares b.rootfs)) h
    → SameSystem b (perform env op b h).1 × All (Permits (Spares b.rootfs)) (perform env op b h).2
perform-deletes_spared env op b h p =
    let after = (perform-spares env op b).at h b h (unchanged b, Since-start) in
    (after.0, Since-All after.1 p)
