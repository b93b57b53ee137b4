-- ===== src/Btrfs/Upgrade.antt =====
-- Overc/backends/btrfs.py: `_do_upgrade` and `do_upgrade`.
use meta_overc.Base.{
  String, ◌<>◌, ℤ, pos, Bool, true, false, not, [], ◌∷◌, ◌==◌, if◌then◌else◌, int_eq, format_option,
}
use meta_overc.Text.{strip_newlines, ◌/◌}
use meta_overc.System.{
  Env, snapshot, set_default, mount_at, umount, chroot_upgrade, remove_tree, realpath, copy_file,
  copy_tree,
}
use meta_overc.Exec.{Exec, attribute_error, ◌>>=◌, ◌>>◌, pure, get, when, or_raise}
use meta_overc.Utils.{sysroot, factory_snapshot, system, check_output, compute_checksum}
use meta_overc.Btrfs.Object.{
  Btrfs, set_message, add_message, path_exists, mkdtemp, host_copyfile, btrfs, get_btrfs_value,
  mount_rootvolume,
}
use meta_overc.Btrfs.Cleanup.{cleanup_subvol}

module _ (env : Env) where
  -- The snapshots for the backup and for the upgrade
  unfoldable pub take_snapshots : Bool → Exec Btrfs (Unit {0})
  unfolding btrfs
  take_snapshots host = do
    b ← get
    btrfs env (snapshot (sysroot / b.rootfs) (sysroot / "rootfs_bakup")) host
    btrfs env (snapshot (sysroot / b.rootfs) (sysroot / b.next_rootfs)) host
    pure tt

  -- The mounts inside the new root file system, and a copy of its package database on a `tmpfs`; the
  -- result is the temporary directory that holds the database.
  unfoldable pub enter_rootfs : Bool → String → Exec Btrfs String
  unfolding system mkdtemp host_copyfile
  enter_rootfs host root = do
    system env (mount_at host "-t proc proc" (root / "proc"))
    system env (mount_at host "-o bind /dev" (root / "dev"))
    system env (mount_at host "--bind /run" (root / "run"))
    tempd ← mkdtemp env (root / "tmp") host
    host_copyfile env (root / "var/lib/rpm/*") tempd
    system env (mount_at host "-t tmpfs tmpfs" (root / "var/lib/rpm"))
    host_copyfile env (tempd / "*") (root / "var/lib/rpm/")
    pure tempd

  -- The package database back to its place, and the mounts undone
  unfoldable pub leave_rootfs : Bool → String → String → Exec Btrfs (Unit {0})
  unfolding system host_copyfile
  leave_rootfs host root tempd = do
    host_copyfile env (root / "var/lib/rpm/*") tempd
    system env (umount host (root / "var/lib/rpm"))
    host_copyfile env (tempd / "*") (root / "var/lib/rpm/")
    system env (remove_tree host tempd)
    system env (umount host (root / "run"))
    system env (umount host (root / "dev"))
    system env (umount host (root / "proc"))
    pure tt

  -- The run of the package manager in the new root file system, and its exit status
  unfoldable pub upgrade_packages : Bool → Exec Btrfs ℤ
  unfolding enter_rootfs system leave_rootfs
  upgrade_packages host = do
    b ← get
    let root = sysroot / b.next_rootfs
    tempd ← enter_rootfs host root
    result ← system env (chroot_upgrade host root)
    leave_rootfs host root tempd
    pure result

  -- The copies of the old kernel to its backup and of the new one over it
  unfoldable pub replace_kernel : Bool → String → String → Exec Btrfs (Unit {0})
  unfolding system path_exists
  replace_kernel host kernel upgrade_kernel = do
    system env (copy_file host kernel (kernel <> "_bakup"))
    signed ← path_exists env (kernel <> ".p7b") host
    when signed
        (do system env (copy_file host (kernel <> ".p7b") (kernel <> "_bakup.p7b")); pure tt)
    system env (copy_file host upgrade_kernel kernel)
    signed' ← path_exists env (upgrade_kernel <> ".p7b") host
    when signed'
        (do system env (copy_file host (upgrade_kernel <> ".p7b") (kernel <> ".p7b")); pure tt)

  -- The checksum of the new kernel, or the empty text if there is none
  unfoldable pub upgrade_checksum : Bool → String → Exec Btrfs String
  unfolding path_exists compute_checksum
  upgrade_checksum host upgrade_kernel = do
    there ← path_exists env upgrade_kernel host
    if there then compute_checksum env upgrade_kernel host else pure ""

  unfoldable pub upgrade_kernel : Bool → Exec Btrfs (Unit {0})
  unfolding check_output strip_newlines upgrade_checksum replace_kernel
  upgrade_kernel host = do
    b ← get
    if b.kernel == ""
        then add_message "Unable to upgrade the kernel, did not find kernel file.\n"
        else do
          out ← check_output env (realpath host (sysroot / b.next_rootfs / b.kernel))
          let new_kernel = strip_newlines out
          md5 ← upgrade_checksum host new_kernel
          if md5 == "" then pure tt else do
            old_md5 ← or_raise b.kernel_md5 attribute_error
            when (not (old_md5 == md5)) (replace_kernel host b.kernel new_kernel)

  unfoldable pub upgrade_grub : Bool → Exec Btrfs (Unit {0})
  unfolding path_exists system
  upgrade_grub host = do
    b ← get
    there ← path_exists env (sysroot / b.next_rootfs / "boot/EFI/BOOT") host
    when there (do
      add_message "Replace the grub-efi related files with the latest one \n"
      system env (copy_tree host (sysroot / b.next_rootfs / "boot/EFI/BOOT/*efi") "/boot/EFI/BOOT/")
      pure tt)

  unfoldable pub set_default_rootfs : Bool → Exec Btrfs (Unit {0})
  unfolding get_btrfs_value btrfs
  set_default_rootfs host = do
    b ← get
    subvolid ← get_btrfs_value env (sysroot / b.next_rootfs) "Subvolume ID" host
    btrfs env (set_default (format_option subvolid) sysroot) host
    pure tt

  -- What follows a successful run of the package manager
  unfoldable pub activate : Bool → Exec Btrfs Bool
  unfolding upgrade_kernel upgrade_grub set_default_rootfs
  activate host = do
    upgrade_kernel host
    upgrade_grub host
    set_default_rootfs host
    set_message "do upgrade ok"
    pure true

  unfoldable pub upgrade_rootfs : Bool → Exec Btrfs Bool
  unfolding take_snapshots upgrade_packages activate
  upgrade_rootfs host = do
    take_snapshots host
    result ← upgrade_packages host
    if int_eq result (pos 0) then activate host else do
      set_message "Error: System update failed! It has no effect on the running system!"
      add_message "\n"
      add_message "Please do not run rollback!"
      pure false

  -- `_do_upgrade`
  unfoldable pub do_upgrade_on : Bool → Exec Btrfs Bool
  unfolding cleanup_subvol path_exists upgrade_rootfs
  do_upgrade_on host = do
    cleanup_subvol env sysroot (factory_snapshot ∷ []) host
    b ← get
    stale ← path_exists env (sysroot / b.next_rootfs) host
    if stale
        then (do
          set_message (
              "Cannot cleanup the subvolumes in root tree "
              <> (sysroot <> ". There must be something wrong!"))
          add_message "\n"
          add_message "Upgrade aborted!"
          pure false)
        else if b.bakup_mode
        then (do
          set_message "Error: You are running in the backup mode, cannot do upgrade!"
          pure false)
        else upgrade_rootfs host

  -- `do_upgrade`
  unfoldable pub do_upgrade : Exec Btrfs Bool
  unfolding mount_rootvolume do_upgrade_on
  do_upgrade = do mount_rootvolume env true; do_upgrade_on true
