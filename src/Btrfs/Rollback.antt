-- ===== src/Btrfs/Rollback.antt =====
-- Overc/backends/btrfs.py: `do_rollback`.
use meta_overc.Base.{String, ◌<>◌, Bool, true, false, not, ◌==◌, if◌then◌else◌}
use meta_overc.Text.{strip_newlines, ◌/◌}
use meta_overc.System.{Env, realpath, copy_file}
use meta_overc.Exec.{Exec, attribute_error, ◌>>=◌, ◌>>◌, pure, get, when, or_raise}
use meta_overc.Utils.{sysroot, system, check_output, compute_checksum}
use meta_overc.Btrfs.Object.{
  Btrfs, set_message, add_message, path_exists, host_copyfile, mount_rootvolume,
}
use meta_overc.Btrfs.Upgrade.{set_default_rootfs}

module _ (env : Env) where
  -- The kernel of the other root file system, or the backup of the kernel
  unfoldable pub find_rollback_kernel : String → String → Exec Btrfs String
  unfolding path_exists check_output strip_newlines
  find_rollback_kernel next_rootfs kernel = do
    there ← path_exists env (sysroot / next_rootfs / kernel) true
    if there
        then (do
          out ← check_output env (realpath true (sysroot / next_rootfs / kernel))
          pure (strip_newlines out))
        else pure (kernel <> "_bakup")

  unfoldable pub copy_kernel : String → String → Exec Btrfs (Unit {0})
  unfolding system path_exists
  copy_kernel source kernel = do
    system env (copy_file true source kernel)
    signed ← path_exists env (source <> ".p7b") true
    when signed (do system env (copy_file true (source <> ".p7b") (kernel <> ".p7b")); pure tt)

  -- The checksum of the kernel that is found is bound to `upgrade_kernel_md5`; the test reads
  -- `rollback_kernel_md5`, which is still the empty text.
  unfoldable pub rollback_kernel : Exec Btrfs (Unit {0})
  unfolding find_rollback_kernel compute_checksum copy_kernel
  rollback_kernel = do
    b ← get
    if b.kernel == ""
        then add_message "Unable to rollback kernel, did not find kernel file.\n"
        else do
          source ← find_rollback_kernel b.next_rootfs b.kernel
          upgrade_kernel_md5 ← compute_checksum env source true
          old_md5 ← or_raise b.kernel_md5 attribute_error
          when (not ("" == old_md5)) (copy_kernel source b.kernel)

  unfoldable pub rollback_grub : Exec Btrfs (Unit {0})
  unfolding path_exists host_copyfile
  rollback_grub = do
    b ← get
    there ← path_exists env (sysroot / b.next_rootfs / "boot/EFI/BOOT") true
    when there (do
      add_message "Rollback grub-efi related files \n"
      host_copyfile env (sysroot / b.next_rootfs / "boot/EFI/BOOT/*efi") "/boot/EFI/BOOT/")

  unfoldable pub rollback_rootfs : Exec Btrfs Bool
  unfolding rollback_kernel rollback_grub set_default_rootfs
  rollback_rootfs = do
    rollback_kernel
    rollback_grub
    set_default_rootfs env true
    set_message "rollback succeeded"
    pure true

  -- `do_rollback`
  unfoldable pub do_rollback : Exec Btrfs Bool
  unfolding mount_rootvolume path_exists rollback_rootfs
  do_rollback = do
    b ← get
    if b.bakup_mode
        then (do
          set_message "Error: You are running in the backup mode, cannot do rollback!"
          pure false)
        else do
          mount_rootvolume env true
          there ← path_exists env (sysroot / b.next_rootfs) true
          if there
              then rollback_rootfs
              else do set_message "Error: There is no previous status to rollback to!"; pure false
