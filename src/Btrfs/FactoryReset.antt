-- ===== src/Btrfs/FactoryReset.antt =====
-- Overc/backends/btrfs.py: `factory_reset` and its two halves.
use meta_overc.Base.{
  String, ◌<>◌, pos, Bool, true, false, not, List, [], ◌∷◌, ◌==◌, if◌then◌else◌, int_eq,
  format_option,
}
use meta_overc.Text.{strip, strip_newlines, split, remove, ◌/◌}
use meta_overc.System.{
  Env, snapshot, set_default, list_below, btrfs_tool, realpath, copy_file, umount,
}
use meta_overc.Exec.{Exec, Result, ok, raised, index_error, ◌>>=◌, ◌>>◌, or_value, pure, get, when}
use meta_overc.Utils.{
  sysroot, factory_snapshot, container_mount, system, check_output, popen_lines, random_str,
}
use meta_overc.Btrfs.Object.{
  Btrfs, set_message, add_message, path_exists, rmdir, host_copyfile, btrfs, get_btrfs_value,
  mount_rootvolume,
}
use meta_overc.Btrfs.Cleanup.{last_word, cleanup_subvol, mount_container_root}

abbrev no_space : Exec Btrfs (Unit {0})
no_space = do
  add_message "Cannot factory reset, please check is there enough diskspace left"
  add_message "\n"
  add_message "Factory reset aborted!"

abbrev no_default : String → Exec Btrfs (Unit {0})
no_default name = do
  add_message ("Cannot set default mount subvolume to " <> name)
  add_message "\n"
  add_message "Factory reset aborted!"

abbrev pub container_tmp : String
container_tmp = container_mount / ".tmp"

-- `c_list[-1]` of a line that is not blank
abbrev pub last_of : List String → Result String
last_of [] = raised index_error
last_of (w ∷ ws) = ok (last_word w ws)

module _ (env : Env) where
  -- The kernel of the factory snapshot over the kernel that boots
  unfoldable pub reset_kernel : Exec Btrfs (Unit {0})
  unfolding check_output strip_newlines system path_exists
  reset_kernel = do
    b ← get
    if b.kernel == ""
        then add_message "Unable to factory reset the kernel, did not find kernel file\n"
        else do
          add_message ("factory reset kernel " <> (b.kernel <> " \n"))
          out ← check_output env (realpath true (sysroot / factory_snapshot / b.kernel))
          let real_kernel = strip_newlines out
          system env (copy_file true real_kernel b.kernel)
          signed ← path_exists env (real_kernel <> ".p7b") true
          when signed
              (do system env (copy_file true (real_kernel <> ".p7b") (b.kernel <> ".p7b")); pure tt)

  unfoldable pub reset_grub : Exec Btrfs (Unit {0})
  unfolding path_exists host_copyfile
  reset_grub = do
    there ← path_exists env (sysroot / factory_snapshot / "boot/EFI/BOOT") true
    when there (do
      add_message "factory reset grub-efi related files \n"
      host_copyfile env (sysroot / factory_snapshot / "boot/EFI/BOOT/*efi") "/boot/EFI/BOOT/")

  -- The part of `_factory_reset_essential` that follows the snapshot of the factory state
  unfoldable pub activate_factory : Exec Btrfs Bool
  unfolding btrfs get_btrfs_value reset_kernel reset_grub
  activate_factory = do
    b ← get
    btrfs env (snapshot (sysroot / factory_snapshot) (sysroot / "rootfs_bakup")) true
    subvolid ← get_btrfs_value env (sysroot / b.next_rootfs) "Subvolume ID" true
    failed ← btrfs env (set_default (format_option subvolid) sysroot) true
    if int_eq failed (pos 0)
        then (do reset_kernel; reset_grub; pure true)
        else do no_default b.next_rootfs; pure false

  -- `_factory_reset_essential`
  unfoldable pub factory_reset_essential : Exec Btrfs Bool
  unfolding mount_rootvolume cleanup_subvol path_exists btrfs activate_factory
  factory_reset_essential = do
    mount_rootvolume env true
    cleanup_subvol env sysroot (factory_snapshot ∷ []) true
    b ← get
    stale ← path_exists env (sysroot / b.next_rootfs) true
    if stale
        then (do
          set_message (
              "Cannot cleanup the subvolumes in root tree "
              <> (sysroot <> ". There must be something wrong!"))
          add_message "\n"
          add_message "Factory reset aborted!"
          pure false)
        else do
          ret ← btrfs env (snapshot (sysroot / factory_snapshot) (sysroot / b.next_rootfs)) true
          if int_eq ret (pos 0) then activate_factory else do no_space; pure false

  -- One round of the loop over the children of the factory snapshot: whether the snapshot of the
  -- child has succeeded
  unfoldable pub reset_child : String → String → Exec Btrfs Bool
  unfolding remove path_exists rmdir btrfs
  reset_child workdir factory_subvol = do
    let workdir_subvol = remove factory_snapshot factory_subvol
    let snapshot_dir = workdir / workdir_subvol
    there ← path_exists env snapshot_dir true
    when there (rmdir env snapshot_dir true)
    ret ← btrfs env (snapshot (container_tmp / factory_subvol) snapshot_dir) true
    if int_eq ret (pos 0) then pure true else do
      add_message
          ("Cannot snapshot subvolume of " <> (container_mount <> (".tmp" / factory_subvol)))
      add_message ("\nto " <> snapshot_dir)
      add_message "Factory reset aborted!"
      pure false

  -- The loop, which a blank line ends
  unfoldable pub reset_children : String → List String → Exec Btrfs Bool
  unfolding strip split reset_child
  reset_children workdir [] = pure true
  reset_children workdir (line ∷ rest) =
      let c = strip line in
      let later = reset_children workdir rest in
      let round : Exec Btrfs Bool = (do
        factory_subvol ← or_value (last_of (split c))
        done ← reset_child workdir factory_subvol
        if done then later else pure false) in
      if c == "" then pure true else round

  -- The last statements of `_factory_reset_container`
  unfoldable pub set_default_container : String → Exec Btrfs Bool
  unfolding get_btrfs_value btrfs system
  set_default_container workdir = do
    subvolid ← get_btrfs_value env workdir "Subvolume ID" true
    failed ← btrfs env (set_default (format_option subvolid) container_mount) true
    if int_eq failed (pos 0)
        then (do system env (umount true container_tmp); pure true)
        else do no_default workdir; system env (umount true container_tmp); pure false

  -- `_factory_reset_container`
  unfoldable pub factory_reset_container : Exec Btrfs Bool
  unfolding mount_container_root path_exists system random_str btrfs popen_lines reset_children
      set_default_container
  factory_reset_container = do
    mount_container_root env true
    there ← path_exists env (container_tmp / factory_snapshot) true
    if not there
        then (do
          add_message ("Error: Cannot find the snapshot of factory in " <> container_tmp)
          add_message "\n"
          add_message "Factory reset aborted!"
          system env (umount true container_tmp)
          pure false)
        else do
          work_subvol ← random_str env 6
          let workdir = container_tmp / work_subvol
          ret ← btrfs env (snapshot (container_tmp / factory_snapshot) workdir) true
          if not (int_eq ret (pos 0))
              then (do no_space; system env (umount true container_tmp); pure false)
              else do
                ls ←
                    popen_lines env
                      (btrfs_tool true (list_below (container_tmp / factory_snapshot)))
                done ← reset_children workdir ls
                if done then set_default_container workdir else pure false

  -- `factory_reset`
  unfoldable pub factory_reset : Exec Btrfs Bool
  unfolding factory_reset_essential factory_reset_container
  factory_reset = do
    done ← factory_reset_essential
    if done then factory_reset_container else pure false
