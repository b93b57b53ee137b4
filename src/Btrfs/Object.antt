-- ===== src/Btrfs/Object.antt =====
-- Overc/backends/btrfs.py: the object of class `Btrfs` and its small methods.
pub mod Keeps
pub mod Fields
use meta_overc.Base.{
  String, ◌<>◌, ℤ, Bool, true, false, Option, none, some, List, [], ◌∷◌, ◌==◌, ◌&&◌, if◌then◌else◌,
}
use meta_overc.Text.{strip, strip_newlines, split, split_on, ◌/◌}
use meta_overc.System.{
  Command, Env, BtrfsArgs, btrfs_tool, mount_table, mount_at, test_exists, make_dirs, remove_dir,
  make_temp_dir, os_path_exists, os_makedirs, os_rmdir, tempfile_mkdtemp, tempfile_mkstemp,
  write_file, run_bash, remove_file, show, succeeded,
}
use meta_overc.Exec.{
  Exec, Error, Result, ok, raised, called_process, os_error, name_error, index_error, ◌>>=◌, ◌>>◌,
  pure, raise, modify, get, when, try_except, ask, or_value,
}
use meta_overc.Utils.{sysroot, system, check_output, popen_lines, os_call}

-- The object after `__init__`. `kernel` is empty where no kernel file is found, and `kernel_md5`
-- is then not set. The field `name`, which nothing reads, is left out.
pub record Btrfs : Type 0 where
  pub message : String
  pub rootdev : String
  pub rootfs : String
  pub next_rootfs : String
  pub bakup_mode : Bool
  pub kernel : String
  pub kernel_md5 : Option String

abbrev pub set_message : String → Exec Btrfs (Unit {0})
set_message text = modify (λ b. record b { message = text })

abbrev pub add_message : String → Exec Btrfs (Unit {0})
add_message text = modify (λ b. record b { message = b.message <> text })

abbrev exit_status_only : {S : Type 0} → Error → Exec S Bool
exit_status_only (called_process code output) = pure false
exit_status_only e = raise e

-- One line of the mount table: the device if the directory is mounted there, or the search goes on.
unfoldable pub mounted_at : String → List String → Result (Option String) → Result (Option String)
mounted_at dir (dev ∷ _ ∷ target ∷ _) rest = if target == dir then ok (some dev) else rest
mounted_at dir _ rest = raised index_error

-- The loop of `_getrootdev`, which a blank line ends
unfoldable pub find_rootdev : String → List String → Result (Option String)
unfolding mounted_at strip split
find_rootdev dir [] = ok none
find_rootdev dir (line ∷ rest) =
    let c = strip line in
    let later = find_rootdev dir rest in if c == "" then ok none else mounted_at dir (split c) later

-- The third word is read only on the lines of the root device.
unfoldable pub is_root_volume : String → List String → Result Bool → Result Bool
is_root_volume rootdev (dev ∷ kind ∷ target ∷ ws) need =
    if dev == rootdev && target == sysroot then ok false else need
is_root_volume rootdev (dev ∷ ws) need = if dev == rootdev then raised index_error else need
is_root_volume rootdev [] need = raised index_error

-- The loop of `_mount_rootvolume`: whether the root volume has still to be mounted
unfoldable pub need_mount : String → List String → Result Bool
unfolding is_root_volume strip split
need_mount rootdev [] = ok true
need_mount rootdev (line ∷ rest) =
    let c = strip line in
    let later = need_mount rootdev rest in
    if c == "" then ok true else is_root_volume rootdev (split c) later

-- One line of `btrfs subvolume show`, split at its colons
unfoldable pub value_of : String → List String → Result (Option String) → Result (Option String)
unfolding strip
value_of key (k ∷ v ∷ _) rest = if strip k == key then ok (some (strip v)) else rest
value_of key (k ∷ []) rest = if strip k == key then raised index_error else rest
value_of key [] rest = raised index_error

-- The loop of `_get_btrfs_value`
unfoldable pub find_value : String → List String → Result (Option String)
unfolding value_of split_on
find_value key [] = ok none
find_value key (line ∷ rest) =
    let c = strip line in
    let later = find_value key rest in
    if c == "" then ok none else value_of key (split_on b':' c) later

-- The text that `_host_copyfile` writes for `bash`
abbrev pub copy_script : String → String → String
copy_script source dest = "cp -rf " <> (source <> (" " <> dest))

module _ (env : Env) {S : Type 0} where
  -- `_path_exists`
  unfoldable pub path_exists : String → Bool → Exec S Bool
  unfolding check_output system
  path_exists path true =
      try_except (do check_output env (test_exists path); pure true) exit_status_only
  path_exists path false = do r ← ask env (os_path_exists path); pure (succeeded r)

  -- `_mkdirhier`; the handler names `errno`, which the module does not import.
  unfoldable pub mkdirhier : String → Bool → Exec S (Unit {0})
  unfolding check_output
  mkdirhier directory true = do check_output env (make_dirs directory); pure tt
  mkdirhier directory false = do
    r ← ask env (os_makedirs directory)
    if succeeded r then pure tt else raise name_error

  -- `_rmdir`
  unfoldable pub rmdir : String → Bool → Exec S (Unit {0})
  unfolding check_output os_call
  rmdir directory true = do check_output env (remove_dir directory); pure tt
  rmdir directory false = do os_call env (os_rmdir directory); pure tt

  -- `_mkdtemp`
  unfoldable pub mkdtemp : String → Bool → Exec S String
  unfolding check_output os_call strip_newlines
  mkdtemp directory true = do
    out ← check_output env (make_temp_dir directory)
    pure (strip_newlines out)
  mkdtemp directory false = os_call env (tempfile_mkdtemp directory)

  -- `_host_copyfile`
  unfoldable pub host_copyfile : String → String → Exec S (Unit {0})
  unfolding os_call system
  host_copyfile source dest = do
    cp_script ← os_call env (tempfile_mkstemp "/var/lib/cube/local/")
    os_call env (write_file cp_script (copy_script source dest))
    system env (run_bash cp_script)
    system env (remove_file cp_script)
    pure tt

  -- `_btrfs`
  unfoldable pub btrfs : BtrfsArgs → Bool → Exec S ℤ
  unfolding system
  btrfs args host = system env (btrfs_tool host args)

  -- `_getrootdev`
  unfoldable pub getrootdev : String → Bool → Exec S (Option String)
  unfolding popen_lines find_rootdev
  getrootdev mountdir host = do
    ls ← popen_lines env (mount_table host)
    or_value (find_rootdev mountdir ls)

  -- `_get_btrfs_value`
  unfoldable pub get_btrfs_value : String → String → Bool → Exec S (Option String)
  unfolding popen_lines find_value
  get_btrfs_value path key host = do
    ls ← popen_lines env (btrfs_tool host (show path))
    or_value (find_value key ls)

module _ (env : Env) where
  -- `_mount_rootvolume`
  unfoldable pub mount_rootvolume : Bool → Exec Btrfs (Unit {0})
  unfolding path_exists mkdirhier popen_lines need_mount system
  mount_rootvolume host = do
    there ← path_exists env sysroot host
    when (if there then false else true) (mkdirhier env sysroot host)
    ls ← popen_lines env (mount_table host)
    b ← get
    need ← or_value (need_mount b.rootdev ls)
    when need (do system env (mount_at host ("-o subvolid=5 " <> b.rootdev) sysroot); pure tt)
