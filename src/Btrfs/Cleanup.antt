-- ===== src/Btrfs/Cleanup.antt =====
-- Overc/backends/btrfs.py: the removal of subvolumes.
pub mod Keeps
pub mod Exact
use meta_overc.Base.{
  String, ◌<>◌, Bool, true, false, not, Option, none, some, List, [], ◌∷◌, ◌==◌, ◌&&◌,
  if◌then◌else◌, contains, format_option,
}
use meta_overc.Text.{strip, split, split_on, ◌/◌}
use meta_overc.System.{Env, delete, list_all, btrfs_tool, mount_at, umount}
use meta_overc.Exec.{Exec, Result, ok, raised, index_error, ◌>>=◌, ◌>>◌, or_value, pure, get, when}
use meta_overc.Utils.{sysroot, factory_snapshot, container_mount, system, popen_lines}
use meta_overc.Btrfs.Object.{
  Btrfs, path_exists, mkdirhier, btrfs, getrootdev, get_btrfs_value, mount_rootvolume,
}

-- `words[-1]` of a line that begins with a word
abbrev pub last_word : String → List String → String
last_word w [] = w
last_word w (v ∷ vs) = last_word v vs

-- `path.split('/')[0]`
abbrev first_part : List String → String
first_part [] = ""
first_part (p ∷ ps) = p

unfoldable pub subvolid_of : String → String
unfolding split_on
subvolid_of path = first_part (split_on b'/' path)

-- The test on the name of a listed subvolume
unfoldable pub is_deleted : String → List String → String → Bool
unfolding subvolid_of
is_deleted rootfs exclude path =
    not (subvolid_of path == rootfs) && not (contains exclude (subvolid_of path))

-- One line of `btrfs subvolume list`: the last word is pushed if it is to go.
unfoldable pub push_subvol : String → List String → List String → List String → Result (List String)
unfolding is_deleted
push_subvol rootfs exclude [] stack = raised index_error
push_subvol rootfs exclude (w ∷ ws) stack =
    let path = last_word w ws in ok (if is_deleted rootfs exclude path then path ∷ stack else stack)

abbrev and_then : {A B : Type 0} → Result A → (A → Result B) → Result B
and_then (ok a) f = f a
and_then (raised e) f = raised e

-- The first loop of `_cleanup_subvol`, which a blank line ends; the top of the stack comes first.
unfoldable pub fill_stack : String → List String → List String → List String → Result (List String)
unfolding push_subvol strip split
fill_stack rootfs exclude [] stack = ok stack
fill_stack rootfs exclude (line ∷ rest) stack =
    let c = strip line in
    let later =
      and_then (push_subvol rootfs exclude (split c) stack) (fill_stack rootfs exclude rest) in
    if c == "" then ok stack else later

-- `[current_subvol, FACTORY_SNAPSHOT]`, where no name is equal to `None`
abbrev pub kept_in_container : Option String → List String
kept_in_container none = factory_snapshot ∷ []
kept_in_container (some current) = current ∷ factory_snapshot ∷ []

module _ (env : Env) where
  -- The second loop, `while subvol_stack`
  unfoldable pub delete_stack : String → Bool → List String → Exec Btrfs (Unit {0})
  unfolding btrfs
  delete_stack subvoldir host [] = pure tt
  delete_stack subvoldir host (path ∷ stack) = do
    btrfs env (delete subvoldir path) host
    delete_stack subvoldir host stack

  -- `_cleanup_subvol`
  unfoldable pub cleanup_subvol : String → List String → Bool → Exec Btrfs (Unit {0})
  unfolding popen_lines fill_stack delete_stack
  cleanup_subvol subvoldir exclude host = do
    ls ← popen_lines env (btrfs_tool host (list_all subvoldir))
    b ← get
    stack ← or_value (fill_stack b.rootfs exclude ls [])
    delete_stack subvoldir host stack

  -- `clean_essential`
  unfoldable pub clean_essential : Exec Btrfs (Unit {0})
  unfolding mount_rootvolume cleanup_subvol
  clean_essential = do
    mount_rootvolume env true
    cleanup_subvol sysroot (factory_snapshot ∷ "rootfs_bakup" ∷ []) true

  -- `_mount_container_root`
  unfoldable pub mount_container_root : Bool → Exec Btrfs (Unit {0})
  unfolding path_exists mkdirhier getrootdev system
  mount_container_root host = do
    there ← path_exists env (container_mount / ".tmp") host
    when (not there) (mkdirhier env (container_mount / ".tmp") host)
    devpath ← getrootdev env container_mount host
    system env
        (mount_at host ("-o subvolid=5 " <> format_option devpath) (container_mount / ".tmp"))
    pure tt

  -- `clean_container`
  unfoldable pub clean_container : Exec Btrfs (Unit {0})
  unfolding mount_container_root get_btrfs_value cleanup_subvol system
  clean_container = do
    mount_container_root true
    current_subvol ← get_btrfs_value env container_mount "Name" true
    cleanup_subvol (container_mount / ".tmp") (kept_in_container current_subvol) true
    system env (umount true (container_mount / ".tmp"))
    pure tt
