-- ===== src/Btrfs/Init.antt =====
-- Overc/backends/btrfs.py: `Btrfs.__init__`.
use meta_overc.Base.{
  String, pos, Bool, true, false, Option, none, some, List, [], ◌∷◌, ◌==◌, ◌||◌, if◌then◌else◌,
  is_missing, format_option,
}
use meta_overc.System.{Env}
use meta_overc.Exec.{Exec, Result, ok, raised, system_exit, key_error, ◌>>=◌, or_value, pure, raise}
use meta_overc.Utils.{compute_checksum}
use meta_overc.Btrfs.Object.{Btrfs, path_exists, getrootdev, get_btrfs_value}

-- The kernel files, in the order in which they are looked for
abbrev pub kernel_files : List String
kernel_files =
    "/boot/bzImage" ∷ "/boot/uImage" ∷ "/boot/zImage" ∷ "/boot/fitImage" ∷ "/boot/kernel7.img"
    ∷ "/boot/Image" ∷ []

-- `self.rootfs_dic[rootfs]`
unfoldable pub rootfs_dic : String → Result String
rootfs_dic rootfs =
    if rootfs == "rootfs"
    then ok "rootfs_upgrade"
    else if rootfs == "rootfs_upgrade"
    then ok "rootfs"
    else raised key_error

-- What `_get_bootmode` returns, by the root file system that it has read
abbrev pub is_bakup : Option String → Bool
is_bakup none = false
is_bakup (some name) = name == "rootfs_bakup"

module _ {S : Type 0} where
  -- The last statements of `__init__`: the object, once its values are known
  unfoldable pub make : Option String → Option String → String → Option String → Exec S Btrfs
  unfolding rootfs_dic
  make rootdev rootfs kernel kernel_md5 =
      if is_missing rootdev || is_missing rootfs then raise (system_exit (pos 2)) else do
        next_rootfs ← or_value (rootfs_dic (format_option rootfs))
        pure (record {
          message = "";
          rootdev = format_option rootdev;
          rootfs = format_option rootfs;
          next_rootfs = next_rootfs;
          bakup_mode = is_bakup rootfs;
          kernel = kernel;
          kernel_md5 = kernel_md5;
        })

module _ (env : Env) {S : Type 0} where
  -- The chain of `elif`s on the kernel files
  unfoldable pub find_kernel : List String → Exec S String
  unfolding path_exists
  find_kernel [] = pure ""
  find_kernel (file ∷ files) = do
    there ← path_exists env file true
    let rest = find_kernel files
    if there then pure file else rest

  -- `self.kernel_md5`, set only if there is a kernel
  unfoldable pub kernel_checksum : String → Exec S (Option String)
  unfolding compute_checksum
  kernel_checksum kernel =
      if kernel == "" then pure none else do md5 ← compute_checksum env kernel true; pure (some md5)

  -- `__init__`
  unfoldable pub init : Exec S Btrfs
  unfolding getrootdev get_btrfs_value find_kernel kernel_checksum make
  init = do
    rootdev ← getrootdev env "/" true
    rootfs ← get_btrfs_value env "/" "Name" true
    kernel ← find_kernel kernel_files
    kernel_md5 ← kernel_checksum kernel
    make rootdev rootfs kernel kernel_md5
