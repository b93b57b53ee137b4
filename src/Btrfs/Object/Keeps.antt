-- ===== src/Btrfs/Object/Keeps.antt =====
-- What the small methods of `Btrfs` keep, and that only the message of the object changes.
use meta_overc.Base.{String, Bool, true, false, ◌≡◌, refl}
use meta_overc.System.{Command, Env, BtrfsArgs, btrfs_tool, IsRoutine, run_bash, write_file}
use meta_overc.Exec.{Error, called_process}
use meta_overc.Exec.Keeps.{Keeps, Keeps-modify, Keeps-pure, Keeps-raise, keeps_rules}
use meta_overc.Utils.Keeps.{system-Keeps, check_output-Keeps, popen_lines-Keeps, os_call-Keeps}
use meta_overc.Btrfs.Object.{
  Btrfs, set_message, add_message, exit_status_only, path_exists, mkdirhier, rmdir, mkdtemp,
  host_copyfile, copy_script, btrfs, getrootdev, get_btrfs_value, mount_rootvolume,
}

-- The same object but for its message
pub record SameSystem (a b : Btrfs) : Type 0 where
  pub rootdev : b.rootdev ≡ a.rootdev
  pub rootfs : b.rootfs ≡ a.rootfs
  pub next_rootfs : b.next_rootfs ≡ a.next_rootfs
  pub bakup_mode : b.bakup_mode ≡ a.bakup_mode
  pub kernel : b.kernel ≡ a.kernel
  pub kernel_md5 : b.kernel_md5 ≡ a.kernel_md5

-- An object is the same as itself.
pub unchanged : (b : Btrfs) → SameSystem b b
unchanged b = record {
  rootdev = refl;
  rootfs = refl;
  next_rootfs = refl;
  bakup_mode = refl;
  kernel = refl;
  kernel_md5 = refl;
}

module _ (env : Env) {S : Type 0} {Fixed : S → Type 0} {Allowed : Command → Type 0} where
  pub btrfs-Keeps :
      (args : BtrfsArgs) (host : Bool)
      → Allowed (btrfs_tool host args)
      → Keeps Fixed Allowed (btrfs env args host)
  unfolding btrfs
  btrfs-Keeps args host a = system-Keeps env _ a

  exit_status_only-Keeps : (e : Error) → Keeps Fixed Allowed (exit_status_only {S = S} e)
  exit_status_only-Keeps (called_process code output) = Keeps-pure _
  exit_status_only-Keeps e = Keeps-raise _

ruleset calls = (
  keeps_rules, system-Keeps, check_output-Keeps, popen_lines-Keeps, os_call-Keeps, btrfs-Keeps,
  exit_status_only-Keeps,
)

module _ (env : Env) {S : Type 0} {Fixed : S → Type 0} {Allowed : Command → Type 0}
    (routine : (c : Command) → IsRoutine c → Allowed c) where
  pub path_exists-Keeps :
      (path : String) (host : Bool) → Keeps Fixed Allowed (path_exists env path host)
  unfolding path_exists
  path_exists-Keeps path true = search (calls, routine)
  path_exists-Keeps path false = search (calls, routine)

  pub mkdirhier-Keeps : (dir : String) (host : Bool) → Keeps Fixed Allowed (mkdirhier env dir host)
  unfolding mkdirhier
  mkdirhier-Keeps dir true = search (calls, routine)
  mkdirhier-Keeps dir false = search (calls, routine)

  pub rmdir-Keeps : (dir : String) (host : Bool) → Keeps Fixed Allowed (rmdir env dir host)
  unfolding rmdir
  rmdir-Keeps dir true = search (calls, routine)
  rmdir-Keeps dir false = search (calls, routine)

  pub mkdtemp-Keeps : (dir : String) (host : Bool) → Keeps Fixed Allowed (mkdtemp env dir host)
  unfolding mkdtemp
  mkdtemp-Keeps dir true = search (calls, routine)
  mkdtemp-Keeps dir false = search (calls, routine)

  pub getrootdev-Keeps :
      (dir : String) (host : Bool) → Keeps Fixed Allowed (getrootdev env dir host)
  unfolding getrootdev
  getrootdev-Keeps dir host = search (calls, routine)

  pub get_btrfs_value-Keeps :
      (path key : String) (host : Bool) → Keeps Fixed Allowed (get_btrfs_value env path key host)
  unfolding get_btrfs_value
  get_btrfs_value-Keeps path key host = search (calls, routine)

  pub host_copyfile-Keeps :
      ((script : String) → Allowed (run_bash script))
      → (source dest : String)
      → ((script : String) → Allowed (write_file script (copy_script source dest)))
      → Keeps Fixed Allowed (host_copyfile env source dest)
  unfolding host_copyfile
  host_copyfile-Keeps bash source dest write = search (calls, routine, bash, write) depth 8

module _ {a : Btrfs} {Allowed : Command → Type 0} where
  pub set_message-Keeps : (text : String) → Keeps (SameSystem a) Allowed (set_message text)
  set_message-Keeps text = Keeps-modify _ (λ b k. record {
    rootdev = k.rootdev;
    rootfs = k.rootfs;
    next_rootfs = k.next_rootfs;
    bakup_mode = k.bakup_mode;
    kernel = k.kernel;
    kernel_md5 = k.kernel_md5;
  })

  pub add_message-Keeps : (text : String) → Keeps (SameSystem a) Allowed (add_message text)
  add_message-Keeps text = Keeps-modify _ (λ b k. record {
    rootdev = k.rootdev;
    rootfs = k.rootfs;
    next_rootfs = k.next_rootfs;
    bakup_mode = k.bakup_mode;
    kernel = k.kernel;
    kernel_md5 = k.kernel_md5;
  })

  pub mount_rootvolume-Keeps :
      (env : Env)
      → ((c : Command) → IsRoutine c → Allowed c)
      → (host : Bool) → Keeps (SameSystem a) Allowed (mount_rootvolume env host)
  unfolding mount_rootvolume
  mount_rootvolume-Keeps env routine host =
      search (calls, routine, path_exists-Keeps, mkdirhier-Keeps) depth 14

pub ruleset object_rules = (
  keeps_rules, system-Keeps, check_output-Keeps, popen_lines-Keeps, btrfs-Keeps, path_exists-Keeps,
  rmdir-Keeps, mkdtemp-Keeps, getrootdev-Keeps, get_btrfs_value-Keeps, host_copyfile-Keeps,
  mkdirhier-Keeps, set_message-Keeps, add_message-Keeps, mount_rootvolume-Keeps,
)
