-- ===== src/Btrfs/Progress.antt =====
-- What the back end relies on of the commands of a machine, and the small methods that then return.
pub mod Upgrade
pub mod Rollback
pub mod FactoryReset
use meta_overc.Base.{
  String, ◌<>◌, ℤ, pos, Bool, true, false, not, ◌&&◌, Option, none, some, List, [], ◌∷◌, ◌==◌, ◌≡◌,
  ◌⊎◌, inl, inr, refl, All, int_eq, Bool-cases, if◌then◌else◌, eq_iff, contains,
}
use meta_overc.Text.{lines, strip, split, split_on, ◌/◌}
use meta_overc.System.{
  BtrfsArgs, Command, Env, History, btrfs_tool, show, mount_table, make_dirs, make_temp_dir,
  tempfile_mkstemp, write_file, test_exists, md5sum, succeeded, ran,
}
use meta_overc.Exec.{Exec, Error, Result, ok, raised, called_process, recover, pure, ◌>>=◌, ◌>>◌}
use meta_overc.Exec.Returns.{
  Any, Returns, ReturnsAt, Returns-with, Returns-bind, Returns-get, Returns-pure, Returns-modify,
  Returns-when, Returns-if, Returns-then, Returns-else, Returns-some, Returns-ok, returns_rules,
}
use meta_overc.Utils.{check_output, sysroot, factory_snapshot}
use meta_overc.Utils.Returns.{
  Works, Output, HasWord, system-Returns, system-Any, check_output-Returns, os_call-Returns,
  popen_lines-Returns, compute_checksum-Returns,
}
use meta_overc.Btrfs.Object.{
  Btrfs, set_message, add_message, is_root_volume, need_mount, value_of, find_value, path_exists,
  mkdirhier, mkdtemp, host_copyfile, btrfs, get_btrfs_value, mount_rootvolume,
}
use meta_overc.Btrfs.Object.Keeps.{SameSystem, unchanged}
use meta_overc.Btrfs.Ready.{HasSum}
use meta_overc.Btrfs.Cleanup.{cleanup_subvol}
use meta_overc.Btrfs.Cleanup.Exact.{cleanup_subvol-deletes}
use meta_overc.Btrfs.Upgrade.{
  take_snapshots, enter_rootfs, leave_rootfs, upgrade_packages, replace_kernel, upgrade_checksum,
  upgrade_kernel, upgrade_grub, set_default_rootfs, activate, upgrade_rootfs, do_upgrade_on,
  do_upgrade,
}

-- A line that is blank, or a line of the mount table: it has at least three words.
abbrev pub IsMount : String → Type 0
IsMount line =
    (strip line == "" ≡ true)
    ⊎ ((dev kind target : String) × (ws : List String) × (split (strip line)
          ≡ dev ∷ kind ∷ target ∷ ws))

-- A line that is blank or has a colon, or a line without a colon that is not the key
abbrev pub IsReadable : String → String → Type 0
IsReadable key line =
    (strip line == "" ≡ true)
    ⊎ (((word value : String) × (rest : List String) × (split_on b':' (strip line)
            ≡ word ∷ value ∷ rest))
        ⊎ ((word : String) × (split_on b':' (strip line) ≡ word ∷ [])
            × (strip word == key ≡ false)))

-- What every operation relies on of the commands of the machine: directories and temporary files can
-- be made, and texts be written into them; a file that has just been found has a checksum; the lines
-- of the mount table have three words; and no line of `btrfs subvolume show` is just the words
-- `Subvolume ID`.
pub record IsSound (env : Env) : Type 0 where
  pub makes_dirs : (path : String) → Works env (make_dirs path)
  pub makes_temp_dir : (path : String) → Works env (make_temp_dir path)
  pub makes_script : (path : String) → Works env (tempfile_mkstemp path)
  pub writes_script : (path text : String) → Works env (write_file path text)
  pub sums :
      (path : String) (h : History)
      → succeeded (env.reply h (test_exists path)) ≡ true
      → Output HasWord (env.reply (ran (test_exists path) ∷ h) (md5sum true path))
  pub mounts : (h : History) → All IsMount (lines (env.reply h (mount_table true)).output)
  pub shows :
      (path : String) (h : History)
      → All (IsReadable "Subvolume ID") (lines (env.reply h (btrfs_tool true (show path))).output)

-- A computation that does not raise
abbrev pub IsOk : {A : Type 0} → Result A → Type 0
IsOk {A} r = (a : A) × (r ≡ ok a)

pub if-IsOk :
    {A : Type 0} (b : Bool) (r r' : Result A) → IsOk r → IsOk r' → IsOk (if b then r else r')
if-IsOk true r r' p q = p
if-IsOk false r r' p q = q

need_mount-IsOk :
    (rootdev : String) (ls : List String) → All IsMount ls → IsOk (need_mount rootdev ls)
unfolding need_mount is_root_volume
need_mount-IsOk rootdev [] all = (true, refl)
need_mount-IsOk rootdev (l ∷ ls) (inl blank, all) = (true, rw blank refl)
need_mount-IsOk rootdev (l ∷ ls) (inr (dev, kind, target, ws, e), all) =
    if-IsOk (strip l == "") _ _ (true, refl)
      (rw e (if-IsOk _ _ _ (false, refl) (need_mount-IsOk rootdev ls all)))

find_value-IsOk :
    (key : String) (ls : List String) → All (IsReadable key) ls → IsOk (find_value key ls)
unfolding find_value value_of
find_value-IsOk key [] all = (none, refl)
find_value-IsOk key (l ∷ ls) (inl blank, all) = (none, rw blank refl)
find_value-IsOk key (l ∷ ls) (inr (inr (k, e, ne)), all) =
    if-IsOk (strip l == "") _ _ (none, refl) (rw (e, ne) (find_value-IsOk key ls all))
find_value-IsOk key (l ∷ ls) (inr (inl (k, v, rest, e)), all) =
    if-IsOk (strip l == "") _ _ (none, refl)
      (rw e (if-IsOk _ _ _ (some (strip v), refl) (find_value-IsOk key ls all)))

module _ (env : Env) (sound : IsSound env) (a : Btrfs) where
  abbrev pub Goes : {A : Type 0} → Exec Btrfs A → Type 0
  Goes m = Returns (SameSystem a) Any m

  pub set_message-Goes : (text : String) → Goes (set_message text)
  set_message-Goes text = Returns-modify _ (λ b k. record {
    rootdev = k.rootdev;
    rootfs = k.rootfs;
    next_rootfs = k.next_rootfs;
    bakup_mode = k.bakup_mode;
    kernel = k.kernel;
    kernel_md5 = k.kernel_md5;
  })

  pub add_message-Goes : (text : String) → Goes (add_message text)
  add_message-Goes text = Returns-modify _ (λ b k. record {
    rootdev = k.rootdev;
    rootfs = k.rootfs;
    next_rootfs = k.next_rootfs;
    bakup_mode = k.bakup_mode;
    kernel = k.kernel;
    kernel_md5 = k.kernel_md5;
  })

  -- The answer is that of the test.
  pub path_exists-Returns :
      (path : String) {Q : Bool → Type 0}
      → ((h : History) → Q (succeeded (env.reply h (test_exists path))))
      → Returns (SameSystem a) Q (path_exists env path true)
  unfolding path_exists check_output ◌>>=◌
  path_exists-Returns path {Q} k = record {
    at = λ b h p. elim (Bool-cases (succeeded (env.reply h (test_exists path)))) [
      | inl e ↦ rw e (p, rw (← e) (k h))
      | inr n ↦ rw n (p, rw (← n) (k h))
    ];
  }

  pub path_exists-Goes : (path : String) → Goes (path_exists env path true)
  path_exists-Goes path = path_exists-Returns path (λ h. tt)

  pub mkdirhier-Goes : (path : String) → Goes (mkdirhier env path true)
  unfolding mkdirhier
  mkdirhier-Goes path =
      Returns-bind _ _ (check_output-Returns env _ (sound.makes_dirs path))
        (λ x. Returns-pure tt tt)

  pub mkdtemp-Goes : (path : String) → Goes (mkdtemp env path true)
  unfolding mkdtemp
  mkdtemp-Goes path =
      Returns-bind _ _ (check_output-Returns env _ (sound.makes_temp_dir path))
        (λ x. Returns-pure _ tt)

  pub host_copyfile-Goes : (source dest : String) → Goes (host_copyfile env source dest)
  unfolding host_copyfile
  host_copyfile-Goes source dest =
      Returns-bind _ _ (os_call-Returns env _ (sound.makes_script _)) (λ script.
        Returns-bind _ _ (os_call-Returns env _ (sound.writes_script _ _))
          (λ x. search (returns_rules, system-Any)))

  pub btrfs-Goes : (args : BtrfsArgs) → Goes (btrfs env args true)
  unfolding btrfs
  btrfs-Goes args = system-Any env _

  pub get_btrfs_value-Goes : (path : String) → Goes (get_btrfs_value env path "Subvolume ID" true)
  unfolding get_btrfs_value
  get_btrfs_value-Goes path =
      Returns-with (All (IsReadable "Subvolume ID")) _ _
        (popen_lines-Returns env _ (sound.shows path))
        (λ ls all. let (v, e) = find_value-IsOk "Subvolume ID" ls all in Returns-ok _ v e tt)

  pub mount_rootvolume-Goes : Goes (mount_rootvolume env true)
  unfolding mount_rootvolume
  mount_rootvolume-Goes = Returns-bind _ _ (path_exists-Goes _) (λ there.
      Returns-bind _ _ (Returns-when _ _ (mkdirhier-Goes _)) (λ x.
        Returns-with (All IsMount) _ _ (popen_lines-Returns env _ sound.mounts) (λ ls all.
          Returns-get _ (λ b p.
            let (need, e) = need_mount-IsOk b.rootdev ls all in
            Returns-bind _ _ (Returns-ok _ need e tt)
              (λ need'. Returns-when _ _ (search (returns_rules, system-Any)))))))

  pub cleanup_subvol-Goes :
      (dir : String) (exclude : List String) → Goes (cleanup_subvol env dir exclude true)
  cleanup_subvol-Goes dir exclude = record {
    at = λ b h p. rw (cleanup_subvol-deletes env dir exclude true b h) (p, tt);
  }
