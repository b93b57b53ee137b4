-- ===== src/Btrfs/Progress/FactoryReset.antt =====
-- When a factory reset succeeds.
use mathlib.Core.List.{[], ◌∷◌}
use meta_overc.Base.{
  ℕ, zero, suc, String, pos, Bool, true, false, not, none, some, List, ◌≡◌, ◌==◌, inl, inr, refl,
  ap, All, int_eq, Bool-cases, eq_iff,
}
use meta_overc.Text.{strip, split, ◌/◌}
use meta_overc.Text.Laws.{HasPart, strip-BeginsWell, split-HasPart}
use meta_overc.System.{
  BtrfsArgs, Env, History, btrfs_tool, snapshot, set_default, test_exists, remove_dir, realpath,
  succeeded,
}
use meta_overc.Exec.{Exec, ok}
use meta_overc.Exec.Returns.{
  Returns, Returns-with, Returns-bind, Returns-get, Returns-pure, Returns-when, Returns-if,
  Returns-then, Returns-else, Returns-ok, Returns-ask, returns_rules,
}
use meta_overc.Utils.{sysroot, factory_snapshot, container_mount, random_str}
use meta_overc.Utils.Returns.{
  Works, system-Returns, system-Any, check_output-Returns, popen_lines-Returns,
}
use meta_overc.Btrfs.Object.{Btrfs, mounted_at, find_rootdev, getrootdev, rmdir, btrfs}
use meta_overc.Btrfs.Object.Keeps.{SameSystem, unchanged}
use meta_overc.Btrfs.Cleanup.{last_word, mount_container_root}
use meta_overc.Btrfs.FactoryReset.{
  last_of, container_tmp, reset_kernel, reset_grub, activate_factory, factory_reset_essential,
  reset_child, reset_children, set_default_container, factory_reset_container, factory_reset,
}
use meta_overc.Btrfs.Progress.{
  IsMount, IsSound, Goes, add_message-Goes, path_exists-Returns, path_exists-Goes, mkdirhier-Goes,
  host_copyfile-Goes, btrfs-Goes, get_btrfs_value-Goes, mount_rootvolume-Goes, cleanup_subvol-Goes,
  if-IsOk, IsOk,
}
use meta_overc.Btrfs.Progress.Upgrade.{ReturnsAt-true}

-- What a factory reset relies on besides: the factory kernel has a path; the snapshots of the factory
-- state and of its children succeed, and so do the commands that set a default subvolume; a
-- directory that is in the way of a snapshot is empty; and the containers have a factory snapshot.
pub record CanReset (env : Env) (b : Btrfs) : Type 0 where
  pub sound : IsSound env
  pub finds_kernel : Works env (realpath true (sysroot / factory_snapshot / b.kernel))
  pub snapshots_host :
      Works env (btrfs_tool true (snapshot (sysroot / factory_snapshot) (sysroot / b.next_rootfs)))
  pub snapshots_containers :
      (source target : String)
      → Works env (btrfs_tool true (snapshot (container_tmp / source) target))
  pub sets_host : (id : String) → Works env (btrfs_tool true (set_default id sysroot))
  pub sets_containers : (id : String) → Works env (btrfs_tool true (set_default id container_mount))
  pub removes_dir : (path : String) → Works env (remove_dir path)
  pub has_factory : Works env (test_exists (container_tmp / factory_snapshot))

find_rootdev-IsOk : (dir : String) (ls : List String) → All IsMount ls → IsOk (find_rootdev dir ls)
unfolding find_rootdev mounted_at
find_rootdev-IsOk dir [] all = (none, refl)
find_rootdev-IsOk dir (l ∷ ls) (inl blank, all) = (none, rw blank refl)
find_rootdev-IsOk dir (l ∷ ls) (inr (dev, kind, target, ws, e), all) =
    if-IsOk (strip l == "") _ _ (none, refl)
      (rw e (if-IsOk _ _ _ (some dev, refl) (find_rootdev-IsOk dir ls all)))

-- A line that is not blank has a word.
strip-HasPart : (l : String) → (strip l == "") ≡ false → HasPart (split (strip l))
strip-HasPart l ne = elim (strip-BeginsWell l) [
  | inl e ↦ let blank = (eq_iff (strip l) "").1 e in absurd (cc)
  | inr (c, t, e, ne') ↦ rw e (split-HasPart c t ne')
]

module _ (env : Env) (a : Btrfs) (can : CanReset env a) where
  abbrev Succeeds : Exec Btrfs Bool → Type 0
  Succeeds m = Returns (SameSystem a) (λ r. r ≡ true) m

  random_str-Goes : (size : ℕ) → Goes env can.sound a (random_str env size)
  unfolding random_str
  random_str-Goes zero = Returns-pure _ tt
  random_str-Goes (suc size) =
      Returns-bind _ _ (Returns-ask env _ (λ h. tt))
        (λ r. Returns-bind _ _ (random_str-Goes size) (λ rest. Returns-pure _ tt))

  rmdir-Goes : (path : String) → Goes env can.sound a (rmdir env path true)
  unfolding rmdir
  rmdir-Goes path =
      Returns-bind _ _ (check_output-Returns env _ (can.removes_dir path)) (λ x. Returns-pure tt tt)

  mount_container_root-Goes : Goes env can.sound a (mount_container_root env true)
  unfolding mount_container_root getrootdev
  mount_container_root-Goes = Returns-bind _ _ (path_exists-Goes env can.sound a _) (λ there.
      Returns-bind _ _ (Returns-when _ _ (mkdirhier-Goes env can.sound a _)) (λ x.
        Returns-bind _ _
          (Returns-with (All IsMount) _ _ (popen_lines-Returns env _ can.sound.mounts)
            (λ ls all. let (dev, e) = find_rootdev-IsOk _ ls all in Returns-ok _ dev e tt))
          (λ dev. search (returns_rules, system-Any))))

  reset_kernel-Goes : Goes env can.sound a (reset_kernel env)
  unfolding reset_kernel
  reset_kernel-Goes = Returns-get _ (λ b p.
      let works : Works env (realpath true (sysroot / factory_snapshot / b.kernel)) =
        rw p.kernel can.finds_kernel in
      Returns-if _ _ _ (add_message-Goes env can.sound a _) (
        Returns-bind _ _ (add_message-Goes env can.sound a _) (λ x.
          Returns-bind _ _ (check_output-Returns env _ works)
            (λ out. search (returns_rules, system-Any, path_exists-Goes) depth 14))))

  reset_grub-Goes : Goes env can.sound a (reset_grub env)
  unfolding reset_grub
  reset_grub-Goes =
      search (returns_rules, path_exists-Goes, add_message-Goes, host_copyfile-Goes) depth 14

  -- The status of a command that works
  btrfs-Works :
      (c : BtrfsArgs)
      → Works env (btrfs_tool true c)
      → Returns (SameSystem a) (λ code. int_eq code (pos 0) ≡ true) (btrfs env c true)
  unfolding btrfs
  btrfs-Works c works = system-Returns env _ works

  activate_factory-Succeeds : Succeeds (activate_factory env)
  unfolding activate_factory
  activate_factory-Succeeds = Returns-get _ (λ b p.
      Returns-bind _ _ (btrfs-Goes env can.sound a _) (λ x.
        Returns-bind _ _ (get_btrfs_value-Goes env can.sound a _) (λ id.
          Returns-with (λ code. int_eq code (pos 0) ≡ true) _ _ (btrfs-Works _ (can.sets_host _))
            (λ code e. Returns-then _ _ _ e (
              Returns-bind _ _ reset_kernel-Goes
                (λ y. Returns-bind _ _ reset_grub-Goes (λ z. Returns-pure true refl)))))))

  essential-Succeeds :
      ((h : History) → succeeded (env.reply h (test_exists (sysroot / a.next_rootfs))) ≡ false)
      → Succeeds (factory_reset_essential env)
  unfolding factory_reset_essential
  essential-Succeeds gone = Returns-bind _ _ (mount_rootvolume-Goes env can.sound a) (λ x.
      Returns-bind _ _ (cleanup_subvol-Goes env can.sound a sysroot (factory_snapshot ∷ [])) (λ y.
        Returns-get _ (λ b p.
          Returns-with (λ stale. stale ≡ false) _ _
            (path_exists-Returns env can.sound a _ (λ h. rw p.next_rootfs (gone h)))
            (λ stale e. Returns-else _ _ _ e (
              let works : Works env (
                  btrfs_tool true
                    (snapshot (sysroot / factory_snapshot) (sysroot / b.next_rootfs))) =
                rw p.next_rootfs can.snapshots_host in
              Returns-with (λ code. int_eq code (pos 0) ≡ true) _ _ (btrfs-Works _ works)
                (λ code d. Returns-then _ _ _ d activate_factory-Succeeds))))))

  reset_child-Succeeds : (workdir child : String) → Succeeds (reset_child env workdir child)
  unfolding reset_child
  reset_child-Succeeds workdir child =
      Returns-bind _ _ (path_exists-Goes env can.sound a _) (λ there.
        Returns-bind _ _ (Returns-when _ _ (rmdir-Goes _)) (λ x.
          Returns-with (λ code. int_eq code (pos 0) ≡ true) _ _
            (btrfs-Works (snapshot (container_tmp / child) _) (can.snapshots_containers child _))
            (λ code e. Returns-then _ _ _ e (Returns-pure true refl))))

  reset_children-Succeeds :
      (workdir : String) (ls : List String) → Succeeds (reset_children env workdir ls)
  unfolding reset_children
  reset_children-Succeeds workdir [] = Returns-pure true refl
  reset_children-Succeeds workdir (l ∷ ls) = elim (Bool-cases (strip l == "")) [
    | inl e ↦ Returns-then _ _ _ e (Returns-pure true refl)
    | inr ne ↦
        let (w, ws, q) = strip-HasPart l ne in
        Returns-else _ _ _ ne (
          Returns-bind _ _ (Returns-ok (last_of (split (strip l))) (last_word w ws) (rw q refl) tt)
            (λ child.
              Returns-with (λ done. done ≡ true) _ _ (reset_child-Succeeds workdir child)
                (λ done d. Returns-then _ _ _ d (reset_children-Succeeds workdir ls))))
  ]

  set_default_container-Succeeds : (workdir : String) → Succeeds (set_default_container env workdir)
  unfolding set_default_container
  set_default_container-Succeeds workdir =
      Returns-bind _ _ (get_btrfs_value-Goes env can.sound a _) (λ id.
        Returns-with (λ code. int_eq code (pos 0) ≡ true) _ _
          (btrfs-Works _ (can.sets_containers _))
          (λ code e.
            Returns-then _ _ _ e
              (Returns-bind _ _ (system-Any env _) (λ x. Returns-pure true refl))))

  container-Succeeds : Succeeds (factory_reset_container env)
  unfolding factory_reset_container
  container-Succeeds = Returns-bind _ _ mount_container_root-Goes (λ x.
      Returns-with (λ there. there ≡ true) _ _
        (path_exists-Returns env can.sound a _ can.has_factory)
        (λ there e. Returns-else _ _ _ (ap not e) (
          Returns-bind _ _ (random_str-Goes 6) (λ work.
            Returns-with (λ code. int_eq code (pos 0) ≡ true) _ _
              (btrfs-Works (snapshot (container_tmp / factory_snapshot) (container_tmp / work))
                (can.snapshots_containers factory_snapshot _))
              (λ code d. Returns-else _ _ _ (ap not d) (
                Returns-bind _ _ (popen_lines-Returns env _ (λ h. tt)) (λ ls.
                  Returns-with (λ done. done ≡ true) _ _ (reset_children-Succeeds _ ls)
                    (λ done t. Returns-then _ _ _ t (set_default_container-Succeeds _)))))))))

  factory_reset-Succeeds :
      ((h : History) → succeeded (env.reply h (test_exists (sysroot / a.next_rootfs))) ≡ false)
      → Succeeds (factory_reset env)
  unfolding factory_reset
  factory_reset-Succeeds gone =
      Returns-with (λ done. done ≡ true) _ _ (essential-Succeeds gone)
        (λ done e. Returns-then _ _ _ e container-Succeeds)

-- Where the commands of the machine work as `IsSound` says, the factory kernel has a path, no snapshot of
-- the factory state, no setting of a default and no removal of a directory in the way fails, the
-- containers have a factory snapshot, and the tests find no other root file system after the clean-up, `factory_reset` returns `True`: it never raises, and no branch
-- of it refuses.
pub factory_reset-true :
    (env : Env) (b : Btrfs) (h : History)
    → CanReset env b
    → ((k : History) → succeeded (env.reply k (test_exists (sysroot / b.next_rootfs))) ≡ false)
    → (factory_reset env b h).0 ≡ ok true
factory_reset-true env b h can gone =
    ReturnsAt-true b _ ((factory_reset-Succeeds env b can gone).at b h (unchanged b))
