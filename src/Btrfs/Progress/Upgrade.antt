-- ===== src/Btrfs/Progress/Upgrade.antt =====
-- When an upgrade returns `True`.
use meta_overc.Base.{
  String, pos, Bool, true, false, [], ◌∷◌, ◌≡◌, ap, ◌∙◌, inl, inr, refl, int_eq, eq_iff, Bool-cases,
}
use meta_overc.Text.{◌/◌}
use meta_overc.System.{Env, History, test_exists, chroot_upgrade, realpath, succeeded}
use meta_overc.Exec.{Outcome, ok, raised, ◌>>=◌}
use meta_overc.Exec.Returns.{
  Returns, ReturnsAt, Returns-with, Returns-bind, Returns-get, Returns-pure, Returns-when,
  Returns-if, Returns-then, Returns-else, Returns-some, returns_rules,
}
use meta_overc.Utils.{sysroot, factory_snapshot, check_output, compute_checksum}
use meta_overc.Utils.Returns.{Works, system-Returns, system-Any, check_output-Returns}
use meta_overc.Btrfs.Object.{Btrfs, path_exists}
use meta_overc.Btrfs.Object.Keeps.{SameSystem, unchanged}
use meta_overc.Btrfs.Ready.{HasSum}
use meta_overc.Btrfs.Upgrade.{
  take_snapshots, enter_rootfs, leave_rootfs, upgrade_packages, replace_kernel, upgrade_checksum,
  upgrade_kernel, upgrade_grub, set_default_rootfs, activate, upgrade_rootfs, do_upgrade_on,
  do_upgrade,
}
use meta_overc.Btrfs.Progress.{
  IsSound, Goes, set_message-Goes, add_message-Goes, path_exists-Returns, path_exists-Goes,
  mkdtemp-Goes, host_copyfile-Goes, btrfs-Goes, get_btrfs_value-Goes, mount_rootvolume-Goes,
  cleanup_subvol-Goes,
}

-- What an upgrade relies on besides: the package manager succeeds in the other root file system, and
-- `realpath` on the path of the kernel there, whose directory is there.
pub record CanInstall (env : Env) (b : Btrfs) : Type 0 where
  pub installs : Works env (chroot_upgrade true (sysroot / b.next_rootfs))
  pub finds_kernel : Works env (realpath true (sysroot / b.next_rootfs / b.kernel))

module _ (env : Env) (sound : IsSound env) (a : Btrfs) where
  take_snapshots-Goes : Goes env sound a (take_snapshots env true)
  unfolding take_snapshots
  take_snapshots-Goes = search (returns_rules, btrfs-Goes)

  enter_rootfs-Goes : (root : String) → Goes env sound a (enter_rootfs env true root)
  unfolding enter_rootfs
  enter_rootfs-Goes root =
      search (returns_rules, system-Any, mkdtemp-Goes, host_copyfile-Goes) depth 14

  leave_rootfs-Goes : (root tempd : String) → Goes env sound a (leave_rootfs env true root tempd)
  unfolding leave_rootfs
  leave_rootfs-Goes root tempd = search (returns_rules, system-Any, host_copyfile-Goes) depth 14

  upgrade_packages-succeeds :
      CanInstall env a
      → Returns (SameSystem a) (λ code. int_eq code (pos 0) ≡ true) (upgrade_packages env true)
  unfolding upgrade_packages
  upgrade_packages-succeeds can = Returns-get _ (λ b p.
      Returns-bind _ _ (enter_rootfs-Goes _) (λ tempd.
        let works : Works env (chroot_upgrade true (sysroot / b.next_rootfs)) =
          rw p.next_rootfs can.installs in
        Returns-with (λ code. int_eq code (pos 0) ≡ true) _ _ (system-Returns env _ works)
          (λ code e. Returns-bind _ _ (leave_rootfs-Goes _ tempd) (λ x. Returns-pure code e))))

  replace_kernel-Goes :
      (kernel new : String) → Goes env sound a (replace_kernel env true kernel new)
  unfolding replace_kernel
  replace_kernel-Goes kernel new = search (returns_rules, system-Any, path_exists-Goes) depth 14

  upgrade_checksum-Goes : (kernel : String) → Goes env sound a (upgrade_checksum env true kernel)
  unfolding upgrade_checksum path_exists check_output compute_checksum ◌>>=◌
  upgrade_checksum-Goes kernel = record {
    at = λ b h p. elim (Bool-cases (succeeded (env.reply h (test_exists kernel)))) [
      | inl e ↦ let (z, (w, q)) = sound.sums kernel h e in rw (e, z, q) (p, tt)
      | inr n ↦ rw n (p, tt)
    ];
  }

  upgrade_grub-Goes : Goes env sound a (upgrade_grub env true)
  unfolding upgrade_grub
  upgrade_grub-Goes =
      search (returns_rules, system-Any, path_exists-Goes, add_message-Goes) depth 14

  pub set_default_rootfs-Goes : Goes env sound a (set_default_rootfs env true)
  unfolding set_default_rootfs
  set_default_rootfs-Goes = search (returns_rules, get_btrfs_value-Goes, btrfs-Goes)

  upgrade_kernel-Goes :
      CanInstall env a → HasSum a.kernel a.kernel_md5 → Goes env sound a (upgrade_kernel env true)
  unfolding upgrade_kernel
  upgrade_kernel-Goes can (inl e) = Returns-get _ (λ b p.
      Returns-then _ _ _ ((eq_iff b.kernel "").1 (p.kernel ∙ e)) (add_message-Goes env sound a _))
  upgrade_kernel-Goes can (inr (sum, e)) = Returns-get _ (λ b p.
      let works : Works env (realpath true (sysroot / b.next_rootfs / b.kernel)) =
        rw (p.next_rootfs, p.kernel) can.finds_kernel in
      Returns-if _ _ _ (add_message-Goes env sound a _) (
        Returns-bind _ _ (check_output-Returns env _ works) (λ out.
          Returns-bind _ _ (upgrade_checksum-Goes _) (λ md5. Returns-if _ _ _ (Returns-pure tt tt) (
            Returns-bind _ _ (Returns-some _ _ sum (p.kernel_md5 ∙ e) tt)
              (λ old. Returns-when _ _ (replace_kernel-Goes _ _)))))))

  module _ (can : CanInstall env a) (has_sum : HasSum a.kernel a.kernel_md5) where
    activate-succeeds : Returns (SameSystem a) (λ r. r ≡ true) (activate env true)
    unfolding activate
    activate-succeeds = Returns-bind _ _ (upgrade_kernel-Goes can has_sum) (λ x.
        Returns-bind _ _ upgrade_grub-Goes (λ y.
          Returns-bind _ _ set_default_rootfs-Goes
            (λ z. Returns-bind _ _ (set_message-Goes env sound a _) (λ w. Returns-pure true refl))))

    upgrade_rootfs-succeeds : Returns (SameSystem a) (λ r. r ≡ true) (upgrade_rootfs env true)
    unfolding upgrade_rootfs
    upgrade_rootfs-succeeds = Returns-bind _ _ take_snapshots-Goes (λ x.
        Returns-with (λ code. int_eq code (pos 0) ≡ true) _ _ (upgrade_packages-succeeds can)
          (λ code e. Returns-then _ _ _ e activate-succeeds))

    pub do_upgrade-succeeds :
        a.bakup_mode ≡ false
        → ((h : History) → succeeded (env.reply h (test_exists (sysroot / a.next_rootfs))) ≡ false)
        → Returns (SameSystem a) (λ r. r ≡ true) (do_upgrade env)
    unfolding do_upgrade do_upgrade_on
    do_upgrade-succeeds normal gone = Returns-bind _ _ (mount_rootvolume-Goes env sound a) (λ x.
        Returns-bind _ _ (cleanup_subvol-Goes env sound a sysroot (factory_snapshot ∷ [])) (λ y.
          Returns-get _ (λ b p.
            Returns-with (λ stale. stale ≡ false) _ _
              (path_exists-Returns env sound a _ (λ h. rw p.next_rootfs (gone h)))
              (λ stale e.
                Returns-else _ _ _ e
                  (Returns-else _ _ _ (p.bakup_mode ∙ normal) upgrade_rootfs-succeeds)))))

pub ReturnsAt-true :
    (a : Btrfs) (o : Outcome Btrfs Bool)
    → ReturnsAt (SameSystem a) (λ r. r ≡ true) o
    → o.0 ≡ ok true
ReturnsAt-true a (ok r, b, h) (p, e) = ap ok e
ReturnsAt-true a (raised x, b, h) r = absurd r

-- Where the commands of the machine work as `IsSound` says, the package manager succeeds in the other
-- root file system and `realpath` on the path of the kernel there, the machine is not in the backup
-- mode, the checksum of its kernel is known, and the tests find no other root file system after the
-- clean-up, `do_upgrade` returns `True`: it never raises, and no branch of it refuses.
pub do_upgrade-true :
    (env : Env) (b : Btrfs) (h : History)
    → IsSound env
    → CanInstall env b
    → HasSum b.kernel b.kernel_md5
    → b.bakup_mode ≡ false
    → ((k : History) → succeeded (env.reply k (test_exists (sysroot / b.next_rootfs))) ≡ false)
    → (do_upgrade env b h).0 ≡ ok true
do_upgrade-true env b h sound can has_sum normal gone =
    ReturnsAt-true b _
      ((do_upgrade-succeeds env sound b can has_sum normal gone).at b h (unchanged b))
