-- ===== src/Btrfs/Progress/Rollback.antt =====
-- When a rollback returns `True`.
use meta_overc.Base.{String, true, false, ◌<>◌, ◌⊎◌, ◌≡◌, ◌∙◌, inl, inr, refl, eq_iff}
use meta_overc.Text.{strip_newlines, ◌/◌}
use meta_overc.System.{Env, History, realpath, md5sum, test_exists, succeeded}
use meta_overc.Exec.{ok}
use meta_overc.Exec.Returns.{
  Returns, Returns-with, Returns-bind, Returns-get, Returns-pure, Returns-when, Returns-if,
  Returns-then, Returns-else, Returns-some, returns_rules,
}
use meta_overc.Utils.{sysroot}
use meta_overc.Utils.Returns.{
  system-Any, check_output-Output, Output, HasWord, compute_checksum-Returns,
}
use meta_overc.Btrfs.Object.{Btrfs}
use meta_overc.Btrfs.Object.Keeps.{SameSystem, unchanged}
use meta_overc.Btrfs.Ready.{HasSum}
use meta_overc.Btrfs.Rollback.{
  find_rollback_kernel, copy_kernel, rollback_kernel, rollback_grub, rollback_rootfs, do_rollback,
}
use meta_overc.Btrfs.Progress.{
  IsSound, Goes, set_message-Goes, add_message-Goes, path_exists-Returns, path_exists-Goes,
  host_copyfile-Goes, mount_rootvolume-Goes,
}
use meta_overc.Btrfs.Progress.Upgrade.{set_default_rootfs-Goes, ReturnsAt-true}

-- `md5sum` prints a checksum of the file.
abbrev HasChecksum : Env → String → Type 0
HasChecksum env path = (h : History) → Output HasWord (env.reply h (md5sum true path))

-- The kernel to go back to has a checksum: there is one in the other root file system, `realpath` prints
-- its path, and it has a checksum, or there is none, and the backup of the kernel has one.
abbrev pub HasOldKernel : Env → Btrfs → Type 0
HasOldKernel env b =
    let path = sysroot / b.next_rootfs / b.kernel in
    (((h : History) → succeeded (env.reply h (test_exists path)) ≡ true)
      × ((h : History)
          → Output (λ out. HasChecksum env (strip_newlines out))
              (env.reply h (realpath true path))))
    ⊎ (((h : History) → succeeded (env.reply h (test_exists path)) ≡ false)
        × HasChecksum env (b.kernel <> "_bakup"))

module _ (env : Env) (sound : IsSound env) (a : Btrfs) where
  -- The checksum of what is found
  find_rollback_kernel-Returns :
      HasOldKernel env a
      → Returns (SameSystem a) (HasChecksum env) (find_rollback_kernel env a.next_rootfs a.kernel)
  unfolding find_rollback_kernel
  find_rollback_kernel-Returns (inl (there, path)) =
      Returns-with (λ found. found ≡ true) _ _ (path_exists-Returns env sound a _ there)
        (λ found e. Returns-then _ _ _ e (
          Returns-with (λ out. HasChecksum env (strip_newlines out)) _ _
            (check_output-Output env _ path) (λ out q. Returns-pure _ q)))
  find_rollback_kernel-Returns (inr (gone, backup)) =
      Returns-with (λ found. found ≡ false) _ _ (path_exists-Returns env sound a _ gone)
        (λ found e. Returns-else _ _ _ e (Returns-pure _ backup))

  copy_kernel-Goes : (source kernel : String) → Goes env sound a (copy_kernel env source kernel)
  unfolding copy_kernel
  copy_kernel-Goes source kernel = search (returns_rules, system-Any, path_exists-Goes) depth 14

  rollback_grub-Goes : Goes env sound a (rollback_grub env)
  unfolding rollback_grub
  rollback_grub-Goes =
      search (returns_rules, path_exists-Goes, add_message-Goes, host_copyfile-Goes) depth 14

  rollback_kernel-Goes :
      HasOldKernel env a → HasSum a.kernel a.kernel_md5 → Goes env sound a (rollback_kernel env)
  unfolding rollback_kernel
  rollback_kernel-Goes old (inl e) = Returns-get _ (λ b p.
      Returns-then _ _ _ ((eq_iff b.kernel "").1 (p.kernel ∙ e)) (add_message-Goes env sound a _))
  rollback_kernel-Goes old (inr (sum, e)) = Returns-get _ (λ b p.
      Returns-if _ _ _ (add_message-Goes env sound a _) (
        Returns-with (HasChecksum env) _ _
          (rw (p.next_rootfs, p.kernel) (find_rollback_kernel-Returns old))
          (λ source sums. Returns-bind _ _ (compute_checksum-Returns env source true sums) (λ md5.
            Returns-bind _ _ (Returns-some _ _ sum (p.kernel_md5 ∙ e) tt)
              (λ old_md5. Returns-when _ _ (copy_kernel-Goes _ _))))))

  rollback_rootfs-succeeds :
      HasOldKernel env a
      → HasSum a.kernel a.kernel_md5
      → Returns (SameSystem a) (λ r. r ≡ true) (rollback_rootfs env)
  unfolding rollback_rootfs
  rollback_rootfs-succeeds old has_sum = Returns-bind _ _ (rollback_kernel-Goes old has_sum) (λ x.
      Returns-bind _ _ rollback_grub-Goes (λ y.
        Returns-bind _ _ (set_default_rootfs-Goes env sound a)
          (λ z. Returns-bind _ _ (set_message-Goes env sound a _) (λ w. Returns-pure true refl))))

  do_rollback-succeeds :
      HasOldKernel env a
      → HasSum a.kernel a.kernel_md5
      → a.bakup_mode ≡ false
      → ((h : History) → succeeded (env.reply h (test_exists (sysroot / a.next_rootfs))) ≡ true)
      → Returns (SameSystem a) (λ r. r ≡ true) (do_rollback env)
  unfolding do_rollback
  do_rollback-succeeds old has_sum normal there = Returns-get _ (λ b p.
      Returns-else _ _ _ (p.bakup_mode ∙ normal) (
        Returns-bind _ _ (mount_rootvolume-Goes env sound a) (λ x.
          Returns-with (λ found. found ≡ true) _ _
            (path_exists-Returns env sound a _ (λ h. rw p.next_rootfs (there h)))
            (λ found e. Returns-then _ _ _ e (rollback_rootfs-succeeds old has_sum)))))

-- Where the commands of the machine work as `IsSound` says, the kernel to go back to has a checksum, be
-- it that of the other root file system or, where that has none, the backup of the kernel, the machine
-- is not in the backup mode, the checksum of its kernel is known, and the tests find the other root
-- file system, `do_rollback` returns `True`: it never raises, and no branch of it refuses.
pub do_rollback-true :
    (env : Env) (b : Btrfs) (h : History)
    → IsSound env
    → HasOldKernel env b
    → HasSum b.kernel b.kernel_md5
    → b.bakup_mode ≡ false
    → ((k : History) → succeeded (env.reply k (test_exists (sysroot / b.next_rootfs))) ≡ true)
    → (do_rollback env b h).0 ≡ ok true
do_rollback-true env b h sound old has_sum normal there =
    ReturnsAt-true b _
      ((do_rollback-succeeds env sound b old has_sum normal there).at b h (unchanged b))
