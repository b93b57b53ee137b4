-- ===== src/Tests/Sound.antt =====
-- A machine on which the commands work as `IsSound` says.
use meta_overc.Base.{ℤ, pos, true, [], ◌∷◌, ◌≡◌, refl, inl, inr}
use meta_overc.Text.{lines, strip, split, split_on}
use meta_overc.Exec.{ok}
use meta_overc.Btrfs.Upgrade.{do_upgrade}
use meta_overc.Btrfs.Progress.{IsSound}
use meta_overc.Btrfs.Rollback.{do_rollback}
use meta_overc.Btrfs.Progress.Upgrade.{do_upgrade-true}
use meta_overc.Btrfs.Progress.Rollback.{HasOldKernel, do_rollback-true}
use meta_overc.Tests.{machine, agency}

pub machine-IsSound : (exists : ℤ) → IsSound (machine (pos 0) exists (pos 0))
unfolding lines strip split split_on
machine-IsSound exists = record {
  makes_dirs = λ path h. refl;
  makes_temp_dir = λ path h. refl;
  makes_script = λ path h. refl;
  writes_script = λ path text h. refl;
  sums = λ path h e. (refl, ("1f3a", refl));
  mounts =
      λ h. (inr ("/dev/sda2", "on", "/", "type" ∷ "btrfs" ∷ "(rw)" ∷ [], refl), (inl refl, tt));
  shows = λ path h. (
    inr (inr ("rootfs", refl, refl)),
    (
      inr (inl ("Name", " \t\trootfs", [], refl)),
      (inr (inl ("Subvolume ID", " \t258", [], refl)), (inl refl, tt)),
    ),
  );
}

do_upgrade-true_example : (do_upgrade (machine (pos 0) (pos 1) (pos 0)) agency []).0 ≡ ok true
do_upgrade-true_example =
    do_upgrade-true (machine (pos 0) (pos 1) (pos 0)) agency [] (machine-IsSound (pos 1))
      (record { installs = λ h. refl; finds_kernel = λ h. refl }) (inr ("77aa", refl)) refl
      (λ k. refl)

machine-HasOldKernel : HasOldKernel (machine (pos 0) (pos 0) (pos 0)) agency
unfolding split
machine-HasOldKernel = inl (λ h. refl, λ h. (refl, λ k. (refl, ("1f3a", refl))))

do_rollback-true_example : (do_rollback (machine (pos 0) (pos 0) (pos 0)) agency []).0 ≡ ok true
do_rollback-true_example =
    do_rollback-true (machine (pos 0) (pos 0) (pos 0)) agency [] (machine-IsSound (pos 0))
      machine-HasOldKernel (inr ("77aa", refl)) refl (λ k. refl)
