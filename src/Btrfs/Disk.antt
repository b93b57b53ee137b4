-- ===== src/Btrfs/Disk.antt =====
-- What the agent relies on of btrfs and of the boot, and what an upgrade or a rollback then does to
-- the file system that is mounted at `/sysroot`.
pub mod Boot
use meta_overc.Base.{
  String, Bool, true, false, Option, none, some, List, [], ◌∷◌, ◌++◌, ◌≡◌, ◌≢◌, refl, sym, ap, ◌∙◌,
  All, format_option,
}
use meta_overc.Text.{lines, ◌/◌}
use meta_overc.System.{Command, Env, Event, History, ran, printed, btrfs_tool, set_default, show}
use meta_overc.Exec.{Outcome, Result, ok, raised}
use meta_overc.Exec.Keeps.{Permits, Since, Holds}
use meta_overc.Exec.Commits.{CommitsAt}
use meta_overc.Exec.Ensures.{Returned}
use meta_overc.Utils.{sysroot}
use meta_overc.Btrfs.Object.{Btrfs, find_value}
use meta_overc.Btrfs.Object.Keeps.{SameSystem}
use meta_overc.Btrfs.Activation.{Activates, do_upgrade-Activates, do_rollback-Activates}
use meta_overc.Btrfs.Safety.Operations.{do_upgrade-SameSystem, do_rollback-SameSystem}
use meta_overc.Btrfs.Atomic.{LeavesDefault, Sets, do_upgrade-CommitsAt, do_rollback-CommitsAt}
use meta_overc.Btrfs.Upgrade.{do_upgrade}
use meta_overc.Btrfs.Rollback.{do_rollback}

-- The documented behaviour of `btrfs subvolume`: the file system has a default subvolume, which only
-- `set-default` changes, which succeeds for the number of a subvolume, `show` prints the number of a subvolume, and neither of the two changes the
-- number of any. Two subvolumes have two numbers.
pub record Disk (env : Env) : Type 0 where
  pub default_of : History → String
  pub number_of : History → String → Option String
  pub shows :
      (h : History) (path : String)
      → find_value "Subvolume ID" (lines (env.reply h (btrfs_tool true (show path))).output)
        ≡ ok (number_of h path)
  pub sets :
      (h : History) (path n : String)
      → number_of h path ≡ some n
      → default_of (ran (btrfs_tool true (set_default n sysroot)) ∷ h) ≡ n
  pub leaves :
      (h : History) (e : Event) → Permits LeavesDefault e → default_of (e ∷ h) ≡ default_of h
  pub show_changes_nothing :
      (h : History) (path path' : String)
      → number_of (ran (btrfs_tool true (show path)) ∷ h) path' ≡ number_of h path'
  pub set_renumbers_nothing :
      (h : History) (n path : String)
      → number_of (ran (btrfs_tool true (set_default n sysroot)) ∷ h) path ≡ number_of h path
  pub differ :
      (h : History) (n : String)
      → number_of h (sysroot / "rootfs") ≡ some n
      → number_of h (sysroot / "rootfs_upgrade") ≢ some n

-- The number of a subvolume, if that is there
abbrev pub IsNumber : Option String → String → Type 0
IsNumber none d = Unit
IsNumber (some n) d = d ≡ n

IsNumber-some :
    (v : Option String) (d : String) → ((n : String) → v ≡ some n → d ≡ n) → IsNumber v d
IsNumber-some none d k = tt
IsNumber-some (some n) d k = k n refl

module _ {env : Env} (disk : Disk env) where
  open disk use {
    default_of, number_of, shows, sets, leaves, show_changes_nothing, set_renumbers_nothing,
  }

  default_of-Since :
      (base h : History) → Since LeavesDefault base h → default_of h ≡ default_of base
  default_of-Since base h (new, q, all) = ap default_of q ∙ go new all
    where
      go :
          (new : History)
          → All (Permits LeavesDefault) new
          → default_of (new ++ base) ≡ default_of base
      go [] all' = refl
      go (e ∷ rest) (a, all') = leaves (rest ++ base) e a ∙ go rest all'

  -- After the commands that activate the other root file system, that is the default.
  pub default_of-Activates :
      (b : Btrfs) (h : History) (n : String)
      → Activates env b h
      → number_of h (sysroot / b.next_rootfs) ≡ some n
      → default_of h ≡ n
  default_of-Activates b h n (before, id, q, e) there =
      let path = sysroot / b.next_rootfs in
      let same : number_of h path ≡ number_of before path =
        ap (λ k. number_of k path) q
        ∙ (set_renumbers_nothing _ _ path ∙ show_changes_nothing before path path) in
      let shown : ok (number_of before path) ≡ ok id = sym (shows before path) ∙ e in
      let known : number_of before path ≡ some n = sym same ∙ there in
      let id_known : id ≡ some n = cc in
      ap default_of q
      ∙ rw id_known (
          sets (ran (btrfs_tool true (show path)) ∷ before) path n
            (show_changes_nothing before path path ∙ known))

  -- The specification: by a run that returns `True`, the default subvolume is switched to the one at
  -- a path, where there is one at the end; any other run leaves it as it was before.
  abbrev pub Switches : String → History → Outcome Btrfs Bool → Type 0
  Switches path h (ok true, b, k) = IsNumber (number_of k path) (default_of k)
  Switches path h (ok false, b, k) = default_of k ≡ default_of h
  Switches path h (raised e, b, k) = default_of k ≡ default_of h

  switched :
      (path : String) (b : Btrfs) (h : History) (o : Outcome Btrfs Bool)
      → CommitsAt (SameSystem b) LeavesDefault (Sets env b.next_rootfs) h o
      → (o.0 ≡ ok true → (n : String) → number_of o.2 path ≡ some n → default_of o.2 ≡ n)
      → Switches path h o
  switched path b h (ok true, c, k) p q = IsNumber-some (number_of k path) _ (q refl)
  switched path b h (ok false, c, k) p q = default_of-Since h k p.1
  switched path b h (raised e, c, k) p q = default_of-Since h k p.1

  -- On a file system on which btrfs behaves as documented, `do_upgrade` switches the default
  -- subvolume to the other root file system, where there is one at the end, if it returns `True`, and
  -- leaves it as it was if it returns `False` or raises.
  pub do_upgrade-Switches :
      (b : Btrfs) (h : History) → Switches (sysroot / b.next_rootfs) h (do_upgrade env b h)
  do_upgrade-Switches b h =
      switched _ b h (do_upgrade env b h) (do_upgrade-CommitsAt env b h) (λ e n there.
        default_of-Activates (do_upgrade env b h).1 _ n (do_upgrade-Activates env b h e).1
          (rw (do_upgrade-SameSystem env b h).next_rootfs there))

  -- On a file system on which btrfs behaves as documented, `do_rollback` switches the default
  -- subvolume to the other root file system, where there is one at the end, if it returns `True`, and
  -- leaves it as it was if it returns `False` or raises.
  pub do_rollback-Switches :
      (b : Btrfs) (h : History) → Switches (sysroot / b.next_rootfs) h (do_rollback env b h)
  do_rollback-Switches b h =
      switched _ b h (do_rollback env b h) (do_rollback-CommitsAt env b h) (λ e n there.
        default_of-Activates (do_rollback env b h).1 _ n (do_rollback-Activates env b h e).1
          (rw (do_rollback-SameSystem env b h).next_rootfs there))
