-- ===== src/Btrfs/Machine/Invariant.antt =====
-- What holds all through the life of a machine.
use meta_overc.Base.{
  String, true, Option, none, some, [], ◌∷◌, ◌++◌, ◌≡◌, inl, inr, refl, sym, ap, ◌∙◌, All,
  format_option,
}
use meta_overc.Text.{◌/◌}
use meta_overc.System.{Env, Event, History, ran, btrfs_tool, set_default, show}
use meta_overc.Exec.{ok}
use meta_overc.Exec.Keeps.{Permits, Since}
use meta_overc.Exec.Cuts.{IsBetween, IsBetween-cases, IsBetween-start, Since-IsBetween}
use meta_overc.Utils.{sysroot}
use meta_overc.Btrfs.Atomic.{Sets}
use meta_overc.Btrfs.Safety.{Spares}
use meta_overc.Btrfs.Disk.{Disk}
use meta_overc.Btrfs.Machine.{
  Volume, Machine, Step, calls, boots, Becomes, as_it_is, later, IsRoot, CanBoot, IsSafe,
}
use meta_overc.Btrfs.Machine.Grows.{
  LeavesHost, Grows, as_before, by_event, by_switch, Grows-Extends,
}
use meta_overc.Btrfs.Machine.Passes.{attempt-Passes}

module _ {env : Env} {disk : Disk env} (volume : Volume disk) where
  named-Since :
      (name n : String) (base h : History)
      → Since (Spares name) base h
      → volume.named base name ≡ some n
      → volume.named h name ≡ some n
  named-Since name n base h (new, q, all) there = rw q (go new all)
    where
      go :
          (new : History)
          → All (Permits (Spares name)) new
          → volume.named (new ++ base) name ≡ some n
      go [] all' = there
      go (e ∷ rest) (a, all') = volume.stays (rest ++ base) e name n (go rest all') a

  same_default :
      (h : History) (e : Event) → Permits LeavesHost e → disk.default_of (e ∷ h) ≡ disk.default_of h
  same_default h (ran (btrfs_tool host (set_default id path))) other =
      volume.others h host id path other
  same_default h e a = disk.leaves h e tt

  -- An event that sets no default subvolume of the host
  CanBoot-more :
      (h : History) (e : Event) → Permits LeavesHost e → CanBoot volume h → CanBoot volume (e ∷ h)
  CanBoot-more h e a (name, root, there) =
      (name, root, volume.default_stays h e name there ∙ ap some (sym (same_default h e a)))

  -- The two commands that set a default subvolume
  CanBoot-Sets :
      (next : String) (mid h : History)
      → IsRoot next
      → Sets env next mid h
      → CanBoot volume mid
      → CanBoot volume h
  CanBoot-Sets next mid h root (id, q, e) can = rw q (go id shown)
    where
      path : String
      path = sysroot / next

      asked : History
      asked = ran (btrfs_tool true (show path)) ∷ mid

      shown : disk.number_of mid path ≡ id
      shown = ok_inj (sym (disk.shows mid path) ∙ e)
        where
          ok_inj : {a b : Option String} → ok a ≡ ok b → a ≡ b
          ok_inj p = cc

      go :
          (id : Option String)
          → disk.number_of mid path ≡ id
          → CanBoot volume (ran (btrfs_tool true (set_default (format_option id) sysroot)) ∷ asked)
      go none p =
          let (name, r, there) = CanBoot-more mid _ tt can in
          (
            name,
            r,
            volume.default_stays asked _ name there ∙ ap some (sym (volume.no_number asked)),
          )
      go (some n) p =
          let known = disk.show_changes_nothing mid path path ∙ p in
          (
            next,
            root,
            volume.stays asked _ next n (volume.seen asked next n known) tt
                ∙ ap some (sym (disk.sets asked path n known)),
          )

  whole : (next : String) (base h : History) → Grows env next base h → IsBetween base h h
  whole next base h g = (Grows-Extends base h g, ([], refl))

  CanBoot-between :
      (next : String) (base end h : History)
      → IsRoot next
      → Grows env next base end
      → IsBetween base end h
      → CanBoot volume base
      → CanBoot volume h
  CanBoot-between next base end h root as_before between can = rw (IsBetween-start between) can
  CanBoot-between next base (_ ∷ end) h root (by_event e a g) between can =
      let before = CanBoot-between next base end end root g (whole next base end g) can in
      elim (IsBetween-cases e between) [
        | inl q ↦ rw q (CanBoot-more end e a before)
        | inr earlier ↦ CanBoot-between next base end h root g earlier can
      ]
  CanBoot-between next base end h root (by_switch {mid} set g) between can =
      let before = CanBoot-between next base mid mid root g (whole next base mid g) can in
      elim (IsBetween-cases _ (rw set.1 at between)) [
        | inl q ↦ rw q (CanBoot-Sets next mid _ root (set.0, refl, set.2) before)
        | inr asked ↦ elim (IsBetween-cases _ asked) [
          | inl q ↦ rw q (CanBoot-more mid _ tt before)
          | inr earlier ↦ CanBoot-between next base mid h root g earlier can
        ]
      ]

Step-IsSafe : {m m' : Machine} → Step m m' → IsSafe m → IsSafe m'
Step-IsSafe (calls m op k between) safe =
    let (next, root, passes) = attempt-Passes m.env op m.history m.name safe.runs in
    record {
      runs = safe.runs;
      is_root = safe.is_root;
      is_there = (
        safe.is_there.0,
        named-Since m.volume m.name safe.is_there.0 m.history k
            (Since-IsBetween passes.spares between) safe.is_there.1,
      );
      can_boot =
          CanBoot-between m.volume next m.history _ k root passes.grows between safe.can_boot;
    }
Step-IsSafe (boots m m' booted) safe =
    let (name, root, there) = safe.can_boot in
    let here = booted.same_names m'.name ∙ booted.is_default in
    let same : m'.name ≡ name =
      m.volume.one_name m.history m'.name name _ booted.is_default there in
    record {
      runs = booted.runs;
      is_root = rw same root;
      is_there = (_, here);
      can_boot = (m'.name, rw same root, here ∙ ap some (sym booted.same_default));
    }

-- On a file system that behaves as documented, a machine that runs one of the two root file systems,
-- which is there, and whose default subvolume is one of them, which is there, too, stays such a
-- machine: through clean-ups, factory resets, upgrades and rollbacks, each by a new object, which end
-- in any way or are cut off between any two commands, and through boots of the default subvolume.
pub Becomes-IsSafe : {m m' : Machine} → Becomes m m' → IsSafe m → IsSafe m'
Becomes-IsSafe as_it_is safe = safe
Becomes-IsSafe (later before step) safe = Step-IsSafe step (Becomes-IsSafe before safe)
