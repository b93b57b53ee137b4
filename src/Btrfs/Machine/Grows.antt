-- ===== src/Btrfs/Machine/Grows.antt =====
-- How the operations of the back end make the history of a machine grow: by commands that leave the
-- default subvolume of the host alone, and by pairs of commands that set it to the other root file
-- system.
use meta_overc.Base.{
  String, Bool, true, false, [], ◌∷◌, ◌++◌, ◌≢◌, refl, ap, ◌∙◌, All, format_option, if◌then◌else◌,
}
use meta_overc.Text.{◌/◌}
use meta_overc.System.{
  Command, Env, Event, History, ran, btrfs_tool, set_default, show, IsOrdinary, IsRoutine,
  routine-IsOrdinary,
}
use meta_overc.Exec.{Exec, Outcome, ok, raised, continue, get, ◌>>=◌}
use meta_overc.Exec.Keeps.{Permits, Since, Since-start, Keeps}
use meta_overc.Exec.Cuts.{Extends}
use meta_overc.Utils.{sysroot}
use meta_overc.Btrfs.Object.{Btrfs}
use meta_overc.Btrfs.Object.Keeps.{SameSystem}
use meta_overc.Btrfs.Atomic.{LeavesDefault, Sets}

-- A command that does not set the default subvolume of the host. That of the containers may be set.
abbrev pub LeavesHost : Command → Type 0
LeavesHost (btrfs_tool host (set_default id path)) = path ≢ sysroot
LeavesHost _ = Unit

pub LeavesHost-ordinary : (c : Command) → IsOrdinary c → LeavesHost c
LeavesHost-ordinary (btrfs_tool host (set_default id path)) r = absurd r
LeavesHost-ordinary _ r = tt

pub LeavesHost-routine : (c : Command) → IsRoutine c → LeavesHost c
LeavesHost-routine c r = LeavesHost-ordinary c (routine-IsOrdinary c r)

Permits-LeavesHost : (e : Event) → Permits LeavesDefault e → Permits LeavesHost e
Permits-LeavesHost (ran (btrfs_tool host (set_default id path))) r = absurd r
Permits-LeavesHost _ r = tt

pub data Grows (env : Env) (next : String) (base : History) : History → Type 0 where
  as_before : Grows env next base base
  by_event :
      {h : History} (e : Event)
      → Permits LeavesHost e
      → Grows env next base h
      → Grows env next base (e ∷ h)
  by_switch :
      {mid h : History} → Sets env next mid h → Grows env next base mid → Grows env next base h

module _ {env : Env} {next : String} where
  pub Grows-Extends : (base h : History) → Grows env next base h → Extends base h
  Grows-Extends base h as_before = ([], refl)
  Grows-Extends base h (by_event {h = k} e a g) =
      let (new, q) = Grows-Extends base k g in (e ∷ new, ap (λ l. e ∷ l) q)
  Grows-Extends base h (by_switch {mid = mid} (id, q, e) g) =
      let (new, r) = Grows-Extends base mid g in
      let two : History =
        ran (btrfs_tool true (set_default (format_option id) sysroot))
        ∷ ran (btrfs_tool true (show (sysroot / next)))
        ∷ [] in
      (two ++ new, q ∙ ap (λ l. two ++ l) r)

  Grows-Since :
      (base mid h : History)
      → Grows env next base mid
      → Since LeavesHost mid h
      → Grows env next base h
  Grows-Since base mid h g (new, q, all) = rw q (go new all)
    where
      go : (new : History) → All (Permits LeavesHost) new → Grows env next base (new ++ mid)
      go [] all' = g
      go (e ∷ rest) (a, all') = by_event e a (go rest all')

  pub Grows-LeavesDefault : (base h : History) → Since LeavesDefault base h → Grows env next base h
  Grows-LeavesDefault base h (new, q, all) = rw q (go new all)
    where
      go : (new : History) → All (Permits LeavesDefault) new → Grows env next base (new ++ base)
      go [] all' = as_before
      go (e ∷ rest) (a, all') = by_event e (Permits-LeavesHost e a) (go rest all')

module _ (env : Env) (a : Btrfs) where
  abbrev pub Grown : History → {A : Type 0} → Outcome Btrfs A → Type 0
  Grown base (r, b, h) = SameSystem a b × Grows env a.next_rootfs base h

  pub record Follows {A : Type 0} (m : Exec Btrfs A) : Type 0 where
    pub at :
        (base : History) (b : Btrfs) (h : History)
        → SameSystem a b
        → Grows env a.next_rootfs base h
        → Grown base (m b h)

  pub Follows-Keeps :
      {A : Type 0} (m : Exec Btrfs A) → Keeps (SameSystem a) LeavesHost m → Follows m
  Follows-Keeps m k = record {
    at = λ base b h p g.
        let (same, since) = k.at h b h (p, Since-start) in (same, Grows-Since base h _ g since);
  }

  pub Follows-get :
      {A : Type 0} (f : Btrfs → Exec Btrfs A)
      → ((b : Btrfs) → SameSystem a b → Follows (f b))
      → Follows (get >>= f)
  unfolding ◌>>=◌
  Follows-get f k = record { at = λ base b h p g. (k b p).at base b h p g }

  pub Follows-if :
      {A : Type 0} (t : Bool) (m n : Exec Btrfs A)
      → Follows m
      → Follows n
      → Follows (if t then m else n)
  Follows-if true m n k l = k
  Follows-if false m n k l = l

  pub Grown-continue :
      {A B : Type 0} (base : History) (o : Outcome Btrfs A) (f : A → Exec Btrfs B)
      → Grown base o
      → ((x : A) → Follows (f x))
      → Grown base (continue o f)
  Grown-continue base (ok x, b, h) f (p, g) k = (k x).at base b h p g
  Grown-continue base (raised e, b, h) f g k = g

  pub Follows-bind :
      {A B : Type 0} (m : Exec Btrfs A) (f : A → Exec Btrfs B)
      → Follows m
      → ((x : A) → Follows (f x))
      → Follows (m >>= f)
  unfolding ◌>>=◌
  Follows-bind m f k l = record {
    at = λ base b h p g. Grown-continue base (m b h) f (k.at base b h p g) l;
  }
