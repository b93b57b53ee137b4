-- ===== src/Btrfs/Machine.antt =====
-- The life of a machine: the operations of the agent, each of which makes its object first and may be
-- cut off between any two commands, and the boots between them.
pub mod Grows
pub mod Reset
pub mod Passes
pub mod Invariant
use meta_overc.Base.{String, Bool, true, Option, some, ◌∷◌, ◌≡◌, ◌≢◌, ◌⊎◌}
use meta_overc.Text.{◌/◌}
use meta_overc.System.{Env, Event, History, ran, btrfs_tool, set_default}
use meta_overc.Exec.{Exec, ◌>>=◌, ◌>>◌, pure, on_new}
use meta_overc.Exec.Keeps.{Permits}
use meta_overc.Exec.Cuts.{IsBetween}
use meta_overc.Utils.{sysroot}
use meta_overc.Btrfs.Init.{init}
use meta_overc.Btrfs.Disk.{Disk}
use meta_overc.Btrfs.Disk.Boot.{Runs}
use meta_overc.Btrfs.Safety.{Spares}
use meta_overc.Btrfs.Safety.Operations.{Operation, perform}

-- The documented behaviour of the subvolumes at the top of the file system, mounted or not: what
-- `show` prints is the number of the subvolume of that name, the number stays until that subvolume is
-- deleted, btrfs does not delete the default subvolume, two names have two numbers, `set-default` on another
-- path is about another file system, and it does nothing if it is given no number.
pub record Volume {env : Env} (disk : Disk env) : Type 0 where
  pub named : History → String → Option String
  pub seen :
      (h : History) (name n : String)
      → disk.number_of h (sysroot / name) ≡ some n
      → named h name ≡ some n
  pub stays :
      (h : History) (e : Event) (name n : String)
      → named h name ≡ some n
      → Permits (Spares name) e
      → named (e ∷ h) name ≡ some n
  pub default_stays :
      (h : History) (e : Event) (name : String)
      → named h name ≡ some (disk.default_of h)
      → named (e ∷ h) name ≡ some (disk.default_of h)
  pub one_name : (h : History) (a b n : String) → named h a ≡ some n → named h b ≡ some n → a ≡ b
  pub others :
      (h : History) (host : Bool) (id path : String)
      → path ≢ sysroot
      → disk.default_of (ran (btrfs_tool host (set_default id path)) ∷ h) ≡ disk.default_of h
  pub no_number :
      (h : History)
      → disk.default_of (ran (btrfs_tool true (set_default "None" sysroot)) ∷ h) ≡ disk.default_of h

-- A machine that runs the root file system of that name, since its boot
pub record Machine : Type 0 where
  pub env : Env
  pub disk : Disk env
  pub volume : Volume disk
  pub name : String
  pub history : History

-- A call of the agent: a new object of class `Btrfs`, and the operation on it
unfoldable pub attempt : Env → Operation → Exec (Unit {0}) (Unit {0})
unfolding init on_new
attempt env op = do b ← init env; on_new b (perform env op); pure tt

-- The machine has booted its default subvolume, and its file system is the same.
pub record IsBooted (m m' : Machine) : Type 0 where
  pub is_default : m.volume.named m.history m'.name ≡ some (m.disk.default_of m.history)
  pub runs : Runs m'.env m'.name
  pub same_default : m'.disk.default_of m'.history ≡ m.disk.default_of m.history
  pub same_names : (name : String) → m'.volume.named m'.history name ≡ m.volume.named m.history name

-- A call of the agent that ends, or that is cut off, and a boot
pub data Step : Machine → Machine → Type 0 where
  calls :
      (m : Machine) (op : Operation) (k : History)
      → IsBetween m.history (attempt m.env op tt m.history).2 k
      → Step m (record m { history = k })
  boots : (m m' : Machine) → IsBooted m m' → Step m m'

-- What a machine can become
pub data Becomes (m : Machine) : Machine → Type 0 where
  as_it_is : Becomes m m
  later : {m' m'' : Machine} → Becomes m m' → Step m' m'' → Becomes m m''

-- The names of the root file systems
abbrev pub IsRoot : String → Type 0
IsRoot name = (name ≡ "rootfs") ⊎ (name ≡ "rootfs_upgrade")

-- The default subvolume is one of the root file systems, which is there.
abbrev pub CanBoot : {env : Env} {disk : Disk env} → Volume disk → History → Type 0
CanBoot {disk = disk} volume h =
    (name : String) × IsRoot name × (volume.named h name ≡ some (disk.default_of h))

-- The machine runs one of the root file systems, which is still there, and can boot.
pub record IsSafe (m : Machine) : Type 0 where
  pub runs : Runs m.env m.name
  pub is_root : IsRoot m.name
  pub is_there : (n : String) × (m.volume.named m.history m.name ≡ some n)
  pub can_boot : CanBoot m.volume m.history
