-- ===== src/Tests/Disks.antt =====
-- A disk that behaves as documented, and a machine that boots from it.
use meta_overc.Base.{
  String, ℤ, pos, Bool, true, false, not, ◌||◌, Option, none, some, [], ◌∷◌, ◌≡◌, ◌≢◌, refl, inl,
  inr, Bool-cases, ◌==◌, eq_iff, if◌then◌else◌,
}
use meta_overc.Text.{lines}
use meta_overc.System.{Command, Env, Event, History, Reply, ran, btrfs_tool, set_default, show}
use meta_overc.Exec.{ok, ◌>>=◌}
use meta_overc.Exec.Keeps.{Permits}
use meta_overc.Btrfs.Object.{Btrfs, find_value}
use meta_overc.Btrfs.Init.{init}
use meta_overc.Btrfs.Upgrade.{do_upgrade}
use meta_overc.Btrfs.Rollback.{do_rollback}
use meta_overc.Btrfs.Atomic.{LeavesDefault}
use meta_overc.Btrfs.Disk.{Disk, Switches, do_upgrade-Switches, do_rollback-Switches}
use meta_overc.Btrfs.Disk.Boot.{Boots, do_upgrade-do_rollback}
use meta_overc.Tests.{answer, answer_with, agency}

-- What `show` prints on a machine that runs the root file system that an upgrade has made, or the other
abbrev pub shown : Bool → String → String
shown upgraded path =
    if path == "/"
    then (if upgraded then "\tName: \t\trootfs_upgrade\n" else "\tName: \t\trootfs\n")
    else if path == "/sysroot/rootfs"
    then "\tName: \t\trootfs\n\tSubvolume ID: \t257\n"
    else if path == "/sysroot/rootfs_upgrade"
    then "\tName: \t\trootfs_upgrade\n\tSubvolume ID: \t258\n"
    else ""

abbrev pub numbered : String → Option String
numbered path =
    if path == "/sysroot/rootfs"
    then some "257"
    else if path == "/sysroot/rootfs_upgrade"
    then some "258"
    else none

abbrev disk_answer : Bool → ℤ → Command → Reply
disk_answer upgraded exists (btrfs_tool host (show path)) =
    answer_with (pos 0) (shown upgraded path)
disk_answer upgraded exists c = answer (pos 0) exists c

-- The second argument is the exit status of the tests for files.
abbrev pub disk_machine : Bool → ℤ → Env
disk_machine upgraded exists = record {
  reply = λ h c. disk_answer upgraded exists c;
  execute = λ h line by_line. none;
}

-- The default subvolume, which was the given one at the start
abbrev pub chosen : String → History → String
chosen start [] = start
chosen start (ran (btrfs_tool host (set_default n path)) ∷ h) =
    let before = chosen start h in if n == "None" || not (path == "/sysroot") then before else n
chosen start (_ ∷ h) = chosen start h

pub chosen-leaves :
    (start : String) (h : History) (e : Event)
    → Permits LeavesDefault e
    → chosen start (e ∷ h) ≡ chosen start h
chosen-leaves start h (ran (btrfs_tool host (set_default n path))) p = absurd p
chosen-leaves start h _ p = refl

pub some_inj : {a b : String} → some a ≡ some b → a ≡ b
some_inj e = cc

pub numbered-IsNumber : (path n : String) → numbered path ≡ some n → (n == "None") ≡ false
numbered-IsNumber path n e = elim (Bool-cases (path == "/sysroot/rootfs")) [
  | inl p ↦ rw (← some_inj (rw p at e)) refl
  | inr p ↦ elim (Bool-cases (path == "/sysroot/rootfs_upgrade")) [
    | inl q ↦ rw (← some_inj (rw (p, q) at e)) refl
    | inr q ↦ absurd (none-ne-some (rw (p, q) at e))
  ]
]
  where
    none-ne-some : {a : String} → none ≢ some a
    none-ne-some r = cc

pub shows_numbers :
    (upgraded : Bool) (path : String)
    → find_value "Subvolume ID" (lines (shown upgraded path)) ≡ ok (numbered path)
unfolding find_value lines
shows_numbers upgraded path = elim (Bool-cases (path == "/")) [
  | inl e ↦
      rw ((eq_iff path "/").0 e)
        (elim (Bool-cases upgraded) [ inl u ↦ rw u refl | inr u ↦ rw u refl ])
  | inr n ↦ rw n (elim (Bool-cases (path == "/sysroot/rootfs")) [
    | inl e ↦ rw e refl
    | inr m ↦ rw m (elim (Bool-cases (path == "/sysroot/rootfs_upgrade")) [
      | inl e ↦ rw e refl
      | inr l ↦ rw l refl
    ])
  ])
]

pub two_numbers : (n : String) → some "257" ≡ some n → some "258" ≢ some n
two_numbers n p q =
    let same : n == "257" ≡ true = rw (← some_inj p) refl in
    let other : n == "257" ≡ false = rw (← some_inj q) refl in absurd (cc)

abbrev pub disk :
    (upgraded : Bool) (exists : ℤ) (start : String) → Disk (disk_machine upgraded exists)
disk upgraded exists start = record {
  default_of = chosen start;
  number_of = λ h path. numbered path;
  shows = λ h path. shows_numbers upgraded path;
  sets = λ h path n e. rw (numbered-IsNumber path n e) refl;
  leaves = chosen-leaves start;
  show_changes_nothing = λ h path path'. refl;
  set_renumbers_nothing = λ h n path. refl;
  differ = λ h n p q. two_numbers n p q;
}

abbrev pub first : Env
first = disk_machine false (pos 1)

abbrev second : Env
second = disk_machine true (pos 0)

abbrev third : Env
third = disk_machine false (pos 0)

abbrev upgraded_agency : Btrfs
upgraded_agency = record agency {
  rootfs = "rootfs_upgrade";
  next_rootfs = "rootfs";
  kernel_md5 = some "1f3a";
}

upgrade_succeeds : (do_upgrade first agency []).0 ≡ ok true
unfolding do_upgrade ◌>>=◌
upgrade_succeeds = refl

Boots-second :
    Boots (disk false (pos 1) "257") (do_upgrade first agency []).2 second "rootfs_upgrade"
unfolding do_upgrade ◌>>=◌
Boots-second = record { is_default = refl; runs = λ h. refl }

rollback_succeeds : (do_rollback second upgraded_agency []).0 ≡ ok true
unfolding do_rollback ◌>>=◌
rollback_succeeds = refl

Boots-third :
    Boots (disk true (pos 0) "258") (do_rollback second upgraded_agency []).2 third "rootfs"
unfolding do_rollback ◌>>=◌
Boots-third = record { is_default = refl; runs = λ h. refl }

init-second : (init second tt []).0 ≡ ok upgraded_agency
unfolding init ◌>>=◌
init-second = refl

init-third : (init third tt []).0 ≡ ok (record agency { kernel_md5 = some "1f3a" })
unfolding init ◌>>=◌
init-third = refl

do_upgrade-do_rollback_example :
    ((upgraded_agency.rootfs ≡ agency.next_rootfs) × (upgraded_agency.next_rootfs ≡ agency.rootfs))
    × ((agency.rootfs ≡ agency.rootfs) × (agency.next_rootfs ≡ agency.next_rootfs))
do_upgrade-do_rollback_example =
    do_upgrade-do_rollback (disk false (pos 1) "257") (disk true (pos 0) "258") agency
      upgraded_agency (record agency { kernel_md5 = some "1f3a" }) [] [] [] [] tt "258" "257"
      "rootfs_upgrade" "rootfs" (inl (refl, refl)) upgrade_succeeds refl Boots-second init-second
      rollback_succeeds refl Boots-third init-third

do_upgrade-Switches_example :
    Switches (disk false (pos 1) "257") "/sysroot/rootfs_upgrade" [] (do_upgrade first agency [])
do_upgrade-Switches_example = do_upgrade-Switches (disk false (pos 1) "257") agency []

do_rollback-Switches_example :
    Switches (disk true (pos 0) "258") "/sysroot/rootfs" [] (do_rollback second upgraded_agency [])
do_rollback-Switches_example = do_rollback-Switches (disk true (pos 0) "258") upgraded_agency []
