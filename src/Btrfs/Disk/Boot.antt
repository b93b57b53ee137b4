-- ===== src/Btrfs/Disk/Boot.antt =====
-- The root file system that a machine boots after an upgrade and after a rollback.
use meta_overc.Base.{
  String, Bool, true, false, Option, some, ◌≡◌, ◌≢◌, inl, inr, refl, sym, ap, ◌∙◌,
}
use meta_overc.Text.{lines, ◌/◌}
use meta_overc.System.{Env, History, btrfs_tool, show}
use meta_overc.Exec.{Outcome, ok, raised, ◌>>=◌}
use meta_overc.Exec.Ensures.{
  Ensures, Ensures-last, Ensures-with, Ensures-if, Ensures-raise, Ensures-pure, Returned-ok,
}
use meta_overc.Utils.{sysroot, popen_lines}
use meta_overc.Btrfs.Object.{Btrfs, find_value, get_btrfs_value}
use meta_overc.Btrfs.Init.{make, init}
use meta_overc.Btrfs.Ready.{ArePaired, init-IsReady}
use meta_overc.Btrfs.Upgrade.{do_upgrade}
use meta_overc.Btrfs.Rollback.{do_rollback}
use meta_overc.Btrfs.Disk.{Disk, Switches, do_upgrade-Switches, do_rollback-Switches}

-- The machine of the second environment runs the root file system of that name.
abbrev pub Runs : Env → String → Type 0
Runs env name =
    (h : History)
    → find_value "Name" (lines (env.reply h (btrfs_tool true (show "/"))).output) ≡ ok (some name)

-- After a history, the machine has booted its default subvolume, which has that name.
pub record Boots {env : Env} (disk : Disk env) (h : History) (env' : Env) (name : String)
    : Type 0 where
  pub is_default : disk.number_of h (sysroot / name) ≡ some (disk.default_of h)
  pub runs : Runs env' name

module _ (env : Env) (name : String) (runs : Runs env name) {S : Type 0} where
  name-Runs : Ensures {S = S} (get_btrfs_value env "/" "Name" true) (λ v s h. v ≡ some name)
  unfolding get_btrfs_value popen_lines ◌>>=◌
  name-Runs = record { at = λ s h. rw (runs h) refl }

  make-rootfs :
      (rootdev : Option String) (kernel : String) (md5 : Option String)
      → Ensures {S = S} (make rootdev (some name) kernel md5) (λ b s h. b.rootfs ≡ name)
  unfolding make
  make-rootfs rootdev kernel md5 = search (Ensures-if, Ensures-raise, Ensures-last, Ensures-pure)

  pub init-Runs : Ensures {S = S} (init env) (λ b s h. b.rootfs ≡ name)
  unfolding init
  init-Runs = Ensures-last _ _ (λ rootdev.
      Ensures-with (λ v. v ≡ some name) _ _ name-Runs
        (λ v e.
          Ensures-last _ _
            (λ kernel. Ensures-last _ _ (λ md5. rw e (make-rootfs rootdev kernel md5)))))

-- Of two pairs of the two names, where the second of the one has the number of the first of the other
paired_other :
    (number : String → Option String) (n : String)
    → (number "rootfs" ≡ some n → number "rootfs_upgrade" ≢ some n)
    → {a b c d : String} → ArePaired a b
    → ArePaired c d
    → number b ≡ some n
    → number c ≡ some n
    → (c ≡ b) × (d ≡ a)
paired_other number n differ (inl (p, q)) (inl (r, t)) x y =
    absurd (differ (ap number (sym r) ∙ y) (ap number (sym q) ∙ x))
paired_other number n differ (inl (p, q)) (inr (r, t)) x y = (r ∙ sym q, t ∙ sym p)
paired_other number n differ (inr (p, q)) (inl (r, t)) x y = (r ∙ sym q, t ∙ sym p)
paired_other number n differ (inr (p, q)) (inr (r, t)) x y =
    absurd (differ (ap number (sym q) ∙ x) (ap number (sym r) ∙ y))

Switches-true :
    {env : Env} (disk : Disk env) (path n : String) (h : History) (o : Outcome Btrfs Bool)
    → Switches disk path h o
    → o.0 ≡ ok true
    → disk.number_of o.2 path ≡ some n
    → disk.default_of o.2 ≡ n
Switches-true disk path n h (ok true, b, k) p e there = rw there at p
Switches-true disk path n h (ok false, b, k) p e there = absurd (cc)
Switches-true disk path n h (raised x, b, k) p e there = absurd (cc)

-- What `__init__` makes on a machine that has booted after a switch
booted :
    {S : Type 0} {env env' : Env} (disk : Disk env) (a b : Btrfs) (h k : History) (s : S)
    (n name : String)
    → ArePaired a.rootfs a.next_rootfs
    → disk.default_of h ≡ n
    → disk.number_of h (sysroot / a.next_rootfs) ≡ some n
    → Boots disk h env' name
    → (init env' s k).0 ≡ ok b
    → (b.rootfs ≡ a.next_rootfs) × (b.next_rootfs ≡ a.rootfs)
booted {S} {env} {env'} disk a b h k s n name pair d there boots made =
    let ready = init-IsReady env' s k b made in
    let named = Returned-ok _ (init env' s k) b ((init-Runs env' name boots.runs).at s k) made in
    let number : String → Option String = λ m. disk.number_of h (sysroot / m) in
    paired_other number n (disk.differ h n) pair ready.paired there
      (ap number named ∙ (boots.is_default ∙ ap some d))

-- An upgrade that returns `True`, a boot, a rollback that returns `True` and another boot: where
-- btrfs behaves as documented, and a `set-default` to the number of a subvolume never fails, where the
-- root file systems that are switched to have a number at the end of the upgrade and of the rollback,
-- and each machine boots its default subvolume, the first boot starts the other root file system, with
-- the old one as the next, and the second boot starts the old one, with the same next one as at the
-- beginning.
pub do_upgrade-do_rollback :
    {S : Type 0} {env env' env'' : Env} (disk : Disk env) (disk' : Disk env') (b b' b'' : Btrfs)
    (h h' h'' h''' : History) (s : S) (n m name name' : String)
    → ArePaired b.rootfs b.next_rootfs
    → (do_upgrade env b h).0 ≡ ok true
    → disk.number_of (do_upgrade env b h).2 (sysroot / b.next_rootfs) ≡ some n
    → Boots disk (do_upgrade env b h).2 env' name
    → (init env' s h').0 ≡ ok b'
    → (do_rollback env' b' h'').0 ≡ ok true
    → disk'.number_of (do_rollback env' b' h'').2 (sysroot / b'.next_rootfs) ≡ some m
    → Boots disk' (do_rollback env' b' h'').2 env'' name'
    → (init env'' s h''').0 ≡ ok b''
    → ((b'.rootfs ≡ b.next_rootfs) × (b'.next_rootfs ≡ b.rootfs))
      × ((b''.rootfs ≡ b.rootfs) × (b''.next_rootfs ≡ b.next_rootfs))
do_upgrade-do_rollback {env = env} {env'} {env''} disk disk' b b' b'' h h' h'' h''' s n m name name'
      pair up there boots made back there' boots' made' =
    let d = Switches-true disk _ n h _ (do_upgrade-Switches disk b h) up there in
    let first = booted disk b b' _ h' s n name pair d there boots made in
    let e = Switches-true disk' _ m h'' _ (do_rollback-Switches disk' b' h'') back there' in
    let ready = init-IsReady env' s h' b' made in
    let second = booted disk' b' b'' _ h''' s m name' ready.paired e there' boots' made' in
    (first, (second.0 ∙ first.1, second.1 ∙ first.0))
