-- ===== src/Btrfs/Cleanup/Keeps.antt =====
-- What `_cleanup_subvol` and its callers keep: only listed subvolumes are deleted that carry neither
-- the name of the running root file system nor an excluded name.
use meta_overc.Base.{
  String, Bool, true, List, [], ◌∷◌, ◌≡◌, ◌≢◌, ◌==◌, refl, inl, inr, All, arith, contains, eq_iff,
  Bool-cases,
}
use meta_overc.Text.{strip, split}
use meta_overc.System.{Command, Env, IsRoutine, btrfs_tool, delete}
use meta_overc.Exec.{Result, ok, raised}
use meta_overc.Exec.Keeps.{Keeps, Keeps-pure, Keeps-bind, Keeps-get, Keeps-value}
use meta_overc.Utils.Keeps.{popen_lines-Keeps}
use meta_overc.Btrfs.Object.{Btrfs}
use meta_overc.Btrfs.Object.Keeps.{SameSystem, btrfs-Keeps, object_rules}
use meta_overc.Btrfs.Cleanup.{
  subvolid_of, is_deleted, last_word, push_subvol, and_then, fill_stack, delete_stack,
  cleanup_subvol, mount_container_root,
}

and_then-eq-ok :
    {A B : Type 0} (r : Result A) (f : A → Result B) {b : B}
    → and_then r f ≡ ok b
    → (a : A) × (r ≡ ok a) × (f a ≡ ok b)
and_then-eq-ok (ok a) f e = (a, refl, e)
and_then-eq-ok (raised x) f e = cc

module _ (rootfs : String) (exclude : List String) where
  abbrev pub AreDeleted : List String → Type 0
  AreDeleted = All (λ path. is_deleted rootfs exclude path ≡ true)

  push_subvol-AreDeleted :
      (words stack : List String) {out : List String}
      → push_subvol rootfs exclude words stack ≡ ok out
      → AreDeleted stack
      → AreDeleted out
  unfolding push_subvol
  push_subvol-AreDeleted [] stack e k = cc
  push_subvol-AreDeleted (w ∷ ws) stack e k =
      elim (Bool-cases (is_deleted rootfs exclude (last_word w ws))) [
        | inl goes ↦ ground arith
        | inr stays ↦ ground arith
      ]

  pub fill_stack-AreDeleted :
      (ls stack : List String) {out : List String}
      → fill_stack rootfs exclude ls stack ≡ ok out
      → AreDeleted stack
      → AreDeleted out
  unfolding fill_stack
  fill_stack-AreDeleted [] stack e k = ground arith
  fill_stack-AreDeleted (l ∷ ls) stack {out} e k = elim (Bool-cases (strip l == "")) [
    | inl blank ↦ ground arith
    | inr line ↦
        let step = push_subvol rootfs exclude (split (strip l)) stack in
        let go = fill_stack rootfs exclude ls in
        let later : and_then step go ≡ ok out = ground arith in
        let (pushed, e₁, e₂) = and_then-eq-ok step go later in
        fill_stack-AreDeleted ls pushed e₂ (push_subvol-AreDeleted (split (strip l)) stack e₁ k)
  ]

  -- An excluded name is not the name of a subvolume that is deleted.
  pub is_deleted-ne :
      (path name : String)
      → is_deleted rootfs exclude path ≡ true
      → contains exclude name ≡ true
      → (subvolid_of path ≢ rootfs) × (subvolid_of path ≢ name)
  unfolding is_deleted
  is_deleted-ne path name d c =
      (ground (arith, eq_iff (subvolid_of path) rootfs), λ e. ground arith)

module _ (env : Env) {a : Btrfs} {Allowed : Command → Type 0}
    (routine : (c : Command) → IsRoutine c → Allowed c) where
  delete_stack-Keeps :
      (dir : String) (exclude : List String) (host : Bool)
      → ((path : String)
          → is_deleted a.rootfs exclude path ≡ true
          → Allowed (btrfs_tool host (delete dir path)))
      → (stack : List String) → AreDeleted a.rootfs exclude stack
      → Keeps (SameSystem a) Allowed (delete_stack env dir host stack)
  unfolding delete_stack
  delete_stack-Keeps dir exclude host may [] k = Keeps-pure _
  delete_stack-Keeps dir exclude host may (path ∷ stack) k =
      Keeps-bind _ _ (btrfs-Keeps env _ _ (may path k.0))
        (λ _. delete_stack-Keeps dir exclude host may stack k.1)

  pub cleanup_subvol-Keeps :
      (dir : String) (exclude : List String) (host : Bool)
      → ((path : String)
          → is_deleted a.rootfs exclude path ≡ true
          → Allowed (btrfs_tool host (delete dir path)))
      → Keeps (SameSystem a) Allowed (cleanup_subvol env dir exclude host)
  unfolding cleanup_subvol
  cleanup_subvol-Keeps dir exclude host may =
      Keeps-bind _ _ (popen_lines-Keeps env _ (routine _ tt)) (λ ls. Keeps-get _ (λ b same.
        Keeps-value _ _ (λ stack e.
          delete_stack-Keeps dir exclude host may stack
            (fill_stack-AreDeleted a.rootfs exclude ls [] (rw same.rootfs at e) tt))))

  pub mount_container_root-Keeps :
      (host : Bool) → Keeps (SameSystem a) Allowed (mount_container_root env host)
  unfolding mount_container_root
  mount_container_root-Keeps host = search (object_rules, routine) depth 12
