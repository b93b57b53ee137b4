-- ===== src/Btrfs/Resetting.antt =====
-- How a factory reset that succeeds ends.
pub mod Host
pub mod Half
use Prim.Native.String.{count}
use meta_overc.Base.{
  String, ℤ, Bool, true, false, not, pos, Option, ◌∷◌, ◌≡◌, refl, sym, subst, inl, inr,
  format_option, int_eq, Bool-cases, if◌then◌else◌,
}
use meta_overc.Text.{lines, ◌/◌}
use meta_overc.System.{
  Env, History, BtrfsArgs, ran, btrfs_tool, snapshot, set_default, show, list_below, umount,
}
use meta_overc.Exec.{Exec, Outcome, Result-cases, ok, raised, ◌>>=◌, pure}
use meta_overc.Exec.Keeps.{Since, Since-start}
use meta_overc.Exec.Ensures.{Ensures, Ensures-last, Ensures-with, Ensures-if, Returned, Returned-ok}
use meta_overc.Exec.After.{EnsuresAfter, After-Ensures, After-if, After-bind}
use meta_overc.Utils.{chars, container_mount, factory_snapshot, popen_lines, random_str, system}
use meta_overc.Utils.Keeps.{popen_lines-Keeps}
use meta_overc.Utils.Random.{IsMadeOf, random_str-IsMadeOf}
use meta_overc.Btrfs.Object.{Btrfs, find_value, get_btrfs_value, btrfs}
use meta_overc.Btrfs.Object.Keeps.{SameSystem, unchanged}
use meta_overc.Btrfs.Parts.{reset_children-Keeps}
use meta_overc.Btrfs.FactoryReset.{
  container_tmp, reset_children, set_default_container, factory_reset_container, factory_reset,
}

-- A name that `_random_str` draws: six capital letters or digits
abbrev IsName : String → Type 0
IsName name = (count name ≡ 6) × IsMadeOf chars name

-- The factory snapshot of the containers has been copied to a directory, with the exit status 0.
abbrev pub IsCopied : Env → String → History → Type 0
IsCopied env workdir h =
    let c = btrfs_tool true (snapshot (container_tmp / factory_snapshot) workdir) in
    (earlier : History) × Since (λ c'. Unit) (ran c ∷ earlier) h
    × (int_eq (env.reply earlier c).status (pos 0) ≡ true)

-- The last three commands ask for the number of a new subvolume of the containers, which has a random
-- name and is a copy of their factory snapshot, make that number the default of the containers, which
-- succeeds, and unmount their root.
abbrev pub Resets : Env → History → Type 0
Resets env h =
    (before : History) × (name : String) × (id : Option String) × (h
      ≡ ran (umount true container_tmp)
        ∷ ran (btrfs_tool true (set_default (format_option id) container_mount))
        ∷ ran (btrfs_tool true (show (container_tmp / name)))
        ∷ before)
    × IsName name
    × IsCopied env (container_tmp / name) before
    × (find_value "Subvolume ID"
          (lines (env.reply before (btrfs_tool true (show (container_tmp / name)))).output)
        ≡ ok id)
    × (int_eq
          (env.reply (ran (btrfs_tool true (show (container_tmp / name))) ∷ before)
            (btrfs_tool true (set_default (format_option id) container_mount))).status
          (pos 0)
        ≡ true)

abbrev Succeeds : Env → Bool → Btrfs → History → Type 0
Succeeds env r b h = r ≡ true → Resets env h

pure-false-Succeeds : (env : Env) → Ensures (pure false) (Succeeds env)
unfolding pure
pure-false-Succeeds env = record { at = λ b h e. absurd (cc) }

IsName-random : (env : Env) → Ensures (random_str env {S = Btrfs} 6) (λ name b h. IsName name)
IsName-random env = record {
  at = λ b h.
      let (text, e, len, made) = random_str-IsMadeOf env 6 b h in
      Returned-named _ (random_str env 6 b h) text e (len, made);
}
  where
    Returned-named :
        (P : String → Type 0) (o : Outcome Btrfs String) (text : String)
        → o.0 ≡ ok text
        → P text
        → Returned (λ name b h. P name) o
    Returned-named P (ok name, b, h) text e p = subst P (sym (ok_inj e)) p
      where
        ok_inj : ok name ≡ ok text → name ≡ text
        ok_inj q = cc
    Returned-named P (raised x, b, h) text e p = tt

not-false : (t : Bool) → not t ≡ false → t ≡ true
not-false true e = refl
not-false false e = absurd (cc)

module _ (env : Env) where
  -- What follows a command may use its exit status.
  Ensures-btrfs :
      (args : BtrfsArgs) (f : ℤ → Exec Btrfs Bool)
      → ((b : Btrfs) (h : History)
          → Returned
              (Succeeds env)
              (f (env.reply h (btrfs_tool true args)).status b (ran (btrfs_tool true args) ∷ h)))
      → Ensures (btrfs env args true >>= f) (Succeeds env)
  unfolding btrfs system ◌>>=◌
  Ensures-btrfs args f k = record { at = k }

  Returned-if :
      (t : Bool) (m n : Exec Btrfs Bool) (b : Btrfs) (h : History)
      → Ensures m (Succeeds env)
      → (t ≡ false → Returned (Succeeds env) (n b h))
      → Returned (Succeeds env) ((if t then m else n) b h)
  Returned-if true m n b h k l = k.at b h
  Returned-if false m n b h k l = l refl

  abbrev AfterCopy : String → Btrfs → History → Exec Btrfs Bool → Type 0
  AfterCopy workdir b h m =
      EnsuresAfter (SameSystem b) (λ c. Unit)
        (ran (btrfs_tool true (snapshot (container_tmp / factory_snapshot) workdir)) ∷ h) m
        (Succeeds env)

  module _ (name : String) (named : IsName name) (a : Btrfs) (earlier : History)
      (copied : int_eq
          (env.reply earlier (
            btrfs_tool true
              (snapshot (container_tmp / factory_snapshot) (container_tmp / name)))).status
          (pos 0)
        ≡ true) where
    set_default_container-Succeeds :
        AfterCopy
          (container_tmp / name)
          a
          earlier
          (set_default_container env (container_tmp / name))
    unfolding set_default_container get_btrfs_value popen_lines system btrfs ◌>>=◌
    set_default_container-Succeeds = record {
      at = λ b h p.
          let c = btrfs_tool true (show (container_tmp / name)) in
          elim (Result-cases (find_value "Subvolume ID" (lines (env.reply h c).output))) [
            | inl (id, e) ↦
                rw e
                  (elim (Bool-cases (
                    int_eq
                      (env.reply (ran c ∷ h)
                        (btrfs_tool true (set_default (format_option id) container_mount))).status
                      (pos 0))) [
                        | inl z ↦
                            rw z (λ t. (h, name, id, refl, named, (earlier, p.1, copied), e, z))
                        | inr n ↦ rw n (λ t. absurd (cc))
                      ])
            | inr (x, e) ↦ rw e tt
          ];
    }

    -- The copies of the children, and the new default
    children-Succeeds : AfterCopy (container_tmp / name) a earlier (
        popen_lines env (btrfs_tool true (list_below (container_tmp / factory_snapshot))) >>= λ ls.
        reset_children env (container_tmp / name) ls >>= λ done.
        if done then set_default_container env (container_tmp / name) else pure false)
    children-Succeeds = After-bind _ _ (popen_lines-Keeps env _ tt) (λ ls.
        After-bind _ _ (reset_children-Keeps env a (λ c r. tt) _ ls) (λ done.
          After-if done _ _ set_default_container-Succeeds
            (After-Ensures _ (pure-false-Succeeds env))))

  factory_reset_container-Succeeds : Ensures (factory_reset_container env) (Succeeds env)
  unfolding factory_reset_container
  factory_reset_container-Succeeds = Ensures-last _ _ (λ x. Ensures-last _ _ (λ there.
      Ensures-if (not there) _ _ (search (pure-false-Succeeds, Ensures-last) depth 8) (
        Ensures-with IsName _ _ (IsName-random env) (λ name named.
          Ensures-btrfs (snapshot (container_tmp / factory_snapshot) (container_tmp / name)) _
            (λ b h. Returned-if _ _ _ b _ (search (pure-false-Succeeds, Ensures-last) depth 8) (λ e.
              (children-Succeeds name named b h (not-false _ e)).at b _
                (unchanged b, Since-start)))))))

  factory_reset-Succeeds : Ensures (factory_reset env) (Succeeds env)
  unfolding factory_reset
  factory_reset-Succeeds =
      search (pure-false-Succeeds, Ensures-if, Ensures-last, factory_reset_container-Succeeds) depth
        8

-- If `factory_reset` returns `True`, the last three commands of the run ask for the number of a
-- subvolume of the containers with a random name of six characters, to which the factory snapshot of the
-- containers has been copied with the exit status 0, set the number that the environment answered as the
-- default subvolume of the containers, with the exit status 0, and unmount the root of the containers.
pub factory_reset-Resets :
    (env : Env) (b : Btrfs) (h : History)
    → (factory_reset env b h).0 ≡ ok true
    → Resets env (factory_reset env b h).2
factory_reset-Resets env b h e =
    Returned-ok _ (factory_reset env b h) true ((factory_reset-Succeeds env).at b h) e refl
