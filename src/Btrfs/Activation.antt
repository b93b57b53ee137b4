-- ===== src/Btrfs/Activation.antt =====
-- How an upgrade or a rollback that succeeds ends.
use meta_overc.Base.{String, Bool, true, false, Option, ◌∷◌, ◌≡◌, refl, inl, inr, format_option}
use meta_overc.Text.{lines, ◌/◌}
use meta_overc.System.{Env, History, ran, btrfs_tool, set_default, show}
use meta_overc.Exec.{Result-cases, Exec, ok, ◌>>=◌, ◌>>◌, pure}
use meta_overc.Exec.Ensures.{Ensures, Ensures-last, Ensures-if, Returned-ok}
use meta_overc.Utils.{sysroot, popen_lines, system}
use meta_overc.Btrfs.Object.{Btrfs, set_message, find_value, get_btrfs_value, btrfs}
use meta_overc.Btrfs.Upgrade.{
  set_default_rootfs, activate, upgrade_rootfs, do_upgrade_on, do_upgrade,
}
use meta_overc.Btrfs.Rollback.{rollback_rootfs, do_rollback}

-- The last two commands ask for the number of the other root file system and make that number the
-- default.
abbrev pub Activates : Env → Btrfs → History → Type 0
Activates env b h =
    (before : History) × (id : Option String) × (h
      ≡ ran (btrfs_tool true (set_default (format_option id) sysroot))
        ∷ ran (btrfs_tool true (show (sysroot / b.next_rootfs)))
        ∷ before)
    × (find_value "Subvolume ID"
          (lines (env.reply before (btrfs_tool true (show (sysroot / b.next_rootfs)))).output)
        ≡ ok id)

abbrev Succeeds : Env → String → Bool → Btrfs → History → Type 0
Succeeds env text r b h = r ≡ true → (b.message ≡ text) × Activates env b h

module _ (env : Env) (text : String) where
  finish : Exec Btrfs Bool
  finish = do set_default_rootfs env true; set_message text; pure true

  finish-Succeeds : Ensures finish (Succeeds env text)
  unfolding finish set_default_rootfs get_btrfs_value popen_lines system btrfs ◌>>=◌
  finish-Succeeds = record {
    at = λ b h.
        let c = btrfs_tool true (show (sysroot / b.next_rootfs)) in
        elim (Result-cases (find_value "Subvolume ID" (lines (env.reply h c).output))) [
          | inl (id, e) ↦ rw e (λ t. (refl, (h, id, refl, e)))
          | inr (x, e) ↦ rw e tt
        ];
  }

  pure-false-Succeeds : Ensures (pure false) (Succeeds env text)
  unfolding pure
  pure-false-Succeeds = record { at = λ b h e. absurd (cc) }

activate-Succeeds : (env : Env) → Ensures (activate env true) (Succeeds env "do upgrade ok")
unfolding activate finish
activate-Succeeds env =
    Ensures-last _ _ (λ _. Ensures-last _ _ (λ _. finish-Succeeds env "do upgrade ok"))

rollback_rootfs-Succeeds :
    (env : Env) → Ensures (rollback_rootfs env) (Succeeds env "rollback succeeded")
unfolding rollback_rootfs finish
rollback_rootfs-Succeeds env =
    Ensures-last _ _ (λ _. Ensures-last _ _ (λ _. finish-Succeeds env "rollback succeeded"))

ruleset success_rules = (pure-false-Succeeds, Ensures-if, Ensures-last)

upgrade_rootfs-Succeeds :
    (env : Env) → Ensures (upgrade_rootfs env true) (Succeeds env "do upgrade ok")
unfolding upgrade_rootfs
upgrade_rootfs-Succeeds env = search (activate-Succeeds, success_rules) depth 8

do_upgrade-Succeeds : (env : Env) → Ensures (do_upgrade env) (Succeeds env "do upgrade ok")
unfolding do_upgrade do_upgrade_on
do_upgrade-Succeeds env = search (upgrade_rootfs-Succeeds, success_rules) depth 14

do_rollback-Succeeds : (env : Env) → Ensures (do_rollback env) (Succeeds env "rollback succeeded")
unfolding do_rollback
do_rollback-Succeeds env = search (rollback_rootfs-Succeeds, success_rules) depth 14

-- If `do_upgrade` returns `True`, its message is "do upgrade ok", and the last two commands of the
-- run ask for the number of the other root file system and set that number as the default
-- subvolume, the number being what the environment answered to the first of the two.
pub do_upgrade-Activates :
    (env : Env) (b : Btrfs) (h : History)
    → (do_upgrade env b h).0 ≡ ok true
    → ((do_upgrade env b h).1.message ≡ "do upgrade ok")
      × Activates env (do_upgrade env b h).1 (do_upgrade env b h).2
do_upgrade-Activates env b h e =
    Returned-ok _ (do_upgrade env b h) true ((do_upgrade-Succeeds env).at b h) e refl

-- If `do_rollback` returns `True`, its message is "rollback succeeded", and the last two commands of
-- the run ask for the number of the other root file system and set that number as the default
-- subvolume, the number being what the environment answered to the first of the two.
pub do_rollback-Activates :
    (env : Env) (b : Btrfs) (h : History)
    → (do_rollback env b h).0 ≡ ok true
    → ((do_rollback env b h).1.message ≡ "rollback succeeded")
      × Activates env (do_rollback env b h).1 (do_rollback env b h).2
do_rollback-Activates env b h e =
    Returned-ok _ (do_rollback env b h) true ((do_rollback-Succeeds env).at b h) e refl
