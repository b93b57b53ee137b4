-- ===== src/Overc/System/Undone.antt =====
-- What an aborted upgrade of the system undoes.
use meta_overc.Base.{
  String, ℤ, Bool, true, false, Option, none, some, List, [], ◌∷◌, map, ◌≡◌, ◌⊎◌, inl, inr, refl,
  ap, ◌∙◌,
}
use meta_overc.System.{Env, History}
use meta_overc.Exec.{Exec, Outcome, ok, raised, os_error, system_exit, continue, raise, ◌>>=◌}
use meta_overc.Exec.Starts.{StartsAt, spawns}
use meta_overc.Container.{rollback}
use meta_overc.Container.Message.{rollback-IsSpeaking}
use meta_overc.Container.Scripts.{HasScript, rollback_line, rollback-Starts}
use meta_overc.Overc.Object.{Overc, delegate, read_retval}
use meta_overc.Overc.Containers.{container_rollback_of}
use meta_overc.Overc.Containers.Relays.{delegate-Starts}
use meta_overc.Overc.Containers.Exit.{IsReported, delegate-IsReported}
use meta_overc.Overc.System.{
  is_zero, Upgraded, upgrade_all, rollback_containers, abort_upgrade, system_upgrade,
}
use meta_overc.Overc.System.Abort.{system_upgrade-failed}

-- Values pushed on a stack in turn
abbrev pub onto : List String → List String → List String
onto [] ys = ys
onto (x ∷ xs) ys = onto xs (x ∷ ys)

-- The scripts are all started in order, or one of them could not be started.
abbrev pub RunsAll : List String → History → Outcome Overc Unit → Type 0
RunsAll lines h (ok a, o, k) = spawns k ≡ onto lines (spawns h)
RunsAll lines h (raised e, o, k) = e ≡ os_error

-- The same for a run that never returns
abbrev pub EndsAfter : List String → History → Outcome Overc Unit → Type 0
EndsAfter lines h (ok a, o, k) = ⊥
EndsAfter lines h (raised e, o, k) = (e ≡ os_error) ⊎ (spawns k ≡ onto lines (spawns h))

RunsAll-shift :
    (line : String) (lines : List String) (h k : History) (out : Outcome Overc Unit)
    → spawns k ≡ line ∷ spawns h
    → RunsAll lines k out
    → RunsAll (line ∷ lines) h out
RunsAll-shift line lines h k (ok a, o, l) e d = d ∙ ap (onto lines) e
RunsAll-shift line lines h k (raised x, o, l) e d = d

RunsAll-step :
    (line : String) (lines : List String) (h : History) (out : Outcome Overc Unit)
    (f : Unit → Exec Overc Unit)
    → IsReported out
    → StartsAt (line ∷ []) h out
    → ((o : Overc) (k : History) → RunsAll lines k (f tt o k))
    → RunsAll (line ∷ lines) h (continue out f)
RunsAll-step line lines h (ok u, o, k) f r e l = RunsAll-shift line lines h k _ e (l o k)
RunsAll-step line lines h (raised x, o, k) f r e l = r

module _ (env : Env) (template : String) (there : HasScript env template) where
  rollback_containers-RunsAll :
      (cns : List String) (o : Overc) (h : History)
      → RunsAll (map (rollback_line template) cns) h (rollback_containers env template cns o h)
  unfolding rollback_containers container_rollback_of ◌>>=◌
  rollback_containers-RunsAll [] o h = refl
  rollback_containers-RunsAll (cn ∷ cns) o h =
      let m = rollback env cn none template true in
      RunsAll-step (rollback_line template cn) (map (rollback_line template) cns) h (delegate m o h)
        _ (delegate-IsReported m (rollback-IsSpeaking env cn none template true) o h)
        ((delegate-Starts _ m (rollback-Starts env template there cn)).at o h)
        (rollback_containers-RunsAll cns)

-- The end of the program with the return code that is kept, if there is one
leaves-EndsAfter :
    (lines : List String) (h : History) (retval : Option ℤ) (o : Overc) (k : History)
    → spawns k ≡ onto lines (spawns h)
    → EndsAfter lines h
        ((read_retval >>= λ code. raise (system_exit code)) (record o { retval = retval }) k)
unfolding read_retval ◌>>=◌
leaves-EndsAfter lines h none o k e = inr e
leaves-EndsAfter lines h (some code) o k e = inr e

RunsAll-EndsAfter :
    (lines : List String) (h : History) (out : Outcome Overc Unit)
    → RunsAll lines h out
    → EndsAfter lines h (continue out (λ u. read_retval >>= λ code. raise (system_exit code)))
RunsAll-EndsAfter lines h (ok u, o, k) e = leaves-EndsAfter lines h o.retval o k e
RunsAll-EndsAfter lines h (raised x, o, k) e = inl e

module _ (env : Env) (template : String) (there : HasScript env template) where
  abort_upgrade-EndsAfter :
      (cns : List String) (o : Overc) (h : History)
      → EndsAfter (map (rollback_line template) cns) h (abort_upgrade env template cns o h)
  unfolding abort_upgrade ◌>>=◌
  abort_upgrade-EndsAfter cns o h =
      RunsAll-EndsAfter (map (rollback_line template) cns) h _
        (rollback_containers-RunsAll env template there cns o h)

  -- Where the script of the template exists: if the upgrade of the containers ends with a return code
  -- that is not 0, then `_system_upgrade` does not return, and the children that it starts after that
  -- are exactly one forced rollback of each container that has been upgraded, in the order of the
  -- upgrades; or one of them could not be started, and the exception is `OSError`.
  pub system_upgrade-EndsAfter :
      (reboots force skipscan skip_del : Bool) (o : Overc) (h : History) (u : Upgraded) (code : ℤ)
      → (upgrade_all env template skip_del o h).0 ≡ ok u
      → (upgrade_all env template skip_del o h).1.retval ≡ some code
      → is_zero code ≡ false
      → EndsAfter
          (map (rollback_line template) u.succeeded)
          (upgrade_all env template skip_del o h).2
          (system_upgrade env template reboots force skipscan skip_del o h)
  system_upgrade-EndsAfter reboots force skipscan skip_del o h u code e r z =
      rw (system_upgrade-failed env template reboots force skipscan skip_del o h u code e r z)
        (abort_upgrade-EndsAfter u.succeeded _ _)
