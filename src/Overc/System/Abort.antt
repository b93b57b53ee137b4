-- ===== src/Overc/System/Abort.antt =====
-- What `_system_upgrade` does when a container has failed to upgrade.
use meta_overc.Base.{
  String, ℤ, Bool, true, false, none, some, List, [], ◌∷◌, All, ◌≡◌, refl, ◌∙◌, if◌then◌else◌,
}
use meta_overc.System.{Env, History}
use meta_overc.Exec.{Exec, ok, bind_ok, ◌>>=◌}
use meta_overc.Exec.Ensures.{IsEnded, IsEnded-continue}
use meta_overc.Exec.Keeps.{Since-start, Since-All, Keeps-bind, Keeps-if, Permits}
use meta_overc.Container.Keeps.{
  Isolated, Isolated-within, IsForContainers, isolated_rules, rollback-Isolated, upgrade-Isolated,
  get_issue-Isolated, get_container-Isolated, is_active-Isolated,
}
use meta_overc.Container
use meta_overc.Container.{Container}
use meta_overc.Overc.Object.{Overc, on_container, delegate, read_retval}
use meta_overc.Overc.Containers.{container_upgrade_of, container_rollback_of}
use meta_overc.Overc.System.{
  Upgraded, is_zero, upgrade_known, upgrade_by_dist, upgrade_containers, upgrade_all,
  rollback_containers, abort_upgrade, system_upgrade,
}

on_container-Isolated : {A : Type 0} (m : Exec Container A) → Isolated m → Isolated (on_container m)
unfolding on_container
on_container-Isolated m k = Isolated-within _ _ m k

delegate-Isolated : (m : Exec Container ℤ) → Isolated m → Isolated (delegate m)
unfolding delegate Container.read_message
delegate-Isolated m k = search (isolated_rules, on_container-Isolated) depth 8

read_retval-Isolated : Isolated read_retval
unfolding read_retval
read_retval-Isolated = search (isolated_rules)

module _ (env : Env) where
  upgrade_known-Isolated :
      (cn template : String) (skip_del : Bool) (u : Upgraded)
      → Isolated (upgrade_known env cn template skip_del u)
  unfolding upgrade_known container_upgrade_of
  upgrade_known-Isolated cn template skip_del u =
      search (isolated_rules, delegate-Isolated, upgrade-Isolated, read_retval-Isolated) depth 10

  upgrade_by_dist-Isolated :
      (cn template : String) (skip_del : Bool) (ds : List String) (u : Upgraded)
      → Isolated (upgrade_by_dist env cn template skip_del ds u)
  unfolding upgrade_by_dist
  upgrade_by_dist-Isolated cn template skip_del [] u = search (isolated_rules)
  upgrade_by_dist-Isolated cn template skip_del (d ∷ ds) u =
      Keeps-bind _ _ (on_container-Isolated _ (get_issue-Isolated env cn)) (λ issue.
        Keeps-if _ _ _ (upgrade_known-Isolated cn template skip_del u)
          (upgrade_by_dist-Isolated cn template skip_del ds u))

  upgrade_containers-Isolated :
      (template : String) (skip_del : Bool) (cns : List String) (u : Upgraded)
      → Isolated (upgrade_containers env template skip_del cns u)
  unfolding upgrade_containers
  upgrade_containers-Isolated template skip_del [] u = search (isolated_rules)
  upgrade_containers-Isolated template skip_del (cn ∷ cns) u =
      search
        (
          isolated_rules,
          on_container-Isolated,
          is_active-Isolated,
          upgrade_by_dist-Isolated,
          read_retval-Isolated,
          upgrade_containers-Isolated template skip_del cns,
        )
        depth 10

  upgrade_all-Isolated :
      (template : String) (skip_del : Bool) → Isolated (upgrade_all env template skip_del)
  unfolding upgrade_all
  upgrade_all-Isolated template skip_del =
      search
        (isolated_rules, on_container-Isolated, get_container-Isolated, upgrade_containers-Isolated)

  rollback_containers-Isolated :
      (template : String) (cns : List String) → Isolated (rollback_containers env template cns)
  unfolding rollback_containers container_rollback_of
  rollback_containers-Isolated template [] = search (isolated_rules)
  rollback_containers-Isolated template (cn ∷ cns) =
      Keeps-bind _ _ (delegate-Isolated _ (rollback-Isolated env cn none template true))
        (λ x. rollback_containers-Isolated template cns)

  abort_upgrade-Isolated :
      (template : String) (cns : List String) → Isolated (abort_upgrade env template cns)
  unfolding abort_upgrade
  abort_upgrade-Isolated template cns =
      search (isolated_rules, rollback_containers-Isolated, read_retval-Isolated)

abort_upgrade-IsEnded :
    (env : Env) (template : String) (cns : List String) (o : Overc) (h : History)
    → IsEnded (abort_upgrade env template cns o h)
unfolding abort_upgrade ◌>>=◌
abort_upgrade-IsEnded env template cns o h =
    IsEnded-continue (rollback_containers env template cns o h) _
      (λ a o' h'. IsEnded-continue (read_retval o' h') _ (λ code s k. tt))

pub read_retval_set :
    {A : Type 0} (k : ℤ → Exec Overc A) (o : Overc) (h : History) (code : ℤ)
    → o.retval ≡ some code
    → (read_retval >>= k) o h ≡ k code o h
unfolding read_retval ◌>>=◌
read_retval_set k o h code r = rw r refl

if_false :
    {S A : Type 0} (b : Bool) (m n : Exec S A) (s : S) (h : History)
    → b ≡ false
    → (if b then m else n) s h ≡ n s h
if_false b m n s h e = rw e refl

module _ (env : Env) (template : String) (reboots force skipscan skip_del : Bool) where
  -- The whole is the upgrade of the containers and then the branch for a failure.
  pub system_upgrade-failed :
      (o : Overc) (h : History) (u : Upgraded) (code : ℤ)
      → (upgrade_all env template skip_del o h).0 ≡ ok u
      → (upgrade_all env template skip_del o h).1.retval ≡ some code
      → is_zero code ≡ false
      → system_upgrade env template reboots force skipscan skip_del o h
        ≡ abort_upgrade env template u.succeeded
            (upgrade_all env template skip_del o h).1
            (upgrade_all env template skip_del o h).2
  unfolding system_upgrade
  system_upgrade-failed o h u code e r z =
      bind_ok (upgrade_all env template skip_del) _ o h e refl
      ∙ (read_retval_set _ _ _ code r ∙ if_false (is_zero code) _ _ _ _ z)

  -- If the upgrade of the containers ends with a return code that is not 0, then `_system_upgrade`
  -- does not return, but ends the program or raises an exception; and no command of it is about the
  -- host: after a history of commands about containers there still are no others, so that no root
  -- file system is changed or activated and the machine is not restarted.
  pub system_upgrade_aborts :
      (o : Overc) (h : History) (u : Upgraded) (code : ℤ)
      → (upgrade_all env template skip_del o h).0 ≡ ok u
      → (upgrade_all env template skip_del o h).1.retval ≡ some code
      → is_zero code ≡ false
      → All (Permits IsForContainers) h
      → IsEnded (system_upgrade env template reboots force skipscan skip_del o h)
        × All
            (Permits IsForContainers)
            (system_upgrade env template reboots force skipscan skip_del o h).2
  system_upgrade_aborts o h u code e r z p = rw (system_upgrade-failed o h u code e r z) (
    abort_upgrade-IsEnded env template u.succeeded _ _,
    Since-All
        ((abort_upgrade-Isolated env template u.succeeded).at h _ _
          ((upgrade_all-Isolated env template skip_del).at h o h (tt, Since-start))).1
        p,
  )
