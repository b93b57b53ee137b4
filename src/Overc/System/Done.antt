-- ===== src/Overc/System/Done.antt =====
-- What an upgrade of the system does when all containers have been upgraded.
use meta_overc.Base.{String, pos, Bool, true, false, some, ◌≡◌, inl, inr, refl, ap, ◌∙◌, Bool-cases}
use meta_overc.Text.{◌/◌}
use meta_overc.System.{Command, Env, History, reboot, test_exists, succeeded}
use meta_overc.Exec.{
  then_at, Exec, Outcome, ok, raised, bind_ok, put_back, within, ◌>>=◌, print, when,
}
use meta_overc.Exec.Ensures.{Returned-ok}
use meta_overc.Exec.Returns.{
  Any, Returns, ReturnsAt, Returns-with, Returns-bind, Returns-get, Returns-pure, Returns-modify,
  Returns-if, returns_rules,
}
use meta_overc.Utils.{sysroot, system, check_output}
use meta_overc.Logger.{Level, info, log}
use meta_overc.Btrfs.Object.{Btrfs}
use meta_overc.Btrfs.Object.Keeps.{SameSystem, unchanged}
use meta_overc.Btrfs.Ready.{HasSum}
use meta_overc.Btrfs.Upgrade.{do_upgrade}
use meta_overc.Btrfs.Progress.{IsSound}
use meta_overc.Btrfs.Progress.Upgrade.{CanInstall, do_upgrade-succeeds}
use meta_overc.Overc.Object.{Overc, set_message, on_agency}
use meta_overc.Overc.Host.{
  query_packages, log_message, host_newer, need_upgrade, host_upgrade_of, restart,
}
use meta_overc.Overc.Host.Restarts.{EndsWith}
use meta_overc.Overc.System.{Upgraded, upgrade_all, upgrade_host, system_upgrade}
use meta_overc.Overc.System.Overlays.{upgrade_all-HasNoOverlay}
use meta_overc.Overc.System.Abort.{read_retval_set}

-- The object of which the back end is the same but for its message
abbrev SameAgency : Btrfs → Overc → Type 0
SameAgency a o = SameSystem a o.agency

module _ (a : Btrfs) where
  within_Returns :
      {A : Type 0} (Q : A → Type 0) (o : Overc) (out : Outcome Btrfs A)
      → ReturnsAt (SameSystem a) Q out
      → ReturnsAt (SameAgency a) Q (put_back (λ o. o.agency) (λ o b. record o { agency = b }) o out)
  within_Returns Q o (ok x, b, h) p = p
  within_Returns Q o (raised e, b, h) r = absurd r

  on_agency-Returns :
      {A : Type 0} (Q : A → Type 0) (m : Exec Btrfs A)
      → Returns (SameSystem a) Q m
      → Returns (SameAgency a) Q (on_agency m)
  unfolding on_agency within
  on_agency-Returns Q m k = record {
    at = λ o h p. within_Returns Q o (m o.agency h) (k.at o.agency h p);
  }

module _ (env : Env) (a : Btrfs) where
  abbrev Goes : {A : Type 0} → Exec Overc A → Type 0
  Goes m = Returns (SameAgency a) Any m

  set_message-Goes : (text : String) → Goes (set_message text)
  set_message-Goes text = Returns-modify _ (λ o p. p)

  log-Goes : (level : Level) (text : String) → Goes (log level text)
  unfolding log print
  log-Goes level text = record { at = λ o h p. (p, tt) }

  not_asked-Goes : (m : Exec Overc Unit) → Goes (when false m)
  unfolding when
  not_asked-Goes m = Returns-pure tt tt

  -- A query of the package manager returns its status, also if it fails.
  query_packages-Goes : (c : Command) → Goes (query_packages env c)
  unfolding query_packages check_output ◌>>=◌
  query_packages-Goes c = record {
    at = λ o h p. elim (Bool-cases (succeeded (env.reply h c))) [
      | inl e ↦ rw e (p, tt)
      | inr ne ↦ rw ne (p, tt)
    ];
  }

  need_upgrade-Goes : Goes (need_upgrade env)
  unfolding need_upgrade host_newer log_message
  need_upgrade-Goes = search (returns_rules, query_packages-Goes, log-Goes) depth 12

  -- Without a restart of its own, an upgrade of the host returns `True`, also if there is nothing new.
  host_upgrade_of-true :
      (force : Bool)
      → Returns (SameSystem a) (λ r. r ≡ true) (do_upgrade env)
      → Returns (SameAgency a) (λ r. r ≡ true) (host_upgrade_of env false force)
  unfolding host_upgrade_of
  host_upgrade_of-true force upgrades = Returns-bind _ _ need_upgrade-Goes (λ need.
      Returns-if _ _ _
        (Returns-with (λ r. r ≡ true) _ _ (on_agency-Returns a _ _ upgrades)
          (λ rc e. Returns-get _ (λ o p.
            Returns-bind _ _ (set_message-Goes _)
              (λ x. Returns-bind _ _ (not_asked-Goes _) (λ y. Returns-pure rc e)))))
        (Returns-bind _ _ (set_message-Goes _) (λ x.
          Returns-bind _ _ (log-Goes info "There is no new system available to upgrade!")
            (λ y. Returns-pure true refl))))

ReturnsAt-true :
    (a : Btrfs) (out : Outcome Overc Bool)
    → ReturnsAt (SameAgency a) (λ r. r ≡ true) out
    → out.0 ≡ ok true
ReturnsAt-true a (ok r, o, h) (p, e) = ap ok e
ReturnsAt-true a (raised x, o, h) r = absurd r

-- The system upgrade has returned, and if it was asked to restart the machine, that is the last
-- command.
abbrev pub IsDone : Bool → Outcome Overc Unit → Type 0
IsDone reboots out = (out.0 ≡ ok tt) × (reboots ≡ true → EndsWith reboot out.2)

module _ (env : Env) (reboots force skipscan : Bool) (o : Overc) (h : History) where
  upgrade_host-IsDone :
      (overlay_flag : Bool)
      → overlay_flag ≡ false
      → (host_upgrade_of env false force o h).0 ≡ ok true
      → IsDone reboots (upgrade_host env reboots force skipscan overlay_flag o h)
  unfolding upgrade_host restart log system when ◌>>=◌
  upgrade_host-IsDone overlay_flag plain e =
      rw (plain, bind_ok (host_upgrade_of env false force) _ o h e refl)
        (elim (Bool-cases reboots) [
          | inl r ↦ rw r (refl, λ t. (_, refl))
          | inr r ↦ rw r (refl, λ t. absurd (cc))
        ])

module _ (env : Env) (template : String) (reboots force skipscan skip_del : Bool) where
  system_upgrade-upgraded :
      (o o' : Overc) (h h' : History) (u : Upgraded)
      → upgrade_all env template skip_del o h ≡ (ok u, o', h')
      → o'.retval ≡ some (pos 0)
      → system_upgrade env template reboots force skipscan skip_del o h
        ≡ upgrade_host env reboots force skipscan u.overlay_flag o' h'
  unfolding system_upgrade
  system_upgrade-upgraded o o' h h' u all zero =
      then_at (upgrade_all env template skip_del) _ o o' h h' u all
      ∙ read_retval_set _ o' h' (pos 0) zero

  pub system_upgrade-IsDone :
      (o o' : Overc) (h h' : History) (u : Upgraded)
      → upgrade_all env template skip_del o h ≡ (ok u, o', h')
      → o'.retval ≡ some (pos 0)
      → IsSound env
      → CanInstall env o'.agency
      → HasSum o'.agency.kernel o'.agency.kernel_md5
      → o'.agency.bakup_mode ≡ false
      → ((k : History)
          → succeeded (env.reply k (test_exists (sysroot / o'.agency.next_rootfs))) ≡ false)
      → IsDone reboots (system_upgrade env template reboots force skipscan skip_del o h)
  system_upgrade-IsDone o o' h h' u all zero sound can has_sum normal gone =
      let plain =
        Returned-ok _ (upgrade_all env template skip_del o h) u
          ((upgrade_all-HasNoOverlay env template skip_del).at o h) (ap (λ out. out.0) all) in
      let upgrades = do_upgrade-succeeds env sound o'.agency can has_sum normal gone in
      let upgraded =
        ReturnsAt-true o'.agency _
          ((host_upgrade_of-true env o'.agency force upgrades).at o' h' (unchanged o'.agency)) in
      rw (system_upgrade-upgraded o o' h h' u all zero)
        (upgrade_host-IsDone env reboots force skipscan o' h' u.overlay_flag plain upgraded)
