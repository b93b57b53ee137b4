-- ===== src/Overc/Host/Restarts.antt =====
-- When an upgrade of the host restarts the machine.
use meta_overc.Base.{or_true, Bool, true, ◌∷◌, ◌≡◌, refl}
use meta_overc.System.{Command, Env, History, ran, reboot}
use meta_overc.Exec.{◌>>=◌, ◌>>◌, pure, when}
use meta_overc.Exec.Ensures.{Ensures, Ensures-last}
use meta_overc.Logger.{log}
use meta_overc.Utils.{system}
use meta_overc.Overc.Host.{restart, host_upgrade_of}

-- The last event of a history is a command.
abbrev pub EndsWith : Command → History → Type 0
EndsWith c h = (before : History) × (h ≡ ran c ∷ before)

module _ (env : Env) where
  restart-EndsWith :
      (rc : Bool) → Ensures (when true (restart env) >> pure rc) (λ r o h. EndsWith reboot h)
  unfolding when restart log system ◌>>=◌
  restart-EndsWith rc = record { at = λ o h. (_, refl) }

  -- A forced upgrade of the host that is asked to restart the machine and that returns has restarted
  -- it as its last command, whether it returns `True` or `False`.
  pub host_upgrade_of-EndsWith :
      Ensures (host_upgrade_of env true true) (λ rc o h. EndsWith reboot h)
  unfolding host_upgrade_of
  host_upgrade_of-EndsWith = Ensures-last _ _ (λ need. rw (or_true need) (
      Ensures-last _ _ (λ rc. Ensures-last _ _ (λ o. Ensures-last _ _ (λ u. restart-EndsWith rc)))))
