-- ===== src/Container/Message.antt =====
-- The message and the exceptions of the operations of `Container`.
use meta_overc.Base.{String, Bool, false, Option}
use meta_overc.System.{Env}
use meta_overc.Container.{
  run_and_report, run_and_complain, activate, rollback, start, stop, send_image, update,
  upgrade_image, upgrade, list_containers, list_snapshot, snapshot, delete, delete_snapshots,
}
use meta_overc.Container.Speaking.{
  IsSpeaking, IsSpeaking-bind, IsSpeaking-if, IsQuiet-speaking, run_script-IsSpeaking, quiet_rules,
}

module _ (env : Env) where
  run_and_report-IsSpeaking :
      (template args good bad : String) → IsSpeaking (run_and_report env template args good bad)
  unfolding run_and_report
  run_and_report-IsSpeaking template args good bad =
      search (IsSpeaking-bind, run_script-IsSpeaking, quiet_rules)

  run_and_complain-IsSpeaking :
      (template args : String) (live : Bool) (bad : String)
      → IsSpeaking (run_and_complain env template args live bad)
  unfolding run_and_complain
  run_and_complain-IsSpeaking template args live bad =
      search (IsSpeaking-bind, run_script-IsSpeaking, quiet_rules)

  pub activate-IsSpeaking :
      (name template : String) (force : Bool) → IsSpeaking (activate env name template force)
  unfolding activate
  activate-IsSpeaking name template force = run_and_report-IsSpeaking _ _ _ _

  pub rollback-IsSpeaking :
      (name : String) (snap : Option String) (template : String) (force : Bool)
      → IsSpeaking (rollback env name snap template force)
  unfolding rollback
  rollback-IsSpeaking name snap template force = run_and_report-IsSpeaking _ _ _ _

  pub start-IsSpeaking : (name template : String) → IsSpeaking (start env name template)
  unfolding start
  start-IsSpeaking name template = run_and_report-IsSpeaking _ _ _ _

  pub stop-IsSpeaking : (name template : String) → IsSpeaking (stop env name template)
  unfolding stop
  stop-IsSpeaking name template = run_and_report-IsSpeaking _ _ _ _

  pub send_image-IsSpeaking : (template url : String) → IsSpeaking (send_image env template url)
  unfolding send_image
  send_image-IsSpeaking template url = run_and_report-IsSpeaking _ _ _ _

  pub update-IsSpeaking : (template : String) → IsSpeaking (update env template)
  unfolding update
  update-IsSpeaking template =
      run_and_report-IsSpeaking template "-U" "\nUpdate ok" "\nUpdate failed"

  pub upgrade_image-IsSpeaking :
      (name template : String) → IsSpeaking (upgrade_image env name template)
  unfolding upgrade_image
  upgrade_image-IsSpeaking name template =
      search
        (IsSpeaking-bind, IsQuiet-speaking, update-IsSpeaking, activate-IsSpeaking, quiet_rules)
        depth 10

  pub upgrade-IsSpeaking :
      (name template : String) (rpm image skip : Bool)
      → IsSpeaking (upgrade env name template rpm image skip)
  unfolding upgrade
  upgrade-IsSpeaking name template rpm image skip =
      search
        (
          IsSpeaking-bind, IsSpeaking-if, upgrade_image-IsSpeaking, run_script-IsSpeaking,
          quiet_rules,
        )
        depth 8

  pub list_containers-IsSpeaking : (template : String) → IsSpeaking (list_containers env template)
  unfolding list_containers
  list_containers-IsSpeaking template =
      run_and_complain-IsSpeaking template "-L" false "\nList failed"

  pub list_snapshot-IsSpeaking :
      (name template : String) → IsSpeaking (list_snapshot env name template)
  unfolding list_snapshot
  list_snapshot-IsSpeaking name template = run_and_complain-IsSpeaking _ _ _ _

  pub snapshot-IsSpeaking : (name template : String) → IsSpeaking (snapshot env name template)
  unfolding snapshot
  snapshot-IsSpeaking name template = run_and_complain-IsSpeaking _ _ _ _

  pub delete-IsSpeaking :
      (name template : String) (force : Bool) → IsSpeaking (delete env name template force)
  unfolding delete
  delete-IsSpeaking name template force = run_and_report-IsSpeaking _ _ _ _

  pub delete_snapshots-IsSpeaking :
      (name template : String) → IsSpeaking (delete_snapshots env name template)
  unfolding delete_snapshots
  delete_snapshots-IsSpeaking name template = run_and_report-IsSpeaking _ _ _ _
