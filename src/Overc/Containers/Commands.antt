-- ===== src/Overc/Containers/Commands.antt =====
-- The scripts behind the commands on containers. Their arguments are those of README.container, but for
-- the `-f` of a rollback and of an upgrade, which the code adds.
use meta_overc.Base.{
  String, ◌<>◌, Bool, true, false, not, ◌&&◌, Option, none, some, ◌≡◌, if◌then◌else◌,
}
use meta_overc.System.{Env, History, Execution}
use meta_overc.Process.Output.{all_output, rounds_of}
use meta_overc.Container.{is_zero, script_path, flag, Container, run_and_report, run_and_complain}
use meta_overc.Container
use meta_overc.Container.Scripts.{HasScript, run_and_report-Starts, run_and_complain-Starts}
use meta_overc.Container.Relays.{CanStart, run_and_report-Relays, run_and_complain-Relays}
use meta_overc.Overc.Object.{Overc, delegate}
use meta_overc.Overc.Containers.{
  ContainerCommand, rollback_cmd, list_cmd, update_cmd, snapshot_list_cmd, snapshot_cmd, start_cmd,
  stop_cmd, delete_snapshots_cmd, activate_cmd, delete_cmd, send_image_cmd, upgrade_cmd,
  container_rollback_of, container_list_of, container_update_of, container_snapshot_list_of,
  container_snapshot_of, container_start_of, container_stop_of, container_delete_snapshots_of,
  container_activate_of, container_delete_of, container_send_image_of, container_upgrade_of,
  container_operation, container_command,
}
use meta_overc.Overc.Containers.Relays.{IsLeft, IsRelayed, delegate-IsLeft, exit_after-IsRelayed}

abbrev pub template_of : ContainerCommand → String
template_of (rollback_cmd name snapshot template) = template
template_of (list_cmd template) = template
template_of (update_cmd template) = template
template_of (snapshot_list_cmd name template) = template
template_of (snapshot_cmd name template) = template
template_of (start_cmd name template) = template
template_of (stop_cmd name template) = template
template_of (delete_snapshots_cmd name template) = template
template_of (activate_cmd name template force) = template
template_of (delete_cmd name template force) = template
template_of (send_image_cmd url template) = template
template_of (upgrade_cmd name template rpm image skip_del) = template

-- `-b`, if a snapshot is named
abbrev snapshot_option : Option String → String
snapshot_option none = ""
snapshot_option (some snapshot) = " -b " <> snapshot

-- The arguments of the script. A rollback has `-f` always, and an upgrade that keeps the snapshots.
abbrev pub script_args : ContainerCommand → String
script_args (rollback_cmd name snapshot template) =
    ("-R -n " <> name) <> (snapshot_option snapshot <> " -f")
script_args (list_cmd template) = "-L"
script_args (update_cmd template) = "-U"
script_args (snapshot_list_cmd name template) = "-B -n " <> name
script_args (snapshot_cmd name template) = "-p -n " <> name
script_args (start_cmd name template) = "-S -n " <> name
script_args (stop_cmd name template) = "-K -n " <> name
script_args (delete_snapshots_cmd name template) = "-D -n " <> name
script_args (activate_cmd name template force) = ("-a -n " <> name) <> flag force " -f"
script_args (delete_cmd name template force) = ("-d -n " <> name) <> flag force " -f"
script_args (send_image_cmd url template) = "-s -u " <> url
script_args (upgrade_cmd name template rpm image skip_del) =
    ("-r -n " <> name) <> flag skip_del " -f"

abbrev verdict : Bool → String → String
verdict good what = if good then "\n" <> (what <> " ok") else "\n" <> (what <> " failed")

abbrev complaint : Bool → String → String
complaint good what = if good then "" else "\n" <> (what <> " failed")

-- The line that is added to the output of the script
abbrev pub report : ContainerCommand → Bool → String
report (rollback_cmd name snapshot template) good = verdict good "Rollback"
report (list_cmd template) good = complaint good "List"
report (update_cmd template) good = verdict good "Update"
report (snapshot_list_cmd name template) good = complaint good "List snapshot"
report (snapshot_cmd name template) good = complaint good "Snapshot"
report (start_cmd name template) good = verdict good "Start"
report (stop_cmd name template) good = verdict good "Stop"
report (delete_snapshots_cmd name template) good = verdict good "Delete snapshots"
report (activate_cmd name template force) good = verdict good "Activate"
report (delete_cmd name template force) good = verdict good "Delete"
report (send_image_cmd url template) good = verdict good "Send Image"
report (upgrade_cmd name template rpm image skip_del) good = verdict good "Upgrade"

-- All but an upgrade by an image
abbrev pub IsDirect : ContainerCommand → Type 0
IsDirect (upgrade_cmd name template rpm image skip_del) = (image && not rpm) ≡ false
IsDirect c = Unit

abbrev pub command_line : ContainerCommand → String
command_line c = script_path (template_of c) <> (" " <> script_args c)

module _ (env : Env) (child : Execution) (template : String) (there : HasScript env template) where
  module _ (args : String) (starts : CanStart env (script_path template <> (" " <> args)) child)
      (o : Overc) (h : History) where
    reported :
        (good bad : String)
        → IsLeft
            (script_path template <> (" " <> args))
            child.code
            (all_output (rounds_of child) <> (if is_zero child.code then good else bad))
            o
            h
            (delegate (run_and_report env template args good bad) o h)
    reported good bad =
        delegate-IsLeft _ _ _ _
          (run_and_report-Relays env template there child args starts good bad)
          (run_and_report-Starts env template there args good bad) o h

    complained :
        (live : Bool) (bad : String)
        → IsLeft
            (script_path template <> (" " <> args))
            child.code
            (all_output (rounds_of child) <> (if is_zero child.code then "" else bad))
            o
            h
            (delegate (run_and_complain env template args live bad) o h)
    complained live bad =
        delegate-IsLeft _ _ _ _
          (run_and_complain-Relays env template there child args starts live bad)
          (run_and_complain-Starts env template there args live bad) o h

-- An operation on containers, other than an upgrade by an image, whose script exists and can be started
pub container_operation-IsLeft :
    (env : Env) (child : Execution) (c : ContainerCommand)
    → IsDirect c
    → HasScript env (template_of c)
    → CanStart env (command_line c) child
    → (o : Overc) (h : History)
    → IsLeft
        (command_line c)
        child.code
        (all_output (rounds_of child) <> report c (is_zero child.code))
        o
        h
        (container_operation env c o h)
unfolding container_operation container_rollback_of container_list_of container_update_of
    container_snapshot_list_of container_snapshot_of container_start_of container_stop_of
    container_delete_snapshots_of container_activate_of container_delete_of container_send_image_of
    container_upgrade_of Container.rollback Container.list_containers Container.update
    Container.list_snapshot Container.snapshot Container.start Container.stop
    Container.delete_snapshots Container.activate Container.delete Container.send_image
    Container.upgrade Container.get_overlay run_and_report
container_operation-IsLeft env child (rollback_cmd name none template) direct there starts o h =
    reported env child template there (script_args (rollback_cmd name none template)) starts o h
      "\nRollback ok" "\nRollback failed"
container_operation-IsLeft env child (rollback_cmd name (some s) template) direct there starts o h =
    reported env child template there _ starts o h "\nRollback ok" "\nRollback failed"
container_operation-IsLeft env child (list_cmd template) direct there starts o h =
    complained env child template there (script_args (list_cmd template)) starts o h false
      "\nList failed"
container_operation-IsLeft env child (update_cmd template) direct there starts o h =
    reported env child template there (script_args (update_cmd template)) starts o h "\nUpdate ok"
      "\nUpdate failed"
container_operation-IsLeft env child (snapshot_list_cmd name template) direct there starts o h =
    complained env child template there (script_args (snapshot_list_cmd name template)) starts o h
      true "\nList snapshot failed"
container_operation-IsLeft env child (snapshot_cmd name template) direct there starts o h =
    complained env child template there (script_args (snapshot_cmd name template)) starts o h true
      "\nSnapshot failed"
container_operation-IsLeft env child (start_cmd name template) direct there starts o h =
    reported env child template there (script_args (start_cmd name template)) starts o h
      "\nStart ok" "\nStart failed"
container_operation-IsLeft env child (stop_cmd name template) direct there starts o h =
    reported env child template there (script_args (stop_cmd name template)) starts o h "\nStop ok"
      "\nStop failed"
container_operation-IsLeft env child (delete_snapshots_cmd name template) direct there starts o h =
    reported env child template there (script_args (delete_snapshots_cmd name template)) starts o h
      "\nDelete snapshots ok" "\nDelete snapshots failed"
container_operation-IsLeft env child (activate_cmd name template force) direct there starts o h =
    reported env child template there (script_args (activate_cmd name template force)) starts o h
      "\nActivate ok" "\nActivate failed"
container_operation-IsLeft env child (delete_cmd name template force) direct there starts o h =
    reported env child template there (script_args (delete_cmd name template force)) starts o h
      "\nDelete ok" "\nDelete failed"
container_operation-IsLeft env child (send_image_cmd url template) direct there starts o h =
    reported env child template there (script_args (send_image_cmd url template)) starts o h
      "\nSend Image ok" "\nSend Image failed"
container_operation-IsLeft env child (upgrade_cmd name template rpm image skip_del) direct there
      starts o h =
    rw direct (
      reported env child template there (script_args (upgrade_cmd name template rpm image skip_del))
        starts o h "\nUpgrade ok" "\nUpgrade failed")

-- A command on containers, other than an upgrade by an image, whose script exists and can be started
-- starts that script once, with the arguments that `script_args` lists, and no other child. It ends the
-- program with the code of the script. The message is then all that has been read from the script in
-- the rounds of `Process.run`, in the order of reading, and the line that says how the operation has ended; the code is kept beside it,
-- and nothing else of the object has changed.
pub container_command-IsRelayed :
    (env : Env) (child : Execution) (c : ContainerCommand)
    → IsDirect c
    → HasScript env (template_of c)
    → CanStart env (command_line c) child
    → (o : Overc) (h : History)
    → IsRelayed
        (command_line c)
        child.code
        (all_output (rounds_of child) <> report c (is_zero child.code))
        o
        h
        (container_command env c o h)
unfolding container_command
container_command-IsRelayed env child c direct there starts o h =
    exit_after-IsRelayed (container_operation env c) _ _ _ o h
      (container_operation-IsLeft env child c direct there starts o h)
