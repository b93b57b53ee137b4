-- ===== src/Container.antt =====
-- Overc/container.py: the operations on containers, each of which runs the script of a template.
pub mod Overlay
pub mod Speaking
pub mod Message
pub mod Keeps
pub mod Scripts
pub mod Relays
pub mod Image
use meta_overc.Base.{
  ℕ, String, ◌<>◌, ℤ, pos, Bool, true, false, not, ◌&&◌, Option, none, some, List, [], ◌==◌, int_eq,
  length, if◌then◌else◌,
}
use meta_overc.Text.{split, strip_newlines}
use meta_overc.System.{Env, os_path_isfile, cat_issue, cube_cat_issue, cube_list, succeeded}
use meta_overc.Exec.{
  Exec, attribute_error, ◌>>=◌, ◌>>◌, pure, raise, get, modify, when, ask, or_raise, on_new,
}
use meta_overc.Logger.{info, error, log}
use meta_overc.Utils.{check_output}
use meta_overc.Process.{Process, new_process, run}

-- The field `message` is set by the first script that runs.
pub record Container : Type 0 where
  pub message : Option String

abbrev pub set_message : String → Exec Container (Unit {0})
set_message text = modify (λ c. record c { message = some text })

-- `self.message`
unfoldable pub read_message : Exec Container String
read_message = do c ← get; or_raise c.message attribute_error

-- `self.message += text`
unfoldable pub add_message : String → Exec Container (Unit {0})
unfolding read_message
add_message text = do old ← read_message; set_message (old <> text)

abbrev pub is_zero : ℤ → Bool
is_zero retval = int_eq retval (pos 0)

-- `CONTAINER_SCRIPT_PATH + "/" + template`
abbrev pub script_path : String → String
script_path template = "/etc/overc/container/" <> ("/" <> template)

abbrev pub flag : Bool → String → String
flag true text = text
flag false text = ""

-- What stands behind the first statement of `get_overlay` is never reached.
unfoldable pub get_overlay : String → List String
get_overlay name = []

unfoldable pub is_overlay : String → ℕ
unfolding get_overlay
is_overlay name = length (get_overlay name)

-- `-b`, if a snapshot is named
abbrev snapshot_args : Option String → String
snapshot_args none = ""
snapshot_args (some snapshot_name) = " -b " <> snapshot_name

module _ (env : Env) where
  -- `run_script`
  unfoldable pub run_script : String → String → Bool → Bool → Exec Container ℤ
  unfolding run log
  run_script template args failok liveoutput = do
    let fname = script_path template
    r ← ask env (os_path_isfile fname)
    if not (succeeded r)
        then (do set_message ("Error! Missing file: " <> fname); pure (pos 1))
        else do
          (retval, process) ← on_new new_process (run env (fname <> (" " <> args)) liveoutput)
          set_message process.message
          if is_zero retval
              then log info (fname <> " ok")
              else when (not failok) (log error (fname <> " failed"))
          pure retval

  -- A script with the default arguments, and the line that is added to its message
  unfoldable pub run_and_report : String → String → String → String → Exec Container ℤ
  unfolding run_script add_message
  run_and_report template args good bad = do
    retval ← run_script template args false true
    if is_zero retval then add_message good else add_message bad
    pure retval

  -- A script that adds a line only if it fails
  unfoldable pub run_and_complain : String → String → Bool → String → Exec Container ℤ
  unfolding run_script add_message
  run_and_complain template args liveoutput bad = do
    retval ← run_script template args false liveoutput
    when (not (is_zero retval)) (add_message bad)
    pure retval

  unfoldable pub activate : String → String → Bool → Exec Container ℤ
  unfolding run_and_report
  activate name template force_create =
      run_and_report template (("-a -n " <> name) <> flag force_create " -f") "\nActivate ok"
        "\nActivate failed"

  unfoldable pub rollback : String → Option String → String → Bool → Exec Container ℤ
  unfolding run_and_report
  rollback name snapshot_name template force =
      run_and_report template
        (("-R -n " <> name) <> (snapshot_args snapshot_name <> flag force " -f")) "\nRollback ok"
        "\nRollback failed"

  unfoldable pub start : String → String → Exec Container ℤ
  unfolding run_and_report
  start name template = run_and_report template ("-S -n " <> name) "\nStart ok" "\nStart failed"

  unfoldable pub stop : String → String → Exec Container ℤ
  unfolding run_and_report
  stop name template = run_and_report template ("-K -n " <> name) "\nStop ok" "\nStop failed"

  unfoldable pub send_image : String → String → Exec Container ℤ
  unfolding run_and_report
  send_image template image_url =
      run_and_report template ("-s -u " <> image_url) "\nSend Image ok" "\nSend Image failed"

  unfoldable pub update : String → Exec Container ℤ
  unfolding run_and_report
  update template = run_and_report template "-U" "\nUpdate ok" "\nUpdate failed"

  -- The branch of `upgrade` for images: an update, and then an activation by force
  unfoldable pub upgrade_image : String → String → Exec Container ℤ
  unfolding update activate read_message
  upgrade_image name template = do
    retval ← update template
    if is_zero retval
        then (do
          msg1 ← read_message
          retval' ← activate name template true
          msg2 ← read_message
          set_message (msg1 <> ("\n" <> msg2))
          pure retval')
        else pure retval

  unfoldable pub upgrade : String → String → Bool → Bool → Bool → Exec Container ℤ
  unfolding upgrade_image run_script add_message
  upgrade name template rpm_upgrade image_upgrade skip_del = do
    retval ←
        if image_upgrade && not rpm_upgrade
        then upgrade_image name template
        else run_script template (("-r -n " <> name) <> flag skip_del " -f") false true
    if is_zero retval then add_message "\nUpgrade ok" else add_message "\nUpgrade failed"
    pure retval

  -- `list`
  unfoldable pub list_containers : String → Exec Container ℤ
  unfolding run_and_complain
  list_containers template = run_and_complain template "-L" false "\nList failed"

  unfoldable pub list_snapshot : String → String → Exec Container ℤ
  unfolding run_and_complain
  list_snapshot name template =
      run_and_complain template ("-B -n " <> name) true "\nList snapshot failed"

  unfoldable pub snapshot : String → String → Exec Container ℤ
  unfolding run_and_complain
  snapshot name template = run_and_complain template ("-p -n " <> name) true "\nSnapshot failed"

  unfoldable pub delete : String → String → Bool → Exec Container ℤ
  unfolding run_and_report
  delete name template force_delete =
      run_and_report template (("-d -n " <> name) <> flag force_delete " -f") "\nDelete ok"
        "\nDelete failed"

  unfoldable pub delete_snapshots : String → String → Exec Container ℤ
  unfolding run_and_report
  delete_snapshots name template =
      run_and_report template ("-D -n " <> name) "\nDelete snapshots ok" "\nDelete snapshots failed"

  unfoldable pub get_issue : String → Exec Container String
  unfolding check_output strip_newlines
  get_issue name = do
    out ← check_output env (if name == "dom0" then cat_issue else cube_cat_issue name)
    pure (strip_newlines out)

  unfoldable pub get_container : Exec Container (List String)
  unfolding check_output strip_newlines split
  get_container = do out ← check_output env cube_list; pure (split (strip_newlines out))

  unfoldable pub is_active : String → String → Exec Container Bool
  unfolding run_script
  is_active cn template = do
    retval ← run_script template ("-A -n " <> cn) true true
    pure (int_eq retval (pos 3))
