-- ===== src/Overc/Containers/Exit.antt =====
-- How the commands on containers end.
use meta_overc.Base.{String, ℤ, true, Option, none, some, ◌≡◌, refl}
use meta_overc.System.{Env, History}
use meta_overc.Exec.{
  Exec, Outcome, ok, raised, system_exit, os_error, Error, called_process, name_error,
  attribute_error, type_error, key_error, index_error, assertion_error, unbound_local, continue,
  put_back, within, ◌>>=◌, ◌>>◌, raise,
}
use meta_overc.Container.{Container, read_message}
use meta_overc.Container
use meta_overc.Container.Speaking.{Speaks, IsSpeaking}
use meta_overc.Container.Message.{
  activate-IsSpeaking, rollback-IsSpeaking, start-IsSpeaking, stop-IsSpeaking,
  send_image-IsSpeaking, update-IsSpeaking, upgrade-IsSpeaking, list_containers-IsSpeaking,
  list_snapshot-IsSpeaking, snapshot-IsSpeaking, delete-IsSpeaking, delete_snapshots-IsSpeaking,
}
use meta_overc.Overc.Object.{Overc, on_container, delegate, read_retval, set_retval, set_message}
use meta_overc.Overc.Containers.{
  ContainerCommand, rollback_cmd, list_cmd, update_cmd, snapshot_list_cmd, snapshot_cmd, start_cmd,
  stop_cmd, delete_snapshots_cmd, activate_cmd, delete_cmd, send_image_cmd, upgrade_cmd, exit_after,
  container_rollback_of, container_list_of, container_update_of, container_snapshot_list_of,
  container_snapshot_of, container_start_of, container_stop_of, container_delete_snapshots_of,
  container_activate_of, container_delete_of, container_send_image_of, container_upgrade_of,
  container_operation, container_command,
}

-- An operation has kept its return code and its message, or its script could not be started.
abbrev pub IsReported : Outcome Overc Unit → Type 0
IsReported (ok _, o, h) =
    (code : ℤ) × (o.retval ≡ some code) × (o.container.message ≡ some o.message)
IsReported (raised e, o, h) = e ≡ os_error

-- The program ends with the code that is kept.
abbrev pub ExitsWith : Outcome Overc Unit → Type 0
ExitsWith (ok _, o, h) = ⊥
ExitsWith (raised (system_exit code), o, h) =
    (o.retval ≡ some code) × (o.container.message ≡ some o.message)
ExitsWith (raised e, o, h) = e ≡ os_error

-- What `delegate` does after the call
abbrev keep : ℤ → Exec Overc Unit
unfolding on_container
keep code = set_retval code >> (on_container Container.read_message >>= λ text. set_message text)

kept-IsReported :
    (code : ℤ) (o : Overc) (h : History) (message : Option String) (text : String)
    → message ≡ some text
    → IsReported (keep code (record o { container = record { message = message } }) h)
unfolding read_message ◌>>=◌ on_container within read_retval
kept-IsReported code o h none text e = absurd (cc)
kept-IsReported code o h (some t) text e = (code, refl, refl)

keep-IsReported :
    (code : ℤ) (o : Overc) (h : History) (text : String)
    → o.container.message ≡ some text
    → IsReported (keep code o h)
keep-IsReported code o h text e = kept-IsReported code o h o.container.message text e

put_back-IsReported :
    (o : Overc) (out : Outcome Container ℤ)
    → Speaks out
    → IsReported
        (continue (put_back (λ o. o.container) (λ o c. record o { container = c }) o out) keep)
put_back-IsReported o (ok code, c, h) (text, e) =
    keep-IsReported code (record o { container = c }) h text e
put_back-IsReported o (raised x, c, h) e = e

pub delegate-IsReported :
    (m : Exec Container ℤ) → IsSpeaking m → (o : Overc) (h : History) → IsReported (delegate m o h)
unfolding delegate on_container within ◌>>=◌
delegate-IsReported m k o h = put_back-IsReported o (m o.container h) (k.at o.container h)

left-ExitsWith :
    (o : Overc) (h : History) (retval : Option ℤ) (code : ℤ)
    → retval ≡ some code
    → o.container.message ≡ some o.message
    → ExitsWith
        ((read_retval >>= λ code'. raise (system_exit code')) (record o { retval = retval }) h)
unfolding read_retval ◌>>=◌
left-ExitsWith o h none code e d = absurd (cc)
left-ExitsWith o h (some r) code e d = (refl, d)

os_error-ExitsWith :
    (e : Error) (o : Overc) (h : History) → e ≡ os_error → ExitsWith (raised e, o, h)
os_error-ExitsWith (system_exit code) o h r = absurd (cc)
os_error-ExitsWith (called_process code text) o h r = r
os_error-ExitsWith os_error o h r = r
os_error-ExitsWith name_error o h r = r
os_error-ExitsWith attribute_error o h r = r
os_error-ExitsWith type_error o h r = r
os_error-ExitsWith key_error o h r = r
os_error-ExitsWith index_error o h r = r
os_error-ExitsWith assertion_error o h r = r
os_error-ExitsWith unbound_local o h r = r

leave-ExitsWith :
    (out : Outcome Overc Unit)
    → IsReported out
    → ExitsWith (continue out (λ _. read_retval >>= λ code. raise (system_exit code)))
leave-ExitsWith (ok tt, o, h) (code, e, d) = left-ExitsWith o h o.retval code e d
leave-ExitsWith (raised e, o, h) r = os_error-ExitsWith e o h r

exit_after-ExitsWith :
    (m : Exec Overc Unit) (o : Overc) (h : History)
    → IsReported (m o h)
    → ExitsWith (exit_after m o h)
unfolding exit_after ◌>>=◌
exit_after-ExitsWith m o h r = leave-ExitsWith (m o h) r

container_operation-IsReported :
    (env : Env) (c : ContainerCommand) (o : Overc) (h : History)
    → IsReported (container_operation env c o h)
unfolding container_operation container_rollback_of container_list_of container_update_of
    container_snapshot_list_of container_snapshot_of container_start_of container_stop_of
    container_delete_snapshots_of container_activate_of container_delete_of container_send_image_of
    container_upgrade_of Container.get_overlay
container_operation-IsReported env (rollback_cmd name snap template) =
    delegate-IsReported _ (rollback-IsSpeaking env name snap template true)
container_operation-IsReported env (list_cmd template) =
    delegate-IsReported _ (list_containers-IsSpeaking env template)
container_operation-IsReported env (update_cmd template) =
    delegate-IsReported _ (update-IsSpeaking env template)
container_operation-IsReported env (snapshot_list_cmd name template) =
    delegate-IsReported _ (list_snapshot-IsSpeaking env name template)
container_operation-IsReported env (snapshot_cmd name template) =
    delegate-IsReported _ (snapshot-IsSpeaking env name template)
container_operation-IsReported env (start_cmd name template) =
    delegate-IsReported _ (start-IsSpeaking env name template)
container_operation-IsReported env (stop_cmd name template) =
    delegate-IsReported _ (stop-IsSpeaking env name template)
container_operation-IsReported env (delete_snapshots_cmd name template) =
    delegate-IsReported _ (delete_snapshots-IsSpeaking env name template)
container_operation-IsReported env (activate_cmd name template force) =
    delegate-IsReported _ (activate-IsSpeaking env name template force)
container_operation-IsReported env (delete_cmd name template force) =
    delegate-IsReported _ (delete-IsSpeaking env name template force)
container_operation-IsReported env (send_image_cmd url template) =
    delegate-IsReported _ (send_image-IsSpeaking env template url)
container_operation-IsReported env (upgrade_cmd name template rpm image skip_del) =
    delegate-IsReported _ (upgrade-IsSpeaking env name template rpm image skip_del)

-- A command on containers, other than those on overlays, never returns. It ends the program with the return code that it has kept,
-- and its message is the message of the part that has run the script; or the script could not be
-- started, and it raises `OSError`.
pub container_command-ExitsWith :
    (env : Env) (c : ContainerCommand) (o : Overc) (h : History)
    → ExitsWith (container_command env c o h)
unfolding container_command
container_command-ExitsWith env c o h =
    exit_after-ExitsWith (container_operation env c) o h (container_operation-IsReported env c o h)
