-- ===== src/Server.antt =====
-- run_server.py: the handlers of the REST interface. Flask gives a handler the query and the root of
-- the URL, and sends what the handler returns.
pub mod Requests
pub mod Start
pub mod Options
pub mod Positional
use meta_overc.Base.{
  String, ◌<>◌, Bool, true, false, not, ◌==◌, ◌&&◌, Option, none, some, if◌then◌else◌,
}
use meta_overc.Text.{newlines_to_semicolons}
use meta_overc.System.{Env}
use meta_overc.Exec.{Exec, ◌>>=◌, ◌>>◌, pure, get, when, print, on_new}
use meta_overc.Overc.Object.{Overc, create}
use meta_overc.Overc.Containers.{
  container_snapshot_of, container_list_of, container_snapshot_list_of, container_activate_of,
  container_start_of, container_stop_of, container_update_of, container_send_image_of,
  container_delete_of, container_upgrade_of, container_delete_snapshots_of,
}
use meta_overc.Overc.Host
use meta_overc.Overc.Host.{host_upgrade_of}

-- A request: `request.url_root`, and `request.args.get`
pub record Request : Type 0 where
  pub url_root : String
  pub args : String → Option String

-- `json_msg`: the text of the field `result`
unfoldable pub json_msg : String → String
unfolding newlines_to_semicolons
json_msg s = newlines_to_semicolons s

abbrev pub is_text : Option String → String → Bool
is_text none text = false
is_text (some s) text = s == text

-- The handlers that call a method of `Overc`
pub data Operation : Type 0 where
  host_rollback host_upgrade host_update host_newer : Operation
  container_update container_list container_snapshot container_list_snapshots : Operation
  container_send_image container_activate container_start container_stop : Operation
  container_upgrade container_delete container_delete_snapshots : Operation

-- `rpm` and `image`: `yes` is true, `no` and nothing are false, and any other text is an error.
unfoldable pub yes_or_no : Option String → Option Bool
yes_or_no none = some false
yes_or_no (some s) = if s == "no" then some false else if s == "yes" then some true else none

-- The line about its use that a handler returns if a parameter is missing or wrong
unfoldable pub usage : Request → Operation → String
usage r container_update = "Usage: " <> (r.url_root <> "container/update?template=<template name>")
usage r container_list = "Usage: " <> (r.url_root <> "container/list?template=<template name>")
usage r container_snapshot =
    "Usage: " <> (r.url_root <> "container/snapshot?name=<container name>&template=<template name>")
usage r container_list_snapshots =
    "Usage: "
    <> (r.url_root <> "container/list_snapshots?name=<container name>&template=<template name>")
usage r container_send_image =
    "Usage: " <> (r.url_root <> "container/send_image?url=<image url>&template=<template name>")
usage r container_activate =
    "Usage: " <> (r.url_root <> "container/activate?name=<container name>&template=<template name>")
usage r container_start =
    "Usage: " <> (r.url_root <> "container/start?name=<container name>&template=<template name>")
usage r container_stop =
    "Usage: " <> (r.url_root <> "container/stop?name=<container name>&template=<template name>")
usage r container_upgrade =
    "Usage: "
    <> (r.url_root
        <> "container/upgrade?name=<container name>&template=<template name>&rpm=yes|no&image=yes|no")
usage r container_delete =
    "Usage: " <> (r.url_root <> "container/delete?name=<container name>&template=<template name>")
usage r container_delete_snapshots =
    "Usage: "
    <> (r.url_root <> "container/delete_snapshots?name=<container name>&template=<template name>")
usage r host_upgrade =
    "Usage: " <> (r.url_root <> "host/upgrade?reboot=[True|False]&force=[True|False]")
usage r _ = ""

abbrev is_given : Option String → Bool
is_given none = false
is_given (some s) = true

module _ (env : Env) where
  -- The call on the new object, or `none` if a parameter is missing or wrong
  unfoldable pub on_template :
      Option String → (String → Exec Overc (Unit {0})) → Option (Exec Overc (Unit {0}))
  on_template none call = none
  on_template (some template) call = some (call template)

  unfoldable pub on_name_and_template :
      Option String
      → Option String
      → (String → String → Exec Overc (Unit {0}))
      → Option (Exec Overc (Unit {0}))
  on_name_and_template (some name) (some template) call = some (call name template)
  on_name_and_template _ _ call = none

  abbrev pub upgrade_call :
      String → String → Option Bool → Option Bool → Option (Exec Overc (Unit {0}))
  upgrade_call name template (some rpm) (some image) =
      some (container_upgrade_of env name template rpm image false)
  upgrade_call name template _ _ = none

  -- The handler of `/container/upgrade` after its parameters are read
  unfoldable pub upgrade_handler :
      Request → Option String → Option String → Option (Exec Overc (Unit {0}))
  unfolding yes_or_no
  upgrade_handler r (some name) (some template) =
      upgrade_call name template (yes_or_no (r.args "rpm")) (yes_or_no (r.args "image"))
  upgrade_handler r _ _ = none

  unfoldable pub host_upgrade_call : Bool → Bool → Exec Overc (Unit {0})
  unfolding host_upgrade_of
  host_upgrade_call reboots force = do
    when reboots (print "do reboot")
    when force (print "do force to upgrade")
    host_upgrade_of env reboots force
    pure tt

  unfoldable pub call_of : Request → Operation → Option (Exec Overc (Unit {0}))
  unfolding on_template on_name_and_template upgrade_handler host_upgrade_call
  call_of r host_rollback = some (do Host.host_rollback env; pure tt)
  call_of r host_upgrade =
      some (host_upgrade_call (is_text (r.args "reboot") "True") (is_text (r.args "force") "True"))
  call_of r host_update = some (do Host.host_update env; pure tt)
  call_of r host_newer = some (do Host.host_newer env; pure tt)
  call_of r container_update = on_template (r.args "template") (container_update_of env)
  call_of r container_list = on_template (r.args "template") (container_list_of env)
  call_of r container_snapshot =
      on_name_and_template (r.args "name") (r.args "template") (container_snapshot_of env)
  call_of r container_list_snapshots =
      on_name_and_template (r.args "name") (r.args "template") (container_snapshot_list_of env)
  call_of r container_send_image =
      on_name_and_template (r.args "url") (r.args "template")
        (λ url template. container_send_image_of env template url)
  call_of r container_activate =
      on_name_and_template (r.args "name") (r.args "template")
        (λ name template. container_activate_of env name template true)
  call_of r container_start =
      on_name_and_template (r.args "name") (r.args "template") (container_start_of env)
  call_of r container_stop =
      on_name_and_template (r.args "name") (r.args "template") (container_stop_of env)
  call_of r container_upgrade = upgrade_handler r (r.args "name") (r.args "template")
  call_of r container_delete =
      on_name_and_template (r.args "name") (r.args "template")
        (λ name template. container_delete_of env name template true)
  call_of r container_delete_snapshots =
      on_name_and_template (r.args "name") (r.args "template") (container_delete_snapshots_of env)

  module _ {S : Type 0} where
    -- The end of a handler: the message of the object after the call, or the usage
    unfoldable pub answer : Overc → String → Option (Exec Overc (Unit {0})) → Exec S String
    unfolding json_msg
    answer overc text none = pure (json_msg text)
    answer overc text (some call) = do
      (_, overc') ← on_new overc call
      pure (json_msg overc'.message)

    -- A handler; the Boolean says whether there is a back end for the host.
    unfoldable pub handle : Bool → Request → Operation → Exec S String
    unfolding create answer call_of usage
    handle backed r op = do overc ← create env backed; answer overc (usage r op) (call_of r op)
