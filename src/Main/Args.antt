-- ===== src/Main/Args.antt =====
-- overc and Overc/overc.py: the object that `parse_args` of argparse returns, and what the methods
-- behind the subcommands read from it.
use meta_overc.Base.{String, Bool, true, false, not, ◌==◌, Option, none, some, if◌then◌else◌}
use meta_overc.Exec.{Result, ok, raised, attribute_error, type_error}
use meta_overc.Overc.Containers.{
  ContainerCommand, rollback_cmd, list_cmd, update_cmd, snapshot_list_cmd, snapshot_cmd, start_cmd,
  stop_cmd, delete_snapshots_cmd, activate_cmd, delete_cmd, send_image_cmd, upgrade_cmd,
}

-- The value of an attribute: a text, `None`, or the Boolean of an option without a value
pub data Arg : Type 0 where
  text : String → Arg
  absent : Arg
  switch : Bool → Arg

-- The attributes that are set
abbrev pub Namespace : Type 0
Namespace = String → Option Arg

-- The methods that `set_defaults` binds to `func`
pub data Method : Type 0 where
  system_upgrade system_rollback factory_reset : Method
  host_rollback host_upgrade host_update host_newer : Method
  container_rollback container_list container_snapshot_list container_update : Method
  container_send_image container_snapshot container_upgrade container_activate : Method
  container_start container_stop container_delete container_delete_snapshots : Method
  container_overlay : Method

-- What a method does, with the values that it has read
pub data Call : Type 0 where
  -- The template, `reboot`, `force`, `skipscan` and `skip_del`
  call_system_upgrade : String → Bool → Bool → Bool → Bool → Call
  call_system_rollback : String → Call
  call_factory_reset call_host_rollback call_host_update call_host_newer : Call
  call_host_upgrade : Bool → Bool → Call
  call_container : ContainerCommand → Call
  call_overlay_list : String → Call
  call_overlay_stop : String → Option String → Call
  call_overlay_create : String → Option String → Option String → Call

infixl 5 ◌>>=◌
unfoldable pub ◌>>=◌ : {A B : Type 0} → Result A → (A → Result B) → Result B
ok a >>= f = f a
raised e >>= f = raised e

-- A text: the template is joined to a path. An argument that is required has a text.
abbrev pub as_text : Arg → Result String
as_text (text s) = ok s
as_text _ = raised type_error

-- A name is put into a text by `%s`.
abbrev pub as_name : Arg → Result String
as_name (text s) = ok s
as_name absent = ok "None"
as_name (switch true) = ok "True"
as_name (switch false) = ok "False"

-- A text or `None`: an argument that may be missing and an option with a value have no other value.
abbrev pub as_option : Arg → Result (Option String)
as_option (text s) = ok (some s)
as_option absent = ok none
as_option (switch b) = raised type_error

-- A test of the value
abbrev pub as_switch : Arg → Result Bool
as_switch (text s) = ok (not (s == ""))
as_switch absent = ok false
as_switch (switch b) = ok b

abbrev pub attribute : Option Arg → Result Arg
attribute none = raised attribute_error
attribute (some a) = ok a

-- `self.args.<key>`
unfoldable pub read_text : Namespace → String → Result String
unfolding ◌>>=◌
read_text args key = attribute (args key) >>= as_text

unfoldable pub read_name : Namespace → String → Result String
unfolding ◌>>=◌
read_name args key = attribute (args key) >>= as_name

unfoldable pub read_option : Namespace → String → Result (Option String)
unfolding ◌>>=◌
read_option args key = attribute (args key) >>= as_option

unfoldable pub read_switch : Namespace → String → Result Bool
unfolding ◌>>=◌
read_switch args key = attribute (args key) >>= as_switch

module _ (args : Namespace) where
  -- A method of one container and one template
  unfoldable pub read_pair : (String → String → ContainerCommand) → Result Call
  unfolding read_name read_text
  read_pair make = do
    name ← read_name args "name"
    template ← read_text args "template"
    ok (call_container (make name template))

  -- The same with `force`
  unfoldable pub read_forced : (String → String → Bool → ContainerCommand) → Result Call
  unfolding read_name read_text read_switch
  read_forced make = do
    name ← read_name args "name"
    template ← read_text args "template"
    force ← read_switch args "force"
    ok (call_container (make name template force))

  unfoldable pub read_template : (String → Call) → Result Call
  unfolding read_text
  read_template make = do template ← read_text args "template"; ok (make template)

  -- The branches of `container_overlay` that stop and create an overlay
  unfoldable pub read_stop : Result Call
  unfolding read_name read_option
  read_stop = do
    name ← read_name args "name"
    oldir ← read_option args "oldir"
    ok (call_overlay_stop name oldir)

  unfoldable pub read_create : Result Call
  unfolding read_name read_option
  read_create = do
    name ← read_name args "name"
    oldir ← read_option args "oldir"
    olsource ← read_option args "olsource"
    ok (call_overlay_create name oldir olsource)

  -- `container_overlay`
  unfoldable pub read_overlay : Result Call
  unfolding read_name read_switch read_stop read_create
  read_overlay = do
    ollist ← read_switch args "ollist"
    if ollist
        then (do name ← read_name args "name"; ok (call_overlay_list name))
        else do olstop ← read_switch args "olstop"; if olstop then read_stop else read_create

  -- What each method reads, in its order
  unfoldable pub call_of : Method → Result Call
  unfolding read_template read_switch read_pair read_forced read_overlay read_option
  call_of system_upgrade = do
    template ← read_text args "template"
    reboots ← read_switch args "reboot"
    force ← read_switch args "force"
    skipscan ← read_switch args "skipscan"
    skip_del ← read_switch args "skip_del"
    ok (call_system_upgrade template reboots force skipscan skip_del)
  call_of system_rollback = read_template call_system_rollback
  call_of factory_reset = ok call_factory_reset
  call_of host_rollback = ok call_host_rollback
  call_of host_upgrade = do
    reboots ← read_switch args "reboot"
    force ← read_switch args "force"
    ok (call_host_upgrade reboots force)
  call_of host_update = ok call_host_update
  call_of host_newer = ok call_host_newer
  call_of container_rollback = do
    name ← read_name args "name"
    snapshot_name ← read_option args "snapshot_name"
    template ← read_text args "template"
    ok (call_container (rollback_cmd name snapshot_name template))
  call_of container_list = read_template (λ template. call_container (list_cmd template))
  call_of container_snapshot_list = read_pair snapshot_list_cmd
  call_of container_update = read_template (λ template. call_container (update_cmd template))
  call_of container_send_image = do
    template ← read_text args "template"
    image_url ← read_name args "image_url"
    ok (call_container (send_image_cmd image_url template))
  call_of container_snapshot = read_pair snapshot_cmd
  call_of container_upgrade = do
    name ← read_name args "name"
    template ← read_text args "template"
    rpm ← read_switch args "rpm"
    image ← read_switch args "image"
    skip_del ← read_switch args "skip_del"
    ok (call_container (upgrade_cmd name template rpm image skip_del))
  call_of container_activate = read_forced activate_cmd
  call_of container_start = read_pair start_cmd
  call_of container_stop = read_pair stop_cmd
  call_of container_delete = read_forced delete_cmd
  call_of container_delete_snapshots = read_pair delete_snapshots_cmd
  call_of container_overlay = read_overlay
