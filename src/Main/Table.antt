-- ===== src/Main/Table.antt =====
-- overc: the subcommands, with their arguments and the methods behind them.
use meta_overc.Base.{String, List, [], ◌∷◌}
use meta_overc.Main.Args.{
  Method, system_upgrade, system_rollback, factory_reset, host_rollback, host_upgrade, host_update,
  host_newer, container_rollback, container_list, container_snapshot_list, container_update,
  container_send_image, container_snapshot, container_upgrade, container_activate, container_start,
  container_stop, container_delete, container_delete_snapshots, container_overlay,
}

-- One `add_argument`, with the attribute that it sets
pub data Argument : Type 0 where
  -- A positional argument, and one with `nargs='?'`
  required optional : String → Argument
  -- An option with `action="store_true"`: its names and `dest`
  store_true : List String → String → Argument
  -- An option with a value
  store : List String → String → Argument

pub record Subcommand : Type 0 where
  pub group : String
  pub name : String
  pub func : Method
  pub arguments : List Argument

abbrev subcommand : String → String → Method → List Argument → Subcommand
subcommand group name func arguments = record {
  group = group;
  name = name;
  func = func;
  arguments = arguments;
}

abbrev reboot_option : Argument
reboot_option = store_true ("-r" ∷ "--reboot" ∷ []) "reboot"

abbrev force_option : Argument
force_option = store_true ("-f" ∷ "--force" ∷ []) "force"

abbrev skip_del_option : Argument
skip_del_option = store_true ("-S" ∷ "--skipdel" ∷ []) "skip_del"

abbrev pair : List Argument
pair = required "name" ∷ required "template" ∷ []

abbrev pub system_commands : List Subcommand
system_commands =
    subcommand "system" "upgrade" system_upgrade (
      required "template"
      ∷ reboot_option
      ∷ force_option
      ∷ store_true ("-s" ∷ "--skipscan" ∷ []) "skipscan"
      ∷ skip_del_option
      ∷ [])
    ∷ subcommand "system" "rollback" system_rollback (required "template" ∷ [])
    ∷ subcommand "system" "factory-reset" factory_reset []
    ∷ []

abbrev pub host_commands : List Subcommand
host_commands =
    subcommand "host" "rollback" host_rollback (reboot_option ∷ [])
    ∷ subcommand "host" "upgrade" host_upgrade (reboot_option ∷ force_option ∷ [])
    ∷ subcommand "host" "update" host_update []
    ∷ subcommand "host" "newer" host_newer []
    ∷ []

abbrev pub container_commands : List Subcommand
container_commands =
    subcommand "container" "rollback" container_rollback
      (required "name" ∷ required "template" ∷ optional "snapshot_name" ∷ [])
    ∷ subcommand "container" "list_containers" container_list (required "template" ∷ [])
    ∷ subcommand "container" "list_snapshots" container_snapshot_list pair
    ∷ subcommand "container" "update" container_update (required "template" ∷ [])
    ∷ subcommand "container" "send_image" container_send_image
        (required "image_url" ∷ required "template" ∷ [])
    ∷ subcommand "container" "snapshot" container_snapshot pair
    ∷ subcommand "container" "upgrade" container_upgrade (
        optional "name"
        ∷ required "template"
        ∷ store_true ("-r" ∷ "--rpm" ∷ []) "rpm"
        ∷ store_true ("-i" ∷ "--image" ∷ []) "image"
        ∷ skip_del_option
        ∷ [])
    ∷ subcommand "container" "activate" container_activate
        (required "name" ∷ required "template" ∷ force_option ∷ [])
    ∷ subcommand "container" "start" container_start pair
    ∷ subcommand "container" "stop" container_stop pair
    ∷ subcommand "container" "delete" container_delete
        (required "name" ∷ required "template" ∷ force_option ∷ [])
    ∷ subcommand "container" "delete_snapshots" container_delete_snapshots pair
    ∷ subcommand "container" "overlay" container_overlay (
        required "name"
        ∷ store_true ("--stop" ∷ []) "olstop"
        ∷ store ("--dir" ∷ []) "oldir"
        ∷ store ("--source" ∷ []) "olsource"
        ∷ store_true ("--list" ∷ []) "ollist"
        ∷ [])
    ∷ []
