-- ===== src/Main/Program.antt =====
-- overc and factory_clean.py: the two programs. What `parse_args` makes of the arguments of the
-- command line is a parameter.
use meta_overc.Base.{String, ℤ, Option, none, some, List}
use meta_overc.System.{Env, History}
use meta_overc.Exec.{
  ok, raised, Outcome, Exec, system_exit, attribute_error, ◌>>=◌, ◌>>◌, pure, raise, or_value,
  on_new,
}
use meta_overc.Overc.Object.{Overc, is_btrfs, create}
use meta_overc.Overc.Host
use meta_overc.Overc.Host.{host_upgrade_of}
use meta_overc.Overc.System
use meta_overc.Overc.Containers.{
  container_command, container_overlay_list_of, container_overlay_create_of,
  container_overlay_stop_of,
}
use meta_overc.Main.{uncaught, Value, nothing, number, value_of_bool, exit_status}
use meta_overc.Main.Args.{
  Namespace, Method, Call, call_system_upgrade, call_system_rollback, call_factory_reset,
  call_host_rollback, call_host_upgrade, call_host_update, call_host_newer, call_container,
  call_overlay_list, call_overlay_stop, call_overlay_create, call_of,
}

-- What `parse_args` does: it ends the program, after the help with 0 and after an error with 2, or it
-- returns an object, on which `func` is set if the arguments name a subcommand of a group.
pub data Parsed : Type 0 where
  stopped : ℤ → Parsed
  parsed : Option Method → Namespace → Parsed

module _ (env : Env) where
  -- The call of a method, and the value that it returns
  unfoldable pub perform : Call → Exec Overc Value
  unfolding value_of_bool container_command
  perform (call_system_upgrade template reboots force skipscan skip_del) = do
    System.system_upgrade env template reboots force skipscan skip_del
    pure nothing
  perform (call_system_rollback template) = do System.system_rollback env template; pure nothing
  perform call_factory_reset = do Host.factory_reset env; pure nothing
  perform call_host_rollback = do r ← Host.host_rollback env; pure (value_of_bool r)
  perform (call_host_upgrade reboots force) = do host_upgrade_of env reboots force; pure nothing
  perform call_host_update = do rc ← Host.host_update env; pure (number rc)
  perform call_host_newer = do rc ← Host.host_newer env; pure (number rc)
  perform (call_container c) = do container_command env c; pure nothing
  perform (call_overlay_list name) = do container_overlay_list_of env name; pure nothing
  perform (call_overlay_stop name dirs) = do container_overlay_stop_of env name dirs; pure nothing
  perform (call_overlay_create name dirs source) = do
    container_overlay_create_of env name dirs source
    pure nothing

  -- `args.func()`
  unfoldable pub invoke : Option Method → Namespace → Exec Overc Value
  unfolding call_of perform
  invoke none args = raise attribute_error
  invoke (some method) args = do call ← or_value (call_of args method); perform call

  module _ {S : Type 0} where
    -- The statements of the `try`
    unfoldable pub dispatch : Overc → Parsed → Exec S Value
    unfolding invoke
    dispatch overc (stopped code) = raise (system_exit code)
    dispatch overc (parsed func args) = do (value, _) ← on_new overc (invoke func args); pure value

    -- The import of `Overc`, which looks for the back end, and `Overc.Overc()`
    unfoldable pub load : Exec S Overc
    unfolding is_btrfs create
    load = do backed ← is_btrfs env; create env backed

    -- `help` for the description, and the `try`
    unfoldable pub script : (List String → Parsed) → List String → Overc → Exec S Value
    unfolding dispatch Host.help
    script parse_args argv overc = do Host.help env; dispatch overc (parse_args argv)

    -- factory_clean.py
    unfoldable pub factory_clean : Exec S (Unit {0})
    unfolding load
    factory_clean = do overc ← load; on_new overc (Host.system_cleanup env); pure tt

  abbrev pub ended : (Overc → Exec (Unit {0}) Value) → Outcome (Unit {0}) Overc → ℤ
  ended rest (raised e, s, h) = uncaught e
  ended rest (ok overc, s, h) = exit_status (rest overc s h).0

  -- The status with which the program ends. The `try` begins after `Overc()`.
  unfoldable pub main : (List String → Parsed) → List String → History → ℤ
  unfolding load script exit_status uncaught
  main parse_args argv h = ended (script parse_args argv) (load tt h)
