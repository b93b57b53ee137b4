-- ===== src/Overc/Containers.antt =====
-- Overc/overc.py: the operations on one container, and their forms for the command line, which end
-- with the return code of the operation.
pub mod Exit
pub mod Relays
pub mod Commands
use meta_overc.Base.{
  String, ◌<>◌, ℤ, pos, Bool, true, false, Option, none, some, List, [], ◌∷◌, leb, length,
  if◌then◌else◌,
}
use meta_overc.Text.{join}
use meta_overc.System.{Env}
use meta_overc.Exec.{Exec, system_exit, type_error, ◌>>=◌, ◌>>◌, pure, raise, modify}
use meta_overc.Logger.{info, log}
use meta_overc.Btrfs.Cleanup.{clean_container}
use meta_overc.Container
use meta_overc.Container.Overlay
use meta_overc.Overc.Object.{Overc, set_retval, read_retval, on_agency, on_container, delegate}

module _ (env : Env) where
  unfoldable pub container_rollback_of :
      String → Option String → String → Bool → Exec Overc (Unit {0})
  unfolding delegate Container.rollback
  container_rollback_of container snapshot template force =
      delegate (Container.rollback env container snapshot template force)

  unfoldable pub container_list_of : String → Exec Overc (Unit {0})
  unfolding delegate Container.list_containers
  container_list_of template = delegate (Container.list_containers env template)

  unfoldable pub container_snapshot_list_of : String → String → Exec Overc (Unit {0})
  unfolding delegate Container.list_snapshot
  container_snapshot_list_of container template =
      delegate (Container.list_snapshot env container template)

  unfoldable pub container_snapshot_of : String → String → Exec Overc (Unit {0})
  unfolding delegate Container.snapshot
  container_snapshot_of container template = delegate (Container.snapshot env container template)

  unfoldable pub container_activate_of : String → String → Bool → Exec Overc (Unit {0})
  unfolding delegate Container.activate
  container_activate_of container template force =
      delegate (Container.activate env container template force)

  unfoldable pub container_start_of : String → String → Exec Overc (Unit {0})
  unfolding delegate Container.start
  container_start_of container template = delegate (Container.start env container template)

  unfoldable pub container_stop_of : String → String → Exec Overc (Unit {0})
  unfolding delegate Container.stop
  container_stop_of container template = delegate (Container.stop env container template)

  unfoldable pub container_update_of : String → Exec Overc (Unit {0})
  unfolding delegate Container.update
  container_update_of template = delegate (Container.update env template)

  unfoldable pub container_send_image_of : String → String → Exec Overc (Unit {0})
  unfolding delegate Container.send_image
  container_send_image_of template url = delegate (Container.send_image env template url)

  unfoldable pub container_delete_of : String → String → Bool → Exec Overc (Unit {0})
  unfolding delegate Container.delete
  container_delete_of container template force =
      delegate (Container.delete env container template force)

  unfoldable pub container_upgrade_of : String → String → Bool → Bool → Bool → Exec Overc (Unit {0})
  unfolding delegate Container.upgrade
  container_upgrade_of container template rpm image skip_del =
      delegate (Container.upgrade env container template rpm image skip_del)

  unfoldable pub container_delete_snapshots_of : String → String → Exec Overc (Unit {0})
  unfolding delegate Container.delete_snapshots
  container_delete_snapshots_of container template =
      delegate (Container.delete_snapshots env container template)

  unfoldable pub container_overlay_list_of : String → Exec Overc (Unit {0})
  unfolding log join Container.get_overlay
  container_overlay_list_of container = do
    log info ("overlayed directories in " <> (container <> " including:"))
    log info (join "," (Container.get_overlay container))

  -- `self.retval` may become `None`, which is kept as not set.
  unfoldable pub container_overlay_create_of :
      String → Option String → Option String → Exec Overc (Unit {0})
  unfolding on_container Overlay.overlay_create
  container_overlay_create_of container dirs source = do
    val ← on_container (Overlay.overlay_create env container dirs source)
    modify (λ o. record o { retval = val })

  unfoldable pub container_overlay_stop_of : String → Option String → Exec Overc (Unit {0})
  unfolding on_container Overlay.overlay_stop
  container_overlay_stop_of container dirs = do
    val ← on_container (Overlay.overlay_stop env container dirs)
    modify (λ o. record o { retval = val })

  -- The loop of `container_cleanup` over the containers of one template
  unfoldable pub delete_all_snapshots : String → List String → Exec Overc (Unit {0})
  unfolding container_delete_snapshots_of
  delete_all_snapshots template [] = pure tt
  delete_all_snapshots template (container ∷ containers) = do
    container_delete_snapshots_of container template
    delete_all_snapshots template containers

  -- `container_cleanup`
  unfoldable pub container_cleanup : Exec Overc (Unit {0})
  unfolding on_agency clean_container on_container Container.get_container delete_all_snapshots
  container_cleanup = do
    on_agency (clean_container env)
    containers ← on_container (Container.get_container env)
    delete_all_snapshots "dom0" containers

-- `sys.exit(self.retval)` after an operation
unfoldable pub exit_after : Exec Overc (Unit {0}) → Exec Overc (Unit {0})
unfolding read_retval
exit_after operation = do operation; code ← read_retval; raise (system_exit code)

-- The commands of the command line on containers, with their arguments
pub data ContainerCommand : Type 0 where
  rollback_cmd : String → Option String → String → ContainerCommand
  list_cmd update_cmd : String → ContainerCommand
  snapshot_list_cmd snapshot_cmd start_cmd stop_cmd delete_snapshots_cmd :
      String → String → ContainerCommand
  activate_cmd delete_cmd : String → String → Bool → ContainerCommand
  send_image_cmd : String → String → ContainerCommand
  upgrade_cmd : String → String → Bool → Bool → Bool → ContainerCommand

module _ (env : Env) where
  -- What a command does before it exits. The log takes no list, so that a container with overlay
  -- directories would raise where `container_upgrade` logs theirs.
  unfoldable pub container_operation : ContainerCommand → Exec Overc (Unit {0})
  container_operation (rollback_cmd name snapshot_name template) =
      container_rollback_of env name snapshot_name template true
  container_operation (list_cmd template) = container_list_of env template
  container_operation (update_cmd template) = container_update_of env template
  container_operation (snapshot_list_cmd name template) =
      container_snapshot_list_of env name template
  container_operation (snapshot_cmd name template) = container_snapshot_of env name template
  container_operation (start_cmd name template) = container_start_of env name template
  container_operation (stop_cmd name template) = container_stop_of env name template
  container_operation (delete_snapshots_cmd name template) =
      container_delete_snapshots_of env name template
  container_operation (activate_cmd name template force) =
      container_activate_of env name template force
  container_operation (delete_cmd name template force) = container_delete_of env name template force
  container_operation (send_image_cmd url template) = container_send_image_of env template url
  container_operation (upgrade_cmd name template rpm image skip_del) =
      if leb 1 (length (Container.get_overlay name))
      then (do
        log info ("Container " <> (name <> " has overlayed dir, including"))
        raise type_error)
      else container_upgrade_of env name template rpm image skip_del

  unfoldable pub container_command : ContainerCommand → Exec Overc (Unit {0})
  unfolding exit_after container_operation
  container_command c = exit_after (container_operation c)
