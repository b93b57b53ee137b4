-- ===== src/Container/Overlay.antt =====
-- Overc/container.py: `_overlay` and its two callers.
pub mod Fails
use meta_overc.Base.{
  String, ◌<>◌, ℤ, pos, negsuc, Bool, true, false, Option, none, some, List, [], ◌∷◌, ◌==◌, int_eq,
  if◌then◌else◌,
}
use meta_overc.Text.{split_on, ◌/◌}
use meta_overc.System.{Env, os_path_isdir, open_append, succeeded}
use meta_overc.Exec.{Exec, attribute_error, ◌>>=◌, ◌>>◌, pure, raise, ask}
use meta_overc.Logger.{info, error, log}
use meta_overc.Utils.{container_mount, os_call}
use meta_overc.Container.{Container}

-- -1
abbrev pub minus_one : ℤ
minus_one = negsuc 0

-- The check of the source containers: whether none is the container itself
unfoldable pub check_sources : String → List String → Exec Container Bool
unfolding log
check_sources cn [] = pure true
check_sources cn (cn0 ∷ sources) =
    let rest = check_sources cn sources in
    if cn0 == cn
    then (do log error "Can not set same container in source list"; pure false)
    else rest

-- The checks of the parameters, which end with the directories if these are given
unfoldable pub check_parameters :
    String → Option String → Bool → Option String → Exec Container (Option String)
unfolding log check_sources split_on
check_parameters cn none restore sources = do log error "No dirs in parameter"; pure none
check_parameters cn (some dirs) true sources = pure (some dirs)
check_parameters cn (some dirs) false none = do log error "No sources in parameter"; pure none
check_parameters cn (some dirs) false (some sources) = do
  good ← check_sources cn (split_on b',' sources)
  pure (if good then some dirs else none)

module _ (env : Env) where
  -- The loop over the directories: an overlay is stopped only where there is one, and created only
  -- where there is none.
  unfoldable pub check_dirs : String → Bool → List String → Exec Container Bool
  unfolding log
  check_dirs cn restore [] = pure true
  check_dirs cn restore (oldir ∷ dirs) = do
    r ← ask env (os_path_isdir (container_mount / cn / ("rootfs" <> (oldir <> "_temp"))))
    let rest = check_dirs cn restore dirs
    let missing : Exec Container Bool = (do
      log error (oldir <> ":not an overlay-ed dir in container")
      pure false)
    let there : Exec Container Bool = (do
      log error (oldir <> ":already an overlay-ed dir in container")
      pure false)
    if restore
        then (if succeeded r then rest else missing)
        else (if succeeded r then there else rest)

  -- The request to `lxc.service`: `readlines` gives a list, which has no `decode`, so nothing behind
  -- the second statement is reached.
  unfoldable pub insert_request : Exec Container ℤ
  unfolding os_call
  insert_request = do
    os_call env (open_append (container_mount / "overlayrestore"))
    raise attribute_error

  unfoldable pub check_and_insert : String → Bool → Option String → Exec Container ℤ
  unfolding check_dirs insert_request split_on
  check_and_insert cn restore none = pure minus_one
  check_and_insert cn restore (some dirs) = do
    good ← check_dirs cn restore (split_on b',' dirs)
    if good then insert_request else pure minus_one

  -- `_overlay`
  unfoldable pub overlay : String → Option String → Bool → Option String → Exec Container ℤ
  unfolding check_parameters check_and_insert
  overlay cn dirs restore sources = do
    checked ← check_parameters cn dirs restore sources
    check_and_insert cn restore checked

  -- What the callers make of the result; `none` is `None`.
  unfoldable pub report_overlay : ℤ → Exec Container (Option ℤ)
  unfolding log
  report_overlay val =
      if int_eq val minus_one
      then pure (some minus_one)
      else if int_eq val (pos 0)
      then pure (some (pos 0))
      else if int_eq val (pos 1)
      then (do log info "Reboot required to rebuild overlay directories"; pure (some (pos 0)))
      else pure none

  unfoldable pub overlay_create : String → Option String → Option String → Exec Container (Option ℤ)
  unfolding overlay report_overlay
  overlay_create cn dirs source = do val ← overlay cn dirs false source; report_overlay val

  unfoldable pub overlay_stop : String → Option String → Exec Container (Option ℤ)
  unfolding overlay report_overlay
  overlay_stop cn dirs = do val ← overlay cn dirs true none; report_overlay val
