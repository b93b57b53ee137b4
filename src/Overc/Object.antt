-- ===== src/Overc/Object.antt =====
-- Overc/overc.py: the object of class `Overc`, its construction, and the calls of its two parts.
use meta_overc.Base.{String, ◌<>◌, ℤ, pos, Bool, Option, none, some, if◌then◌else◌}
use meta_overc.System.{Env, btrfs_root, succeeded}
use meta_overc.Exec.{
  Exec, system_exit, attribute_error, ◌>>=◌, ◌>>◌, pure, raise, get, modify, ask, or_raise, within,
}
use meta_overc.Logger.{error, log}
use meta_overc.Btrfs.Object.{Btrfs}
use meta_overc.Btrfs.Init.{init}
use meta_overc.Container
use meta_overc.Container.{Container}

-- `retval` is not set before the first operation on a container.
pub record Overc : Type 0 where
  pub agency : Btrfs
  pub container : Container
  pub message : String
  pub retval : Option ℤ
  pub bakup_mode : Bool

abbrev pub set_message : String → Exec Overc (Unit {0})
set_message text = modify (λ o. record o { message = text })

abbrev pub add_message : String → Exec Overc (Unit {0})
add_message text = modify (λ o. record o { message = o.message <> text })

abbrev pub set_retval : ℤ → Exec Overc (Unit {0})
set_retval code = modify (λ o. record o { retval = some code })

-- `self.retval`
unfoldable pub read_retval : Exec Overc ℤ
read_retval = do o ← get; or_raise o.retval attribute_error

-- `self.agency.…`
unfoldable pub on_agency : {A : Type 0} → Exec Btrfs A → Exec Overc A
on_agency = within (λ o. o.agency) (λ o b. record o { agency = b })

-- `self.container.…`
unfoldable pub on_container : {A : Type 0} → Exec Container A → Exec Overc A
on_container = within (λ o. o.container) (λ o c. record o { container = c })

-- An operation on a container: its return code and its message are kept.
unfoldable pub delegate : Exec Container ℤ → Exec Overc (Unit {0})
unfolding on_container Container.read_message
delegate operation = do
  code ← on_container operation
  set_retval code
  text ← on_container Container.read_message
  set_message text

module _ (env : Env) {S : Type 0} where
  -- `Is_btrfs`, on which the import of the module binds `Host_update`
  unfoldable pub is_btrfs : Exec S Bool
  is_btrfs = do r ← ask env btrfs_root; pure (succeeded r)

  -- `Overc()` after the import; the argument says whether there is a back end.
  unfoldable pub create : Bool → Exec S Overc
  unfolding log init
  create host_update =
      if host_update
      then (do
        agency ← init env
        pure (record {
          agency = agency;
          container = record { message = none };
          message = "";
          retval = none;
          bakup_mode = agency.bakup_mode;
        }))
      else (do log error "Not using a supported filesystem!"; raise (system_exit (pos 1)))
