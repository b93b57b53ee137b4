-- ===== src/Package.antt =====
-- Overc/package.py, and the one method of `Utils` that runs a child: command lines put together from
-- parts and run by `Process`.
pub mod Laws
use meta_overc.Base.{String, ◌<>◌, ℤ, pos, true, not, Option, none, some, List, [], ◌∷◌, int_eq}
use meta_overc.Text.{join}
use meta_overc.System.{Env}
use meta_overc.Exec.{Exec, name_error, ◌>>=◌, ◌>>◌, pure, raise, modify, when, on_new}
use meta_overc.Logger.{error, log}
use meta_overc.Process.{new_process, run}

-- An object that holds only the message of its last child
pub record Package : Type 0 where
  pub message : Option String

abbrev keep_message : String → Exec Package (Unit {0})
keep_message text = modify (λ p. record p { message = some text })

-- The command line of `_smartpm`
abbrev pub smart_line : String → Option String → String
smart_line args none = join " " ("/usr/bin/smart" ∷ args ∷ [])
smart_line args (some root) = join " " ("chroot" ∷ root ∷ "/usr/bin/smart" ∷ args ∷ [])

-- The command line of `_nsenter`
abbrev pub nsenter_line : String → String → String
nsenter_line pid args = join " " (("nsenter -t " <> pid) ∷ "-n -m -i --" ∷ args ∷ [])

module _ (env : Env) where
  -- `Package._smartpm`
  unfoldable pub smartpm : String → Option String → Exec Package ℤ
  unfolding join run log
  smartpm args chroot = do
    (retval, process) ← on_new new_process (run env (smart_line args chroot) true)
    keep_message process.message
    when (not (int_eq retval (pos 0))) (log error (smart_line args chroot))
    pure retval

  -- `Utils._nsenter`
  unfoldable pub nsenter : String → String → Exec Package ℤ
  unfolding join run
  nsenter pid args = do
    (retval, process) ← on_new new_process (run env (nsenter_line pid args) true)
    keep_message process.message
    pure retval

-- `Package._get_kernel`: both branches begin with `subprocess`, which the module does not import.
unfoldable pub get_kernel : String → Exec Package String
get_kernel path = raise name_error
