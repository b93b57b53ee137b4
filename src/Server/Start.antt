-- ===== src/Server/Start.antt =====
-- run_server.py: the options of the server, and its start. `getopt` and `int` of Python are parameters.
use meta_overc.Base.{
  String, ◌<>◌, ℤ, pos, Bool, true, false, ◌==◌, ◌||◌, Option, none, some, List, [], ◌∷◌,
  if◌then◌else◌,
}
use meta_overc.Exec.{Exec, system_exit, ◌>>◌, pure, raise, get, modify, print}

-- `default_port`, and `app.debug`
pub record Settings : Type 0 where
  pub default_port : ℤ
  pub debug : Bool

abbrev pub default_settings : Settings
default_settings = record { default_port = pos 5555; debug = false }

-- What `getopt.getopt` makes of the arguments: the options with their values, or `GetoptError`
pub data Options : Type 0 where
  bad_options : Options
  options : List (String × String) → Options

module _ (int : String → Option ℤ) (program : String) where
  -- `default_port = int(arg)`; `none` is a `ValueError`.
  unfoldable pub set_port : Option ℤ → Exec Settings (Unit {0})
  set_port none = do print (program <> "  -p <port>"); raise (system_exit (pos 2))
  set_port (some port) = modify (λ s. record s { default_port = port })

  -- The body of the loop over the options
  unfoldable pub set_option : String → String → Exec Settings (Unit {0})
  unfolding set_port
  set_option opt arg =
      if opt == "-h"
      then (do print (program <> "  [-d] [-p <port>]"); raise (system_exit (pos 0)))
      else if opt == "-p" || opt == "--port"
      then set_port (int arg)
      else if opt == "-d"
      then modify (λ s. record s { debug = true })
      else pure tt

  unfoldable pub set_options : List (String × String) → Exec Settings (Unit {0})
  unfolding set_option
  set_options [] = pure tt
  set_options ((opt, arg) ∷ rest) = do set_option opt arg; set_options rest

  -- The statements before `app.run`, and the settings with which it is called
  unfoldable pub start : Options → Exec Settings Settings
  unfolding set_options
  start bad_options = do print (program <> "  [-d] [-p <port>]"); raise (system_exit (pos 2))
  start (options opts) = do set_options opts; get
