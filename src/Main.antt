-- ===== src/Main.antt =====
-- overc: what the command line program makes of the value or the exception of a command.
pub mod Args
pub mod Table
pub mod Typed
pub mod Program
pub mod Exit
use meta_overc.Base.{ℤ, pos, Bool, true, false, Option, none, some}
use meta_overc.Exec.{Error, Result, ok, raised, system_exit, called_process}

-- The values that the commands return: `None`, a Boolean or a number
pub data Value : Type 0 where
  nothing : Value
  truth : Bool → Value
  number : ℤ → Value

-- The status of `sys.exit(value)`, where `False` is the number 0 and `True` the number 1
unfoldable pub exit_status_of : Value → ℤ
exit_status_of nothing = pos 0
exit_status_of (truth false) = pos 0
exit_status_of (truth true) = pos 1
exit_status_of (number n) = n

-- The status that the `try` ends with. An `IOError` is caught like a `ValueError`; an exception
-- that no handler names ends the program with 1.
unfoldable pub exit_status : Result Value → ℤ
unfolding exit_status_of
exit_status (ok value) = exit_status_of value
exit_status (raised (system_exit code)) = code
exit_status (raised (called_process code output)) = code
exit_status (raised e) = pos 1

-- The status after an exception outside the `try`
unfoldable pub uncaught : Error → ℤ
uncaught (system_exit code) = code
uncaught e = pos 1

unfoldable pub value_of_bool : Option Bool → Value
value_of_bool none = nothing
value_of_bool (some b) = truth b
