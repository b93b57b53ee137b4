-- ===== src/Utils/Keeps.antt =====
-- What the methods of `Utils` and the calls of `subprocess` and `os` keep.
use meta_overc.Base.{ℕ, zero, suc, String, Bool}
use meta_overc.System.{Command, Env, IsRoutine, draw}
use meta_overc.Exec.Keeps.{Keeps, Keeps-pure, Keeps-ask, Keeps-bind, keeps_rules}
use meta_overc.Utils.{
  system, check_output, popen_lines, os_call, pipe, compute_checksum, random_str,
}

module _ (env : Env) {S : Type 0} {Fixed : S → Type 0} {Allowed : Command → Type 0} where
  pub system-Keeps : (c : Command) → Allowed c → Keeps Fixed Allowed (system env c)
  unfolding system
  system-Keeps c a = search (keeps_rules)

  pub check_output-Keeps : (c : Command) → Allowed c → Keeps Fixed Allowed (check_output env c)
  unfolding check_output
  check_output-Keeps c a = search (keeps_rules)

  pub popen_lines-Keeps : (c : Command) → Allowed c → Keeps Fixed Allowed (popen_lines env c)
  unfolding popen_lines
  popen_lines-Keeps c a = search (keeps_rules)

  pub os_call-Keeps : (c : Command) → Allowed c → Keeps Fixed Allowed (os_call env c)
  unfolding os_call
  os_call-Keeps c a = search (keeps_rules)

  pipe-Keeps : (c : Command) → Allowed c → Keeps Fixed Allowed (pipe env c)
  unfolding pipe
  pipe-Keeps c a = search (keeps_rules)

module _ (env : Env) {S : Type 0} {Fixed : S → Type 0} {Allowed : Command → Type 0}
    (routine : (c : Command) → IsRoutine c → Allowed c) where
  pub compute_checksum-Keeps :
      (filename : String) (host : Bool) → Keeps Fixed Allowed (compute_checksum env filename host)
  unfolding compute_checksum
  compute_checksum-Keeps filename host = search (keeps_rules, pipe-Keeps, routine)

  pub random_str-Keeps : (size : ℕ) → Keeps Fixed Allowed (random_str env size)
  unfolding random_str
  random_str-Keeps zero = search (keeps_rules)
  random_str-Keeps (suc size) =
      Keeps-bind _ _ (Keeps-ask env draw (routine draw tt))
        (λ r. Keeps-bind _ _ (random_str-Keeps size) (λ rest. Keeps-pure _))
