-- ===== src/Utils/Returns.antt =====
-- When the methods of `Utils` and the calls of `subprocess` and `os` return.
use meta_overc.Base.{String, Bool, true, List, some, ℤ, ◌≡◌}
use meta_overc.Text.{lines, split}
use meta_overc.System.{Command, Env, History, Reply, md5sum, succeeded}
use meta_overc.Exec.Returns.{
  Any, Returns, Returns-with, Returns-ask, Returns-pure, Returns-then, Returns-some,
}
use meta_overc.Utils.{
  system, check_output, popen_lines, os_call, pipe, compute_checksum, first_word,
}

-- The command succeeds whenever it is given.
abbrev pub Works : Env → Command → Type 0
Works env c = (h : History) → succeeded (env.reply h c) ≡ true

-- A reply of a command that succeeds
abbrev pub Output : (String → Type 0) → Reply → Type 0
Output Q r = (succeeded r ≡ true) × Q r.output

-- A text that begins with a word
abbrev pub HasWord : String → Type 0
HasWord text = (w : String) × (first_word (split text) ≡ some w)

module _ (env : Env) {S : Type 0} {Fixed : S → Type 0} where
  pub system-Returns :
      (c : Command) {Q : ℤ → Type 0}
      → ((h : History) → Q (env.reply h c).status)
      → Returns Fixed Q (system env c)
  unfolding system
  system-Returns c {Q} k =
      Returns-with (λ r. Q r.status) _ _ (Returns-ask env c k) (λ r q. Returns-pure r.status q)

  pub system-Any : (c : Command) → Returns Fixed Any (system env c)
  system-Any c = system-Returns c (λ h. tt)

  pub popen_lines-Returns :
      (c : Command) {Q : List String → Type 0}
      → ((h : History) → Q (lines (env.reply h c).output))
      → Returns Fixed Q (popen_lines env c)
  unfolding popen_lines
  popen_lines-Returns c {Q} k =
      Returns-with (λ r. Q (lines r.output)) _ _ (Returns-ask env c k) (λ r q. Returns-pure _ q)

  pub check_output-Output :
      (c : Command) {Q : String → Type 0}
      → ((h : History) → Output Q (env.reply h c))
      → Returns Fixed Q (check_output env c)
  unfolding check_output
  check_output-Output c {Q} k =
      Returns-with (Output Q) _ _ (Returns-ask env c k)
        (λ r q. Returns-then _ _ _ q.0 (Returns-pure _ q.1))

  pub check_output-Returns : (c : Command) → Works env c → Returns Fixed Any (check_output env c)
  check_output-Returns c k = check_output-Output c (λ h. (k h, tt))

  pub os_call-Returns : (c : Command) → Works env c → Returns Fixed Any (os_call env c)
  unfolding os_call
  os_call-Returns c k =
      Returns-with (Output Any) _ _ (Returns-ask env c (λ h. (k h, tt)))
        (λ r q. Returns-then _ _ _ q.0 (Returns-pure _ tt))

  pipe-Returns :
      (c : Command) {Q : String → Type 0}
      → ((h : History) → Output Q (env.reply h c))
      → Returns Fixed Q (pipe env c)
  unfolding pipe
  pipe-Returns c {Q} k =
      Returns-with (Output Q) _ _ (Returns-ask env c k)
        (λ r q. Returns-then _ _ _ q.0 (Returns-pure _ q.1))

  pub compute_checksum-Returns :
      (filename : String) (host : Bool)
      → ((h : History) → Output HasWord (env.reply h (md5sum host filename)))
      → Returns Fixed Any (compute_checksum env filename host)
  unfolding compute_checksum
  compute_checksum-Returns filename host k =
      Returns-with HasWord _ _ (pipe-Returns (md5sum host filename) {Q = HasWord} k)
        (λ text q. Returns-with Any _ _ (Returns-some _ _ q.0 q.1 tt) (λ w u. Returns-pure _ tt))
