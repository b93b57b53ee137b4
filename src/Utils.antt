-- ===== src/Utils.antt =====
-- Overc/utils.py: the constants and the methods of `Utils` that run a command for its output, and
-- the calls of `subprocess` and `os.system` on which all other modules stand.
pub mod Keeps
pub mod Returns
pub mod Random
use Prim.Native.String.{String, [], ◌∷◌}
use mathlib.Core.List.{[], ◌∷◌}
use meta_overc.Base.{
  ℕ, zero, suc, ◌%◌, ◌<>◌, ℤ, pos, negsuc, Bool, Option, none, some, List, if◌then◌else◌,
}
use meta_overc.Text.{split, strip, lines}
use meta_overc.System.{Command, Reply, Env, md5sum, draw, succeeded}
use meta_overc.Exec.{
  Exec, called_process, os_error, index_error, assertion_error, ok, raised, Result, ◌>>=◌, ◌>>◌,
  pure, raise, ask, or_raise,
}

abbrev pub sysroot : String
sysroot = "/sysroot"

abbrev pub factory_snapshot : String
factory_snapshot = ".factory"

abbrev pub container_mount : String
container_mount = "/opt/container"

-- `string.ascii_uppercase + string.digits`
abbrev pub chars : String
chars = "ABCDEFGHIJKLMNOPQRSTUVWXYZ0123456789"

-- `words[0]`
abbrev pub first_word : List String → Option String
first_word [] = none
first_word (w ∷ ws) = some w

-- `chars[k]`, as a text of one character
unfoldable pub char_at : String → ℕ → String
char_at [] k = []
char_at (c ∷ s) zero = c ∷ []
char_at (c ∷ s) (suc k) = char_at s k

abbrev pub magnitude : ℤ → ℕ
magnitude (pos n) = n
magnitude (negsuc n) = suc n

module _ (env : Env) {S : Type 0} where
  -- `os.system(cmd)`, or a call whose failure the program looks at itself
  unfoldable pub system : Command → Exec S ℤ
  system c = do r ← ask env c; pure r.status

  -- `subprocess.check_output(cmd, shell=True)` and `check_call`
  unfoldable pub check_output : Command → Exec S String
  check_output c = do
    r ← ask env c
    if succeeded r then pure r.output else raise (called_process r.status r.output)

  -- The lines of `subprocess.Popen(cmd, shell=True, stdout=PIPE)`
  unfoldable pub popen_lines : Command → Exec S (List String)
  unfolding lines
  popen_lines c = do r ← ask env c; pure (lines r.output)

  -- A call of `os`, `tempfile` or a file, which raises `OSError` if it fails
  unfoldable pub os_call : Command → Exec S String
  os_call c = do r ← ask env c; if succeeded r then pure r.output else raise os_error

  -- `_pipe`: the output, and the exit status must be zero.
  unfoldable pub pipe : Command → Exec S String
  pipe c = do r ← ask env c; if succeeded r then pure r.output else raise assertion_error

  -- `_compute_checksum`
  unfoldable pub compute_checksum : String → Bool → Exec S String
  unfolding pipe split strip
  compute_checksum filename host = do
    res ← pipe (md5sum host filename)
    word ← or_raise (first_word (split res)) index_error
    pure (strip word)

  -- `_random_str`, with the number of characters still to draw
  unfoldable pub random_str : ℕ → Exec S String
  unfolding char_at
  random_str zero = pure ""
  random_str (suc size) = do
    r ← ask env draw
    rest ← random_str size
    pure (char_at chars (magnitude r.status % 36) <> rest)
