-- ===== src/Process.antt =====
-- Overc/utils.py: class `Process`, a child whose output is copied while it runs.
pub mod Output
pub mod Loop
use meta_overc.Base.{
  String, ◌<>◌, ℤ, pos, Bool, Option, none, some, List, [], ◌∷◌, ◌==◌, if◌then◌else◌,
}
use meta_overc.System.{Env, Round, Execution}
use meta_overc.Exec.{Exec, ◌>>=◌, ◌>>◌, pure, modify, print, popen}
use meta_overc.Logger.{info, log}

pub record Process : Type 0 where
  pub stdout : String
  pub stderr : String
  pub message : String
  pub retval : ℤ

-- `Process()`
abbrev pub new_process : Process
new_process = record { stdout = ""; stderr = ""; message = ""; retval = pos 0 }

-- `sys.stdout.write` and `sys.stderr.write` of a text that is not empty
unfoldable pub echo : String → Exec Process (Unit {0})
echo text = if text == "" then pure tt else print text

-- A text read from the standard output, if that is ready
unfoldable pub read_stdout : Option String → Exec Process (Unit {0})
unfolding echo
read_stdout none = pure tt
read_stdout (some text) = do
  echo text
  modify (λ p. record p { stdout = p.stdout <> text; message = p.message <> text })

-- A text read from the standard error, if that is ready
unfoldable pub read_stderr : Option String → Exec Process (Unit {0})
unfolding echo
read_stderr none = pure tt
read_stderr (some text) = do
  echo text
  modify (λ p. record p { stderr = p.stderr <> text; message = p.message <> text })

-- The body of the loop up to the test of `child.poll()`
unfoldable pub round : Round → Exec Process (Unit {0})
unfolding read_stdout read_stderr
round r = do read_stdout r.from_stdout; read_stderr r.from_stderr

-- The rounds after which the child still runs
unfoldable pub rounds : List Round → Exec Process (Unit {0})
unfolding round
rounds [] = pure tt
rounds (r ∷ rs) = do round r; rounds rs

-- The `while` loop of `run`, which ends with the child, and the statements behind it
unfoldable pub watch : Execution → Exec Process ℤ
unfolding rounds
watch child = do
  rounds child.rounds
  round child.last_round
  modify (λ p. record p { retval = child.code })
  pure child.code

module _ (env : Env) where
  -- `run`
  unfoldable pub run : String → Bool → Exec Process ℤ
  unfolding log watch
  run cmd liveoutput = do
    log info ("Running: " <> cmd)
    child ← popen env cmd liveoutput
    watch child
