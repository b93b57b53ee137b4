-- ===== src/Container/Scripts.antt =====
-- Which scripts the methods of `Container` start, where the script of the template exists.
use meta_overc.Base.{String, ◌<>◌, Bool, true, false, Option, none, some, List, [], ◌∷◌, ◌≡◌}
use meta_overc.System.{Env, History, Round, Execution, os_path_isfile, succeeded}
use meta_overc.Exec.{◌>>=◌}
use meta_overc.Exec.Starts.{
  Starts, Starts-first, Starts-last, Starts-on_new, Starts-if, Starts-popen, silent_rules,
}
use meta_overc.Logger.{Level, log, info}
use meta_overc.Process.{new_process, echo, read_stdout, read_stderr, round, rounds, watch, run}
use meta_overc.Container.{
  script_path, read_message, add_message, run_script, run_and_report, run_and_complain, rollback,
}

module _ {S : Type 0} where
  log-silent : (level : Level) (text : String) → Starts {S = S} [] (log level text)
  unfolding log
  log-silent level text = search (silent_rules)

echo-silent : (text : String) → Starts [] (echo text)
unfolding echo
echo-silent text = search (silent_rules, Starts-if)

read_stdout-silent : (text : Option String) → Starts [] (read_stdout text)
unfolding read_stdout
read_stdout-silent none = search (silent_rules)
read_stdout-silent (some text) = search (silent_rules, echo-silent)

read_stderr-silent : (text : Option String) → Starts [] (read_stderr text)
unfolding read_stderr
read_stderr-silent none = search (silent_rules)
read_stderr-silent (some text) = search (silent_rules, echo-silent)

round-silent : (r : Round) → Starts [] (round r)
unfolding round
round-silent r = search (silent_rules, read_stdout-silent, read_stderr-silent)

rounds-silent : (rs : List Round) → Starts [] (rounds rs)
unfolding rounds
rounds-silent [] = search (silent_rules)
rounds-silent (r ∷ rs) = Starts-first [] _ _ (round-silent r) (λ x. rounds-silent rs)

watch-silent : (child : Execution) → Starts [] (watch child)
unfolding watch
watch-silent child = search (silent_rules, rounds-silent, round-silent)

run-Starts : (env : Env) (cmd : String) (live : Bool) → Starts (cmd ∷ []) (run env cmd live)
unfolding run
run-Starts env cmd live =
    Starts-last _ _ _ (log-silent info ("Running: " <> cmd))
      (λ x. Starts-first _ _ _ (Starts-popen env cmd live) watch-silent)

read_message-silent : Starts [] read_message
unfolding read_message
read_message-silent = search (silent_rules)

add_message-silent : (text : String) → Starts [] (add_message text)
unfolding add_message
add_message-silent text = search (silent_rules, read_message-silent)

-- The command line of a forced rollback to the newest snapshot
abbrev pub rollback_line : String → String → String
rollback_line template name = script_path template <> (" " <> (("-R -n " <> name) <> " -f"))

-- The script of a template exists whenever it is looked for.
abbrev pub HasScript : Env → String → Type 0
HasScript env template =
    (h : History) → succeeded (env.reply h (os_path_isfile (script_path template))) ≡ true

module _ (env : Env) (template : String) (there : HasScript env template) where
  pub run_script-Starts :
      (args : String) (failok live : Bool)
      → Starts
          ((script_path template <> (" " <> args)) ∷ [])
          (run_script env template args failok live)
  unfolding run_script ◌>>=◌
  run_script-Starts args failok live = record {
    at = λ s h. rw (there h) (
        (Starts-first ((script_path template <> (" " <> args)) ∷ []) _ _
            (Starts-on_new _ new_process _
              (run-Starts env (script_path template <> (" " <> args)) live))
            (λ x. search (silent_rules, Starts-if) depth 8)).at
          s _);
  }

  pub run_and_report-Starts :
      (args good bad : String)
      → Starts
          ((script_path template <> (" " <> args)) ∷ [])
          (run_and_report env template args good bad)
  unfolding run_and_report
  run_and_report-Starts args good bad =
      Starts-first _ _ _ (run_script-Starts args false true)
        (λ code. search (silent_rules, Starts-if, add_message-silent) depth 8)

  pub run_and_complain-Starts :
      (args : String) (live : Bool) (bad : String)
      → Starts
          ((script_path template <> (" " <> args)) ∷ [])
          (run_and_complain env template args live bad)
  unfolding run_and_complain
  run_and_complain-Starts args live bad =
      Starts-first _ _ _ (run_script-Starts args false live)
        (λ code. search (silent_rules, add_message-silent) depth 8)

  -- A forced rollback starts the script once.
  pub rollback-Starts :
      (name : String)
      → Starts (rollback_line template name ∷ []) (rollback env name none template true)
  unfolding rollback
  rollback-Starts name =
      run_and_report-Starts (("-R -n " <> name) <> " -f") "\nRollback ok" "\nRollback failed"
