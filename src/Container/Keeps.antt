-- ===== src/Container/Keeps.antt =====
-- What the methods of `Container` ask of the system: tests for files, issues, the list of the
-- containers, and scripts.
use meta_overc.Base.{String, Bool, true, false, Option, none, some, List, [], ◌∷◌, if◌then◌else◌}
use meta_overc.System.{
  History, Command, Env, Round, Execution, spawn, os_path_isfile, cat_issue, cube_cat_issue,
  cube_list,
}
use meta_overc.Exec.{Exec, modify, within, on_new, Outcome, ok, raised, with_object}
use meta_overc.Exec.Keeps.{Keeps, HoldsAfter, Keeps-modify, Keeps-bind, keeps_rules}
use meta_overc.Logger.{Level, log}
use meta_overc.Process.{echo, read_stdout, read_stderr, round, rounds, watch, run}
use meta_overc.Container.{
  run_script, read_message, add_message, run_and_report, activate, rollback, update, upgrade_image,
  upgrade, get_issue, get_container, is_active,
}
use meta_overc.Utils.Keeps.{check_output-Keeps}

abbrev pub IsForContainers : Command → Type 0
IsForContainers (spawn line) = Unit
IsForContainers (os_path_isfile path) = Unit
IsForContainers cat_issue = Unit
IsForContainers (cube_cat_issue name) = Unit
IsForContainers cube_list = Unit
IsForContainers _ = ⊥

abbrev pub Anything : {S : Type 0} → S → Type 0
Anything s = Unit

abbrev pub Isolated : {S A : Type 0} → Exec S A → Type 0
Isolated {S = S} m = Keeps (Anything {S = S}) IsForContainers m

module _ {S : Type 0} where
  pub Isolated-modify : (f : S → S) → Isolated (modify f)
  Isolated-modify f = Keeps-modify f (λ s p. tt)

  pub Isolated-log : (level : Level) (text : String) → Isolated {S = S} (log level text)
  unfolding log
  Isolated-log level text = search (keeps_rules)

  pub Isolated-within :
      {T A : Type 0} (field : S → T) (put : S → T → S) (m : Exec T A)
      → Isolated m
      → Isolated (within field put m)
  unfolding within
  Isolated-within field put m k = record {
    at = λ base s h p. (tt, (k.at base (field s) h (tt, p.1)).1);
  }

  pub Isolated-on_new :
      {T A : Type 0} (t : T) (m : Exec T A) → Isolated m → Isolated {S = S} (on_new t m)
  unfolding on_new
  Isolated-on_new {T} {A} t m k = record {
    at = λ base s h p. kept base s (m t h) (k.at base t h (tt, p.1));
  }
    where
      kept :
          (base : History) (s : S) (o : Outcome T A)
          → HoldsAfter Anything IsForContainers base o
          → HoldsAfter Anything IsForContainers base (with_object s o)
      kept base s (ok a, t, h) p = p
      kept base s (raised e, t, h) p = p

pub ruleset isolated_rules = (keeps_rules, Isolated-modify, Isolated-log)

echo-Isolated : (text : String) → Isolated (echo text)
unfolding echo
echo-Isolated text = search (isolated_rules)

read_stdout-Isolated : (text : Option String) → Isolated (read_stdout text)
unfolding read_stdout
read_stdout-Isolated none = search (isolated_rules)
read_stdout-Isolated (some text) = search (isolated_rules, echo-Isolated)

read_stderr-Isolated : (text : Option String) → Isolated (read_stderr text)
unfolding read_stderr
read_stderr-Isolated none = search (isolated_rules)
read_stderr-Isolated (some text) = search (isolated_rules, echo-Isolated)

round-Isolated : (r : Round) → Isolated (round r)
unfolding round
round-Isolated r = search (isolated_rules, read_stdout-Isolated, read_stderr-Isolated)

rounds-Isolated : (rs : List Round) → Isolated (rounds rs)
unfolding rounds
rounds-Isolated [] = search (isolated_rules)
rounds-Isolated (r ∷ rs) = Keeps-bind _ _ (round-Isolated r) (λ x. rounds-Isolated rs)

watch-Isolated : (child : Execution) → Isolated (watch child)
unfolding watch
watch-Isolated child = search (isolated_rules, rounds-Isolated, round-Isolated)

issue-IsForContainers :
    (dom0 : Bool) (name : String)
    → IsForContainers (if dom0 then cat_issue else cube_cat_issue name)
issue-IsForContainers true name = tt
issue-IsForContainers false name = tt

module _ (env : Env) where
  run-Isolated : (cmd : String) (live : Bool) → Isolated (run env cmd live)
  unfolding run
  run-Isolated cmd live = search (isolated_rules, watch-Isolated)

  run_script-Isolated :
      (template args : String) (failok live : Bool)
      → Isolated (run_script env template args failok live)
  unfolding run_script
  run_script-Isolated template args failok live =
      search (isolated_rules, Isolated-on_new, run-Isolated) depth 8

  read_message-Isolated : Isolated read_message
  unfolding read_message
  read_message-Isolated = search (isolated_rules)

  add_message-Isolated : (text : String) → Isolated (add_message text)
  unfolding add_message
  add_message-Isolated text = search (isolated_rules, read_message-Isolated)

  run_and_report-Isolated :
      (template args good bad : String) → Isolated (run_and_report env template args good bad)
  unfolding run_and_report
  run_and_report-Isolated template args good bad =
      search (isolated_rules, run_script-Isolated, add_message-Isolated) depth 8

  pub rollback-Isolated :
      (name : String) (snap : Option String) (template : String) (force : Bool)
      → Isolated (rollback env name snap template force)
  unfolding rollback
  rollback-Isolated name snap template force = search (run_and_report-Isolated)

  update-Isolated : (template : String) → Isolated (update env template)
  unfolding update
  update-Isolated template = search (run_and_report-Isolated)

  activate-Isolated :
      (name template : String) (force : Bool) → Isolated (activate env name template force)
  unfolding activate
  activate-Isolated name template force = search (run_and_report-Isolated)

  upgrade_image-Isolated : (name template : String) → Isolated (upgrade_image env name template)
  unfolding upgrade_image
  upgrade_image-Isolated name template =
      search (isolated_rules, update-Isolated, activate-Isolated, read_message-Isolated) depth 10

  pub upgrade-Isolated :
      (name template : String) (rpm image skip_del : Bool)
      → Isolated (upgrade env name template rpm image skip_del)
  unfolding upgrade
  upgrade-Isolated name template rpm image skip_del =
      search (isolated_rules, upgrade_image-Isolated, run_script-Isolated, add_message-Isolated)
        depth 10

  pub get_issue-Isolated : (name : String) → Isolated (get_issue env name)
  unfolding get_issue
  get_issue-Isolated name =
      search (isolated_rules, check_output-Keeps, issue-IsForContainers) depth 8

  pub get_container-Isolated : Isolated (get_container env)
  unfolding get_container
  get_container-Isolated = search (isolated_rules, check_output-Keeps) depth 8

  pub is_active-Isolated : (name template : String) → Isolated (is_active env name template)
  unfolding is_active
  is_active-Isolated name template = search (isolated_rules, run_script-Isolated) depth 8
