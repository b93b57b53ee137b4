-- ===== src/Container/Relays.antt =====
-- What the methods of `Container` return, and the message that they leave, where the script of the
-- template exists and can be started.
use meta_overc.Base.{◌∷◌, String, ◌<>◌, ℤ, Bool, true, false, not, some, ◌≡◌, refl, if◌then◌else◌}
use text.Mathlib.TextLemmas.{append-nil}
use meta_overc.System.{ran, os_path_isfile, Env, History, Execution}
use meta_overc.Exec.{Exec, ok, ◌>>=◌, ◌>>◌, pure, when, bind_ok, on_new_ok}
use meta_overc.Logger.{info, error, log}
use meta_overc.Process.{new_process, run}
use meta_overc.Process.Output.{all_output, rounds_of, run-finished}
use meta_overc.Container.{
  Container, is_zero, script_path, read_message, add_message, run_script, run_and_report,
  run_and_complain,
}
use meta_overc.Container.Scripts.{HasScript}

-- The command line can be started at any time, and the child is the same whether its output is read
-- by the line or not.
abbrev pub CanStart : Env → String → Execution → Type 0
CanStart env line child = (h : History) (by_line : Bool) → env.execute h line by_line ≡ some child

abbrev pub with_message : String → Container
with_message text = record { message = some text }

-- A method returns a code and leaves a message.
pub record Relays (m : Exec Container ℤ) (code : ℤ) (text : String) : Type 0 where
  pub at : (c : Container) (h : History) → ((m c h).0 ≡ ok code) × ((m c h).1 ≡ with_message text)

abbrev log_result : Bool → Bool → String → Exec Container (Unit {0})
log_result good failok fname =
    if good then log info (fname <> " ok") else when (not failok) (log error (fname <> " failed"))

log_result-keeps :
    (good failok : Bool) (fname : String) (code : ℤ) (c : Container) (h : History)
    → let o = (log_result good failok fname >> pure code) c h in (o.0 ≡ ok code) × (o.1 ≡ c)
unfolding log ◌>>=◌
log_result-keeps true failok fname code c h = (refl, refl)
log_result-keeps false true fname code c h = (refl, refl)
log_result-keeps false false fname code c h = (refl, refl)

-- What follows a method that relays
Relays-bind :
    (m : Exec Container ℤ) (f : ℤ → Exec Container ℤ) (code : ℤ) (text text' : String)
    → Relays m code text
    → ((h : History)
        → let o = f code (with_message text) h in (o.0 ≡ ok code) × (o.1 ≡ with_message text'))
    → Relays (m >>= f) code text'
Relays-bind m f code text text' k l = record {
  at = λ c h. let (e, d) = k.at c h in rw (bind_ok m f c h e d) (l (m c h).2);
}

pub reported :
    (b : Bool) (good bad : String) (code : ℤ) (text : String) (h : History)
    → let o =
        ((if b then add_message good else add_message bad) >> pure code) (with_message text) h in
      (o.0 ≡ ok code) × (o.1 ≡ with_message (text <> (if b then good else bad)))
unfolding add_message read_message ◌>>=◌
reported true good bad code text h = (refl, refl)
reported false good bad code text h = (refl, refl)

complained :
    (b : Bool) (bad : String) (code : ℤ) (text : String) (h : History)
    → let o = (when (not b) (add_message bad) >> pure code) (with_message text) h in
      (o.0 ≡ ok code) × (o.1 ≡ with_message (text <> (if b then "" else bad)))
unfolding add_message read_message ◌>>=◌
complained true bad code text h = (refl, simp append-nil)
complained false bad code text h = (refl, refl)

module _ (env : Env) (template : String) (there : HasScript env template) (child : Execution) where
  module _ (args : String)
      (starts : CanStart env (script_path template <> (" " <> args)) child) where
    run_script-Relays :
        (failok live : Bool)
        → Relays
            (run_script env template args failok live)
            child.code
            (all_output (rounds_of child))
    unfolding run_script ◌>>=◌
    run_script-Relays failok live = record {
      at = λ c h.
          let line = script_path template <> (" " <> args) in
          let k = ran (os_path_isfile (script_path template)) ∷ h in
          let (e, d) = run-finished env line live k child (starts _ live) in
          rw (there h) (
            rw (on_new_ok new_process (run env line live) _ c k e d)
              (log_result-keeps (is_zero child.code) failok (script_path template) child.code _ _));
    }

    pub run_and_report-Relays :
        (good bad : String)
        → Relays
            (run_and_report env template args good bad)
            child.code
            (all_output (rounds_of child) <> (if is_zero child.code then good else bad))
    unfolding run_and_report
    run_and_report-Relays good bad =
        Relays-bind _ _ _ _ _ (run_script-Relays false true)
          (reported (is_zero child.code) good bad _ _)

    pub run_and_complain-Relays :
        (live : Bool) (bad : String)
        → Relays
            (run_and_complain env template args live bad)
            child.code
            (all_output (rounds_of child) <> (if is_zero child.code then "" else bad))
    unfolding run_and_complain
    run_and_complain-Relays live bad =
        Relays-bind _ _ _ _ _ (run_script-Relays false live)
          (complained (is_zero child.code) bad _ _)
