-- ===== src/Server/Options.antt =====
-- Which settings the options of the server give.
use meta_overc.Base.{
  or_true, or_false, String, ℤ, pos, Bool, true, false, ◌==◌, ◌||◌, Option, none, some, List, [],
  ◌∷◌, ◌≡◌, refl, ◌∙◌, Bool-cases, Option-cases, inl, inr, if◌then◌else◌,
}
use meta_overc.System.{History}
use meta_overc.Exec.{Result, ok, raised, Outcome, system_exit, continue, get, ◌>>=◌}
use meta_overc.Server.Start.{
  Settings, default_settings, options, set_port, set_option, set_options, start,
}

-- What an option stands for: help, a port, the debug mode, or nothing
pub data Meaning : Type 0 where
  help : Meaning
  port : Option ℤ → Meaning
  debugging unknown : Meaning

module _ (int : String → Option ℤ) where
  abbrev pub meaning : String × String → Meaning
  meaning (opt, arg) =
      if opt == "-h"
      then help
      else if opt == "-p" || opt == "--port"
      then port (int arg)
      else if opt == "-d"
      then debugging
      else unknown

-- The first option that ends the program: help with 0, a port that is no number with 2
abbrev pub first_stop : List Meaning → Option ℤ
first_stop [] = none
first_stop (help ∷ ms) = some (pos 0)
first_stop (port none ∷ ms) = some (pos 2)
first_stop (_ ∷ ms) = first_stop ms

abbrev or_else : ℤ → Option ℤ → ℤ
or_else p none = p
or_else p (some q) = q

-- The last port
abbrev pub last_port : ℤ → List Meaning → ℤ
last_port p [] = p
last_port p (port q ∷ ms) = last_port (or_else p q) ms
last_port p (_ ∷ ms) = last_port p ms

-- Whether one of the options asks for the debug mode
abbrev pub asks_debug : List Meaning → Bool
asks_debug [] = false
asks_debug (debugging ∷ ms) = true
asks_debug (_ ∷ ms) = asks_debug ms

abbrev expected_from : Option ℤ → Settings → Result Settings
expected_from none s = ok s
expected_from (some code) s = raised (system_exit code)

abbrev pub expected : List Meaning → Settings → Result Settings
expected ms s =
    expected_from (first_stop ms)
      (record { default_port = last_port s.default_port ms; debug = s.debug || asks_debug ms })

abbrev settings_of : Outcome Settings Unit → Result Settings
settings_of (ok u, s, h) = ok s
settings_of (raised e, s, h) = raised e

module _ (int : String → Option ℤ) (program : String) where
  abbrev pub meanings : List (String × String) → List Meaning
  meanings [] = []
  meanings (o ∷ os) = meaning int o ∷ meanings os

  set_options-expected :
      (opts : List (String × String)) (s : Settings) (h : History)
      → settings_of (set_options int program opts s h) ≡ expected (meanings opts) s
  unfolding set_options set_option set_port ◌>>=◌
  set_options-expected [] s h = rw (or_false s.debug) refl
  set_options-expected ((opt, arg) ∷ rest) s h = elim (Bool-cases (opt == "-h")) [
    | inl e ↦ rw e refl
    | inr n ↦ rw n (elim (Bool-cases (opt == "-p" || opt == "--port")) [
      | inl e ↦ rw e (elim (Option-cases (int arg)) [
        | inl e ↦ rw e refl
        | inr (p, e) ↦ rw e (set_options-expected rest (record s { default_port = p }) _)
      ])
      | inr m ↦ rw m (elim (Bool-cases (opt == "-d")) [
        | inl e ↦
            rw e (rw (or_true s.debug) (set_options-expected rest (record s { debug = true }) h))
        | inr l ↦ rw l (set_options-expected rest s h)
      ])
    ])
  ]

  got : (o : Outcome Settings Unit) → (continue o (λ u. get)).0 ≡ settings_of o
  unfolding get
  got (ok u, s, h) = refl
  got (raised e, s, h) = refl

  -- The options of the server: the first `-h` or port that is no number ends the program, with 0 or 2;
  -- otherwise the server starts with the last port that is given or 5555, and in the debug mode if
  -- some option asks for it.
  pub start-expected :
      (opts : List (String × String)) (h : History)
      → (start int program (options opts) default_settings h).0
        ≡ expected (meanings opts) default_settings
  unfolding start ◌>>=◌
  start-expected opts h =
      got (set_options int program opts default_settings h)
      ∙ set_options-expected opts default_settings h
