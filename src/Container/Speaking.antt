-- ===== src/Container/Speaking.antt =====
-- Methods of `Container` that set the message whenever they return, and that raise nothing but the
-- `OSError` of a script that cannot be started: the rules, and `run_script`.
use meta_overc.Base.{String, ℤ, Bool, true, false, Option, none, some, ◌≡◌, refl, if◌then◌else◌}
use meta_overc.System.{Command, Env, History, Execution}
use meta_overc.Exec.{
  Exec, Outcome, ok, raised, os_error, continue, started, with_object, on_new, pure, ask, when,
  ◌>>=◌,
}
use meta_overc.Logger.{Level, log}
use meta_overc.Process.{Process, new_process, watch, run}
use meta_overc.Process.Output.{watch-finished}
use meta_overc.Container.{Container, set_message, read_message, add_message, run_script}

-- How an operation may end
abbrev pub Speaks : {A : Type 0} → Outcome Container A → Type 0
Speaks (ok a, c, h) = (text : String) × (c.message ≡ some text)
Speaks (raised e, c, h) = e ≡ os_error

-- An operation that ends so from every object
pub record IsSpeaking {A : Type 0} (m : Exec Container A) : Type 0 where
  pub at : (c : Container) (h : History) → Speaks (m c h)

-- An operation that keeps the message if there is one, and does not raise then
pub record IsQuiet {A : Type 0} (m : Exec Container A) : Type 0 where
  pub at : (c : Container) (h : History) (text : String) → c.message ≡ some text → Speaks (m c h)

module _ {A B : Type 0} where
  pub Speaks-continue :
      (o : Outcome Container A) (f : A → Exec Container B)
      → Speaks o
      → ((a : A) → IsQuiet (f a))
      → Speaks (continue o f)
  Speaks-continue (ok a, c, h) f (text, e) k = (k a).at c h text e
  Speaks-continue (raised x, c, h) f e k = e

  pub IsSpeaking-bind :
      (m : Exec Container A) (f : A → Exec Container B)
      → IsSpeaking m
      → ((a : A) → IsQuiet (f a))
      → IsSpeaking (m >>= f)
  unfolding ◌>>=◌
  IsSpeaking-bind m f k l = record { at = λ c h. Speaks-continue (m c h) f (k.at c h) l }

  pub IsQuiet-bind :
      (m : Exec Container A) (f : A → Exec Container B)
      → IsQuiet m
      → ((a : A) → IsQuiet (f a))
      → IsQuiet (m >>= f)
  unfolding ◌>>=◌
  IsQuiet-bind m f k l = record { at = λ c h text e. Speaks-continue (m c h) f (k.at c h text e) l }

module _ {A : Type 0} where
  pub IsQuiet-pure : (a : A) → IsQuiet (pure a)
  unfolding pure
  IsQuiet-pure a = record { at = λ c h text e. (text, e) }

  pub IsQuiet-speaking : (m : Exec Container A) → IsSpeaking m → IsQuiet m
  IsQuiet-speaking m k = record { at = λ c h text e. k.at c h }

  pub IsQuiet-if :
      (b : Bool) (m n : Exec Container A) → IsQuiet m → IsQuiet n → IsQuiet (if b then m else n)
  IsQuiet-if true m n k l = k
  IsQuiet-if false m n k l = l

  pub IsSpeaking-if :
      (b : Bool) (m n : Exec Container A)
      → IsSpeaking m
      → IsSpeaking n
      → IsSpeaking (if b then m else n)
  IsSpeaking-if true m n k l = k
  IsSpeaking-if false m n k l = l

pub IsQuiet-when : (b : Bool) (m : Exec Container Unit) → IsQuiet m → IsQuiet (when b m)
unfolding when
IsQuiet-when true m k = k
IsQuiet-when false m k = IsQuiet-pure tt

pub log-IsQuiet : (level : Level) (text : String) → IsQuiet (log level text)
unfolding log ◌>>=◌
log-IsQuiet level text = record { at = λ c h old e. (old, e) }

pub set_message-IsQuiet : (text : String) → IsQuiet (set_message text)
unfolding ◌>>=◌
set_message-IsQuiet text = record { at = λ c h old e. (text, refl) }

pub read_message-IsQuiet : IsQuiet read_message
unfolding read_message ◌>>=◌
read_message-IsQuiet = record { at = λ c h old e. rw e (old, refl) }

pub add_message-IsQuiet : (text : String) → IsQuiet (add_message text)
unfolding add_message
add_message-IsQuiet text = IsQuiet-bind _ _ read_message-IsQuiet (λ old. set_message-IsQuiet _)

pub ruleset quiet_rules = (
  IsQuiet-bind, IsQuiet-pure, IsQuiet-if, IsQuiet-when, log-IsQuiet, set_message-IsQuiet,
  read_message-IsQuiet, add_message-IsQuiet,
)

-- A part that sets no message, and raises nothing but an `OSError`
abbrev pub FailsOnly : {A : Type 0} → Outcome Container A → Type 0
FailsOnly (ok a, c, h) = Unit
FailsOnly (raised e, c, h) = e ≡ os_error

pub record IsSafe {A : Type 0} (m : Exec Container A) : Type 0 where
  pub at : (c : Container) (h : History) → FailsOnly (m c h)

module _ {A B : Type 0} where
  pub FailsOnly-continue :
      (o : Outcome Container A) (f : A → Exec Container B)
      → FailsOnly o
      → ((a : A) → IsSpeaking (f a))
      → Speaks (continue o f)
  FailsOnly-continue (ok a, c, h) f e k = (k a).at c h
  FailsOnly-continue (raised x, c, h) f e k = e

  pub IsSpeaking-safe :
      (m : Exec Container A) (f : A → Exec Container B)
      → IsSafe m
      → ((a : A) → IsSpeaking (f a))
      → IsSpeaking (m >>= f)
  unfolding ◌>>=◌
  IsSpeaking-safe m f k l = record { at = λ c h. FailsOnly-continue (m c h) f (k.at c h) l }

pub set_message-IsSpeaking : (text : String) → IsSpeaking (set_message text)
unfolding ◌>>=◌
set_message-IsSpeaking text = record { at = λ c h. (text, refl) }

pub ask-IsSafe : (env : Env) (c : Command) → IsSafe (ask env c)
unfolding ask
ask-IsSafe env c = record { at = λ s h. tt }

module _ (env : Env) where
  -- A child that is started is watched to its end.
  started-FailsOnly :
      (o : Option Execution) (c : Container) (h : History)
      → FailsOnly (with_object c (continue (started o new_process h) watch))
  started-FailsOnly none c h = refl
  started-FailsOnly (some child) c h =
      returned (watch child new_process h) (watch-finished child h).0
    where
      returned : (o : Outcome Process ℤ) → o.0 ≡ ok child.code → FailsOnly (with_object c o)
      returned (ok code, p, k) e = tt
      returned (raised x, p, k) e = absurd (cc)

  pub run-IsSafe :
      (cmd : String) (liveoutput : Bool) → IsSafe (on_new new_process (run env cmd liveoutput))
  unfolding on_new run ◌>>=◌
  run-IsSafe cmd liveoutput = record {
    at = λ c h. started-FailsOnly (env.execute _ cmd liveoutput) c _;
  }

  pub run_script-IsSpeaking :
      (template args : String) (failok liveoutput : Bool)
      → IsSpeaking (run_script env template args failok liveoutput)
  unfolding run_script
  run_script-IsSpeaking template args failok liveoutput =
      search
        (
          IsSpeaking-safe, ask-IsSafe, run-IsSafe, IsSpeaking-if, IsSpeaking-bind,
          set_message-IsSpeaking, quiet_rules,
        )
        depth 12
