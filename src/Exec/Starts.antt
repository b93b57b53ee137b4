-- ===== src/Exec/Starts.antt =====
-- The scripts that a run starts, if it returns.
use meta_overc.Base.{
  String, Bool, true, false, Option, none, some, List, [], ◌∷◌, ◌++◌, ◌≡◌, refl, ap, ◌∙◌,
  if◌then◌else◌,
}
use meta_overc.System.{ran, spawn, History, Env, Execution}
use meta_overc.Exec.{
  Exec, Error, Outcome, ok, raised, continue, pure, raise, get, modify, when, print, or_raise,
  popen, started, ◌>>=◌, within, on_new, with_object, put_back,
}

-- The command lines of the children that have been started, the newest first
abbrev pub spawns : History → List String
spawns [] = []
spawns (ran (spawn line) ∷ h) = line ∷ spawns h
spawns (_ ∷ h) = spawns h

abbrev pub StartsAt : {S A : Type 0} → List String → History → Outcome S A → Type 0
StartsAt lines h (ok a, s, k) = spawns k ≡ lines ++ spawns h
StartsAt lines h (raised e, s, k) = Unit

pub record Starts {S A : Type 0} (lines : List String) (m : Exec S A) : Type 0 where
  pub at : (s : S) (h : History) → StartsAt lines h (m s h)

module _ {S : Type 0} where
  pub Starts-pure : {A : Type 0} (a : A) → Starts {S = S} [] (pure a)
  unfolding pure
  Starts-pure a = record { at = λ s h. refl }

  pub Starts-print : (text : String) → Starts {S = S} [] (print text)
  unfolding print
  Starts-print text = record { at = λ s h. refl }

  pub Starts-modify : (f : S → S) → Starts [] (modify f)
  unfolding modify
  Starts-modify f = record { at = λ s h. refl }

  pub Starts-get : Starts {S = S} [] get
  unfolding get
  Starts-get = record { at = λ s h. refl }

  pub Starts-or_raise : {A : Type 0} (o : Option A) (e : Error) → Starts {S = S} [] (or_raise o e)
  unfolding or_raise raise pure
  Starts-or_raise none e = record { at = λ s h. tt }
  Starts-or_raise (some a) e = record { at = λ s h. refl }

  pub Starts-if :
      {A : Type 0} (b : Bool) (m n : Exec S A) (lines : List String)
      → Starts lines m
      → Starts lines n
      → Starts lines (if b then m else n)
  Starts-if true m n lines k l = k
  Starts-if false m n lines k l = l

  pub Starts-when : (b : Bool) (m : Exec S Unit) → Starts [] m → Starts [] (when b m)
  unfolding when
  Starts-when true m k = k
  Starts-when false m k = Starts-pure tt

  started-Starts :
      (line : String) (x : Option Execution) (s : S) (h : History)
      → StartsAt (line ∷ []) h (started x s (ran (spawn line) ∷ h))
  started-Starts line none s h = tt
  started-Starts line (some x) s h = refl

  pub Starts-popen :
      (env : Env) (line : String) (by_line : Bool)
      → Starts {S = S} (line ∷ []) (popen env line by_line)
  unfolding popen
  Starts-popen env line by_line = record {
    at = λ s h. started-Starts line (env.execute h line by_line) s h;
  }

-- The children of a run that returns
pub started_lines :
    {S A : Type 0} (lines : List String) (h : History) (out : Outcome S A) (a : A)
    → out.0 ≡ ok a
    → StartsAt lines h out
    → spawns out.2 ≡ lines ++ spawns h
started_lines lines h (ok b, s, k) a e d = d
started_lines lines h (raised x, s, k) a e d = absurd (cc)

module _ {S B : Type 0} where
  quiet_end :
      (lines : List String) (h k : History) (o : Outcome S B)
      → spawns k ≡ lines ++ spawns h
      → StartsAt [] k o
      → StartsAt lines h o
  quiet_end lines h k (ok b, s, l) e d = d ∙ e
  quiet_end lines h k (raised x, s, l) e d = tt

  quiet_start :
      (lines : List String) (h k : History) (o : Outcome S B)
      → spawns k ≡ spawns h
      → StartsAt lines k o
      → StartsAt lines h o
  quiet_start lines h k (ok b, s, l) e d = d ∙ ap (λ rest. lines ++ rest) e
  quiet_start lines h k (raised x, s, l) e d = tt

module _ {S A B : Type 0} where
  first_Starts :
      (lines : List String) (h : History) (o : Outcome S A) (f : A → Exec S B)
      → StartsAt lines h o
      → ((a : A) → Starts [] (f a))
      → StartsAt lines h (continue o f)
  first_Starts lines h (ok a, s, k) f e l = quiet_end lines h k _ e ((l a).at s k)
  first_Starts lines h (raised x, s, k) f e l = tt

  last_Starts :
      (lines : List String) (h : History) (o : Outcome S A) (f : A → Exec S B)
      → StartsAt [] h o
      → ((a : A) → Starts lines (f a))
      → StartsAt lines h (continue o f)
  last_Starts lines h (ok a, s, k) f e l = quiet_start lines h k _ e ((l a).at s k)
  last_Starts lines h (raised x, s, k) f e l = tt

  -- The first part starts all the scripts.
  pub Starts-first :
      (lines : List String) (m : Exec S A) (f : A → Exec S B)
      → Starts lines m
      → ((a : A) → Starts [] (f a))
      → Starts lines (m >>= f)
  unfolding ◌>>=◌
  Starts-first lines m f k l = record { at = λ s h. first_Starts lines h (m s h) f (k.at s h) l }

  -- The last part starts all the scripts.
  pub Starts-last :
      (lines : List String) (m : Exec S A) (f : A → Exec S B)
      → Starts [] m
      → ((a : A) → Starts lines (f a))
      → Starts lines (m >>= f)
  unfolding ◌>>=◌
  Starts-last lines m f k l = record { at = λ s h. last_Starts lines h (m s h) f (k.at s h) l }

  pub Starts-bind :
      (m : Exec S A) (f : A → Exec S B)
      → Starts [] m
      → ((a : A) → Starts [] (f a))
      → Starts [] (m >>= f)
  Starts-bind m f k l = Starts-first [] m f k l

module _ {S T A : Type 0} (lines : List String) where
  within_Starts :
      (field : S → T) (put : S → T → S) (s : S) (h : History) (o : Outcome T A)
      → StartsAt lines h o
      → StartsAt lines h (put_back field put s o)
  within_Starts field put s h (ok a, t, k) e = e
  within_Starts field put s h (raised x, t, k) e = tt

  pub Starts-within :
      (field : S → T) (put : S → T → S) (m : Exec T A)
      → Starts lines m
      → Starts lines (within field put m)
  unfolding within
  Starts-within field put m k = record {
    at = λ s h. within_Starts field put s h (m (field s) h) (k.at (field s) h);
  }

  on_new_Starts :
      (s : S) (h : History) (o : Outcome T A)
      → StartsAt lines h o
      → StartsAt lines h (with_object s o)
  on_new_Starts s h (ok a, t, k) e = e
  on_new_Starts s h (raised x, t, k) e = tt

  pub Starts-on_new : (t : T) (m : Exec T A) → Starts lines m → Starts {S = S} lines (on_new t m)
  unfolding on_new
  Starts-on_new t m k = record { at = λ s h. on_new_Starts s h (m t h) (k.at t h) }

pub ruleset silent_rules = (
  Starts-pure, Starts-print, Starts-modify, Starts-get, Starts-or_raise, Starts-when, Starts-bind,
)
