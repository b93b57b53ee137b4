-- ===== src/Exec/Keeps.antt =====
-- What a run keeps, whether it returns or raises: a property of the object's fields, and that no
-- command of the history is forbidden. One rule for each way to build a method.
use meta_overc.Base.{
  String, Bool, true, false, Option, none, some, All, [], ◌∷◌, ◌++◌, ◌≡◌, refl, ap, if◌then◌else◌,
}
use meta_overc.System.{Command, Event, ran, printed, History, Env, Execution, spawn}
use meta_overc.Exec.{
  Exec, Error, Result, ok, raised, Outcome, continue, pure, raise, get, modify, when, print,
  or_raise, or_value, recover, try_except, ask, started, popen, ◌>>=◌,
}

abbrev pub Permits : (Command → Type 0) → Event → Type 0
Permits Allowed (ran c) = Allowed c
Permits Allowed (printed text) = Unit

-- A history that is another one with events added, all of them permitted
abbrev pub Since : (Command → Type 0) → History → History → Type 0
Since Allowed base h = (new : History) × (h ≡ new ++ base) × All (Permits Allowed) new

All-append :
    (P : Event → Type 0) (new base : History) → All P new → All P base → All P (new ++ base)
All-append P [] base all rest = rest
All-append P (e ∷ new) base (a, all) rest = (a, All-append P new base all rest)

module _ {Allowed : Command → Type 0} where
  -- Nothing has been added yet.
  pub Since-start : {base : History} → Since Allowed base base
  Since-start = ([], refl, tt)

  pub Since-more :
      {base h : History} {e : Event}
      → Permits Allowed e
      → Since Allowed base h
      → Since Allowed base (e ∷ h)
  Since-more {base} {h} {e} a (new, q, all) = (e ∷ new, ap (λ k. e ∷ k) q, (a, all))

  -- What is permitted everywhere before is permitted everywhere after.
  pub Since-All :
      {base h : History}
      → Since Allowed base h
      → All (Permits Allowed) base
      → All (Permits Allowed) h
  Since-All {base} {h} (new, q, all) rest = rw q (All-append (Permits Allowed) new base all rest)

module _ {S : Type 0} (Fixed : S → Type 0) (Allowed : Command → Type 0) (base : History) where
  abbrev pub Holds : S → History → Type 0
  Holds s h = Fixed s × Since Allowed base h

  abbrev pub HoldsAfter : {A : Type 0} → Outcome S A → Type 0
  HoldsAfter (r, s, h) = Holds s h

module _ {S : Type 0} (Fixed : S → Type 0) (Allowed : Command → Type 0) where
  pub record Keeps {A : Type 0} (m : Exec S A) : Type 0 where
    pub at :
        (base : History) (s : S) (h : History)
        → Holds Fixed Allowed base s h
        → HoldsAfter Fixed Allowed base (m s h)

module _ {S : Type 0} {Fixed : S → Type 0} {Allowed : Command → Type 0} where
  pub Keeps-pure : {A : Type 0} (a : A) → Keeps Fixed Allowed (pure a)
  unfolding pure
  Keeps-pure a = record { at = λ base s h p. p }

  pub Keeps-raise : {A : Type 0} (e : Error) → Keeps Fixed Allowed (raise {A = A} e)
  unfolding raise
  Keeps-raise e = record { at = λ base s h p. p }

  pub Keeps-print : (text : String) → Keeps Fixed Allowed (print text)
  unfolding print
  Keeps-print text = record { at = λ base s h p. (p.0, Since-more tt p.1) }

  pub Keeps-modify :
      (f : S → S) → ((s : S) → Fixed s → Fixed (f s)) → Keeps Fixed Allowed (modify f)
  unfolding modify
  Keeps-modify f k = record { at = λ base s h p. (k s p.0, p.1) }

  pub Keeps-ask : (env : Env) (c : Command) → Allowed c → Keeps Fixed Allowed (ask env c)
  unfolding ask
  Keeps-ask env c a = record { at = λ base s h p. (p.0, Since-more a p.1) }

  Keeps-started : (o : Option Execution) → Keeps Fixed Allowed (started o)
  Keeps-started none = record { at = λ base s h p. p }
  Keeps-started (some x) = record { at = λ base s h p. p }

  pub Keeps-popen :
      (env : Env) (line : String) (by_line : Bool)
      → Allowed (spawn line)
      → Keeps Fixed Allowed (popen env line by_line)
  unfolding popen
  Keeps-popen env line by_line a = record {
    at = λ base s h p.
        (Keeps-started (env.execute h line by_line)).at base s _ (p.0, Since-more a p.1);
  }

  pub Keeps-or_raise : {A : Type 0} (o : Option A) (e : Error) → Keeps Fixed Allowed (or_raise o e)
  unfolding or_raise
  Keeps-or_raise none e = Keeps-raise e
  Keeps-or_raise (some a) e = Keeps-pure a

  pub Keeps-or_value : {A : Type 0} (r : Result A) → Keeps Fixed Allowed (or_value r)
  unfolding or_value
  Keeps-or_value (ok a) = Keeps-pure a
  Keeps-or_value (raised e) = Keeps-raise e

  pub Keeps-if :
      {A : Type 0} (b : Bool) (m n : Exec S A)
      → Keeps Fixed Allowed m
      → Keeps Fixed Allowed n
      → Keeps Fixed Allowed (if b then m else n)
  Keeps-if true m n k l = k
  Keeps-if false m n k l = l

  pub Keeps-when :
      (b : Bool) (m : Exec S Unit) → Keeps Fixed Allowed m → Keeps Fixed Allowed (when b m)
  unfolding when
  Keeps-when true m k = k
  Keeps-when false m k = Keeps-pure tt

  Keeps-continue :
      {A B : Type 0} (base : History) (o : Outcome S A) (f : A → Exec S B)
      → ((a : A) → Keeps Fixed Allowed (f a))
      → HoldsAfter Fixed Allowed base o
      → HoldsAfter Fixed Allowed base (continue o f)
  Keeps-continue base (ok a, s, h) f k p = (k a).at base s h p
  Keeps-continue base (raised e, s, h) f k p = p

  pub Keeps-bind :
      {A B : Type 0} (m : Exec S A) (f : A → Exec S B)
      → Keeps Fixed Allowed m
      → ((a : A) → Keeps Fixed Allowed (f a))
      → Keeps Fixed Allowed (m >>= f)
  unfolding ◌>>=◌
  Keeps-bind m f k l = record {
    at = λ base s h p. Keeps-continue base (m s h) f l (k.at base s h p);
  }

  -- What follows may use what is known of the fields.
  pub Keeps-get :
      {A : Type 0} (f : S → Exec S A)
      → ((s : S) → Fixed s → Keeps Fixed Allowed (f s))
      → Keeps Fixed Allowed (get >>= f)
  unfolding ◌>>=◌
  Keeps-get f k = record { at = λ base s h p. (k s p.0).at base s h p }

  -- What follows a computed value may use that its computation did not raise.
  pub Keeps-value :
      {A B : Type 0} (r : Result A) (f : A → Exec S B)
      → ((a : A) → r ≡ ok a → Keeps Fixed Allowed (f a))
      → Keeps Fixed Allowed (or_value r >>= f)
  unfolding ◌>>=◌
  Keeps-value (ok a) f k = record { at = λ base s h p. (k a refl).at base s h p }
  Keeps-value (raised e) f k = record { at = λ base s h p. p }

  Keeps-recover :
      {A : Type 0} (base : History) (o : Outcome S A) (f : Error → Exec S A)
      → ((e : Error) → Keeps Fixed Allowed (f e))
      → HoldsAfter Fixed Allowed base o
      → HoldsAfter Fixed Allowed base (recover o f)
  Keeps-recover base (ok a, s, h) f k p = p
  Keeps-recover base (raised e, s, h) f k p = (k e).at base s h p

  pub Keeps-try :
      {A : Type 0} (m : Exec S A) (f : Error → Exec S A)
      → Keeps Fixed Allowed m
      → ((e : Error) → Keeps Fixed Allowed (f e))
      → Keeps Fixed Allowed (try_except m f)
  unfolding try_except
  Keeps-try m f k l = record { at = λ base s h p. Keeps-recover base (m s h) f l (k.at base s h p) }

pub ruleset keeps_rules = (
  Keeps-pure, Keeps-raise, Keeps-print, Keeps-ask, Keeps-popen, Keeps-or_raise, Keeps-or_value,
  Keeps-if, Keeps-when, Keeps-get, Keeps-bind, Keeps-try,
)
