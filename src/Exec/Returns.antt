-- ===== src/Exec/Returns.antt =====
-- Runs that return: from every object of which `Fixed` holds they return a value of which `Q` holds,
-- and `Fixed` holds of the object then.
use meta_overc.Base.{Bool, true, false, Option, some, ◌≡◌, if◌then◌else◌}
use meta_overc.System.{Command, Env, History, Reply}
use meta_overc.Exec.{
  Exec, Error, Result, ok, raised, Outcome, continue, pure, get, modify, when, or_raise, or_value,
  ask, ◌>>=◌,
}

abbrev pub Any : {A : Type 0} → A → Type 0
Any a = Unit

module _ {S : Type 0} (Fixed : S → Type 0) {A : Type 0} (Q : A → Type 0) where
  abbrev pub ReturnsAt : Outcome S A → Type 0
  ReturnsAt (ok a, s, h) = Fixed s × Q a
  ReturnsAt (raised e, s, h) = ⊥

  pub record Returns (m : Exec S A) : Type 0 where
    pub at : (s : S) (h : History) → Fixed s → ReturnsAt (m s h)

module _ {S : Type 0} {Fixed : S → Type 0} where
  pub Returns-pure : {A : Type 0} {Q : A → Type 0} (a : A) → Q a → Returns Fixed Q (pure a)
  unfolding pure
  Returns-pure a q = record { at = λ s h p. (p, q) }

  pub Returns-modify :
      (f : S → S) → ((s : S) → Fixed s → Fixed (f s)) → Returns Fixed Any (modify f)
  unfolding modify
  Returns-modify f k = record { at = λ s h p. (k s p, tt) }

  pub Returns-ask :
      (env : Env) (c : Command) {Q : Reply → Type 0}
      → ((h : History) → Q (env.reply h c))
      → Returns Fixed Q (ask env c)
  unfolding ask
  Returns-ask env c k = record { at = λ s h p. (p, k h) }

  pub Returns-when :
      (b : Bool) (m : Exec S Unit) → Returns Fixed Any m → Returns Fixed Any (when b m)
  unfolding when
  Returns-when true m k = k
  Returns-when false m k = Returns-pure tt tt

  pub Returns-some :
      {A : Type 0} {Q : A → Type 0} (o : Option A) (e : Error) (a : A)
      → o ≡ some a
      → Q a
      → Returns Fixed Q (or_raise o e)
  unfolding or_raise pure
  Returns-some o e a q k = rw q (record { at = λ s h p. (p, k) })

  pub Returns-ok :
      {A : Type 0} {Q : A → Type 0} (r : Result A) (a : A)
      → r ≡ ok a
      → Q a
      → Returns Fixed Q (or_value r)
  unfolding or_value pure
  Returns-ok r a q k = rw q (record { at = λ s h p. (p, k) })

  module _ {A : Type 0} {Q : A → Type 0} where
    pub Returns-if :
        (b : Bool) (m n : Exec S A)
        → Returns Fixed Q m
        → Returns Fixed Q n
        → Returns Fixed Q (if b then m else n)
    Returns-if true m n k l = k
    Returns-if false m n k l = l

    -- A test of which the result is known
    pub Returns-then :
        (b : Bool) (m n : Exec S A)
        → b ≡ true
        → Returns Fixed Q m
        → Returns Fixed Q (if b then m else n)
    Returns-then b m n e k = rw e k

    pub Returns-else :
        (b : Bool) (m n : Exec S A)
        → b ≡ false
        → Returns Fixed Q n
        → Returns Fixed Q (if b then m else n)
    Returns-else b m n e k = rw e k

    pub Returns-get :
        (f : S → Exec S A)
        → ((s : S) → Fixed s → Returns Fixed Q (f s))
        → Returns Fixed Q (get >>= f)
    unfolding ◌>>=◌
    Returns-get f k = record { at = λ s h p. (k s p).at s h p }

  module _ {A B : Type 0} {Q : B → Type 0} where
    Returns-continue :
        (P : A → Type 0) (o : Outcome S A) (f : A → Exec S B)
        → ReturnsAt Fixed P o
        → ((a : A) → P a → Returns Fixed Q (f a))
        → ReturnsAt Fixed Q (continue o f)
    Returns-continue P (ok a, s, h) f (p, q) k = (k a q).at s h p
    Returns-continue P (raised e, s, h) f r k = absurd r

    -- What follows may use what holds of the value.
    pub Returns-with :
        (P : A → Type 0) (m : Exec S A) (f : A → Exec S B)
        → Returns Fixed P m
        → ((a : A) → P a → Returns Fixed Q (f a))
        → Returns Fixed Q (m >>= f)
    unfolding ◌>>=◌
    Returns-with P m f k l = record { at = λ s h p. Returns-continue P (m s h) f (k.at s h p) l }

    pub Returns-bind :
        (m : Exec S A) (f : A → Exec S B)
        → Returns Fixed Any m
        → ((a : A) → Returns Fixed Q (f a))
        → Returns Fixed Q (m >>= f)
    Returns-bind m f k l = Returns-with Any m f k (λ a q. l a)

pub ruleset returns_rules = (Returns-pure, Returns-when, Returns-if, Returns-get, Returns-bind)
