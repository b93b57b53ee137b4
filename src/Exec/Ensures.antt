-- ===== src/Exec/Ensures.antt =====
-- What holds at the end of every run that returns a value, and runs that refuse: those that keep
-- `Holds` if they return `false`.
use meta_overc.Base.{Bool, true, false, ◌≡◌, refl, subst, if◌then◌else◌}
use meta_overc.System.{Command, History}
use meta_overc.Exec.{
  Error, raise, Exec, Result, ok, raised, Outcome, continue, pure, get, or_value, ◌>>=◌,
}
use meta_overc.Exec.Keeps.{Holds, HoldsAfter, Keeps}

-- What an outcome that returns satisfies
abbrev pub Returned : {S A : Type 0} → (A → S → History → Type 0) → Outcome S A → Type 0
Returned Q (ok a, s, h) = Q a s h
Returned Q (raised e, s, h) = Unit

pub record Ensures {S A : Type 0} (m : Exec S A) (Q : A → S → History → Type 0) : Type 0 where
  pub at : (s : S) (h : History) → Returned Q (m s h)

pub Returned-ok :
    {S A : Type 0} (Q : A → S → History → Type 0) (o : Outcome S A) (a : A)
    → Returned Q o
    → o.0 ≡ ok a
    → Q a o.1 o.2
Returned-ok Q (ok b, s, h) a k e = subst (λ x. Q x s h) (ok_inj e) k
  where
    ok_inj : ok b ≡ ok a → b ≡ a
    ok_inj p = cc
Returned-ok Q (raised x, s, h) a k e = absurd (cc)

module _ {S A B : Type 0} where
  -- What holds at the end of the last part holds at the end of the whole.
  Returned-continue :
      (o : Outcome S A) (f : A → Exec S B) {Q : B → S → History → Type 0}
      → ((a : A) → Ensures (f a) Q)
      → Returned Q (continue o f)
  Returned-continue (ok a, s, h) f k = (k a).at s h
  Returned-continue (raised e, s, h) f k = tt

  pub Ensures-last :
      (m : Exec S A) (f : A → Exec S B) {Q : B → S → History → Type 0}
      → ((a : A) → Ensures (f a) Q)
      → Ensures (m >>= f) Q
  unfolding ◌>>=◌
  Ensures-last m f k = record { at = λ s h. Returned-continue (m s h) f k }

  Returned-with :
      (P : A → Type 0) (o : Outcome S A) (f : A → Exec S B) {Q : B → S → History → Type 0}
      → Returned (λ a s h. P a) o
      → ((a : A) → P a → Ensures (f a) Q)
      → Returned Q (continue o f)
  Returned-with P (ok a, s, h) f p k = (k a p).at s h
  Returned-with P (raised e, s, h) f p k = tt

  -- What follows may use what holds of the value.
  pub Ensures-with :
      (P : A → Type 0) (m : Exec S A) (f : A → Exec S B) {Q : B → S → History → Type 0}
      → Ensures m (λ a s h. P a)
      → ((a : A) → P a → Ensures (f a) Q)
      → Ensures (m >>= f) Q
  unfolding ◌>>=◌
  Ensures-with P m f p k = record { at = λ s h. Returned-with P (m s h) f (p.at s h) k }

  pub Returned-value :
      (r : Result A) (f : A → Exec S B) (Q : B → S → History → Type 0) (s : S) (h : History)
      → ((a : A) → r ≡ ok a → Returned Q (f a s h))
      → Returned Q (continue (or_value r s h) f)
  unfolding ◌>>=◌
  Returned-value (ok a) f Q s h k = k a refl
  Returned-value (raised e) f Q s h k = tt

module _ {S A : Type 0} where
  pub Ensures-pure :
      (a : A) {Q : A → S → History → Type 0}
      → ((s : S) (h : History) → Q a s h)
      → Ensures (pure a) Q
  unfolding pure
  Ensures-pure a k = record { at = k }

  pub Ensures-raise : (e : Error) {Q : A → S → History → Type 0} → Ensures (raise e) Q
  unfolding raise
  Ensures-raise e = record { at = λ s h. tt }

  pub Ensures-if :
      (b : Bool) (m n : Exec S A) {Q : A → S → History → Type 0}
      → Ensures m Q
      → Ensures n Q
      → Ensures (if b then m else n) Q
  Ensures-if true m n k l = k
  Ensures-if false m n k l = l

-- An outcome of a program that has not returned
abbrev pub IsEnded : {S A : Type 0} → Outcome S A → Type 0
IsEnded (ok a, s, h) = ⊥
IsEnded (raised e, s, h) = Unit

module _ {S A B : Type 0} where
  pub IsEnded-continue :
      (o : Outcome S A) (f : A → Exec S B)
      → ((a : A) (s : S) (h : History) → IsEnded (f a s h))
      → IsEnded (continue o f)
  IsEnded-continue (ok a, s, h) f k = k a s h
  IsEnded-continue (raised e, s, h) f k = tt

module _ {S : Type 0} (Fixed : S → Type 0) (Allowed : Command → Type 0) where
  abbrev RefusesAt : History → Outcome S Bool → Type 0
  RefusesAt base (r, s, h) = r ≡ ok false → Holds Fixed Allowed base s h

  pub record Refuses (m : Exec S Bool) : Type 0 where
    pub at :
        (base : History) (s : S) (h : History)
        → Holds Fixed Allowed base s h
        → RefusesAt base (m s h)

module _ {S : Type 0} {Fixed : S → Type 0} {Allowed : Command → Type 0} where
  -- A run that never returns `false` refuses nothing.
  pub Refuses-true : (m : Exec S Bool) → Ensures m (λ r s h. r ≡ true) → Refuses Fixed Allowed m
  Refuses-true m k = record { at = λ base s h p. never base (m s h) (k.at s h) }
    where
      never :
          (base : History) (o : Outcome S Bool)
          → Returned (λ r s h. r ≡ true) o
          → RefusesAt Fixed Allowed base o
      never base (ok r, s, h) t e = absurd (cc)
      never base (raised x, s, h) t e = absurd (cc)

  pub Refuses-pure : (r : Bool) → Refuses Fixed Allowed (pure r)
  unfolding pure
  Refuses-pure r = record { at = λ base s h p e. p }

  pub Refuses-if :
      (b : Bool) (m n : Exec S Bool)
      → Refuses Fixed Allowed m
      → Refuses Fixed Allowed n
      → Refuses Fixed Allowed (if b then m else n)
  Refuses-if true m n k l = k
  Refuses-if false m n k l = l

  pub Refuses-get :
      (f : S → Exec S Bool)
      → ((s : S) → Fixed s → Refuses Fixed Allowed (f s))
      → Refuses Fixed Allowed (get >>= f)
  unfolding ◌>>=◌
  Refuses-get f k = record { at = λ base s h p. (k s p.0).at base s h p }

  module _ {A : Type 0} where
    Refuses-continue :
        (base : History) (o : Outcome S A) (f : A → Exec S Bool)
        → ((a : A) → Refuses Fixed Allowed (f a))
        → HoldsAfter Fixed Allowed base o
        → RefusesAt Fixed Allowed base (continue o f)
    Refuses-continue base (ok a, s, h) f k p x = (k a).at base s h p x
    Refuses-continue base (raised e, s, h) f k p x = absurd (cc)

    pub Refuses-bind :
        (m : Exec S A) (f : A → Exec S Bool)
        → Keeps Fixed Allowed m
        → ((a : A) → Refuses Fixed Allowed (f a))
        → Refuses Fixed Allowed (m >>= f)
    unfolding ◌>>=◌
    Refuses-bind m f k l = record {
      at = λ base s h p. Refuses-continue base (m s h) f l (k.at base s h p);
    }

pub ruleset refuses_rules = (Refuses-pure, Refuses-if, Refuses-get, Refuses-bind)
