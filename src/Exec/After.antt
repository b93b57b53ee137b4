-- ===== src/Exec/After.antt =====
-- What holds at the end of every run that returns, if it begins after a given history.
use meta_overc.Base.{Bool, true, false, if◌then◌else◌}
use meta_overc.System.{Command, History}
use meta_overc.Exec.{Exec, Outcome, ok, raised, continue, ◌>>=◌}
use meta_overc.Exec.Keeps.{Keeps, Holds, HoldsAfter}
use meta_overc.Exec.Ensures.{Ensures, Returned}

module _ {S : Type 0} (Fixed : S → Type 0) (Allowed : Command → Type 0) (base : History)
    {A : Type 0} where
  pub record EnsuresAfter (m : Exec S A) (Q : A → S → History → Type 0) : Type 0 where
    pub at : (s : S) (h : History) → Holds Fixed Allowed base s h → Returned Q (m s h)

module _ {S : Type 0} {Fixed : S → Type 0} {Allowed : Command → Type 0} {base : History} where
  pub After-Ensures :
      {A : Type 0} (m : Exec S A) {Q : A → S → History → Type 0}
      → Ensures m Q
      → EnsuresAfter Fixed Allowed base m Q
  After-Ensures m k = record { at = λ s h p. k.at s h }

  pub After-if :
      {A : Type 0} (b : Bool) (m n : Exec S A) {Q : A → S → History → Type 0}
      → EnsuresAfter Fixed Allowed base m Q
      → EnsuresAfter Fixed Allowed base n Q
      → EnsuresAfter Fixed Allowed base (if b then m else n) Q
  After-if true m n k l = k
  After-if false m n k l = l

  After-continue :
      {A B : Type 0} (o : Outcome S A) (f : A → Exec S B) {Q : B → S → History → Type 0}
      → HoldsAfter Fixed Allowed base o
      → ((a : A) → EnsuresAfter Fixed Allowed base (f a) Q)
      → Returned Q (continue o f)
  After-continue (ok a, s, h) f p k = (k a).at s h p
  After-continue (raised e, s, h) f p k = tt

  pub After-bind :
      {A B : Type 0} (m : Exec S A) (f : A → Exec S B) {Q : B → S → History → Type 0}
      → Keeps Fixed Allowed m
      → ((a : A) → EnsuresAfter Fixed Allowed base (f a) Q)
      → EnsuresAfter Fixed Allowed base (m >>= f) Q
  unfolding ◌>>=◌
  After-bind m f k l = record { at = λ s h p. After-continue (m s h) f (k.at base s h p) l }
