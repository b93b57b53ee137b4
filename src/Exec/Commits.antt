-- ===== src/Exec/Commits.antt =====
-- Runs that commit: unless they return `true`, they keep `Holds`, whether they return `false` or
-- raise; if they return `true`, they keep it up to their last statements.
use meta_overc.Base.{Bool, true, false, if◌then◌else◌}
use meta_overc.System.{Command, History}
use meta_overc.Exec.{Exec, ok, raised, Outcome, continue, get, pure, ◌>>=◌}
use meta_overc.Exec.Keeps.{Since, Holds, HoldsAfter, Keeps}

-- `Last mid h` says what the last statements have added to the history `mid`.
module _ {S : Type 0} (Fixed : S → Type 0) (Allowed : Command → Type 0)
    (Last : History → History → Type 0) where
  abbrev pub CommitsAt : History → Outcome S Bool → Type 0
  CommitsAt base (ok true, s, h) = (mid : History) × Since Allowed base mid × Last mid h
  CommitsAt base (ok false, s, h) = Holds Fixed Allowed base s h
  CommitsAt base (raised e, s, h) = Holds Fixed Allowed base s h

  pub record Commits (m : Exec S Bool) : Type 0 where
    pub at :
        (base : History) (s : S) (h : History)
        → Holds Fixed Allowed base s h
        → CommitsAt base (m s h)

module _ {S : Type 0} {Fixed : S → Type 0} {Allowed : Command → Type 0}
    {Last : History → History → Type 0} where
  pub Commits-refuse : Commits Fixed Allowed Last (pure false)
  unfolding pure
  Commits-refuse = record { at = λ base s h p. p }

  pub Commits-if :
      (b : Bool) (m n : Exec S Bool)
      → Commits Fixed Allowed Last m
      → Commits Fixed Allowed Last n
      → Commits Fixed Allowed Last (if b then m else n)
  Commits-if true m n k l = k
  Commits-if false m n k l = l

  pub Commits-get :
      (f : S → Exec S Bool)
      → ((s : S) → Fixed s → Commits Fixed Allowed Last (f s))
      → Commits Fixed Allowed Last (get >>= f)
  unfolding ◌>>=◌
  Commits-get f k = record { at = λ base s h p. (k s p.0).at base s h p }

  module _ {A : Type 0} where
    Commits-continue :
        (base : History) (o : Outcome S A) (f : A → Exec S Bool)
        → ((a : A) → Commits Fixed Allowed Last (f a))
        → HoldsAfter Fixed Allowed base o
        → CommitsAt Fixed Allowed Last base (continue o f)
    Commits-continue base (ok a, s, h) f k p = (k a).at base s h p
    Commits-continue base (raised e, s, h) f k p = p

    pub Commits-bind :
        (m : Exec S A) (f : A → Exec S Bool)
        → Keeps Fixed Allowed m
        → ((a : A) → Commits Fixed Allowed Last (f a))
        → Commits Fixed Allowed Last (m >>= f)
    unfolding ◌>>=◌
    Commits-bind m f k l = record {
      at = λ base s h p. Commits-continue base (m s h) f l (k.at base s h p);
    }

pub ruleset commits_rules = (Commits-refuse, Commits-if, Commits-get, Commits-bind)
