-- ===== src/Exec/Yields.antt =====
-- Runs of which a property holds for the value, if they return.
use meta_overc.Exec.{Exec, ok, raised, Outcome, pure}
use meta_overc.Exec.Ensures.{
  Ensures, Returned, Ensures-pure, Ensures-raise, Ensures-if, Ensures-last,
}

abbrev pub Yields : {S A : Type 0} → (A → Type 0) → Exec S A → Type 0
Yields Q m = Ensures m (λ a s h. Q a)

module _ {S A : Type 0} {Q : A → Type 0} where
  pub Yields-pure : (a : A) → Q a → Yields {S = S} Q (pure a)
  Yields-pure a q = Ensures-pure a (λ s h. q)

  pub Yields-weaken :
      (P : A → Type 0) (m : Exec S A) → Yields P m → ((a : A) → P a → Q a) → Yields Q m
  Yields-weaken P m k f = record { at = λ s h. step (m s h) (k.at s h) }
    where
      step : (o : Outcome S A) → Returned (λ a s h. P a) o → Returned (λ a s h. Q a) o
      step (ok a, s, h) p = f a p
      step (raised e, s, h) p = tt

pub ruleset yields_rules = (Yields-pure, Ensures-raise, Ensures-if, Ensures-last)
