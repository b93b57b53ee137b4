-- ===== src/Exec/Cuts.antt =====
-- Runs that are cut off: the histories between the beginning and the end of a run.
use mathlib.Core.List.{append_cancel_right, append_assoc}
use meta_overc.Base.{List, [], ◌∷◌, ◌++◌, ◌≡◌, ◌⊎◌, inl, inr, sym, ap, ◌∙◌, All}
use meta_overc.System.{Command, Event, History}
use meta_overc.Exec.Keeps.{Permits, Since}

-- The second history is the first one with events added.
abbrev pub Extends : History → History → Type 0
Extends base h = (new : List Event) × (h ≡ new ++ base)

-- A history that a run passes which leads from one history to another
abbrev pub IsBetween : History → History → History → Type 0
IsBetween base end h = Extends base h × Extends h end

All-behind : (P : Event → Type 0) (new base : List Event) → All P (new ++ base) → All P base
All-behind P [] base all = all
All-behind P (e ∷ new) base (a, all) = All-behind P new base all

-- What a run keeps it keeps until it is cut off.
pub Since-IsBetween :
    {Allowed : Command → Type 0} {base end h : History}
    → Since Allowed base end
    → IsBetween base end h
    → Since Allowed base h
Since-IsBetween {Allowed} {base} {end} {h} (new, q, all) ((mid, r), (later, t)) =
    let same : new ≡ later ++ mid =
      append_cancel_right new (later ++ mid) base
        (sym q ∙ (t ∙ (ap (λ k. later ++ k) r ∙ sym (append_assoc later mid base)))) in
    (mid, r, All-behind (Permits Allowed) later mid (rw same at all))

-- A run is cut off behind its last event or before it.
pub IsBetween-cases :
    {base end h : History} (e : Event)
    → IsBetween base (e ∷ end) h
    → (h ≡ e ∷ end) ⊎ IsBetween base end h
IsBetween-cases e (before, ([], t)) = inl (sym t)
IsBetween-cases {base} {end} {h} e (before, (x ∷ later, t)) = inr (before, (later, behind t))
  where
    behind : e ∷ end ≡ x ∷ (later ++ h) → end ≡ later ++ h
    behind p = cc

-- A run of nothing passes one history.
pub IsBetween-start : {base h : History} → IsBetween base base h → h ≡ base
IsBetween-start {base} {h} ((mid, r), (later, t)) =
    let none_added : later ++ mid ≡ [] =
      append_cancel_right (later ++ mid) [] base
        (append_assoc later mid base ∙ (ap (λ k. later ++ k) (sym r) ∙ sym t)) in
    begun later t none_added
  where
    begun : (later : List Event) → base ≡ later ++ h → later ++ mid ≡ [] → h ≡ base
    begun [] t' e = sym t'
    begun (x ∷ rest) t' e = absurd (cc)
