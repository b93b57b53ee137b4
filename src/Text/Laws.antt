-- ===== src/Text/Laws.antt =====
-- What the methods of `str` guarantee.
use Prim.Native.String.{[], ◌∷◌}
use mathlib.Core.List.{[], ◌∷◌}
use meta_overc.Base.{Char, String, Bool, false, List, ◌≡◌, ◌⊎◌, inl, inr, refl, Bool-cases}
use meta_overc.Text.{is_space, lstrip_by, put_before, rstrip_by, strip, extend, at_gap, split}

-- A text that begins with a character that stays, or no text
abbrev pub BeginsWell : (Char → Bool) → String → Type 0
BeginsWell drop s = (s ≡ []) ⊎ ((c : Char) × (t : String) × (s ≡ c ∷ t) × (drop c ≡ false))

module _ (drop : Char → Bool) where
  lstrip_by-BeginsWell : (s : String) → BeginsWell drop (lstrip_by drop s)
  unfolding lstrip_by
  lstrip_by-BeginsWell [] = inl refl
  lstrip_by-BeginsWell (c ∷ s) = elim (Bool-cases (drop c)) [
    | inl e ↦ rw e (lstrip_by-BeginsWell s)
    | inr ne ↦ rw ne (inr (c, s, refl, ne))
  ]

  put_before-BeginsWell :
      (c : Char) (s : String) → drop c ≡ false → BeginsWell drop (put_before drop c s)
  unfolding put_before
  put_before-BeginsWell c [] ne = rw ne (inr (c, [], refl, ne))
  put_before-BeginsWell c (d ∷ s) ne = inr (c, d ∷ s, refl, ne)

  rstrip_by-BeginsWell : (s : String) → BeginsWell drop s → BeginsWell drop (rstrip_by drop s)
  unfolding rstrip_by
  rstrip_by-BeginsWell s (inl e) = rw e (inl refl)
  rstrip_by-BeginsWell s (inr (c, t, e, ne)) = rw e (put_before-BeginsWell c (rstrip_by drop t) ne)

pub strip-BeginsWell : (s : String) → BeginsWell is_space (strip s)
unfolding strip
strip-BeginsWell s = rstrip_by-BeginsWell is_space _ (lstrip_by-BeginsWell is_space s)

-- A list with at least one part
abbrev pub HasPart : List String → Type 0
HasPart ws = (w : String) × (vs : List String) × (ws ≡ w ∷ vs)

extend-HasPart : (c : Char) (ws : List String) → HasPart (extend c ws)
unfolding extend
extend-HasPart c [] = (c ∷ [], [], refl)
extend-HasPart c (w ∷ ws) = (c ∷ w, ws, refl)

-- A text that begins with another character than a space has a word.
pub split-HasPart : (c : Char) (s : String) → is_space c ≡ false → HasPart (split (c ∷ s))
unfolding split
split-HasPart c s ne = rw ne (elim (Bool-cases (at_gap s)) [
  | inl e ↦ rw e (c ∷ [], split s, refl)
  | inr ne' ↦ rw ne' (extend-HasPart c (split s))
])
