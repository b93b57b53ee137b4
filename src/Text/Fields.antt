-- ===== src/Text/Fields.antt =====
-- Lines of a key and a value, as `btrfs subvolume show` prints them, and what the methods of `str` make
-- of them.
use Prim.Native.String.{[], ◌∷◌}
use mathlib.Core.List.{[], ◌∷◌}
use text.Mathlib.TextLemmas.{cons-append, nil-append, append-nil}
use meta_overc.Base.{
  ℕ, Char, String, Bool, true, false, ◌||◌, ◌≡◌, ◌≢◌, inl, inr, refl, ap, sym, ◌∙◌, ◌<>◌,
}
use meta_overc.Text.Laws.{BeginsWell, strip-BeginsWell}
use meta_overc.Text.{is_space, is_char, lstrip_by, put_before, rstrip_by, strip, extend, split_on}

-- Whether a text has a character with that code
abbrev pub has_char : ℕ → String → Bool
has_char n [] = false
has_char n (c ∷ s) = is_char n c || has_char n s

abbrev pub IsBlank : String → Type 0
IsBlank [] = Unit
IsBlank (c ∷ s) = (is_space c ≡ true) × IsBlank s

or-false-left : (a b : Bool) → (a || b) ≡ false → a ≡ false
or-false-left true b e = e
or-false-left false b e = refl

or-false-right : (a b : Bool) → (a || b) ≡ false → b ≡ false
or-false-right true b e = absurd (cc)
or-false-right false b e = e

-- A text up to the first separator
pub split_on-append :
    (n : ℕ) (d : Char) (s t : String)
    → is_char n d ≡ true
    → has_char n s ≡ false
    → split_on n (s <> (d ∷ t)) ≡ s ∷ split_on n t
unfolding split_on extend
split_on-append n d [] t sep none = rw (nil-append (d ∷ t), sep) refl
split_on-append n d (c ∷ s) t sep none =
    rw
      (
        cons-append c s (d ∷ t),
        or-false-left (is_char n c) (has_char n s) none,
        split_on-append n d s t sep (or-false-right (is_char n c) (has_char n s) none),
      )
      refl

pub split_on-none : (n : ℕ) (s : String) → has_char n s ≡ false → split_on n s ≡ s ∷ []
unfolding split_on extend
split_on-none n [] none = refl
split_on-none n (c ∷ s) none =
    rw
      (
        or-false-left (is_char n c) (has_char n s) none,
        split_on-none n s (or-false-right (is_char n c) (has_char n s) none),
      )
      refl

put_before-append :
    (c : Char) (s : String) (d : Char) (v : String)
    → put_before is_space c (s <> (d ∷ v)) ≡ c ∷ (s <> (d ∷ v))
unfolding put_before
put_before-append c [] d v = rw (nil-append (d ∷ v)) refl
put_before-append c (b ∷ s) d v = rw (cons-append b s (d ∷ v)) refl

-- What is left of a text keeps what stands before it from being stripped.
rstrip-append :
    (s u : String) (d : Char) (v : String)
    → rstrip_by is_space u ≡ d ∷ v
    → rstrip_by is_space (s <> u) ≡ s <> (d ∷ v)
unfolding rstrip_by
rstrip-append [] u d v e = ap (rstrip_by is_space) (nil-append u) ∙ (e ∙ sym (nil-append (d ∷ v)))
rstrip-append (c ∷ s) u d v e =
    rw (cons-append c s u, cons-append c s (d ∷ v), rstrip-append s u d v e)
      (put_before-append c s d v)

rstrip-blank : (b : String) → IsBlank b → rstrip_by is_space b ≡ ""
unfolding rstrip_by put_before
rstrip-blank [] blank = refl
rstrip-blank (c ∷ b) (x, blank) = rw (rstrip-blank b blank, x) refl

lstrip-append :
    (b : String) (c : Char) (s : String)
    → IsBlank b
    → is_space c ≡ false
    → lstrip_by is_space (b <> (c ∷ s)) ≡ c ∷ s
unfolding lstrip_by
lstrip-append [] c s blank e = rw (nil-append (c ∷ s), e) refl
lstrip-append (d ∷ b) c s (x, blank) e =
    rw (cons-append d b (c ∷ s), x) (lstrip-append b c s blank e)

-- A text without spaces at its ends
abbrev pub IsTrimmed : String → Type 0
IsTrimmed s = strip s ≡ s

lstrip-BeginsWell : (s : String) → BeginsWell is_space s → lstrip_by is_space s ≡ s
unfolding lstrip_by
lstrip-BeginsWell s (inl e) = rw e refl
lstrip-BeginsWell s (inr (c, t, e, ne)) = rw (e, ne) refl

IsTrimmed-BeginsWell : (s : String) → IsTrimmed s → BeginsWell is_space s
IsTrimmed-BeginsWell s e = rw e at (strip-BeginsWell s)

rstrip-IsTrimmed : (s : String) → IsTrimmed s → rstrip_by is_space s ≡ s
unfolding strip
rstrip-IsTrimmed s e =
    ap (rstrip_by is_space) (sym (lstrip-BeginsWell s (IsTrimmed-BeginsWell s e))) ∙ e

rstrip-colon : (s : String) → rstrip_by is_space (":" ∷ s) ≡ ":" ∷ rstrip_by is_space s
unfolding rstrip_by put_before is_space
rstrip-colon s = keeps (rstrip_by is_space s)
  where
    keeps : (u : String) → put_before is_space ":" u ≡ ":" ∷ u
    keeps [] = refl
    keeps (d ∷ u) = refl

-- What is left of the part behind the colon
pub value-stripped :
    (gap value : String)
    → IsBlank gap
    → IsTrimmed value
    → has_char 58 (gap <> value) ≡ false
    → let w = rstrip_by is_space (gap <> value) in (has_char 58 w ≡ false) × (strip w ≡ value)
unfolding strip
value-stripped gap value blank trimmed plain = elim (IsTrimmed-BeginsWell value trimmed) [
  | inl e ↦ rw (e, append-nil gap, rstrip-blank gap blank) (refl, refl)
  | inr (c, t, e, ne) ↦
      let last : rstrip_by is_space value ≡ c ∷ t = rstrip-IsTrimmed value trimmed ∙ e in
      let kept : rstrip_by is_space (gap <> value) ≡ gap <> value =
        rstrip-append gap value c t last ∙ ap (λ v. gap <> v) (sym e) in
      let left : lstrip_by is_space (gap <> value) ≡ value =
        ap (λ v. lstrip_by is_space (gap <> v)) e ∙ (lstrip-append gap c t blank ne ∙ sym e) in
      rw kept (plain, ap (rstrip_by is_space) left ∙ rstrip-IsTrimmed value trimmed)
]

-- A line that is stripped of its spaces
pub line-stripped :
    (indent key rest : String)
    → IsBlank indent
    → IsTrimmed key
    → key ≢ ""
    → strip (indent <> (key <> (":" ∷ rest))) ≡ key <> (":" ∷ rstrip_by is_space rest)
unfolding strip
line-stripped indent key rest blank trimmed named = elim (IsTrimmed-BeginsWell key trimmed) [
  | inl e ↦ absurd (named e)
  | inr (c, t, e, ne) ↦
      let begun : key <> (":" ∷ rest) ≡ c ∷ (t <> (":" ∷ rest)) =
        ap (λ k. k <> (":" ∷ rest)) e ∙ cons-append c t (":" ∷ rest) in
      let left : lstrip_by is_space (indent <> (key <> (":" ∷ rest))) ≡ key <> (":" ∷ rest) =
        ap (λ l. lstrip_by is_space (indent <> l)) begun
        ∙ (lstrip-append indent c (t <> (":" ∷ rest)) blank ne ∙ sym begun) in
      ap (rstrip_by is_space) left
      ∙ rstrip-append key (":" ∷ rest) ":" (rstrip_by is_space rest) (rstrip-colon rest)
]

-- A text without spaces at its ends, behind spaces
pub strip-indented :
    (indent s : String) → IsBlank indent → IsTrimmed s → s ≢ "" → strip (indent <> s) ≡ s
unfolding strip
strip-indented indent s blank trimmed named = elim (IsTrimmed-BeginsWell s trimmed) [
  | inl e ↦ absurd (named e)
  | inr (c, t, e, ne) ↦
      let left : lstrip_by is_space (indent <> s) ≡ s =
        ap (λ v. lstrip_by is_space (indent <> v)) e
        ∙ (lstrip-append indent c t blank ne ∙ sym e) in
      ap (rstrip_by is_space) left ∙ rstrip-IsTrimmed s trimmed
]
