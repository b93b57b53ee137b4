-- ===== src/Btrfs/Object/Fields.antt =====
-- Overc/backends/btrfs.py: `_get_btrfs_value` on what `btrfs subvolume show` prints.
use Prim.Native.String.{[], ◌∷◌}
use mathlib.Core.List.{[], ◌∷◌}
use text.Mathlib.TextLemmas.{cons-append, nil-append}
use meta_overc.Base.{
  Char, String, true, false, Option, none, some, List, ◌==◌, eq_iff, ◌≡◌, ◌≢◌, inl, inr, refl, ap,
  ◌∙◌, ◌<>◌, All, Bool-cases, if◌then◌else◌,
}
use meta_overc.Text.{is_space, strip, rstrip_by, split_on, lines}
use meta_overc.Text.Fields.{
  has_char, IsBlank, IsTrimmed, split_on-append, split_on-none, value-stripped, line-stripped,
  strip-indented,
}
use meta_overc.System.{Env, History, ran, btrfs_tool, show}
use meta_overc.Exec.{ok, Result, ◌>>=◌}
use meta_overc.Utils.{popen_lines}
use meta_overc.Btrfs.Object.{find_value, value_of, get_btrfs_value}

-- A line of a key and a value
pub record Field : Type 0 where
  pub indent : String
  pub key : String
  pub gap : String
  pub value : String

-- One line of the output, which may also be a text without a colon, behind spaces: the path of the
-- subvolume, on the first line, and those of its snapshots, on the last ones
pub data Line : Type 0 where
  heading : (indent text : String) → Line
  field : Field → Line

abbrev line_of : Field → String
line_of f = f.indent <> (f.key <> (":" ∷ (f.gap <> f.value)))

abbrev text_of : Line → String
text_of (heading indent text) = indent <> text
text_of (field f) = line_of f

abbrev pub printed_lines : List Line → String
printed_lines [] = ""
printed_lines (l ∷ ls) = text_of l <> ("\n" ∷ printed_lines ls)

-- The value of the first line with a key
abbrev pub lookup : String → List Line → Option String
lookup key [] = none
lookup key (heading indent text ∷ ls) = lookup key ls
lookup key (field f ∷ ls) = if f.key == key then some f.value else lookup key ls

-- A value that has no colon, behind spaces and without spaces at its ends
pub record IsPlain (f : Field) : Type 0 where
  pub blank_gap : IsBlank f.gap
  pub value_trimmed : IsTrimmed f.value
  pub value_no_colon : has_char 58 (f.gap <> f.value) ≡ false

-- The key has no colon and no spaces at its ends and is not empty, and there is no other line. Only
-- the value of the line that is looked for need be plain: that of `Creation time` has colons.
pub record IsField (key : String) (f : Field) : Type 0 where
  pub blank_indent : IsBlank f.indent
  pub key_trimmed : IsTrimmed f.key
  pub has_key : f.key ≢ ""
  pub key_no_colon : has_char 58 f.key ≡ false
  pub one_line : has_char 10 (line_of f) ≡ false
  pub plain_value : f.key ≡ key → IsPlain f

-- A text without a colon that is not the key
pub record IsHeading (key indent text : String) : Type 0 where
  pub blank_indent : IsBlank indent
  pub trimmed : IsTrimmed text
  pub has_text : text ≢ ""
  pub no_colon : has_char 58 text ≡ false
  pub no_key : text == key ≡ false
  pub one_line : has_char 10 (indent <> text) ≡ false

abbrev pub IsShown : String → Line → Type 0
IsShown key (heading indent text) = IsHeading key indent text
IsShown key (field f) = IsField key f

cons-ne-empty : (c : Char) (t u : String) → u ≡ c ∷ t → u ≢ ""
cons-ne-empty c t u q e = cc

ne-empty : (s : String) (c : Char) (t : String) → s <> (c ∷ t) ≢ ""
ne-empty [] c t e = cons-ne-empty c t _ (nil-append (c ∷ t)) e
ne-empty (d ∷ s) c t e = cons-ne-empty d (s <> (c ∷ t)) _ (cons-append d s (c ∷ t)) e

ne-empty_eq : (s : String) → s ≢ "" → (s == "") ≡ false
ne-empty_eq s ne = elim (Bool-cases (s == "")) [
  | inr absent ↦ absent
  | inl e ↦ absurd (ne ((eq_iff s "").0 e))
]

-- A text with a colon is not empty.
not_empty : (s : String) (c : Char) (t : String) → ((s <> (c ∷ t)) == "") ≡ false
not_empty s c t = ne-empty_eq _ (ne-empty s c t)

-- A line with another key is passed over, whatever stands behind its colons.
value_of-other :
    (key k : String) (vs : List String) (rest : Result (Option String))
    → (strip k == key) ≡ false
    → value_of key (k ∷ vs) rest ≡ rest
unfolding value_of
value_of-other key k [] rest ne = rw ne refl
value_of-other key k (v ∷ vs) rest ne = rw ne refl

find_value-heading :
    (key indent text : String) (rest : List String)
    → IsHeading key indent text
    → find_value key ((indent <> text) ∷ rest) ≡ find_value key rest
unfolding find_value
find_value-heading key indent text rest h =
    rw
      (
        strip-indented indent text h.blank_indent h.trimmed h.has_text,
        ne-empty_eq text h.has_text,
        split_on-none 58 text h.no_colon,
      )
      (value_of-other key text [] (find_value key rest) (rw h.trimmed h.no_key))

-- What the line with a key gives, and any other line
find_value-field :
    (key : String) (f : Field) (rest : List String)
    → IsField key f
    → find_value key (line_of f ∷ rest)
      ≡ (if f.key == key then ok (some f.value) else find_value key rest)
unfolding find_value
find_value-field key f rest shown =
    let w = rstrip_by is_space (f.gap <> f.value) in
    rw
      (
        line-stripped f.indent f.key (f.gap <> f.value) shown.blank_indent shown.key_trimmed
            shown.has_key,
        not_empty f.key ":" w,
        split_on-append 58 ":" f.key w refl shown.key_no_colon,
      )
      (elim (Bool-cases (f.key == key)) [
        | inl e ↦
            let plain = shown.plain_value ((eq_iff f.key key).0 e) in
            let (no_colon, value) =
              value-stripped f.gap f.value plain.blank_gap plain.value_trimmed
                plain.value_no_colon in
            unfold value_of in rw (split_on-none 58 w no_colon, shown.key_trimmed, e, value) refl
        | inr ne ↦
            rw ne (value_of-other key f.key _ (find_value key rest) (rw shown.key_trimmed ne))
      ])

find_value-lookup :
    (key : String) (ls : List Line)
    → All (IsShown key) ls
    → find_value key (lines (printed_lines ls)) ≡ ok (lookup key ls)
unfolding lines
find_value-lookup key [] all = unfold find_value split_on strip in refl
find_value-lookup key (heading indent text ∷ ls) (h, all) =
    let first = split_on-append 10 "\n" (indent <> text) (printed_lines ls) refl h.one_line in
    ap (find_value key) first
    ∙ (find_value-heading key indent text (lines (printed_lines ls)) h
        ∙ find_value-lookup key ls all)
find_value-lookup key (field f ∷ ls) (shown, all) =
    let first = split_on-append 10 "\n" (line_of f) (printed_lines ls) refl shown.one_line in
    ap (find_value key) first
    ∙ (find_value-field key f (lines (printed_lines ls)) shown ∙ elim (Bool-cases (f.key == key)) [
      | inl e ↦ rw e refl
      | inr ne ↦ rw ne (find_value-lookup key ls all)
    ])

-- Where `btrfs subvolume show` prints lines of a key, a colon and a value, of which only the values
-- under the key that is asked for need be without a colon, and lines without a colon that are not the
-- key itself, `_get_btrfs_value` returns the value of the first line with the key, without the spaces
-- around it, or `None` if there is none.
pub get_btrfs_value-lookup :
    {S : Type 0} (env : Env) (path key : String) (ls : List Line) (s : S) (h : History)
    → All (IsShown key) ls
    → (env.reply h (btrfs_tool true (show path))).output ≡ printed_lines ls
    → get_btrfs_value env path key true s h
      ≡ (ok (lookup key ls), s, ran (btrfs_tool true (show path)) ∷ h)
unfolding get_btrfs_value popen_lines ◌>>=◌
get_btrfs_value-lookup env path key ls s h all e = rw (e, find_value-lookup key ls all) refl
