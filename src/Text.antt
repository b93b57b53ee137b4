-- ===== src/Text.antt =====
-- The methods of Python's `str` that the agent calls. A text is a list of code points.
pub mod Laws
pub mod Fields
use Prim.Native.Nat.{◌-◌}
use Prim.Native.String.{count, [], ◌∷◌}
use mathlib.Core.List.{[], ◌∷◌}
use meta_overc.Base.{
  ℕ, zero, suc, Char, code, String, ◌<>◌, Bool, true, false, ◌&&◌, ◌||◌, List, ◌==◌, nat_eq, leb,
  if◌then◌else◌,
}
use text.Mathlib.Text.{starts_with}

-- `c.isspace()`
unfoldable pub is_space : Char → Bool
is_space c =
    let n = code c in
    (leb 9 n && leb n 13)
    || (leb 28 n && leb n 32)
    || nat_eq n 0x85
    || nat_eq n 0xa0
    || nat_eq n 0x1680
    || (leb 0x2000 n && leb n 0x200a)
    || nat_eq n 0x2028
    || nat_eq n 0x2029
    || nat_eq n 0x202f
    || nat_eq n 0x205f
    || nat_eq n 0x3000

unfoldable pub is_char : ℕ → Char → Bool
is_char n c = nat_eq (code c) n

module _ (drop : Char → Bool) where
  unfoldable pub lstrip_by : String → String
  lstrip_by [] = []
  lstrip_by (c ∷ s) = if drop c then lstrip_by s else c ∷ s

  -- The character before a stripped rest: it goes if nothing is left behind it.
  unfoldable pub put_before : Char → String → String
  put_before c [] = if drop c then [] else c ∷ []
  put_before c (d ∷ s) = c ∷ d ∷ s

  unfoldable pub rstrip_by : String → String
  rstrip_by [] = []
  rstrip_by (c ∷ s) = put_before c (rstrip_by s)

-- `s.strip()`
unfoldable pub strip : String → String
unfolding is_space lstrip_by rstrip_by put_before
strip s = rstrip_by is_space (lstrip_by is_space s)

-- `s.strip("\n")`
unfoldable pub strip_newlines : String → String
unfolding is_char lstrip_by rstrip_by put_before
strip_newlines s = rstrip_by (is_char 10) (lstrip_by (is_char 10) s)

-- A character in front of the first part.
unfoldable pub extend : Char → List String → List String
extend c [] = (c ∷ []) ∷ []
extend c (w ∷ ws) = (c ∷ w) ∷ ws

-- `s.split(sep)` at a separator of one character
unfoldable pub split_on : ℕ → String → List String
unfolding extend is_char
split_on sep [] = [] ∷ []
split_on sep (c ∷ s) =
    let rest = split_on sep s in if is_char sep c then [] ∷ rest else extend c rest

unfoldable pub at_gap : String → Bool
unfolding is_space
at_gap [] = true
at_gap (c ∷ _) = is_space c

-- `s.split()`: the maximal runs of other characters than spaces
unfoldable pub split : String → List String
unfolding extend at_gap is_space
split [] = []
split (c ∷ s) =
    let rest = split s in
    if is_space c then rest else if at_gap s then (c ∷ []) ∷ rest else extend c rest

-- `sep.join(parts)`
unfoldable pub join : String → List String → String
join sep [] = []
join sep (w ∷ []) = w
join sep (w ∷ v ∷ ws) = w <> (sep <> join sep (v ∷ ws))

-- `s.replace("\n", ";")`
unfoldable pub newlines_to_semicolons : String → String
unfolding is_char
newlines_to_semicolons [] = []
newlines_to_semicolons (c ∷ s) =
    let rest = newlines_to_semicolons s in if is_char 10 c then ";" <> rest else c ∷ rest

-- `s.replace(old, "")`; the number counts the characters of an occurrence still to be skipped.
unfoldable pub remove_from : String → ℕ → String → String
remove_from old k [] = []
remove_from old (suc k) (c ∷ s) = remove_from old k s
remove_from old zero (c ∷ s) =
    let skipped = remove_from old (count old - 1) s in
    let kept : String = c ∷ remove_from old zero s in
    if starts_with (c ∷ s) old then skipped else kept

unfoldable pub remove : String → String → String
unfolding remove_from
remove old s = remove_from old zero s

-- What `readline` gives before the end of the file, in turn, without the ends of the lines.
unfoldable pub lines : String → List String
unfolding split_on
lines = split_on 10

-- `"/"` between two parts of a path
infixr 66 ◌/◌
abbrev pub ◌/◌ : String → String → String
a / b = a <> ("/" <> b)
