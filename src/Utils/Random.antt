-- ===== src/Utils/Random.antt =====
-- The random names of temporary files.
use Prim.Native.String.{count, String, [], ◌∷◌}
use Prim.Native.String.count
use mathlib.Core.List.{[], ◌∷◌}
use text.Mathlib.TextLemmas.{cons-append, nil-append}
use meta_overc.Base.{
  ℕ, zero, suc, ◌%◌, ◌<◌, Char, ◌<>◌, ◌≡◌, ◌⊎◌, inl, inr, refl, subst, sym, ap, ◌∙◌, arith,
}
use meta_overc.System.{Env, History, ran, draw}
use meta_overc.Exec.{ok, pure, bind_ok, ◌>>=◌}
use meta_overc.Utils.{chars, char_at, magnitude, random_str}

-- A character is in a text.
abbrev pub HasChar : String → Char → Type 0
HasChar [] c = ⊥
HasChar (d ∷ s) c = (c ≡ d) ⊎ HasChar s c

-- Every character of a text is in another text.
abbrev pub IsMadeOf : String → String → Type 0
IsMadeOf alphabet [] = Unit
IsMadeOf alphabet (c ∷ s) = HasChar alphabet c × IsMadeOf alphabet s

-- A text of one character that is in another text
abbrev IsOneOf : String → String → Type 0
IsOneOf alphabet s = (c : Char) × (s ≡ c ∷ []) × HasChar alphabet c

below_rest : (c : Char) (s : String) (k : ℕ) → suc k < count (c ∷ s) → k < count s
below_rest c s k p =
    let q : suc k < suc (count s) = subst (λ n. suc k < n) (count.cons c s) p in omega arith

bounded : (n : ℕ) → n % 36 < count chars
bounded n = omega arith

char_at-IsOneOf : (s : String) (k : ℕ) → k < count s → IsOneOf s (char_at s k)
unfolding char_at
char_at-IsOneOf [] k p = absurd (omega arith)
char_at-IsOneOf (c ∷ s) zero p = (c, refl, inl refl)
char_at-IsOneOf (c ∷ s) (suc k) p =
    let (d, e, m) = char_at-IsOneOf s k (below_rest c s k p) in (d, e, inr m)

-- A character in front of a text
one-append : (c : Char) (s t : String) → s ≡ c ∷ [] → s <> t ≡ c ∷ t
one-append c s t e = rw e (cons-append c [] t ∙ ap (λ r. c ∷ r) (nil-append t))

module _ (env : Env) {S : Type 0} where
  -- `_random_str` returns a text of exactly as many characters as it is asked for, all of them capital
  -- letters or digits.
  pub random_str-IsMadeOf :
      (size : ℕ) (s : S) (h : History)
      → (text : String) × ((random_str env size s h).0 ≡ ok text)
        × (count text ≡ size)
        × IsMadeOf chars text
  unfolding random_str ◌>>=◌
  random_str-IsMadeOf zero s h = ("", refl, refl, tt)
  random_str-IsMadeOf (suc size) s h =
      let k : History = ran draw ∷ h in
      let n = magnitude (env.reply h draw).status % 36 in
      let (rest, e, len, made) = random_str-IsMadeOf size s k in
      let (c, d, m) = char_at-IsOneOf chars n (bounded (magnitude (env.reply h draw).status)) in
      let q = one-append c (char_at chars n) rest d in
      (
        char_at chars n <> rest,
        rw (bind_ok (random_str env size) (λ r. pure (char_at chars n <> r)) s k e refl) refl,
        ap count q ∙ (count.cons c rest ∙ ap suc len),
        subst (IsMadeOf chars) (sym q) (m, made),
      )
