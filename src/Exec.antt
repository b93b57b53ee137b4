-- ===== src/Exec.antt =====
-- Python's evaluation: a method reads and writes its object, adds to the history, and returns a
-- value or raises. What was written before a raise stays written.
pub mod Keeps
pub mod Ensures
pub mod Starts
pub mod Commits
pub mod Cuts
pub mod After
pub mod Returns
pub mod Yields
use meta_overc.Base.{
  ◌≡◌, refl, ◌⊎◌, inl, inr, String, ◌<>◌, ℤ, pos, Bool, true, false, not, Option, none, some, List,
  [], ◌∷◌, if◌then◌else◌,
}
use meta_overc.System.{
  Command, Event, ran, printed, History, Reply, Execution, Env, spawn, succeeded,
}

pub data Error : Type 0 where
  -- `sys.exit(code)`
  system_exit : ℤ → Error
  -- `subprocess.CalledProcessError` with its return code and output
  called_process : ℤ → String → Error
  -- `OSError`, which is also `IOError`
  os_error name_error attribute_error type_error key_error index_error assertion_error : Error
  unbound_local : Error

pub data Result (A : Type 0) : Type 0 where
  ok : A → Result A
  raised : Error → Result A

pub Result-cases :
    {A : Type 0} (r : Result A) → ((a : A) × (r ≡ ok a)) ⊎ ((e : Error) × (r ≡ raised e))
Result-cases (ok a) = inl (a, refl)
Result-cases (raised e) = inr (e, refl)

abbrev pub Outcome : Type 0 → Type 0 → Type 0
Outcome S A = Result A × S × History

abbrev pub Exec : Type 0 → Type 0 → Type 0
Exec S A = S → History → Outcome S A

module _ {S : Type 0} where
  unfoldable pub pure : {A : Type 0} → A → Exec S A
  pure a s h = (ok a, s, h)

  unfoldable pub raise : {A : Type 0} → Error → Exec S A
  raise e s h = (raised e, s, h)

  -- The fields of `self`
  unfoldable pub get : Exec S S
  get s h = (ok s, s, h)

  unfoldable pub modify : (S → S) → Exec S (Unit {0})
  modify f s h = (ok tt, f s, h)

  unfoldable pub when : Bool → Exec S (Unit {0}) → Exec S (Unit {0})
  unfolding pure
  when true m = m
  when false m = pure tt

  -- `print(text)`
  unfoldable pub print : String → Exec S (Unit {0})
  print text s h = (ok tt, s, printed text ∷ h)

  -- A value that may be missing, such as `xs[2]`
  unfoldable pub or_raise : {A : Type 0} → Option A → Error → Exec S A
  unfolding pure raise
  or_raise none e = raise e
  or_raise (some a) e = pure a

  -- A computed value, or the exception that its computation raised
  unfoldable pub or_value : {A : Type 0} → Result A → Exec S A
  unfolding pure raise
  or_value (ok a) = pure a
  or_value (raised e) = raise e

  abbrev pub recover : {A : Type 0} → Outcome S A → (Error → Exec S A) → Outcome S A
  recover (ok a, s, h) f = (ok a, s, h)
  recover (raised e, s, h) f = f e s h

  -- `try: m`, `except: f`
  unfoldable pub try_except : {A : Type 0} → Exec S A → (Error → Exec S A) → Exec S A
  try_except m f s h = recover (m s h) f

  -- The command goes into the history, and the environment answers.
  unfoldable pub ask : Env → Command → Exec S Reply
  ask env c s h = (ok (env.reply h c), s, ran c ∷ h)

  abbrev pub started : Option Execution → Exec S Execution
  started none s h = (raised os_error, s, h)
  started (some x) s h = (ok x, s, h)

  -- `subprocess.Popen(cmd.split(), …)`
  unfoldable pub popen : Env → String → Bool → Exec S Execution
  popen env line by_line s h = started (env.execute h line by_line) s (ran (spawn line) ∷ h)

  abbrev pub continue : {A B : Type 0} → Outcome S A → (A → Exec S B) → Outcome S B
  continue (ok a, s, h) f = f a s h
  continue (raised e, s, h) f = (raised e, s, h)

  infixl 5 ◌>>=◌ ◌>>◌
  -- To unfold this is to unfold all of the above.
  unfoldable pub ◌>>=◌ : {A B : Type 0} → Exec S A → (A → Exec S B) → Exec S B
  unfolding pure raise get modify when print or_raise or_value try_except ask popen
  ◌>>=◌ m f s h = continue (m s h) f

  abbrev pub ◌>>◌ : {A B : Type 0} → Exec S A → Exec S B → Exec S B
  m >> n = m >>= λ _. n

-- A first part that returns hands its value, its object and its history to the second.
pub bind_ok :
    {S A B : Type 0} (m : Exec S A) (f : A → Exec S B) (s : S) (h : History) {a : A} {t : S}
    → (m s h).0 ≡ ok a
    → (m s h).1 ≡ t
    → (m >>= f) s h ≡ f a t (m s h).2
unfolding ◌>>=◌
bind_ok {S} {A} {B} m f s h {a} {t} p q = step (m s h) p q
  where
    step : (o : Outcome S A) → o.0 ≡ ok a → o.1 ≡ t → continue o f ≡ f a t o.2
    step (ok b, u, k) e d = cc
    step (raised x, u, k) e d = absurd (cc)

-- What follows goes on from a known outcome.
pub then_at :
    {S A B : Type 0} (m : Exec S A) (f : A → Exec S B) (s t : S) (h k : History) (a : A)
    → m s h ≡ (ok a, t, k)
    → (m >>= f) s h ≡ f a t k
unfolding ◌>>=◌
then_at m f s t h k a e = rw e refl

module _ {S A B : Type 0} where
  -- What follows may be replaced by what does the same.
  pub bind_same :
      (m : Exec S A) (f g : A → Exec S B)
      → ((a : A) (s : S) (h : History) → f a s h ≡ g a s h)
      → (s : S) (h : History) → (m >>= f) s h ≡ (m >>= g) s h
  unfolding ◌>>=◌
  bind_same m f g k s h = go (m s h)
    where
      go : (o : Outcome S A) → continue o f ≡ continue o g
      go (ok a, t, l) = k a t l
      go (raised e, t, l) = refl

  pub bind_assoc :
      {C : Type 0} (m : Exec S A) (f : A → Exec S B) (g : B → Exec S C) (s : S) (h : History)
      → ((m >>= f) >>= g) s h ≡ (m >>= λ a. f a >>= g) s h
  unfolding ◌>>=◌
  bind_assoc {C} m f g s h = go (m s h)
    where
      go :
          (o : Outcome S A) → continue (continue o f) g ≡ continue o (λ a s h. continue (f a s h) g)
      go (ok a, t, l) = refl
      go (raised e, t, l) = refl

-- A method of an object that the caller's object holds in a field
module _ {S T : Type 0} (field : S → T) (update : S → T → S) where
  abbrev pub put_back : {A : Type 0} → S → Outcome T A → Outcome S A
  put_back s (r, t, h) = (r, update s t, h)

  unfoldable pub within : {A : Type 0} → Exec T A → Exec S A
  within m s h = put_back s (m (field s) h)

-- A method of a new object, which the caller keeps
module _ {S T : Type 0} where
  abbrev pub with_object : {A : Type 0} → S → Outcome T A → Outcome S (A × T)
  with_object s (ok a, t, h) = (ok (a, t), s, h)
  with_object s (raised e, t, h) = (raised e, s, h)

  unfoldable pub on_new : {A : Type 0} → T → Exec T A → Exec S (A × T)
  on_new t m s h = with_object s (m t h)

  -- A new object whose method returns hands its value and the object to what follows.
  pub on_new_ok :
      {A B : Type 0} (t : T) (m : Exec T A) (f : A × T → Exec S B) (s : S) (h : History) {a : A}
      {u : T}
      → (m t h).0 ≡ ok a
      → (m t h).1 ≡ u
      → (on_new t m >>= f) s h ≡ f (a, u) s (m t h).2
  unfolding on_new ◌>>=◌
  on_new_ok {A = A} {B = B} t m f s h {a} {u} e d = go (m t h) e d
    where
      go : (o : Outcome T A) → o.0 ≡ ok a → o.1 ≡ u → continue (with_object s o) f ≡ f (a, u) s o.2
      go (ok b, v, k) p q = cc
      go (raised x, v, k) p q = absurd (cc)
