-- ===== src/Process/Output.antt =====
-- What `Process.run` collects from a child.
use meta_overc.Base.{
  String, Bool, true, ◌<>◌, ℤ, ◌≡◌, refl, ◌∙◌, Option, none, some, List, [], ◌∷◌, ◌++◌, ◌==◌,
  Bool-cases, inl, inr,
}
use text.Mathlib.TextLemmas.{append_assoc, append-nil, nil-append}
use meta_overc.System.{Env, History, Round, Execution, printed}
use meta_overc.Logger.{colorize, info}
use meta_overc.Exec.{Exec, Outcome, ok, ◌>>=◌, ◌>>◌, modify, pure, bind_ok}
use meta_overc.Process.{Process, new_process, read_stdout, read_stderr, round, rounds, watch, run}

abbrev pub text_of : Option String → String
text_of none = ""
text_of (some text) = text

-- The texts of all rounds in order: within a round the standard output comes first.
abbrev pub all_output : List Round → String
all_output [] = ""
all_output (r ∷ rs) = (text_of r.from_stdout <> text_of r.from_stderr) <> all_output rs

abbrev pub stdout_of : List Round → String
stdout_of [] = ""
stdout_of (r ∷ rs) = text_of r.from_stdout <> stdout_of rs

abbrev pub stderr_of : List Round → String
stderr_of [] = ""
stderr_of (r ∷ rs) = text_of r.from_stderr <> stderr_of rs

abbrev with_texts : Process → String → String → String → Process
with_texts p out err all = record p {
  stdout = p.stdout <> out;
  stderr = p.stderr <> err;
  message = p.message <> all;
}

with_texts-with_texts :
    (p : Process) (a b c a' b' c' : String)
    → with_texts (with_texts p a b c) a' b' c' ≡ with_texts p (a <> a') (b <> b') (c <> c')
with_texts-with_texts p a b c a' b' c' = simp append_assoc

-- A part of the loop returns, and appends these texts.
abbrev Appends : Process → Outcome Process Unit → String → String → String → Type 0
Appends p o out err all = (o.0 ≡ ok tt) × (o.1 ≡ with_texts p out err all)

read_stdout-Appends :
    (o : Option String) (p : Process) (h : History)
    → Appends p (read_stdout o p h) (text_of o) "" (text_of o)
unfolding read_stdout ◌>>=◌
read_stdout-Appends none p h = (refl, simp append-nil)
read_stdout-Appends (some text) p h = elim (Bool-cases (text == "")) [
  | inl e ↦ rw (e, append-nil) (refl, refl)
  | inr e ↦ rw (e, append-nil) (refl, refl)
]

read_stderr-Appends :
    (o : Option String) (p : Process) (h : History)
    → Appends p (read_stderr o p h) "" (text_of o) (text_of o)
unfolding read_stderr ◌>>=◌
read_stderr-Appends none p h = (refl, simp append-nil)
read_stderr-Appends (some text) p h = elim (Bool-cases (text == "")) [
  | inl e ↦ rw (e, append-nil) (refl, refl)
  | inr e ↦ rw (e, append-nil) (refl, refl)
]

Appends-then :
    (m n : Exec Process Unit) (p : Process) (h : History) (a b c a' b' c' : String)
    → Appends p (m p h) a b c
    → ((q : Process) (k : History) → Appends q (n q k) a' b' c')
    → Appends p ((m >>= λ _. n) p h) (a <> a') (b <> b') (c <> c')
Appends-then m n p h a b c a' b' c' e k =
    let later = k (with_texts p a b c) (m p h).2 in
    rw (bind_ok m (λ _. n) p h e.0 e.1) (later.0, later.1 ∙ with_texts-with_texts p a b c a' b' c')

round-Appends :
    (r : Round) (p : Process) (h : History)
    → Appends p
        (round r p h)
        (text_of r.from_stdout)
        (text_of r.from_stderr)
        (text_of r.from_stdout <> text_of r.from_stderr)
unfolding round
round-Appends r p h =
    let out = text_of r.from_stdout in
    let err = text_of r.from_stderr in
    simp (append-nil, nil-append) at
      (Appends-then (read_stdout r.from_stdout) (read_stderr r.from_stderr) p h out "" out "" err
        err (read_stdout-Appends r.from_stdout p h) (read_stderr-Appends r.from_stderr))

rounds-Appends :
    (rs : List Round) (p : Process) (h : History)
    → Appends p (rounds rs p h) (stdout_of rs) (stderr_of rs) (all_output rs)
unfolding rounds ◌>>=◌
rounds-Appends [] p h = (refl, simp append-nil)
rounds-Appends (r ∷ rs) p h =
    Appends-then (round r) (rounds rs) p h _ _ _ _ _ _ (round-Appends r p h) (rounds-Appends rs)

-- The rounds of a child, the last one included
abbrev pub rounds_of : Execution → List Round
rounds_of child = child.rounds ++ (child.last_round ∷ [])

all_output-rounds_of :
    (rs : List Round) (r : Round)
    → all_output (rs ++ (r ∷ []))
      ≡ all_output rs <> (text_of r.from_stdout <> text_of r.from_stderr)
all_output-rounds_of [] r = simp (append-nil, nil-append)
all_output-rounds_of (q ∷ rs) r = simp (all_output-rounds_of rs r, append_assoc)

stdout_of-rounds_of :
    (rs : List Round) (r : Round)
    → stdout_of (rs ++ (r ∷ [])) ≡ stdout_of rs <> text_of r.from_stdout
stdout_of-rounds_of [] r = simp (append-nil, nil-append)
stdout_of-rounds_of (q ∷ rs) r = simp (stdout_of-rounds_of rs r, append_assoc)

stderr_of-rounds_of :
    (rs : List Round) (r : Round)
    → stderr_of (rs ++ (r ∷ [])) ≡ stderr_of rs <> text_of r.from_stderr
stderr_of-rounds_of [] r = simp (append-nil, nil-append)
stderr_of-rounds_of (q ∷ rs) r = simp (stderr_of-rounds_of rs r, append_assoc)

-- The object when the child has ended
abbrev pub finished : Execution → Process
finished child = record {
  stdout = stdout_of (rounds_of child);
  stderr = stderr_of (rounds_of child);
  message = all_output (rounds_of child);
  retval = child.code;
}

pub watch-finished :
    (child : Execution) (h : History)
    → let o = watch child new_process h in (o.0 ≡ ok child.code) × (o.1 ≡ finished child)
unfolding watch
watch-finished child h =
    let all = rounds-Appends child.rounds new_process h in
    let k = (rounds child.rounds new_process h).2 in
    let p =
      with_texts new_process (stdout_of child.rounds) (stderr_of child.rounds)
        (all_output child.rounds) in
    let last = round-Appends child.last_round p k in
    let rest : Exec Process ℤ = (do
      modify (λ q. record q { retval = child.code })
      pure child.code) in
    let start =
      bind_ok (rounds child.rounds) (λ _. round child.last_round >> rest) new_process h all.0
        all.1 in
    let end = bind_ok (round child.last_round) (λ _. rest) p k last.0 last.1 in
    rw (start ∙ end) (
      unfold ◌>>=◌ in
      (refl, simp (all_output-rounds_of, stdout_of-rounds_of, stderr_of-rounds_of, nil-append)))

-- If the command can be started, a new `Process` runs it to the end and returns its code; its
-- message is then all that was read in the rounds up to its end, in the order of reading, within a round the standard output
-- first, and its two streams are the parts of that.
pub run-finished :
    (env : Env) (cmd : String) (liveoutput : Bool) (h : History) (child : Execution)
    → env.execute (printed (colorize true info ("Running: " <> cmd)) ∷ h) cmd liveoutput
      ≡ some child
    → let o = run env cmd liveoutput new_process h in (o.0 ≡ ok child.code) × (o.1 ≡ finished child)
unfolding run ◌>>=◌
run-finished env cmd liveoutput h child e = rw e (watch-finished child _)
