-- ===== src/Process/Loop.antt =====
-- Overc/utils.py: the `while True` loop of `Process.run`, on fuel, against a child of which every
-- round can be asked.
use meta_overc.Base.{
  ℕ, zero, suc, ◌≤◌, ◌<◌, ℤ, ◌≡◌, sym, ◌∙◌, Option, none, some, [], ◌∷◌, arith, Option-cases, inl,
  inr,
}
use meta_overc.System.{History, Round, Execution}
use meta_overc.Exec.{Exec, ◌>>=◌, ◌>>◌, modify, pure, bind_assoc, bind_same}
use meta_overc.Process.{Process, round, rounds, watch}

-- A child from some time on: what the round with that number reads, and what `child.poll()` returns
-- behind it.
pub record Child : Type 0 where
  pub read_at : ℕ → Round
  pub poll_at : ℕ → Option ℤ

-- The child after one round
abbrev pub later : Child → Child
later child = record { read_at = λ i. child.read_at (suc i); poll_at = λ i. child.poll_at (suc i) }

-- `if child.poll() != None: break`, and the statements behind the loop, or the next round
unfoldable pub after_poll : Option ℤ → Exec Process (Option ℤ) → Exec Process (Option ℤ)
after_poll none next = next
after_poll (some code) next = do modify (λ p. record p { retval = code }); pure (some code)

-- The loop; `none` means that the fuel has run out.
unfoldable pub loop : ℕ → Child → Exec Process (Option ℤ)
unfolding round after_poll
loop zero child = pure none
loop (suc fuel) child = do
  round (child.read_at 0)
  after_poll (child.poll_at 0) (loop fuel (later child))

-- The rounds of a child that has ended with a code after the round with that number
abbrev pub execution : ℕ → Child → ℤ → Execution
execution zero child code = record { rounds = []; last_round = child.read_at 0; code = code }
execution (suc n) child code =
    let rest = execution n (later child) code in
    record rest { rounds = child.read_at 0 ∷ rest.rounds }

-- The loop returns the code of the child's first end, which comes after that round at the latest, and
-- does what `watch` does with the rounds up to it; the fuel is enough if it exceeds the number of the
-- last round.
pub record Stops (n : ℕ) (child : Child) : Type 0 where
  pub last : ℕ
  pub code : ℤ
  pub in_time : last ≤ n
  pub has_ended : child.poll_at last ≡ some code
  pub running : (i : ℕ) → i < last → child.poll_at i ≡ none
  pub watched :
      (fuel : ℕ) (p : Process) (h : History)
      → last < fuel
      → loop fuel child p h ≡ (watch (execution last child code) >>= λ c. pure (some c)) p h

module _ (child : Child) (p : Process) (h : History) where
  -- The loop when the child has ended after the first round
  loop_now :
      (fuel : ℕ) (code : ℤ)
      → child.poll_at 0 ≡ some code
      → 0 < fuel
      → loop fuel child p h ≡ (watch (execution 0 child code) >>= λ c. pure (some c)) p h
  unfolding loop watch rounds
  loop_now zero code e lt = absurd (omega arith)
  loop_now (suc fuel) code e lt =
      rw e (unfold ◌>>=◌ in sym (bind_assoc (round (child.read_at 0)) _ (λ c. pure (some c)) p h))

  -- The loop when the child runs after the first round
  loop-later :
      (fuel last : ℕ) (code : ℤ)
      → child.poll_at 0 ≡ none
      → ((p : Process) (h : History)
          → loop fuel (later child) p h
            ≡ (watch (execution last (later child) code) >>= λ c. pure (some c)) p h)
      → loop (suc fuel) child p h
        ≡ (watch (execution (suc last) child code) >>= λ c. pure (some c)) p h
  unfolding loop watch rounds
  loop-later fuel last code e k =
      let first = round (child.read_at 0) in
      let ended = execution last (later child) code in
      let answer : ℤ → Exec Process (Option ℤ) = λ c. pure (some c) in
      let rest : Exec Process ℤ = (do
        round ended.last_round
        modify (λ q. record q { retval = ended.code })
        pure ended.code) in
      rw e (
        bind_same first _ (λ _. rounds ended.rounds >>= λ _. rest >>= answer)
          (λ _ q l. k q l ∙ bind_assoc (rounds ended.rounds) (λ _. rest) answer q l) p h
        ∙ (sym (bind_assoc first (λ _. rounds ended.rounds) (λ _. rest >>= answer) p h)
            ∙ sym (bind_assoc (first >> rounds ended.rounds) (λ _. rest) answer p h)))

Stops-now : (n : ℕ) (child : Child) (code : ℤ) → child.poll_at 0 ≡ some code → Stops n child
Stops-now n child code e = record {
  last = 0;
  code = code;
  in_time = omega arith;
  has_ended = e;
  running = λ i lt. absurd (omega arith);
  watched = λ fuel p h lt. loop_now child p h fuel code e lt;
}

Stops-later :
    (n : ℕ) (child : Child) → child.poll_at 0 ≡ none → Stops n (later child) → Stops (suc n) child
Stops-later n child e s = record {
  last = suc s.last;
  code = s.code;
  in_time = omega (arith, s.in_time);
  has_ended = s.has_ended;
  running = before;
  watched = enough;
}
  where
    before : (i : ℕ) → i < suc s.last → child.poll_at i ≡ none
    before zero lt = e
    before (suc i) lt = s.running i (omega arith)

    enough :
        (fuel : ℕ) (p : Process) (h : History)
        → suc s.last < fuel
        → loop fuel child p h
          ≡ (watch (execution (suc s.last) child s.code) >>= λ c. pure (some c)) p h
    enough zero p h lt = absurd (omega arith)
    enough (suc fuel) p h lt =
        loop-later child p h fuel s.last s.code e (λ q l. s.watched fuel q l (omega arith))

-- If the child has ended after the round with the number `n`, the loop of `Process.run` ends: there is
-- a first round after which the child has ended, which is not behind that one, and with any fuel
-- beyond the number of it the loop returns the code of that end, and does what `watch` does on the
-- rounds up to it.
pub loop-Stops : (n : ℕ) (child : Child) (code : ℤ) → child.poll_at n ≡ some code → Stops n child
loop-Stops zero child code e = Stops-now 0 child code e
loop-Stops (suc n) child code e = elim (Option-cases (child.poll_at 0)) [
  | inr (c, q) ↦ Stops-now (suc n) child c q
  | inl q ↦ Stops-later n child q (loop-Stops n (later child) code e)
]
