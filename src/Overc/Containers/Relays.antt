-- ===== src/Overc/Containers/Relays.antt =====
-- What the commands on containers start and leave, where the script of the template exists and can be
-- started.
use meta_overc.Base.{String, ℤ, some, List, [], ◌∷◌, ◌≡◌, refl, ap}
use meta_overc.System.{History}
use meta_overc.Exec.{Exec, Outcome, ok, raised, system_exit, ◌>>=◌, bind_ok, within}
use meta_overc.Exec.Starts.{
  started_lines, Starts, Starts-first, Starts-within, spawns, silent_rules,
}
use meta_overc.Container.{Container, read_message}
use meta_overc.Container.Relays.{Relays}
use meta_overc.Overc.Object.{Overc, on_container, delegate, read_retval}
use meta_overc.Overc.Containers.{exit_after}

pub delegate-Starts :
    (lines : List String) (m : Exec Container ℤ) → Starts lines m → Starts lines (delegate m)
unfolding delegate on_container read_message
delegate-Starts lines m k =
    Starts-first lines _ _ (Starts-within lines _ _ m k)
      (λ code. search (silent_rules, Starts-within) depth 10)

-- The object after a method that has returned a code and left a message
abbrev pub left : Overc → ℤ → String → Overc
left o code text = record o {
  container = record { message = some text };
  message = text;
  retval = some code;
}

-- An operation has returned, one more child has been started, and the object has the code and the
-- message.
abbrev pub IsLeft : String → ℤ → String → Overc → History → Outcome Overc Unit → Type 0
IsLeft line code text o h out =
    (out.0 ≡ ok tt) × (out.1 ≡ left o code text) × (spawns out.2 ≡ line ∷ spawns h)

-- The program ends with a code, one more child has been started, and the object has the code and the
-- message.
abbrev pub IsRelayed : String → ℤ → String → Overc → History → Outcome Overc Unit → Type 0
IsRelayed line code text o h out =
    (out.0 ≡ raised (system_exit code))
    × (out.1 ≡ left o code text)
    × (spawns out.2 ≡ line ∷ spawns h)

delegate-left :
    (m : Exec Container ℤ) (code : ℤ) (text : String)
    → Relays m code text
    → (o : Overc) (h : History)
    → ((delegate m o h).0 ≡ ok tt) × ((delegate m o h).1 ≡ left o code text)
unfolding delegate on_container within read_message ◌>>=◌
delegate-left m code text k o h =
    let (e, d) = k.at o.container h in
    rw (bind_ok (on_container m) _ o h e (ap (λ c. record o { container = c }) d)) (refl, refl)

pub delegate-IsLeft :
    (m : Exec Container ℤ) (line : String) (code : ℤ) (text : String)
    → Relays m code text
    → Starts (line ∷ []) m
    → (o : Overc) (h : History) → IsLeft line code text o h (delegate m o h)
delegate-IsLeft m line code text k l o h =
    let (e, d) = delegate-left m code text k o h in
    (e, d, started_lines (line ∷ []) h (delegate m o h) tt e ((delegate-Starts _ m l).at o h))

pub exit_after-IsRelayed :
    (m : Exec Overc Unit) (line : String) (code : ℤ) (text : String) (o : Overc) (h : History)
    → IsLeft line code text o h (m o h)
    → IsRelayed line code text o h (exit_after m o h)
unfolding exit_after
exit_after-IsRelayed m line code text o h (e, d, q) =
    rw (bind_ok m _ o h e d) (unfold read_retval ◌>>=◌ in (refl, refl, q))
