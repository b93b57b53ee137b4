-- ===== src/Main/Exit.antt =====
-- How the program ends.
use meta_overc.Base.{String, pos, some, List, ◌∷◌, ◌≡◌, refl, ap, ◌∙◌}
use meta_overc.System.{Env, History, Execution, ran, os_path_exists}
use meta_overc.Exec.{Exec, Outcome, Error, ok, raised, continue, ◌>>=◌, pure, on_new, with_object}
use meta_overc.Exec.Ensures.{Ensures-with, Returned-ok}
use meta_overc.Exec.Yields.{Yields, Yields-pure, yields_rules}
use meta_overc.Container.Scripts.{HasScript}
use meta_overc.Container.Relays.{CanStart}
use meta_overc.Overc.Object.{Overc}
use meta_overc.Overc.Host.{host_rollback}
use meta_overc.Overc.Containers.{ContainerCommand, container_command}
use meta_overc.Overc.Containers.Commands.{
  IsDirect, template_of, command_line, container_command-IsRelayed,
}
use meta_overc.Main.{Value, exit_status, exit_status_of, value_of_bool}
use meta_overc.Main.Args.{
  Namespace, Method, Call, call_system_upgrade, call_system_rollback, call_factory_reset,
  call_host_rollback, call_host_upgrade, call_host_update, call_host_newer, call_container,
  call_overlay_list, call_overlay_stop, call_overlay_create, call_of,
}
use meta_overc.Main.Program.{ended, Parsed, parsed, perform, invoke, dispatch, load, script, main}

bind_raised :
    {S A B : Type 0} (m : Exec S A) (f : A → Exec S B) (s : S) (h : History) (e : Error)
    → (m s h).0 ≡ raised e
    → ((m >>= f) s h).0 ≡ raised e
unfolding ◌>>=◌
bind_raised {S = S} {A = A} {B = B} m f s h e p = step (m s h) p
  where
    step : (o : Outcome S A) → o.0 ≡ raised e → (continue o f).0 ≡ raised e
    step (ok a, t, k) q = absurd (cc)
    step (raised x, t, k) q = cc

-- The value of a method on a new object is the value of the program.
on_new-value :
    (o : Overc) (m : Exec Overc Value) (h : History)
    → ((on_new o m >>= λ p. pure p.0) tt h).0 ≡ (m o h).0
unfolding on_new ◌>>=◌
on_new-value o m h = step (m o h)
  where
    step : (out : Outcome Overc Value) → (continue (with_object tt out) (λ p. pure p.0)).0 ≡ out.0
    step (ok v, t, k) = refl
    step (raised e, t, k) = refl

ended-ok :
    (env : Env) (rest : Overc → Exec (Unit {0}) Value) (out : Outcome (Unit {0}) Overc) (o : Overc)
    → out.0 ≡ ok o
    → ended env rest out ≡ exit_status (rest o out.1 out.2).0
ended-ok env rest (ok overc, s, h) o e = let same : overc ≡ o = ok_inj e in rw same refl
  where
    ok_inj : {p q : Overc} → ok p ≡ ok q → p ≡ q
    ok_inj d = cc
ended-ok env rest (raised x, s, h) o e = absurd (cc)

-- The history when the arguments have been read
abbrev pub started_at : Env → History → History
started_at env h = ran (os_path_exists "/usr/bin/dnf") ∷ (load env tt h).2

module _ (env : Env) (o : Overc) (method : Method) (args : Namespace) (call : Call) where
  dispatch-perform :
      (k : History)
      → call_of args method ≡ ok call
      → (dispatch env o (parsed (some method) args) tt k).0 ≡ (perform env call o k).0
  unfolding dispatch
  dispatch-perform k e =
      on_new-value o (invoke env (some method) args) k ∙ (unfold invoke ◌>>=◌ in rw e refl)

module _ (env : Env) (parse_args : List String → Parsed) (argv : List String) (h : History)
    (method : Method) (args : Namespace) (o : Overc) (loads : (load env tt h).0 ≡ ok o)
    (parses : parse_args argv ≡ parsed (some method) args) where
  -- After `Overc()` has returned an object and `parse_args` a method whose arguments can be read, the
  -- status of the program is the status of that call on that object.
  pub main-perform :
      (call : Call)
      → call_of args method ≡ ok call
      → main env parse_args argv h ≡ exit_status (perform env call o (started_at env h)).0
  unfolding main script
  main-perform call e =
      ended-ok env (script env parse_args argv) (load env tt h) o loads
      ∙ rw parses (
          unfold ◌>>=◌ in
          ap exit_status (dispatch-perform env o method args call (started_at env h) e))

  -- A command on containers, other than an upgrade by an image, whose script exists and can be started
  -- ends the program with the code of the script.
  pub main-code :
      (c : ContainerCommand) (child : Execution)
      → call_of args method ≡ ok (call_container c)
      → IsDirect c
      → HasScript env (template_of c)
      → CanStart env (command_line c) child
      → main env parse_args argv h ≡ child.code
  main-code c child e direct there starts =
      let k = started_at env h in
      let (r, q, s) = container_command-IsRelayed env child c direct there starts o k in
      main-perform (call_container c) e
      ∙ (unfold perform in
          rw (bind_raised (container_command env c) _ o k _ r) (unfold exit_status in refl))

-- The commands that are not on one container, but for the two that return a number
abbrev pub IsForHost : Call → Type 0
IsForHost (call_container c) = ⊥
IsForHost call_host_update = ⊥
IsForHost call_host_newer = ⊥
IsForHost c = Unit

abbrev pub IsSuccess : Value → Type 0
IsSuccess v = exit_status_of v ≡ pos 0

host_rollback-Yields : (env : Env) → Yields (λ r. IsSuccess (value_of_bool r)) (host_rollback env)
unfolding host_rollback value_of_bool exit_status_of
host_rollback-Yields env = search (yields_rules) depth 12

perform-Yields : (env : Env) (call : Call) → IsForHost call → Yields IsSuccess (perform env call)
unfolding perform exit_status_of
perform-Yields env (call_system_upgrade template reboots force skipscan skip_del) i =
    search (yields_rules)
perform-Yields env (call_system_rollback template) i = search (yields_rules)
perform-Yields env call_factory_reset i = search (yields_rules)
perform-Yields env call_host_rollback i =
    Ensures-with _ _ _ (host_rollback-Yields env) (λ r q. Yields-pure (value_of_bool r) q)
perform-Yields env call_host_update i = absurd i
perform-Yields env call_host_newer i = absurd i
perform-Yields env (call_host_upgrade reboots force) i = search (yields_rules)
perform-Yields env (call_container c) i = absurd i
perform-Yields env (call_overlay_list name) i = search (yields_rules)
perform-Yields env (call_overlay_stop name dirs) i = search (yields_rules)
perform-Yields env (call_overlay_create name dirs source) i = search (yields_rules)

module _ (env : Env) (parse_args : List String → Parsed) (argv : List String) (h : History)
    (method : Method) (args : Namespace) (o : Overc) (loads : (load env tt h).0 ≡ ok o)
    (parses : parse_args argv ≡ parsed (some method) args) where
  -- A command on the whole system, on the host or on the overlays, other than `host update` and
  -- `host newer`: if its method returns, whether it has done anything or has failed, then the status
  -- of the program is 0.
  pub main-zero :
      (call : Call) (v : Value)
      → call_of args method ≡ ok call
      → IsForHost call
      → (perform env call o (started_at env h)).0 ≡ ok v
      → main env parse_args argv h ≡ pos 0
  unfolding exit_status
  main-zero call v e i p =
      main-perform env parse_args argv h method args o loads parses call e
      ∙ rw p (
          Returned-ok (λ r s k. IsSuccess r) _ v
            ((perform-Yields env call i).at o (started_at env h)) p)
