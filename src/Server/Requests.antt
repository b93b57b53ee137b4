-- ===== src/Server/Requests.antt =====
-- run_server.py: what a complete request for an operation on containers amounts to, and its answer.
use meta_overc.Base.{String, ◌<>◌, Bool, true, false, Option, none, some, ◌∷◌, ◌≡◌, refl, ◌∙◌, ap}
use meta_overc.System.{Env, History, Execution}
use meta_overc.Exec.{Exec, ok, pure, bind_ok, on_new_ok}
use meta_overc.Exec.Starts.{spawns}
use meta_overc.Process.Output.{all_output, rounds_of}
use meta_overc.Container.{is_zero}
use meta_overc.Container
use meta_overc.Container.Scripts.{HasScript}
use meta_overc.Container.Relays.{CanStart}
use meta_overc.Overc.Object.{Overc, create}
use meta_overc.Overc.Containers.{
  ContainerCommand, list_cmd, update_cmd, snapshot_list_cmd, snapshot_cmd, start_cmd, stop_cmd,
  delete_snapshots_cmd, activate_cmd, delete_cmd, send_image_cmd, upgrade_cmd, container_operation,
}
use meta_overc.Overc.Containers.Commands.{
  template_of, report, IsDirect, command_line, container_operation-IsLeft,
}
use meta_overc.Server.{
  Request, json_msg, Operation, container_update, container_list, container_snapshot,
  container_list_snapshots, container_send_image, container_activate, container_start,
  container_stop, container_upgrade, container_delete, container_delete_snapshots, answer, call_of,
  upgrade_handler, upgrade_call, yes_or_no, on_template, on_name_and_template, handle,
}

abbrev by_template : Option String → (String → ContainerCommand) → Option ContainerCommand
by_template none c = none
by_template (some template) c = some (c template)

abbrev by_both :
    Option String → Option String → (String → String → ContainerCommand) → Option ContainerCommand
by_both (some name) (some template) c = some (c name template)
by_both _ _ c = none

abbrev by_answers :
    Option String → Option String → Option Bool → Option Bool → Option ContainerCommand
by_answers (some name) (some template) (some rpm) (some image) =
    some (upgrade_cmd name template rpm image false)
by_answers _ _ _ _ = none

-- The command of the command line that a request stands for, if it has its parameters. An activation
-- and a deletion are by force, and an upgrade does not keep the snapshots.
abbrev pub requested : Request → Operation → Option ContainerCommand
requested r container_update = by_template (r.args "template") update_cmd
requested r container_list = by_template (r.args "template") list_cmd
requested r container_snapshot = by_both (r.args "name") (r.args "template") snapshot_cmd
requested r container_list_snapshots = by_both (r.args "name") (r.args "template") snapshot_list_cmd
requested r container_send_image = by_both (r.args "url") (r.args "template") send_image_cmd
requested r container_activate =
    by_both (r.args "name") (r.args "template") (λ name template. activate_cmd name template true)
requested r container_start = by_both (r.args "name") (r.args "template") start_cmd
requested r container_stop = by_both (r.args "name") (r.args "template") stop_cmd
requested r container_delete =
    by_both (r.args "name") (r.args "template") (λ name template. delete_cmd name template true)
requested r container_delete_snapshots =
    by_both (r.args "name") (r.args "template") delete_snapshots_cmd
requested r container_upgrade =
    by_answers (r.args "name") (r.args "template") (yes_or_no (r.args "rpm"))
      (yes_or_no (r.args "image"))
requested r _ = none

some_inj : {A : Type 0} {a b : A} → some a ≡ some b → a ≡ b
some_inj e = cc

module _ (env : Env) where
  on_template-by_template :
      (template : Option String) (f : String → Exec Overc Unit) (g : String → ContainerCommand)
      (c : ContainerCommand)
      → by_template template g ≡ some c
      → ((t : String) → f t ≡ container_operation env (g t))
      → on_template env template f ≡ some (container_operation env c)
  unfolding on_template
  on_template-by_template none f g c e k = absurd (cc)
  on_template-by_template (some t) f g c e k =
      ap some (k t ∙ ap (container_operation env) (some_inj e))

  on_name_and_template-by_both :
      (name template : Option String) (f : String → String → Exec Overc Unit)
      (g : String → String → ContainerCommand) (c : ContainerCommand)
      → by_both name template g ≡ some c
      → ((n t : String) → f n t ≡ container_operation env (g n t))
      → on_name_and_template env name template f ≡ some (container_operation env c)
  unfolding on_name_and_template
  on_name_and_template-by_both (some n) (some t) f g c e k =
      ap some (k n t ∙ ap (container_operation env) (some_inj e))
  on_name_and_template-by_both (some n) none f g c e k = absurd (cc)
  on_name_and_template-by_both none template f g c e k = absurd (cc)

  upgrade_call-by_answers :
      (r : Request) (name template : Option String) (c : ContainerCommand)
      → by_answers name template (yes_or_no (r.args "rpm")) (yes_or_no (r.args "image")) ≡ some c
      → upgrade_handler env r name template ≡ some (container_operation env c)
  unfolding upgrade_handler container_operation Container.get_overlay
  upgrade_call-by_answers r (some n) (some t) c e =
      go (yes_or_no (r.args "rpm")) (yes_or_no (r.args "image")) e
    where
      go :
          (rpm image : Option Bool)
          → by_answers (some n) (some t) rpm image ≡ some c
          → upgrade_call env n t rpm image ≡ some (container_operation env c)
      go (some rpm) (some image) q = ap (λ d. some (container_operation env d)) (some_inj q)
      go (some rpm) none q = absurd (cc)
      go none image q = absurd (cc)
  upgrade_call-by_answers r (some n) none c e = absurd (cc)
  upgrade_call-by_answers r none template c e = absurd (cc)

  call_of-requested :
      (r : Request) (op : Operation) (c : ContainerCommand)
      → requested r op ≡ some c
      → call_of env r op ≡ some (container_operation env c)
  unfolding call_of container_operation
  call_of-requested r container_update c e = on_template-by_template _ _ _ c e (λ t. refl)
  call_of-requested r container_list c e = on_template-by_template _ _ _ c e (λ t. refl)
  call_of-requested r container_snapshot c e =
      on_name_and_template-by_both _ _ _ _ c e (λ n t. refl)
  call_of-requested r container_list_snapshots c e =
      on_name_and_template-by_both _ _ _ _ c e (λ n t. refl)
  call_of-requested r container_send_image c e =
      on_name_and_template-by_both _ _ _ _ c e (λ n t. refl)
  call_of-requested r container_activate c e =
      on_name_and_template-by_both _ _ _ _ c e (λ n t. refl)
  call_of-requested r container_start c e = on_name_and_template-by_both _ _ _ _ c e (λ n t. refl)
  call_of-requested r container_stop c e = on_name_and_template-by_both _ _ _ _ c e (λ n t. refl)
  call_of-requested r container_delete c e = on_name_and_template-by_both _ _ _ _ c e (λ n t. refl)
  call_of-requested r container_delete_snapshots c e =
      on_name_and_template-by_both _ _ _ _ c e (λ n t. refl)
  call_of-requested r container_upgrade c e = upgrade_call-by_answers r _ _ c e
  call_of-requested r _ c e = absurd (cc)

-- A request for an operation on containers, other than a rollback and other than an upgrade by an
-- image alone, with the parameters that it needs stands for one command of the command line, and an
-- upgrade with both `rpm=yes` and `image=yes` for one of packages: if the object can be made, and the
-- script of that command exists and can be started, the handler starts that script once, with the same
-- arguments, and no other child, and its answer is what has been read from the script in the rounds of
-- `Process.run` and the line that says how the operation has ended, on one line.
pub handle-IsRelayed :
    {S : Type 0} (env : Env) (backed : Bool) (r : Request) (op : Operation) (c : ContainerCommand)
    (child : Execution) (overc : Overc) (s : S) (h : History)
    → requested r op ≡ some c
    → IsDirect c
    → HasScript env (template_of c)
    → CanStart env (command_line c) child
    → (create env {S = S} backed s h).0 ≡ ok overc
    → let o = handle env {S = S} backed r op s h in
      (o.0 ≡ ok (json_msg (all_output (rounds_of child) <> report c (is_zero child.code))))
      × (spawns o.2 ≡ command_line c ∷ spawns (create env {S = S} backed s h).2)
unfolding handle answer
handle-IsRelayed env backed r op c child overc s h asked direct there starts made =
    let start = create env backed s h in
    let (e, d, q) = container_operation-IsLeft env child c direct there starts overc start.2 in
    rw (bind_ok (create env backed) _ s h made refl, call_of-requested env r op c asked)
      (rw (on_new_ok overc (container_operation env c) _ start.1 start.2 e d)
        (unfold pure in (refl, q)))
