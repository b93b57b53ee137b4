-- ===== src/Server/Positional.antt =====
-- run_server.py: the handlers of three routes, whose calls do not fit the methods of `Overc`: Python binds
-- the positional arguments of a call when it is made.
use meta_overc.Base.{
  String, ◌<>◌, Bool, false, ◌&&◌, Option, none, some, List, [], ◌∷◌, ◌≡◌, refl, if◌then◌else◌,
}
use meta_overc.System.{Env, History}
use meta_overc.Exec.{
  Exec, type_error, attribute_error, ◌>>=◌, ◌>>◌, pure, raise, when, print, on_new,
}
use meta_overc.Exec.Ensures.{IsEnded, IsEnded-continue}
use meta_overc.Overc.Object.{Overc, create}
use meta_overc.Overc.Containers.{container_rollback_of}
use meta_overc.Overc.System.{system_upgrade, system_rollback}
use meta_overc.Server.{Request, json_msg, is_text, answer, is_given}

-- An argument of a call: a text, `None` or a Boolean
pub data Passed : Type 0 where
  a_text : String → Passed
  nothing : Passed
  a_bool : Bool → Passed

abbrev passed : Option String → Passed
passed none = nothing
passed (some s) = a_text s

abbrev rollback_usage : String
rollback_usage =
    "container/rollback?name=<container name>&snapshot=<snapshot name>"
    <> "&template=<template name> [snapshot optional]"

abbrev upgrade_usage : String
upgrade_usage = "system/upgrade?template=[dom0]&reboot=[True|False]&force=[True|False]"

module _ (env : Env) where
  -- `overc._container_rollback(...)`: the method has four parameters, and no default for any.
  unfoldable pub pass_to_container_rollback : List Passed → Exec Overc (Unit {0})
  unfolding container_rollback_of
  pass_to_container_rollback (a_text name ∷ a_text snapshot ∷ a_text template ∷ a_bool force ∷ []) =
      container_rollback_of env name (some snapshot) template force
  pass_to_container_rollback (a_text name ∷ nothing ∷ a_text template ∷ a_bool force ∷ []) =
      container_rollback_of env name none template force
  pass_to_container_rollback _ = raise type_error

  -- `overc._system_upgrade(...)`: the method has five parameters, and no default for any.
  unfoldable pub pass_to_system_upgrade : List Passed → Exec Overc (Unit {0})
  unfolding system_upgrade
  pass_to_system_upgrade
        (a_text template ∷ a_bool reboot ∷ a_bool force ∷ a_bool skipscan ∷ a_bool skip_del ∷ []) =
      system_upgrade env template reboot force skipscan skip_del
  pass_to_system_upgrade _ = raise type_error

  -- `overc.system_rollback()`: the method reads the template of `self.args`, where that is set.
  unfoldable pub pass_to_system_rollback : Option String → Exec Overc (Unit {0})
  unfolding system_rollback
  pass_to_system_rollback none = raise attribute_error
  pass_to_system_rollback (some template) = system_rollback env template

  module _ {S : Type 0} where
    -- `/container/rollback`: the call passes three arguments.
    unfoldable pub handle_container_rollback : Bool → Request → Exec S String
    unfolding create json_msg answer pass_to_container_rollback
    handle_container_rollback backed r = do
      overc ← create env backed
      if is_given (r.args "name") && is_given (r.args "template")
          then answer env overc "" (
              some (
                pass_to_container_rollback (
                  passed (r.args "name")
                  ∷ passed (r.args "snapshot")
                  ∷ passed (r.args "template")
                  ∷ [])))
          else pure (json_msg ("Usage: " <> (r.url_root <> rollback_usage)))

    -- `/system/upgrade`: the call passes three arguments, and `reboot` is always false.
    unfoldable pub handle_system_upgrade : Bool → Request → Exec S String
    unfolding create json_msg answer pass_to_system_upgrade
    handle_system_upgrade backed r = do
      overc ← create env backed
      if is_text (r.args "template") "dom0"
          then (do
            when (is_text (r.args "reboot") "True") (print "do reboot")
            when (is_text (r.args "force") "True") (print "force upgrade")
            answer env overc "" (
                some (
                  pass_to_system_upgrade (
                    passed (r.args "template")
                    ∷ a_bool false
                    ∷ a_bool (is_text (r.args "force") "True")
                    ∷ []))))
          else pure (
              json_msg (
                ("Usage: " <> (r.url_root <> upgrade_usage))
                <> "\n The only supported template is 'dom0'"))

    -- `/system/rollback`: the object that the handler has made has no `args`, which only the command
    -- line sets. The handler returns `None`.
    unfoldable pub handle_system_rollback : Bool → Exec S (Unit {0})
    unfolding create pass_to_system_rollback
    handle_system_rollback backed = do
      overc ← create env backed
      print "System will rollback and reboot!"
      on_new overc (pass_to_system_rollback none)
      pure tt

-- Three arguments bind no call, whatever the second one is.
three_arguments :
    (env : Env) (name template : String) (snapshot : Passed)
    → pass_to_container_rollback env (a_text name ∷ snapshot ∷ a_text template ∷ [])
      ≡ raise type_error
unfolding pass_to_container_rollback
three_arguments env name template (a_text s) = refl
three_arguments env name template nothing = refl
three_arguments env name template (a_bool b) = refl

pub handlers-IsEnded :
    {S : Type 0} (env : Env) (backed : Bool) (r : Request) (name : String) (s : S) (h : History)
    → r.args "name" ≡ some name
    → r.args "template" ≡ some "dom0"
    → IsEnded (handle_container_rollback env {S = S} backed r s h)
      × IsEnded (handle_system_upgrade env {S = S} backed r s h)
      × IsEnded (handle_system_rollback env {S = S} backed s h)
unfolding handle_container_rollback handle_system_upgrade handle_system_rollback ◌>>=◌ on_new answer
    pass_to_system_upgrade pass_to_system_rollback
handlers-IsEnded {S} env backed r name s h e d =
    let made = create env {S = S} backed s h in
    (
      IsEnded-continue made _
          (λ overc t k. rw (e, d, three_arguments env name "dom0" (passed (r.args "snapshot"))) tt),
      IsEnded-continue made _ (λ overc t k. rw d (
          IsEnded-continue (when (is_text (r.args "reboot") "True") (print "do reboot") t k) _
            (λ u t' k'.
              IsEnded-continue
                (when (is_text (r.args "force") "True") (print "force upgrade") t' k') _
                (λ v s'' h''. tt)))),
      IsEnded-continue made _ (λ overc t k. tt),
    )
