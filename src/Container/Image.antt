-- ===== src/Container/Image.antt =====
-- An upgrade of a container by an image: an update of the template, and then an activation by force.
use mathlib.Core.List.{append_assoc}
use meta_overc.Base.{
  String, ◌<>◌, ℤ, Bool, true, false, List, [], ◌∷◌, ◌++◌, ◌≡◌, refl, ap, ◌∙◌, sym, subst,
  if◌then◌else◌,
}
use meta_overc.System.{Env, History, Execution}
use meta_overc.Exec.{Exec, Outcome, ok, ◌>>=◌, ◌>>◌, pure, bind_ok}
use meta_overc.Exec.Starts.{started_lines, Starts, spawns}
use meta_overc.Process.Output.{all_output, rounds_of}
use meta_overc.Container.{
  Container, is_zero, script_path, read_message, set_message, add_message, update, activate,
  upgrade_image, upgrade,
}
use meta_overc.Container.Scripts.{HasScript, run_and_report-Starts}
use meta_overc.Container.Relays.{CanStart, Relays, run_and_report-Relays, with_message}

-- A method returns a code, leaves a message and starts some scripts, the last one first.
abbrev pub DoesAt : List String → ℤ → String → History → Outcome Container ℤ → Type 0
DoesAt lines code text h out =
    (out.0 ≡ ok code) × (out.1 ≡ with_message text) × (spawns out.2 ≡ lines ++ spawns h)

pub record Does (m : Exec Container ℤ) (lines : List String) (code : ℤ) (text : String)
    : Type 0 where
  pub at : (c : Container) (h : History) → DoesAt lines code text h (m c h)

Does-one :
    (m : Exec Container ℤ) (line : String) (code : ℤ) (text : String)
    → Relays m code text
    → Starts (line ∷ []) m
    → Does m (line ∷ []) code text
Does-one m line code text k l = record {
  at =
      λ c h. let (e, d) = k.at c h in (e, d, started_lines (line ∷ []) h (m c h) code e (l.at c h));
}

Does-bind :
    (m : Exec Container ℤ) (f : ℤ → Exec Container ℤ) (lines lines' : List String) (code code' : ℤ)
    (text text' : String)
    → Does m lines code text
    → ((h : History) → DoesAt lines' code' text' h (f code (with_message text) h))
    → Does (m >>= f) (lines' ++ lines) code' text'
Does-bind m f lines lines' code code' text text' k l = record {
  at = λ c h.
      let (e, d, q) = k.at c h in
      let (e', d', q') = l (m c h).2 in
      rw (bind_ok m f c h e d)
        (e', d', q' ∙ (ap (λ xs. lines' ++ xs) q ∙ sym (append_assoc lines' lines (spawns h))));
}

-- The line about the upgrade
reported_at :
    (good : Bool) (code : ℤ) (text : String) (h : History)
    → DoesAt [] code (text <> (if good then "\nUpgrade ok" else "\nUpgrade failed")) h (
        ((if good then add_message "\nUpgrade ok" else add_message "\nUpgrade failed") >> pure code)
          (with_message text)
          h)
unfolding add_message read_message ◌>>=◌
reported_at true code text h = (refl, refl, refl)
reported_at false code text h = (refl, refl, refl)

module _ (env : Env) (name template : String) (there : HasScript env template)
    (updated activated : Execution) where
  abbrev pub update_line : String
  update_line = script_path template <> (" " <> "-U")

  abbrev pub activate_line : String
  activate_line = script_path template <> (" " <> (("-a -n " <> name) <> " -f"))

  abbrev pub update_text : Bool → String
  update_text good =
      all_output (rounds_of updated) <> (if good then "\nUpdate ok" else "\nUpdate failed")

  abbrev pub activate_text : String
  activate_text =
      all_output (rounds_of activated)
      <> (if is_zero activated.code then "\nActivate ok" else "\nActivate failed")

  -- What an upgrade by an image starts, returns and leaves, by whether the update has ended with 0
  abbrev pub IsUpgraded : Bool → History → Outcome Container ℤ → Type 0
  IsUpgraded true h out =
      DoesAt (activate_line ∷ update_line ∷ []) activated.code
        ((update_text true <> ("\n" <> activate_text))
          <> (if is_zero activated.code then "\nUpgrade ok" else "\nUpgrade failed"))
        h out
  IsUpgraded false h out =
      DoesAt (update_line ∷ []) updated.code (update_text false <> "\nUpgrade failed") h out

  module _ (updates : CanStart env update_line updated)
      (activates : CanStart env activate_line activated) where
    update-Does :
        (good : Bool)
        → is_zero updated.code ≡ good
        → Does (update env template) (update_line ∷ []) updated.code (update_text good)
    unfolding update
    update-Does good e =
        subst (λ g. Does (update env template) (update_line ∷ []) updated.code (update_text g)) e
          (Does-one _ _ _ _ (run_and_report-Relays env template there updated "-U" updates _ _)
            (run_and_report-Starts env template there "-U" _ _))

    activate-Does :
        Does (activate env name template true) (activate_line ∷ []) activated.code activate_text
    unfolding activate
    activate-Does =
        let args = ("-a -n " <> name) <> " -f" in
        Does-one _ _ _ _ (run_and_report-Relays env template there activated args activates _ _)
          (run_and_report-Starts env template there args _ _)

    after_update : Exec Container ℤ
    unfolding activate read_message
    after_update = do
      msg1 ← read_message
      retval' ← activate env name template true
      msg2 ← read_message
      set_message (msg1 <> ("\n" <> msg2))
      pure retval'

    second :
        (text : String) (h : History)
        → DoesAt
            (activate_line ∷ [])
            activated.code
            (text <> ("\n" <> activate_text))
            h
            (after_update (with_message text) h)
    unfolding after_update read_message ◌>>=◌
    second text h =
        (Does-bind (activate env name template true) _ _ [] _ _ _ (text <> ("\n" <> activate_text))
            activate-Does (λ k. (refl, refl, refl))).at
          (with_message text) h

    image-failed :
        is_zero updated.code ≡ false
        → Does (upgrade_image env name template) (update_line ∷ []) updated.code (update_text false)
    unfolding upgrade_image
    image-failed e =
        Does-bind _ _ _ [] _ _ _ _ (update-Does false e)
          (λ h. rw e (unfold pure in (refl, refl, refl)))

    image-ok :
        is_zero updated.code ≡ true
        → Does
            (upgrade_image env name template)
            (activate_line ∷ update_line ∷ [])
            activated.code
            (update_text true <> ("\n" <> activate_text))
    unfolding upgrade_image ◌>>=◌ after_update
    image-ok e =
        Does-bind _ _ _ (activate_line ∷ []) _ _ _ _ (update-Does true e)
          (λ h. rw e (second (update_text true) h))

    upgraded :
        (good skip_del : Bool) (c : Container) (h : History)
        → is_zero updated.code ≡ good
        → IsUpgraded good h (upgrade env name template false true skip_del c h)
    unfolding upgrade
    upgraded true skip_del c h e =
        (Does-bind (upgrade_image env name template) _ _ [] _ _ _ _ (image-ok e)
            (reported_at (is_zero activated.code) activated.code _)).at
          c h
    upgraded false skip_del c h e =
        (Does-bind (upgrade_image env name template) _ _ [] _ _ _ _ (image-failed e)
            (λ k. rw e (reported_at false updated.code _ k))).at
          c h

    -- An upgrade of a container by an image, where the script of the template exists and can be
    -- started, starts the script for the update and then, only if that has ended with 0, the script
    -- that activates the container by force, and no other. It returns the code of the last script, and
    -- its message is what has been read from the scripts in the rounds of `Process.run`, with the lines
    -- that say how each has ended.
    pub upgrade-IsUpgraded :
        (skip_del : Bool) (c : Container) (h : History)
        → IsUpgraded (is_zero updated.code) h (upgrade env name template false true skip_del c h)
    upgrade-IsUpgraded skip_del c h = upgraded (is_zero updated.code) skip_del c h refl
