-- ===== src/Tests/Parts.antt =====
-- The theorems on the parts of the agent, tried on the machine.
use Prim.Native.String.{count}
use meta_overc.Base.{
  ◌∷◌, String, ℤ, pos, true, false, some, none, ◌==◌, if◌then◌else◌, [], ◌≡◌, refl, Option,
}
use meta_overc.System.{Env}
use meta_overc.Exec.{ok}
use meta_overc.Exec.Commits.{CommitsAt}
use meta_overc.Exec.Yields.{Yields}
use meta_overc.Utils.{chars, random_str}
use meta_overc.Utils.Random.{IsMadeOf, random_str-IsMadeOf}
use meta_overc.Btrfs.Object.Keeps.{SameSystem}
use meta_overc.Btrfs.Upgrade.{do_upgrade}
use meta_overc.Btrfs.Rollback.{do_rollback}
use meta_overc.Btrfs.Atomic.{LeavesDefault, Sets, do_upgrade-CommitsAt, do_rollback-CommitsAt}
use meta_overc.Container.{Container, upgrade}
use meta_overc.Container.Image.{IsUpgraded, upgrade-IsUpgraded}
use meta_overc.Container.Overlay.{minus_one, overlay_create, overlay_stop}
use meta_overc.Container.Overlay.Fails.{overlays_fail}
use meta_overc.Server.Start.{options, default_settings, start}
use meta_overc.Server.Options.{expected, port, debugging, start-expected}
use meta_overc.Tests.{machine, agency, child}

-- Every script ends with the code 3, and every other command with 0.
abbrev three : Env
three = machine (pos 0) (pos 1) (pos 3)

abbrev refused : Env
refused = machine (pos 1) (pos 1) (pos 0)

do_upgrade-CommitsAt_example :
    CommitsAt
      (SameSystem agency)
      LeavesDefault
      (Sets refused agency.next_rootfs)
      []
      (do_upgrade refused agency [])
do_upgrade-CommitsAt_example = do_upgrade-CommitsAt refused agency []

do_rollback-CommitsAt_example :
    CommitsAt
      (SameSystem agency)
      LeavesDefault
      (Sets refused agency.next_rootfs)
      []
      (do_rollback refused agency [])
do_rollback-CommitsAt_example = do_rollback-CommitsAt refused agency []

random_str-IsMadeOf_example :
    (text : String) × ((random_str three 6 tt []).0 ≡ ok text)
    × (count text ≡ 6)
    × IsMadeOf chars text
random_str-IsMadeOf_example = random_str-IsMadeOf three 6 tt []

overlays_fail_example :
    Yields (λ r. r ≡ some minus_one) (overlay_create three "web" (some "/usr") (some "dom0"))
    × Yields (λ r. r ≡ some minus_one) (overlay_stop three "web" (some "/usr"))
overlays_fail_example = overlays_fail three "web" (some "/usr") (some "dom0")

abbrev silent : Container
silent = record { message = none }

abbrev good : Env
good = machine (pos 0) (pos 0) (pos 0)

upgrade-IsUpgraded_example :
    IsUpgraded good "web" "dom0"
      (λ h. refl)
      (child (pos 0))
      (child (pos 0))
      true
      []
      (upgrade good "web" "dom0" false true false silent [])
upgrade-IsUpgraded_example =
    upgrade-IsUpgraded good "web" "dom0" (λ h. refl) (child (pos 0)) (child (pos 0))
      (λ h by_line. refl) (λ h by_line. refl) false silent []

abbrev numbers : String → Option ℤ
numbers arg = if arg == "80" then some (pos 80) else none

start-expected_example :
    (start numbers "run_server.py" (options (("-d", "") ∷ ("-p", "80") ∷ [])) default_settings []).0
    ≡ expected (debugging ∷ port (some (pos 80)) ∷ []) default_settings
start-expected_example = start-expected numbers "run_server.py" (("-d", "") ∷ ("-p", "80") ∷ []) []
