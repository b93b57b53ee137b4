-- ===== src/Tests/Commands.antt =====
-- The theorems on the command line, tried on the machine.
use meta_overc.Base.{String, pos, true, false, some, none, ◌==◌, if◌then◌else◌, [], List, ◌≡◌, refl}
use meta_overc.Exec.{ok, ◌>>=◌, within, on_new}
use meta_overc.Tests.{machine, agent, child}
use meta_overc.Main.Args.{Namespace, text, absent, switch, container_rollback}
use meta_overc.Main.Program.{Parsed, parsed, load, main}
use meta_overc.System.{Env}
use meta_overc.Tests.{machine, agent, agency, child}
use meta_overc.Overc.Object.{Overc}
use meta_overc.Overc.Host
use meta_overc.Overc.Containers.{container_command, rollback_cmd}
use meta_overc.Overc.Containers.Relays.{IsRelayed}
use meta_overc.Overc.Containers.Commands.{container_command-IsRelayed}
use meta_overc.Main.{truth}
use meta_overc.Main.Args.{
  Namespace, text, absent, switch, Method, container_rollback, host_rollback, call_of,
  call_container, call_host_rollback, read_text,
}
use meta_overc.Main.Program.{Parsed, parsed, load, main, perform}
use meta_overc.Main.Exit.{started_at, main-code, main-zero}

abbrev arguments : Namespace
arguments = λ key.
    if key == "name"
    then some (text "web")
    else if key == "template"
    then some (text "dom0")
    else if key == "snapshot_name"
    then some absent
    else if key == "reboot"
    then some (switch true)
    else none

abbrev no_arguments : List String
no_arguments = []

abbrev parse : Method → List String → Parsed
parse method argv = parsed (some method) arguments

abbrev rolled : Env
rolled = machine (pos 0) (pos 0) (pos 3)

abbrev loaded_agent : Overc
loaded_agent = record agent { agency = record agency { kernel_md5 = some "1f3a" } }

loaded : (load rolled tt []).0 ≡ ok loaded_agent
unfolding load ◌>>=◌ within on_new
loaded = refl

container_command-IsRelayed_example :
    IsRelayed "/etc/overc/container//dom0 -R -n web -f"
      (pos 3)
      "working\ndone\n\nRollback failed"
      agent
      []
      (container_command rolled (rollback_cmd "web" none "dom0") agent [])
container_command-IsRelayed_example =
    container_command-IsRelayed rolled (child (pos 3)) (rollback_cmd "web" none "dom0") tt
      (λ h. refl) (λ h by_line. refl) agent []

rollback_read :
    call_of arguments container_rollback ≡ ok (call_container (rollback_cmd "web" none "dom0"))
unfolding call_of read_text
rollback_read = refl

main-code_example : main rolled (parse container_rollback) no_arguments [] ≡ pos 3
main-code_example =
    main-code rolled (parse container_rollback) no_arguments [] container_rollback arguments
      loaded_agent loaded refl (rollback_cmd "web" none "dom0") (child (pos 3)) rollback_read tt
      (λ h. refl) (λ h by_line. refl)

-- No file exists, so that the rollback of the host is refused.
abbrev bare : Env
bare = machine (pos 0) (pos 1) (pos 3)

abbrev bare_agent : Overc
bare_agent = record agent { agency = record agency { kernel = ""; kernel_md5 = none } }

bare_loaded : (load bare tt []).0 ≡ ok bare_agent
unfolding load ◌>>=◌ within on_new
bare_loaded = refl

host_rollback_fails :
    (perform bare call_host_rollback bare_agent (started_at bare [])).0 ≡ ok (truth false)
unfolding perform load ◌>>=◌ within on_new Host.host_rollback
host_rollback_fails = refl

host_rollback_read : call_of arguments host_rollback ≡ ok call_host_rollback
unfolding call_of
host_rollback_read = refl

main-zero_example : main bare (parse host_rollback) no_arguments [] ≡ pos 0
main-zero_example =
    main-zero bare (parse host_rollback) no_arguments [] host_rollback arguments bare_agent
      bare_loaded refl call_host_rollback (truth false) host_rollback_read tt host_rollback_fails
