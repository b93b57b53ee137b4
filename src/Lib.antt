-- ===== src/Lib.antt =====
-- The OverC system agent, the Python program that upgrades, rolls back and resets an OverC machine
-- and manages its containers. It lies in meta-cube/recipes-support/overc-system-agent/files/
-- overc-system-agent-1.2; paths below start there.
--
-- The parts and how they interact:
--   overc and run_server.py, the command line and the REST interface, make an object of class Overc
--   (Overc/overc.py) and call one of its methods. Overc drives the back end for the host's file
--   system, class Btrfs (Overc/backends/btrfs.py), and class Container (Overc/container.py), whose
--   operations run the script of a template as a child by class Process (Overc/utils.py). Messages
--   go to the log (Overc/logger.py). The machine has two root file systems, rootfs and
--   rootfs_upgrade, of which one runs; an upgrade or a rollback makes the other one the default.
--
-- The files:
--   Base, Text: shared names, numbers and tests; the methods of Python's str, whose texts are lists
--     of code points.
--   System: the commands that the agent gives to the shell and to Python's os, the history of a run,
--     and the environment that answers. The environment is an argument everywhere: it stands for the
--     shell, btrfs, mount, dnf, cube-cmd, cube-ctl and the scripts, and may answer anything, also
--     depending on the whole history. Nothing is assumed of it but where a theorem says so.
--   Exec: the evaluation of a method: it reads and writes its object, adds to the history, and
--     returns a value or raises. Its child modules hold the rules for runs: Keeps for what a run
--     keeps, Commits for what it keeps unless it returns true, Ensures and After for what holds at its end,
--     Returns for runs that return, Yields for their values, Starts for the children, Cuts for runs
--     that are cut off.
--   Utils, Logger, Process: Overc/utils.py and Overc/logger.py. A call of subprocess is check_output
--     or popen_lines, os.system is system. Utils/Random is about the random names, Process/Output
--     about what a child writes, Process/Loop about the end of the loop.
--   Package: Overc/package.py, and _nsenter of Overc/utils.py, which is like it.
--   Btrfs: Overc/backends/btrfs.py. Object has the fields and the small methods, Init __init__,
--     Cleanup the removal of subvolumes, Upgrade, Rollback and FactoryReset the three operations.
--     The rest is proofs: Parts is about the steps that delete nothing and set no default, Safety
--     about deletions, Refusal and Atomic about runs without success, Activation, Resetting with
--     its child modules about runs with it, Disk and Disk/Boot about the file system and the next boot,
--     Progress about the success of an operation, Ready about the object, Cleanup/Exact about the
--     clean-up, Object/Fields about the output of btrfs subvolume show. Machine is the life of a
--     machine: a step is an operation, which may be cut off, or a boot.
--   Container: Overc/container.py, with Overlay for _overlay and its callers. Speaking, Message,
--     Keeps, Scripts, Relays and Image hold the proofs: which scripts a method starts, what it
--     returns and which message it leaves.
--   Overc: Overc/overc.py. Object has the fields and the calls of the two parts, Containers the
--     methods on containers (the name of a method _x is x_of here, where a public x exists as well),
--     Host those on the host, System the upgrade and the rollback of the whole. Their child modules
--     hold proofs.
--   Server: run_server.py, with the query as a function; Server/Start has the options and the start,
--     Server/Requests what a request stands for, Server/Positional
--     three routes whose calls do not fit.
--   Main: the program overc. Main/Table has its subcommands, Main/Args what the methods read of their
--     arguments, Main/Program the program and factory_clean.py, Main.antt the exit status. What
--     parse_args returns for the arguments is a parameter, as are getopt and int of the server.
--   Tests: a machine on which the theorems and the code are tried.
--
-- Loops and fuel: the loops over the output of a command are recursions on its lines. The loop of
-- Process.run is a recursion on the rounds of a child: an Execution is a child that ends, with the
-- rounds of select before its end and the one in which poll first reports it. Process/Loop has that
-- loop as it is written, on fuel, the only definition that takes any: each round needs one, and a
-- child that ends gets enough. A child that never ends keeps the program from ending; nothing is
-- said about it.
-- Numbers: exit statuses are integers without a bound, as in Python. The tests "is 0" and "is not 0"
-- are equality, as they are on the small integers of CPython. The status of the program is the
-- number that it gives to sys.exit, before the system reduces it modulo 256.
--
-- Not modelled: what argparse makes of the command line and prints, Flask with its routes
-- (run_server.py), the interrupt from the keyboard, and the packaging (setup.py). The statements
-- behind the return of get_overlay and behind the exception in _overlay are never reached and are
-- left out. The recipes, patches and shell scripts of the rest of the repository are no part of the
-- agent.
pub mod Base
pub mod Text
pub mod System
pub mod Exec
pub mod Utils
pub mod Btrfs
pub mod Logger
pub mod Process
pub mod Package
pub mod Container
pub mod Overc
pub mod Server
pub mod Main
pub mod Tests
