-- ===== src/System.antt =====
-- The outside of the agent: the commands that it gives to the shell and to Python's `os`, the
-- history of a run, and the environment that answers.
use meta_overc.Base.{String, ℤ, pos, Bool, List, Option, int_eq}

-- The arguments of `/usr/bin/btrfs`.
pub data BtrfsArgs : Type 0 where
  -- subvolume snapshot SOURCE TARGET
  snapshot : String → String → BtrfsArgs
  -- subvolume delete -C DIRECTORY/PATH
  delete : String → String → BtrfsArgs
  -- subvolume set-default ID PATH
  set_default : String → String → BtrfsArgs
  -- subvolume show PATH
  show : String → BtrfsArgs
  -- subvolume list PATH
  list_all : String → BtrfsArgs
  -- subvolume list -o PATH
  list_below : String → BtrfsArgs

-- What the agent asks of the system. A Boolean says whether the command has the prefix `cube-cmd`,
-- by which it runs on the host and not in the agent's own container.
pub data Command : Type 0 where
  btrfs_tool : Bool → BtrfsArgs → Command
  mount_table : Bool → Command
  -- The options and what is mounted, then the directory.
  mount_at : Bool → String → String → Command
  umount : Bool → String → Command
  chroot_upgrade : Bool → String → Command
  remove_tree : Bool → String → Command
  realpath : Bool → String → Command
  copy_file copy_tree : Bool → String → String → Command
  md5sum : Bool → String → Command
  test_exists make_dirs remove_dir make_temp_dir : String → Command
  -- Calls of `os.path`, `os`, `tempfile` and of files, in the agent's own container.
  os_path_exists os_path_isfile os_path_isdir os_makedirs os_rmdir : String → Command
  tempfile_mkdtemp tempfile_mkstemp : String → Command
  write_file : String → String → Command
  open_append open_write : String → Command
  run_bash remove_file : String → Command
  reboot btrfs_root dnf_check_update dnf_updateinfo cube_list cat_issue : Command
  cube_cat_issue : String → Command
  -- A command line that `Process` runs.
  spawn : String → Command
  -- A draw of `random.choice`.
  draw : Command

pub data Event : Type 0 where
  ran : Command → Event
  -- a text on the standard output or the standard error
  printed : String → Event

-- The events of a run so far, the newest first.
abbrev pub History : Type 0
History = List Event

-- An exit status, 0 for a call that succeeds and for a test that holds, and the standard output.
pub record Reply : Type 0 where
  pub status : ℤ
  pub output : String

-- One round of `select` on the pipes of a child: the texts read where a pipe is ready.
pub record Round : Type 0 where
  pub from_stdout : Option String
  pub from_stderr : Option String

-- A child that ends: the rounds after which it still runs, the round after which it has ended, and
-- its return code.
pub record Execution : Type 0 where
  pub rounds : List Round
  pub last_round : Round
  pub code : ℤ

-- What answers may depend on is all that has happened. A child may also depend on whether its pipes
-- are read by the line; `none` is a command that cannot be started.
pub record Env : Type 0 where
  pub reply : History → Command → Reply
  pub execute : History → String → Bool → Option Execution

abbrev pub succeeded : Reply → Bool
succeeded r = int_eq r.status (pos 0)

-- The commands that neither delete, snapshot, activate, copy over nor restart anything, nor write a
-- text into a file.
abbrev pub IsRoutine : Command → Type 0
IsRoutine (btrfs_tool host (show path)) = Unit
IsRoutine (btrfs_tool host (list_all path)) = Unit
IsRoutine (btrfs_tool host (list_below path)) = Unit
IsRoutine (mount_table host) = Unit
IsRoutine (mount_at host what dir) = Unit
IsRoutine (umount host dir) = Unit
IsRoutine (realpath host path) = Unit
IsRoutine (md5sum host path) = Unit
IsRoutine (test_exists path) = Unit
IsRoutine (make_dirs path) = Unit
IsRoutine (remove_dir path) = Unit
IsRoutine (make_temp_dir path) = Unit
IsRoutine (os_path_exists path) = Unit
IsRoutine (os_path_isfile path) = Unit
IsRoutine (os_path_isdir path) = Unit
IsRoutine (os_makedirs path) = Unit
IsRoutine (os_rmdir path) = Unit
IsRoutine (tempfile_mkdtemp path) = Unit
IsRoutine (tempfile_mkstemp path) = Unit
IsRoutine (remove_file path) = Unit
IsRoutine (remove_tree host path) = Unit
IsRoutine draw = Unit
IsRoutine _ = ⊥

-- The commands that neither delete a subvolume nor set a default one nor restart the machine
abbrev pub IsOrdinary : Command → Type 0
IsOrdinary (btrfs_tool host (delete dir path)) = ⊥
IsOrdinary (btrfs_tool host (set_default id path)) = ⊥
IsOrdinary reboot = ⊥
IsOrdinary _ = Unit

pub routine-IsOrdinary : (c : Command) → IsRoutine c → IsOrdinary c
routine-IsOrdinary (btrfs_tool host (delete dir path)) r = absurd r
routine-IsOrdinary (btrfs_tool host (set_default id path)) r = absurd r
routine-IsOrdinary reboot r = absurd r
routine-IsOrdinary _ r = tt
