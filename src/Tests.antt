-- ===== src/Tests.antt =====
-- A machine on which the theorems and the code are tried.
pub mod Upgrades
pub mod Systems
pub mod Sound
pub mod Disks
pub mod Commands
pub mod Parts
pub mod Machines
pub mod Requests
pub mod Outcomes
use meta_overc.Base.{String, ℤ, pos, false, Option, none, some, List, [], ◌∷◌, if◌then◌else◌}
use meta_overc.System.{
  Command, BtrfsArgs, show, list_all, list_below, btrfs_tool, mount_table, chroot_upgrade,
  test_exists, realpath, md5sum, make_temp_dir, cat_issue, cube_cat_issue, cube_list, btrfs_root,
  reboot, Env, Reply, Round, Execution,
}
use meta_overc.Btrfs.Object.{Btrfs}
use meta_overc.Overc.Object.{Overc}

abbrev pub answer_with : ℤ → String → Reply
answer_with status output = record { status = status; output = output }

-- The answers: the exit status of the package manager, and the one of the tests for files
abbrev pub answer : ℤ → ℤ → Command → Reply
answer upgrade exists (btrfs_tool host (show path)) =
    answer_with (pos 0) "rootfs\n\tName: \t\trootfs\n\tSubvolume ID: \t258\n"
answer upgrade exists (btrfs_tool host (list_all path)) =
    answer_with (pos 0)
      "ID 257 top level 5 path rootfs\nID 258 top level 5 path rootfs_upgrade\nID 259 top level 5 path .factory\n"
answer upgrade exists (mount_table host) = answer_with (pos 0) "/dev/sda2 on / type btrfs (rw)\n"
answer upgrade exists (chroot_upgrade host root) = answer_with upgrade ""
answer upgrade exists (test_exists path) = answer_with exists ""
answer upgrade exists (realpath host path) =
    answer_with (pos 0) "/sysroot/rootfs_upgrade/boot/bzImage\n"
answer upgrade exists (md5sum host path) = answer_with (pos 0) "1f3a /boot/bzImage\n"
answer upgrade exists (make_temp_dir path) = answer_with (pos 0) "/sysroot/rootfs_upgrade/tmp/x\n"
answer upgrade exists cat_issue = answer_with (pos 0) "Pulsar 8 \\n \\l\n"
answer upgrade exists (cube_cat_issue name) = answer_with (pos 0) "overc 1.2 \\n \\l\n"
answer upgrade exists cube_list = answer_with (pos 0) "dom0 web\n"
answer upgrade exists command = answer_with (pos 0) ""

-- A child that writes a line to each of its pipes and ends with a code
abbrev pub child : ℤ → Execution
child code = record {
  rounds = record { from_stdout = some "working\n"; from_stderr = none } ∷ [];
  last_round = record { from_stdout = none; from_stderr = some "done\n" };
  code = code;
}

-- The third number is the code with which every script ends.
abbrev pub machine : ℤ → ℤ → ℤ → Env
machine upgrade exists code = record {
  reply = λ h c. answer upgrade exists c;
  execute = λ h line by_line. some (child code);
}

abbrev pub agency : Btrfs
agency = record {
  message = "";
  rootdev = "/dev/sda2";
  rootfs = "rootfs";
  next_rootfs = "rootfs_upgrade";
  bakup_mode = false;
  kernel = "/boot/bzImage";
  kernel_md5 = some "77aa";
}

abbrev pub agent : Overc
agent = record {
  agency = agency;
  container = record { message = none };
  message = "";
  retval = none;
  bakup_mode = false;
}
