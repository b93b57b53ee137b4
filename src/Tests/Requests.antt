-- ===== src/Tests/Requests.antt =====
-- The theorems on requests, on the output of `btrfs` and on a factory reset, tried.
use meta_overc.Base.{
  String, List, pos, true, false, ◌≢◌, eq_iff, none, some, [], ◌∷◌, ◌≡◌, refl, inl, inr, ◌==◌,
  if◌then◌else◌,
}
use meta_overc.Text.{is_char, lines, strip, split, split_on}
use meta_overc.System.{Env, Command, Reply, test_exists, show, btrfs_tool, ran}
use meta_overc.Exec.{ok, ◌>>=◌, within, on_new}
use meta_overc.Exec.Starts.{spawns}
use meta_overc.Overc.Object.{Overc, create}
use meta_overc.Overc.Containers.{stop_cmd}
use meta_overc.Server.{Request, json_msg, container_stop, handle}
use meta_overc.Exec.Ensures.{IsEnded}
use meta_overc.Server.Positional.{
  handle_container_rollback, handle_system_upgrade, handle_system_rollback, handlers-IsEnded,
}
use meta_overc.Server.Requests.{handle-IsRelayed}
use meta_overc.Btrfs.Object.{get_btrfs_value}
use meta_overc.Btrfs.Object.Fields.{
  Field, Line, heading, field, IsField, IsHeading, get_btrfs_value-lookup,
}
use meta_overc.Btrfs.Progress.{IsSound}
use meta_overc.Btrfs.Progress.FactoryReset.{CanReset, factory_reset-true}
use meta_overc.Btrfs.FactoryReset.{factory_reset}
use meta_overc.Tests.{machine, answer, answer_with, agent, agency, child}

abbrev stop_request : Request
stop_request = record {
  url_root = "http://localhost:5555/";
  args =
      λ key. if key == "name" then some "web" else if key == "template" then some "dom0" else none;
}

abbrev served : Env
served = machine (pos 0) (pos 0) (pos 3)

abbrev made_agent : Overc
made_agent = record agent { agency = record agency { kernel_md5 = some "1f3a" } }

object_made : (create served true tt []).0 ≡ ok made_agent
unfolding create ◌>>=◌ within on_new
object_made = refl

handle-IsRelayed_example :
    let o = handle served true stop_request container_stop tt [] in
    (o.0 ≡ ok (json_msg "working\ndone\n\nStop failed"))
    × (spawns o.2 ≡ "/etc/overc/container//dom0 -K -n web" ∷ spawns (create served true tt []).2)
handle-IsRelayed_example =
    handle-IsRelayed served true stop_request container_stop (stop_cmd "web" "dom0") (child (pos 3))
      made_agent tt [] refl tt (λ h. refl) (λ h by_line. refl) object_made

handlers-IsEnded_example :
    IsEnded (handle_container_rollback served true stop_request tt [])
    × IsEnded (handle_system_upgrade served true stop_request tt [])
    × IsEnded (handle_system_rollback served true tt [])
handlers-IsEnded_example = handlers-IsEnded served true stop_request "web" tt [] refl refl

-- What `btrfs subvolume show` prints of a root file system that has a snapshot
abbrev root_shown : String
root_shown =
    "rootfs\n\tName: \t\t\trootfs\n\tCreation time: \t\t2020-01-02 12:34:56 +0000\n\tSubvolume ID: \t\t258\n\tSnapshot(s):\n\t\t\t\trootfs_bakup\n"

abbrev showing : Env
showing = record { reply = λ h c. answer_with (pos 0) root_shown; execute = λ h line by_line. none }

differs : {k : String} → (k == "Subvolume ID") ≡ false → k ≢ "Subvolume ID"
differs {k} ne e = let same = (eq_iff k "Subvolume ID").1 e in absurd (cc)

abbrev name_field : Field
name_field = record { indent = "\t"; key = "Name"; gap = " \t\t\t"; value = "rootfs" }

name_field-IsField : IsField "Subvolume ID" name_field
unfolding strip is_char
name_field-IsField = record {
  blank_indent = (refl, tt);
  key_trimmed = refl;
  has_key = λ e. cc;
  key_no_colon = refl;
  one_line = refl;
  plain_value = λ e. absurd (differs refl e);
}

abbrev time_field : Field
time_field = record {
  indent = "\t";
  key = "Creation time";
  gap = " \t\t";
  value = "2020-01-02 12:34:56 +0000";
}

time_field-IsField : IsField "Subvolume ID" time_field
unfolding strip is_char
time_field-IsField = record {
  blank_indent = (refl, tt);
  key_trimmed = refl;
  has_key = λ e. cc;
  key_no_colon = refl;
  one_line = refl;
  plain_value = λ e. absurd (differs refl e);
}

abbrev number_field : Field
number_field = record { indent = "\t"; key = "Subvolume ID"; gap = " \t\t"; value = "258" }

number_field-IsField : IsField "Subvolume ID" number_field
unfolding strip is_char
number_field-IsField = record {
  blank_indent = (refl, tt);
  key_trimmed = refl;
  has_key = λ e. cc;
  key_no_colon = refl;
  one_line = refl;
  plain_value = λ e. record {
    blank_gap = (refl, (refl, (refl, tt)));
    value_trimmed = refl;
    value_no_colon = refl;
  };
}

abbrev snapshots_field : Field
snapshots_field = record { indent = "\t"; key = "Snapshot(s)"; gap = ""; value = "" }

snapshots_field-IsField : IsField "Subvolume ID" snapshots_field
unfolding strip is_char
snapshots_field-IsField = record {
  blank_indent = (refl, tt);
  key_trimmed = refl;
  has_key = λ e. cc;
  key_no_colon = refl;
  one_line = refl;
  plain_value = λ e. absurd (differs refl e);
}

path-IsHeading : IsHeading "Subvolume ID" "" "rootfs"
unfolding strip is_char
path-IsHeading = record {
  blank_indent = tt;
  trimmed = refl;
  has_text = λ e. cc;
  no_colon = refl;
  no_key = refl;
  one_line = refl;
}

snapshot-IsHeading : IsHeading "Subvolume ID" "\t\t\t\t" "rootfs_bakup"
unfolding strip is_char
snapshot-IsHeading = record {
  blank_indent = (refl, (refl, (refl, (refl, tt))));
  trimmed = refl;
  has_text = λ e. cc;
  no_colon = refl;
  no_key = refl;
  one_line = refl;
}

abbrev root_lines : List Line
root_lines =
    heading "" "rootfs"
    ∷ field name_field
    ∷ field time_field
    ∷ field number_field
    ∷ field snapshots_field
    ∷ heading "\t\t\t\t" "rootfs_bakup"
    ∷ []

get_btrfs_value-lookup_example :
    get_btrfs_value showing "/" "Subvolume ID" true tt []
    ≡ (ok (some "258"), tt, ran (btrfs_tool true (show "/")) ∷ [])
get_btrfs_value-lookup_example =
    get_btrfs_value-lookup showing "/" "Subvolume ID" root_lines tt []
      (
        path-IsHeading,
        (
          name_field-IsField,
          (
            time_field-IsField,
            (number_field-IsField, (snapshots_field-IsField, (snapshot-IsHeading, tt))),
          ),
        ),
      )
      refl

-- Only the other root file system is not there.
abbrev reset_answer : Command → Reply
reset_answer (test_exists path) =
    answer_with (if path == "/sysroot/rootfs_upgrade" then pos 1 else pos 0) ""
reset_answer c = answer (pos 0) (pos 0) c

abbrev resettable : Env
resettable = record { reply = λ h c. reset_answer c; execute = λ h line by_line. none }

resettable-IsSound : IsSound resettable
unfolding lines strip split split_on
resettable-IsSound = record {
  makes_dirs = λ path h. refl;
  makes_temp_dir = λ path h. refl;
  makes_script = λ path h. refl;
  writes_script = λ path text h. refl;
  sums = λ path h e. (refl, ("1f3a", refl));
  mounts =
      λ h. (inr ("/dev/sda2", "on", "/", "type" ∷ "btrfs" ∷ "(rw)" ∷ [], refl), (inl refl, tt));
  shows = λ path h. (
    inr (inr ("rootfs", refl, refl)),
    (
      inr (inl ("Name", " \t\trootfs", [], refl)),
      (inr (inl ("Subvolume ID", " \t258", [], refl)), (inl refl, tt)),
    ),
  );
}

resettable-CanReset : CanReset resettable agency
resettable-CanReset = record {
  sound = resettable-IsSound;
  removes_dir = λ path h. refl;
  finds_kernel = λ h. refl;
  snapshots_host = λ h. refl;
  snapshots_containers = λ source target h. refl;
  sets_host = λ id h. refl;
  sets_containers = λ id h. refl;
  has_factory = λ h. refl;
}

factory_reset-true_example : (factory_reset resettable agency []).0 ≡ ok true
factory_reset-true_example = factory_reset-true resettable agency [] resettable-CanReset (λ k. refl)
