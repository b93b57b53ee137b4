-- ===== src/Btrfs/Safety.antt =====
-- Deletions that leave the running root file system and the factory snapshot alone.
pub mod Parts
pub mod Operations
use meta_overc.Base.{String, ◌≢◌}
use meta_overc.System.{Command, btrfs_tool, delete, IsRoutine, IsOrdinary}
use meta_overc.Exec.{Exec}
use meta_overc.Exec.Keeps.{Keeps}
use meta_overc.Utils.{factory_snapshot}
use meta_overc.Btrfs.Object.{Btrfs}
use meta_overc.Btrfs.Object.Keeps.{SameSystem}
use meta_overc.Btrfs.Cleanup.{subvolid_of}

-- A deletion spares a name if the subvolume that it deletes neither has that name nor lies below it.
abbrev pub Spares : String → Command → Type 0
Spares rootfs (btrfs_tool host (delete dir path)) =
    (subvolid_of path ≢ rootfs) × (subvolid_of path ≢ factory_snapshot)
Spares rootfs _ = Unit

pub Spares-ordinary : (rootfs : String) (c : Command) → IsOrdinary c → Spares rootfs c
Spares-ordinary rootfs (btrfs_tool host (delete dir path)) r = absurd r
Spares-ordinary rootfs _ r = tt

pub Spares-routine : (rootfs : String) (c : Command) → IsRoutine c → Spares rootfs c
Spares-routine rootfs (btrfs_tool host (delete dir path)) r = absurd r
Spares-routine rootfs _ r = tt

abbrev pub KeepsSpared : Btrfs → {A : Type 0} → Exec Btrfs A → Type 0
KeepsSpared a = Keeps (SameSystem a) (Spares a.rootfs)
