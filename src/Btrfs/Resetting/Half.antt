-- ===== src/Btrfs/Resetting/Half.antt =====
-- A factory reset of which the host's half has succeeded.
use meta_overc.Base.{true, ◌≡◌, refl}
use meta_overc.System.{Env, History}
use meta_overc.Exec.{ok, bind_ok}
use meta_overc.Exec.Keeps.{Since-start}
use meta_overc.Btrfs.Object.{Btrfs}
use meta_overc.Btrfs.Object.Keeps.{unchanged}
use meta_overc.Btrfs.Safety.Operations.{
  factory_reset_essential-spares, factory_reset_container-spares,
}
use meta_overc.Btrfs.FactoryReset.{factory_reset_essential, factory_reset}
use meta_overc.Btrfs.Resetting.Host.{IsInstalled, InstallsAt-true, factory_reset_essential-Installs}

-- If the half of a factory reset that is about the host succeeds, then the default subvolume of the host
-- has been set to the number that the environment gave for the other root file system, with the exit
-- status 0, however the reset ends: also where the half about the containers fails, and the reset
-- returns `False` or raises. No command since then deletes the running root file system or the factory
-- snapshot, or a subvolume below these.
pub factory_reset-IsInstalled_by_half :
    (env : Env) (b : Btrfs) (h : History)
    → (factory_reset_essential env b h).0 ≡ ok true
    → IsInstalled env b (factory_reset env b h).2
unfolding factory_reset
factory_reset-IsInstalled_by_half env b h e =
    let half = factory_reset_essential env b h in
    let (before, base, id, q, d, z, since) =
      InstallsAt-true env b half ((factory_reset_essential-Installs env b).at b h (unchanged b))
        e in
    let same = ((factory_reset_essential-spares env b).at h b h (unchanged b, Since-start)).0 in
    let after = ((factory_reset_container-spares env b).at base half.1 half.2 (same, since)).1 in
    rw (bind_ok (factory_reset_essential env) _ b h e refl) (before, base, id, q, d, z, after)
