-- ===== src/Btrfs/Machine/Reset.antt =====
-- How a factory reset makes the history of a machine grow.
use meta_overc.Base.{String, true, List, [], ◌∷◌, ◌≡◌, ◌≢◌, inl, inr, refl, format_option, ℤ}
use meta_overc.Text.{lines, ◌/◌}
use meta_overc.System.{Env, ran, btrfs_tool, set_default, show}
use meta_overc.Exec.{Exec, Result-cases, ◌>>=◌}
use meta_overc.Exec.Keeps.{Keeps, Keeps-pure}
use meta_overc.Utils.{sysroot, factory_snapshot, container_mount, popen_lines, system}
use meta_overc.Utils.Keeps.{random_str-Keeps}
use meta_overc.Btrfs.Object.{Btrfs, find_value, get_btrfs_value, btrfs}
use meta_overc.Btrfs.Object.Keeps.{SameSystem, object_rules}
use meta_overc.Btrfs.Cleanup.{cleanup_subvol}
use meta_overc.Btrfs.Cleanup.Keeps.{cleanup_subvol-Keeps, mount_container_root-Keeps}
use meta_overc.Btrfs.Parts.{reset_kernel-Keeps, reset_grub-Keeps, reset_children-Keeps}
use meta_overc.Btrfs.FactoryReset.{
  activate_factory, factory_reset_essential, reset_children, set_default_container,
  factory_reset_container, factory_reset,
}
use meta_overc.Btrfs.Machine.Grows.{
  LeavesHost, LeavesHost-ordinary, LeavesHost-routine, by_event, by_switch, Follows, Follows-Keeps,
  Follows-get, Follows-if, Follows-bind,
}

container-ne-sysroot : container_mount ≢ sysroot
container-ne-sysroot e = cc

module _ (env : Env) (a : Btrfs) where
  abbrev Leaves : {A : Type 0} → Exec Btrfs A → Type 0
  Leaves m = Keeps (SameSystem a) LeavesHost m

  -- The number of the other root file system is asked for and made the default.
  switch-Follows :
      {A : Type 0} (next : String) (k : ℤ → Exec Btrfs A)
      → next ≡ a.next_rootfs
      → ((code : ℤ) → Follows env a (k code))
      → Follows env a (do
        subvolid ← get_btrfs_value env (sysroot / next) "Subvolume ID" true
        failed ← btrfs env (set_default (format_option subvolid) sysroot) true
        k failed)
  unfolding get_btrfs_value popen_lines system btrfs ◌>>=◌
  switch-Follows next k same l = rw same (record {
    at = λ base b h p g.
        let c = btrfs_tool true (show (sysroot / a.next_rootfs)) in
        elim (Result-cases (find_value "Subvolume ID" (lines (env.reply h c).output))) [
          | inl (id, e) ↦ rw e ((l _).at base b _ p (by_switch (id, refl, e) g))
          | inr (x, e) ↦ rw e (p, by_event (ran c) tt g)
        ];
  })

  activate_factory-Follows : Follows env a (activate_factory env)
  unfolding activate_factory
  activate_factory-Follows = Follows-get env a _ (λ b p.
      Follows-bind env a _ _
        (Follows-Keeps env a _ (search (object_rules, LeavesHost-ordinary, LeavesHost-routine)))
        (λ x. switch-Follows b.next_rootfs _ p.next_rootfs (λ code. Follows-Keeps env a _ (
          search
            (
              object_rules, reset_kernel-Keeps, reset_grub-Keeps, LeavesHost-ordinary,
              LeavesHost-routine,
            )
            depth 10))))

  cleanup_root-Leaves : Leaves (cleanup_subvol env sysroot (factory_snapshot ∷ []) true)
  cleanup_root-Leaves = cleanup_subvol-Keeps env LeavesHost-routine sysroot _ true (λ path d. tt)

  essential-Follows : Follows env a (factory_reset_essential env)
  unfolding factory_reset_essential
  essential-Follows =
      search
        (
          Follows-get, Follows-if, activate_factory-Follows, Follows-bind, Follows-Keeps,
          object_rules, cleanup_root-Leaves, LeavesHost-ordinary, LeavesHost-routine,
        )
        depth 16

  reset_children-Leaves :
      (workdir : String) (ls : List String) → Leaves (reset_children env workdir ls)
  reset_children-Leaves = reset_children-Keeps env a LeavesHost-ordinary

  set_default_container-Leaves : (workdir : String) → Leaves (set_default_container env workdir)
  unfolding set_default_container
  set_default_container-Leaves workdir =
      search (object_rules, container-ne-sysroot, LeavesHost-ordinary, LeavesHost-routine) depth 14

  factory_reset_container-Leaves : Leaves (factory_reset_container env)
  unfolding factory_reset_container
  factory_reset_container-Leaves =
      search
        (
          object_rules, LeavesHost-ordinary, LeavesHost-routine, random_str-Keeps,
          reset_children-Leaves, mount_container_root-Keeps, set_default_container-Leaves,
        )
        depth 14

  pub factory_reset-Follows : Follows env a (factory_reset env)
  unfolding factory_reset
  factory_reset-Follows = Follows-bind env a _ _ essential-Follows (λ done.
      Follows-if env a done _ _ (Follows-Keeps env a _ factory_reset_container-Leaves)
        (Follows-Keeps env a _ (Keeps-pure _)))
