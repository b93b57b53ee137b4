-- ===== src/Btrfs/Resetting/Host.antt =====
-- What a factory reset that succeeds has done to the root file system of the host.
use meta_overc.Base.{
  String, Bool, true, false, pos, Option, ◌∷◌, ◌≡◌, refl, inl, inr, format_option, int_eq,
  Bool-cases, if◌then◌else◌,
}
use meta_overc.Text.{lines, ◌/◌}
use meta_overc.System.{Env, History, ran, btrfs_tool, set_default, show}
use meta_overc.Exec.{Exec, Outcome, Result-cases, ok, raised, continue, ◌>>=◌, ◌>>◌, pure, get}
use meta_overc.Exec.Keeps.{HoldsAfter, Since, Since-start, keeps_rules}
use meta_overc.Utils.{sysroot, popen_lines, system}
use meta_overc.Btrfs.Object.{Btrfs, find_value, get_btrfs_value, btrfs}
use meta_overc.Btrfs.Object.Keeps.{SameSystem, unchanged, object_rules}
use meta_overc.Btrfs.Safety.{Spares, Spares-ordinary, Spares-routine, KeepsSpared}
use meta_overc.Btrfs.Parts.{reset_kernel-Keeps, reset_grub-Keeps}
use meta_overc.Btrfs.Safety.Operations.{
  cleanup_root-spares, factory_reset_essential-spares, factory_reset_container-spares,
}
use meta_overc.Btrfs.FactoryReset.{
  reset_kernel, reset_grub, activate_factory, factory_reset_essential, factory_reset_container,
  factory_reset,
}

module _ (env : Env) (a : Btrfs) where
  -- Two commands of the run ask for the number of the other root file system and make that number the
  -- default, which succeeds.
  abbrev pub IsInstalled : History → Type 0
  IsInstalled h =
      (before base : History) × (id : Option String) × (base
        ≡ ran (btrfs_tool true (set_default (format_option id) sysroot))
          ∷ ran (btrfs_tool true (show (sysroot / a.next_rootfs)))
          ∷ before)
      × (find_value "Subvolume ID"
            (lines (env.reply before (btrfs_tool true (show (sysroot / a.next_rootfs)))).output)
          ≡ ok id)
      × (int_eq
            (env.reply (ran (btrfs_tool true (show (sysroot / a.next_rootfs))) ∷ before)
              (btrfs_tool true (set_default (format_option id) sysroot))).status
            (pos 0)
          ≡ true)
      × Since (Spares a.rootfs) base h

  abbrev pub InstallsAt : Outcome Btrfs Bool → Type 0
  InstallsAt (ok true, b, h) = IsInstalled h
  InstallsAt (ok false, b, h) = Unit
  InstallsAt (raised e, b, h) = Unit

  pub record Installs (m : Exec Btrfs Bool) : Type 0 where
    pub at : (b : Btrfs) (h : History) → SameSystem a b → InstallsAt (m b h)

  Installs-false : Installs (pure false)
  unfolding pure
  Installs-false = record { at = λ b h p. tt }

  Installs-if :
      (t : Bool) (m n : Exec Btrfs Bool) → Installs m → Installs n → Installs (if t then m else n)
  Installs-if true m n k l = k
  Installs-if false m n k l = l

  Installs-get :
      (f : Btrfs → Exec Btrfs Bool)
      → ((b : Btrfs) → SameSystem a b → Installs (f b))
      → Installs (get >>= f)
  unfolding ◌>>=◌
  Installs-get f k = record { at = λ b h p. (k b p).at b h p }

  module _ {A : Type 0} where
    after_Installs :
        (base : History) (o : Outcome Btrfs A) (f : A → Exec Btrfs Bool)
        → HoldsAfter (SameSystem a) (Spares a.rootfs) base o
        → ((x : A) → Installs (f x))
        → InstallsAt (continue o f)
    after_Installs base (ok x, b, h) f p k = (k x).at b h p.0
    after_Installs base (raised e, b, h) f p k = tt

    Installs-after :
        (m : Exec Btrfs A) (f : A → Exec Btrfs Bool)
        → KeepsSpared a m
        → ((x : A) → Installs (f x))
        → Installs (m >>= f)
    unfolding ◌>>=◌
    Installs-after m f k l = record {
      at = λ b h p. after_Installs h (m b h) f (k.at h b h (p, Since-start)) l;
    }

  -- What keeps the file systems after the default is set
  installed :
      (before base : History) (id : Option String) (o : Outcome Btrfs Bool)
      → base
        ≡ ran (btrfs_tool true (set_default (format_option id) sysroot))
          ∷ ran (btrfs_tool true (show (sysroot / a.next_rootfs)))
          ∷ before
      → find_value "Subvolume ID"
          (lines (env.reply before (btrfs_tool true (show (sysroot / a.next_rootfs)))).output)
        ≡ ok id
      → int_eq
          (env.reply
            (ran (btrfs_tool true (show (sysroot / a.next_rootfs))) ∷ before)
            (btrfs_tool true (set_default (format_option id) sysroot))).status
          (pos 0)
        ≡ true
      → HoldsAfter (SameSystem a) (Spares a.rootfs) base o
      → InstallsAt o
  installed before base id (ok true, b, h) q e z p = (before, base, id, q, e, z, p.1)
  installed before base id (ok false, b, h) q e z p = tt
  installed before base id (raised x, b, h) q e z p = tt

  boot_files : Exec Btrfs Bool
  unfolding reset_kernel reset_grub
  boot_files = do reset_kernel env; reset_grub env; pure true

  boot_files-Keeps : KeepsSpared a boot_files
  unfolding boot_files
  boot_files-Keeps =
      search (keeps_rules, reset_kernel-Keeps, reset_grub-Keeps, Spares-ordinary) depth 8

  set_default-Installs :
      (next : String) (other : Exec Btrfs Bool)
      → next ≡ a.next_rootfs
      → Installs other
      → Installs (do
        subvolid ← get_btrfs_value env (sysroot / next) "Subvolume ID" true
        failed ← btrfs env (set_default (format_option subvolid) sysroot) true
        if int_eq failed (pos 0) then boot_files else other)
  unfolding get_btrfs_value popen_lines system btrfs ◌>>=◌
  set_default-Installs next other same k = rw same (record {
    at = λ b h p.
        let c = btrfs_tool true (show (sysroot / a.next_rootfs)) in
        elim (Result-cases (find_value "Subvolume ID" (lines (env.reply h c).output))) [
          | inl (id, e) ↦
              rw e
                (elim (Bool-cases (
                  int_eq
                    (env.reply (ran c ∷ h)
                      (btrfs_tool true (set_default (format_option id) sysroot))).status
                    (pos 0))) [
                      | inl z ↦
                          rw z (
                            installed h _ id _ refl e z
                              (boot_files-Keeps.at _ b _ (p, Since-start)))
                      | inr n ↦ rw n (k.at b _ p)
                    ])
          | inr (x, e) ↦ rw e tt
        ];
  })

  activate_factory-Installs : Installs (activate_factory env)
  unfolding activate_factory boot_files
  activate_factory-Installs = Installs-get _ (λ b p.
      Installs-after _ _ (search (object_rules, Spares-ordinary, Spares-routine)) (λ x.
        set_default-Installs b.next_rootfs _ p.next_rootfs
          (search (Installs-after, Installs-false, object_rules) depth 8)))

  pub factory_reset_essential-Installs : Installs (factory_reset_essential env)
  unfolding factory_reset_essential
  factory_reset_essential-Installs =
      search
        (
          Installs-get, Installs-if, Installs-after, Installs-false, object_rules,
          cleanup_root-spares, activate_factory-Installs, Spares-ordinary, Spares-routine,
        )
        depth 14

  -- The containers are reset after the host.
  containers-Installs :
      (o : Outcome Btrfs Bool) (h : History)
      → InstallsAt o
      → HoldsAfter (SameSystem a) (Spares a.rootfs) h o
      → InstallsAt (continue o (λ done. if done then factory_reset_container env else pure false))
  containers-Installs (ok true, b, k) h (before, base, id, q, e, z, since) p =
      installed before base id _ q e z
        ((factory_reset_container-spares env a).at base b k (p.0, since))
  containers-Installs (ok false, b, k) h i p = Installs-false.at b k p.0
  containers-Installs (raised x, b, k) h i p = tt

  factory_reset-Installs : Installs (factory_reset env)
  unfolding factory_reset ◌>>=◌
  factory_reset-Installs = record {
    at = λ b h p.
        containers-Installs (factory_reset_essential env b h) h
          (factory_reset_essential-Installs.at b h p)
          ((factory_reset_essential-spares env a).at h b h (p, Since-start));
  }

  pub InstallsAt-true : (o : Outcome Btrfs Bool) → InstallsAt o → o.0 ≡ ok true → IsInstalled o.2
  InstallsAt-true (ok true, b, h) i e = i
  InstallsAt-true (ok false, b, h) i e = absurd (cc)
  InstallsAt-true (raised x, b, h) i e = absurd (cc)

-- If `factory_reset` returns `True`, it has asked for the number of the other root file system and has
-- then set the number that the environment answered as the default subvolume of the host, with the
-- exit status 0; and no command since then deletes the running root file system or the factory
-- snapshot, or a subvolume below these.
pub factory_reset-IsInstalled :
    (env : Env) (b : Btrfs) (h : History)
    → (factory_reset env b h).0 ≡ ok true
    → IsInstalled env b (factory_reset env b h).2
factory_reset-IsInstalled env b h e =
    InstallsAt-true env b (factory_reset env b h)
      ((factory_reset-Installs env b).at b h (unchanged b)) e
