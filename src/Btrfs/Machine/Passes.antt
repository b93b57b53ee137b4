-- ===== src/Btrfs/Machine/Passes.antt =====
-- What a call of the agent adds to the history.
use meta_overc.Base.{String, Bool, true, false, Option, List, [], ◌∷◌, ◌≡◌, inl, inr, refl, ◌∙◌}
use meta_overc.System.{Command, Env, History, IsRoutine}
use meta_overc.Exec.{
  Exec, Error, Outcome, Result-cases, ok, raised, continue, pure, bind_ok, ◌>>=◌, ◌>>◌, on_new,
  with_object,
}
use meta_overc.Exec.Keeps.{Since, Since-start, Keeps, keeps_rules}
use meta_overc.Exec.Ensures.{Returned-ok}
use meta_overc.Exec.Commits.{CommitsAt}
use meta_overc.Utils.Keeps.{compute_checksum-Keeps}
use meta_overc.Btrfs.Object.{Btrfs}
use meta_overc.Btrfs.Object.Keeps.{SameSystem, unchanged, object_rules}
use meta_overc.Btrfs.Init.{find_kernel, kernel_checksum, make, init}
use meta_overc.Btrfs.Cleanup.{cleanup_subvol, clean_essential, clean_container}
use meta_overc.Btrfs.Cleanup.Keeps.{cleanup_subvol-Keeps, mount_container_root-Keeps}
use meta_overc.Btrfs.Upgrade.{do_upgrade}
use meta_overc.Btrfs.Rollback.{do_rollback}
use meta_overc.Btrfs.FactoryReset.{factory_reset}
use meta_overc.Btrfs.Atomic.{
  LeavesDefault, LeavesDefault-routine, Sets, do_upgrade-Commits, do_rollback-Commits,
}
use meta_overc.Btrfs.Safety.{Spares, Spares-routine}
use meta_overc.Btrfs.Safety.Operations.{
  Operation, cleaning_essential, cleaning_container, resetting, upgrading, rolling_back, perform,
  perform-spares,
}
use meta_overc.Btrfs.Ready.{ArePaired, init-IsReady}
use meta_overc.Btrfs.Disk.Boot.{Runs, init-Runs}
use meta_overc.Btrfs.Machine.{IsRoot, attempt}
use meta_overc.Btrfs.Machine.Grows.{Grows, by_switch, Grows-LeavesDefault}
use meta_overc.Btrfs.Machine.Reset.{factory_reset-Follows}

abbrev Anything : {S : Type 0} → S → Type 0
Anything s = Unit

module _ (env : Env) {S : Type 0} {Allowed : Command → Type 0}
    (routine : (c : Command) → IsRoutine c → Allowed c) where
  find_kernel-Keeps : (files : List String) → Keeps Anything Allowed (find_kernel env {S = S} files)
  unfolding find_kernel
  find_kernel-Keeps [] = search (keeps_rules)
  find_kernel-Keeps (file ∷ files) =
      let rest = find_kernel-Keeps files in search (object_rules, routine) depth 8

  make-Keeps :
      (rootdev rootfs : Option String) (kernel : String) (md5 : Option String)
      → Keeps Anything Allowed (make {S = S} rootdev rootfs kernel md5)
  unfolding make
  make-Keeps rootdev rootfs kernel md5 = search (keeps_rules)

  kernel_checksum-Keeps :
      (kernel : String) → Keeps Anything Allowed (kernel_checksum env {S = S} kernel)
  unfolding kernel_checksum
  kernel_checksum-Keeps kernel = search (keeps_rules, compute_checksum-Keeps, routine) depth 8

  init-Keeps : Keeps Anything Allowed (init env {S = S})
  unfolding init
  init-Keeps =
      search (object_rules, routine, find_kernel-Keeps, kernel_checksum-Keeps, make-Keeps) depth 10

-- Between two histories no deletion has touched the root file system of that name, and no default
-- subvolume of the host has been set but by the number of the other one.
pub record Passes (env : Env) (name next : String) (base end : History) : Type 0 where
  pub spares : Since (Spares name) base end
  pub grows : Grows env next base end

commits-Grows :
    (env : Env) (a : Btrfs) (base : History) (o : Outcome Btrfs Bool)
    → CommitsAt (SameSystem a) LeavesDefault (Sets env a.next_rootfs) base o
    → Grows env a.next_rootfs base o.2
commits-Grows env a base (ok true, b, h) (mid, since, sets) =
    by_switch sets (Grows-LeavesDefault base mid since)
commits-Grows env a base (ok false, b, h) p = Grows-LeavesDefault base h p.1
commits-Grows env a base (raised e, b, h) p = Grows-LeavesDefault base h p.1

end_same : {S A : Type 0} (m : Exec S A) (s : S) (h : History) → ((m >> pure tt) s h).2 ≡ (m s h).2
unfolding ◌>>=◌
end_same {S} {A} m s h = go (m s h)
  where
    go : (o : Outcome S A) → (continue o (λ _. pure tt)).2 ≡ o.2
    go (ok a, t, k) = refl
    go (raised e, t, k) = refl

module _ (env : Env) (b : Btrfs) where
  cleanup-leaves :
      (dir : String) (exclude : List String)
      → Keeps (SameSystem b) LeavesDefault (cleanup_subvol env dir exclude true)
  cleanup-leaves dir exclude =
      cleanup_subvol-Keeps env LeavesDefault-routine dir exclude true (λ path d. tt)

  clean_essential-leaves : Keeps (SameSystem b) LeavesDefault (clean_essential env)
  unfolding clean_essential
  clean_essential-leaves = search (object_rules, LeavesDefault-routine, cleanup-leaves)

  clean_container-leaves : Keeps (SameSystem b) LeavesDefault (clean_container env)
  unfolding clean_container
  clean_container-leaves =
      search (object_rules, LeavesDefault-routine, cleanup-leaves, mount_container_root-Keeps) depth
        10

  module _ (base h : History) (spares : Since (Spares b.rootfs) base h)
      (leaves : Since LeavesDefault base h) where
    perform-Grows : (op : Operation) → Grows env b.next_rootfs base (perform env op b h).2
    perform-Grows cleaning_essential =
        Grows-LeavesDefault base _ (clean_essential-leaves.at base b h (unchanged b, leaves)).1
    perform-Grows cleaning_container =
        Grows-LeavesDefault base _ (clean_container-leaves.at base b h (unchanged b, leaves)).1
    perform-Grows resetting =
        rw (end_same (factory_reset env) b h)
          ((factory_reset-Follows env b).at base b h (unchanged b)
            (Grows-LeavesDefault base h leaves)).1
    perform-Grows upgrading = rw (end_same (do_upgrade env) b h) (
        commits-Grows env b base (do_upgrade env b h)
          ((do_upgrade-Commits env b).at base b h (unchanged b, leaves)))
    perform-Grows rolling_back = rw (end_same (do_rollback env) b h) (
        commits-Grows env b base (do_rollback env b h)
          ((do_rollback-Commits env b).at base b h (unchanged b, leaves)))

    perform-Passes :
        (op : Operation) → Passes env b.rootfs b.next_rootfs base (perform env op b h).2
    perform-Passes op = record {
      spares = ((perform-spares env op b).at base b h (unchanged b, spares)).1;
      grows = perform-Grows op;
    }

ArePaired-IsRoot : {a b : String} → ArePaired a b → IsRoot a × IsRoot b
ArePaired-IsRoot (inl (p, q)) = (inl p, inr q)
ArePaired-IsRoot (inr (p, q)) = (inr p, inl q)

with_object_end : {S T A : Type 0} (s : S) (o : Outcome T A) → (with_object s o).2 ≡ o.2
with_object_end s (ok a, t, k) = refl
with_object_end s (raised e, t, k) = refl

raised_end :
    {S A B : Type 0} (m : Exec S A) (f : A → Exec S B) (s : S) (h : History) (e : Error)
    → (m s h).0 ≡ raised e
    → ((m >>= f) s h).2 ≡ (m s h).2
unfolding ◌>>=◌
raised_end {S} {A} m f s h e p = go (m s h) p
  where
    go : (o : Outcome S A) → o.0 ≡ raised e → (continue o f).2 ≡ o.2
    go (ok a, t, k) q = absurd (cc)
    go (raised x, t, k) q = refl

module _ (env : Env) (op : Operation) (h : History) where
  attempt-made :
      (b : Btrfs)
      → (init env tt h).0 ≡ ok b
      → (attempt env op tt h).2 ≡ (perform env op b (init env tt h).2).2
  unfolding attempt on_new
  attempt-made b made =
      let k = (init env tt h).2 in
      rw (bind_ok (init env) (λ c. on_new c (perform env op) >> pure tt) tt h made refl)
        (end_same (on_new b (perform env op)) tt k ∙ with_object_end tt (perform env op b k))

  attempt-raised :
      (e : Error) → (init env tt h).0 ≡ raised e → (attempt env op tt h).2 ≡ (init env tt h).2
  unfolding attempt
  attempt-raised e p = raised_end (init env) _ tt h e p

  -- A call on a machine that runs one of the root file systems
  pub attempt-Passes :
      (name : String)
      → Runs env name
      → (next : String) × IsRoot next × Passes env name next h (attempt env op tt h).2
  attempt-Passes name runs =
      let spares : (r : String) → Since (Spares r) h (init env tt h).2 =
        λ r. ((init-Keeps env (Spares-routine r)).at h tt h (tt, Since-start)).1 in
      let leaves = ((init-Keeps env LeavesDefault-routine).at h tt h (tt, Since-start)).1 in
      elim (Result-cases (init env tt h).0) [
        | inr (e, p) ↦ rw (attempt-raised e p) (
          "rootfs",
          inl refl,
          record { spares = spares name; grows = Grows-LeavesDefault h _ leaves },
        )
        | inl (b, made) ↦
            let ready = init-IsReady env tt h b made in
            let named = Returned-ok _ (init env tt h) b ((init-Runs env name runs).at tt h) made in
            rw (attempt-made b made, ← named)
              (
                b.next_rootfs,
                (ArePaired-IsRoot ready.paired).1,
                perform-Passes env b h (init env tt h).2 (spares b.rootfs) leaves op,
              )
      ]
