-- ===== src/Btrfs/Ready.antt =====
-- What `Btrfs.__init__` guarantees of the object that it makes.
use meta_overc.Base.{
  String, false, Option, none, some, ◌≡◌, ◌≢◌, ◌⊎◌, inl, inr, refl, arith, ◌==◌, eq_iff, Bool-cases,
}
use meta_overc.System.{Env, History}
use meta_overc.Exec.{ok, ◌>>=◌, pure}
use meta_overc.Exec.Ensures.{Ensures, Ensures-last, Ensures-with, Returned-ok}
use meta_overc.Btrfs.Object.{Btrfs}
use meta_overc.Btrfs.Init.{make, init, kernel_checksum}

-- The two names that a root file system and the next one can have
abbrev pub ArePaired : String → String → Type 0
ArePaired rootfs next =
    ((rootfs ≡ "rootfs") × (next ≡ "rootfs_upgrade"))
    ⊎ ((rootfs ≡ "rootfs_upgrade") × (next ≡ "rootfs"))

-- The checksum is known if there is a kernel.
abbrev pub HasSum : String → Option String → Type 0
HasSum kernel md5 = (kernel ≡ "") ⊎ ((sum : String) × (md5 ≡ some sum))

pub record IsReady (b : Btrfs) : Type 0 where
  pub paired : ArePaired b.rootfs b.next_rootfs
  pub not_bakup : b.bakup_mode ≡ false
  pub has_rootdev : b.rootdev ≢ ""
  pub no_message : b.message ≡ ""
  pub has_sum : HasSum b.kernel b.kernel_md5

module _ {S : Type 0} where
  make-IsReady :
      (rootdev rootfs : Option String) (kernel : String) (md5 : Option String)
      → HasSum kernel md5
      → Ensures (make {S = S} rootdev rootfs kernel md5) (λ b s h. IsReady b)
  unfolding make ◌>>=◌
  make-IsReady none rootfs kernel md5 sum = record { at = λ s h. tt }
  make-IsReady (some dev) none kernel md5 sum = record { at = λ s h. ground arith }
  make-IsReady (some dev) (some name) kernel md5 sum = record {
    at = λ s h. elim (Bool-cases (name == "rootfs")) [
      | inl e ↦ rw ((eq_iff name "rootfs").0 e) (ground (arith, eq_iff dev ""))
      | inr ne ↦ elim (Bool-cases (name == "rootfs_upgrade")) [
        | inl e ↦ rw ((eq_iff name "rootfs_upgrade").0 e) (ground (arith, eq_iff dev ""))
        | inr ne' ↦ ground arith
      ]
    ];
  }

  kernel_checksum-HasSum :
      (env : Env) (kernel : String)
      → Ensures (kernel_checksum env {S = S} kernel) (λ md5 s h. HasSum kernel md5)
  unfolding kernel_checksum pure
  kernel_checksum-HasSum env kernel = elim (Bool-cases (kernel == "")) [
    | inl e ↦ rw e (record { at = λ s h. inl ((eq_iff kernel "").0 e) })
    | inr ne ↦ rw ne (Ensures-last _ _ (λ sum. record { at = λ s h. inr (sum, refl) }))
  ]

  init-Ready : (env : Env) → Ensures (init env {S = S}) (λ b s h. IsReady b)
  unfolding init
  init-Ready env = Ensures-last _ _ (λ rootdev. Ensures-last _ _ (λ rootfs.
      Ensures-last _ _ (λ kernel.
        Ensures-with (HasSum kernel) _ _ (kernel_checksum-HasSum env kernel)
          (λ md5 sum. make-IsReady rootdev rootfs kernel md5 sum))))

-- An object that `__init__` returns stands on one of the two root file systems and points at the
-- other, is not in the backup mode, has a root device and an empty message, and knows the checksum
-- of its kernel if it has found one.
pub init-IsReady :
    {S : Type 0} (env : Env) (s : S) (h : History) (b : Btrfs) → (init env s h).0 ≡ ok b → IsReady b
init-IsReady env s h b e = Returned-ok _ (init env s h) b ((init-Ready env).at s h) e
