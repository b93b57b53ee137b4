-- ===== src/Tests/Machines.antt =====
-- A machine that is upgraded and cut off, and the loop of `Process.run`, tried.
use mathlib.Core.List.{append-nil}
use text.Mathlib.TextLemmas.{append_cancel_left}
use meta_overc.Base.{
  ℕ, zero, suc, String, ◌<>◌, ℤ, pos, true, false, Option, none, some, [], ◌∷◌, ◌≡◌, ◌≢◌, refl, sym,
  ◌∙◌, inl, inr, Bool-cases, ◌==◌, eq_iff, or_true,
}
use meta_overc.Text.{lines, ◌/◌}
use meta_overc.System.{History, ran, btrfs_tool, set_default}
use meta_overc.Exec.{◌>>=◌, on_new}
use meta_overc.Utils.{sysroot}
use meta_overc.Btrfs.Object.{find_value}
use meta_overc.Btrfs.Upgrade.{do_upgrade}
use meta_overc.Btrfs.Safety.Operations.{upgrading}
use meta_overc.Btrfs.Machine.{
  Volume, Machine, as_it_is, later, calls, boots, IsBooted, IsSafe, attempt,
}
use meta_overc.Btrfs.Machine.Invariant.{Becomes-IsSafe}
use meta_overc.Tests.Disks.{disk, first, numbered, two_numbers}
use meta_overc.Process.Loop.{Child, Stops, loop-Stops}

-- Two paths with one number
numbered-one : (p q n : String) → numbered p ≡ some n → numbered q ≡ some n → p ≡ q
numbered-one p q n e d = elim (Bool-cases (p == "/sysroot/rootfs")) [
  | inl p₁ ↦ elim (Bool-cases (q == "/sysroot/rootfs")) [
    | inl q₁ ↦ (eq_iff p _).0 p₁ ∙ sym ((eq_iff q _).0 q₁)
    | inr q₁ ↦ elim (Bool-cases (q == "/sysroot/rootfs_upgrade")) [
      | inl q₂ ↦ absurd (two_numbers n (rw p₁ at e) (rw (q₁, q₂) at d))
      | inr q₂ ↦ absurd (none-ne-some (rw (q₁, q₂) at d))
    ]
  ]
  | inr p₁ ↦ elim (Bool-cases (p == "/sysroot/rootfs_upgrade")) [
    | inr p₂ ↦ absurd (none-ne-some (rw (p₁, p₂) at e))
    | inl p₂ ↦ elim (Bool-cases (q == "/sysroot/rootfs")) [
      | inl q₁ ↦ absurd (two_numbers n (rw q₁ at d) (rw (p₁, p₂) at e))
      | inr q₁ ↦ elim (Bool-cases (q == "/sysroot/rootfs_upgrade")) [
        | inl q₂ ↦ (eq_iff p _).0 p₂ ∙ sym ((eq_iff q _).0 q₂)
        | inr q₂ ↦ absurd (none-ne-some (rw (q₁, q₂) at d))
      ]
    ]
  ]
]
  where
    none-ne-some : {a : String} → none ≡ some a → ⊥
    none-ne-some r = cc

is_other : (path : String) → path ≢ sysroot → (path == "/sysroot") ≡ false
is_other path other = elim (Bool-cases (path == "/sysroot")) [
  | inl e ↦ absurd (other ((eq_iff path "/sysroot").0 e))
  | inr ne ↦ ne
]

abbrev volume : Volume (disk false (pos 1) "257")
volume = record {
  named = λ h name. numbered (sysroot / name);
  seen = λ h name n e. e;
  stays = λ h e name n there a. there;
  default_stays = λ h e name there. there;
  one_name = λ h a b n p q. append_cancel_left "/" a b (
      append_cancel_left "/sysroot" ("/" <> a) ("/" <> b)
        (numbered-one (sysroot / a) (sysroot / b) n p q));
  others = λ h host id path other. rw (is_other path other, or_true (id == "None")) refl;
  no_number = λ h. refl;
}

abbrev started : Machine
started = record {
  env = first;
  disk = disk false (pos 1) "257";
  volume = volume;
  name = "rootfs";
  history = [];
}

-- The upgrade is cut off before its last command, which would set the default subvolume.
abbrev whole : History
whole = (attempt first upgrading tt []).2

abbrev without_last : History → History
without_last [] = []
without_last (e ∷ h) = h

abbrev cut : Machine
cut = record started { history = without_last whole }

cut_off : whole ≡ ran (btrfs_tool true (set_default "258" sysroot)) ∷ cut.history
unfolding attempt do_upgrade ◌>>=◌ on_new
cut_off = refl

boots_again : IsBooted cut started
unfolding find_value lines attempt do_upgrade ◌>>=◌ on_new
boots_again = record {
  is_default = refl;
  runs = λ h. refl;
  same_default = refl;
  same_names = λ name. refl;
}

started-IsSafe : IsSafe started
unfolding find_value lines
started-IsSafe = record {
  runs = λ h. refl;
  is_root = inl refl;
  is_there = ("257", refl);
  can_boot = ("rootfs", inl refl, refl);
}

Becomes-IsSafe_example : IsSafe started
Becomes-IsSafe_example =
    Becomes-IsSafe {m = started}
      (later
        (later as_it_is (
          calls started upgrading cut.history
            ((cut.history, sym (append-nil cut.history)), (_ ∷ [], cut_off))))
        (boots cut started boots_again))
      started-IsSafe

-- A child that ends in the second round
abbrev ending : Child
ending = record {
  read_at = λ i. record { from_stdout = some "working\n"; from_stderr = none };
  poll_at = code_at;
}
  where
    code_at : ℕ → Option ℤ
    code_at zero = none
    code_at (suc i) = some (pos 0)

loop-Stops_example : Stops 3 ending
loop-Stops_example = loop-Stops 3 ending (pos 0) refl
