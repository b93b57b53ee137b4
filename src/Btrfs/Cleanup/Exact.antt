-- ===== src/Btrfs/Cleanup/Exact.antt =====
-- Exactly what `_cleanup_subvol` does, in every environment.
use meta_overc.Base.{
  String, Bool, false, List, [], ◌∷◌, ◌++◌, ◌==◌, ◌≡◌, inl, inr, refl, ap, ◌∙◌, map, Bool-cases,
  if◌then◌else◌,
}
use meta_overc.Text.{strip, split, lines, is_space}
use meta_overc.Text.Laws.{BeginsWell, strip-BeginsWell, HasPart, split-HasPart}
use meta_overc.System.{Env, Event, History, ran, btrfs_tool, delete, list_all}
use meta_overc.Exec.{ok, ◌>>=◌}
use meta_overc.Btrfs.Object.{Btrfs}
use meta_overc.Btrfs.Cleanup.{
  last_word, is_deleted, push_subvol, fill_stack, delete_stack, cleanup_subvol,
}

-- The lines before the first blank one, stripped
abbrev pub listed : List String → List String
listed [] = []
listed (line ∷ rest) = if strip line == "" then [] else (strip line ∷ listed rest)

-- The last of some words
abbrev last_of : List String → String
last_of [] = ""
last_of (w ∷ ws) = last_word w ws

-- The last word of a line, which is the path of the subvolume
unfoldable pub path_of : String → String
unfolding split
path_of line = last_of (split line)

-- The paths that pass the test
abbrev pub doomed : String → List String → List String → List String
doomed rootfs exclude [] = []
doomed rootfs exclude (p ∷ ps) =
    if is_deleted rootfs exclude p then p ∷ doomed rootfs exclude ps else doomed rootfs exclude ps

abbrev onto : {A : Type 0} → List A → List A → List A
onto [] ys = ys
onto (x ∷ xs) ys = onto xs (x ∷ ys)

-- A stack of values that is pushed on another in turn comes out in its old order.
onto-onto :
    {A B : Type 0} (f : A → B) (xs ys : List A) (zs : List B)
    → onto (map f (onto xs ys)) zs ≡ onto (map f ys) (map f xs ++ zs)
onto-onto f [] ys zs = refl
onto-onto f (x ∷ xs) ys zs = onto-onto f xs (x ∷ ys) zs

push_subvol-last_of :
    (rootfs : String) (exclude ws stack : List String)
    → HasPart ws
    → push_subvol rootfs exclude ws stack
      ≡ ok (if is_deleted rootfs exclude (last_of ws) then last_of ws ∷ stack else stack)
unfolding push_subvol
push_subvol-last_of rootfs exclude ws stack (w, vs, e) = rw e refl

-- A line that is not blank has a word.
words_of_line : (line : String) → strip line == "" ≡ false → HasPart (split (strip line))
words_of_line line ne = from_begin (strip line) (strip-BeginsWell line) ne
  where
    from_begin : (s : String) → BeginsWell is_space s → s == "" ≡ false → HasPart (split s)
    from_begin s (inl e) ne' = absurd (cc)
    from_begin s (inr (c, t, e, k)) ne' = rw e (split-HasPart c t k)

fill_stack-doomed :
    (rootfs : String) (exclude ls stack : List String)
    → fill_stack rootfs exclude ls stack
      ≡ ok (onto (doomed rootfs exclude (map path_of (listed ls))) stack)
unfolding fill_stack path_of
fill_stack-doomed rootfs exclude [] stack = refl
fill_stack-doomed rootfs exclude (line ∷ rest) stack = elim (Bool-cases (strip line == "")) [
  | inl e ↦ rw e refl
  | inr ne ↦ rw ne (
      rw (push_subvol-last_of rootfs exclude _ stack (words_of_line line ne))
        (elim (Bool-cases (is_deleted rootfs exclude (last_of (split (strip line))))) [
          | inl d ↦ rw d (fill_stack-doomed rootfs exclude rest _)
          | inr k ↦ rw k (fill_stack-doomed rootfs exclude rest stack)
        ]))
]

module _ (env : Env) where
  abbrev pub deletion : String → Bool → String → Event
  deletion subvoldir host path = ran (btrfs_tool host (delete subvoldir path))

  delete_stack-onto :
      (subvoldir : String) (host : Bool) (stack : List String) (b : Btrfs) (h : History)
      → delete_stack env subvoldir host stack b h
        ≡ (ok tt, b, onto (map (deletion subvoldir host) stack) h)
  unfolding delete_stack ◌>>=◌
  delete_stack-onto subvoldir host [] b h = refl
  delete_stack-onto subvoldir host (path ∷ stack) b h = delete_stack-onto subvoldir host stack b _

  -- `_cleanup_subvol` always returns, changes no field, and deletes exactly the subvolumes that are
  -- listed before the first blank line and pass the test, in the reverse of the order in which they
  -- are listed, after it has asked for the list and with no other command.
  pub cleanup_subvol-deletes :
      (subvoldir : String) (exclude : List String) (host : Bool) (b : Btrfs) (h : History)
      → let ask_list = btrfs_tool host (list_all subvoldir) in
        cleanup_subvol env subvoldir exclude host b h ≡ (
          ok tt,
          b,
          map (deletion subvoldir host) (
                doomed b.rootfs exclude
                  (map path_of (listed (lines (env.reply h ask_list).output))))
              ++ (ran ask_list ∷ h),
        )
  unfolding cleanup_subvol ◌>>=◌
  cleanup_subvol-deletes subvoldir exclude host b h =
      let ask_list = btrfs_tool host (list_all subvoldir) in
      let ls = lines (env.reply h ask_list).output in
      let chosen = doomed b.rootfs exclude (map path_of (listed ls)) in
      rw (fill_stack-doomed b.rootfs exclude ls []) (
        delete_stack-onto subvoldir host (onto chosen []) b (ran ask_list ∷ h)
        ∙ ap (λ k. (ok tt, b, k))
            (onto-onto (deletion subvoldir host) chosen [] (ran ask_list ∷ h)))
