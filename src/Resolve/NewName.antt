-- ===== src/Resolve/NewName.antt =====
-- A new name in a directory: what `find_ino` returns for it and for the directory before it is there.
use cs179f_bbfs_project.Base.{
  ◌==◌, if◌then◌else◌, inl, inr, Bool-cases, append-nil, ℕ, ◌<◌, ◌≡◌, ◌≢◌, refl, sym, ap, ◌∙◌, true,
  false, [], ◌∷◌, ◌++◌, arith, All, length, Bytes, bytes_beq,
}
use cs179f_bbfs_project.State.{
  push_dentry, File, Fs, done, file_at, name_room, s_isdir, s_isreg, s_islnk,
}
use cs179f_bbfs_project.State.View.{SameView}
use cs179f_bbfs_project.Path.{slash, parent_of}
use cs179f_bbfs_project.Path.RoundTrip.{tail_of_child}
use cs179f_bbfs_project.Resolve.{find_ino}
use cs179f_bbfs_project.Resolve.View.{real_ino}
use cs179f_bbfs_project.Resolve.Compose.{Extends, resolve-Extends, real_ino_child}
use cs179f_bbfs_project.Resolve.Follow.{find_ino_real}
use cs179f_bbfs_project.Resolve.Grow.{LacksName, search_name_lacks, Grows, Extends-of_Grows, Adds}

-- A new name in the directory at `dir`: plain, short enough, and not yet there.
pub record IsNewName (view : ℕ → File) (dir name : Bytes) : Type 0 where
  pub is_dir : s_isdir (view (real_ino view dir)).metadata.st_mode ≡ true
  pub lacked : LacksName name (view (real_ino view dir)).dentries
  pub plain : All (λ c. c ≢ slash) name
  pub some_name : bytes_beq name [] ≡ false
  pub short : length name < name_room

dir_not_link : (mode : ℕ) → s_isdir mode ≡ true → s_islnk mode ≡ false
dir_not_link mode h = ground arith

reg_not_dir : (mode : ℕ) → s_isreg mode ≡ true → s_isdir mode ≡ false
reg_not_dir mode h = ground arith

pub zero_kinds : (mode : ℕ) → mode ≡ 0 → (s_isdir mode ≡ false) × (s_islnk mode ≡ false)
zero_kinds mode h = rw h (refl, refl)

module _ {view : ℕ → File} {dir name : Bytes} (n : IsNewName view dir name)
    (zero : (view 0).metadata.st_mode ≡ 0) where
  -- The new path leads to no file yet.
  pub new_path_free : real_ino view (dir ++ slash ∷ name) ≡ 0
  new_path_free =
      real_ino_child view dir name (zero_kinds (view 0).metadata.st_mode zero).0 n.plain n.some_name
      ∙ rw n.is_dir (search_name_lacks name _ n.lacked)

  pub free_not_link : s_islnk (view (real_ino view (dir ++ slash ∷ name))).metadata.st_mode ≡ false
  free_not_link = rw new_path_free (zero_kinds (view 0).metadata.st_mode zero).1

  -- The two lookups before a new entry: the parent is found, and the new path is not.
  pub find_parent :
      (fs : Fs)
      → file_at fs ≡ view
      → (gs : Fs) × (find_ino (parent_of (dir ++ slash ∷ name)) fs ≡ done (real_ino view dir) gs)
        × SameView fs gs
  find_parent fs e =
      let (gs, run, same) =
        find_ino_real dir fs
          (rw e (dir_not_link (view (real_ino view dir)).metadata.st_mode n.is_dir)) in
      (gs, rw (tail_of_child dir name n.plain).1 (run ∙ rw e), same)

  pub find_free :
      (fs : Fs)
      → file_at fs ≡ view
      → (gs : Fs) × (find_ino (dir ++ slash ∷ name) fs ≡ done 0 gs) × SameView fs gs
  find_free fs e =
      let (gs, run, same) = find_ino_real (dir ++ slash ∷ name) fs (rw e free_not_link) in
      (gs, run ∙ rw (e, new_path_free), same)

module _ {view : ℕ → File} {dir name : Bytes} (n : IsNewName view dir name)
    (zero : (view 0).metadata.st_mode ≡ 0) where
  pub new_dir_ne_zero : real_ino view dir ≢ 0
  new_dir_ne_zero z = dir_of_zero (ap (λ i. s_isdir (view i).metadata.st_mode) z)
    where
      dir_of_zero :
          s_isdir (view (real_ino view dir)).metadata.st_mode ≡ s_isdir (view 0).metadata.st_mode
          → ⊥
      dir_of_zero e = let no = (zero_kinds (view 0).metadata.st_mode zero).0 in cc (n.is_dir, no)

  -- A change that leaves the directory alone leaves the name new.
  module _ {view' : ℕ → File} (x : Extends view view')
      (same : view' (real_ino view dir) ≡ view (real_ino view dir)) where
    pub same_dir : real_ino view' dir ≡ real_ino view dir
    same_dir =
        resolve-Extends view view' _ _ x (zero_kinds (view 0).metadata.st_mode zero).0
          new_dir_ne_zero

    pub still_new : IsNewName view' dir name
    still_new = record {
      is_dir = rw (same_dir, same) n.is_dir;
      lacked = rw (same_dir, same) n.lacked;
      plain = n.plain;
      some_name = n.some_name;
      short = n.short;
    }

  -- The entry put into the directory.
  pub Adds-entry :
      (view' : ℕ → File) (ino : ℕ)
      → ((i : ℕ)
          → view' i ≡ (
              if i == real_ino view dir
              then push_dentry (record { d_ino = ino; d_name = name }) (view (real_ino view dir))
              else view i))
      → Adds view view' dir name ino
  Adds-entry view' ino e =
      let zero_dir = (zero_kinds (view 0).metadata.st_mode zero).0 in
      let self : (real_ino view dir == real_ino view dir) ≡ true = ground arith in
      let not_dir : (0 == real_ino view dir) ≡ false = ground (arith, new_dir_ne_zero) in
      record {
        extends = Extends-of_Grows view view' (λ i. grows i (view' i) (e i));
        zero_before = zero_dir;
        zero_after = rw (e 0, not_dir) zero_dir;
        is_dir = n.is_dir;
        lacked = n.lacked;
        plain = n.plain;
        some_name = n.some_name;
        pushed = rw (e (real_ino view dir), self) refl;
      }
    where
      grows :
          (i : ℕ) (f : File)
          → f ≡ (
              if i == real_ino view dir
              then push_dentry (record { d_ino = ino; d_name = name }) (view (real_ino view dir))
              else view i)
          → Grows (view i) f
      grows i f h = elim (Bool-cases (i == real_ino view dir)) [
        | inl at_dir ↦
            let p : i ≡ real_ino view dir = ground arith in
            let q : f ≡ push_dentry (record { d_ino = ino; d_name = name }) (view i) =
              h ∙ rw (at_dir, p) in
            rw q (record {
              dir = λ d. d;
              more = record { d_ino = ino; d_name = name } ∷ [];
              dentries = refl;
            })
        | inr other ↦
            let q : f ≡ view i = h ∙ rw other in
            rw q (record { dir = λ d. d; more = []; dentries = sym (append-nil (view i).dentries) })
      ]
