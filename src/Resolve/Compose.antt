-- ===== src/Resolve/Compose.antt =====
-- Resolving a path step by step.
use cs179f_bbfs_project.Base.{
  ℕ, ◌≡◌, refl, sym, ap, ◌∙◌, ◌≢◌, inl, inr, true, false, List, [], ◌∷◌, ◌++◌, arith, if◌then◌else◌,
  Bool-cases, All, Bytes, bytes_beq,
}
use cs179f_bbfs_project.State.{s_isdir, File, Fs}
use cs179f_bbfs_project.Path.{slash, split}
use cs179f_bbfs_project.Path.RoundTrip.{parts, split-parts, split_child}
use cs179f_bbfs_project.Resolve.{find_real_ino, root_ino}
use cs179f_bbfs_project.Resolve.View.{search_name, resolve, real_ino}

-- Nothing lies behind a number that is no directory.
resolve_no_dir :
    (view : ℕ → File) (w : List Bytes)
    → s_isdir (view 0).metadata.st_mode ≡ false
    → resolve view w 0 ≡ 0
unfolding resolve
resolve_no_dir view [] h = refl
resolve_no_dir view (it ∷ w) h = ground (arith, resolve_no_dir view w h)

resolve-append :
    (view : ℕ → File) (v w : List Bytes) (fh : ℕ)
    → s_isdir (view 0).metadata.st_mode ≡ false
    → resolve view (v ++ w) fh ≡ resolve view w (resolve view v fh)
unfolding resolve
resolve-append view [] w fh h = refl
resolve-append view (it ∷ v) w fh h = elim (Bool-cases (bytes_beq it [])) [
  | inl skip ↦ rw skip (resolve-append view v w fh h)
  | inr seg ↦ elim (Bool-cases (s_isdir (view fh).metadata.st_mode)) [
    | inl dir ↦ rw (seg, dir) (resolve-append view v w (search_name it (view fh).dentries) h)
    | inr other ↦ rw (seg, other) (sym (resolve_no_dir view w h))
  ]
]

-- A path and a name put together lead to the entry of that name in the directory at the path, and
-- to no file if the path leads to no directory.
pub real_ino_child :
    (view : ℕ → File) (path name : Bytes)
    → s_isdir (view 0).metadata.st_mode ≡ false
    → All (λ c. c ≢ slash) name
    → bytes_beq name [] ≡ false
    → real_ino view (path ++ slash ∷ name) ≡ (
        if s_isdir (view (real_ino view path)).metadata.st_mode
        then search_name name (view (real_ino view path)).dentries
        else 0)
unfolding resolve
real_ino_child view path name h plain some_name = rw (
  split_child path name slash plain,
  resolve-append view (split path slash) (name ∷ []) root_ino h,
  some_name,
)

-- A path with a slash in front and the path without it lead to the same file, in the same way: no
-- path is taken from the working directory.
pub find_real_ino_absolute :
    (path : Bytes) (fs : Fs) → find_real_ino (slash ∷ path) fs ≡ find_real_ino path fs
unfolding find_real_ino parts bytes_beq
find_real_ino_absolute path fs = rw (split-parts (slash ∷ path) slash, split-parts path slash)

-- The later view has all directories of the earlier one, with all that their names led to.
pub record Extends (view view' : ℕ → File) : Type 0 where
  pub dirs :
      (i : ℕ) → s_isdir (view i).metadata.st_mode ≡ true → s_isdir (view' i).metadata.st_mode ≡ true
  pub names :
      (i : ℕ) (name : Bytes)
      → search_name name (view i).dentries ≢ 0
      → search_name name (view' i).dentries ≡ search_name name (view i).dentries

-- Every path that led to a file still leads to that file.
pub resolve-Extends :
    (view view' : ℕ → File) (v : List Bytes) (fh : ℕ)
    → Extends view view'
    → s_isdir (view 0).metadata.st_mode ≡ false
    → resolve view v fh ≢ 0
    → resolve view' v fh ≡ resolve view v fh
unfolding resolve
resolve-Extends view view' [] fh x h nz = refl
resolve-Extends view view' (it ∷ v) fh x h nz = elim (Bool-cases (bytes_beq it [])) [
  | inl skip ↦ rw skip (resolve-Extends view view' v fh x h (rw skip at nz))
  | inr seg ↦ elim (Bool-cases (s_isdir (view fh).metadata.st_mode)) [
    | inr other ↦ absurd ((rw (seg, other) at nz) refl)
    | inl dir ↦
        let next = search_name it (view fh).dentries in
        let nz' : resolve view v next ≢ 0 = rw (seg, dir) at nz in
        let there : next ≢ 0 = λ z. nz' (ap (resolve view v) z ∙ resolve_no_dir view v h) in
        rw (seg, dir, x.dirs fh dir, x.names fh it there)
          (resolve-Extends view view' v next x h nz')
  ]
]
