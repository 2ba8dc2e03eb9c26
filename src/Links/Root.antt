-- ===== src/Links/Root.antt =====
-- `my_rmdir` of the root directory.
use cs179f_bbfs_project.Base.{
  ◌≡◌, ◌⊎◌, refl, ap, ◌∙◌, inl, inr, true, false, List, [], ◌∷◌, ◌==◌, Bool-cases, Bytes, bytes_beq,
}
use cs179f_bbfs_project.Base.Words.{dec64}
use cs179f_bbfs_project.State.{ok, File, Fs, done, new_file, file_at, s_isdir}
use cs179f_bbfs_project.State.Effects.{View, set_at, erased, set_at_self}
use cs179f_bbfs_project.Path.{slash, split, parent_of}
use cs179f_bbfs_project.Resolve.{root_ino}
use cs179f_bbfs_project.Resolve.View.{resolve, real_ino}
use cs179f_bbfs_project.Resolve.Follow.{followed}
use cs179f_bbfs_project.Resolve.Keeps.{is_dir_at}
use cs179f_bbfs_project.Links.{erase_ino, my_rmdir}
use cs179f_bbfs_project.Links.Effects.{IsRemovable, my_rmdir-removed}

-- Without the root a path leads to the root's number or to nothing.
resolve_rootless :
    (u : View) (segments : List Bytes)
    → is_dir_at u root_ino ≡ false
    → (resolve u segments root_ino ≡ root_ino) ⊎ (resolve u segments root_ino ≡ 0)
unfolding resolve
resolve_rootless u [] h = inl refl
resolve_rootless u (it ∷ segments) h = elim (Bool-cases (bytes_beq it [])) [
  | inl skip ↦ rw skip (resolve_rootless u segments h)
  | inr seg ↦ rw (seg, h) (inr refl)
]

-- A root with at most two entries and one link is removed like any directory: `my_rmdir` reports
-- success, and from then on every path leads to nothing, or to the number of the root, which is no
-- file any more.
pub my_rmdir_root :
    (path : Bytes) (fs : Fs)
    → IsRemovable (file_at fs) path
    → followed (file_at fs) path ≡ root_ino
    → (file_at fs root_ino).metadata.st_nlink ≡ 1
    → (gs : Fs) × (my_rmdir path fs ≡ done ok gs)
      × (file_at gs root_ino ≡ new_file)
      × ((other : Bytes)
          → (real_ino (file_at gs) other ≡ root_ino) ⊎ (real_ino (file_at gs) other ≡ 0))
my_rmdir_root path fs n root one =
    let v = file_at fs in
    let (gs, run, e) = my_rmdir-removed path fs n in
    let w : View = set_at (followed v (slash ∷ parent_of path)) (erase_ino root_ino) v in
    let last : (dec64 (v root_ino).metadata.st_nlink == 0) ≡ true = rw one refl in
    let u : file_at gs ≡ set_at root_ino erased w = e ∙ rw (root, last) in
    let gone : file_at gs root_ino ≡ new_file =
      ap (λ x. x root_ino) u ∙ set_at_self w root_ino erased in
    let no_dir : is_dir_at (file_at gs) root_ino ≡ false =
      ap (λ (f : File). s_isdir f.metadata.st_mode) gone in
    (gs, run, gone, λ other. resolve_rootless (file_at gs) (split other slash) no_dir)
