-- ===== src/Links/Refused.antt =====
-- What `my_rmdir` refuses.
use cs179f_bbfs_project.Base.{
  ◌<◌, ◌≡◌, ◌⊎◌, ◌∙◌, inl, inr, true, false, arith, ltb, if◌then◌else◌, Bool-cases, length, Bytes,
}
use cs179f_bbfs_project.State.{an_err, enotdir, enotempty, Errno, Fs, done, file_at, touch, s_isdir}
use cs179f_bbfs_project.State.View.{file_at_errno, file_at-touch}
use cs179f_bbfs_project.Resolve.Follow.{IsFollowable, followed, find_ino_view}
use cs179f_bbfs_project.Links.{my_rmdir}

-- `my_rmdir` of a file that is no directory, or of a directory with more than two entries, fails with
-- ENOTDIR or ENOTEMPTY and changes no file. The path ends in no link, or in one of less than 50 bytes.
pub my_rmdir_refused :
    (path : Bytes) (fs : Fs)
    → IsFollowable (file_at fs) path
    → (s_isdir (file_at fs (followed (file_at fs) path)).metadata.st_mode ≡ false)
      ⊎ (2 < length (file_at fs (followed (file_at fs) path)).dentries)
    → (gs : Fs) × (my_rmdir path fs ≡ done an_err gs)
      × (gs.errno ≡ (
          if s_isdir (file_at fs (followed (file_at fs) path)).metadata.st_mode
          then enotempty
          else enotdir))
      × (file_at gs ≡ file_at fs)
unfolding my_rmdir
my_rmdir_refused path fs h why =
    let fh = followed (file_at fs) path in
    let (gs, run, same) = find_ino_view path fs h in
    let ts : Fs = touch fh gs in
    let view : (e : Errno) → file_at (record ts { errno = e }) ≡ file_at fs =
      λ e. file_at_errno e ts ∙ file_at-touch fh gs ∙ same.files in
    elim (Bool-cases (s_isdir (file_at fs fh).metadata.st_mode)) [
      | inr other ↦
          (record ts { errno = enotdir }, rw (run, same.files, other), rw other, view enotdir)
      | inl dir ↦
          let full : ltb 2 (length (file_at fs fh).dentries) ≡ true = ground arith in
          (record ts { errno = enotempty }, rw (run, same.files, dir, full), rw dir, view enotempty)
    ]
