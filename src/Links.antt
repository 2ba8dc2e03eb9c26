-- ===== src/Links.antt =====
-- The operations of ProjectWOFuse/src/my_stubs.cc on names: `my_link`, `my_unlink`, `my_rmdir`,
-- `my_symlink` and `my_rename`.
pub mod Link
pub mod Refused
pub mod Effects
pub mod Erase
pub mod Unlink
pub mod RoundTrip
pub mod Rename
pub mod Root
use cs179f_bbfs_project.Base.{
  ℕ, ◌+◌, ◌^◌, Bool, true, false, not, ◌||◌, List, [], ◌∷◌, ◌++◌, ltb, ◌==◌, if◌then◌else◌, length,
  Bytes, bytes_beq,
}
use cs179f_bbfs_project.Base.Words.{inc64, dec64}
use cs179f_bbfs_project.State.{
  ok, an_err, s_isdir, s_isreg, or_iflnk, Env, Errno, eexist, eperm, emlink, enotdir, enotempty,
  Stat, Dirent, File, Fs, Run, done, M, pure, and_then, ◌>>=◌, ◌>>◌, entry_at, modify_entry,
  erase_entry, fail, with_nlink, push_dentry, dirent_frame,
}
use cs179f_bbfs_project.Path.{slash, split, join, pop_back, tail_of, parent_of}
use cs179f_bbfs_project.Resolve.{lookup, find_ino}
use cs179f_bbfs_project.Create.{is_dot, my_creat}
use cs179f_bbfs_project.Contents.{my_pwrite}
use cs179f_bbfs_project.Attributes.{my_chmod}

-- Erases the first entry that a test picks out.
unfoldable pub erase_first : (Dirent → Bool) → List Dirent → List Dirent
erase_first test [] = []
erase_first test (d ∷ ds) = if test d then ds else d ∷ erase_first test ds

abbrev pub erase_name : Bytes → File → File
erase_name name f = record f { dentries = erase_first (λ d. bytes_beq d.d_name name) f.dentries }

abbrev pub erase_ino : ℕ → File → File
erase_ino fh f = record f { dentries = erase_first (λ d. d.d_ino == fh) f.dentries }

unfoldable pub my_link : (path newpath : Bytes) → M ℕ
my_link path newpath = do
  fh ← find_ino path
  if fh == 0 then fail eperm an_err else do
    f ← entry_at fh
    if not (s_isreg f.metadata.st_mode) then fail emlink an_err else do
      parent_fh ← find_ino (parent_of newpath)
      if parent_fh == 0 then fail eperm an_err else do
        new_fh ← find_ino newpath
        if not (new_fh == 0) then fail eexist an_err else do
          modify_entry fh (λ f. with_nlink (inc64 f.metadata.st_nlink) f)
          df ← dirent_frame fh (tail_of newpath)
          modify_entry parent_fh (push_dentry df)
          pure ok

unfoldable pub my_unlink : Bytes → M ℕ
unfolding erase_first
my_unlink path = do
  fh ← find_ino path
  file_in_dir ← entry_at fh
  if fh == 0 then fail enotdir an_err else if is_dot (tail_of path) then pure an_err else do
    parent_fh ← find_ino (parent_of path)
    modify_entry parent_fh (erase_name (tail_of path))
    modify_entry fh (λ f. with_nlink (dec64 f.metadata.st_nlink) f)
    f ← entry_at fh
    if f.metadata.st_nlink == 0 then (do erase_entry fh; pure ok) else pure ok

-- `the_dir` is a copy, so its count goes down and the entry's does not.
unfoldable pub my_rmdir : Bytes → M ℕ
unfolding erase_first
my_rmdir path = do
  fh ← find_ino path
  the_dir ← entry_at fh
  if not (s_isdir the_dir.metadata.st_mode)
      then fail enotdir an_err
      else if ltb 2 (length the_dir.dentries)
      then fail enotempty an_err
      else do
        parent ← find_ino (slash ∷ parent_of path)
        modify_entry parent (erase_ino fh)
        if dec64 the_dir.metadata.st_nlink == 0 then (do erase_entry fh; pure ok) else pure ok

-- The mode of the new file is the decimal number 666.
unfoldable pub my_symlink : Env → (path link : Bytes) → M ℕ
unfolding my_creat my_pwrite my_chmod
my_symlink env path link = if is_dot (tail_of link) then pure an_err else do
  old ← find_ino link
  if not (old == 0) then fail eexist an_err else do
    err ← my_creat env link 666
    if err == an_err then pure an_err else do
      link_fh ← find_ino link
      written ← my_pwrite link_fh path (length path) 0
      f ← entry_at link_fh
      err' ← my_chmod link (or_iflnk f.metadata.st_mode)
      if err' == an_err then pure an_err else pure ok

-- Makes room for the new name where it is taken.
unfoldable pub make_room : Bytes → ℕ → M (Unit {0})
unfolding erase_first
make_room name fh = do
  taken ← lookup name fh
  if not (taken == 0) then modify_entry fh (erase_name name) else pure tt

unfoldable pub my_rename : (path newpath : Bytes) → M ℕ
unfolding make_room
my_rename path newpath = do
  original_fh ← find_ino path
  parent_path_fh ← find_ino (parent_of path)
  if is_dot (tail_of path) then pure an_err else do
    parent_newpath_fh ← find_ino (parent_of newpath)
    make_room (tail_of newpath) parent_newpath_fh
    modify_entry parent_path_fh (erase_name (tail_of path))
    df ← dirent_frame original_fh (tail_of newpath)
    modify_entry parent_newpath_fh (push_dentry df)
    pure ok
