-- ===== src/Create.antt =====
-- `my_mknod`, `my_mkdir`, `my_creat` and `initialize` of ProjectWOFuse/src/my_stubs.cc.
pub mod Fresh
pub mod Exists
use cs179f_bbfs_project.Base.{
  ℕ, ◌+◌, ◌^◌, Bool, true, false, not, ◌||◌, List, [], ◌∷◌, ◌++◌, ◌==◌, if◌then◌else◌, Bytes,
  bytes_beq,
}
use cs179f_bbfs_project.State.{
  ok, an_err, s_isdir, or_ifdir, or_ifreg, masked, Env, Errno, eexist, Stat, Dirent, File, new_file,
  Fs, Run, done, M, pure, and_then, ◌>>=◌, ◌>>◌, entry_at, modify_entry, set_errno, fail, next,
  push_dentry, dirent_frame,
}
use cs179f_bbfs_project.Path.{slash, split, join, back, pop_back, tail_of, parent_of}
use cs179f_bbfs_project.Resolve.{find_ino}

-- The metadata of a new file: the device is 100 whatever was asked for, and the mode is masked.
unfoldable pub new_stat : Env → (the_ino mode : ℕ) → Stat
new_stat env the_ino mode = record {
  st_dev = 100;
  st_ino = the_ino;
  st_mode = masked mode env.umask;
  st_nlink = 1;
  st_uid = env.euid;
  st_gid = env.egid;
  st_rdev = 0;
  st_size = 0;
  st_blksize = 4096;
  st_blocks = 0;
  st_atime = env.time 0;
  st_mtime = env.time 1;
  st_ctime = env.time 2;
}

abbrev pub dot : Bytes
dot = b'.' ∷ []

abbrev pub dot_dot : Bytes
dot_dot = b'.' ∷ b'.' ∷ []

abbrev pub is_dot : Bytes → Bool
is_dot name = bytes_beq name dot || bytes_beq name dot_dot

-- The entries `.` and `..` of a new directory.
unfoldable pub install_dots : (mode the_ino parent_ino : ℕ) → M ℕ
install_dots mode the_ino parent_ino =
    if s_isdir mode
    then (do
      modify_entry the_ino (push_dentry (record { d_ino = the_ino; d_name = dot }))
      modify_entry the_ino (push_dentry (record { d_ino = parent_ino; d_name = dot_dot }))
      pure ok)
    else pure ok

-- The entry in the parent, which the first call leaves out.
unfoldable pub install_entry : Bytes → (mode the_ino parent_ino : ℕ) → M ℕ
unfolding install_dots
install_entry path mode the_ino parent_ino = do
  old ← find_ino path
  if not (old == 0) then fail eexist an_err else do
    fh ← find_ino (parent_of path)
    df ← dirent_frame the_ino (tail_of path)
    modify_entry fh (push_dentry df)
    install_dots mode the_ino parent_ino

unfoldable pub my_mknod : Env → Bytes → ℕ → M ℕ
unfolding install_entry install_dots new_stat
my_mknod env path mode = do
  the_ino ← next
  modify_entry the_ino (λ f. record f { metadata = new_stat env the_ino mode })
  parent_ino ← find_ino (parent_of path)
  if parent_ino == 0 then pure an_err else λ fs.
      if fs.first_time
      then install_dots mode the_ino parent_ino (record fs { first_time = false })
      else install_entry path mode the_ino parent_ino fs

unfoldable pub my_mkdir : Env → Bytes → ℕ → M ℕ
unfolding my_mknod
my_mkdir env path mode = my_mknod env path (or_ifdir mode)

unfoldable pub my_creat : Env → Bytes → ℕ → M ℕ
unfolding my_mknod
my_creat env fpath mode =
    if is_dot (tail_of fpath) then pure an_err else my_mknod env fpath (or_ifreg mode)

-- Makes the root directory. `cwd` gets the working directory of the process.
unfoldable pub initialize : Env → M (Unit {0})
unfolding my_mkdir
initialize env = do
  err ← my_mkdir env (slash ∷ []) 0o700
  λ fs. done tt (record fs { cwd = env.working_dir })
