-- ===== src/Bbfs/Session.antt =====
-- The callbacks of ProjectWFuse/src/bbfs.c as requests that libfuse makes, one after the other.
use cs179f_bbfs_project.Base.{ℕ, Option, none, some, List, [], ◌∷◌, Bytes}
use cs179f_bbfs_project.Bbfs.{Host, Reply, Act}
use cs179f_bbfs_project.Bbfs.Paths.{
  bb_getattr, bb_readlink, bb_mknod, bb_mkdir, bb_unlink, bb_rmdir, bb_symlink, bb_rename, bb_link,
  bb_chmod, bb_chown, bb_truncate, bb_utime, bb_statfs, bb_setxattr, bb_getxattr, bb_listxattr,
  bb_removexattr, bb_access,
}
use cs179f_bbfs_project.Bbfs.Handles.{
  bb_open, bb_create, bb_read, bb_write, bb_release, bb_fsync, bb_ftruncate, bb_fgetattr,
  bb_opendir, bb_readdir, bb_releasedir, bb_flush, bb_fsyncdir,
}

-- The callbacks on a path, `fgetattr` with them.
pub data PathCallback : Type 0 where
  getattr : (path : Bytes) → PathCallback
  readlink : (path : Bytes) (size : ℕ) → PathCallback
  mknod : (path : Bytes) (mode dev : ℕ) → PathCallback
  mkdir : (path : Bytes) (mode : ℕ) → PathCallback
  unlink : (path : Bytes) → PathCallback
  rmdir : (path : Bytes) → PathCallback
  symlink : (path newpath : Bytes) → PathCallback
  rename : (path newpath : Bytes) → PathCallback
  link : (path newpath : Bytes) → PathCallback
  chmod : (path : Bytes) (mode : ℕ) → PathCallback
  chown : (path : Bytes) (uid gid : ℕ) → PathCallback
  truncate : (path : Bytes) (newsize : ℕ) → PathCallback
  utime : (path ubuf : Bytes) → PathCallback
  statfs : (path : Bytes) → PathCallback
  setxattr : (path name value : Bytes) (size flags : ℕ) → PathCallback
  getxattr : (path name : Bytes) (size : ℕ) → PathCallback
  listxattr : (path : Bytes) (size : ℕ) → PathCallback
  removexattr : (path name : Bytes) → PathCallback
  access : (path : Bytes) (mask : ℕ) → PathCallback
  open_file : (path : Bytes) (flags : ℕ) → PathCallback
  create : (path : Bytes) (mode : ℕ) → PathCallback
  fgetattr : (path : Bytes) (fh : ℕ) → PathCallback
  opendir : (path : Bytes) → PathCallback

-- The other callbacks. `readdir` is given a buffer and the function that fills it, which gives its
-- result and the buffer after it, and may read as many entries behind the first as is said.
pub data Callback : Type 0 where
  at_path : PathCallback → Callback
  read : (size offset fh : ℕ) → Callback
  write : (buf : Bytes) (size offset fh : ℕ) → Callback
  release : (fh : ℕ) → Callback
  fsync : (datasync fh : ℕ) → Callback
  ftruncate : (offset fh : ℕ) → Callback
  readdir : (buf : Bytes) (filler : Bytes → Bytes → ℕ × Bytes) (entries fh : ℕ) → Callback
  releasedir : (fh : ℕ) → Callback
  flush : Callback
  fsyncdir : Callback

module _ {World : Type 0} (h : Host World) (rootdir : Option Bytes) where
  unfoldable pub run_path : PathCallback → Act World Reply
  run_path (getattr path) = bb_getattr h rootdir path
  run_path (readlink path size) = bb_readlink h rootdir path size
  run_path (mknod path mode dev) = bb_mknod h rootdir path mode dev
  run_path (mkdir path mode) = bb_mkdir h rootdir path mode
  run_path (unlink path) = bb_unlink h rootdir path
  run_path (rmdir path) = bb_rmdir h rootdir path
  run_path (symlink path newpath) = bb_symlink h rootdir path newpath
  run_path (rename path newpath) = bb_rename h rootdir path newpath
  run_path (link path newpath) = bb_link h rootdir path newpath
  run_path (chmod path mode) = bb_chmod h rootdir path mode
  run_path (chown path uid gid) = bb_chown h rootdir path uid gid
  run_path (truncate path newsize) = bb_truncate h rootdir path newsize
  run_path (utime path ubuf) = bb_utime h rootdir path ubuf
  run_path (statfs path) = bb_statfs h rootdir path
  run_path (setxattr path name value size flags) = bb_setxattr h rootdir path name value size flags
  run_path (getxattr path name size) = bb_getxattr h rootdir path name size
  run_path (listxattr path size) = bb_listxattr h rootdir path size
  run_path (removexattr path name) = bb_removexattr h rootdir path name
  run_path (access path mask) = bb_access h rootdir path mask
  run_path (open_file path flags) = bb_open h rootdir path flags
  run_path (create path mode) = bb_create h rootdir path mode
  run_path (fgetattr path fh) = bb_fgetattr h rootdir path fh
  run_path (opendir path) = bb_opendir h rootdir path

  -- What libfuse gets of `readdir`: the result, and the buffer.
  unfoldable pub run_readdir :
      (buf : Bytes) (filler : Bytes → Bytes → ℕ × Bytes) (entries fh : ℕ) → Act World Reply
  run_readdir buf filler entries fh s = elim (bb_readdir h filler entries fh buf s) [
    | none ↦ none
    | some ((r, buf'), s') ↦ some (record { retstat = r; out = buf'; fh = none }, s')
  ]

  unfoldable pub run_callback : Callback → Act World Reply
  unfolding run_path run_readdir
  run_callback (at_path c) = run_path c
  run_callback (read size offset fh) = bb_read h size offset fh
  run_callback (write buf size offset fh) = bb_write h buf size offset fh
  run_callback (release fh) = bb_release h fh
  run_callback (fsync datasync fh) = bb_fsync h datasync fh
  run_callback (ftruncate offset fh) = bb_ftruncate h offset fh
  run_callback (readdir buf filler entries fh) = run_readdir buf filler entries fh
  run_callback (releasedir fh) = bb_releasedir h fh
  run_callback flush = bb_flush
  run_callback fsyncdir = bb_fsyncdir

  -- The replies to the requests, in order.
  unfoldable pub run_session : List Callback → Act World (List Reply)
  unfolding run_callback
  run_session [] s = some ([], s)
  run_session (c ∷ cs) s = elim (run_callback c s) [
    | none ↦ none
    | some (r, s') ↦ elim (run_session cs s') [ none ↦ none | some (rs, s'') ↦ some (r ∷ rs, s'') ]
  ]
