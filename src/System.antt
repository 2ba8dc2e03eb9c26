-- ===== src/System.antt =====
-- The file system of ProjectWOFuse/src/my_stubs.cc as a transition system: `initialize`, and then any
-- calls of its operations, in any order.
pub mod Boot
pub mod Safety
use cs179f_bbfs_project.Base.{ℕ, ◌+◌, ◌^◌, ◌<◌, ◌≡◌, Bool, Option, List, Bytes}
use cs179f_bbfs_project.State.{Env, Fs, empty_fs, Run, done, M, and_then, ◌>>=◌, ◌>>◌, pure}
use cs179f_bbfs_project.Resolve.{my_pread, my_readlink}
use cs179f_bbfs_project.Create.{initialize, my_mknod, my_mkdir, my_creat}
use cs179f_bbfs_project.Contents.{my_open, my_close, my_pwrite, my_ftruncate, my_truncate}
use cs179f_bbfs_project.Attributes.{
  my_fstat, my_lstat, my_access, my_chmod, my_chown, my_utime, my_statvfs,
}
use cs179f_bbfs_project.Links.{my_link, my_unlink, my_rmdir, my_symlink, my_rename}
use cs179f_bbfs_project.Xattr.{my_lsetxattr, my_lgetxattr, my_llistxattr, my_lremovexattr}

pub data Call : Type 0 where
  lstat : (path : Bytes) → Call
  fstat : (fh : ℕ) → Call
  mknod : (path : Bytes) (mode : ℕ) → Call
  mkdir : (path : Bytes) (mode : ℕ) → Call
  creat : (path : Bytes) (mode : ℕ) → Call
  link : (path newpath : Bytes) → Call
  unlink : (path : Bytes) → Call
  rmdir : (path : Bytes) → Call
  symlink : (path link : Bytes) → Call
  readlink : (path : Bytes) (room size : ℕ) → Call
  rename : (path newpath : Bytes) → Call
  access : (path : Bytes) (mask : ℕ) → Call
  chmod : (path : Bytes) (mode : ℕ) → Call
  chown : (path : Bytes) (uid gid : ℕ) → Call
  utime : (path : Bytes) (ubuf : Option (ℕ × ℕ)) → Call
  opens : (path : Bytes) (flags : ℕ) → Call
  close : (fh : ℕ) → Call
  pread : (fh room size offset : ℕ) → Call
  pwrite : (fh : ℕ) (buf : Bytes) (size offset : ℕ) → Call
  statvfs : (path : Bytes) (null : Bool) → Call
  setxattr : (path name value : Bytes) → Call
  getxattr : (path name : Bytes) → Call
  listxattr : (path : Bytes) (size : ℕ) → Call
  removexattr : (path name : Bytes) → Call
  ftruncate : (fh offset : ℕ) → Call
  truncate : (path : Bytes) (newsize : ℕ) → Call

-- The state after an operation; its result is dropped.
abbrev pub ends : {A : Type 0} → M A → M (Unit {0})
ends m = m >>= λ _. pure tt

unfoldable pub run_call : Env → Call → M (Unit {0})
run_call env (lstat path) = ends (my_lstat path)
run_call env (fstat fh) = ends (my_fstat fh)
run_call env (mknod path mode) = ends (my_mknod env path mode)
run_call env (mkdir path mode) = ends (my_mkdir env path mode)
run_call env (creat path mode) = ends (my_creat env path mode)
run_call env (link path newpath) = ends (my_link path newpath)
run_call env (unlink path) = ends (my_unlink path)
run_call env (rmdir path) = ends (my_rmdir path)
run_call env (symlink path target) = ends (my_symlink env path target)
run_call env (readlink path room size) = ends (my_readlink path room size)
run_call env (rename path newpath) = ends (my_rename path newpath)
run_call env (access path mask) = ends (my_access path mask)
run_call env (chmod path mode) = ends (my_chmod path mode)
run_call env (chown path uid gid) = ends (my_chown path uid gid)
run_call env (utime path ubuf) = ends (my_utime path ubuf)
run_call env (opens path flags) = ends (my_open env path flags)
run_call env (close fh) = ends (my_close fh)
run_call env (pread fh room size offset) = ends (my_pread fh room size offset)
run_call env (pwrite fh buf size offset) = ends (my_pwrite fh buf size offset)
run_call env (statvfs path null) = ends (my_statvfs path null)
run_call env (setxattr path name value) = ends (my_lsetxattr path name value)
run_call env (getxattr path name) = ends (my_lgetxattr path name)
run_call env (listxattr path size) = ends (my_llistxattr path size)
run_call env (removexattr path name) = ends (my_lremovexattr path name)
run_call env (ftruncate fh offset) = ends (my_ftruncate fh offset)
run_call env (truncate path newsize) = ends (my_truncate path newsize)

-- A handle that is written through was handed out, and a file is not made larger than an `int` counts.
abbrev pub IsAllowed : Fs → Call → Type 0
IsAllowed fs (close fh) = fh < fs.count
IsAllowed fs (pwrite fh buf size offset) = fh < fs.count
IsAllowed fs (ftruncate fh offset) = (fh < fs.count) × (offset < 2 ^ 31)
IsAllowed fs (truncate path newsize) = newsize < 2 ^ 31
IsAllowed fs _ = Unit

pub data Step (env : Env) : Fs → Fs → Type 0 where
  call : {fs gs : Fs} (c : Call) → IsAllowed fs c → run_call env c fs ≡ done tt gs → Step env fs gs

pub data Reach (env : Env) : Fs → Type 0 where
  boot : {fs : Fs} → initialize env empty_fs ≡ done tt fs → Reach env fs
  next : {fs gs : Fs} → Reach env fs → Step env fs gs → Reach env gs
