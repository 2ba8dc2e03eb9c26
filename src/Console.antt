-- ===== src/Console.antt =====
-- The commands of `main` in ProjectWOFuse/src/my_stubs.cc that call the operations, with the input that
-- they were given: numbers, and words without NUL. Dialog reads that input, and Loop is `main`. What
-- these commands print is left out.
pub mod Safety
pub mod Input
pub mod Listing
pub mod Dialog
pub mod Loop
pub mod Replay
pub mod Looks
pub mod Sound
pub mod Ends
use cs179f_bbfs_project.Base.{
  ℕ, ◌+◌, ◌-◌, ◌^◌, Bool, true, false, ◌&&◌, Option, none, some, List, [], ◌∷◌, ltb, if◌then◌else◌,
  length, Bytes, codes,
}
use cs179f_bbfs_project.Base.Words.{as_int, of_int}
use cs179f_bbfs_project.State.{Env, Fs, Run, done, fault, M, pure, and_then, ◌>>=◌, ◌>>◌, entry_at}
use cs179f_bbfs_project.Resolve.{find_ino, my_pread, my_readlink}
use cs179f_bbfs_project.Create.{my_mkdir, my_creat}
use cs179f_bbfs_project.Contents.{my_pwrite, my_truncate}
use cs179f_bbfs_project.Attributes.{my_lstat, my_access, my_chmod, my_chown, my_utime, my_statvfs}
use cs179f_bbfs_project.Links.{my_link, my_unlink, my_rmdir, my_symlink, my_rename}
use cs179f_bbfs_project.Xattr.{my_lsetxattr, my_lgetxattr, my_llistxattr, my_lremovexattr}

-- The commands up to `access`.
pub data BasicCommand : Type 0 where
  mkdir : (file : Bytes) (mode : ℕ) → BasicCommand
  rmdir : (file : Bytes) → BasicCommand
  show : (file : Bytes) → BasicCommand
  lstat : (file : Bytes) → BasicCommand
  creat : (file : Bytes) (mode : ℕ) → BasicCommand
  chown : (file : Bytes) (u g : ℕ) → BasicCommand
  chmod : (file : Bytes) (mode : ℕ) → BasicCommand
  access : (file : Bytes) (mode : ℕ) → BasicCommand

-- The commands from `link` to `utime`. The numbers are patterns of an `int`.
pub data FileCommand : Type 0 where
  link : (file newpath : Bytes) → FileCommand
  unlink : (file : Bytes) → FileCommand
  rename : (file newpath : Bytes) → FileCommand
  pread : (file : Bytes) (offset size : ℕ) → FileCommand
  pwrite : (file : Bytes) (offset : ℕ) (data_line : Bytes) → FileCommand
  symlink : (file target : Bytes) → FileCommand
  readlink : (file : Bytes) → FileCommand
  utime : (file : Bytes) (actime modtime : ℕ) → FileCommand

-- The commands from `truncate` on.
pub data LastCommand : Type 0 where
  truncate : (file : Bytes) (n : ℕ) → LastCommand
  statvfs : (file : Bytes) → LastCommand
  lsetxattr : (file name val : Bytes) → LastCommand
  lgetxattr : (file name : Bytes) → LastCommand
  lremovexattr : (file name : Bytes) → LastCommand
  llistxattr : (file : Bytes) → LastCommand

-- The result of a call is dropped or printed.
abbrev pub drops : {A : Type 0} → M A → M (Unit {0})
drops m = m >>= λ _. pure tt

-- A result that is printed. Where it was never set the behaviour is undefined.
abbrev pub printed : {A : Type 0} → Option A → M (Unit {0})
printed none = λ fs. fault
printed (some a) = pure tt

unfoldable pub run_basic : Env → BasicCommand → M (Unit {0})
run_basic env (mkdir file mode) = drops (my_mkdir env file mode)
run_basic env (rmdir file) = drops (my_rmdir file)
run_basic env (show file) = find_ino file >>= λ fh. drops (entry_at (as_int fh))
run_basic env (lstat file) = my_lstat file >>= λ r. printed (r.1)
run_basic env (creat file mode) = drops (my_creat env file mode)
run_basic env (chown file u g) = drops (my_chown file u g)
run_basic env (chmod file mode) = drops (my_chmod file mode)
run_basic env (access file mode) = drops (my_access file mode)

-- The buffer of `pread` has one byte more than the size, which is added as an `int`: where the sum is
-- not positive there is no such array. It is printed, also where nothing was written to it. The buffer
-- of `readlink` has 20 bytes.
unfoldable pub run_file : Env → FileCommand → M (Unit {0})
run_file env (link file newpath) = drops (my_link file newpath)
run_file env (unlink file) = drops (my_unlink file)
run_file env (rename file newpath) = drops (my_rename file newpath)
run_file env (pread file offset size) =
    if ltb size (2 ^ 31 - 1)
    then (find_ino file >>= λ fh.
        my_pread (as_int fh) (size + 1) (of_int size) (of_int offset) >>= λ r. printed (r.1))
    else (λ fs. fault)
run_file env (pwrite file offset data_line) = find_ino file >>= λ fh.
    drops (my_pwrite (as_int fh) data_line (length data_line) (of_int offset))
run_file env (symlink file target) = drops (my_symlink env file target)
run_file env (readlink file) = drops (my_readlink file 20 20)
run_file env (utime file actime modtime) = drops (my_utime file (some (actime, modtime)))

-- `print_xattr_list` reads the byte before its buffer if it is given any.
unfoldable pub print_xattr_list : (size : ℕ) → M (Unit {0})
print_xattr_list size = if ltb 0 size && ltb size (2 ^ 31) then (λ fs. fault) else pure tt

unfoldable pub run_last : Env → LastCommand → M (Unit {0})
unfolding print_xattr_list
run_last env (truncate file n) = drops (my_truncate file (of_int n))
run_last env (statvfs file) = my_statvfs file false >>= λ r. printed (r.1)
run_last env (lsetxattr file name val) = drops (my_lsetxattr file name val)
run_last env (lgetxattr file name) = drops (my_lgetxattr file name)
run_last env (lremovexattr file name) = drops (my_lremovexattr file name)
run_last env (llistxattr file) = my_llistxattr file 100 >>= λ r. print_xattr_list (r.0)

pub data Command : Type 0 where
  basic : BasicCommand → Command
  on_file : FileCommand → Command
  last : LastCommand → Command

unfoldable pub run_command : Env → Command → M (Unit {0})
unfolding run_basic run_file run_last
run_command env (basic c) = run_basic env c
run_command env (on_file c) = run_file env c
run_command env (last c) = run_last env c
