-- ===== src/Console/Safety.antt =====
-- The commands of `main` in ProjectWOFuse/src/my_stubs.cc keep the file system well-formed.
use cs179f_bbfs_project.Base.{
  Option, none, false, ◌-◌, ℕ, ◌+◌, ◌^◌, ◌<◌, ◌≡◌, inl, inr, true, some, Bool-cases, Bytes, arith,
  ltb, ◌&&◌, length,
}
use cs179f_bbfs_project.Base.Words.{as_int, of_int, is_neg}
use cs179f_bbfs_project.State.{and_then, Run, einval, Env, Fs, Run}
use cs179f_bbfs_project.Invariant.{Ensures, returns, faults, bind}
use cs179f_bbfs_project.Invariant.Rules.{
  IsGood, Good, IsGood-errno, IsGood-touch, find_then, branch,
}
use cs179f_bbfs_project.Invariant.Attributes.{
  my_lstat-Good, my_access-Good, my_chmod-Good, my_chown-Good, my_utime-Good, my_statvfs-Good,
}
use cs179f_bbfs_project.Invariant.Contents.{my_pwrite-Good, my_truncate-Good}
use cs179f_bbfs_project.Invariant.Create.{my_mkdir-Good, my_creat-Good}
use cs179f_bbfs_project.Invariant.Links.{
  my_link-Good, my_unlink-Good, my_rmdir-Good, my_symlink-Good, my_rename-Good,
}
use cs179f_bbfs_project.Invariant.Xattr.{
  my_lsetxattr-Good, my_lgetxattr-Good, my_llistxattr-Good, my_lremovexattr-Good,
}
use cs179f_bbfs_project.System.Safety.{my_pread-Good, my_readlink-Good, ends-Good}
use cs179f_bbfs_project.Contents.{my_truncate}
use cs179f_bbfs_project.Console.{
  printed, BasicCommand, mkdir, rmdir, show, lstat, creat, chown, chmod, access, FileCommand, link,
  unlink, rename, pread, pwrite, symlink, readlink, utime, LastCommand, truncate, statvfs,
  lsetxattr, lgetxattr, lremovexattr, llistxattr, run_basic, run_file, run_last, print_xattr_list,
  Command, basic, on_file, last, run_command,
}

int_below : (fh count : ℕ) → fh < count → as_int fh < count
int_below fh count h = omega arith

-- A negative size is refused.
truncated-Good :
    {n : ℕ} {fs : Fs}
    → IsGood n fs
    → (file : Bytes) (m : ℕ) → Ensures (Good n) (my_truncate file (of_int m) fs)
unfolding my_truncate
truncated-Good g file m = elim (Bool-cases (ltb m (2 ^ 31))) [
  | inl small ↦ let e : of_int m < 2 ^ 31 = ground arith in my_truncate-Good g file (of_int m) e
  | inr large ↦
      let negative : is_neg (of_int m) ≡ true = ground arith in
      rw negative (returns (IsGood-errno g einval))
]

printed-Good :
    {A B : Type 0} {n : ℕ} {r : Run (B × Option A)}
    → Ensures (Good n) r
    → Ensures (Good n) (and_then r (λ q. printed (q.1)))
printed-Good e = bind e λ q gs g. shown (q.1) g
  where
    shown :
        {A : Type 0} {n : ℕ} {gs : Fs} (o : Option A)
        → IsGood n gs
        → Ensures (Good n) (printed o gs)
    shown none g = faults
    shown (some a) g = returns g

module _ {n : ℕ} {fs : Fs} (g : IsGood n fs) (env : Env) where
  run_basic-Good : (c : BasicCommand) → Ensures (Good n) (run_basic env c fs)
  unfolding run_basic
  run_basic-Good (mkdir file mode) = ends-Good g (my_mkdir-Good g env file mode)
  run_basic-Good (rmdir file) = ends-Good g (my_rmdir-Good g file)
  run_basic-Good (show file) =
      find_then g file λ fh gs g' same lt. returns (IsGood-touch g' (as_int fh))
  run_basic-Good (lstat file) = printed-Good (my_lstat-Good g file)
  run_basic-Good (creat file mode) = ends-Good g (my_creat-Good g env file mode)
  run_basic-Good (chown file u v) = ends-Good g (my_chown-Good g file u v)
  run_basic-Good (chmod file mode) = ends-Good g (my_chmod-Good g file mode)
  run_basic-Good (access file mode) = ends-Good g (my_access-Good g file mode)

  run_file-Good : (c : FileCommand) → Ensures (Good n) (run_file env c fs)
  unfolding run_file
  run_file-Good (link file newpath) = ends-Good g (my_link-Good g file newpath)
  run_file-Good (unlink file) = ends-Good g (my_unlink-Good g file)
  run_file-Good (rename file newpath) = ends-Good g (my_rename-Good g file newpath)
  run_file-Good (pread file offset size) =
      branch (ltb size (2 ^ 31 - 1)) _ _
        (λ some_size. find_then g file λ fh gs g' same lt.
          printed-Good (my_pread-Good g' (as_int fh) (size + 1) (of_int size) (of_int offset)))
        (λ no_size. faults)
  run_file-Good (pwrite file offset line) = find_then g file λ fh gs g' same lt.
      ends-Good g' (
        my_pwrite-Good g' (as_int fh) line (length line) (of_int offset) (int_below fh gs.count lt))
  run_file-Good (symlink file target) = ends-Good g (my_symlink-Good g env file target)
  run_file-Good (readlink file) = ends-Good g (my_readlink-Good g file 20 20)
  run_file-Good (utime file a m) = ends-Good g (my_utime-Good g file (some (a, m)))

  run_last-Good : (c : LastCommand) → Ensures (Good n) (run_last env c fs)
  unfolding run_last print_xattr_list
  run_last-Good (truncate file m) = ends-Good g (truncated-Good g file m)
  run_last-Good (statvfs file) = printed-Good (my_statvfs-Good g file false)
  run_last-Good (lsetxattr file name val) = ends-Good g (my_lsetxattr-Good g file name val)
  run_last-Good (lgetxattr file name) = ends-Good g (my_lgetxattr-Good g file name)
  run_last-Good (lremovexattr file name) = ends-Good g (my_lremovexattr-Good g file name)
  run_last-Good (llistxattr file) = bind (my_llistxattr-Good g file 100) λ r gs g'.
      branch (ltb 0 (r.0) && ltb (r.0) (2 ^ 31)) _ _ (λ some_bytes. faults) (λ no_bytes. returns g')

  pub run_command-Good : (c : Command) → Ensures (Good n) (run_command env c fs)
  unfolding run_command
  run_command-Good (basic c) = run_basic-Good c
  run_command-Good (on_file c) = run_file-Good c
  run_command-Good (last c) = run_last-Good c
