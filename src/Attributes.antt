-- ===== src/Attributes.antt =====
-- The operations of ProjectWOFuse/src/my_stubs.cc on metadata: `my_fstat`, `my_lstat`, `my_access`,
-- `my_chmod`, `my_chown`, `my_utime`, `my_statvfs`, `my_fdatasync` and `my_fsync`.
-- What goes through a pointer is returned beside the result code.
pub mod Chmod
use cs179f_bbfs_project.Base.{ℕ, Bool, not, Option, none, some, ◌==◌, if◌then◌else◌, Bytes}
use cs179f_bbfs_project.Base.Words.{has_bit}
use cs179f_bbfs_project.Base.Map.{size}
use cs179f_bbfs_project.State.{
  ok, an_err, s_isdir, s_irusr, s_iwusr, s_ixusr, or_ifdir, ebadf, enoent, eacces, Stat, done, M,
  pure, ◌>>=◌, ◌>>◌, has_entry, entry_at, modify_entry, fail, with_mode,
}
use cs179f_bbfs_project.Resolve.{find_real_ino, find_ino}

unfoldable pub my_fstat : ℕ → M (ℕ × Option Stat)
my_fstat fh = λ fs.
    if has_entry fs fh
    then (do f ← entry_at fh; pure (ok, some f.metadata)) fs
    else fail enoent (an_err, none) fs

unfoldable pub my_lstat : Bytes → M (ℕ × Option Stat)
unfolding my_fstat
my_lstat path = do
  fh ← find_real_ino path
  if fh == 0 then fail ebadf (an_err, none) else my_fstat fh

-- Whether a bit of the mode differs from the bit asked for.
abbrev pub differs : ℕ → (mode mask : ℕ) → Bool
differs bit mode mask = if has_bit bit mode then not (has_bit bit mask) else has_bit bit mask

-- The three tests of `my_access`.
unfoldable pub check_access : (mode mask : ℕ) → ℕ
check_access mode mask =
    if differs s_irusr mode mask
    then an_err
    else if differs s_iwusr mode mask
    then an_err
    else if differs s_ixusr mode mask
    then an_err
    else ok

unfoldable pub my_access : Bytes → (mask : ℕ) → M ℕ
unfolding my_fstat check_access
my_access fpath mask = do
  fh ← find_ino fpath
  (err, st) ← my_fstat fh
  elim st [ none ↦ pure an_err | some s ↦ pure (check_access s.st_mode mask) ]

unfoldable pub my_chmod : Bytes → (mode : ℕ) → M ℕ
my_chmod path mode = do
  fh ← find_ino path
  f ← entry_at fh
  let mode' = if s_isdir f.metadata.st_mode then or_ifdir mode else mode
  if fh == 0 then pure an_err else do modify_entry fh (with_mode mode'); pure ok

unfoldable pub my_chown : Bytes → (uid gid : ℕ) → M ℕ
my_chown path uid gid = do
  fh ← find_ino path
  if fh == 0 then pure an_err else do
    modify_entry fh (λ f. record f { metadata = record (f.metadata) { st_uid = uid } })
    modify_entry fh (λ f. record f { metadata = record (f.metadata) { st_gid = gid } })
    pure ok

-- `struct utimbuf`: the access time, then the modification time. None is a null pointer.
unfoldable pub my_utime : Bytes → Option (ℕ × ℕ) → M ℕ
my_utime path none = fail eacces an_err
my_utime path (some (actime, modtime)) = do
  fh ← find_ino path
  if fh == 0 then fail enoent an_err else do
    modify_entry fh (λ f. record f { metadata = record (f.metadata) { st_atime = actime } })
    modify_entry fh (λ f. record f { metadata = record (f.metadata) { st_mtime = modtime } })
    pure ok

-- The members of `struct statvfs` that are set to something but 0: `f_files` and `f_namemax`.
pub record Statvfs : Type 0 where
  pub f_files : ℕ
  pub f_namemax : ℕ

abbrev pub name_max : ℕ
name_max = 255

unfoldable pub my_statvfs : Bytes → (null : Bool) → M (ℕ × Option Statvfs)
my_statvfs fpath null = do
  fh ← find_ino fpath
  if fh == 0 then fail enoent (an_err, none) else if null then pure (an_err, none) else λ fs.
      done (ok, some (record { f_files = size fs.entry; f_namemax = name_max })) fs

unfoldable pub my_fdatasync : ℕ → M ℕ
my_fdatasync fh = pure an_err

unfoldable pub my_fsync : ℕ → M ℕ
my_fsync fh = pure an_err
