-- ===== src/Xattr.antt =====
-- The extended attributes of ProjectWOFuse/src/my_stubs.cc: `my_lsetxattr`, `my_lgetxattr`,
-- `my_llistxattr` and `my_lremovexattr`.
pub mod Laws
pub mod Remove
use cs179f_bbfs_project.Base.{
  ℕ, ◌+◌, Bool, true, false, Option, none, some, List, [], ◌∷◌, ◌++◌, ltb, ◌==◌, if◌then◌else◌,
  length, take, Bytes, c_str,
}
use cs179f_bbfs_project.Base.Words.{as_int}
use cs179f_bbfs_project.Base.Map.{Map, find, insert, erase, bytes_key}
use cs179f_bbfs_project.State.{
  ok, an_err, Errno, enoent, eexist, enoattr, File, Fs, Run, done, M, pure, and_then, ◌>>=◌, ◌>>◌,
  entry_at, modify_entry, fail,
}
use cs179f_bbfs_project.Resolve.{find_real_ino, find_ino}

-- `map::insert` adds a key that is not there, and says whether it did.
unfoldable pub my_lsetxattr : (fpath name value : Bytes) → M ℕ
my_lsetxattr fpath name value = do
  fh ← find_real_ino fpath
  if fh == 0 then fail enoent an_err else do
    f ← entry_at fh
    elim (find name f.xattr) [
      | some old ↦ fail eexist an_err
      | none ↦ do modify_entry fh (λ f. record f { xattr = insert name value f.xattr }); pure ok
    ]

-- The length of the value is returned, and the caller's buffer is not written.
unfoldable pub my_lgetxattr : (fpath name : Bytes) → M ℕ
my_lgetxattr fpath name = do
  fh ← find_real_ino fpath
  if fh == 0 then fail enoent an_err else do
    f ← entry_at fh
    elim (find name f.xattr) [
      | none ↦ pure an_err
      | some value ↦ pure (as_int (length (c_str value)))
    ]

-- The loop of `my_llistxattr`: what it has written to `list`, names that fit each with a NUL. `curPos` is
-- an `int`, and the names are taken not to fill one.
unfoldable pub list_loop : Map Bytes Bytes → (size : ℕ) → Bytes → Bytes
list_loop [] size out = out
list_loop ((name, value) ∷ m) size out =
    let rest = list_loop m size (out ++ (c_str name ++ 0 ∷ [])) in
    if ltb (length out + length (c_str name) + 1) size then rest else out

-- The position reached, which is the number of bytes written, and those bytes.
unfoldable pub my_llistxattr : Bytes → (size : ℕ) → M (ℕ × Bytes)
unfolding list_loop
my_llistxattr path size = do
  fh ← find_real_ino path
  if fh == 0 then fail enoent (an_err, []) else do
    f ← entry_at fh
    pure (as_int (length (list_loop f.xattr size [])), list_loop f.xattr size [])

unfoldable pub my_lremovexattr : (path name : Bytes) → M ℕ
my_lremovexattr path name = do
  fh ← find_ino path
  if fh == 0 then fail enoent an_err else do
    f ← entry_at fh
    elim (find name f.xattr) [
      | none ↦ fail enoattr an_err
      | some value ↦ do modify_entry fh (λ f. record f { xattr = erase name f.xattr }); pure ok
    ]
