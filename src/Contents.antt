-- ===== src/Contents.antt =====
-- The operations of ProjectWOFuse/src/my_stubs.cc on open files and their bytes: `my_open`,
-- `my_close`, `my_pwrite`, `my_ftruncate` and `my_truncate`. An `off_t` is its 64-bit pattern.
pub mod Write
pub mod Handles
pub mod Truncate
use cs179f_bbfs_project.Base.{
  ℕ, zero, suc, ◌+◌, ◌-◌, ◌/◌, ◌%◌, ◌^◌, Bool, true, false, not, Option, none, some, List, [], ◌∷◌,
  ◌++◌, ltb, leb, ◌==◌, if◌then◌else◌, length, get_elem?, set, take, replicate, Bytes, c_str,
}
use cs179f_bbfs_project.Base.Words.{as_int, inc64, dec64, is_neg}
use cs179f_bbfs_project.State.{
  ok, an_err, s_isdir, s_isreg, Env, Errno, ebadf, enoent, einval, eisdir, Stat, File, Fs, Run,
  done, fault, M, pure, and_then, ◌>>=◌, ◌>>◌, entry_at, modify_entry, erase_entry, fail,
  with_nlink,
}
use cs179f_bbfs_project.Resolve.{find_ino}
use cs179f_bbfs_project.Create.{my_creat}

-- `O_CREAT`.
abbrev pub o_creat : ℕ
o_creat = 0o100

-- `fh >= 0` on an `ino_t`, which is unsigned.
unfoldable pub my_open : Env → Bytes → (flags : ℕ) → M ℕ
unfolding my_creat
my_open env path flags = do
  fh ← find_ino path
  if leb 0 fh
      then (do modify_entry fh (λ f. with_nlink (inc64 f.metadata.st_nlink) f); pure (as_int fh))
      else if (flags / o_creat) % 2 == 1
      then (do
        err ← my_creat env path 666
        if err == an_err then pure an_err else (do fh' ← find_ino path; pure (as_int fh')))
      else pure an_err

unfoldable pub my_close : ℕ → M ℕ
my_close fh = if fh == 0 then fail enoent an_err else do
  modify_entry fh (λ f. with_nlink (dec64 f.metadata.st_nlink) f)
  f ← entry_at fh
  if f.metadata.st_nlink == 0 then (do erase_entry fh; pure ok) else pure ok

-- `data.resize(n)`: cut, or filled up with zero bytes.
unfoldable pub resize : ℕ → Bytes → Bytes
resize n s = take n s ++ replicate (n - length s) 0

-- `str[j]` on a `std::string`: at its length it is NUL, and beyond it is undefined.
unfoldable pub char_at : Bytes → ℕ → Option ℕ
char_at s j = if j == length s then some 0 else get_elem? s j

-- The loop of `my_pwrite` over the rounds left. `data.at(i)` throws past the end.
unfoldable pub write_loop : ℕ → Bytes → (i : ℕ) → Bytes → (j : ℕ) → Option Bytes
unfolding char_at
write_loop zero s i str j = some s
write_loop (suc n) s i str j =
    if ltb i (length s)
    then elim (char_at str j) [
      | none ↦ none
      | some c ↦ write_loop n (set s i c) (i + 1) str (j + 1)
    ]
    else none

-- The end of `my_pwrite`. The size that is stored and returned is that of the text written.
unfoldable pub finish_write : ℕ → Bytes → Option Bytes → M ℕ
finish_write fh str none = λ fs. fault
finish_write fh str (some s) = do
  modify_entry fh
      (λ f. record f { bytes = s; metadata = record (f.metadata) { st_size = length str } })
  pure (as_int (length str))

-- `new_size` is an `int`. From 2 ^ 31 on `resize` or `at` throws.
unfoldable pub my_pwrite : ℕ → Bytes → (size offset : ℕ) → M ℕ
unfolding write_loop finish_write resize
my_pwrite fh buf size offset = do
  f ← entry_at fh
  let old = length f.bytes
  let start = if ltb old offset then old else offset
  let str = c_str buf
  if fh == 0
      then fail enoent an_err
      else if not (s_isreg f.metadata.st_mode)
      then pure an_err
      else if leb (2 ^ 31) (old + size)
      then (λ fs. fault)
      else finish_write fh str (write_loop size (resize (old + size) f.bytes) start str 0)

unfoldable pub my_ftruncate : ℕ → (offset : ℕ) → M ℕ
unfolding resize
my_ftruncate fh offset =
    if fh == 0 then fail ebadf an_err else if is_neg offset then fail einval an_err else (do
      f ← entry_at fh
      if s_isdir f.metadata.st_mode then fail eisdir an_err else do
        modify_entry fh (λ f. record f {
          bytes = resize offset f.bytes;
          metadata = record (f.metadata) { st_size = length (resize offset f.bytes) };
        })
        pure ok)

unfoldable pub my_truncate : Bytes → (newsize : ℕ) → M ℕ
unfolding my_ftruncate
my_truncate path newsize = if is_neg newsize then fail einval an_err else do
  fh ← find_ino path
  if fh == 0 then fail enoent an_err else do
    f ← entry_at fh
    if s_isdir f.metadata.st_mode then fail eisdir an_err else my_ftruncate fh newsize
