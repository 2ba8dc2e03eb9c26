-- ===== src/Resolve.antt =====
-- Directories, path resolution and symbolic links in ProjectWOFuse/src/my_stubs.cc: `fopendir`,
-- `my_readdir`, `lookup`, `find_real_ino`, `my_pread`, `my_readlink` and `find_ino`.
-- The pointer that `my_readdir` returns is read as the entry that it points to.
pub mod View
pub mod Quiet
pub mod Read
pub mod Follow
pub mod Compose
pub mod Grow
pub mod NewName
pub mod Keeps
use cs179f_bbfs_project.Base.{
  ℕ, zero, suc, ◌+◌, ◌≡◌, Bool, true, false, not, Option, none, some, List, [], ◌∷◌, ltb, leb, ◌==◌,
  if◌then◌else◌, length, get_elem?, take, drop, Bytes, bytes_beq, c_str,
}
use cs179f_bbfs_project.Base.Words.{as_int, of_int, slt, add64, sub64}
use cs179f_bbfs_project.State.{
  an_err, ok, err_ino, s_isdir, s_islnk, Errno, enoent, Dirent, File, Fs, Run, done, fault,
  out_of_fuel, M, pure, and_then, ◌>>=◌, ◌>>◌, has_entry, file_at, touch, entry_at, fail,
}
use cs179f_bbfs_project.Path.{slash, split}

-- `MY_DIR`.
pub record MyDir : Type 0 where
  pub fh : ℕ
  pub index : ℕ

-- No directory stands for the null pointer.
unfoldable pub fopendir : ℕ → M (Option MyDir)
fopendir fh = do
  f ← entry_at fh
  if s_isdir f.metadata.st_mode then pure (some (record { fh = fh; index = 0 })) else pure none

-- The next entry and the stream behind it. At the end there is no entry; a read past the end leaves
-- the vector.
unfoldable pub my_readdir : MyDir → M (Option Dirent × MyDir)
my_readdir dirp = do
  f ← entry_at dirp.fh
  let v = f.dentries
  let tmp = dirp.index
  let dirp' : MyDir = record { fh = dirp.fh; index = tmp + 1 }
  if tmp == length v
      then pure (none, dirp')
      else elim (get_elem? v tmp) [ none ↦ λ fs. fault | some d ↦ pure (some d, dirp') ]

-- The loop of `lookup`.
lookup_loop : ℕ → Bytes → MyDir → M ℕ
lookup_loop zero name dirp = λ fs. out_of_fuel
lookup_loop (suc k) name dirp = do
  (dp, dirp') ← my_readdir dirp
  elim dp [
    | none ↦ pure 0
    | some d ↦ if bytes_beq d.d_name name then pure d.d_ino else lookup_loop k name dirp'
  ]

-- One round for each entry and one for the end are enough.
unfoldable pub lookup : Bytes → ℕ → M ℕ
unfolding lookup_loop fopendir my_readdir
lookup name fh = do
  dirp ← fopendir fh
  elim dirp [
    | none ↦ pure 0
    | some d ↦ λ fs. lookup_loop (length (file_at fs fh).dentries + 1) name d fs
  ]

-- The loop of `find_real_ino` over the segments.
find_loop : List Bytes → ℕ → M ℕ
find_loop [] fh = pure fh
find_loop (it ∷ v) fh = λ fs.
    let rest = find_loop v fh fs in
    let no_entry = fail enoent 0 fs in
    let enter = (do fh' ← lookup it fh; find_loop v fh') fs in
    if bytes_beq it []
    then rest
    else if has_entry fs fh
    then if s_isdir (file_at fs fh).metadata.st_mode then enter else done 0 fs
    else no_entry

abbrev pub root_ino : ℕ
root_ino = 2

-- The path that `find_real_ino` puts behind `cwd` goes to its messages alone.
unfoldable pub find_real_ino : Bytes → M ℕ
unfolding find_loop lookup
find_real_ino path = find_loop (split path slash) root_ino

-- `s.substr(pos, n)`, which throws if `pos` is past the end.
unfoldable pub substr : Bytes → ℕ → ℕ → Option Bytes
substr s pos n = if ltb (length s) pos then none else some (take n (drop pos s))

-- `strcpy` into a buffer of `room` bytes. The result is the C string that the buffer then holds.
unfoldable pub strcpy : ℕ → Option Bytes → ℕ → M (ℕ × Option Bytes)
strcpy room none ret = λ fs. fault
strcpy room (some s) ret =
    if ltb (length (c_str s)) room then pure (ret, some (c_str s)) else λ fs. fault

-- The number returned, and what `buf`, of `room` bytes, then holds, if it was written.
unfoldable pub my_pread : ℕ → (room : ℕ) → (size offset : ℕ) → M (ℕ × Option Bytes)
unfolding substr strcpy
my_pread fh room size offset = do
  f ← entry_at fh
  let file_len = of_int (as_int (length f.bytes))
  if s_isdir f.metadata.st_mode
      then pure (an_err, none)
      else if slt file_len offset
      then pure (an_err, none)
      else if ltb file_len (sub64 (add64 offset size) 1)
      then strcpy room (substr f.bytes offset (length f.bytes)) (as_int (sub64 file_len offset))
      else strcpy room (substr f.bytes offset size) (as_int size)

unfoldable pub my_readlink : Bytes → (room : ℕ) → (size : ℕ) → M (ℕ × Option Bytes)
unfolding find_real_ino my_pread
my_readlink path room size = do
  fh ← find_real_ino path
  if fh == 0 then pure (an_err, none) else do
    f ← entry_at fh
    if not (s_islnk f.metadata.st_mode) then pure (an_err, none) else do
      (err, link) ← my_pread fh room size 0
      pure (if err == an_err then an_err else ok, link)

-- `char link[50]`.
abbrev pub link_room : ℕ
link_room = 50

-- Where the text in `link` leads. It is written whenever `my_readlink` succeeds.
follow : Option Bytes → M ℕ
follow none = λ fs. fault
follow (some target) = find_real_ino target

-- Follows the path, and one symbolic link at its end.
unfoldable pub find_ino : Bytes → M ℕ
unfolding find_real_ino my_readlink follow
find_ino path = do
  fh ← find_real_ino path
  f ← entry_at fh
  if not (s_islnk f.metadata.st_mode) then pure fh else do
    (err, link) ← my_readlink path link_room 50
    if err == an_err then pure err_ino else follow link

unfoldable pub my_opendir : Bytes → M (Option MyDir)
unfolding fopendir
my_opendir path = do fh ← find_ino path; fopendir fh
