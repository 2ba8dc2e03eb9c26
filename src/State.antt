-- ===== src/State.antt =====
-- The state of ProjectWOFuse/src/my_stubs.cc: `struct stat`, `dirent`, `File`, `Ilist`, the global
-- and static variables, and the way `ilist.entry[fh]` reads and makes entries.
mod Modes
pub mod View
pub mod Effects
unfoldable pub use Modes.*
use cs179f_bbfs_project.Base.{
  ℕ, ◌+◌, ◌-◌, ◌^◌, Bool, true, false, Option, none, some, List, [], ◌∷◌, ◌++◌, ltb, length, ◌==◌,
  if◌then◌else◌, Bytes,
}
use cs179f_bbfs_project.Base.Map.{Map, find, insert, erase, nat_key}

-- What the operating system answers: `umask`, `geteuid`, `getegid`, `getcwd`, and the successive
-- calls of `time(0)` in one operation.
pub record Env : Type 0 where
  pub umask : ℕ
  pub euid : ℕ
  pub egid : ℕ
  pub time : ℕ → ℕ
  pub working_dir : Bytes

pub data Errno : Type 0 where
  unset : Errno
  ebadf enoent eexist eperm emlink enotdir enotempty eacces enoattr einval eisdir : Errno

pub record Stat : Type 0 where
  pub st_dev : ℕ
  pub st_ino : ℕ
  pub st_mode : ℕ
  pub st_nlink : ℕ
  pub st_uid : ℕ
  pub st_gid : ℕ
  pub st_rdev : ℕ
  pub st_size : ℕ
  pub st_blksize : ℕ
  pub st_blocks : ℕ
  pub st_atime : ℕ
  pub st_mtime : ℕ
  pub st_ctime : ℕ

abbrev pub zero_stat : Stat
zero_stat = record {
  st_dev = 0;
  st_ino = 0;
  st_mode = 0;
  st_nlink = 0;
  st_uid = 0;
  st_gid = 0;
  st_rdev = 0;
  st_size = 0;
  st_blksize = 0;
  st_blocks = 0;
  st_atime = 0;
  st_mtime = 0;
  st_ctime = 0;
}

pub record Dirent : Type 0 where
  pub d_ino : ℕ
  pub d_name : Bytes

-- `class File`; `bytes` is its member `data`.
pub record File : Type 0 where
  pub metadata : Stat
  pub bytes : Bytes
  pub dentries : List Dirent
  pub xattr : Map Bytes Bytes

-- The file that `ilist.entry[fh]` makes for a key that is not there: all its members are zero.
abbrev pub new_file : File
new_file = record { metadata = zero_stat; bytes = []; dentries = []; xattr = [] }

-- `ilist.entry`, the static counter of `Ilist::next`, the static `first_time` of `my_mknod`,
-- `errno`, and `cwd`.
pub record Fs : Type 0 where
  pub entry : Map ℕ File
  pub count : ℕ
  pub first_time : Bool
  pub errno : Errno
  pub cwd : Bytes

abbrev pub empty_fs : Fs
empty_fs = record { entry = []; count = 2; first_time = true; errno = unset; cwd = [] }

-- A fault is undefined behaviour (a buffer overrun, an overflowing counter) or an exception that
-- nothing catches. `out_of_fuel` is a loop that was given too few rounds.
pub data Run (A : Type 0) : Type 0 where
  done : A → Fs → Run A
  fault : Run A
  out_of_fuel : Run A

abbrev pub M : Type 0 → Type 0
M A = Fs → Run A

abbrev pub pure : {A : Type 0} → A → M A
pure a fs = done a fs

module _ {A B : Type 0} where
  abbrev pub and_then : Run A → (A → M B) → Run B
  and_then (done a fs) k = k a fs
  and_then fault k = fault
  and_then out_of_fuel k = out_of_fuel

  infixl 5 ◌>>=◌ ◌>>◌
  abbrev pub ◌>>=◌ : M A → (A → M B) → M B
  m >>= k = λ fs. and_then (m fs) k

  abbrev pub ◌>>◌ : M A → M B → M B
  m >> n = m >>= λ _. n

-- `ilist.entry.count(fh) != 0`.
abbrev pub has_entry : Fs → ℕ → Bool
has_entry fs fh = elim (find fh fs.entry) [ none ↦ false | some f ↦ true ]

-- The file that `ilist.entry[fh]` refers to.
unfoldable pub file_at : Fs → ℕ → File
file_at fs fh = elim (find fh fs.entry) [ none ↦ new_file | some f ↦ f ]

-- `ilist.entry[fh]` makes the entry where there is none.
unfoldable pub touch : ℕ → Fs → Fs
touch fh fs = elim (find fh fs.entry) [
  | none ↦ record fs { entry = insert fh new_file fs.entry }
  | some f ↦ fs
]

-- `ilist.entry[fh]`, read.
abbrev pub entry_at : ℕ → M File
entry_at fh fs = done (file_at fs fh) (touch fh fs)

-- A write through `ilist.entry[fh]`.
unfoldable pub update : ℕ → (File → File) → Fs → Fs
update fh g fs = record fs { entry = insert fh (g (file_at fs fh)) fs.entry }

abbrev pub modify_entry : ℕ → (File → File) → M (Unit {0})
modify_entry fh g fs = done tt (update fh g fs)

-- `ilist.entry.erase(fh)`.
unfoldable pub forget : ℕ → Fs → Fs
forget fh fs = record fs { entry = erase fh fs.entry }

abbrev pub erase_entry : ℕ → M (Unit {0})
erase_entry fh fs = done tt (forget fh fs)

abbrev pub set_errno : Errno → M (Unit {0})
set_errno e fs = done tt (record fs { errno = e })

-- An error return: `errno` is set, and the result is given back.
abbrev pub fail : {A : Type 0} → Errno → A → M A
fail e a fs = done a (record fs { errno = e })

-- `Ilist::next`. The counter is an `int`, so counting past its largest value is a fault.
unfoldable pub next : M ℕ
next fs =
    if fs.count == 2 ^ 31 - 1 then fault else done fs.count (record fs { count = fs.count + 1 })

-- The parts of a file that the operations assign to.
abbrev pub with_mode : ℕ → File → File
with_mode mode f = record f { metadata = record (f.metadata) { st_mode = mode } }

abbrev pub with_nlink : ℕ → File → File
with_nlink n f = record f { metadata = record (f.metadata) { st_nlink = n } }

abbrev pub push_dentry : Dirent → File → File
push_dentry d f = record f { dentries = f.dentries ++ d ∷ [] }

-- The room for a name in a `dirent_frame`: 261 bytes of the `dirent` from `d_name` on, and the 255
-- of `overflow`.
abbrev pub name_room : ℕ
name_room = 516

-- A `dirent_frame` with the number and the name copied in.
unfoldable pub dirent_frame : ℕ → Bytes → M Dirent
dirent_frame ino name =
    if ltb (length name) name_room then pure (record { d_ino = ino; d_name = name }) else λ fs.
    fault
