-- ===== src/Bbfs.antt =====
-- The FUSE callbacks of ProjectWFuse/src/bbfs.c: `bb_error` and `bb_fullpath`, and what the callbacks
-- share. The host's system calls are a parameter.
pub mod Paths
pub mod Handles
pub mod Session
pub mod Jail
pub mod Errors
pub mod Readdir
pub mod Create
pub mod Main
use cs179f_bbfs_project.Base.{
  ℕ, ◌+◌, ◌-◌, ◌%◌, ◌^◌, Bool, Option, none, some, [], ◌++◌, ltb, leb, if◌then◌else◌, length, Bytes,
}
use cs179f_bbfs_project.Fuse.{Tables}

-- What a system call on the host does: a result, and the host after it.
abbrev pub Sys : Type 0 → Type 0 → Type 0
Sys World A = World → A × World

-- The calls that the callbacks make. An `int` or a pointer is its bit pattern, a `ssize_t` too, a
-- structure is its bytes, and a call that writes to a buffer also gives what it writes.
pub record Host (World : Type 0) : Type 0 where
  pub errno : World → ℕ
  -- Whether the build defines `HAVE_FDATASYNC`.
  pub has_fdatasync : Bool
  pub lstat : Bytes → Sys World (ℕ × Bytes)
  pub readlink : Bytes → ℕ → Sys World (ℕ × Bytes)
  pub open_mode : Bytes → (flags mode : ℕ) → Sys World ℕ
  pub open_file : Bytes → (flags : ℕ) → Sys World ℕ
  pub mkfifo : Bytes → ℕ → Sys World ℕ
  pub mknod : Bytes → (mode dev : ℕ) → Sys World ℕ
  pub mkdir : Bytes → ℕ → Sys World ℕ
  pub unlink : Bytes → Sys World ℕ
  pub rmdir : Bytes → Sys World ℕ
  pub symlink : (target link : Bytes) → Sys World ℕ
  pub rename : Bytes → Bytes → Sys World ℕ
  pub link : Bytes → Bytes → Sys World ℕ
  pub chmod : Bytes → ℕ → Sys World ℕ
  pub chown : Bytes → (uid gid : ℕ) → Sys World ℕ
  pub truncate : Bytes → ℕ → Sys World ℕ
  pub utime : Bytes → Bytes → Sys World ℕ
  pub statvfs : Bytes → Sys World (ℕ × Bytes)
  pub lsetxattr : Bytes → (name value : Bytes) → (size flags : ℕ) → Sys World ℕ
  pub lgetxattr : Bytes → (name : Bytes) → (size : ℕ) → Sys World (ℕ × Bytes)
  pub llistxattr : Bytes → (size : ℕ) → Sys World (ℕ × Bytes)
  pub lremovexattr : Bytes → (name : Bytes) → Sys World ℕ
  pub access : Bytes → (mask : ℕ) → Sys World ℕ
  -- NULL is 0.
  pub opendir : Bytes → Sys World ℕ
  pub pread : (fd size offset : ℕ) → Sys World (ℕ × Bytes)
  pub pwrite : (fd : ℕ) → Bytes → (size offset : ℕ) → Sys World ℕ
  pub close_fd : (fd : ℕ) → Sys World ℕ
  pub fsync : (fd : ℕ) → Sys World ℕ
  pub fdatasync : (fd : ℕ) → Sys World ℕ
  pub ftruncate : (fd size : ℕ) → Sys World ℕ
  pub fstat : (fd : ℕ) → Sys World (ℕ × Bytes)
  pub readdir : (dp : ℕ) → Sys World (Option Bytes)
  pub closedir : (dp : ℕ) → Sys World ℕ

-- The host, and the tables of my_calls.cc.
pub record Mounted (World : Type 0) : Type 0 where
  pub world : World
  pub tables : Tables

-- What libfuse gets: the result, what was written to its buffer, and the `fh` that was stored.
pub record Reply : Type 0 where
  pub retstat : ℕ
  pub out : Bytes
  pub fh : Option ℕ

abbrev pub plain : ℕ → Reply
plain r = record { retstat = r; out = []; fh = none }

-- A callback gives no result where the behaviour is undefined.
abbrev pub Act : Type 0 → Type 0 → Type 0
Act World A = Mounted World → Option (A × Mounted World)

-- `x < 0` on an `int`, and `-x`.
abbrev pub is_error : ℕ → Bool
is_error r = leb (2 ^ 31) r

abbrev pub minus : ℕ → ℕ
minus r = (2 ^ 32 - r % 2 ^ 32) % 2 ^ 32

abbrev pub path_max : ℕ
path_max = 4096

module _ {World : Type 0} (h : Host World) where
  unfoldable pub bb_error : World → ℕ
  bb_error w = minus (h.errno w)

  -- The result of a call, or minus `errno` where it is negative.
  unfoldable pub checked : Sys World ℕ → Act World Reply
  unfolding bb_error
  checked call s =
      let (r, w) = call s.world in
      some (plain (if is_error r then bb_error w else r), record s { world = w })

  -- The same for a call that writes to libfuse's buffer.
  unfoldable pub checked_data : Sys World (ℕ × Bytes) → Act World Reply
  unfolding bb_error
  checked_data call s =
      let ((r, out), w) = call s.world in
      some (
        record { retstat = if is_error r then bb_error w else r; out = out; fh = none },
        record s { world = w },
      )

  -- The result of a call as it is, also where it is negative.
  unfoldable pub unchecked : Sys World ℕ → Act World Reply
  unchecked call s = let (r, w) = call s.world in some (plain r, record s { world = w })

-- The path of a file on the host. Undefined where `realpath` gave no root, or where the path does not
-- fit in `fpath`.
unfoldable pub bb_fullpath : (rootdir : Option Bytes) (path : Bytes) → Option Bytes
bb_fullpath none path = none
bb_fullpath (some root) path =
    if ltb (length root + length path) path_max then some (root ++ path) else none

-- A callback on the path of a file on the host.
unfoldable pub on_path :
    {World : Type 0} (rootdir : Option Bytes) (path : Bytes)
    → (Bytes → Act World Reply)
    → Act World Reply
unfolding bb_fullpath
on_path rootdir path next s = elim (bb_fullpath rootdir path) [
  | none ↦ none
  | some fpath ↦ next fpath s
]

unfoldable pub on_paths :
    {World : Type 0} (rootdir : Option Bytes) (path newpath : Bytes)
    → (Bytes → Bytes → Act World Reply)
    → Act World Reply
unfolding on_path
on_paths rootdir path newpath next =
    on_path rootdir path (λ fpath. on_path rootdir newpath (next fpath))
