-- ===== src/Fuse/Calls.antt =====
-- The calls of ProjectWFuse/src/my_calls.cc on descriptors and modes: `my_chmod`, `my_close`,
-- `my_fstat`, `my_lstat`, `my_open1` and `my_open2`.
use cs179f_bbfs_project.Base.{ℕ, Option, none, some, ◌==◌, if◌then◌else◌, Bytes}
use cs179f_bbfs_project.Base.Words.{as_int, of_int}
use cs179f_bbfs_project.Base.Map.{find, erase, nat_key}
use cs179f_bbfs_project.Fuse.{
  Call, minus_one, long_minus_one, get_inode_number, file_init, key_at, set_inode,
}

-- A path that leads to no file gives 0 as well.
unfoldable pub my_chmod : (path : Bytes) (mode : ℕ) → Call ℕ
my_chmod path mode t =
    if get_inode_number path t == long_minus_one
    then some (0, t)
    else elim (set_inode (get_inode_number path t) (λ i. record i { i_mode = mode }) t) [
      | none ↦ none
      | some t' ↦ some (0, t')
    ]

unfoldable pub my_close : (fd : ℕ) → Call ℕ
my_close fd t = elim (find (of_int fd) t.my_open_ft) [
  | none ↦ some (minus_one, t)
  | some f ↦ some (0, record t { my_open_ft = erase (of_int fd) t.my_open_ft })
]

-- The result, and what is written to `st_ino` and `st_mode`.
unfoldable pub my_fstat : (fd : ℕ) → Call (ℕ × Option (ℕ × ℕ))
my_fstat fd t = elim (find (of_int fd) t.my_open_ft) [
  | none ↦ some ((minus_one, none), t)
  | some fi ↦ elim (key_at fi.f_inode t.my_ilist) [
    | none ↦ none
    | some (k, i) ↦ some ((0, some (i.i_ino, i.i_mode)), t)
  ]
]

-- The body ends without a `return` where the file is found.
unfoldable pub my_lstat : (path : Bytes) → Call ℕ
my_lstat path t = elim (find (get_inode_number path t) t.my_ilist) [
  | none ↦ some (minus_one, t)
  | some n ↦ none
]

-- Both versions of the call.
unfoldable pub open_with : (pathname : Bytes) (flags mode : ℕ) → Call ℕ
open_with pathname flags mode t =
    if get_inode_number pathname t == long_minus_one
    then some (minus_one, t)
    else elim (find (get_inode_number pathname t) t.my_ilist) [
      | none ↦ some (minus_one, t)
      | some n ↦ let (fd, t') = file_init mode 0 flags n.address t in some (as_int fd, t')
    ]

unfoldable pub my_open1 : (pathname : Bytes) (flags : ℕ) → Call ℕ
unfolding open_with
my_open1 pathname flags = open_with pathname flags 0x644

unfoldable pub my_open2 : (pathname : Bytes) (flags mode : ℕ) → Call ℕ
unfolding open_with
my_open2 pathname flags mode = open_with pathname flags mode
