-- ===== src/Fuse.antt =====
-- The file system of ProjectWFuse/src/my_calls.cc: `my_inode`, `my_file`, the tables `my_ilist` and
-- `my_openFT`, and the helpers `split`, `get_inode_number`, `inode_init` and `file_init`.
-- A call gives no result where the source's behaviour is undefined or an exception leaves it.
pub mod Calls
pub mod Transfer
pub mod Names
pub mod Laws
pub mod Creat
pub mod Invariant
pub mod Session
pub mod Rootless
use mathlib.Core.Option
use cs179f_bbfs_project.Base.{
  ℕ, zero, suc, ◌+◌, ◌%◌, ◌^◌, Bool, Option, none, some, List, [], ◌∷◌, ◌++◌, ltb, ◌==◌,
  if◌then◌else◌, length, take, drop, Bytes, bytes_beq,
}
use cs179f_bbfs_project.Base.Words.{add64}
use cs179f_bbfs_project.Base.Map.{Map, find, insert, nat_key}
use cs179f_bbfs_project.State.{Dirent}
use cs179f_bbfs_project.Path.{slash, find_byte}

pub record Inode : Type 0 where
  pub i_ino : ℕ
  pub i_mode : ℕ
  pub buf : Bytes
  pub dirent_buf : List Dirent

-- An entry of `my_ilist`, with the address that pointers to it hold. No two entries ever made have
-- the same address, so a pointer to an erased one leads nowhere.
pub record Node : Type 0 where
  pub address : ℕ
  pub inode : Inode

-- `f_inode` is an address.
pub record OpenFile : Type 0 where
  pub f_desc : ℕ
  pub f_mode : ℕ
  pub f_pos : ℕ
  pub flags : ℕ
  pub f_count : ℕ
  pub f_inode : ℕ

pub record Tables : Type 0 where
  pub my_ilist : Map ℕ Node
  pub my_open_ft : Map ℕ OpenFile
  pub addresses : ℕ

abbrev pub no_tables : Tables
no_tables = record { my_ilist = []; my_open_ft = []; addresses = 0 }

abbrev pub Call : Type 0 → Type 0
Call A = Tables → Option (A × Tables)

-- -1 as an `int`, and as a `long`.
abbrev pub minus_one : ℕ
minus_one = 0xffffffff

abbrev pub long_minus_one : ℕ
long_minus_one = 0xffffffffffffffff

-- A part that is not empty is put into the vector.
unfoldable pub push_part : Bytes → List Bytes → List Bytes
push_part c v = if bytes_beq c [] then v else c ∷ v

unfoldable pub split_loop : ℕ → Bytes → ℕ → ℕ → List Bytes
unfolding push_part
split_loop zero s pat i = []
split_loop (suc k) s pat i = elim (find_byte pat (drop i s)) [
  | none ↦ push_part (drop i s) []
  | some t ↦ push_part (take t (drop i s)) (split_loop k s pat (i + t + 1))
]

unfoldable pub split : Bytes → ℕ → List Bytes
unfolding split_loop
split s pat = split_loop (length s + 1) s pat 0

-- The number of the first entry with the name.
unfoldable pub find_dirent : Bytes → List Dirent → ℕ
find_dirent name [] = long_minus_one
find_dirent name (d ∷ ds) = if bytes_beq name d.d_name then d.d_ino else find_dirent name ds

-- The loop of `get_inode_number` over the names left.
unfoldable pub walk : List Bytes → Inode → Map ℕ Node → ℕ
unfolding find_dirent
walk [] temp ilist = temp.i_ino
walk (it ∷ names) temp ilist =
    let next : ℕ = elim (find (find_dirent it temp.dirent_buf) ilist) [
      | none ↦ long_minus_one
      | some n ↦ walk names n.inode ilist
    ] in
    if find_dirent it temp.dirent_buf == long_minus_one then long_minus_one else next

unfoldable pub get_inode_number : Bytes → Tables → ℕ
unfolding split walk
get_inode_number pathname t = elim (find 0 t.my_ilist) [
  | none ↦ long_minus_one
  | some root ↦ walk (split pathname slash) root.inode t.my_ilist
]

unfoldable pub max_inode : Map ℕ Node → ℕ → ℕ
max_inode [] m = m
max_inode ((k, n) ∷ ilist) m = max_inode ilist (if ltb m n.inode.i_ino then n.inode.i_ino else m)

unfoldable pub max_fd : Map ℕ OpenFile → ℕ → ℕ
max_fd [] m = m
max_fd ((k, f) ∷ files) m = max_fd files (if ltb m f.f_desc then f.f_desc else m)

-- `map::insert` leaves an entry that is there.
abbrev pub insert_new {ℓ} : {A : Type ℓ} → ℕ → A → Map ℕ A → Map ℕ A
insert_new k a m = elim (find k m) [ none ↦ insert k a m | some old ↦ m ]

-- The number of the new inode, and the tables with it.
unfoldable pub inode_init : (i_m : ℕ) → Tables → ℕ × Tables
unfolding max_inode
inode_init i_m t =
    let i_ino = add64 (max_inode t.my_ilist 0) 1 in
    (
      i_ino,
      record t {
        my_ilist =
            insert_new i_ino
              (record {
                address = t.addresses;
                inode = record { i_ino = i_ino; i_mode = i_m; buf = []; dirent_buf = [] };
              })
              t.my_ilist;
        addresses = t.addresses + 1;
      },
    )

-- The descriptor of the new open file, and the tables with it. `flags` is an `unsigned short`.
unfoldable pub file_init : (m pos flags i : ℕ) → Tables → ℕ × Tables
unfolding max_fd
file_init m pos flags i t =
    let f_desc = add64 (max_fd t.my_open_ft 0) 1 in
    (
      f_desc,
      record t {
        my_open_ft =
            insert_new f_desc
              (record {
                f_desc = f_desc;
                f_mode = m;
                f_pos = pos;
                flags = flags % 2 ^ 16;
                f_count = 0;
                f_inode = i;
              })
              t.my_open_ft;
      },
    )

-- The entry at an address, by its key.
unfoldable pub key_at : ℕ → Map ℕ Node → Option (ℕ × Inode)
key_at a [] = none
key_at a ((k, n) ∷ ilist) = if n.address == a then some (k, n.inode) else key_at a ilist

-- A change of the inode in an entry that is there, as through an iterator.
abbrev pub set_inode : ℕ → (Inode → Inode) → Tables → Option Tables
set_inode k g t =
    Option.map
      (λ (n : Node). record t { my_ilist = insert k (record n { inode = g n.inode }) t.my_ilist })
      (find k t.my_ilist)
