-- ===== src/Fuse/Transfer.antt =====
-- `my_pread` and `my_pwrite` of ProjectWFuse/src/my_calls.cc. A file has less than 2 ^ 31 bytes.
use cs179f_bbfs_project.Base.{
  ℕ, zero, suc, ◌+◌, ◌^◌, Option, none, some, [], ltb, leb, ◌==◌, if◌then◌else◌, length, set, take,
  drop, Bytes, c_str,
}
use cs179f_bbfs_project.Base.Words.{as_int, of_int, add64}
use cs179f_bbfs_project.Base.Map.{find, nat_key}
use cs179f_bbfs_project.Contents.{char_at}
use cs179f_bbfs_project.Fuse.{Call, minus_one, key_at, set_inode}

-- The bytes that the loop of `my_pread` collects, where `at` throws for none of them.
unfoldable pub collect : Bytes → (bytes_read offset : ℕ) → Option Bytes
collect buf bytes_read offset =
    if bytes_read == 0
    then some []
    else if leb (2 ^ 31) offset
    then none
    else if leb (2 ^ 31) (bytes_read + offset)
    then none
    else if ltb (length buf) (bytes_read + offset)
    then none
    else some (take bytes_read (drop offset buf))

-- The number of bytes that are counted as read.
abbrev pub count_read : (count size : ℕ) → ℕ
count_read count size = if ltb size (of_int (as_int count)) then as_int size else as_int count

-- The result, and the text put into the caller's buffer, which has `room` bytes.
unfoldable pub my_pread : (fd room count offset : ℕ) → Call (ℕ × Bytes)
unfolding collect
my_pread fd room count offset t = elim (find (of_int fd) t.my_open_ft) [
  | none ↦ some ((minus_one, []), t)
  | some f ↦ elim (key_at f.f_inode t.my_ilist) [
    | none ↦ none
    | some (k, i) ↦ elim (collect i.buf (count_read count (length i.buf)) (as_int offset)) [
      | none ↦ none
      | some str ↦
          if ltb (length (c_str str)) room
          then some ((of_int (count_read count (length i.buf)), c_str str), t)
          else none
    ]
  ]
]

-- The loop of `my_pwrite`. The vector does not grow, and its bounds are not checked.
unfoldable pub put_loop : ℕ → Bytes → (at : ℕ) → Bytes → (index : ℕ) → Option Bytes
unfolding char_at
put_loop zero s at buf index = some s
put_loop (suc n) s at buf index =
    if ltb at (length s)
    then elim (char_at buf index) [
      | none ↦ none
      | some c ↦ put_loop n (set s at c) (add64 at 1) buf (index + 1)
    ]
    else none

-- The number of bytes to write: a count above the size of the file gives the length of the text.
abbrev pub count_write : (buf : Bytes) (count size : ℕ) → ℕ
count_write buf count size =
    if ltb size (of_int (as_int count)) then as_int (length (c_str buf)) else as_int count

unfoldable pub my_pwrite : (fd : ℕ) (buf : Bytes) (count offset : ℕ) → Call ℕ
unfolding put_loop
my_pwrite fd buf count offset t = elim (find (of_int fd) t.my_open_ft) [
  | none ↦ some (minus_one, t)
  | some f ↦ elim (key_at f.f_inode t.my_ilist) [
    | none ↦ none
    | some (k, i) ↦ elim (put_loop (count_write buf count (length i.buf)) i.buf offset buf 0) [
      | none ↦ none
      | some s ↦ elim (set_inode k (λ i. record i { buf = s }) t) [
        | none ↦ none
        | some t' ↦ some (of_int (count_write buf count (length i.buf)), t')
      ]
    ]
  ]
]
