-- ===== src/Resolve/Read.antt =====
-- `my_pread` on every branch, for sizes and positions below 2 ^ 31.
use cs179f_bbfs_project.Base.{
  ℕ, ◌+◌, ◌-◌, ◌^◌, ◌<◌, ◌≤◌, ◌≡◌, inl, inr, Bool, true, false, Option, none, some, arith, ltb,
  if◌then◌else◌, Bool-cases, length, take, drop, Bytes, c_str, take_all, length-drop,
}
use cs179f_bbfs_project.Base.Words.{as_int, sub64, of_int-as_int, slt_small, end_small, left_small}
use cs179f_bbfs_project.State.{an_err, s_isdir, Fs, Run, done, fault, file_at, touch}
use cs179f_bbfs_project.Resolve.{my_pread, strcpy, substr}

-- The outcome of a copy of `s` into `room` bytes.
abbrev pub copied : ℕ → Bytes → ℕ → Fs → Run (ℕ × Option Bytes)
copied room s ret fs = if ltb (length (c_str s)) room then done (ret, some (c_str s)) fs else fault

-- What `my_pread` gives for the bytes `s`: an error behind their end, the rest of them where fewer
-- than `size - 1` remain, and else `size` of them.
abbrev pub read_bytes : Bytes → (room size offset : ℕ) → Fs → Run (ℕ × Option Bytes)
read_bytes s room size offset fs =
    if ltb (length s) offset
    then done (an_err, none) fs
    else if ltb (length s) (offset + size - 1)
    then copied room (drop offset s) (length s - offset) fs
    else copied room (take size (drop offset s)) size fs

-- The two copies of `my_pread`, past its tests.
copies_lem :
    (b : Bool) (s : Bytes) (room size offset : ℕ) (fs : Fs)
    → length s < 2 ^ 31
    → offset ≤ length s
    → size < 2 ^ 31
    → (if b
          then strcpy room
              (some (take (length s) (drop offset s)))
              (as_int (sub64 (length s) offset))
          else strcpy room (some (take size (drop offset s))) (as_int size))
        fs
      ≡ (if b
          then copied room (drop offset s) (length s - offset) fs
          else copied room (take size (drop offset s)) size fs)
unfolding strcpy
copies_lem true s room size offset fs len inside small =
    rw
      (
        take_all (length s) (drop offset s) (omega (arith, length-drop offset s)),
        left_small (length s) offset len inside,
      )
      (ground arith)
copies_lem false s room size offset fs len inside small =
    let e : as_int size ≡ size = omega arith in rw e (ground arith)

-- A read of at least one byte, of a file below 2 ^ 31 bytes and with its end below 2 ^ 31: of a
-- directory it is an error, and any other file is read as `read_bytes` says.
pub my_pread_lem :
    (fh room size offset : ℕ) (fs : Fs)
    → length (file_at fs fh).bytes < 2 ^ 31
    → 0 < size
    → offset + size < 2 ^ 31
    → my_pread fh room size offset fs ≡ (
        if s_isdir (file_at fs fh).metadata.st_mode
        then done (an_err, none) (touch fh fs)
        else read_bytes (file_at fs fh).bytes room size offset (touch fh fs))
unfolding my_pread substr
my_pread_lem fh room size offset fs len pos fit =
    elim (Bool-cases (s_isdir (file_at fs fh).metadata.st_mode)) [
      | inl dir ↦ rw dir
      | inr file ↦
          rw
            (
              file,
              of_int-as_int (length (file_at fs fh).bytes) len,
              slt_small (length (file_at fs fh).bytes) offset len (omega arith),
              end_small offset size fit pos,
            )
            (elim (Bool-cases (ltb (length (file_at fs fh).bytes) offset)) [
              | inl past ↦ rw past
              | inr inside ↦ rw inside (
                  copies_lem (ltb (length (file_at fs fh).bytes) (offset + size - 1))
                    (file_at fs fh).bytes room size offset (touch fh fs) len (ground arith)
                    (omega arith))
            ])
    ]
