-- ===== src/Bbfs/Handles.antt =====
-- The callbacks of ProjectWFuse/src/bbfs.c that store a handle in `fi->fh` or get one, and those that
-- do nothing.
use cs179f_bbfs_project.Base.{
  ℕ, zero, suc, Option, none, some, [], codes, ◌==◌, if◌then◌else◌, Bytes, bytes_beq,
}
use cs179f_bbfs_project.Base.Words.{as_int, of_int}
use cs179f_bbfs_project.Fuse.Names.{my_creat}
use cs179f_bbfs_project.Bbfs.{
  Sys, Host, Mounted, Reply, plain, Act, is_error, minus, bb_error, checked, checked_data,
  unchecked, on_path,
}
use cs179f_bbfs_project.Bbfs.Paths.{to_int, bb_getattr}

module _ {World : Type 0} (h : Host World) where
  -- The end of `bb_open`: the descriptor is stored also when it is -1.
  unfoldable pub open_reply : Sys World ℕ → Act World Reply
  unfolding bb_error
  open_reply call s =
      let (fd, w) = call s.world in
      some (
        record {
          retstat = if is_error fd then bb_error h w else 0;
          out = [];
          fh = some (of_int fd);
        },
        record s { world = w },
      )

  -- The end of `bb_create`. The file is made by my_calls.cc, which returns an inode number and leaves
  -- `errno` alone.
  unfoldable pub create_reply : (fpath : Bytes) (mode : ℕ) → Act World Reply
  unfolding bb_error
  create_reply fpath mode s = elim (my_creat fpath mode s.tables) [
    | none ↦ none
    | some (fd, t) ↦ some (
      record {
        retstat = if is_error fd then bb_error h s.world else 0;
        out = [];
        fh = some (of_int fd);
      },
      record s { tables = t },
    )
  ]

  unfoldable pub bb_read : (size offset fh : ℕ) → Act World Reply
  unfolding checked_data
  bb_read size offset fh = checked_data h (to_int (h.pread (as_int fh) size offset))

  unfoldable pub bb_write : (buf : Bytes) (size offset fh : ℕ) → Act World Reply
  unfolding checked
  bb_write buf size offset fh =
      checked h (λ w. let (r, w') = h.pwrite (as_int fh) buf size offset w in (as_int r, w'))

  unfoldable pub bb_release : (fh : ℕ) → Act World Reply
  unfolding unchecked
  bb_release fh = unchecked h (h.close_fd (as_int fh))

  -- The result of `bb_error` is dropped.
  unfoldable pub bb_fsync : (datasync fh : ℕ) → Act World Reply
  unfolding unchecked
  bb_fsync datasync fh =
      if h.has_fdatasync
      then (if datasync == 0
          then unchecked h (h.fsync (as_int fh))
          else unchecked h (h.fdatasync (as_int fh)))
      else unchecked h (h.fsync (as_int fh))

  unfoldable pub bb_ftruncate : (offset fh : ℕ) → Act World Reply
  unfolding checked
  bb_ftruncate offset fh = checked h (h.ftruncate (as_int fh) offset)

  -- The end of `bb_opendir`: the pointer is stored also when it is NULL.
  unfoldable pub opendir_reply : Sys World ℕ → Act World Reply
  unfolding bb_error
  opendir_reply call s =
      let (dp, w) = call s.world in
      some (
        record { retstat = if dp == 0 then bb_error h w else 0; out = []; fh = some dp },
        record s { world = w },
      )

  -- The result of `closedir` is dropped.
  unfoldable pub bb_releasedir : (fh : ℕ) → Act World Reply
  bb_releasedir fh s = let (r, w) = h.closedir fh s.world in some (plain 0, record s { world = w })

module _ {World : Type 0} (h : Host World) (rootdir : Option Bytes) where
  unfoldable pub bb_open : (path : Bytes) (flags : ℕ) → Act World Reply
  unfolding on_path open_reply
  bb_open path flags = on_path rootdir path (λ fpath. open_reply h (h.open_file fpath flags))

  unfoldable pub bb_create : (path : Bytes) (mode : ℕ) → Act World Reply
  unfolding on_path create_reply
  bb_create path mode = on_path rootdir path (λ fpath. create_reply h fpath mode)

  unfoldable pub bb_fgetattr : (path : Bytes) (fh : ℕ) → Act World Reply
  unfolding bb_getattr checked_data
  bb_fgetattr path fh s =
      if bytes_beq path (codes "/")
      then bb_getattr h rootdir path s
      else checked_data h (h.fstat (as_int fh)) s

  unfoldable pub bb_opendir : (path : Bytes) → Act World Reply
  unfolding on_path opendir_reply
  bb_opendir path = on_path rootdir path (λ fpath. opendir_reply h (h.opendir fpath))

-- The callbacks that only log.
unfoldable pub bb_flush : {World : Type 0} → Act World Reply
bb_flush s = some (plain 0, s)

unfoldable pub bb_fsyncdir : {World : Type 0} → Act World Reply
bb_fsyncdir s = some (plain 0, s)

-- Linux's number.
abbrev pub enomem : ℕ
enomem = 12

-- The `do` loop of `bb_readdir`, with the entry that was read. `filler` gives its result and the
-- buffer after it. The fuel counts entries.
module _ {World Buf : Type 0} (h : Host World) (filler : Bytes → Buf → ℕ × Buf) where
  unfoldable pub readdir_loop :
      (fuel dp : ℕ) (de : Bytes) (buf : Buf) → Mounted World → Option ((ℕ × Buf) × Mounted World)
  readdir_loop zero dp de buf s = none
  readdir_loop (suc k) dp de buf s =
      let (full, buf') = filler de buf in
      let (next, w) = h.readdir dp s.world in
      let s' : Mounted World = record s { world = w } in
      let rest : Option ((ℕ × Buf) × Mounted World) = elim next [
        | none ↦ some ((0, buf'), s')
        | some de' ↦ readdir_loop k dp de' buf' s'
      ] in
      if full == 0 then rest else some ((minus enomem, buf'), s)

  unfoldable pub bb_readdir :
      (fuel fh : ℕ) (buf : Buf) → Mounted World → Option ((ℕ × Buf) × Mounted World)
  unfolding readdir_loop bb_error
  bb_readdir fuel fh buf s =
      let (first, w) = h.readdir fh s.world in
      let s' : Mounted World = record s { world = w } in
      elim first [
        | none ↦ some ((bb_error h w, buf), s')
        | some de ↦ readdir_loop fuel fh de buf s'
      ]
