-- ===== src/Bbfs/Paths.antt =====
-- The callbacks of ProjectWFuse/src/bbfs.c that get a path and no handle.
use cs179f_bbfs_project.Base.{
  ℕ, ◌/◌, ◌%◌, ◌^◌, Bool, Option, none, some, [], ◌∷◌, ◌++◌, ltb, leb, ◌==◌, if◌then◌else◌, take,
  Bytes,
}
use cs179f_bbfs_project.Base.Words.{as_int, sub64}
use cs179f_bbfs_project.Bbfs.{
  Sys, Host, Reply, plain, Act, is_error, bb_error, checked, checked_data, unchecked, on_path,
  on_paths,
}

-- The type of a file in its mode, `mode & S_IFMT`.
abbrev file_type : ℕ → ℕ
file_type mode = (mode / 2 ^ 12) % 2 ^ 4

abbrev pub is_reg : ℕ → Bool
is_reg mode = file_type mode == 8

abbrev pub is_fifo : ℕ → Bool
is_fifo mode = file_type mode == 1

-- `O_CREAT | O_EXCL | O_WRONLY`.
abbrev pub new_file_flags : ℕ
new_file_flags = 0o301

-- A `ssize_t` stored in an `int`.
abbrev pub to_int : {World : Type 0} → Sys World (ℕ × Bytes) → Sys World (ℕ × Bytes)
to_int call w = let ((r, out), w') = call w in ((as_int r, out), w')

module _ {World : Type 0} (h : Host World) where
  -- The end of `bb_getattr`, with the call it makes. Any result but 0 is an error.
  unfoldable pub getattr_reply : Sys World (ℕ × Bytes) → Act World Reply
  unfolding bb_error
  getattr_reply call s =
      let ((r, statbuf), w) = call s.world in
      some (
        record { retstat = if r == 0 then r else bb_error h w; out = statbuf; fh = none },
        record s { world = w },
      )

  -- The end of `bb_readlink`. The result of the host is cut to an `int`, and indexes `link`.
  unfoldable pub readlink_reply : (size : ℕ) → Sys World (ℕ × Bytes) → Act World Reply
  unfolding bb_error
  readlink_reply size call s =
      let ((r, text), w) = call s.world in
      let n = as_int r in
      if is_error n
      then some (record { retstat = bb_error h w; out = text; fh = none }, record s { world = w })
      else if ltb n size
      then some
          (record { retstat = 0; out = take n text ++ 0 ∷ []; fh = none }, record s { world = w })
      else none

  -- A regular file in `bb_mknod`: what was opened is closed.
  unfoldable pub mknod_reply : Sys World ℕ → Act World Reply
  unfolding bb_error checked
  mknod_reply call s =
      let (fd, w) = call s.world in
      if is_error fd
      then some (plain (bb_error h w), record s { world = w })
      else checked h (h.close_fd fd) (record s { world = w })

  -- The end of `bb_listxattr`. Its loop over the names reads as many bytes as the result says, which
  -- are not there if the buffer was too small, as one of size 0 is.
  unfoldable pub listxattr_reply : (size : ℕ) → Sys World (ℕ × Bytes) → Act World Reply
  unfolding bb_error
  listxattr_reply size call s =
      let ((r, list), w) = call s.world in
      if is_error r
      then some (record { retstat = bb_error h w; out = list; fh = none }, record s { world = w })
      else if leb r size
      then some (record { retstat = r; out = list; fh = none }, record s { world = w })
      else none

module _ {World : Type 0} (h : Host World) (rootdir : Option Bytes) where
  unfoldable pub bb_getattr : (path : Bytes) → Act World Reply
  unfolding on_path getattr_reply
  bb_getattr path = on_path rootdir path (λ fpath. getattr_reply h (h.lstat fpath))

  unfoldable pub bb_readlink : (path : Bytes) (size : ℕ) → Act World Reply
  unfolding on_path readlink_reply
  bb_readlink path size =
      on_path rootdir path (λ fpath. readlink_reply h size (h.readlink fpath (sub64 size 1)))

  unfoldable pub bb_mknod : (path : Bytes) (mode dev : ℕ) → Act World Reply
  unfolding on_path checked mknod_reply
  bb_mknod path mode dev = on_path rootdir path (λ fpath.
      if is_reg mode
      then mknod_reply h (h.open_mode fpath new_file_flags mode)
      else if is_fifo mode
      then checked h (h.mkfifo fpath mode)
      else checked h (h.mknod fpath mode dev))

  unfoldable pub bb_mkdir : (path : Bytes) (mode : ℕ) → Act World Reply
  unfolding on_path checked
  bb_mkdir path mode = on_path rootdir path (λ fpath. checked h (h.mkdir fpath mode))

  unfoldable pub bb_unlink : (path : Bytes) → Act World Reply
  unfolding on_path checked
  bb_unlink path = on_path rootdir path (λ fpath. checked h (h.unlink fpath))

  unfoldable pub bb_rmdir : (path : Bytes) → Act World Reply
  unfolding on_path checked
  bb_rmdir path = on_path rootdir path (λ fpath. checked h (h.rmdir fpath))

  -- The target of the link is left as it is.
  unfoldable pub bb_symlink : (path link : Bytes) → Act World Reply
  unfolding on_path checked
  bb_symlink path link = on_path rootdir link (λ flink. checked h (h.symlink path flink))

  unfoldable pub bb_rename : (path newpath : Bytes) → Act World Reply
  unfolding on_paths checked
  bb_rename path newpath =
      on_paths rootdir path newpath (λ fpath fnewpath. checked h (h.rename fpath fnewpath))

  unfoldable pub bb_link : (path newpath : Bytes) → Act World Reply
  unfolding on_paths checked
  bb_link path newpath =
      on_paths rootdir path newpath (λ fpath fnewpath. checked h (h.link fpath fnewpath))

  unfoldable pub bb_chmod : (path : Bytes) (mode : ℕ) → Act World Reply
  unfolding on_path checked
  bb_chmod path mode = on_path rootdir path (λ fpath. checked h (h.chmod fpath mode))

  unfoldable pub bb_chown : (path : Bytes) (uid gid : ℕ) → Act World Reply
  unfolding on_path checked
  bb_chown path uid gid = on_path rootdir path (λ fpath. checked h (h.chown fpath uid gid))

  -- The result of `bb_error` is dropped, so the host's own result is returned.
  unfoldable pub bb_truncate : (path : Bytes) (newsize : ℕ) → Act World Reply
  unfolding on_path unchecked
  bb_truncate path newsize = on_path rootdir path (λ fpath. unchecked h (h.truncate fpath newsize))

  unfoldable pub bb_utime : (path ubuf : Bytes) → Act World Reply
  unfolding on_path checked
  bb_utime path ubuf = on_path rootdir path (λ fpath. checked h (h.utime fpath ubuf))

  unfoldable pub bb_statfs : (path : Bytes) → Act World Reply
  unfolding on_path checked_data
  bb_statfs path = on_path rootdir path (λ fpath. checked_data h (h.statvfs fpath))

  unfoldable pub bb_setxattr : (path name value : Bytes) (size flags : ℕ) → Act World Reply
  unfolding on_path checked
  bb_setxattr path name value size flags =
      on_path rootdir path (λ fpath. checked h (h.lsetxattr fpath name value size flags))

  unfoldable pub bb_getxattr : (path name : Bytes) (size : ℕ) → Act World Reply
  unfolding on_path checked_data
  bb_getxattr path name size =
      on_path rootdir path (λ fpath. checked_data h (to_int (h.lgetxattr fpath name size)))

  unfoldable pub bb_listxattr : (path : Bytes) (size : ℕ) → Act World Reply
  unfolding on_path listxattr_reply
  bb_listxattr path size =
      on_path rootdir path (λ fpath. listxattr_reply h size (to_int (h.llistxattr fpath size)))

  unfoldable pub bb_removexattr : (path name : Bytes) → Act World Reply
  unfolding on_path checked
  bb_removexattr path name = on_path rootdir path (λ fpath. checked h (h.lremovexattr fpath name))

  unfoldable pub bb_access : (path : Bytes) (mask : ℕ) → Act World Reply
  unfolding on_path checked
  bb_access path mask = on_path rootdir path (λ fpath. checked h (h.access fpath mask))
