-- ===== src/Bbfs/Errors.antt =====
-- What the callbacks of ProjectWFuse/src/bbfs.c answer where the host fails.
use mathlib.Core.Path.{subst}
use cs179f_bbfs_project.Base.{
  ℕ, ◌≡◌, refl, true, false, Bool, Bool-cases, inl, inr, Option, none, some, [], ◌==◌, ltb, leb,
  arith, if◌then◌else◌, Bytes, bytes_beq, codes,
}
use cs179f_bbfs_project.Base.Words.{as_int, of_int, sub64}
use cs179f_bbfs_project.Fuse.Names.{my_creat}
use cs179f_bbfs_project.Bbfs.{
  Sys, Host, Mounted, Reply, Act, is_error, minus, checked, checked_data, bb_error, bb_fullpath,
  on_path, on_paths,
}
use cs179f_bbfs_project.Bbfs.Paths.{
  new_file_flags, is_reg, is_fifo, getattr_reply, readlink_reply, listxattr_reply, mknod_reply,
  to_int, bb_getattr, bb_readlink, bb_mknod, bb_mkdir, bb_unlink, bb_rmdir, bb_symlink, bb_rename,
  bb_link, bb_chmod, bb_chown, bb_utime, bb_statfs, bb_setxattr, bb_getxattr, bb_listxattr,
  bb_removexattr, bb_access,
}
use cs179f_bbfs_project.Bbfs.Handles.{
  create_reply, open_reply, opendir_reply, bb_open, bb_create, bb_read, bb_write, bb_ftruncate,
  bb_fgetattr, bb_opendir, bb_releasedir, bb_flush, bb_fsyncdir,
}
use cs179f_bbfs_project.Bbfs.Session

-- A call that is undefined, or whose reply is no error or minus the `errno` it leaves.
data Answers {World : Type 0} (h : Host World) : Option (Reply × Mounted World) → Type 0 where
  undefined : Answers h none
  answered :
      (r : Reply) (s : Mounted World)
      → (is_error r.retstat ≡ true → r.retstat ≡ bb_error h s.world)
      → Answers h (some (r, s))

-- The callbacks that drop what `bb_error` gives, and `readdir`, which answers -ENOMEM where the buffer is
-- full.
unfoldable pub drops_errno : Session.Callback → Bool
drops_errno (Session.at_path (Session.truncate path newsize)) = true
drops_errno (Session.release fh) = true
drops_errno (Session.fsync datasync fh) = true
drops_errno (Session.readdir buf filler entries fh) = true
drops_errno c = false

module _ {World : Type 0} (h : Host World) where
  on_path-Answers :
      (rootdir : Option Bytes) (path : Bytes) (f : Bytes → Act World Reply) (s : Mounted World)
      → ((p : Bytes) (s' : Mounted World) → Answers h (f p s'))
      → Answers h (on_path rootdir path f s)
  unfolding on_path
  on_path-Answers rootdir path f s each =
      elim (bb_fullpath rootdir path)
        as (λ o.
          Answers h
            (elim o as (λ _. Option (Reply × Mounted World)) [ none ↦ none | some p ↦ f p s ])) [
              | none ↦ undefined
              | some p ↦ each p s
            ]

  -- `retstat` where an error is replaced.
  replaced :
      (r : ℕ) (w : World)
      → is_error (if is_error r then bb_error h w else r) ≡ true
      → (if is_error r then bb_error h w else r) ≡ bb_error h w
  replaced r w e = elim (Bool-cases (is_error r)) [
    | inl bad ↦ rw bad refl
    | inr good ↦ let same : is_error r ≡ true = rw good at e in cc (same, good)
  ]

  checked-Answers : (call : Sys World ℕ) (s : Mounted World) → Answers h (checked h call s)
  unfolding checked
  checked-Answers call s = answered _ _ (replaced (call s.world).0 (call s.world).1)

  checked_data-Answers :
      (call : Sys World (ℕ × Bytes)) (s : Mounted World) → Answers h (checked_data h call s)
  unfolding checked_data
  checked_data-Answers call s = answered _ _ (replaced (call s.world).0.0 (call s.world).1)

  getattr-Answers :
      (call : Sys World (ℕ × Bytes)) (s : Mounted World) → Answers h (getattr_reply h call s)
  unfolding getattr_reply
  getattr-Answers call s = answered _ _ (zero_or (call s.world).0.0 (call s.world).1)
    where
      zero_or :
          (r : ℕ) (w : World)
          → is_error (if r == 0 then r else bb_error h w) ≡ true
          → (if r == 0 then r else bb_error h w) ≡ bb_error h w
      zero_or r w e = ground arith

  readlink-Answers :
      (size : ℕ) (call : Sys World (ℕ × Bytes)) (s : Mounted World)
      → Answers h (readlink_reply h size call s)
  unfolding readlink_reply
  readlink-Answers size call s =
      let n = as_int (call s.world).0.0 in
      elim (Bool-cases (is_error n)) [
        | inl bad ↦ rw bad (answered _ _ (λ e. refl))
        | inr good ↦ elim (Bool-cases (ltb n size)) [
          | inl fits ↦ rw (good, fits) (answered _ _ (λ e. cc e))
          | inr long ↦ rw (good, long) undefined
        ]
      ]

  listxattr-Answers :
      (size : ℕ) (call : Sys World (ℕ × Bytes)) (s : Mounted World)
      → Answers h (listxattr_reply h size call s)
  unfolding listxattr_reply
  listxattr-Answers size call s =
      let r = (call s.world).0.0 in
      elim (Bool-cases (is_error r)) [
        | inl bad ↦ rw bad (answered _ _ (λ e. refl))
        | inr good ↦ elim (Bool-cases (leb r size)) [
          | inl fits ↦ rw (good, fits) (answered _ _ (λ e. cc (e, good)))
          | inr long ↦ rw (good, long) undefined
        ]
      ]

  mknod-Answers : (call : Sys World ℕ) (s : Mounted World) → Answers h (mknod_reply h call s)
  unfolding mknod_reply
  mknod-Answers call s = elim (Bool-cases (is_error (call s.world).0)) [
    | inl bad ↦ rw bad (answered _ _ (λ e. refl))
    | inr good ↦
        rw good
          (checked-Answers (h.close_fd (call s.world).0) (record s { world = (call s.world).1 }))
  ]

  open-Answers : (call : Sys World ℕ) (s : Mounted World) → Answers h (open_reply h call s)
  unfolding open_reply
  open-Answers call s = elim (Bool-cases (is_error (call s.world).0)) [
    | inl bad ↦ rw bad (answered _ _ (λ e. refl))
    | inr good ↦ rw good (answered _ _ (λ e. cc e))
  ]

  opendir-Answers : (call : Sys World ℕ) (s : Mounted World) → Answers h (opendir_reply h call s)
  unfolding opendir_reply
  opendir-Answers call s = elim (Bool-cases ((call s.world).0 == 0)) [
    | inl bad ↦ rw bad (answered _ _ (λ e. refl))
    | inr good ↦ rw good (answered _ _ (λ e. cc e))
  ]

  create-Answers :
      (path : Bytes) (mode : ℕ) (s : Mounted World) → Answers h (create_reply h path mode s)
  unfolding create_reply
  create-Answers path mode s =
      elim (my_creat path mode s.tables)
        as (λ o. Answers h (elim o as (λ _. Option (Reply × Mounted World)) [
          | none ↦ none
          | some (fd, t) ↦ some (
            record {
              retstat = if is_error fd then bb_error h s.world else 0;
              out = [];
              fh = some (of_int fd);
            },
            record s { tables = t },
          )
        ])) [ none ↦ undefined | some (fd, t) ↦ answered _ _ (stale fd) ]
    where
      stale :
          (fd : ℕ)
          → is_error (if is_error fd then bb_error h s.world else 0) ≡ true
          → (if is_error fd then bb_error h s.world else 0) ≡ bb_error h s.world
      stale fd e = elim (Bool-cases (is_error fd)) [
        | inl bad ↦ rw bad refl
        | inr good ↦ let none_left : false ≡ true = rw good at e in cc none_left
      ]

module _ {World : Type 0} (h : Host World) (rootdir : Option Bytes) (s : Mounted World) where
  getattr_path-Answers : (path : Bytes) → Answers h (bb_getattr h rootdir path s)
  unfolding bb_getattr
  getattr_path-Answers path =
      on_path-Answers h rootdir path (λ p. getattr_reply h (h.lstat p)) s
        (λ p. getattr-Answers h (h.lstat p))

  mknod_path-Answers :
      (path : Bytes) (mode dev : ℕ) → Answers h (bb_mknod h rootdir path mode dev s)
  unfolding bb_mknod
  mknod_path-Answers path mode dev = elim (Bool-cases (is_reg mode)) [
    | inl regular ↦ rw regular (
        on_path-Answers h rootdir path (λ p. mknod_reply h (h.open_mode p new_file_flags mode)) s
          (λ p. mknod-Answers h (h.open_mode p new_file_flags mode)))
    | inr other ↦ elim (Bool-cases (is_fifo mode)) [
      | inl fifo ↦
          rw (other, fifo)
            (on_path-Answers h rootdir path (λ p. checked h (h.mkfifo p mode)) s
              (λ p. checked-Answers h (h.mkfifo p mode)))
      | inr node ↦
          rw (other, node)
            (on_path-Answers h rootdir path (λ p. checked h (h.mknod p mode dev)) s
              (λ p. checked-Answers h (h.mknod p mode dev)))
    ]
  ]

  on_paths-Answers :
      (path newpath : Bytes) (call : Bytes → Bytes → Sys World ℕ)
      → Answers h (on_paths rootdir path newpath (λ p q. checked h (call p q)) s)
  unfolding on_paths
  on_paths-Answers path newpath call =
      on_path-Answers h rootdir path (λ p. on_path rootdir newpath (λ q. checked h (call p q))) s
        (λ p s'.
          on_path-Answers h rootdir newpath (λ q. checked h (call p q)) s'
            (λ q. checked-Answers h (call p q)))

  run_path-Answers :
      (c : Session.PathCallback)
      → drops_errno (Session.at_path c) ≡ false
      → Answers h (Session.run_path h rootdir c s)
  unfolding Session.run_path drops_errno bb_readlink bb_mkdir bb_unlink bb_rmdir bb_symlink
      bb_rename bb_link bb_chmod bb_chown bb_utime bb_statfs bb_setxattr bb_getxattr bb_listxattr
      bb_removexattr bb_access bb_open bb_create bb_fgetattr bb_opendir
  run_path-Answers (Session.getattr path) e = getattr_path-Answers path
  run_path-Answers (Session.readlink path size) e =
      on_path-Answers h rootdir path (λ p. readlink_reply h size (h.readlink p (sub64 size 1))) s
        (λ p. readlink-Answers h size (h.readlink p (sub64 size 1)))
  run_path-Answers (Session.mknod path mode dev) e = mknod_path-Answers path mode dev
  run_path-Answers (Session.mkdir path mode) e =
      on_path-Answers h rootdir path (λ p. checked h (h.mkdir p mode)) s
        (λ p. checked-Answers h (h.mkdir p mode))
  run_path-Answers (Session.unlink path) e =
      on_path-Answers h rootdir path (λ p. checked h (h.unlink p)) s
        (λ p. checked-Answers h (h.unlink p))
  run_path-Answers (Session.rmdir path) e =
      on_path-Answers h rootdir path (λ p. checked h (h.rmdir p)) s
        (λ p. checked-Answers h (h.rmdir p))
  run_path-Answers (Session.chmod path mode) e =
      on_path-Answers h rootdir path (λ p. checked h (h.chmod p mode)) s
        (λ p. checked-Answers h (h.chmod p mode))
  run_path-Answers (Session.chown path uid gid) e =
      on_path-Answers h rootdir path (λ p. checked h (h.chown p uid gid)) s
        (λ p. checked-Answers h (h.chown p uid gid))
  run_path-Answers (Session.utime path ubuf) e =
      on_path-Answers h rootdir path (λ p. checked h (h.utime p ubuf)) s
        (λ p. checked-Answers h (h.utime p ubuf))
  run_path-Answers (Session.setxattr path name value size flags) e =
      on_path-Answers h rootdir path (λ p. checked h (h.lsetxattr p name value size flags)) s
        (λ p. checked-Answers h (h.lsetxattr p name value size flags))
  run_path-Answers (Session.removexattr path name) e =
      on_path-Answers h rootdir path (λ p. checked h (h.lremovexattr p name)) s
        (λ p. checked-Answers h (h.lremovexattr p name))
  run_path-Answers (Session.access path mask) e =
      on_path-Answers h rootdir path (λ p. checked h (h.access p mask)) s
        (λ p. checked-Answers h (h.access p mask))
  run_path-Answers (Session.symlink path newpath) e =
      on_path-Answers h rootdir newpath (λ p. checked h (h.symlink path p)) s
        (λ p. checked-Answers h (h.symlink path p))
  run_path-Answers (Session.rename path newpath) e = on_paths-Answers path newpath h.rename
  run_path-Answers (Session.link path newpath) e = on_paths-Answers path newpath h.link
  run_path-Answers (Session.truncate path newsize) e = cc e
  run_path-Answers (Session.statfs path) e =
      on_path-Answers h rootdir path (λ p. checked_data h (h.statvfs p)) s
        (λ p. checked_data-Answers h (h.statvfs p))
  run_path-Answers (Session.getxattr path name size) e =
      on_path-Answers h rootdir path (λ p. checked_data h (to_int (h.lgetxattr p name size))) s
        (λ p. checked_data-Answers h (to_int (h.lgetxattr p name size)))
  run_path-Answers (Session.listxattr path size) e =
      on_path-Answers h rootdir path (λ p. listxattr_reply h size (to_int (h.llistxattr p size))) s
        (λ p. listxattr-Answers h size (to_int (h.llistxattr p size)))
  run_path-Answers (Session.open_file path flags) e =
      on_path-Answers h rootdir path (λ p. open_reply h (h.open_file p flags)) s
        (λ p. open-Answers h (h.open_file p flags))
  run_path-Answers (Session.opendir path) e =
      on_path-Answers h rootdir path (λ p. opendir_reply h (h.opendir p)) s
        (λ p. opendir-Answers h (h.opendir p))
  run_path-Answers (Session.create path mode) e =
      on_path-Answers h rootdir path (λ p. create_reply h p mode) s (λ p. create-Answers h p mode)
  run_path-Answers (Session.fgetattr path fh) e = elim (Bool-cases (bytes_beq path (codes "/"))) [
    | inl root ↦ rw root (getattr_path-Answers path)
    | inr file ↦ rw file (checked_data-Answers h (h.fstat (as_int fh)) s)
  ]

  run_callback-Answers :
      (c : Session.Callback)
      → drops_errno c ≡ false
      → Answers h (Session.run_callback h rootdir c s)
  unfolding Session.run_callback drops_errno bb_read bb_write bb_ftruncate bb_releasedir bb_flush
      bb_fsyncdir
  run_callback-Answers (Session.at_path c) e = run_path-Answers c e
  run_callback-Answers (Session.read size offset fh) e =
      checked_data-Answers h (to_int (h.pread (as_int fh) size offset)) s
  run_callback-Answers (Session.write buf size offset fh) e =
      checked-Answers h
        (λ w. let (r, w') = h.pwrite (as_int fh) buf size offset w in (as_int r, w')) s
  run_callback-Answers (Session.release fh) e = cc e
  run_callback-Answers (Session.fsync datasync fh) e = cc e
  run_callback-Answers (Session.readdir buf filler entries fh) e = cc e
  run_callback-Answers (Session.ftruncate offset fh) e =
      checked-Answers h (h.ftruncate (as_int fh) offset) s
  run_callback-Answers (Session.releasedir fh) e = answered _ _ (λ bad. cc bad)
  run_callback-Answers Session.flush e = answered _ _ (λ bad. cc bad)
  run_callback-Answers Session.fsyncdir e = answered _ _ (λ bad. cc bad)

told :
    {World : Type 0} (h : Host World) (o : Option (Reply × Mounted World)) (r : Reply)
    (s : Mounted World)
    → Answers h o
    → o ≡ some (r, s)
    → is_error r.retstat ≡ true
    → r.retstat ≡ bb_error h s.world
told h none r s undefined e bad = cc e
told {World = World} h (some (q, t)) r s (answered _ _ says) e bad =
    let same : (q, t) ≡ (r, s) = cc e in
    subst
      (λ (x : Reply × Mounted World).
        is_error x.0.retstat ≡ true → x.0.retstat ≡ bb_error h x.1.world)
      same says bad

-- Every callback but `truncate`, `release`, `fsync` and `readdir` that answers with an error answers with minus the
-- `errno` that the host is left with.
pub run_callback_errno :
    {World : Type 0} (h : Host World) (rootdir : Option Bytes) (c : Session.Callback)
    (s s' : Mounted World) (r : Reply)
    → drops_errno c ≡ false
    → Session.run_callback h rootdir c s ≡ some (r, s')
    → is_error r.retstat ≡ true
    → r.retstat ≡ minus (h.errno s'.world)
unfolding bb_error
run_callback_errno h rootdir c s s' r told_of e bad =
    told h _ r s' (run_callback-Answers h rootdir s c told_of) e bad
