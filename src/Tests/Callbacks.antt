-- ===== src/Tests/Callbacks.antt =====
-- The theorems on the callbacks of bbfs.c at concrete inputs, on a host that is a list of names to
-- read and an `errno`.
use cs179f_bbfs_project.Base.{
  length, ℕ, ◌≡◌, refl, false, Option, none, some, List, [], ◌∷◌, arith, Bytes, codes, bytes_beq,
}
use cs179f_bbfs_project.Fuse.{
  minus_one, long_minus_one, Tables, no_tables, split, split_loop, push_part, get_inode_number,
}
use cs179f_bbfs_project.Fuse.Session.{start}
use cs179f_bbfs_project.Path.{find_byte, back}
use cs179f_bbfs_project.Bbfs.{
  Sys, Host, Mounted, plain, minus, bb_fullpath, on_path, checked, bb_error,
}
use cs179f_bbfs_project.Bbfs.Session
use cs179f_bbfs_project.Bbfs.Errors.{drops_errno, run_callback_errno}
use cs179f_bbfs_project.Bbfs.Readdir.{Stream, entry, ended, listed, bb_readdir_fills}
use cs179f_bbfs_project.Bbfs.Create.{bb_create_lost}
use cs179f_bbfs_project.Bbfs.Main.{exits, starts_with_dash, bb_main, bb_main_mounts}
use cs179f_bbfs_project.Bbfs.Paths.{bb_unlink}
use cs179f_bbfs_project.Bbfs.Handles.{bb_create, bb_readdir}

abbrev World : Type 0
World = ℕ × List Bytes

-- EACCES.
abbrev denied : Sys World ℕ
denied (e, names) = (minus_one, (13, names))

abbrev denied_data : Sys World (ℕ × Bytes)
denied_data (e, names) = ((minus_one, []), (13, names))

abbrev reads_name : Sys World (Option Bytes)
reads_name (e, []) = (none, (e, []))
reads_name (e, name ∷ names) = (some name, (e, names))

-- A host that only reads names.
abbrev toy : Host World
toy = record {
  errno = λ w. w.0;
  has_fdatasync = false;
  lstat = λ p. denied_data;
  readlink = λ p size. denied_data;
  open_mode = λ p flags mode. denied;
  open_file = λ p flags. denied;
  mkfifo = λ p mode. denied;
  mknod = λ p mode dev. denied;
  mkdir = λ p mode. denied;
  unlink = λ p. denied;
  rmdir = λ p. denied;
  symlink = λ p q. denied;
  rename = λ p q. denied;
  link = λ p q. denied;
  chmod = λ p mode. denied;
  chown = λ p uid gid. denied;
  truncate = λ p size. denied;
  utime = λ p ubuf. denied;
  statvfs = λ p. denied_data;
  lsetxattr = λ p name value size flags. denied;
  lgetxattr = λ p name size. denied_data;
  llistxattr = λ p size. denied_data;
  lremovexattr = λ p name. denied;
  access = λ p mask. denied;
  opendir = λ p w. (7, w);
  pread = λ fd size offset. denied_data;
  pwrite = λ fd buf size offset. denied;
  close_fd = λ fd. denied;
  fsync = λ fd. denied;
  fdatasync = λ fd. denied;
  ftruncate = λ fd size. denied;
  fstat = λ fd. denied_data;
  readdir = λ dp. reads_name;
  closedir = λ dp w. (0, w);
}

abbrev host_root : Bytes
host_root = codes "/srv"

abbrev mounted : Mounted World
mounted = record { world = (0, codes "." ∷ codes "a" ∷ []); tables = no_tables }

abbrev requests : List Session.Callback
requests =
    Session.at_path (Session.opendir (codes "/"))
    ∷ Session.at_path (Session.unlink (codes "/a"))
    ∷ Session.readdir [] (λ name buf. (0, name)) 5 7
    ∷ []

abbrev refused : Mounted World
refused = record { world = (13, codes "." ∷ codes "a" ∷ []); tables = no_tables }

unlink_refused :
    Session.run_callback toy
      (some host_root)
      (Session.at_path (Session.unlink (codes "/a")))
      mounted
    ≡ some (plain (minus 13), refused)
unfolding Session.run_callback Session.run_path bb_unlink on_path bb_fullpath checked bb_error
unlink_refused = refl

run_callback_errno_example : minus 13 ≡ minus (toy.errno refused.world)
unfolding drops_errno
run_callback_errno_example =
    run_callback_errno toy (some host_root) (Session.at_path (Session.unlink (codes "/a"))) mounted
      refused (plain (minus 13)) refl unlink_refused refl

-- A buffer of names with room for one.
abbrev room_for_one : Bytes → List Bytes → ℕ × List Bytes
room_for_one name [] = (0, name ∷ [])
room_for_one name (kept ∷ names) = (1, kept ∷ names)

two_names : Stream toy 7 mounted.world (codes "." ∷ codes "a" ∷ [])
two_names = entry refl (entry refl (ended refl))

bb_readdir_fills_example :
    (s : Mounted World) × (bb_readdir toy room_for_one 2 7 [] mounted
      ≡ some (listed room_for_one s.world.0 (codes "." ∷ codes "a" ∷ []) [], s))
bb_readdir_fills_example =
    bb_readdir_fills toy room_for_one 7 2 (codes "." ∷ codes "a" ∷ []) [] mounted two_names
      (omega arith)

bb_create_lost_example :
    (t : Tables) × (bb_create toy (some host_root) (codes "/a") 0o644 mounted
      ≡ some (
        record { retstat = minus 0; out = []; fh = some long_minus_one },
        record mounted { tables = t },
      ))
    × ((p : Bytes) → get_inode_number p t ≡ long_minus_one)
unfolding split split_loop push_part find_byte bytes_beq back
bb_create_lost_example =
    bb_create_lost toy host_root (codes "/a") 0o644 mounted start (omega arith) (omega arith)
      (omega arith) (omega arith)

bb_main_mounts_example :
    bb_main 1000 1000 some
      (λ path mode. 9)
      (λ argv root logfile. length argv)
      (codes "bbfs" ∷ codes "-d" ∷ codes "/srv" ∷ codes "/mnt" ∷ [])
    ≡ exits 3
unfolding starts_with_dash
bb_main_mounts_example =
    bb_main_mounts 1000 1000 some (λ path mode. 9) (λ argv root logfile. length argv)
      (codes "bbfs" ∷ codes "-d" ∷ []) (codes "/srv") (codes "/mnt") (omega arith) (omega arith)
      (omega arith) refl refl (omega arith)
