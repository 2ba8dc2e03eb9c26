-- ===== src/Bbfs/Create.antt =====
-- Files that are made through `bb_create` of ProjectWFuse/src/bbfs.c, which calls my_calls.cc.
use cs179f_bbfs_project.Base.{
  ℕ, ◌+◌, ◌^◌, ◌<◌, ◌≡◌, ◌≢◌, refl, true, false, none, some, [], ◌++◌, ltb, ◌==◌, arith, length,
  Bytes,
}
use cs179f_bbfs_project.Base.Map.{find, nat_key}
use cs179f_bbfs_project.Path.{slash, back}
use cs179f_bbfs_project.Fuse.{long_minus_one, split, get_inode_number, inode_init, Tables}
use cs179f_bbfs_project.Fuse.Names.{d_name_size, my_creat}
use cs179f_bbfs_project.Fuse.Session.{FuseReach}
use cs179f_bbfs_project.Fuse.Rootless.{made_rootless}
use cs179f_bbfs_project.Bbfs.{Host, Mounted, minus, path_max, bb_error, bb_fullpath, on_path}
use cs179f_bbfs_project.Bbfs.Handles.{create_reply, bb_create}

-- A request to create a file fails, wherever calls of my_calls.cc lead from empty tables, for any path that
-- has a last part shorter than 256 and fits below the root: the reply is minus an `errno` that nothing
-- has set, the handle is -1, and afterwards no path leads to a file.
pub bb_create_lost :
    {World : Type 0} (h : Host World) (root path : Bytes) (mode : ℕ) (s : Mounted World)
    → FuseReach s.tables
    → s.tables.addresses + 1 < 2 ^ 64
    → length root + length path < path_max
    → length (split (root ++ path) slash) ≢ 0
    → length (back (split (root ++ path) slash)) < d_name_size
    → (t : Tables) × (bb_create h (some root) path mode s
        ≡ some (
          record { retstat = minus (h.errno s.world); out = []; fh = some long_minus_one },
          record s { tables = t },
        ))
      × ((p : Bytes) → get_inode_number p t ≡ long_minus_one)
unfolding bb_create create_reply my_creat inode_init bb_error bb_fullpath get_inode_number
bb_create_lost h root path mode s reach few fits named short =
    let t : Tables = (inode_init mode s.tables).1 in
    let gone : find 0 t.my_ilist ≡ none = made_rootless mode s.tables reach few in
    let fits' : ltb (length root + length path) path_max ≡ true = ground arith in
    let named' : (length (split (root ++ path) slash) == 0) ≡ false = ground arith in
    let short' : ltb (length (back (split (root ++ path) slash))) d_name_size ≡ true =
      ground arith in
    let made : create_reply h (root ++ path) mode s
        ≡ some (
          record { retstat = minus (h.errno s.world); out = []; fh = some long_minus_one },
          record s { tables = t },
        ) =
      rw (create_reply, my_creat, named', short', gone) refl in
    (t, rw (on_path, fits') made, λ p. rw (get_inode_number, gone) refl)
