-- ===== src/Links/Effects.antt =====
-- `my_unlink`, `my_rename` and `my_rmdir` as changes of what the state shows.
use cs179f_bbfs_project.Base.{
  ℕ, ◌<◌, ◌≤◌, ◌≡◌, ◌≢◌, refl, ◌∙◌, inl, inr, true, false, ◌∷◌, arith, ltb, ◌==◌, if◌then◌else◌,
  Bool-cases, length, Bytes,
}
use cs179f_bbfs_project.Base.Words.{dec64}
use cs179f_bbfs_project.State.{
  ok, File, Fs, done, file_at, touch, update, forget, with_nlink, push_dentry, name_room, s_isdir,
}
use cs179f_bbfs_project.State.Effects.{
  View, set_at, erased, file_at-update_as, file_at-forget_as, file_at-touch_as,
}
use cs179f_bbfs_project.Path.{slash, tail_of, parent_of}
use cs179f_bbfs_project.Resolve.{lookup}
use cs179f_bbfs_project.Resolve.View.{search_name, lookup-search}
use cs179f_bbfs_project.Resolve.Follow.{IsFollowable, followed, find_ino_as}
use cs179f_bbfs_project.Create.{is_dot}
use cs179f_bbfs_project.Create.Fresh.{short_frame}
use cs179f_bbfs_project.Links.{erase_name, erase_ino, my_unlink, my_rmdir, make_room, my_rename}

abbrev pub drop_link : File → File
drop_link f = with_nlink (dec64 f.metadata.st_nlink) f

-- The file loses a link, and is erased if that was the last one.
abbrev pub dropped : ℕ → View → View
dropped fh w =
    if (set_at fh drop_link w fh).metadata.st_nlink == 0
    then set_at fh erased (set_at fh drop_link w)
    else set_at fh drop_link w

-- The name leaves the directory at the path's parent, and the file that the path leads to loses a link.
abbrev pub unlinked : Bytes → View → View
unlinked path v =
    dropped (followed v path) (set_at (followed v (parent_of path)) (erase_name (tail_of path)) v)

-- A path to a file that is there, behind a name other than `.` and `..`, with a parent.
pub record IsNamed (v : View) (path : Bytes) : Type 0 where
  pub followable : IsFollowable v path
  pub parent_followable : IsFollowable v (parent_of path)
  pub some_file : followed v path ≢ 0
  pub named : is_dot (tail_of path) ≡ false

-- `my_unlink` of a path that leads to a file takes the name out of the parent's directory, counts one
-- link less, and erases the file at its last link. For a symbolic link that is the file that the link
-- leads to, not the link. Nothing else changes.
pub my_unlink-unlinked :
    (path : Bytes) (fs : Fs)
    → IsNamed (file_at fs) path
    → (gs : Fs) × (my_unlink path fs ≡ done ok gs) × (file_at gs ≡ unlinked path (file_at fs))
unfolding my_unlink
my_unlink-unlinked path fs n =
    let v = file_at fs in
    let fh = followed v path in
    let d = followed v (parent_of path) in
    let (gs1, run1, e1) = find_ino_as path fs v refl n.followable in
    let (gs2, run2, e2) =
      find_ino_as (parent_of path) (touch fh gs1) v (file_at-touch_as fh gs1 v e1)
        n.parent_followable in
    let nz : (fh == 0) ≡ false = ground (arith, n.some_file) in
    let ds : Fs = update d (erase_name (tail_of path)) gs2 in
    let w : View = set_at d (erase_name (tail_of path)) v in
    let e3 : file_at ds ≡ w = file_at-update_as d _ gs2 v e2 in
    let ls : Fs = update fh drop_link ds in
    let e4 : file_at ls ≡ set_at fh drop_link w = file_at-update_as fh drop_link ds w e3 in
    let e5 : file_at (touch fh ls) ≡ set_at fh drop_link w = file_at-touch_as fh ls _ e4 in
    elim (Bool-cases ((set_at fh drop_link w fh).metadata.st_nlink == 0)) [
      | inl last ↦ (
        forget fh (touch fh ls),
        rw (run1, nz, n.named, run2, e4, last),
        file_at-forget_as fh (touch fh ls) _ e5 ∙ rw last,
      )
      | inr kept ↦ (touch fh ls, rw (run1, nz, n.named, run2, e4, kept), e5 ∙ rw kept)
    ]

-- The directory without the name, where the name leads to a file.
abbrev pub roomy : Bytes → ℕ → View → View
roomy name q v =
    if (if s_isdir (v q).metadata.st_mode then search_name name (v q).dentries else 0) == 0
    then v
    else set_at q (erase_name name) v

-- The number behind the old path gets the new name in the new parent; the old name goes, and so does
-- what stood under the new one.
abbrev pub renamed : (path newpath : Bytes) → View → View
renamed path newpath v =
    set_at (followed v (parent_of newpath))
      (push_dentry (record { d_ino = followed v path; d_name = tail_of newpath }))
      (set_at (followed v (parent_of path)) (erase_name (tail_of path))
        (roomy (tail_of newpath) (followed v (parent_of newpath)) v))

make_room-roomy :
    (name : Bytes) (q : ℕ) (fs : Fs) (v : View)
    → file_at fs ≡ v
    → (gs : Fs) × (make_room name q fs ≡ done tt gs) × (file_at gs ≡ roomy name q v)
unfolding make_room
make_room-roomy name q fs v e =
    let ino : ℕ = if s_isdir (v q).metadata.st_mode then search_name name (v q).dentries else 0 in
    let found : lookup name q fs ≡ done ino (touch q fs) = lookup-search name q fs ∙ rw e in
    let e' : file_at (touch q fs) ≡ v = file_at-touch_as q fs v e in
    elim (Bool-cases (ino == 0)) [
      | inl free ↦ (touch q fs, rw (found, free), e' ∙ rw free)
      | inr taken ↦ (
        update q (erase_name name) (touch q fs),
        rw (found, taken),
        file_at-update_as q (erase_name name) (touch q fs) v e' ∙ rw taken,
      )
    ]

-- What `my_rename` needs: the paths can be followed, and the names are plain ones that fit.
pub record IsRenamable (v : View) (path newpath : Bytes) : Type 0 where
  pub followable : IsFollowable v path
  pub parent_followable : IsFollowable v (parent_of path)
  pub new_parent_followable : IsFollowable v (parent_of newpath)
  pub named : is_dot (tail_of path) ≡ false
  pub short : length (tail_of newpath) < name_room

-- `my_rename` puts the number that the old path leads to, 0 if that is no file, under the new name, takes
-- away what stood there, and takes away the old name. It reports success whatever the paths lead to,
-- and no link count changes.
pub my_rename-renamed :
    (path newpath : Bytes) (fs : Fs)
    → IsRenamable (file_at fs) path newpath
    → (gs : Fs) × (my_rename path newpath fs ≡ done ok gs)
      × (file_at gs ≡ renamed path newpath (file_at fs))
unfolding my_rename
my_rename-renamed path newpath fs n =
    let v = file_at fs in
    let q = followed v (parent_of newpath) in
    let p = followed v (parent_of path) in
    let (gs1, run1, e1) = find_ino_as path fs v refl n.followable in
    let (gs2, run2, e2) = find_ino_as (parent_of path) gs1 v e1 n.parent_followable in
    let (gs3, run3, e3) = find_ino_as (parent_of newpath) gs2 v e2 n.new_parent_followable in
    let (gs4, run4, e4) = make_room-roomy (tail_of newpath) q gs3 v e3 in
    let ds : Fs = update p (erase_name (tail_of path)) gs4 in
    let e5 = file_at-update_as p (erase_name (tail_of path)) gs4 _ e4 in
    (
      update q (push_dentry (record { d_ino = followed v path; d_name = tail_of newpath })) ds,
      rw (
        run1,
        run2,
        n.named,
        run3,
        run4,
        short_frame (followed v path) (tail_of newpath) ds n.short,
      ),
      file_at-update_as q
          (push_dentry (record { d_ino = followed v path; d_name = tail_of newpath })) ds _ e5,
    )

-- The entry with the directory's number leaves the parent, and the directory is erased if it had one
-- link.
abbrev pub removed : Bytes → View → View
removed path v =
    let w = set_at (followed v (slash ∷ parent_of path)) (erase_ino (followed v path)) v in
    if dec64 (v (followed v path)).metadata.st_nlink == 0
    then set_at (followed v path) erased w
    else w

-- What `my_rmdir` accepts: a directory with at most two entries.
pub record IsRemovable (v : View) (path : Bytes) : Type 0 where
  pub followable : IsFollowable v path
  pub parent_followable : IsFollowable v (slash ∷ parent_of path)
  pub is_dir : s_isdir (v (followed v path)).metadata.st_mode ≡ true
  pub few : length (v (followed v path)).dentries ≤ 2

-- `my_rmdir` of a directory with at most two entries, the root as well, takes its entry out of the
-- parent and erases it if it had one link; nothing else changes.
pub my_rmdir-removed :
    (path : Bytes) (fs : Fs)
    → IsRemovable (file_at fs) path
    → (gs : Fs) × (my_rmdir path fs ≡ done ok gs) × (file_at gs ≡ removed path (file_at fs))
unfolding my_rmdir
my_rmdir-removed path fs n =
    let v = file_at fs in
    let fh = followed v path in
    let p = followed v (slash ∷ parent_of path) in
    let (gs1, run1, e1) = find_ino_as path fs v refl n.followable in
    let (gs2, run2, e2) =
      find_ino_as (slash ∷ parent_of path) (touch fh gs1) v (file_at-touch_as fh gs1 v e1)
        n.parent_followable in
    let few : ltb 2 (length (v fh).dentries) ≡ false = ground (arith, n.few) in
    let ds : Fs = update p (erase_ino fh) gs2 in
    let e3 : file_at ds ≡ set_at p (erase_ino fh) v = file_at-update_as p (erase_ino fh) gs2 v e2 in
    elim (Bool-cases (dec64 (v fh).metadata.st_nlink == 0)) [
      | inl last ↦ (
        forget fh ds,
        rw (run1, e1, n.is_dir, few, run2, last),
        file_at-forget_as fh ds _ e3 ∙ rw last,
      )
      | inr kept ↦ (ds, rw (run1, e1, n.is_dir, few, run2, kept), e3 ∙ rw kept)
    ]
