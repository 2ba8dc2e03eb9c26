-- ===== src/Links/Rename.antt =====
-- What `my_rename` of a file to a new name does to the paths.
use cs179f_bbfs_project.Base.{
  ℕ, ◌≡◌, ◌≢◌, refl, sym, ap, ◌∙◌, inl, inr, true, false, ◌∷◌, ◌++◌, arith, ◌==◌, Bool-cases, Bytes,
  bytes_beq, bytes_beq_iff,
}
use cs179f_bbfs_project.State.{ok, Dirent, File, Fs, done, file_at, push_dentry, s_isdir, s_islnk}
use cs179f_bbfs_project.State.Effects.{View, set_at, set_at_self, set_at_other}
use cs179f_bbfs_project.Path.{slash, parent_of}
use cs179f_bbfs_project.Path.RoundTrip.{tail_of_child}
use cs179f_bbfs_project.Resolve.View.{search_name, real_ino}
use cs179f_bbfs_project.Resolve.Compose.{real_ino_child}
use cs179f_bbfs_project.Resolve.Follow.{followed}
use cs179f_bbfs_project.Resolve.Grow.{LacksName, search_name_lacks, search_name_pushed}
use cs179f_bbfs_project.Resolve.NewName.{IsNewName}
use cs179f_bbfs_project.Resolve.Keeps.{
  is_dir_at, KeepsDirs, KeepsDirs-trans, KeepsDirs-push, resolve-KeepsDirs,
}
use cs179f_bbfs_project.Links.{erase_name, my_rename}
use cs179f_bbfs_project.Links.Effects.{renamed, IsRenamable, my_rename-renamed}
use cs179f_bbfs_project.Links.Erase.{LacksName-without, search_name_replaced}
use cs179f_bbfs_project.Links.Unlink.{
  LacksName-once, IsFileIn, zero_no_dir, entry_ino, followed_file, parent_no_link, followed_parent,
  file_ne_dir, dir_ne_zero, KeepsDirs-entry, dir_no_link,
}

-- The directory of the file without its old name, and the other one with the new name.
abbrev moved : (fh p q : ℕ) (name newname : Bytes) → View → View
moved fh p q name newname v =
    set_at q (push_dentry (record { d_ino = fh; d_name = newname })) (set_at p (erase_name name) v)

module _ {v : View} {dir name newdir newname : Bytes} (n : IsFileIn v dir name)
    (m : IsNewName v newdir newname) where
  new_parent_no_link : s_islnk (v (real_ino v newdir)).metadata.st_mode ≡ false
  new_parent_no_link = dir_no_link (v (real_ino v newdir)).metadata.st_mode m.is_dir

  file_ne_newdir : real_ino v (dir ++ slash ∷ name) ≢ real_ino v newdir
  file_ne_newdir p = let e = ap (is_dir_at v) p in cc (e, n.no_dir, m.is_dir)

  ready : IsRenamable v (dir ++ slash ∷ name) (newdir ++ slash ∷ newname)
  ready = record {
    followable = λ lnk. cc (lnk, n.no_link);
    parent_followable = λ lnk.
        let e : s_islnk (v (real_ino v (parent_of (dir ++ slash ∷ name)))).metadata.st_mode
            ≡ false =
          rw ((tail_of_child dir name n.plain).1) (parent_no_link n) in
        cc (lnk, e);
    new_parent_followable = λ lnk.
        let e : s_islnk (v (real_ino v (parent_of (newdir ++ slash ∷ newname)))).metadata.st_mode
            ≡ false =
          rw ((tail_of_child newdir newname m.plain).1) new_parent_no_link in
        cc (lnk, e);
    named = rw ((tail_of_child dir name n.plain).0) n.named;
    short = rw ((tail_of_child newdir newname m.plain).0) m.short;
  }

  renamed-moved :
      renamed (dir ++ slash ∷ name) (newdir ++ slash ∷ newname) v
      ≡ moved (real_ino v (dir ++ slash ∷ name)) (real_ino v dir) (real_ino v newdir) name newname v
  renamed-moved =
      let q : followed v (parent_of (newdir ++ slash ∷ newname)) ≡ real_ino v newdir =
        rw ((tail_of_child newdir newname m.plain).1, new_parent_no_link) in
      let free = search_name_lacks newname (v (real_ino v newdir)).dentries m.lacked in
      rw (
        followed_file n,
        followed_parent n,
        q,
        (tail_of_child dir name n.plain).0,
        (tail_of_child newdir newname m.plain).0,
        m.is_dir,
        free,
      )

  module _ (w u : View) (ew : w ≡ set_at (real_ino v dir) (erase_name name) v)
      (eu : u
        ≡ set_at
            (real_ino v newdir)
            (push_dentry (record { d_ino = real_ino v (dir ++ slash ∷ name); d_name = newname }))
            w) where
    w_zero : w 0 ≡ v 0
    w_zero = ap (λ x. x 0) ew ∙ set_at_other v (real_ino v dir) (erase_name name) 0 (dir_ne_zero n)

    keeps : KeepsDirs v u
    keeps =
        let kw : KeepsDirs v w = rw ew (KeepsDirs-entry n) in
        let z : is_dir_at w 0 ≡ false =
          ap (λ (f : File). s_isdir f.metadata.st_mode) w_zero ∙ zero_no_dir n in
        KeepsDirs-trans kw (
          rw eu (
            KeepsDirs-push w (real_ino v newdir)
              (record { d_ino = real_ino v (dir ++ slash ∷ name); d_name = newname }) z))

    still :
        (path : Bytes) → is_dir_at v (real_ino v path) ≡ true → real_ino u path ≡ real_ino v path
    still path h = resolve-KeepsDirs v u _ _ keeps (zero_no_dir n) h

    newdir_ne_zero : 0 ≢ real_ino v newdir
    newdir_ne_zero p = let e = ap (is_dir_at v) p in cc (e, zero_no_dir n, m.is_dir)

    u_zero : is_dir_at u 0 ≡ false
    u_zero =
        ap (λ (f : File). s_isdir f.metadata.st_mode)
          (ap (λ x. x 0) eu
            ∙ set_at_other w (real_ino v newdir)
                (push_dentry
                  (record { d_ino = real_ino v (dir ++ slash ∷ name); d_name = newname }))
                0 newdir_ne_zero
            ∙ w_zero)
        ∙ zero_no_dir n

    lacks_there : LacksName newname (w (real_ino v newdir)).dentries
    lacks_there = elim (Bool-cases (real_ino v newdir == real_ino v dir)) [
      | inl same ↦
          let p : real_ino v newdir ≡ real_ino v dir = ground arith in
          rw (ew, same)
            (LacksName-without newname name (v (real_ino v dir)).dentries (rw p at m.lacked))
      | inr other ↦ rw (ew, other) m.lacked
    ]

    new_path : real_ino u (newdir ++ slash ∷ newname) ≡ real_ino v (dir ++ slash ∷ name)
    new_path =
        let q = real_ino v newdir in
        let d : Dirent = record { d_ino = real_ino v (dir ++ slash ∷ name); d_name = newname } in
        let at_new : u q ≡ push_dentry d (w q) =
          ap (λ x. x q) eu ∙ set_at_self w q (push_dentry d) in
        real_ino_child u newdir newname u_zero m.plain m.some_name
        ∙ rw (still newdir m.is_dir, keeps.dirs q m.is_dir, at_new)
            (search_name_pushed newname (real_ino v (dir ++ slash ∷ name)) (w q).dentries
              lacks_there)

    names_differ : real_ino v newdir ≡ real_ino v dir → bytes_beq newname name ≡ false
    names_differ p = elim (Bool-cases (bytes_beq newname name)) [
      | inr differ ↦ differ
      | inl equal ↦
          let e : newname ≡ name = (bytes_beq_iff newname name).0 equal in
          let free = search_name_lacks newname (v (real_ino v newdir)).dentries m.lacked in
          let gone : search_name name (v (real_ino v dir)).dentries ≡ 0 =
            ap (λ i. search_name name (v i).dentries) (sym p)
            ∙ ap (λ s. search_name s (v (real_ino v newdir)).dentries) (sym e)
            ∙ free in
          absurd (n.some_file (entry_ino n ∙ gone))
    ]

    old_name : search_name name (u (real_ino v dir)).dentries ≡ 0
    old_name =
        let p = real_ino v dir in
        let q = real_ino v newdir in
        let d : Dirent = record { d_ino = real_ino v (dir ++ slash ∷ name); d_name = newname } in
        let w_p : w p ≡ erase_name name (v p) =
          ap (λ x. x p) ew ∙ set_at_self v p (erase_name name) in
        let u_p : u p ≡ set_at q (push_dentry d) w p = ap (λ x. x p) eu in
        elim (Bool-cases (p == q)) [
          | inl same ↦
              let e : p ≡ q = ground arith in
              let w_q : w q ≡ erase_name name (v p) = ap w (sym e) ∙ w_p in
              let at_p : u p ≡ push_dentry d (erase_name name (v p)) =
                u_p ∙ rw same (ap (push_dentry d) w_q) in
              rw at_p (
                search_name_replaced name newname (real_ino v (dir ++ slash ∷ name)) _
                  (LacksName-once name _ n.once) (names_differ (sym e)))
          | inr other ↦
              let at_p : u p ≡ erase_name name (v p) = u_p ∙ rw other w_p in
              rw at_p (search_name_lacks name _ (LacksName-once name _ n.once))
        ]

    old_path : real_ino u (dir ++ slash ∷ name) ≡ 0
    old_path =
        real_ino_child u dir name u_zero n.plain n.some_name
        ∙ rw (still dir n.is_dir, keeps.dirs (real_ino v dir) n.is_dir) old_name

    contents : u (real_ino v (dir ++ slash ∷ name)) ≡ v (real_ino v (dir ++ slash ∷ name))
    contents =
        ap (λ x. x (real_ino v (dir ++ slash ∷ name))) eu
        ∙ set_at_other w (real_ino v newdir)
            (push_dentry (record { d_ino = real_ino v (dir ++ slash ∷ name); d_name = newname }))
            (real_ino v (dir ++ slash ∷ name)) file_ne_newdir
        ∙ ap (λ x. x (real_ino v (dir ++ slash ∷ name))) ew
        ∙ set_at_other v (real_ino v dir) (erase_name name) (real_ino v (dir ++ slash ∷ name))
            (file_ne_dir n)

-- Where number 0 has no mode, a directory has a plain name other than `.` and `..` once, the name leads to a file that is no directory and no link, and the
-- new name is a plain one that fits and that a directory, the same or another, does not have yet: after `my_rename` the new path
-- leads to the file, the old one to nothing, the file is as it was, and every path to a directory
-- leads to the directory still.
pub my_rename_path :
    (dir name newdir newname : Bytes) (fs : Fs)
    → IsFileIn (file_at fs) dir name
    → IsNewName (file_at fs) newdir newname
    → (gs : Fs) × (my_rename (dir ++ slash ∷ name) (newdir ++ slash ∷ newname) fs ≡ done ok gs)
      × (real_ino (file_at gs) (newdir ++ slash ∷ newname)
          ≡ real_ino (file_at fs) (dir ++ slash ∷ name))
      × (real_ino (file_at gs) (dir ++ slash ∷ name) ≡ 0)
      × (file_at gs (real_ino (file_at fs) (dir ++ slash ∷ name))
          ≡ file_at fs (real_ino (file_at fs) (dir ++ slash ∷ name)))
      × ((path : Bytes)
          → is_dir_at (file_at fs) (real_ino (file_at fs) path) ≡ true
          → real_ino (file_at gs) path ≡ real_ino (file_at fs) path)
my_rename_path dir name newdir newname fs n m =
    let v = file_at fs in
    let w : View = set_at (real_ino v dir) (erase_name name) v in
    let (gs, run, e) =
      my_rename-renamed (dir ++ slash ∷ name) (newdir ++ slash ∷ newname) fs (ready n m) in
    let u = e ∙ renamed-moved n m in
    (
      gs,
      run,
      new_path n m w (file_at gs) refl u,
      old_path n m w (file_at gs) refl u,
      contents n m w (file_at gs) refl u,
      still n m w (file_at gs) refl u,
    )
