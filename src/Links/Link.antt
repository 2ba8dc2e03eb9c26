-- ===== src/Links/Link.antt =====
-- `my_link`: the new path leads to the file, and all other paths stay.
use cs179f_bbfs_project.Base.{
  ℕ, ◌≡◌, ◌≢◌, refl, sym, ap, ◌∙◌, inl, inr, true, false, [], ◌∷◌, ◌++◌, arith, ◌==◌, append-nil,
  Bytes, Bool-cases,
}
use cs179f_bbfs_project.Base.Words.{inc64}
use cs179f_bbfs_project.State.{
  ok, File, Fs, done, file_at, touch, update, with_nlink, push_dentry, s_isdir, s_isreg,
}
use cs179f_bbfs_project.State.Effects.{
  View, set_at, set_at_self, set_at_other, file_at-update_as, file_at-touch_as,
}
use cs179f_bbfs_project.Path.{slash}
use cs179f_bbfs_project.Path.RoundTrip.{tail_of_child}
use cs179f_bbfs_project.Resolve.View.{real_ino}
use cs179f_bbfs_project.Resolve.Compose.{Extends, resolve-Extends}
use cs179f_bbfs_project.Resolve.Follow.{IsFollowable, followed, find_ino_as}
use cs179f_bbfs_project.Resolve.Grow.{Extends-of_Grows, Adds, Adds-kept, Adds-child}
use cs179f_bbfs_project.Resolve.NewName.{
  IsNewName, zero_kinds, find_parent, find_free, new_dir_ne_zero, same_dir, still_new, Adds-entry,
}
use cs179f_bbfs_project.Create.Fresh.{short_frame}
use cs179f_bbfs_project.Links.{my_link}

abbrev pub more_links : File → File
more_links f = with_nlink (inc64 f.metadata.st_nlink) f

pub reg_not_dir : (mode : ℕ) → s_isreg mode ≡ true → s_isdir mode ≡ false
reg_not_dir mode h = ground arith

pub dir_ne_file :
    (view : ℕ → File) (d fh : ℕ)
    → s_isdir (view d).metadata.st_mode ≡ true
    → s_isreg (view fh).metadata.st_mode ≡ true
    → d ≢ fh
dir_ne_file view d fh dir reg p =
    let q = ap (λ i. s_isdir (view i).metadata.st_mode) p in
    let r = reg_not_dir (view fh).metadata.st_mode reg in cc (dir, q, r)

linked-Extends : (fh : ℕ) (v : View) → Extends v (set_at fh more_links v)
linked-Extends fh v = Extends-of_Grows v (set_at fh more_links v) (λ i.
    elim (Bool-cases (i == fh)) [
      | inl same ↦
          let p : i ≡ fh = ground arith in
          let now : set_at fh more_links v i ≡ more_links (v i) = rw (same, p) in
          rw now (record { dir = λ d. d; more = []; dentries = sym (append-nil (v i).dentries) })
      | inr other ↦
          let now : set_at fh more_links v i ≡ v i = rw other in
          rw now (record { dir = λ d. d; more = []; dentries = sym (append-nil (v i).dentries) })
    ])

-- The file has one link more, and the directory an entry for it.
abbrev pub linked : (path dir name : Bytes) → View → View
linked path dir name v =
    set_at (real_ino v dir) (push_dentry (record { d_ino = followed v path; d_name = name }))
      (set_at (followed v path) more_links v)

-- `my_link` as a change of what the state shows.
pub my_link_effect :
    (path dir name : Bytes) (fs : Fs)
    → IsFollowable (file_at fs) path
    → followed (file_at fs) path ≢ 0
    → s_isreg (file_at fs (followed (file_at fs) path)).metadata.st_mode ≡ true
    → (file_at fs 0).metadata.st_mode ≡ 0
    → IsNewName (file_at fs) dir name
    → (gs : Fs) × (my_link path (dir ++ slash ∷ name) fs ≡ done ok gs)
      × (file_at gs ≡ linked path dir name (file_at fs))
unfolding my_link
my_link_effect path dir name fs h nz reg zero n =
    let v = file_at fs in
    let fh = followed v path in
    let d = real_ino v dir in
    let (gs1, run1, e1) = find_ino_as path fs v refl h in
    let e2 : file_at (touch fh gs1) ≡ v = file_at-touch_as fh gs1 v e1 in
    let nz' : (fh == 0) ≡ false = ground (arith, nz) in
    let (gs3, run3, same3) = find_parent n zero (touch fh gs1) e2 in
    let pz : (d == 0) ≡ false = ground (arith, new_dir_ne_zero n zero) in
    let (gs4, run4, same4) = find_free n zero gs3 (same3.files ∙ e2) in
    let reg' : s_isreg (file_at gs1 fh).metadata.st_mode ≡ true = rw e1 reg in
    let ls : Fs = update fh more_links gs4 in
    let e5 : file_at ls ≡ set_at fh more_links v =
      file_at-update_as fh more_links gs4 v (same4.files ∙ same3.files ∙ e2) in
    (
      update d (push_dentry (record { d_ino = fh; d_name = name })) ls,
      rw (
        run1,
        nz',
        reg',
        run3,
        pz,
        run4,
        (tail_of_child dir name n.plain).0,
        short_frame fh name ls n.short,
      ),
      file_at-update_as d (push_dentry (record { d_ino = fh; d_name = name })) ls _ e5,
    )

-- Where `path` leads to a regular file and the new name is free, the new path leads to the same
-- file, the file has one link more, and the paths that led to a file lead to it still.
pub my_link-linked :
    (path dir name : Bytes) (fs : Fs)
    → IsFollowable (file_at fs) path
    → followed (file_at fs) path ≢ 0
    → s_isreg (file_at fs (followed (file_at fs) path)).metadata.st_mode ≡ true
    → (file_at fs 0).metadata.st_mode ≡ 0
    → IsNewName (file_at fs) dir name
    → (gs : Fs) × (my_link path (dir ++ slash ∷ name) fs ≡ done ok gs)
      × (real_ino (file_at gs) (dir ++ slash ∷ name) ≡ followed (file_at fs) path)
      × (file_at gs (followed (file_at fs) path)
          ≡ with_nlink
              (inc64 (file_at fs (followed (file_at fs) path)).metadata.st_nlink)
              (file_at fs (followed (file_at fs) path)))
      × ((other : Bytes)
          → real_ino (file_at fs) other ≢ 0
          → real_ino (file_at gs) other ≡ real_ino (file_at fs) other)
my_link-linked path dir name fs h nz reg zero n =
    let v = file_at fs in
    let fh = followed v path in
    let d = real_ino v dir in
    let w : View = set_at fh more_links v in
    let (gs, run, e) = my_link_effect path dir name fs h nz reg zero n in
    let x : Extends v w = linked-Extends fh v in
    let d_ne : d ≢ fh = dir_ne_file v d fh n.is_dir reg in
    let d_same : w d ≡ v d = set_at_other v fh more_links d d_ne in
    let n' = still_new n zero x d_same in
    let dir_same = same_dir n zero x d_same in
    let zero_stays : w 0 ≡ v 0 = set_at_other v fh more_links 0 (λ z. nz (sym z)) in
    let zero' : (w 0).metadata.st_mode ≡ 0 =
      ap (λ (f : File). f.metadata.st_mode) zero_stays ∙ zero in
    let a : Adds w (file_at gs) dir name fh =
      Adds-entry n' zero' (file_at gs) fh (λ i. ap (λ u. u i) e ∙ rw dir_same) in
    let kept : (q : Bytes) → real_ino v q ≢ 0 → real_ino w q ≡ real_ino v q =
      λ q nq. resolve-Extends _ _ _ _ x (zero_kinds (v 0).metadata.st_mode zero).0 nq in
    (
      gs,
      run,
      Adds-child a,
      ap (λ u. u fh) e
          ∙ set_at_other w d (push_dentry (record { d_ino = fh; d_name = name })) fh
              (λ p. d_ne (sym p))
          ∙ set_at_self v fh more_links,
      λ q nq. Adds-kept a q (λ z. nq (sym (kept q nq) ∙ z)) ∙ kept q nq,
    )
