-- ===== src/Invariant/Links.antt =====
-- The operations on names keep the file system well-formed.
use cs179f_bbfs_project.Base.{
  ℕ, ◌<◌, ◌≡◌, not, List, [], ◌∷◌, arith, ◌==◌, ltb, Bool, Bytes, length,
}
use cs179f_bbfs_project.Base.Words.{inc64, dec64}
use cs179f_bbfs_project.State.{Env, Dirent, Fs, an_err, file_at, update, s_isreg, s_isdir, or_iflnk}
use cs179f_bbfs_project.Path.{slash, tail_of, parent_of}
use cs179f_bbfs_project.Create.{is_dot}
use cs179f_bbfs_project.Links.{
  erase_first, my_link, my_unlink, my_rmdir, my_symlink, make_room, my_rename,
}
use cs179f_bbfs_project.Invariant.{Ensures, returns, bind, InosBelow}
use cs179f_bbfs_project.Invariant.Parts.{lookup-Finds}
use cs179f_bbfs_project.Invariant.Rules.{
  IsGood, Good, IsGood-errno, IsGood-touch, IsGood-update, IsGood-forget, IsGood-SameView, lt-touch,
  find_then, branch,
}
use cs179f_bbfs_project.Invariant.Attributes.{lt-update, my_chmod-Good}
use cs179f_bbfs_project.Invariant.Contents.{IsGood-nlink, erase_unlinked-Good, my_pwrite-Good}
use cs179f_bbfs_project.Invariant.Create.{IsGood-push, dirent_then, my_creat-Good}

InosBelow-erase_first :
    (n : ℕ) (test : Dirent → Bool) (ds : List Dirent)
    → InosBelow n ds
    → InosBelow n (erase_first test ds)
unfolding erase_first
InosBelow-erase_first n test [] b = tt
InosBelow-erase_first n test (d ∷ ds) (hd, b) = ground (arith, InosBelow-erase_first n test ds b)

module _ {n : ℕ} {fs : Fs} (g : IsGood n fs) where
  IsGood-erase :
      (fh : ℕ) (test : Dirent → Bool)
      → fh < fs.count
      → IsGood n (update fh (λ f. record f { dentries = erase_first test f.dentries }) fs)
  IsGood-erase fh test lt =
      let h = g.formed.files fh in
      IsGood-update g fh _ lt (record {
        zero_mode = h.zero_mode;
        inos = InosBelow-erase_first fs.count test (file_at fs fh).dentries h.inos;
        fit = h.fit;
      })

module _ {n : ℕ} {fs : Fs} (g : IsGood n fs) where
  pub my_link-Good : (path newpath : Bytes) → Ensures (Good n) (my_link path newpath fs)
  unfolding my_link
  my_link-Good path newpath = find_then g path λ fh f1 g1 same1 lt.
      branch (fh == 0) _ _ (λ z. returns (IsGood-errno g1 _))
        λ nz.
          let t = IsGood-touch g1 fh in
          branch (not (s_isreg (file_at f1 fh).metadata.st_mode)) _ _
            (λ other. returns (IsGood-errno t _))
            λ reg. find_then t (parent_of newpath) λ parent f2 g2 same2 lt2.
              branch (parent == 0) _ _ (λ z. returns (IsGood-errno g2 _))
                λ there. find_then g2 newpath λ new f3 g3 same3 lt3.
                  branch (not (new == 0)) _ _ (λ taken. returns (IsGood-errno g3 _))
                    λ free.
                      let below : fh < f3.count = omega (arith, lt-touch g1 fh fh lt) in
                      let up = IsGood-nlink g3 fh inc64 below in
                      dirent_then up fh (tail_of newpath) _ λ d e. returns (
                        IsGood-push up parent d (lt-update g3 fh parent _ (omega arith))
                          (lt-update g3 fh d.d_ino _ (omega (arith, e))))

  pub my_unlink-Good : (path : Bytes) → Ensures (Good n) (my_unlink path fs)
  unfolding my_unlink
  my_unlink-Good path = find_then g path λ fh f1 g1 same1 lt.
      let t = IsGood-touch g1 fh in
      branch (fh == 0) _ _ (λ z. returns (IsGood-errno t _))
        λ nz.
          branch (is_dot (tail_of path)) _ _ (λ dots. returns t)
            λ name. find_then t (parent_of path) λ parent f2 g2 same2 lt2.
              let gone = IsGood-erase g2 parent _ lt2 in
              let below : fh < f2.count = omega (arith, lt-touch g1 fh fh lt) in
              erase_unlinked-Good (IsGood-nlink gone fh dec64 (lt-update g2 parent fh _ below)) fh

  pub my_rmdir-Good : (path : Bytes) → Ensures (Good n) (my_rmdir path fs)
  unfolding my_rmdir
  my_rmdir-Good path = find_then g path λ fh f1 g1 same1 lt.
      let t = IsGood-touch g1 fh in
      branch (not (s_isdir (file_at f1 fh).metadata.st_mode)) _ _
        (λ file. returns (IsGood-errno t _))
        λ dir.
          branch (ltb 2 (length (file_at f1 fh).dentries)) _ _ (λ full. returns (IsGood-errno t _))
            λ empty. find_then t (slash ∷ parent_of path) λ parent f2 g2 same2 lt2.
              let gone = IsGood-erase g2 parent _ lt2 in
              branch (dec64 (file_at f1 fh).metadata.st_nlink == 0) _ _
                (λ last. returns (IsGood-forget gone fh)) (λ more. returns gone)

  pub my_symlink-Good :
      (env : Env) (path link : Bytes) → Ensures (Good n) (my_symlink env path link fs)
  unfolding my_symlink
  my_symlink-Good env path link =
      branch (is_dot (tail_of link)) _ _ (λ dots. returns g)
        λ name. find_then g link λ old f1 g1 same1 lt1.
          branch (not (old == 0)) _ _ (λ taken. returns (IsGood-errno g1 _))
            λ free. bind (my_creat-Good g1 env link 666) λ err f2 g2.
              branch (err == an_err) _ _ (λ failed. returns g2)
                λ made. find_then g2 link λ fh f3 g3 same3 lt3.
                  bind (my_pwrite-Good g3 fh path (length path) 0 lt3) λ written f4 g4.
                    bind
                      (my_chmod-Good (IsGood-touch g4 fh) link
                        (or_iflnk (file_at f4 fh).metadata.st_mode))
                      λ err' f5 g5.
                        branch (err' == an_err) _ _ (λ failed. returns g5) (λ done. returns g5)

  make_room-Good :
      (name : Bytes) (fh : ℕ)
      → fh < fs.count
      → Ensures (λ _ gs. IsGood n gs × (gs.count ≡ fs.count)) (make_room name fh fs)
  unfolding make_room update
  make_room-Good name fh lt = bind (lookup-Finds fs g.formed name fh) λ taken gs (same, below).
      let g' = IsGood-SameView g same in
      branch (not (taken == 0)) _ _
        (λ there. returns (IsGood-erase g' fh _ (omega (arith, same.count)), same.count))
        (λ free. returns (g', same.count))

module _ {n : ℕ} {fs : Fs} (g : IsGood n fs) where
  pub my_rename-Good : (path newpath : Bytes) → Ensures (Good n) (my_rename path newpath fs)
  unfolding my_rename
  my_rename-Good path newpath = find_then g path λ fh f1 g1 same1 lt1.
      find_then g1 (parent_of path) λ parent f2 g2 same2 lt2.
        branch (is_dot (tail_of path)) _ _ (λ dots. returns g2)
          λ name. find_then g2 (parent_of newpath) λ parent' f3 g3 same3 lt3.
            bind (make_room-Good g3 (tail_of newpath) parent' lt3) λ _ f4 (g4, same4).
              let gone = IsGood-erase g4 parent _ (omega arith) in
              dirent_then gone fh (tail_of newpath) _ λ d e. returns (
                IsGood-push gone parent' d (lt-update g4 parent parent' _ (omega arith))
                  (lt-update g4 parent d.d_ino _ (omega (arith, e))))
