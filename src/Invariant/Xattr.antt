-- ===== src/Invariant/Xattr.antt =====
-- The operations on extended attributes keep the file system well-formed.
use cs179f_bbfs_project.Base.{ℕ, ◌<◌, ◌==◌, Bytes}
use cs179f_bbfs_project.Base.Map.{Map, find, bytes_key}
use cs179f_bbfs_project.State.{Fs, File, file_at, touch, update}
use cs179f_bbfs_project.Xattr.{my_lsetxattr, my_lgetxattr, my_llistxattr, my_lremovexattr}
use cs179f_bbfs_project.Invariant.{Ensures, returns}
use cs179f_bbfs_project.Invariant.Rules.{
  IsGood, Good, IsGood-errno, IsGood-touch, IsGood-update, lt-touch, find_then, find_real_then,
  branch, option_branch,
}

module _ {n : ℕ} {fs : Fs} (g : IsGood n fs) where
  IsGood-xattr :
      (fh : ℕ) (set : File → Map Bytes Bytes)
      → fh < fs.count
      → IsGood n (update fh (λ f. record f { xattr = set f }) (touch fh fs))
  IsGood-xattr fh set lt =
      let t = IsGood-touch g fh in
      let h = t.formed.files fh in
      IsGood-update t fh _ (lt-touch g fh fh lt)
        (record { zero_mode = h.zero_mode; inos = h.inos; fit = h.fit })

module _ {n : ℕ} {fs : Fs} (g : IsGood n fs) where
  pub my_lsetxattr-Good :
      (path name value : Bytes) → Ensures (Good n) (my_lsetxattr path name value fs)
  unfolding my_lsetxattr
  my_lsetxattr-Good path name value = find_real_then g path λ fh gs g' same lt.
      branch (fh == 0) _ _ (λ z. returns (IsGood-errno g' _))
        λ nz.
          option_branch (find name (file_at gs fh).xattr) _ _
            (λ new. returns (IsGood-xattr g' fh _ lt))
            (λ v old. returns (IsGood-errno (IsGood-touch g' fh) _))

  pub my_lgetxattr-Good : (path name : Bytes) → Ensures (Good n) (my_lgetxattr path name fs)
  unfolding my_lgetxattr
  my_lgetxattr-Good path name = find_real_then g path λ fh gs g' same lt.
      branch (fh == 0) _ _ (λ z. returns (IsGood-errno g' _))
        λ nz.
          option_branch (find name (file_at gs fh).xattr) _ _ (λ new. returns (IsGood-touch g' fh))
            (λ v old. returns (IsGood-touch g' fh))

  pub my_llistxattr-Good : (path : Bytes) (size : ℕ) → Ensures (Good n) (my_llistxattr path size fs)
  unfolding my_llistxattr
  my_llistxattr-Good path size = find_real_then g path λ fh gs g' same lt.
      branch (fh == 0) _ _ (λ z. returns (IsGood-errno g' _)) (λ nz. returns (IsGood-touch g' fh))

  pub my_lremovexattr-Good : (path name : Bytes) → Ensures (Good n) (my_lremovexattr path name fs)
  unfolding my_lremovexattr
  my_lremovexattr-Good path name = find_then g path λ fh gs g' same lt.
      branch (fh == 0) _ _ (λ z. returns (IsGood-errno g' _))
        λ nz.
          option_branch (find name (file_at gs fh).xattr) _ _
            (λ new. returns (IsGood-errno (IsGood-touch g' fh) _))
            (λ v old. returns (IsGood-xattr g' fh _ lt))
