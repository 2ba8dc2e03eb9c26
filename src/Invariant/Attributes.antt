-- ===== src/Invariant/Attributes.antt =====
-- The operations on metadata keep the file system well-formed.
use cs179f_bbfs_project.Base.{
  ℕ, ◌<◌, ◌≡◌, refl, ◌∙◌, inl, inr, false, Option, none, some, arith, ◌==◌, Bool, Bytes, Bool-cases,
}
use cs179f_bbfs_project.State.{
  an_err, Stat, Fs, File, pure, M, has_entry, file_at, update, with_mode,
}
use cs179f_bbfs_project.Attributes.{
  check_access, my_fstat, my_lstat, my_access, my_chmod, my_chown, my_utime, my_statvfs,
}
use cs179f_bbfs_project.Invariant.{Ensures, returns, bind, IsFileOk}
use cs179f_bbfs_project.Invariant.Rules.{
  IsGood, Good, IsGood-errno, IsGood-touch, IsGood-update, lt-touch, find_then, find_real_then,
  branch,
}

-- A change that leaves type, entries and bytes alone.
pub metadata-IsFileOk :
    (count fh : ℕ) (f : File) (md : Stat)
    → IsFileOk count fh f
    → md.st_mode ≡ f.metadata.st_mode
    → IsFileOk count fh (record f { metadata = md })
metadata-IsFileOk count fh f md h same = record {
  zero_mode = λ e. same ∙ h.zero_mode e;
  inos = h.inos;
  fit = h.fit;
}

with_mode-IsFileOk :
    (count fh mode : ℕ) (f : File)
    → IsFileOk count fh f
    → (fh == 0) ≡ false
    → IsFileOk count fh (with_mode mode f)
with_mode-IsFileOk count fh mode f h nz = record {
  zero_mode = λ e. absurd (ground arith);
  inos = h.inos;
  fit = h.fit;
}

module _ {n : ℕ} {fs : Fs} (g : IsGood n fs) where
  -- A write of metadata that leaves the mode alone.
  pub IsGood-metadata :
      (fh : ℕ) (set : File → Stat)
      → fh < fs.count
      → (set (file_at fs fh)).st_mode ≡ (file_at fs fh).metadata.st_mode
      → IsGood n (update fh (λ f. record f { metadata = set f }) fs)
  IsGood-metadata fh set lt same =
      IsGood-update g fh _ lt
        (metadata-IsFileOk fs.count fh (file_at fs fh) _ (g.formed.files fh) same)

  pub lt-update : (fh j : ℕ) (h : File → File) → j < fs.count → j < (update fh h fs).count
  unfolding update
  lt-update fh j h lt = lt

module _ {n : ℕ} {fs : Fs} (g : IsGood n fs) where
  pub my_fstat-Good : (fh : ℕ) → Ensures (Good n) (my_fstat fh fs)
  unfolding my_fstat
  my_fstat-Good fh = elim (Bool-cases (has_entry fs fh)) [
    | inl there ↦ rw there (returns (IsGood-touch g fh))
    | inr missing ↦ rw missing (returns (IsGood-errno g _))
  ]

module _ {n : ℕ} {fs : Fs} (g : IsGood n fs) where
  pub my_lstat-Good : (path : Bytes) → Ensures (Good n) (my_lstat path fs)
  unfolding my_lstat
  my_lstat-Good path = find_real_then g path λ fh gs g' same lt.
      branch (fh == 0) _ _ (λ z. returns (IsGood-errno g' _)) (λ nz. my_fstat-Good g' fh)

  pub my_access-Good : (path : Bytes) (mask : ℕ) → Ensures (Good n) (my_access path mask fs)
  unfolding my_access
  my_access-Good path mask =
      find_then g path
        λ fh gs g' same lt. bind (my_fstat-Good g' fh) λ (err, st) hs good. checked err st hs good
    where
      checked :
          (err : ℕ) (st : Option Stat) (hs : Fs)
          → IsGood n hs
          → Ensures (Good n) (
              (elim st as (λ _. M ℕ) [
                | none ↦ pure an_err
                | some s ↦ pure (check_access s.st_mode mask)
              ])
                hs)
      checked err none hs good = returns good
      checked err (some s) hs good = returns good

  pub my_chmod-Good : (path : Bytes) (mode : ℕ) → Ensures (Good n) (my_chmod path mode fs)
  unfolding my_chmod
  my_chmod-Good path mode = find_then g path λ fh gs g' same lt.
      branch (fh == 0) _ _ (λ z. returns (IsGood-touch g' fh))
        λ nz.
          let t = IsGood-touch g' fh in
          returns (
            IsGood-update t fh _ (lt-touch g' fh fh lt)
              (with_mode-IsFileOk _ fh _ _ (t.formed.files fh) nz))

  pub my_chown-Good : (path : Bytes) (uid gid : ℕ) → Ensures (Good n) (my_chown path uid gid fs)
  unfolding my_chown
  my_chown-Good path uid gid = find_then g path λ fh gs g' same lt.
      branch (fh == 0) _ _ (λ z. returns g')
        λ nz.
          returns
            (IsGood-metadata (IsGood-metadata g' fh _ lt refl) fh _ (lt-update g' fh fh _ lt) refl)

  pub my_utime-Good :
      (path : Bytes) (buf : Option (ℕ × ℕ)) → Ensures (Good n) (my_utime path buf fs)
  unfolding my_utime
  my_utime-Good path none = returns (IsGood-errno g _)
  my_utime-Good path (some (a, m)) = find_then g path λ fh gs g' same lt.
      branch (fh == 0) _ _ (λ z. returns (IsGood-errno g' _))
        λ nz.
          returns
            (IsGood-metadata (IsGood-metadata g' fh _ lt refl) fh _ (lt-update g' fh fh _ lt) refl)

  pub my_statvfs-Good : (path : Bytes) (null : Bool) → Ensures (Good n) (my_statvfs path null fs)
  unfolding my_statvfs
  my_statvfs-Good path null = find_then g path λ fh gs g' same lt.
      branch (fh == 0) _ _ (λ z. returns (IsGood-errno g' _))
        λ nz. branch null _ _ (λ z. returns g') (λ z. returns g')
