-- ===== src/Invariant/Contents.antt =====
-- The operations on open files and their bytes keep the file system well-formed.
use cs179f_bbfs_project.Base.{
  ℕ, zero, suc, ◌+◌, ◌-◌, ◌^◌, ◌<◌, ◌≡◌, refl, ap, ◌∙◌, inl, inr, false, not, Option, none, some,
  [], ◌∷◌, arith, ◌==◌, ltb, leb, if◌then◌else◌, Bytes, length, set, take, replicate, Bool-cases,
  Option-cases, length-append, length-take, length-replicate, c_str,
}
use cs179f_bbfs_project.Base.Words.{is_neg, inc64, dec64}
use cs179f_bbfs_project.State.{
  Env, Fs, file_at, touch, update, with_nlink, erase_entry, pure, ok, ◌>>◌, s_isreg, s_isdir,
}
use cs179f_bbfs_project.Contents.{
  my_open, my_close, my_pwrite, my_ftruncate, my_truncate, write_loop, finish_write, resize,
  char_at,
}
use cs179f_bbfs_project.Invariant.{Ensures, returns, faults}
use cs179f_bbfs_project.Invariant.Rules.{
  IsGood, Good, IsGood-errno, IsGood-touch, IsGood-update, IsGood-forget, lt-touch, find_then,
  branch,
}
use cs179f_bbfs_project.Invariant.Attributes.{IsGood-metadata}

pub length-resize : (n : ℕ) (s : Bytes) → length (resize n s) ≡ n
unfolding resize
length-resize n s = omega (
  arith,
  length-append (take n s) (replicate (n - length s) 0),
  length-take n s,
  length-replicate {A = ℕ} (n - length s) 0,
)

length-set : (s : Bytes) (i c : ℕ) → length (set s i c) ≡ length s
length-set [] i c = refl
length-set (x ∷ s) zero c = refl
length-set (x ∷ s) (suc i) c = ap suc (length-set s i c)

pub length-write_loop :
    (n : ℕ) (s : Bytes) (i : ℕ) (str : Bytes) (j : ℕ) (t : Bytes)
    → write_loop n s i str j ≡ some t
    → length t ≡ length s
unfolding write_loop
length-write_loop zero s i str j t h = ground arith
length-write_loop (suc n) s i str j t h = elim (Bool-cases (ltb i (length s))) [
  | inr out ↦ absurd (ground arith)
  | inl inside ↦ elim (Option-cases (char_at str j)) [
    | inl undef ↦ absurd (ground arith)
    | inr (c, got) ↦
        length-write_loop n (set s i c) (i + 1) str (j + 1) t (ground arith) ∙ length-set s i c
  ]
]

module _ {n : ℕ} {fs : Fs} (g : IsGood n fs) where
  pub IsGood-nlink :
      (fh : ℕ) (h : ℕ → ℕ)
      → fh < fs.count
      → IsGood n (update fh (λ f. with_nlink (h f.metadata.st_nlink) f) fs)
  IsGood-nlink fh h lt =
      IsGood-metadata g fh (λ f. record (f.metadata) { st_nlink = h f.metadata.st_nlink }) lt refl

  -- The end of `my_close` and `my_unlink`: a file whose count is 0 goes.
  pub erase_unlinked-Good :
      (fh : ℕ)
      → Ensures (Good n) (
          (if (file_at fs fh).metadata.st_nlink == 0 then (do erase_entry fh; pure ok) else pure ok)
            (touch fh fs))
  erase_unlinked-Good fh =
      branch ((file_at fs fh).metadata.st_nlink == 0) _ _
        (λ last. returns (IsGood-forget (IsGood-touch g fh) fh))
        (λ more. returns (IsGood-touch g fh))

module _ {n : ℕ} {fs : Fs} (g : IsGood n fs) where
  pub my_close-Good : (fh : ℕ) → fh < fs.count → Ensures (Good n) (my_close fh fs)
  unfolding my_close
  my_close-Good fh lt =
      branch (fh == 0) _ _ (λ z. returns (IsGood-errno g _))
        λ nz. erase_unlinked-Good (IsGood-nlink g fh dec64 lt) fh

  pub my_open-Good :
      (env : Env) (path : Bytes) (flags : ℕ) → Ensures (Good n) (my_open env path flags fs)
  unfolding my_open
  my_open-Good env path flags = find_then g path λ fh gs g' same lt.
      branch (leb 0 fh) _ _ (λ any. returns (IsGood-nlink g' fh inc64 lt))
        (λ never. absurd (ground arith))

  finish_write-Good :
      (fh : ℕ) (str : Bytes) (s : Option Bytes)
      → fh < fs.count
      → ((t : Bytes) → s ≡ some t → length t < 2 ^ 31)
      → Ensures (Good n) (finish_write fh str s fs)
  unfolding finish_write
  finish_write-Good fh str none lt fit = faults
  finish_write-Good fh str (some t) lt fit =
      let h = g.formed.files fh in
      returns (
        IsGood-update g fh _ lt
          (record { zero_mode = h.zero_mode; inos = h.inos; fit = fit t refl }))

  pub my_ftruncate-Good :
      (fh offset : ℕ)
      → fh < fs.count
      → offset < 2 ^ 31
      → Ensures (Good n) (my_ftruncate fh offset fs)
  unfolding my_ftruncate
  my_ftruncate-Good fh offset lt fit =
      branch (fh == 0) _ _ (λ z. returns (IsGood-errno g _))
        λ nz.
          branch (is_neg offset) _ _ (λ neg. returns (IsGood-errno g _))
            λ pos.
              let t = IsGood-touch g fh in
              let h = t.formed.files fh in
              branch (s_isdir (file_at fs fh).metadata.st_mode) _ _
                (λ dir. returns (IsGood-errno t _))
                λ file. returns (
                  IsGood-update t fh _ (lt-touch g fh fh lt) (record {
                    zero_mode = h.zero_mode;
                    inos = h.inos;
                    fit = omega (arith, length-resize offset (file_at (touch fh fs) fh).bytes);
                  }))

module _ {n : ℕ} {fs : Fs} (g : IsGood n fs) where
  pub my_pwrite-Good :
      (fh : ℕ) (buf : Bytes) (size offset : ℕ)
      → fh < fs.count
      → Ensures (Good n) (my_pwrite fh buf size offset fs)
  unfolding my_pwrite
  my_pwrite-Good fh buf size offset lt =
      let t = IsGood-touch g fh in
      branch (fh == 0) _ _ (λ z. returns (IsGood-errno t _))
        λ nz.
          branch (not (s_isreg (file_at fs fh).metadata.st_mode)) _ _ (λ other. returns t)
            λ reg.
              branch (leb (2 ^ 31) (length (file_at fs fh).bytes + size)) _ _ (λ big. faults)
                λ fits. finish_write-Good t fh (c_str buf) _ (lt-touch g fh fh lt) λ s written.
                  omega (
                    arith,
                    length-write_loop size _ _ (c_str buf) 0 s written,
                    length-resize (length (file_at fs fh).bytes + size) (file_at fs fh).bytes,
                    fit_of fits,
                  )
    where
      fit_of :
          leb (2 ^ 31) (length (file_at fs fh).bytes + size) ≡ false
          → length (file_at fs fh).bytes + size < 2 ^ 31
      fit_of h = ground arith

  pub my_truncate-Good :
      (path : Bytes) (newsize : ℕ)
      → newsize < 2 ^ 31
      → Ensures (Good n) (my_truncate path newsize fs)
  unfolding my_truncate
  my_truncate-Good path newsize fit =
      branch (is_neg newsize) _ _ (λ neg. returns (IsGood-errno g _))
        λ pos. find_then g path λ fh gs g' same lt.
          branch (fh == 0) _ _ (λ z. returns (IsGood-errno g' _))
            λ nz.
              let t = IsGood-touch g' fh in
              branch (s_isdir (file_at gs fh).metadata.st_mode) _ _
                (λ dir. returns (IsGood-errno t _))
                λ file. my_ftruncate-Good t fh newsize (lt-touch g' fh fh lt) fit
