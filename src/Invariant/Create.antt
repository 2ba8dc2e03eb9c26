-- ===== src/Invariant/Create.antt =====
-- Making files keeps the file system well-formed.
use cs179f_bbfs_project.Base.{
  ℕ, ◌+◌, ◌-◌, ◌^◌, ◌<◌, ◌≡◌, refl, inl, inr, not, arith, ◌==◌, ltb, Bytes, length, Bool-cases,
}
use cs179f_bbfs_project.State.{
  Env, Dirent, Fs, File, M, and_then, file_at, update, next, dirent_frame, push_dentry, s_isdir,
  name_room, or_ifdir, or_ifreg,
}
use cs179f_bbfs_project.Path.{tail_of, parent_of}
use cs179f_bbfs_project.Create.{
  new_stat, install_dots, install_entry, my_mknod, my_mkdir, my_creat, is_dot, dot,
}
use cs179f_bbfs_project.Invariant.{
  Ensures, returns, faults, IsFileOk, InosBelow-mono, InosBelow-append,
}
use cs179f_bbfs_project.Invariant.Rules.{
  IsGood, Good, IsGood-errno, IsGood-update, find_then, branch, branch_run,
}
use cs179f_bbfs_project.Invariant.Attributes.{lt-update}

push_dentry-IsFileOk :
    (count fh : ℕ) (d : Dirent) (f : File)
    → IsFileOk count fh f
    → d.d_ino < count
    → IsFileOk count fh (push_dentry d f)
push_dentry-IsFileOk count fh d f h lt = record {
  zero_mode = h.zero_mode;
  inos = InosBelow-append count f.dentries d h.inos lt;
  fit = h.fit;
}

module _ {n : ℕ} {fs : Fs} (g : IsGood n fs) where
  pub IsGood-push :
      (fh : ℕ) (d : Dirent)
      → fh < fs.count
      → d.d_ino < fs.count
      → IsGood n (update fh (push_dentry d) fs)
  IsGood-push fh d lt below =
      IsGood-update g fh (push_dentry d) lt
        (push_dentry-IsFileOk fs.count fh d (file_at fs fh) (g.formed.files fh) below)

  -- The next number: what was well-formed stays so.
  IsGood-count : IsGood n (record fs { count = fs.count + 1 })
  unfolding file_at
  IsGood-count =
      let w = g.formed in
      record {
        formed = record {
          counter = omega (arith, w.counter);
          booted = w.booted;
          files = λ i.
              let h = w.files i in
              record {
                zero_mode = h.zero_mode;
                inos = InosBelow-mono fs.count (fs.count + 1) _ (omega arith) h.inos;
                fit = h.fit;
              };
          fresh = λ i h. w.fresh i (omega arith);
        };
        counted = omega (arith, g.counted);
      }

module _ {n : ℕ} {fs : Fs} (g : IsGood n fs) where
  pub next_then :
      {B : Type 0} {P : B → Fs → Type 0} (k : ℕ → M B)
      → ((gs : Fs) → IsGood n gs → gs.count ≡ fs.count + 1 → Ensures P (k fs.count gs))
      → Ensures P (and_then (next fs) k)
  unfolding next
  next_then k rest = elim (Bool-cases (fs.count == 2 ^ 31 - 1)) [
    | inl last ↦ rw last faults
    | inr more ↦ rw more (rest (record fs { count = fs.count + 1 }) (IsGood-count g) refl)
  ]

  pub dirent_then :
      (ino : ℕ) (name : Bytes) {B : Type 0} {P : B → Fs → Type 0} (k : Dirent → M B)
      → ((d : Dirent) → d.d_ino ≡ ino → Ensures P (k d fs))
      → Ensures P (and_then (dirent_frame ino name fs) k)
  unfolding dirent_frame
  dirent_then ino name k rest = elim (Bool-cases (ltb (length name) name_room)) [
    | inl fits ↦ rw fits (rest (record { d_ino = ino; d_name = name }) refl)
    | inr long ↦ rw long faults
  ]

  install_dots-Good :
      (mode the_ino parent : ℕ)
      → the_ino < fs.count
      → parent < fs.count
      → Ensures (Good n) (install_dots mode the_ino parent fs)
  unfolding install_dots
  install_dots-Good mode the_ino parent lt lt' =
      branch (s_isdir mode) _ _
        (λ dir.
          let d : Dirent = record { d_ino = the_ino; d_name = dot } in
          returns (
            IsGood-push (IsGood-push g the_ino d lt lt) the_ino _
              (lt-update g the_ino the_ino (push_dentry d) lt)
              (lt-update g the_ino parent (push_dentry d) lt')))
        (λ file. returns g)

module _ {n : ℕ} {fs : Fs} (g : IsGood n fs) where
  install_entry-Good :
      (path : Bytes) (mode the_ino parent : ℕ)
      → the_ino < fs.count
      → parent < fs.count
      → Ensures (Good n) (install_entry path mode the_ino parent fs)
  unfolding install_entry
  install_entry-Good path mode the_ino parent lt lt' = find_then g path λ old gs g' same _.
      branch (not (old == 0)) _ _ (λ taken. returns (IsGood-errno g' _))
        λ new. find_then g' (parent_of path) λ fh hs g'' same' below.
          dirent_then g'' the_ino (tail_of path) _ λ d e.
            install_dots-Good (IsGood-push g'' fh d below (omega arith)) mode the_ino parent
              (lt-update g'' fh the_ino (push_dentry d) (omega arith))
              (lt-update g'' fh parent (push_dentry d) (omega arith))

module _ {n : ℕ} {fs : Fs} (g : IsGood n fs) where
  pub my_mknod-Good :
      (env : Env) (path : Bytes) (mode : ℕ) → Ensures (Good n) (my_mknod env path mode fs)
  unfolding my_mknod update
  my_mknod-Good env path mode = next_then g _ λ gs g' same.
      let h = g'.formed.files fs.count in
      let made =
        IsGood-update g' fs.count (λ f. record f { metadata = new_stat env fs.count mode })
          (omega arith)
          (record {
            zero_mode = λ e. absurd (omega (arith, g.formed.counter));
            inos = h.inos;
            fit = h.fit;
          }) in
      find_then made (parent_of path) λ parent hs g'' same' lt.
        branch (parent == 0) _ _ (λ none. returns g'')
          λ there.
            branch_run hs.first_time (λ first. absurd (ground (arith, g''.formed.booted)))
              (λ later.
                install_entry-Good g'' path mode fs.count parent (lt-made gs hs same same') lt)
    where
      lt-made :
          (gs hs : Fs)
          → gs.count ≡ fs.count + 1
          → hs.count
            ≡ (update fs.count (λ f. record f { metadata = new_stat env fs.count mode }) gs).count
          → fs.count < hs.count
      lt-made gs hs same same' = omega arith

module _ {n : ℕ} {fs : Fs} (g : IsGood n fs) where
  pub my_mkdir-Good :
      (env : Env) (path : Bytes) (mode : ℕ) → Ensures (Good n) (my_mkdir env path mode fs)
  unfolding my_mkdir
  my_mkdir-Good env path mode = my_mknod-Good g env path (or_ifdir mode)

  pub my_creat-Good :
      (env : Env) (path : Bytes) (mode : ℕ) → Ensures (Good n) (my_creat env path mode fs)
  unfolding my_creat
  my_creat-Good env path mode =
      branch (is_dot (tail_of path)) _ _ (λ dots. returns g)
        (λ name. my_mknod-Good g env path (or_ifreg mode))
