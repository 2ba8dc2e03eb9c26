-- ===== src/Create/Fresh.antt =====
-- `my_mknod` in a directory that lacks the name.
use cs179f_bbfs_project.Base.{
  ℕ, ◌+◌, ◌-◌, ◌^◌, ◌<◌, ◌≡◌, ◌≢◌, refl, sym, ap, ◌∙◌, inl, inr, true, false, [], ◌∷◌, ◌++◌, arith,
  ◌==◌, ltb, if◌then◌else◌, append-nil, length, Bytes, Bool-cases,
}
use cs179f_bbfs_project.State.{
  ok, Env, File, Fs, done, new_file, next, file_at, update, push_dentry, name_room, dirent_frame,
  s_isdir,
}
use cs179f_bbfs_project.State.View.{file_at-update}
use cs179f_bbfs_project.Path.{slash}
use cs179f_bbfs_project.Path.RoundTrip.{tail_of_child}
use cs179f_bbfs_project.Resolve.View.{real_ino}
use cs179f_bbfs_project.Resolve.Compose.{Extends, resolve-Extends}
use cs179f_bbfs_project.Resolve.Grow.{Extends-of_Grows, Adds, Adds-kept, Adds-child}
use cs179f_bbfs_project.Resolve.NewName.{
  IsNewName, find_parent, find_free, new_dir_ne_zero, same_dir, still_new, Adds-entry,
}
use cs179f_bbfs_project.Create.{my_mknod, new_stat, install_entry, install_dots}

-- What `my_mknod` asks of the state: the root is there, the numbers from `count` on are free, and
-- number 0 is no file.
pub record IsReady (fs : Fs) : Type 0 where
  pub booted : fs.first_time ≡ false
  pub room : fs.count ≢ 2 ^ 31 - 1
  pub fresh : file_at fs fs.count ≡ new_file
  pub zero_free : (file_at fs 0).metadata.st_mode ≡ 0
  pub counted : fs.count ≢ 0

abbrev pub stamp : Env → ℕ → ℕ → File → File
stamp env ino mode f = record f { metadata = new_stat env ino mode }

-- The state once the number is handed out and its metadata are there.
abbrev pub started : Env → ℕ → Fs → Fs
started env mode fs = update fs.count (stamp env fs.count mode) (record fs { count = fs.count + 1 })

pub file_at_count : (n : ℕ) (fs : Fs) → file_at (record fs { count = n }) ≡ file_at fs
unfolding file_at
file_at_count n fs = refl

module _ (env : Env) (mode : ℕ) (fs : Fs) (r : IsReady fs) where
  pub started_at :
      (i : ℕ)
      → file_at (started env mode fs) i
        ≡ (if i == fs.count then stamp env fs.count mode new_file else file_at fs i)
  started_at i =
      file_at-update fs.count i (stamp env fs.count mode) (record fs { count = fs.count + 1 })
      ∙ rw (file_at_count (fs.count + 1) fs, r.fresh)

  pub started_other : (i : ℕ) → i ≢ fs.count → file_at (started env mode fs) i ≡ file_at fs i
  started_other i ne = let no : (i == fs.count) ≡ false = ground arith in started_at i ∙ rw no

  pub started-Extends : Extends (file_at fs) (file_at (started env mode fs))
  started-Extends = Extends-of_Grows (file_at fs) (file_at (started env mode fs)) (λ i.
      elim (Bool-cases (i == fs.count)) [
        | inl same ↦
            let p : i ≡ fs.count = ground arith in
            let was : file_at fs i ≡ new_file = ap (file_at fs) p ∙ r.fresh in
            let now : file_at (started env mode fs) i ≡ stamp env fs.count mode new_file =
              started_at i ∙ rw same in
            rw (was, now) (record { dir = λ d. ground arith; more = []; dentries = refl })
        | inr other ↦
            let now : file_at (started env mode fs) i ≡ file_at fs i = started_at i ∙ rw other in
            rw now (record {
              dir = λ d. d;
              more = [];
              dentries = sym (append-nil (file_at fs i).dentries);
            })
      ])

no_dir : {f : File} → s_isdir f.metadata.st_mode ≡ true → f ≡ new_file → ⊥
no_dir h e = let q = ap (λ (f : File). s_isdir f.metadata.st_mode) e in ground arith

pub zero_no_dir : {mode : ℕ} → mode ≡ 0 → s_isdir mode ≡ false
zero_no_dir h = ground arith

pub update_first_time :
    (fh : ℕ) (g : File → File) (fs : Fs) → (update fh g fs).first_time ≡ fs.first_time
unfolding update
update_first_time fh g fs = refl

-- A name that `dirent_frame` has room for.
pub short_frame :
    (ino : ℕ) (name : Bytes) (fs : Fs)
    → length name < name_room
    → dirent_frame ino name fs ≡ done (record { d_ino = ino; d_name = name }) fs
unfolding dirent_frame
short_frame ino name fs h = let few : ltb (length name) name_room ≡ true = ground arith in rw few

-- Once the root is there and a number is left, a file that is no directory is made under a new name in
-- a directory: the new name leads to a file with the number `count`, its metadata are
-- those that `my_mknod` gives a new file, and the paths that led to a file lead to it still.
pub my_mknod-made :
    (env : Env) (dir name : Bytes) (mode : ℕ) (fs : Fs)
    → IsReady fs
    → s_isdir mode ≡ false
    → IsNewName (file_at fs) dir name
    → (gs : Fs) × (my_mknod env (dir ++ slash ∷ name) mode fs ≡ done ok gs)
      × (real_ino (file_at gs) (dir ++ slash ∷ name) ≡ fs.count)
      × ((file_at gs fs.count).metadata ≡ new_stat env fs.count mode)
      × ((path : Bytes)
          → real_ino (file_at fs) path ≢ 0
          → real_ino (file_at gs) path ≡ real_ino (file_at fs) path)
unfolding my_mknod install_entry install_dots next
my_mknod-made env dir name mode fs r kind n =
    let ss : Fs = started env mode fs in
    let d = real_ino (file_at fs) dir in
    let x = started-Extends env mode fs r in
    let not_new : d ≢ fs.count = λ p. no_dir (n.is_dir) (ap (file_at fs) p ∙ r.fresh) in
    let d_same = started_other env mode fs r d not_new in
    let zero : (file_at ss 0).metadata.st_mode ≡ 0 =
      ap (λ (f : File). f.metadata.st_mode) (started_other env mode fs r 0 (λ z. r.counted (sym z)))
      ∙ r.zero_free in
    let n' : IsNewName (file_at ss) dir name = still_new n r.zero_free x d_same in
    let dir_same = same_dir n r.zero_free x d_same in
    let (gs1, run1, same1) = find_parent n' zero ss refl in
    let nz : (real_ino (file_at ss) dir == 0) ≡ false = ground (arith, new_dir_ne_zero n' zero) in
    let booted : gs1.first_time ≡ false =
      same1.first_time
      ∙ update_first_time fs.count (stamp env fs.count mode) (record fs { count = fs.count + 1 })
      ∙ r.booted in
    let (gs2, run2, same2) = find_free n' zero gs1 same1.files in
    let (gs3, run3, same3) = find_parent n' zero gs2 (same2.files ∙ same1.files) in
    let room : (fs.count == 2 ^ 31 - 1) ≡ false = ground (arith, r.room) in
    let hs : Fs =
      update (real_ino (file_at ss) dir) (push_dentry (record { d_ino = fs.count; d_name = name }))
        gs3 in
    let same : file_at gs3 ≡ file_at ss = same3.files ∙ same2.files ∙ same1.files in
    let a : Adds (file_at ss) (file_at hs) dir name fs.count =
      Adds-entry n' zero (file_at hs) fs.count (λ i. file_at-update _ i _ gs3 ∙ rw same) in
    let not_it : (fs.count == real_ino (file_at ss) dir) ≡ false =
      ground (arith, dir_same, not_new) in
    let self : (fs.count == fs.count) ≡ true = ground arith in
    let here : file_at hs fs.count ≡ stamp env fs.count mode new_file =
      file_at-update _ fs.count _ gs3
      ∙ rw (not_it, same) (started_at env mode fs r fs.count ∙ rw self) in
    let kept : (path : Bytes)
        → real_ino (file_at fs) path ≢ 0
        → real_ino (file_at ss) path ≡ real_ino (file_at fs) path =
      λ path nz. resolve-Extends _ _ _ _ x (zero_no_dir r.zero_free) nz in
    (
      hs,
      rw (
        room,
        run1,
        nz,
        booted,
        run2,
        run3,
        (tail_of_child dir name n.plain).0,
        short_frame fs.count name gs3 n.short,
        kind,
      ),
      Adds-child a,
      ap (λ (f : File). f.metadata) here,
      λ path nz. Adds-kept a path (λ z. nz (sym (kept path nz) ∙ z)) ∙ kept path nz,
    )
