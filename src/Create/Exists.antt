-- ===== src/Create/Exists.antt =====
-- `my_mknod` under a name that is taken: it fails, and the number it took is lost.
use cs179f_bbfs_project.Base.{
  ℕ, ◌+◌, ◌-◌, ◌^◌, ◌<◌, ◌≡◌, ◌≢◌, refl, ap, ◌∙◌, false, arith, ◌==◌, if◌then◌else◌, Bytes,
}
use cs179f_bbfs_project.State.{
  an_err, eexist, Env, File, Fs, done, new_file, next, file_at, update, s_islnk,
}
use cs179f_bbfs_project.State.View.{file_at_errno}
use cs179f_bbfs_project.Path.{parent_of}
use cs179f_bbfs_project.Resolve.View.{real_ino}
use cs179f_bbfs_project.Resolve.Compose.{resolve-Extends}
use cs179f_bbfs_project.Resolve.Follow.{find_ino_real}
use cs179f_bbfs_project.Create.{my_mknod, new_stat, install_entry}
use cs179f_bbfs_project.Create.Fresh.{
  IsReady, started, started_at, started_other, started-Extends, stamp, zero_no_dir,
  update_first_time,
}

-- A path to a file that is there, and is no link.
pub record IsThere (fs : Fs) (path : Bytes) : Type 0 where
  pub some_file : real_ino (file_at fs) path ≢ 0
  pub below : real_ino (file_at fs) path < fs.count
  pub plain : s_islnk (file_at fs (real_ino (file_at fs) path)).metadata.st_mode ≡ false

update_count : (fh : ℕ) (g : File → File) (fs : Fs) → (update fh g fs).count ≡ fs.count
unfolding update
update_count fh g fs = refl

module _ (env : Env) (mode : ℕ) (fs : Fs) (r : IsReady fs) {path : Bytes}
    (p : IsThere fs path) where
  same_ino : real_ino (file_at (started env mode fs)) path ≡ real_ino (file_at fs) path
  same_ino =
      resolve-Extends _ _ _ _ (started-Extends env mode fs r) (zero_no_dir r.zero_free) p.some_file

  -- The file keeps its place once `my_mknod` has taken a number.
  still_plain :
      s_islnk
        (file_at
          (started env mode fs)
          (real_ino (file_at (started env mode fs)) path)).metadata.st_mode
      ≡ false
  still_plain =
      ap (λ i. s_islnk (file_at (started env mode fs) i).metadata.st_mode) same_ino
      ∙ ap (λ (f : File). s_islnk f.metadata.st_mode)
          (started_other env mode fs r _ (omega (arith, p.below)))
      ∙ p.plain

-- If the path leads to a file, no link, `my_mknod` fails with EEXIST. All files stay as they were, but
-- the next number has been taken by a file that no directory has.
pub my_mknod_exists :
    (env : Env) (path : Bytes) (mode : ℕ) (fs : Fs)
    → IsReady fs
    → IsThere fs (parent_of path)
    → IsThere fs path
    → (gs : Fs) × (my_mknod env path mode fs ≡ done an_err gs)
      × (gs.errno ≡ eexist)
      × (gs.count ≡ fs.count + 1)
      × ((i : ℕ)
          → file_at gs i ≡ (
              if i == fs.count
              then record (new_file) { metadata = new_stat env fs.count mode }
              else file_at fs i))
unfolding my_mknod install_entry next
my_mknod_exists env path mode fs r parent old =
    let ss : Fs = started env mode fs in
    let (gs1, run1, same1) = find_ino_real (parent_of path) ss (still_plain env mode fs r parent) in
    let nz1 : (real_ino (file_at ss) (parent_of path) == 0) ≡ false =
      ground (arith, same_ino env mode fs r parent, parent.some_file) in
    let booted : gs1.first_time ≡ false =
      same1.first_time
      ∙ update_first_time fs.count (stamp env fs.count mode) (record fs { count = fs.count + 1 })
      ∙ r.booted in
    let plain1 : s_islnk (file_at gs1 (real_ino (file_at gs1) path)).metadata.st_mode ≡ false =
      rw same1.files (still_plain env mode fs r old) in
    let (gs2, run2, same2) = find_ino_real path gs1 plain1 in
    let nz2 : (real_ino (file_at gs1) path == 0) ≡ false =
      rw same1.files (ground (arith, same_ino env mode fs r old, old.some_file)) in
    let room : (fs.count == 2 ^ 31 - 1) ≡ false = ground (arith, r.room) in
    (
      record gs2 { errno = eexist },
      rw (room, run1, nz1, booted, run2, nz2),
      refl,
      same2.count
          ∙ same1.count
          ∙ update_count fs.count (stamp env fs.count mode) (record fs { count = fs.count + 1 }),
      λ i.
          ap (λ v. v i) (file_at_errno eexist gs2 ∙ same2.files ∙ same1.files)
          ∙ started_at env mode fs r i,
    )
