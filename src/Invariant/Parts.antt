-- ===== src/Invariant/Parts.antt =====
-- What path resolution and the other shared parts of the operations keep.
use cs179f_bbfs_project.Base.{
  ℕ, ◌<◌, ◌≡◌, ◌≢◌, inl, inr, true, List, [], ◌∷◌, arith, ltb, ltb→lt, Bool-cases, length, Bytes,
  c_str,
}
use cs179f_bbfs_project.State.{s_islnk, Dirent, File, Fs, file_at}
use cs179f_bbfs_project.State.View.{SameView, SameView-trans, SameView-errno, SameView-touch}
use cs179f_bbfs_project.Path.{slash, split}
use cs179f_bbfs_project.Resolve.{lookup, find_real_ino, find_ino, root_ino}
use cs179f_bbfs_project.Resolve.View.{
  search_name, resolve, real_ino, find_real_ino-real, lookup-search,
}
use cs179f_bbfs_project.Resolve.Follow.{IsFollowable, followed, find_ino-followed, find_ino_overrun}
use cs179f_bbfs_project.Invariant.{Ensures, returns, faults, InosBelow, IsFileOk, IsWellFormed}

-- A number that was handed out, and a state that shows the same.
abbrev pub Finds : Fs → ℕ → Fs → Type 0
Finds fs r gs = SameView fs gs × (r < fs.count)

search_name_lt :
    (name : Bytes) (n : ℕ) (ds : List Dirent) → 0 < n → InosBelow n ds → search_name name ds < n
unfolding search_name
search_name_lt name n [] pos b = pos
search_name_lt name n (d ∷ ds) pos (hd, b) = ground (arith, search_name_lt name n ds pos b)

resolve_lt :
    (view : ℕ → File) (n : ℕ) (v : List Bytes) (fh : ℕ)
    → ((i : ℕ) → IsFileOk n i (view i))
    → 0 < n
    → fh < n
    → resolve view v fh < n
unfolding resolve
resolve_lt view n [] fh files pos lt = lt
resolve_lt view n (it ∷ v) fh files pos lt = ground (
  arith,
  resolve_lt view n v fh files pos lt,
  resolve_lt view n v (search_name it (view fh).dentries) files pos
      (search_name_lt it n (view fh).dentries pos (files fh).inos),
)

module _ (fs : Fs) (w : IsWellFormed fs) where
  pub real_ino_lt : (path : Bytes) → real_ino (file_at fs) path < fs.count
  real_ino_lt path =
      resolve_lt (file_at fs) fs.count (split path slash) root_ino w.files
        (omega (arith, w.counter)) (omega (arith, w.counter))

  pub find_real_ino-Finds : (path : Bytes) → Ensures (Finds fs) (find_real_ino path fs)
  find_real_ino-Finds path =
      let (e, run) = find_real_ino-real path fs in
      rw run (returns (SameView-errno e fs, real_ino_lt path))

  link_ne_zero : (fh : ℕ) → s_islnk (file_at fs fh).metadata.st_mode ≡ true → fh ≢ 0
  link_ne_zero fh lnk zero = ground (arith, (w.files fh).zero_mode zero)

  followed_lt : (path : Bytes) → followed (file_at fs) path < fs.count
  followed_lt path =
      ground (
        arith,
        real_ino_lt path,
        real_ino_lt (c_str (file_at fs (real_ino (file_at fs) path)).bytes),
      )

  find_ino_followable :
      (path : Bytes) → IsFollowable (file_at fs) path → Ensures (Finds fs) (find_ino path fs)
  find_ino_followable path h =
      let (e, run) = find_ino-followed path fs h in
      rw run (
        returns (
          SameView-trans (SameView-errno e fs)
              (SameView-touch (real_ino (file_at fs) path) (record fs { errno = e })),
          followed_lt path,
        ))

  -- In a well-formed state `find_ino` faults or returns a number that was handed out; it never
  -- gets to its own error return.
  pub find_ino-Finds : (path : Bytes) → Ensures (Finds fs) (find_ino path fs)
  find_ino-Finds path =
      let fh = real_ino (file_at fs) path in
      elim (Bool-cases (s_islnk (file_at fs fh).metadata.st_mode)) [
        | inr plain ↦ find_ino_followable path (λ lnk. cc)
        | inl lnk ↦ elim (Bool-cases (ltb (length (c_str (file_at fs fh).bytes)) 50)) [
          | inl short ↦ find_ino_followable path (λ _. record {
            lnk = lnk;
            ne_zero = link_ne_zero fh lnk;
            short = ltb→lt (length (c_str (file_at fs fh).bytes)) 50 short;
            fit = (w.files fh).fit;
          })
          | inr long ↦
              rw
                (find_ino_overrun path fs lnk (link_ne_zero fh lnk) (ground arith) (w.files fh).fit)
                faults
        ]
      ]

  pub lookup-Finds : (name : Bytes) (fh : ℕ) → Ensures (Finds fs) (lookup name fh fs)
  lookup-Finds name fh = rw lookup-search (
      returns (
        SameView-touch fh fs,
        ground (
          arith,
          search_name_lt name fs.count (file_at fs fh).dentries (omega (arith, w.counter))
              (w.files fh).inos,
          w.counter,
        ),
      ))
