-- ===== src/Resolve/View.antt =====
-- Path resolution as a function of what the state shows, and its agreement with the code.
use cs179f_bbfs_project.Base.{
  ℕ, zero, suc, ◌+◌, ◌≤◌, ◌<◌, ◌≡◌, refl, ap, ◌∙◌, inl, inr, some, List, [], ◌∷◌, arith, ◌==◌,
  if◌then◌else◌, Bool-cases, ==_iff, length, get_elem?, drop, Bytes, bytes_beq,
}
use native.Mathlib.Nat.{suc-add}
use cs179f_bbfs_project.State.{
  s_isdir, Errno, enoent, Dirent, File, Fs, done, has_entry, file_at, touch,
}
use cs179f_bbfs_project.State.View.{file_at_absent, touch_present, touch-touch, file_at-touch}
use cs179f_bbfs_project.Path.{slash, split}
use cs179f_bbfs_project.Resolve.{
  fopendir, my_readdir, lookup_loop, lookup, find_loop, find_real_ino, root_ino,
}

-- The inode of the first entry with the name, or 0.
unfoldable pub search_name : Bytes → List Dirent → ℕ
search_name name [] = 0
search_name name (d ∷ ds) = if bytes_beq d.d_name name then d.d_ino else search_name name ds

-- Where the segments lead from `fh`: empty ones are skipped, and 0 stands for no file.
unfoldable pub resolve : (ℕ → File) → List Bytes → ℕ → ℕ
resolve view [] fh = fh
resolve view (it ∷ v) fh =
    let skip = resolve view v fh in
    let enter = resolve view v (search_name it (view fh).dentries) in
    if bytes_beq it [] then skip else if s_isdir (view fh).metadata.st_mode then enter else 0

-- The file at a path, symbolic links not followed.
abbrev pub real_ino : (ℕ → File) → Bytes → ℕ
real_ino view path = resolve view (split path slash) root_ino

get_drop :
    (v : List Dirent) (i : ℕ)
    → i < length v
    → (d : Dirent) × (get_elem? v i ≡ some d) × (drop i v ≡ d ∷ drop (i + 1) v)
get_drop [] i h = elim h [ ]
get_drop (d ∷ v) zero h = (d, refl, refl)
get_drop (d ∷ v) (suc i) h = let (e, p, q) = get_drop v i (omega arith) in (e, p, rw suc-add q)

drop_end : (v : List Dirent) → drop (length v) v ≡ []
drop_end [] = refl
drop_end (d ∷ v) = drop_end v

module _ (name : Bytes) (fs : Fs) (fh : ℕ) (here : touch fh fs ≡ fs) where
  lookup_loop-search :
      (k i : ℕ)
      → i ≤ length (file_at fs fh).dentries
      → length (drop i (file_at fs fh).dentries) < k
      → lookup_loop k name (record { fh = fh; index = i }) fs
        ≡ done (search_name name (drop i (file_at fs fh).dentries)) fs
  unfolding lookup_loop my_readdir search_name
  lookup_loop-search zero i h k = elim k [ ]
  lookup_loop-search (suc k) i h fuel = elim (Bool-cases (i == length (file_at fs fh).dentries)) [
    | inl e ↦
        let past : drop i (file_at fs fh).dentries ≡ [] =
          ap (λ n. drop n (file_at fs fh).dentries) ((==_iff i _).0 e)
          ∙ drop_end (file_at fs fh).dentries in
        rw (e, here, past)
    | inr e ↦
        let (d, got, split) = get_drop (file_at fs fh).dentries i (ground arith) in
        rw (e, got, here)
          (rw split (elim (Bool-cases (bytes_beq d.d_name name)) [
            | inl hit ↦ rw hit
            | inr miss ↦
                rw miss
                  (lookup_loop-search k (i + 1) (ground arith) (omega (arith, ap length split)))
          ]))
  ]

-- `lookup` finds the first entry with the name in a directory, and nothing elsewhere.
pub lookup-search :
    (name : Bytes) (fh : ℕ) (fs : Fs)
    → lookup name fh fs
      ≡ done
          (if s_isdir (file_at fs fh).metadata.st_mode
            then search_name name (file_at fs fh).dentries
            else 0)
          (touch fh fs)
unfolding lookup fopendir
lookup-search name fh fs = elim (Bool-cases (s_isdir (file_at fs fh).metadata.st_mode)) [
  | inl dir ↦ rw dir (
      lookup_loop-search name (touch fh fs) fh (touch-touch fh fs) _ 0 (omega arith) (omega arith)
      ∙ rw file_at-touch)
  | inr other ↦ rw other
]

-- Without symbolic links the code finds what the segments lead to, and changes nothing but `errno`.
find_loop-resolve :
    (v : List Bytes) (fh : ℕ) (fs : Fs)
    → (e : Errno) × (find_loop v fh fs ≡ done (resolve (file_at fs) v fh) (record fs { errno = e }))
unfolding find_loop resolve
find_loop-resolve [] fh fs = (fs.errno, refl)
find_loop-resolve (it ∷ v) fh fs = elim (Bool-cases (bytes_beq it [])) [
  | inl skip ↦ rw skip (find_loop-resolve v fh fs)
  | inr seg ↦ elim (Bool-cases (has_entry fs fh)) [
    | inr missing ↦ (enoent, rw (seg, missing, file_at_absent fs fh missing))
    | inl present ↦ elim (Bool-cases (s_isdir (file_at fs fh).metadata.st_mode)) [
      | inr file ↦ (fs.errno, rw (seg, present, file))
      | inl dir ↦
          let (e, rest) = find_loop-resolve v (search_name it (file_at fs fh).dentries) fs in
          (
            e,
            rw (seg, present, dir)
                (rw (lookup-search it fh fs, dir, touch_present fs fh present) rest),
          )
    ]
  ]
]

-- `find_real_ino` returns the file at the path, and changes nothing but `errno`.
pub find_real_ino-real :
    (path : Bytes) (fs : Fs)
    → (e : Errno) × (find_real_ino path fs
        ≡ done (real_ino (file_at fs) path) (record fs { errno = e }))
unfolding find_real_ino
find_real_ino-real path fs = find_loop-resolve (split path slash) root_ino fs
