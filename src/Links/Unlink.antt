-- ===== src/Links/Unlink.antt =====
-- What `my_unlink` does to the paths.
use cs179f_bbfs_project.Base.{
  suc, if◌then◌else◌, List, ℕ, ◌≡◌, ◌≢◌, sym, ap, ◌∙◌, inl, inr, true, false, [], ◌∷◌, ◌++◌, arith,
  ◌==◌, Bool-cases, Bytes, All, bytes_beq,
}
use cs179f_bbfs_project.State.{Dirent, ok, File, Fs, done, file_at, s_isdir, s_islnk}
use cs179f_bbfs_project.State.Effects.{View, set_at, erased, set_at_self, set_at_other}
use cs179f_bbfs_project.Path.{slash, parent_of}
use cs179f_bbfs_project.Path.RoundTrip.{tail_of_child}
use cs179f_bbfs_project.Resolve.View.{search_name, real_ino}
use cs179f_bbfs_project.Resolve.Compose.{real_ino_child}
use cs179f_bbfs_project.Resolve.Follow.{followed}
use cs179f_bbfs_project.Resolve.Grow.{LacksName, search_name_lacks}
use cs179f_bbfs_project.Resolve.NewName.{zero_kinds}
use cs179f_bbfs_project.Resolve.Keeps.{
  is_dir_at, KeepsDirs, KeepsDirs-trans, KeepsDirs-plain, resolve-KeepsDirs,
}
use cs179f_bbfs_project.Create.{is_dot}
use cs179f_bbfs_project.Links.{erase_first, erase_name, my_unlink}
use cs179f_bbfs_project.Links.Effects.{drop_link, dropped, IsNamed, my_unlink-unlinked}
use cs179f_bbfs_project.Links.Erase.{without_name, KeepsDirs-erase}

-- How many entries have a name.
unfoldable pub count_name : Bytes → List Dirent → ℕ
count_name name [] = 0
count_name name (d ∷ ds) =
    let rest = count_name name ds in if bytes_beq d.d_name name then suc rest else rest

none_lack : (name : Bytes) (ds : List Dirent) → count_name name ds ≡ 0 → LacksName name ds
unfolding count_name
none_lack name [] h = tt
none_lack name (d ∷ ds) h = elim (Bool-cases (bytes_beq d.d_name name)) [
  | inl hit ↦
      let one_more : suc (count_name name ds) ≡ 0 = rw hit at h in absurd (omega (arith, one_more))
  | inr miss ↦ let e : count_name name ds ≡ 0 = rw miss at h in (miss, none_lack name ds e)
]

-- The only entry with a name is the one that is erased.
pub LacksName-once :
    (name : Bytes) (ds : List Dirent)
    → count_name name ds ≡ 1
    → LacksName name (without_name name ds)
unfolding count_name erase_first
LacksName-once name [] h = tt
LacksName-once name (d ∷ ds) h = elim (Bool-cases (bytes_beq d.d_name name)) [
  | inl hit ↦
      let one : suc (count_name name ds) ≡ 1 = rw hit at h in
      let no_more : count_name name ds ≡ 0 = omega (arith, one) in
      rw hit (none_lack name ds no_more)
  | inr miss ↦
      let e : count_name name ds ≡ 1 = rw miss at h in rw miss (miss, LacksName-once name ds e)
]

-- A file, no directory and no link, behind a plain name that one entry of its directory has.
pub record IsFileIn (v : View) (dir name : Bytes) : Type 0 where
  pub zero_free : (v 0).metadata.st_mode ≡ 0
  pub is_dir : is_dir_at v (real_ino v dir) ≡ true
  pub plain : All (λ c. c ≢ slash) name
  pub some_name : bytes_beq name [] ≡ false
  pub named : is_dot name ≡ false
  pub some_file : real_ino v (dir ++ slash ∷ name) ≢ 0
  pub no_dir : is_dir_at v (real_ino v (dir ++ slash ∷ name)) ≡ false
  pub no_link : s_islnk (v (real_ino v (dir ++ slash ∷ name))).metadata.st_mode ≡ false
  pub once : count_name name (v (real_ino v dir)).dentries ≡ 1

pub dir_no_link : (mode : ℕ) → s_isdir mode ≡ true → s_islnk mode ≡ false
dir_no_link mode h = ground arith

module _ {v : View} {dir name : Bytes} (n : IsFileIn v dir name) where
  pub zero_no_dir : is_dir_at v 0 ≡ false
  zero_no_dir = (zero_kinds (v 0).metadata.st_mode n.zero_free).0

  -- The number is that of the entry.
  pub entry_ino : real_ino v (dir ++ slash ∷ name) ≡ search_name name (v (real_ino v dir)).dentries
  entry_ino = real_ino_child v dir name zero_no_dir n.plain n.some_name ∙ rw n.is_dir

  pub followed_file : followed v (dir ++ slash ∷ name) ≡ real_ino v (dir ++ slash ∷ name)
  followed_file = rw n.no_link

  pub parent_no_link : s_islnk (v (real_ino v dir)).metadata.st_mode ≡ false
  parent_no_link = dir_no_link (v (real_ino v dir)).metadata.st_mode n.is_dir

  pub followed_parent : followed v (parent_of (dir ++ slash ∷ name)) ≡ real_ino v dir
  followed_parent = rw ((tail_of_child dir name n.plain).1, parent_no_link)

  pub file_ne_dir : real_ino v (dir ++ slash ∷ name) ≢ real_ino v dir
  file_ne_dir p = let e = ap (is_dir_at v) p in cc (e, n.no_dir, n.is_dir)

  pub dir_ne_zero : 0 ≢ real_ino v dir
  dir_ne_zero p = let e = ap (is_dir_at v) p in cc (e, zero_no_dir, n.is_dir)

  pub file_IsNamed : IsNamed v (dir ++ slash ∷ name)
  file_IsNamed = record {
    followable = λ lnk. cc (lnk, n.no_link);
    parent_followable = λ lnk.
        let e : s_islnk (v (real_ino v (parent_of (dir ++ slash ∷ name)))).metadata.st_mode
            ≡ false =
          rw ((tail_of_child dir name n.plain).1) parent_no_link in
        cc (lnk, e);
    some_file = rw followed_file n.some_file;
    named = rw ((tail_of_child dir name n.plain).0) n.named;
  }

  -- The paths to directories survive the erasure of the entry.
  pub KeepsDirs-entry : KeepsDirs v (set_at (real_ino v dir) (erase_name name) v)
  KeepsDirs-entry =
      KeepsDirs-erase v (real_ino v dir) name (ap (is_dir_at v) (sym entry_ino) ∙ n.no_dir)

module _ (w : View) (fh : ℕ) (h : is_dir_at w fh ≡ false) where
  dropped-KeepsDirs : KeepsDirs w (dropped fh w)
  dropped-KeepsDirs =
      let once = KeepsDirs-plain w fh drop_link h in
      let again : is_dir_at (set_at fh drop_link w) fh ≡ false =
        ap (λ (f : File). s_isdir f.metadata.st_mode) (set_at_self w fh drop_link) ∙ h in
      elim (Bool-cases ((set_at fh drop_link w fh).metadata.st_nlink == 0)) [
        | inl last ↦
            rw last (KeepsDirs-trans once (KeepsDirs-plain (set_at fh drop_link w) fh erased again))
        | inr kept ↦ rw kept once
      ]

  dropped_other : (i : ℕ) → i ≢ fh → dropped fh w i ≡ w i
  dropped_other i ne =
      let other : (i == fh) ≡ false = ground arith in
      elim (Bool-cases ((set_at fh drop_link w fh).metadata.st_nlink == 0)) [
        | inl last ↦ rw (last, other)
        | inr kept ↦ rw (kept, other)
      ]

-- Where number 0 has no mode, a directory has a plain name other than `.` and `..` once, and the name leads to a file that is no directory and no link:
-- after `my_unlink` the path leads to nothing, and every path to a directory leads to the
-- directory still.
pub my_unlink_path :
    (dir name : Bytes) (fs : Fs)
    → IsFileIn (file_at fs) dir name
    → (gs : Fs) × (my_unlink (dir ++ slash ∷ name) fs ≡ done ok gs)
      × (real_ino (file_at gs) (dir ++ slash ∷ name) ≡ 0)
      × ((path : Bytes)
          → is_dir_at (file_at fs) (real_ino (file_at fs) path) ≡ true
          → real_ino (file_at gs) path ≡ real_ino (file_at fs) path)
my_unlink_path dir name fs n =
    let v = file_at fs in
    let d = real_ino v dir in
    let r = real_ino v (dir ++ slash ∷ name) in
    let (gs, run, e) = my_unlink-unlinked (dir ++ slash ∷ name) fs (file_IsNamed n) in
    let w : View = set_at d (erase_name name) v in
    let now : file_at gs ≡ dropped r w =
      e ∙ rw (followed_file n, followed_parent n, (tail_of_child dir name n.plain).0) in
    let wr : w r ≡ v r = set_at_other v d (erase_name name) r (file_ne_dir n) in
    let plain : is_dir_at w r ≡ false =
      ap (λ (f : File). s_isdir f.metadata.st_mode) wr ∙ n.no_dir in
    let keeps : KeepsDirs v (dropped r w) =
      KeepsDirs-trans (KeepsDirs-entry n) (dropped-KeepsDirs w r plain) in
    let paths : (path : Bytes)
        → is_dir_at v (real_ino v path) ≡ true
        → real_ino (dropped r w) path ≡ real_ino v path =
      λ path is_dir. resolve-KeepsDirs v (dropped r w) _ _ keeps (zero_no_dir n) is_dir in
    let at_d : dropped r w d ≡ erase_name name (v d) =
      dropped_other w r plain d (λ p. file_ne_dir n (sym p)) ∙ set_at_self v d (erase_name name) in
    let zero' : is_dir_at (dropped r w) 0 ≡ false =
      ap (λ (f : File). s_isdir f.metadata.st_mode)
        (dropped_other w r plain 0 (λ p. n.some_file (sym p))
          ∙ set_at_other v d (erase_name name) 0 (dir_ne_zero n))
      ∙ zero_no_dir n in
    let gone : real_ino (dropped r w) (dir ++ slash ∷ name) ≡ 0 =
      real_ino_child (dropped r w) dir name zero' n.plain n.some_name
      ∙ rw (paths dir n.is_dir, keeps.dirs d n.is_dir, at_d)
          (search_name_lacks name _ (LacksName-once name _ n.once)) in
    (
      gs,
      run,
      ap (λ u. real_ino u (dir ++ slash ∷ name)) now ∙ gone,
      λ path is_dir. ap (λ u. real_ino u path) now ∙ paths path is_dir,
    )
