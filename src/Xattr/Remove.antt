-- ===== src/Xattr/Remove.antt =====
-- `my_lremovexattr` takes back what `my_lsetxattr` did.
use cs179f_bbfs_project.Base.{
  ℕ, ◌≡◌, ◌≢◌, refl, sym, ap, ◌∙◌, inl, inr, true, false, Option, none, some, [], arith, ◌==◌,
  if◌then◌else◌, Bool-cases, Bytes, bytes_beq, bytes_beq_iff,
}
use cs179f_bbfs_project.Base.Map.{Map, find, insert, erase, bytes_key}
use cs179f_bbfs_project.Base.Map.Laws.{find-insert, find-erase}
use cs179f_bbfs_project.State.{
  ok, an_err, enoattr, s_isdir, s_islnk, File, Fs, done, M, pure, ◌>>◌, modify_entry, fail, file_at,
  touch, update,
}
use cs179f_bbfs_project.State.View.{state_of_done}
use cs179f_bbfs_project.State.Effects.{set_at, file_at-update_as, file_at-touch_as}
use cs179f_bbfs_project.Resolve.View.{real_ino}
use cs179f_bbfs_project.Resolve.Follow.{IsFollowable, followed, find_ino_as}
use cs179f_bbfs_project.Resolve.Compose.{resolve-Extends}
use cs179f_bbfs_project.Xattr.{my_lsetxattr, my_lremovexattr}
use cs179f_bbfs_project.Xattr.Laws.{with_xattr, my_lsetxattr-added, with_xattr-Extends}

-- The two ways of `my_lremovexattr`, by what the file has under the name.
abbrev remove_ways : (fh : ℕ) (name : Bytes) → Option Bytes → M ℕ
remove_ways fh name o = elim o [
  | none ↦ fail enoattr an_err
  | some value ↦ do modify_entry fh (λ f. record f { xattr = erase name f.xattr }); pure ok
]

abbrev without_xattr : Bytes → File → File
without_xattr name f = record f { xattr = erase name f.xattr }

-- Two files that differ in their attributes' order at most.
pub record IsSameFile (f g : File) : Type 0 where
  pub attributes : (name : Bytes) → find name f.xattr ≡ find name g.xattr
  pub rest : record f { xattr = [] } ≡ record g { xattr = [] }

-- An attribute that the file behind the path has is taken away, and no other file changes.
pub my_lremovexattr-removed :
    (path name value : Bytes) (fs : Fs)
    → IsFollowable (file_at fs) path
    → followed (file_at fs) path ≢ 0
    → find name (file_at fs (followed (file_at fs) path)).xattr ≡ some value
    → (gs : Fs) × (my_lremovexattr path name fs ≡ done ok gs)
      × (file_at gs ≡ set_at (followed (file_at fs) path) (without_xattr name) (file_at fs))
unfolding my_lremovexattr
my_lremovexattr-removed path name value fs short nz there =
    let v = file_at fs in
    let fh = followed v path in
    let (ts, found, e) = find_ino_as path fs v refl short in
    let nz' : (fh == 0) ≡ false = ground (arith, nz) in
    (
      update fh (without_xattr name) (touch fh ts),
      rw (found, nz', e) (ap (λ o. remove_ways fh name o (touch fh ts)) there),
      file_at-update_as fh (without_xattr name) (touch fh ts) v (file_at-touch_as fh ts v e),
    )

find-set_and_removed :
    (k name value : Bytes) (m : Map Bytes Bytes)
    → find name m ≡ none
    → find k (erase name (insert name value m)) ≡ find k m
find-set_and_removed k name value m new = elim (Bool-cases (bytes_beq k name)) [
  | inl same ↦
      let p : k ≡ name = (bytes_beq_iff k name).0 same in
      find-erase k name (insert name value m) ∙ rw same (rw p (sym new))
  | inr other ↦
      find-erase k name (insert name value m) ∙ rw other (find-insert k name value m ∙ rw other)
]

-- Of a path that ends in no link, an attribute that the file lacked is set and then removed: every file
-- has the attributes and everything else that it had.
pub my_lremovexattr-my_lsetxattr :
    (path name value : Bytes) (fs gs : Fs)
    → real_ino (file_at fs) path ≢ 0
    → s_isdir (file_at fs 0).metadata.st_mode ≡ false
    → s_islnk (file_at fs (real_ino (file_at fs) path)).metadata.st_mode ≡ false
    → find name (file_at fs (real_ino (file_at fs) path)).xattr ≡ none
    → my_lsetxattr path name value fs ≡ done ok gs
    → (hs : Fs) × (my_lremovexattr path name gs ≡ done ok hs)
      × ((i : ℕ) → IsSameFile (file_at hs i) (file_at fs i))
my_lremovexattr-my_lsetxattr path name value fs gs nz zero no_link new run =
    let v = file_at fs in
    let u = file_at gs in
    let fh = real_ino v path in
    let (gs', run', files) = my_lsetxattr-added path name value fs nz new in
    let e : gs' ≡ gs = state_of_done (sym run' ∙ run) in
    let view : (i : ℕ) → u i ≡ (if i == fh then with_xattr name value (v fh) else v i) =
      λ i. ap (λ s. file_at s i) (sym e) ∙ files i in
    let there : real_ino u path ≡ fh =
      resolve-Extends _ _ _ _ (with_xattr-Extends v u fh name value view) zero nz in
    let self : (fh == fh) ≡ true = ground arith in
    let now : u fh ≡ with_xattr name value (v fh) = view fh ∙ rw self in
    let plain : s_islnk (u (real_ino u path)).metadata.st_mode ≡ false =
      rw there (ap (λ (f : File). s_islnk f.metadata.st_mode) now ∙ no_link) in
    let leads : followed u path ≡ fh = rw plain there in
    let nz' : followed u path ≢ 0 = rw leads nz in
    let named : bytes_beq name name ≡ true = (bytes_beq_iff name name).1 refl in
    let got : find name (u fh).xattr ≡ some value =
      ap (λ (f : File). find name f.xattr) now
      ∙ find-insert name name value (v fh).xattr
      ∙ rw named in
    let (hs, removed, e2) =
      my_lremovexattr-removed path name value gs (λ lnk. cc (lnk, plain)) nz' (rw leads got) in
    let after : file_at hs ≡ set_at fh (without_xattr name) u = e2 ∙ rw leads in
    (
      hs,
      removed,
      λ i. elim (Bool-cases (i == fh)) [
        | inl same ↦
            let p : i ≡ fh = ground arith in
            let file : file_at hs i ≡ without_xattr name (with_xattr name value (v fh)) =
              ap (λ w. w i) after ∙ rw same (ap (without_xattr name) now) in
            rw (file, p)
              (record {
                attributes = λ k. find-set_and_removed k name value (v fh).xattr new;
                rest = refl;
              })
        | inr other ↦
            let file : file_at hs i ≡ v i = ap (λ w. w i) after ∙ rw other (view i ∙ rw other) in
            rw file (record { attributes = λ k. refl; rest = refl })
      ],
    )
