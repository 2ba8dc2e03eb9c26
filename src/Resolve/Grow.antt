-- ===== src/Resolve/Grow.antt =====
-- What adding entries to directories, and changing one file, does to the paths.
use cs179f_bbfs_project.Base.{
  sym, inl, inr, ◌==◌, append-nil, Bool-cases, ℕ, ◌≡◌, refl, ap, ◌∙◌, ◌≢◌, true, false, List, [],
  ◌∷◌, ◌++◌, arith, All, Bytes, bytes_beq, bytes_beq_iff,
}
use cs179f_bbfs_project.State.{s_isdir, Dirent, File}
use cs179f_bbfs_project.State.Effects.{set_at}
use cs179f_bbfs_project.Path.{slash}
use cs179f_bbfs_project.Resolve.View.{search_name, real_ino}
use cs179f_bbfs_project.Resolve.Compose.{Extends, resolve-Extends, real_ino_child}

pub search_name-append :
    (name : Bytes) (ds es : List Dirent)
    → search_name name ds ≢ 0
    → search_name name (ds ++ es) ≡ search_name name ds
unfolding search_name
search_name-append name [] es h = absurd (h refl)
search_name-append name (d ∷ ds) es h = ground (arith, search_name-append name ds es)

-- No entry has the name.
abbrev pub LacksName : Bytes → List Dirent → Type 0
LacksName name = All (λ d. bytes_beq d.d_name name ≡ false)

pub search_name_lacks :
    (name : Bytes) (ds : List Dirent) → LacksName name ds → search_name name ds ≡ 0
unfolding search_name
search_name_lacks name [] h = refl
search_name_lacks name (d ∷ ds) (hd, h) = rw hd (search_name_lacks name ds h)

pub search_name_pushed :
    (name : Bytes) (ino : ℕ) (ds : List Dirent)
    → LacksName name ds
    → search_name name (ds ++ record { d_ino = ino; d_name = name } ∷ []) ≡ ino
unfolding search_name
search_name_pushed name ino [] h = rw (bytes_beq_iff name name).1 refl
search_name_pushed name ino (d ∷ ds) (hd, h) = rw hd (search_name_pushed name ino ds h)

-- The later file is a directory where the earlier one was, and has its entries first.
pub record Grows (f g : File) : Type 0 where
  pub dir : s_isdir f.metadata.st_mode ≡ true → s_isdir g.metadata.st_mode ≡ true
  pub more : List Dirent
  pub dentries : g.dentries ≡ f.dentries ++ more

pub Extends-of_Grows :
    (view view' : ℕ → File) → ((i : ℕ) → Grows (view i) (view' i)) → Extends view view'
Extends-of_Grows view view' h = record {
  dirs = λ i. (h i).dir;
  names = λ i name nz.
      ap (search_name name) (h i).dentries
      ∙ search_name-append name (view i).dentries (h i).more nz;
}

-- A change of one file that keeps its entries, and keeps it a directory if it is one, keeps every path.
pub set_at-Extends :
    (v : ℕ → File) (k : ℕ) (g : File → File)
    → (s_isdir (v k).metadata.st_mode ≡ true → s_isdir (g (v k)).metadata.st_mode ≡ true)
    → (g (v k)).dentries ≡ (v k).dentries
    → Extends v (set_at k g v)
set_at-Extends v k g keeps_dir keeps = Extends-of_Grows v (set_at k g v) (λ i.
    elim (Bool-cases (i == k)) [
      | inl same ↦
          let p : i ≡ k = ground arith in
          rw (same, p)
            (record {
              dir = keeps_dir;
              more = [];
              dentries = keeps ∙ sym (append-nil (v k).dentries);
            })
      | inr other ↦
          rw other (record { dir = λ d. d; more = []; dentries = sym (append-nil (v i).dentries) })
    ])

-- A view in which the directory at `dir` has got one entry more, for a name that it lacked.
pub record Adds (view view' : ℕ → File) (dir name : Bytes) (ino : ℕ) : Type 0 where
  pub extends : Extends view view'
  pub zero_before : s_isdir (view 0).metadata.st_mode ≡ false
  pub zero_after : s_isdir (view' 0).metadata.st_mode ≡ false
  pub is_dir : s_isdir (view (real_ino view dir)).metadata.st_mode ≡ true
  pub lacked : LacksName name (view (real_ino view dir)).dentries
  pub plain : All (λ c. c ≢ slash) name
  pub some_name : bytes_beq name [] ≡ false
  pub pushed :
      (view' (real_ino view dir)).dentries
      ≡ (view (real_ino view dir)).dentries ++ record { d_ino = ino; d_name = name } ∷ []

module _ {view view' : ℕ → File} {dir name : Bytes} {ino : ℕ}
    (a : Adds view view' dir name ino) where
  pub dir_ne_zero : real_ino view dir ≢ 0
  dir_ne_zero z = absurd_dir (ap (λ n. s_isdir (view n).metadata.st_mode) z)
    where
      absurd_dir :
          s_isdir (view (real_ino view dir)).metadata.st_mode ≡ s_isdir (view 0).metadata.st_mode
          → ⊥
      absurd_dir e = cc (a.is_dir, a.zero_before)

  -- The paths that led to a file lead to it still, and the new path leads to the new entry.
  pub Adds-kept : (path : Bytes) → real_ino view path ≢ 0 → real_ino view' path ≡ real_ino view path
  Adds-kept path = resolve-Extends view view' _ _ a.extends a.zero_before

  pub Adds-child : real_ino view' (dir ++ slash ∷ name) ≡ ino
  Adds-child =
      real_ino_child view' dir name a.zero_after a.plain a.some_name
      ∙ rw (Adds-kept dir dir_ne_zero, a.extends.dirs (real_ino view dir) a.is_dir, a.pushed)
          (search_name_pushed name ino _ a.lacked)
