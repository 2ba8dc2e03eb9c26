-- ===== src/Links/Erase.antt =====
-- The directory after `erase_name`.
use cs179f_bbfs_project.Base.{
  ℕ, ◌≡◌, refl, ap, inl, inr, true, false, List, [], ◌∷◌, ◌++◌, arith, Bool-cases, Bytes, bytes_beq,
  bytes_beq_iff,
}
use cs179f_bbfs_project.State.{Dirent}
use cs179f_bbfs_project.State.Effects.{View, set_at}
use cs179f_bbfs_project.Resolve.View.{search_name}
use cs179f_bbfs_project.Resolve.Grow.{LacksName}
use cs179f_bbfs_project.Resolve.Keeps.{is_dir_at, KeepsDirs, KeepsDirs-entries}
use cs179f_bbfs_project.Links.{erase_first, erase_name}

-- The entries without the first of the name.
abbrev pub without_name : Bytes → List Dirent → List Dirent
without_name name = erase_first (λ d. bytes_beq d.d_name name)

pub search_name-erase_other :
    (other name : Bytes) (ds : List Dirent)
    → bytes_beq other name ≡ false
    → search_name other (without_name name ds) ≡ search_name other ds
unfolding search_name erase_first
search_name-erase_other other name [] h = refl
search_name-erase_other other name (d ∷ ds) h = ground (
  arith,
  search_name-erase_other other name ds h,
  bytes_beq_iff d.d_name name,
  bytes_beq_iff d.d_name other,
  bytes_beq_iff other name,
)

-- A new last entry is what is erased of a name that was not there.
pub erase-push :
    (name : Bytes) (ino : ℕ) (ds : List Dirent)
    → LacksName name ds
    → without_name name (ds ++ record { d_ino = ino; d_name = name } ∷ []) ≡ ds
unfolding erase_first
erase-push name ino [] h =
    let same : bytes_beq name name ≡ true = (bytes_beq_iff name name).1 refl in rw same
erase-push name ino (d ∷ ds) (hd, h) = rw hd (ap (λ t. d ∷ t) (erase-push name ino ds h))

-- Erasing an entry that leads to no directory.
pub KeepsDirs-erase :
    (v : View) (k : ℕ) (name : Bytes)
    → is_dir_at v (search_name name (v k).dentries) ≡ false
    → KeepsDirs v (set_at k (erase_name name) v)
KeepsDirs-erase v k name plain = KeepsDirs-entries v k (erase_name name) refl (λ other e.
    elim (Bool-cases (bytes_beq other name)) [
      | inl same ↦
          let p : other ≡ name = (bytes_beq_iff other name).0 same in
          let q = ap (λ (s : Bytes). is_dir_at v (search_name s (v k).dentries)) p in
          cc (e, q, plain)
      | inr differs ↦ search_name-erase_other other name (v k).dentries differs
    ])

-- A name that is not there is not there once another is erased.
pub LacksName-without :
    (other name : Bytes) (ds : List Dirent)
    → LacksName other ds
    → LacksName other (without_name name ds)
unfolding erase_first
LacksName-without other name [] h = tt
LacksName-without other name (d ∷ ds) (hd, h) = elim (Bool-cases (bytes_beq d.d_name name)) [
  | inl hit ↦ rw hit h
  | inr miss ↦ rw miss (hd, LacksName-without other name ds h)
]

-- A name that is there once, or an other one put in its place.
pub search_name_replaced :
    (name other : Bytes) (ino : ℕ) (ds : List Dirent)
    → LacksName name ds
    → bytes_beq other name ≡ false
    → search_name name (ds ++ record { d_ino = ino; d_name = other } ∷ []) ≡ 0
unfolding search_name
search_name_replaced name other ino [] h ne = rw ne
search_name_replaced name other ino (d ∷ ds) (hd, h) ne =
    rw hd (search_name_replaced name other ino ds h ne)
