-- ===== src/Resolve/Keeps.antt =====
-- Changes of the files that leave all paths to directories as they are.
use cs179f_bbfs_project.Base.{
  ℕ, ◌≡◌, ◌≢◌, refl, sym, ap, ◌∙◌, inl, inr, Bool, true, false, List, [], ◌∷◌, arith, ◌==◌,
  Bool-cases, Bytes, bytes_beq,
}
use cs179f_bbfs_project.State.{s_isdir, Dirent, File, push_dentry}
use cs179f_bbfs_project.State.Effects.{View, set_at, set_at_other}
use cs179f_bbfs_project.Resolve.View.{search_name, resolve}
use cs179f_bbfs_project.Resolve.Grow.{search_name-append}

abbrev pub is_dir_at : View → ℕ → Bool
is_dir_at v i = s_isdir (v i).metadata.st_mode

-- The directories are directories still, and their entries for directories lead where they led.
pub record KeepsDirs (v w : View) : Type 0 where
  pub dirs : (i : ℕ) → is_dir_at v i ≡ true → is_dir_at w i ≡ true
  pub names :
      (i : ℕ) (name : Bytes)
      → is_dir_at v i ≡ true
      → is_dir_at v (search_name name (v i).dentries) ≡ true
      → search_name name (w i).dentries ≡ search_name name (v i).dentries

pub KeepsDirs-trans : {u v w : View} → KeepsDirs u v → KeepsDirs v w → KeepsDirs u w
KeepsDirs-trans {u} {v} {w} h k = record {
  dirs = λ i d. k.dirs i (h.dirs i d);
  names = λ i name d e.
      let same = h.names i name d e in
      k.names i name (h.dirs i d) (ap (is_dir_at v) same ∙ h.dirs _ e) ∙ same;
}

-- Behind what is no directory lies no directory.
resolve_plain :
    (v : View) (segments : List Bytes) (fh : ℕ)
    → is_dir_at v 0 ≡ false
    → is_dir_at v fh ≡ false
    → is_dir_at v (resolve v segments fh) ≡ false
unfolding resolve
resolve_plain v [] fh z h = h
resolve_plain v (it ∷ segments) fh z h = elim (Bool-cases (bytes_beq it [])) [
  | inl skip ↦ rw skip (resolve_plain v segments fh z h)
  | inr seg ↦ rw (seg, h) z
]

-- A path to a directory still leads to it.
pub resolve-KeepsDirs :
    (v w : View) (segments : List Bytes) (fh : ℕ)
    → KeepsDirs v w
    → is_dir_at v 0 ≡ false
    → is_dir_at v (resolve v segments fh) ≡ true
    → resolve w segments fh ≡ resolve v segments fh
unfolding resolve
resolve-KeepsDirs v w [] fh k z h = refl
resolve-KeepsDirs v w (it ∷ segments) fh k z h = elim (Bool-cases (bytes_beq it [])) [
  | inl skip ↦ rw skip (resolve-KeepsDirs v w segments fh k z (rw skip at h))
  | inr seg ↦ elim (Bool-cases (is_dir_at v fh)) [
    | inr other ↦ let e = rw (seg, other) at h in cc (e, z)
    | inl dir ↦
        let next = search_name it (v fh).dentries in
        let h' : is_dir_at v (resolve v segments next) ≡ true = rw (seg, dir) at h in
        elim (Bool-cases (is_dir_at v next)) [
          | inl on ↦
              rw (seg, dir, k.dirs fh dir, k.names fh it dir on)
                (resolve-KeepsDirs v w segments next k z h')
          | inr off ↦ let e = resolve_plain v segments next z off in cc (e, h')
        ]
  ]
]

module _ (v : View) where
  -- What happens to a file that is no directory.
  pub KeepsDirs-plain :
      (k : ℕ) (g : File → File) → is_dir_at v k ≡ false → KeepsDirs v (set_at k g v)
  KeepsDirs-plain k g h = record {
    dirs = λ i d.
        ap (λ (f : File). s_isdir f.metadata.st_mode) (set_at_other v k g i (differs i d)) ∙ d;
    names = λ i name d e.
        ap (λ (f : File). search_name name f.dentries) (set_at_other v k g i (differs i d));
  }
    where
      differs : (i : ℕ) → is_dir_at v i ≡ true → i ≢ k
      differs i d p = let e = ap (is_dir_at v) p in cc (d, e, h)

  -- Other entries of a directory, of which those for directories keep their places.
  pub KeepsDirs-entries :
      (k : ℕ) (g : File → File)
      → (g (v k)).metadata ≡ (v k).metadata
      → ((name : Bytes)
          → is_dir_at v (search_name name (v k).dentries) ≡ true
          → search_name name (g (v k)).dentries ≡ search_name name (v k).dentries)
      → KeepsDirs v (set_at k g v)
  KeepsDirs-entries k g meta names = record {
    dirs = λ i d. elim (Bool-cases (i == k)) [
      | inl at_k ↦ let p : i ≡ k = ground arith in rw at_k (rw meta (ap (is_dir_at v) (sym p) ∙ d))
      | inr other ↦ rw other d
    ];
    names = λ i name d e. elim (Bool-cases (i == k)) [
      | inl at_k ↦ let p : i ≡ k = ground arith in rw (at_k, p) (names name (rw p at e))
      | inr other ↦ rw other refl
    ];
  }

  -- A new last entry.
  pub KeepsDirs-push :
      (k : ℕ) (d : Dirent) → is_dir_at v 0 ≡ false → KeepsDirs v (set_at k (push_dentry d) v)
  KeepsDirs-push k d z = KeepsDirs-entries k (push_dentry d) refl (λ name e.
      search_name-append name (v k).dentries (d ∷ [])
        (λ p. let q = ap (is_dir_at v) p in cc (q, e, z)))
