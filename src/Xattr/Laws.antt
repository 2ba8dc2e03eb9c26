-- ===== src/Xattr/Laws.antt =====
-- The laws of the extended attributes: what is set can be got, what is set already stays, and a list
-- of names fits the room for it.
use cs179f_bbfs_project.Base.{
  ℕ, ◌+◌, ◌≤◌, ◌≡◌, ◌≢◌, refl, sym, ap, ◌∙◌, inl, inr, true, false, Option, none, some, [], ◌∷◌,
  ◌++◌, arith, ltb, ◌==◌, if◌then◌else◌, append-nil, Bool-cases, length, length-append, Bytes,
  bytes_beq, bytes_beq_iff, c_str,
}
use cs179f_bbfs_project.Base.Words.{as_int}
use cs179f_bbfs_project.Base.Map.{Map, find, insert, bytes_key}
use cs179f_bbfs_project.Base.Map.Laws.{find-insert}
use cs179f_bbfs_project.State.{
  ok, an_err, eexist, enoent, s_isdir, File, Fs, done, M, pure, ◌>>◌, modify_entry, fail, file_at,
  touch, update,
}
use cs179f_bbfs_project.State.View.{file_at-touch, file_at-update, file_at_errno, state_of_done}
use cs179f_bbfs_project.Resolve.View.{real_ino, find_real_ino-real}
use cs179f_bbfs_project.Resolve.Compose.{Extends, resolve-Extends}
use cs179f_bbfs_project.Resolve.Grow.{Extends-of_Grows}
use cs179f_bbfs_project.Xattr.{my_lsetxattr, my_lgetxattr, my_llistxattr, list_loop}

-- The two ways of `my_lsetxattr`, by what the file has under the name.
abbrev set_ways : (fh : ℕ) (name value : Bytes) → Option Bytes → M ℕ
set_ways fh name value o = elim o [
  | some old ↦ fail eexist an_err
  | none ↦ do modify_entry fh (λ f. record f { xattr = insert name value f.xattr }); pure ok
]

-- The two ways of `my_lgetxattr`.
abbrev get_ways : Option Bytes → M ℕ
get_ways o = elim o [ none ↦ pure an_err | some value ↦ pure (as_int (length (c_str value))) ]

abbrev pub with_xattr : (name value : Bytes) → File → File
with_xattr name value f = record f { xattr = insert name value f.xattr }

-- An attribute that the file has is left as it is, whatever the value, and no file changes.
pub my_lsetxattr_present :
    (path name value old : Bytes) (fs : Fs)
    → real_ino (file_at fs) path ≢ 0
    → find name (file_at fs (real_ino (file_at fs) path)).xattr ≡ some old
    → (gs : Fs) × (my_lsetxattr path name value fs ≡ done an_err gs)
      × (gs.errno ≡ eexist)
      × (file_at gs ≡ file_at fs)
unfolding my_lsetxattr
my_lsetxattr_present path name value old fs nz there =
    let fh = real_ino (file_at fs) path in
    let (e, run) = find_real_ino-real path fs in
    let nz' : (fh == 0) ≡ false = ground (arith, nz) in
    let ts : Fs = touch fh (record fs { errno = e }) in
    (
      record ts { errno = eexist },
      rw (run, nz', file_at_errno e fs) (ap (λ o. set_ways fh name value o ts) there),
      refl,
      file_at_errno eexist ts ∙ file_at-touch fh (record fs { errno = e }) ∙ file_at_errno e fs,
    )

-- A new attribute is added to the file at the path, and no other file changes.
pub my_lsetxattr-added :
    (path name value : Bytes) (fs : Fs)
    → real_ino (file_at fs) path ≢ 0
    → find name (file_at fs (real_ino (file_at fs) path)).xattr ≡ none
    → (gs : Fs) × (my_lsetxattr path name value fs ≡ done ok gs)
      × ((i : ℕ)
          → file_at gs i ≡ (
              if i == real_ino (file_at fs) path
              then with_xattr name value (file_at fs (real_ino (file_at fs) path))
              else file_at fs i))
unfolding my_lsetxattr
my_lsetxattr-added path name value fs nz new =
    let fh = real_ino (file_at fs) path in
    let (e, run) = find_real_ino-real path fs in
    let nz' : (fh == 0) ≡ false = ground (arith, nz) in
    let ts : Fs = touch fh (record fs { errno = e }) in
    let same : file_at ts ≡ file_at fs =
      file_at-touch fh (record fs { errno = e }) ∙ file_at_errno e fs in
    (
      update fh (with_xattr name value) ts,
      rw (run, nz', file_at_errno e fs) (ap (λ o. set_ways fh name value o ts) new),
      λ i. file_at-update fh i (with_xattr name value) ts ∙ rw same,
    )

-- Paths do not depend on attributes.
pub with_xattr-Extends :
    (view view' : ℕ → File) (fh : ℕ) (name value : Bytes)
    → ((i : ℕ) → view' i ≡ (if i == fh then with_xattr name value (view fh) else view i))
    → Extends view view'
with_xattr-Extends view view' fh name value e = Extends-of_Grows view view' (λ i.
    elim (Bool-cases (i == fh)) [
      | inl same ↦
          let p : i ≡ fh = ground arith in
          let now : view' i ≡ with_xattr name value (view i) = e i ∙ rw (same, p) in
          rw now (record { dir = λ d. d; more = []; dentries = sym (append-nil (view i).dentries) })
      | inr other ↦
          let now : view' i ≡ view i = e i ∙ rw other in
          rw now (record { dir = λ d. d; more = []; dentries = sym (append-nil (view i).dentries) })
    ])

-- An attribute that the file lacked and that has just been set is found: `my_lgetxattr` returns the length of its value, the
-- bytes before the first NUL.
pub my_lgetxattr-my_lsetxattr :
    (path name value : Bytes) (fs gs : Fs)
    → real_ino (file_at fs) path ≢ 0
    → s_isdir (file_at fs 0).metadata.st_mode ≡ false
    → find name (file_at fs (real_ino (file_at fs) path)).xattr ≡ none
    → my_lsetxattr path name value fs ≡ done ok gs
    → (hs : Fs) × (my_lgetxattr path name gs ≡ done (as_int (length (c_str value))) hs)
      × (file_at hs ≡ file_at gs)
unfolding my_lgetxattr
my_lgetxattr-my_lsetxattr path name value fs gs nz zero new run =
    let fh = real_ino (file_at fs) path in
    let (gs', run', files) = my_lsetxattr-added path name value fs nz new in
    let e : gs' ≡ gs = state_of_done (sym run' ∙ run) in
    let view : (i : ℕ)
        → file_at gs i ≡ (if i == fh then with_xattr name value (file_at fs fh) else file_at fs i) =
      λ i. ap (λ s. file_at s i) (sym e) ∙ files i in
    let there : real_ino (file_at gs) path ≡ fh =
      resolve-Extends _ _ _ _ (with_xattr-Extends (file_at fs) (file_at gs) fh name value view) zero
        nz in
    let (e', again) = find_real_ino-real path gs in
    let nz' : (fh == 0) ≡ false = ground (arith, nz) in
    let self : (fh == fh) ≡ true = ground arith in
    let named : bytes_beq name name ≡ true = (bytes_beq_iff name name).1 refl in
    let now : file_at gs fh ≡ with_xattr name value (file_at fs fh) = view fh ∙ rw self in
    let got : find name (file_at gs fh).xattr ≡ some value =
      ap (λ (f : File). find name f.xattr) now
      ∙ find-insert name name value (file_at fs fh).xattr
      ∙ rw named in
    (
      touch fh (record gs { errno = e' }),
      rw (again, there, nz', file_at_errno e' gs)
          (ap (λ o. get_ways o (touch fh (record gs { errno = e' }))) got),
      file_at-touch fh (record gs { errno = e' }) ∙ file_at_errno e' gs,
    )

list_loop_fits :
    (m : Map Bytes Bytes) (size : ℕ) (out : Bytes)
    → length out ≤ size
    → length (list_loop m size out) ≤ size
unfolding list_loop
list_loop_fits [] size out h = h
list_loop_fits ((name, value) ∷ m) size out h =
    elim (Bool-cases (ltb (length out + length (c_str name) + 1) size)) [
      | inl more ↦ rw more (
          list_loop_fits m size (out ++ (c_str name ++ 0 ∷ [])) (
            ground (
              arith,
              length-append out (c_str name ++ 0 ∷ []),
              length-append (c_str name) (0 ∷ []),
            )))
      | inr full ↦ rw full h
    ]

-- `my_llistxattr` never writes more bytes than the caller has room for, and changes no file.
pub my_llistxattr_fits :
    (path : Bytes) (size : ℕ) (fs : Fs)
    → (r : ℕ) × (out : Bytes) × (gs : Fs) × (my_llistxattr path size fs ≡ done (r, out) gs)
      × (length out ≤ size)
      × (file_at gs ≡ file_at fs)
unfolding my_llistxattr
my_llistxattr_fits path size fs =
    let fh = real_ino (file_at fs) path in
    let (e, run) = find_real_ino-real path fs in
    let es : Fs = record fs { errno = e } in
    elim (Bool-cases (fh == 0)) [
      | inl none_there ↦ (
        an_err,
        [],
        record es { errno = enoent },
        rw (run, none_there),
        omega arith,
        file_at_errno enoent es ∙ file_at_errno e fs,
      )
      | inr there ↦
          let out = list_loop (file_at es fh).xattr size [] in
          (
            as_int (length out),
            out,
            touch fh es,
            rw (run, there),
            list_loop_fits (file_at es fh).xattr size [] (omega arith),
            file_at-touch fh es ∙ file_at_errno e fs,
          )
    ]
