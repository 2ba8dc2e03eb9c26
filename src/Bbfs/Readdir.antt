-- ===== src/Bbfs/Readdir.antt =====
-- `bb_readdir` of ProjectWFuse/src/bbfs.c against the entries that the host has left to give.
use mathlib.Core.Path.{subst}
use cs179f_bbfs_project.Base.{
  ℕ, zero, suc, ◌≡◌, ◌≤◌, refl, sym, Bool-cases, inl, inr, none, some, List, [], ◌∷◌, ◌==◌, arith,
  ap, if◌then◌else◌, length, Bytes,
}
use cs179f_bbfs_project.Fuse.{Tables}
use cs179f_bbfs_project.Bbfs.{Host, Mounted, minus, bb_error}
use cs179f_bbfs_project.Bbfs.Handles.{enomem, readdir_loop, bb_readdir}

-- Reading a directory of the host gives the names, and then its end.
pub data Stream {World : Type 0} (h : Host World) (dp : ℕ) : World → List Bytes → Type 0 where
  ended : {w w' : World} → h.readdir dp w ≡ (none, w') → Stream h dp w []
  entry :
      {w w' : World} {name : Bytes} {names : List Bytes}
      → h.readdir dp w ≡ (some name, w')
      → Stream h dp w' names
      → Stream h dp w (name ∷ names)

-- The names put into a buffer in order, up to the first that does not fit.
unfoldable pub fill : {Buf : Type 0} → (Bytes → Buf → ℕ × Buf) → List Bytes → Buf → ℕ × Buf
fill filler [] buf = (0, buf)
fill filler (name ∷ names) buf =
    let rest = fill filler names (filler name buf).1 in
    if (filler name buf).0 == 0 then rest else (minus enomem, (filler name buf).1)

-- What a whole request gives, with the `errno` that it leaves.
abbrev pub listed :
    {Buf : Type 0} → (Bytes → Buf → ℕ × Buf) → (left_errno : ℕ) → List Bytes → Buf → ℕ × Buf
listed filler left_errno [] buf = (minus left_errno, buf)
listed filler left_errno (name ∷ names) buf = fill filler (name ∷ names) buf

module _ {World Buf : Type 0} (h : Host World) (filler : Bytes → Buf → ℕ × Buf) (dp : ℕ) where
  loop_fills :
      (k : ℕ) (w : World) (t : Tables) (name : Bytes) (names : List Bytes) (buf : Buf)
      → Stream h dp w names
      → length names ≤ k
      → (s : Mounted World) × (readdir_loop h filler
            (suc k)
            dp
            name
            buf
            (record { world = w; tables = t })
          ≡ some (fill filler (name ∷ names) buf, s))
  unfolding readdir_loop fill
  loop_fills k w t name [] buf (ended e) le = elim (Bool-cases ((filler name buf).0 == 0)) [
    | inl room ↦
        let last : (h.readdir dp w).0 ≡ none = ap (λ x. x.0) e in
        (record { world = (h.readdir dp w).1; tables = t }, rw (readdir_loop, room, last) refl)
    | inr full ↦ (record { world = w; tables = t }, rw full refl)
  ]
  loop_fills zero w t name (next ∷ names) buf (entry e rest) le = absurd (omega (arith, le))
  loop_fills (suc k) w t name (next ∷ names) buf (entry {w' = w'} e rest) le =
      elim (Bool-cases ((filler name buf).0 == 0)) [
        | inl room ↦
            let read : (h.readdir dp w).0 ≡ some next = ap (λ x. x.0) e in
            let left = subst (λ v. Stream h dp v names) (sym (ap (λ x. x.1) e)) rest in
            let (s, more) =
              loop_fills k (h.readdir dp w).1 t next names (filler name buf).1 left
                (omega (arith, le)) in
            (s, rw (readdir_loop, room, read) more)
        | inr full ↦ (record { world = w; tables = t }, rw full refl)
      ]

  -- With room for one round an entry, the entries that the host has left go into the buffer in order: the
  -- result is 0 if all of them fit, and minus ENOMEM after the first that does not. Where none is left it is
  -- minus `errno` and the buffer is as it was.
  pub bb_readdir_fills :
      (fuel : ℕ) (names : List Bytes) (buf : Buf) (s : Mounted World)
      → Stream h dp s.world names
      → length names ≤ fuel
      → (s' : Mounted World) × (bb_readdir h filler fuel dp buf s
          ≡ some (listed filler (h.errno s'.world) names buf, s'))
  unfolding bb_readdir bb_error
  bb_readdir_fills fuel [] buf s (ended e) le =
      let last : (h.readdir dp s.world).0 ≡ none = ap (λ x. x.0) e in
      (record { world = (h.readdir dp s.world).1; tables = s.tables }, rw (bb_readdir, last) refl)
  bb_readdir_fills zero (name ∷ names) buf s (entry e rest) le = absurd (omega (arith, le))
  bb_readdir_fills (suc k) (name ∷ names) buf s (entry {w' = w'} e rest) le =
      let read : (h.readdir dp s.world).0 ≡ some name = ap (λ x. x.0) e in
      let left = subst (λ v. Stream h dp v names) (sym (ap (λ x. x.1) e)) rest in
      let (s', filled) =
        loop_fills k (h.readdir dp s.world).1 s.tables name names buf left (omega (arith, le)) in
      (s', rw (bb_readdir, read) filled)
