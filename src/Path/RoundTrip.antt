-- ===== src/Path/RoundTrip.antt =====
-- `split` meets its structural description, and `join` undoes it.
use native.Mathlib.Nat.{zero-add, suc-add}
use cs179f_bbfs_project.Base.{
  ℕ, zero, suc, ◌+◌, ◌<◌, ◌≡◌, refl, sym, ap, inl, inr, Option-cases, ◌∙◌, ◌≢◌, none, some, List,
  [], ◌∷◌, ◌++◌, arith, append-nil, append_assoc, ◌==◌, if◌then◌else◌, length, take, drop, All,
  Bytes, length-drop,
}
use cs179f_bbfs_project.Path.{
  find_byte, split_loop, split, join_loop, join, back, pop_back, slash, tail_of, parent_of,
}

-- A byte in front of the first part.
abbrev onto : ℕ → List Bytes → List Bytes
onto c [] = (c ∷ []) ∷ []
onto c (p ∷ ps) = (c ∷ p) ∷ ps

-- The parts between the separators.
unfoldable pub parts : ℕ → Bytes → List Bytes
parts pat [] = [] ∷ []
parts pat (c ∷ s) = if c == pat then [] ∷ parts pat s else onto c (parts pat s)

parts-find_byte-none : (pat : ℕ) (s : Bytes) → find_byte pat s ≡ none → parts pat s ≡ s ∷ []
unfolding parts find_byte
parts-find_byte-none pat [] h = refl
parts-find_byte-none pat (c ∷ s) h = ground (arith, parts-find_byte-none pat s)

parts-find_byte-some :
    (pat : ℕ) (s : Bytes) (t : ℕ)
    → find_byte pat s ≡ some t
    → parts pat s ≡ take t s ∷ parts pat (drop (suc t) s)
unfolding parts find_byte
parts-find_byte-some pat [] t h = ground arith
parts-find_byte-some pat (c ∷ s) zero h = ground arith
parts-find_byte-some pat (c ∷ s) (suc t) h = ground (arith, parts-find_byte-some pat s t)

find_byte-lt : (pat : ℕ) (s : Bytes) (t : ℕ) → find_byte pat s ≡ some t → t < length s
unfolding find_byte
find_byte-lt pat [] t h = ground arith
find_byte-lt pat (c ∷ s) zero h = omega arith
find_byte-lt pat (c ∷ s) (suc t) h = ground (arith, find_byte-lt pat s t)

drop-nil : (n : ℕ) → drop {A = ℕ} n [] ≡ []
drop-nil zero = refl
drop-nil (suc n) = refl

drop-drop : (i j : ℕ) (s : Bytes) → drop j (drop i s) ≡ drop (i + j) s
drop-drop zero j s = rw zero-add
drop-drop (suc i) j [] = rw (drop-nil j, drop-nil (suc i + j))
drop-drop (suc i) j (c ∷ s) = rw suc-add (drop-drop i j s)

split_loop-parts :
    (k : ℕ) (s : Bytes) (pat i : ℕ)
    → length (drop i s) < k
    → split_loop k s pat i ≡ parts pat (drop i s)
unfolding split_loop
split_loop-parts zero s pat i h = elim h [ ]
split_loop-parts (suc k) s pat i h = elim (Option-cases (find_byte pat (drop i s))) [
  | inl e ↦ rw (e, split_loop) (sym (parts-find_byte-none pat (drop i s) e))
  | inr (t, e) ↦
      let next : drop (suc t) (drop i s) ≡ drop (i + t + 1) s =
        drop-drop i (suc t) s ∙ ap (λ n. drop n s) (omega arith) in
      let below : length (drop (i + t + 1) s) < k =
        omega (
          arith,
          find_byte-lt pat (drop i s) t e,
          ap length next,
          length-drop (suc t) (drop i s),
        ) in
      rw (e, split_loop)
        (rw (parts-find_byte-some pat (drop i s) t e, next)
          (rw (split_loop-parts k s pat (i + t + 1) below)))
]

-- The index loop of `split` finds the parts between the separators, and is given enough rounds.
pub split-parts : (s : Bytes) (pat : ℕ) → split s pat ≡ parts pat s
unfolding split
split-parts s pat = split_loop-parts (length s + 1) s pat 0 (omega arith)

-- Every part behind a separator.
pub joined : ℕ → List Bytes → Bytes
joined pat [] = []
joined pat (p ∷ v) = pat ∷ (p ++ joined pat v)

join_loop-joined : (v : List Bytes) (s : Bytes) (pat : ℕ) → join_loop s v pat ≡ s ++ joined pat v
unfolding join_loop joined
join_loop-joined [] s pat = sym (append-nil s)
join_loop-joined (p ∷ v) s pat = simp (join_loop-joined v, append_assoc)

pub join-cons : (p : Bytes) (v : List Bytes) (pat : ℕ) → pat ∷ join (p ∷ v) pat ≡ joined pat (p ∷ v)
unfolding join joined
join-cons p v pat = rw join_loop-joined

joined-onto :
    (pat c : ℕ) (ps : List Bytes) (s : Bytes)
    → joined pat ps ≡ pat ∷ s
    → joined pat (onto c ps) ≡ pat ∷ (c ∷ s)
unfolding joined
joined-onto pat c [] s h = cc
joined-onto pat c (p ∷ ps) s h = cc

joined-parts : (pat : ℕ) (s : Bytes) → joined pat (parts pat s) ≡ pat ∷ s
unfolding joined parts
joined-parts pat [] = refl
joined-parts pat (c ∷ s) =
    ground (arith, joined-parts pat s, joined-onto pat c (parts pat s) s (joined-parts pat s))

join-joined : (ps : List Bytes) (pat : ℕ) (s : Bytes) → joined pat ps ≡ pat ∷ s → join ps pat ≡ s
unfolding joined
join-joined [] pat s h = cc
join-joined (p ∷ v) pat s h = cc (join-cons p v pat)

-- Joining the segments of a split gives the text back, whatever the text.
pub join-split : (s : Bytes) (pat : ℕ) → join (split s pat) pat ≡ s
join-split s pat = rw split-parts (join-joined (parts pat s) pat s (joined-parts pat s))

parts-lacks : (pat : ℕ) (name : Bytes) → All (λ c. c ≢ pat) name → parts pat name ≡ name ∷ []
unfolding parts
parts-lacks pat [] h = refl
parts-lacks pat (c ∷ name) (hc, h) = ground (arith, parts-lacks pat name h)

onto-append : (c : ℕ) (ps qs : List Bytes) → ps ≢ [] → onto c (ps ++ qs) ≡ onto c ps ++ qs
onto-append c [] qs h = absurd (h refl)
onto-append c (p ∷ ps) qs h = refl

parts-ne-nil : (pat : ℕ) (s : Bytes) → parts pat s ≢ []
unfolding parts
parts-ne-nil pat [] h = cc
parts-ne-nil pat (c ∷ s) h = onto-ne-nil (parts pat s) (ground arith)
  where
    onto-ne-nil : (ps : List Bytes) → onto c ps ≡ [] → ⊥
    onto-ne-nil [] e = cc
    onto-ne-nil (p ∷ ps) e = cc

parts-append : (pat : ℕ) (p q : Bytes) → parts pat (p ++ pat ∷ q) ≡ parts pat p ++ parts pat q
unfolding parts
parts-append pat [] q = ground arith
parts-append pat (c ∷ p) q =
    ground
      (arith, parts-append pat p q, onto-append c (parts pat p) (parts pat q) (parts-ne-nil pat p))

-- A path and a name without a separator, put together: the segments of the path, then the name.
pub split_child :
    (path name : Bytes) (pat : ℕ)
    → All (λ c. c ≢ pat) name
    → split (path ++ pat ∷ name) pat ≡ split path pat ++ name ∷ []
split_child path name pat h =
    rw (split-parts, split-parts, parts-append pat path name, parts-lacks pat name h)

back-append : (ps : List Bytes) (p : Bytes) → back (ps ++ p ∷ []) ≡ p
unfolding back
back-append [] p = refl
back-append (q ∷ []) p = refl
back-append (q ∷ r ∷ ps) p = back-append (r ∷ ps) p

pop_back-append : (ps : List Bytes) (p : Bytes) → pop_back (ps ++ p ∷ []) ≡ ps
unfolding pop_back
pop_back-append [] p = refl
pop_back-append (q ∷ []) p = refl
pop_back-append (q ∷ r ∷ ps) p = rw (pop_back-append (r ∷ ps) p)

-- Of a path and a name put together, the operations take the path for the parent and the name for
-- the tail.
pub tail_of_child :
    (path name : Bytes)
    → All (λ c. c ≢ slash) name
    → (tail_of (path ++ slash ∷ name) ≡ name) × (parent_of (path ++ slash ∷ name) ≡ path)
tail_of_child path name h = (
  rw (split_child path name slash h) (back-append (split path slash) name),
  rw (split_child path name slash h, pop_back-append (split path slash) name)
      (join-split path slash),
)
