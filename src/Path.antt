-- ===== src/Path.antt =====
-- `split` and `join` of ProjectWOFuse/src/my_stubs.cc. The pattern is one byte: every call passes "/".
pub mod RoundTrip
use mathlib.Core.Option
use cs179f_bbfs_project.Base.{
  ℕ, zero, suc, ◌+◌, Option, none, some, List, [], ◌∷◌, ◌++◌, ◌==◌, if◌then◌else◌, length, take,
  drop, Bytes,
}

abbrev pub slash : ℕ
slash = b'/'

-- `s.find(pat)`: the position of the first `pat`.
unfoldable pub find_byte : ℕ → Bytes → Option ℕ
find_byte pat [] = none
find_byte pat (c ∷ s) = if c == pat then some 0 else Option.map suc (find_byte pat s)

-- One round of the loop of `split` from the position `i`.
unfoldable pub split_loop : ℕ → Bytes → ℕ → ℕ → List Bytes
split_loop zero s pat i = []
split_loop (suc k) s pat i = elim (find_byte pat (drop i s)) [
  | none ↦ drop i s ∷ []
  | some t ↦ take t (drop i s) ∷ split_loop k s pat (i + t + 1)
]

-- A text has fewer separators than the rounds given.
unfoldable pub split : Bytes → ℕ → List Bytes
unfolding split_loop find_byte
split s pat = split_loop (length s + 1) s pat 0

join_loop : Bytes → List Bytes → ℕ → Bytes
join_loop s [] pat = s
join_loop s (p ∷ v) pat = join_loop (s ++ pat ∷ p) v pat

-- `join(v, pat)`, from the first member to the last.
unfoldable pub join : List Bytes → ℕ → Bytes
unfolding join_loop
join [] pat = []
join (p ∷ v) pat = join_loop p v pat

-- `v.back()` and `v.pop_back()`; a split is never empty.
unfoldable pub back : List Bytes → Bytes
back [] = []
back (p ∷ []) = p
back (p ∷ q ∷ v) = back (q ∷ v)

unfoldable pub pop_back : List Bytes → List Bytes
pop_back [] = []
pop_back (p ∷ []) = []
pop_back (p ∷ q ∷ v) = p ∷ pop_back (q ∷ v)

-- The last segment of a path, and the path of its parent.
abbrev pub tail_of : Bytes → Bytes
tail_of path = back (split path slash)

abbrev pub parent_of : Bytes → Bytes
parent_of path = join (pop_back (split path slash)) slash
