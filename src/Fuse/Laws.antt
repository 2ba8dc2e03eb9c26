-- ===== src/Fuse/Laws.antt =====
-- The two versions of `split`, and what `my_rename` of my_calls.cc leaves undone.
use cs179f_bbfs_project.Base.{
  ℕ, zero, suc, ◌+◌, ◌≡◌, refl, ap, inl, inr, some, List, [], ◌∷◌, arith, Option-cases, length,
  take, drop, Bytes,
}
use cs179f_bbfs_project.Base.Map.{nat_key}
use cs179f_bbfs_project.Path
use cs179f_bbfs_project.Path.{find_byte}
use cs179f_bbfs_project.Fuse.{Tables, push_part, split_loop, split}
use cs179f_bbfs_project.Fuse.Names.{my_rename}

-- The parts that are not empty.
unfoldable pub nonempty : List Bytes → List Bytes
nonempty [] = []
nonempty (c ∷ v) = push_part c (nonempty v)

split_loop-nonempty :
    (k : ℕ) (s : Bytes) (pat i : ℕ) → split_loop k s pat i ≡ nonempty (Path.split_loop k s pat i)
unfolding split_loop Path.split_loop nonempty
split_loop-nonempty zero s pat i = refl
split_loop-nonempty (suc k) s pat i = elim (Option-cases (find_byte pat (drop i s))) [
  | inl e ↦ rw (e, split_loop, Path.split_loop)
  | inr (t, e) ↦
      rw (e, split_loop, Path.split_loop)
        (ap (push_part (take t (drop i s))) (split_loop-nonempty k s pat (i + t + 1)))
]

-- The `split` of my_calls.cc gives the parts that the `split` of my_stubs.cc gives, the empty ones
-- left out.
pub split-nonempty : (s : Bytes) (pat : ℕ) → split s pat ≡ nonempty (Path.split s pat)
unfolding split Path.split
split-nonempty s pat = split_loop-nonempty (length s + 1) s pat 0

-- Where `my_rename` returns, it has changed nothing: no file gets another name.
pub my_rename_same :
    (oldpath newpath : Bytes) (t t' : Tables) (r : ℕ)
    → my_rename oldpath newpath t ≡ some (r, t')
    → t' ≡ t
unfolding my_rename
my_rename_same oldpath newpath t t' r h = ground arith
