-- ===== src/Fuse/Rootless.antt =====
-- No sequence of calls of my_calls.cc makes the root inode, which every path is looked up from.
use mathlib.Core.Path.{subst}
use cs179f_bbfs_project.Base.{
  ℕ, ◌+◌, ◌^◌, ◌<◌, ◌≤◌, ◌≡◌, ◌≢◌, refl, ap, ◌∙◌, inl, inr, true, false, Option, none, some, List,
  [], ◌∷◌, arith, ◌==◌, All, ==_iff, Bool-cases, Option-cases, Bytes,
}
use cs179f_bbfs_project.Base.Map.{Map, find, nat_key}
use cs179f_bbfs_project.Base.Map.Laws.{find-insert}
use cs179f_bbfs_project.Path.{slash}
use cs179f_bbfs_project.Fuse.{
  Inode, Node, Tables, minus_one, long_minus_one, split, walk, find_dirent, get_inode_number,
  max_inode, inode_init, file_init, set_inode,
}
use cs179f_bbfs_project.Fuse.Calls.{open_with, my_open1, my_chmod}
use cs179f_bbfs_project.Fuse.Names.{my_rename, my_rmdir}
use cs179f_bbfs_project.Fuse.Invariant.{
  IsWellFormed, IsKept, All-insert, All-erase, All-insert_new, All-find, set_inode_changed,
  changed_inode,
}
use cs179f_bbfs_project.Fuse.Session.{FuseReach, FuseReach-IsKept}

abbrev IsLow : ℕ → ℕ × Node → Type 0
IsLow bound e = (0 < e.0) × (e.1.inode.i_ino ≤ bound)

-- While fewer than 2 ^ 64 inodes were made, no inode stands under 0, and none has a number above theirs.
IsRootless : Tables → Type 0
IsRootless t = t.addresses < 2 ^ 64 → All (IsLow t.addresses) t.my_ilist

max_inode-le :
    (ilist : Map ℕ Node) (m bound : ℕ)
    → m ≤ bound
    → All (IsLow bound) ilist
    → max_inode ilist m ≤ bound
unfolding max_inode
max_inode-le [] m bound h a = h
max_inode-le ((k, n) ∷ ilist) m bound h ((pos, le), a) =
    ground (arith, max_inode-le ilist m bound h a, max_inode-le ilist n.inode.i_ino bound le a)

IsLow-more :
    (ilist : Map ℕ Node) (bound : ℕ) → All (IsLow bound) ilist → All (IsLow (bound + 1)) ilist
IsLow-more [] bound h = tt
IsLow-more (e ∷ ilist) bound ((pos, le), h) = ((pos, omega arith), IsLow-more ilist bound h)

IsRootless-IsKept : IsKept IsRootless
unfolding IsRootless inode_init file_init
IsRootless-IsKept = record {
  started = λ lt. tt;
  inode_made = λ mode t w lt.
      let low = w (omega (arith, lt)) in
      let top = max_inode-le t.my_ilist 0 t.addresses (omega arith) low in
      All-insert_new (IsLow (t.addresses + 1)) _ _ t.my_ilist
        (omega (arith, top, lt), omega (arith, top, lt)) (IsLow-more t.my_ilist t.addresses low);
  inode_set = λ k g t t' same w e.
      let (n, found, p) = set_inode_changed k g t t' e in
      subst (λ s. s.addresses < 2 ^ 64 → All (IsLow s.addresses) s.my_ilist) p
        (λ lt.
          let (pos, le) = All-find (IsLow t.addresses) k n t.my_ilist (w lt) found in
          All-insert (IsLow t.addresses) k _ t.my_ilist (pos, rw (same n.inode) le) (w lt));
  inode_erased = λ k t w lt. All-erase (IsLow t.addresses) k t.my_ilist (w lt);
  file_made = λ m pos flags k n t w e lt. w lt;
  file_erased = λ fd t w lt. w lt;
}

no_zero : (ilist : Map ℕ Node) (bound : ℕ) → All (IsLow bound) ilist → find 0 ilist ≡ none
unfolding find
no_zero [] bound h = refl
no_zero ((k, n) ∷ ilist) bound ((pos, le), h) =
    let other : (0 == k) ≡ false = ground arith in rw other (no_zero ilist bound h)

-- The tables in which `my_creat` and `my_mkdir` look for a directory have no root either.
pub made_rootless :
    (mode : ℕ) (t : Tables)
    → FuseReach t
    → t.addresses + 1 < 2 ^ 64
    → find 0 ((inode_init mode t).1).my_ilist ≡ none
unfolding IsRootless inode_init
made_rootless mode t reach lt =
    no_zero _ (t.addresses + 1)
      (IsRootless-IsKept.inode_made mode t (FuseReach-IsKept IsRootless-IsKept t reach) lt)

-- Wherever calls lead from empty tables, as long as fewer than 2 ^ 64 inodes were made there is no root:
-- no path is found, and opening, renaming or removing anything fails and changes nothing.
pub FuseReach-rootless :
    (t : Tables) (path newpath : Bytes) (flags : ℕ)
    → FuseReach t
    → t.addresses < 2 ^ 64
    → (get_inode_number path t ≡ long_minus_one)
      × (my_open1 path flags t ≡ some (minus_one, t))
      × (my_rename path newpath t ≡ some (minus_one, t))
      × (my_rmdir path t ≡ some (minus_one, t))
unfolding IsRootless get_inode_number my_open1 open_with my_rename my_rmdir
FuseReach-rootless t path newpath flags reach lt =
    let gone : find 0 t.my_ilist ≡ none =
      no_zero t.my_ilist t.addresses (FuseReach-IsKept IsRootless-IsKept t reach lt) in
    let lost : get_inode_number path t ≡ long_minus_one = rw (get_inode_number, gone) in
    (lost, rw lost, rw lost, rw lost)

-- Where a lookup of names ends, there is an inode.
walk-found :
    (names : List Bytes) (k : ℕ) (n : Node) (ilist : Map ℕ Node)
    → All (λ e. e.0 ≡ e.1.inode.i_ino) ilist
    → find k ilist ≡ some n
    → walk names n.inode ilist ≢ long_minus_one
    → (m : Node) × (find (walk names n.inode ilist) ilist ≡ some m)
unfolding walk
walk-found [] k n ilist keyed found valid =
    let e = All-find (λ e. e.0 ≡ e.1.inode.i_ino) k n ilist keyed found in (n, rw e at found)
walk-found (it ∷ names) k n ilist keyed found valid =
    elim (Bool-cases (find_dirent it n.inode.dirent_buf == long_minus_one)) [
      | inl bad ↦ absurd ((rw bad at valid) refl)
      | inr good ↦
          let d = find_dirent it n.inode.dirent_buf in
          let next : Option Node → ℕ =
            λ o. elim o as (λ _. ℕ) [ none ↦ long_minus_one | some m ↦ walk names m.inode ilist ] in
          elim (Option-cases (find d ilist)) [
            | inl missing ↦
                let lost : walk (it ∷ names) n.inode ilist ≡ long_minus_one =
                  rw (walk, good) (ap next missing) in
                absurd (valid lost)
            | inr (m, there) ↦
                let on : walk (it ∷ names) n.inode ilist ≡ walk names m.inode ilist =
                  rw (walk, good) (ap next there) in
                rw on (walk-found names d m ilist keyed there (λ z. valid (on ∙ z)))
          ]
    ]

inode_found :
    (path : Bytes) (t : Tables)
    → IsWellFormed t
    → get_inode_number path t ≢ long_minus_one
    → (n : Node) × (find (get_inode_number path t) t.my_ilist ≡ some n)
unfolding get_inode_number
inode_found path t w valid =
    let start : Option Node → ℕ = λ o. elim o as (λ _. ℕ) [
      | none ↦ long_minus_one
      | some root ↦ walk (split path slash) root.inode t.my_ilist
    ] in
    elim (Option-cases (find 0 t.my_ilist)) [
      | inl missing ↦ absurd (valid (ap start missing))
      | inr (root, there) ↦
          let on : get_inode_number path t ≡ walk (split path slash) root.inode t.my_ilist =
            ap start there in
          rw on
            (walk-found (split path slash) 0 root t.my_ilist w.keyed there (λ z. valid (on ∙ z)))
    ]

-- In well-formed tables `my_chmod` is never undefined. It gives 0, and changes nothing if the path leads to no
-- inode.
pub my_chmod_defined :
    (path : Bytes) (mode : ℕ) (t : Tables)
    → IsWellFormed t
    → (t' : Tables) × (my_chmod path mode t ≡ some (0, t'))
      × (get_inode_number path t ≡ long_minus_one → t' ≡ t)
      × (get_inode_number path t ≢ long_minus_one
          → (n : Node) × (find (get_inode_number path t) t'.my_ilist ≡ some n)
            × (n.inode.i_mode ≡ mode))
unfolding my_chmod
my_chmod_defined path mode t w = elim (Bool-cases (get_inode_number path t == long_minus_one)) [
  | inl bad ↦
      let lost : get_inode_number path t ≡ long_minus_one = (==_iff _ _).0 bad in
      (t, rw bad, λ _. refl, λ valid. absurd (valid lost))
  | inr good ↦
      let i = get_inode_number path t in
      let valid : i ≢ long_minus_one = λ z. let e = (==_iff i long_minus_one).1 z in cc (e, good) in
      let set : Inode → Inode = λ i. record i { i_mode = mode } in
      let (n, found) = inode_found path t w valid in
      let t' = changed_inode i set t n in
      let changed : set_inode i set t ≡ some t' = rw found in
      let self : (i == i) ≡ true = (==_iff i i).1 refl in
      (
        t',
        rw good (
            ap (λ o. elim o as (λ _. Option (ℕ × Tables)) [ none ↦ none | some s ↦ some (0, s) ])
              changed),
        λ lost. absurd (valid lost),
        λ _. (record n { inode = set n.inode }, find-insert i i _ t.my_ilist ∙ rw self, refl),
      )
]
