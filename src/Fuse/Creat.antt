-- ===== src/Fuse/Creat.antt =====
-- `my_creat` in the root of the file system behind FUSE.
use cs179f_bbfs_project.Base.{
  ℕ, ◌+◌, ◌-◌, ◌^◌, ◌<◌, ◌≡◌, ◌≢◌, refl, ap, ◌∙◌, inl, inr, true, false, none, some, [], ◌∷◌, arith,
  ltb, ◌==◌, Option-cases, length, Bytes,
}
use cs179f_bbfs_project.Base.Words.{as_int, add64}
use cs179f_bbfs_project.Base.Map.{Map, find, insert, nat_key}
use cs179f_bbfs_project.Base.Map.Laws.{find-insert}
use cs179f_bbfs_project.Path.{slash, back, pop_back}
use cs179f_bbfs_project.Fuse.{
  Node, Tables, long_minus_one, split, find_dirent, walk, get_inode_number, max_inode, inode_init,
  insert_new,
}
use cs179f_bbfs_project.Fuse.Names.{d_name_size, my_creat}

find-insert_new :
    (j k : ℕ) (n : Node) (m : Map ℕ Node) → j ≢ k → find j (insert_new k n m) ≡ find j m
find-insert_new j k n m ne = elim (Option-cases (find k m)) [
  | inl e ↦
      let other : (j == k) ≡ false = ground arith in
      ap (λ o. find j (elim o as (λ o. Map ℕ Node) [ none ↦ insert k n m | some old ↦ m ])) e
      ∙ find-insert j k n m
      ∙ rw other
  | inr (old, e) ↦
      ap (λ o. find j (elim o as (λ o. Map ℕ Node) [ none ↦ insert k n m | some old ↦ m ])) e
]

-- A file made in the root cannot be found: `my_creat` returns its number, the directory is as it was,
-- and a name that the root did not have still leads to nothing. The numbers stay below 2 ^ 64 - 1.
pub my_creat_lost :
    (pathname name : Bytes) (mode : ℕ) (t : Tables) (root : Node)
    → split pathname slash ≡ name ∷ []
    → length name < d_name_size
    → find 0 t.my_ilist ≡ some root
    → find_dirent name root.inode.dirent_buf ≡ long_minus_one
    → max_inode t.my_ilist 0 < 2 ^ 64 - 1
    → (t' : Tables) × (my_creat pathname mode t ≡ some (as_int (max_inode t.my_ilist 0 + 1), t'))
      × (find 0 t'.my_ilist ≡ some root)
      × (get_inode_number pathname t' ≡ long_minus_one)
unfolding my_creat inode_init get_inode_number walk back pop_back
my_creat_lost pathname name mode t root one short there lacks small =
    let i = max_inode t.my_ilist 0 + 1 in
    let t' : Tables = (inode_init mode t).1 in
    let fits : add64 (max_inode t.my_ilist 0) 1 ≡ i = omega arith in
    let few : ltb (length name) d_name_size ≡ true = ground arith in
    let node : Node = record {
      address = t.addresses;
      inode = record {
        i_ino = add64 (max_inode t.my_ilist 0) 1;
        i_mode = mode;
        buf = [];
        dirent_buf = [];
      };
    } in
    let kept : find 0 (insert_new (add64 (max_inode t.my_ilist 0) 1) node t.my_ilist) ≡ some root =
      find-insert_new 0 _ _ t.my_ilist (omega arith) ∙ there in
    (
      t',
      rw (one, few) (rw kept (rw (one, fits) refl)),
      kept,
      rw (get_inode_number, kept) (rw one (rw lacks)),
    )
