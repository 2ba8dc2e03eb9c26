-- ===== src/Fuse/Session.antt =====
-- The calls of my_calls.cc in any order, from empty tables.
use mathlib.Core.Path.{subst}
use cs179f_bbfs_project.Path.{slash, back, pop_back}
use cs179f_bbfs_project.Base.{
  ℕ, ◌≡◌, refl, sym, not, Option, none, some, [], ltb, ◌==◌, length, Bytes,
}
use cs179f_bbfs_project.Base.Words.{of_int}
use cs179f_bbfs_project.Base.Map.{find, nat_key}
use cs179f_bbfs_project.Fuse.{
  Inode, Tables, no_tables, inode_init, set_inode, key_at, split, get_inode_number, long_minus_one,
}
use cs179f_bbfs_project.Fuse.Calls.{my_chmod, my_close, open_with, my_open1, my_open2}
use cs179f_bbfs_project.Fuse.Transfer.{count_write, put_loop, my_pwrite}
use cs179f_bbfs_project.Fuse.Names.{
  my_creat, my_mkdir, make_directory, my_rename, my_rmdir, push_dirent, parent_path, without,
}
use cs179f_bbfs_project.Fuse.Laws.{my_rename_same}
use cs179f_bbfs_project.Fuse.Invariant.{
  IsKept, Leaves, undefined, returns, Leaves-if, Leaves-option,
}

pub data FuseCall : Type 0 where
  chmod : (path : Bytes) (mode : ℕ) → FuseCall
  close : (fd : ℕ) → FuseCall
  creat : (path : Bytes) (mode : ℕ) → FuseCall
  mkdir : (path : Bytes) (mode : ℕ) → FuseCall
  open1 : (path : Bytes) (flags : ℕ) → FuseCall
  open2 : (path : Bytes) (flags mode : ℕ) → FuseCall
  pwrite : (fd : ℕ) (buf : Bytes) (count offset : ℕ) → FuseCall
  rename : (oldpath newpath : Bytes) → FuseCall
  rmdir : (path : Bytes) → FuseCall

unfoldable pub run_fuse : FuseCall → Tables → Option (ℕ × Tables)
run_fuse (chmod path mode) = my_chmod path mode
run_fuse (close fd) = my_close fd
run_fuse (creat path mode) = my_creat path mode
run_fuse (mkdir path mode) = my_mkdir path mode
run_fuse (open1 path flags) = my_open1 path flags
run_fuse (open2 path flags mode) = my_open2 path flags mode
run_fuse (pwrite fd buf count offset) = my_pwrite fd buf count offset
run_fuse (rename oldpath newpath) = my_rename oldpath newpath
run_fuse (rmdir path) = my_rmdir path

pub data FuseReach : Tables → Type 0 where
  start : FuseReach no_tables
  step :
      {t t' : Tables} {r : ℕ}
      → FuseReach t
      → (c : FuseCall) → run_fuse c t ≡ some (r, t')
      → FuseReach t'

module _ {P : Tables → Type 0} (kept : IsKept P) where
  set-Leaves :
      (k : ℕ) (g : Inode → Inode) (t : Tables) (r : ℕ)
      → ((i : Inode) → (g i).i_ino ≡ i.i_ino)
      → P t
      → Leaves P (elim (set_inode k g t) as (λ _. Option (ℕ × Tables)) [
        | none ↦ none
        | some t' ↦ some (r, t')
      ])
  set-Leaves k g t r same w =
      Leaves-option (set_inode k g t) _ _ undefined
        (λ t' e. returns (kept.inode_set k g t t' same w e))

module _ {P : Tables → Type 0} (kept : IsKept P) (t : Tables) (w : P t) where
  chmod-Leaves : (path : Bytes) (mode : ℕ) → Leaves P (my_chmod path mode t)
  unfolding my_chmod
  chmod-Leaves path mode = Leaves-if _ _ _ (returns w) (
      set-Leaves kept (get_inode_number path t) (λ i. record i { i_mode = mode }) t 0 (λ i. refl) w)

  close-Leaves : (fd : ℕ) → Leaves P (my_close fd t)
  unfolding my_close
  close-Leaves fd =
      Leaves-option (find (of_int fd) t.my_open_ft) _ _ (returns w)
        (λ f e. returns (kept.file_erased (of_int fd) t w))

  open_with-Leaves : (path : Bytes) (flags mode : ℕ) → Leaves P (open_with path flags mode t)
  unfolding open_with
  open_with-Leaves path flags mode = Leaves-if _ _ _ (returns w) (
      Leaves-option (find (get_inode_number path t) t.my_ilist) _ _ (returns w)
        (λ n e. returns (kept.file_made mode 0 flags (get_inode_number path t) n t w e)))

  make_directory-Leaves :
      (mode : ℕ) (name : Bytes) (parent : ℕ) → Leaves P (make_directory mode name parent t)
  unfolding make_directory
  make_directory-Leaves mode name parent =
      Leaves-if _ _ _ undefined
        (set-Leaves kept parent (push_dirent _) _ _ (λ i. refl) (kept.inode_made mode t w))

  mkdir-Leaves : (path : Bytes) (mode : ℕ) → Leaves P (my_mkdir path mode t)
  unfolding my_mkdir
  mkdir-Leaves path mode =
      let names = split path slash in
      let parent = get_inode_number (parent_path [] (pop_back names)) t in
      Leaves-if (not (get_inode_number path t == long_minus_one)) _ _ (returns w) (
        Leaves-if (length names == 0) _ _ (returns w) (
          Leaves-if (length names == 1) _ _ (make_directory-Leaves mode (back names) 0) (
            Leaves-if (parent == long_minus_one) _ _ (returns w)
              (make_directory-Leaves mode (back names) parent))))

  creat-Leaves : (path : Bytes) (mode : ℕ) → Leaves P (my_creat path mode t)
  unfolding my_creat
  creat-Leaves path mode =
      let w' = kept.inode_made mode t w in
      Leaves-if _ _ _ undefined (
        Leaves-if _ _ _ undefined (
          Leaves-option (find 0 ((inode_init mode t).1.my_ilist)) _ _ (returns w') (λ root e.
            Leaves-if _ _ _ (returns w') (set-Leaves kept _ (push_dirent _) _ _ (λ i. refl) w'))))

  pwrite-Leaves :
      (fd : ℕ) (buf : Bytes) (count offset : ℕ) → Leaves P (my_pwrite fd buf count offset t)
  unfolding my_pwrite
  pwrite-Leaves fd buf count offset =
      Leaves-option (find (of_int fd) t.my_open_ft) _ _ (returns w) (λ f e.
        Leaves-option (key_at f.f_inode t.my_ilist) _ _ undefined (λ ki e'.
          Leaves-option
            (put_loop (count_write buf count (length (ki.1.buf))) (ki.1.buf) offset buf 0) _ _
            undefined
            (λ s e''. set-Leaves kept (ki.0) (λ i. record i { buf = s }) t _ (λ i. refl) w)))

  rmdir-Leaves : (path : Bytes) → Leaves P (my_rmdir path t)
  unfolding my_rmdir
  rmdir-Leaves path =
      let names = split path slash in
      let current = get_inode_number path t in
      let parent = get_inode_number (parent_path [] (pop_back names)) t in
      Leaves-if (current == long_minus_one) _ _ (returns w) (
        Leaves-if (current == 0) _ _ (returns w) (
          Leaves-option (find current t.my_ilist) _ _ undefined (λ n e.
            Leaves-if (ltb 0 (length n.inode.dirent_buf)) _ _ (returns w) (
              Leaves-if (length names == 0) _ _ undefined (
                Leaves-if (parent == long_minus_one) _ _ (returns w) (
                  Leaves-option (find parent t.my_ilist) _ _ undefined (λ p e'.
                    Leaves-option (without (back names) p.inode.dirent_buf) _ _ (returns w)
                      (λ ds e''.
                        Leaves-option (set_inode parent (λ i. record i { dirent_buf = ds }) t) _ _
                          undefined
                          (λ t' e₃. returns (
                            kept.inode_erased current t' (
                              kept.inode_set parent (λ i. record i { dirent_buf = ds }) t t'
                                (λ i. refl) w e₃)))))))))))

  run_fuse-Leaves : (c : FuseCall) → Leaves P (run_fuse c t)
  unfolding run_fuse my_open1 my_open2
  run_fuse-Leaves (chmod path mode) = chmod-Leaves path mode
  run_fuse-Leaves (close fd) = close-Leaves fd
  run_fuse-Leaves (creat path mode) = creat-Leaves path mode
  run_fuse-Leaves (mkdir path mode) = mkdir-Leaves path mode
  run_fuse-Leaves (open1 path flags) = open_with-Leaves path flags 0x644
  run_fuse-Leaves (open2 path flags mode) = open_with-Leaves path flags mode
  run_fuse-Leaves (pwrite fd buf count offset) = pwrite-Leaves fd buf count offset
  run_fuse-Leaves (rename oldpath newpath) =
      same (my_rename oldpath newpath t) (my_rename_same oldpath newpath t)
    where
      same :
          (o : Option (ℕ × Tables))
          → ((t' : Tables) (r : ℕ) → o ≡ some (r, t') → t' ≡ t)
          → Leaves P o
      same none h = undefined
      same (some (r, t')) h = returns (subst P (sym (h t' r refl)) w)
  run_fuse-Leaves (rmdir path) = rmdir-Leaves path

left_of_returned :
    {P : Tables → Type 0} {o : Option (ℕ × Tables)} {r : ℕ} {t : Tables}
    → Leaves P o
    → o ≡ some (r, t)
    → P t
left_of_returned undefined e = cc e
left_of_returned {P} (returns {t = s} w) e = let p : s ≡ _ = cc e in subst P p w

-- What every change keeps holds wherever calls lead.
pub FuseReach-IsKept : {P : Tables → Type 0} → IsKept P → (t : Tables) → FuseReach t → P t
FuseReach-IsKept kept t start = kept.started
FuseReach-IsKept kept t (step {t = s} reach c e) =
    left_of_returned (run_fuse-Leaves kept s (FuseReach-IsKept kept s reach) c) e
