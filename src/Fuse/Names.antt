-- ===== src/Fuse/Names.antt =====
-- `my_creat`, `my_mkdir`, `my_rename` and `my_rmdir` of ProjectWFuse/src/my_calls.cc.
use cs179f_bbfs_project.Base.{
  ℕ, not, Option, none, some, List, [], ◌∷◌, ◌++◌, ltb, ◌==◌, if◌then◌else◌, length, Bytes,
  bytes_beq,
}
use cs179f_bbfs_project.Base.Words.{as_int}
use cs179f_bbfs_project.Base.Map.{find, erase, nat_key}
use cs179f_bbfs_project.State.{Dirent}
use cs179f_bbfs_project.Path.{slash, back, pop_back}
use cs179f_bbfs_project.Fuse.{
  Inode, Call, minus_one, long_minus_one, split, get_inode_number, inode_init, set_inode,
}

-- The bytes of `d_name`.
abbrev pub d_name_size : ℕ
d_name_size = 256

-- `str += name + "/"` over the names, from "/" on.
unfoldable pub folder_path : Bytes → List Bytes → Bytes
folder_path str [] = str
folder_path str (name ∷ names) = folder_path (str ++ (name ++ slash ∷ [])) names

-- `parent_path += "/" + name` over the names, from "" on.
unfoldable pub parent_path : Bytes → List Bytes → Bytes
parent_path str [] = str
parent_path str (name ∷ names) = parent_path (str ++ slash ∷ name) names

abbrev pub push_dirent : Dirent → Inode → Inode
push_dirent d i = record i { dirent_buf = i.dirent_buf ++ d ∷ [] }

-- The new entry of a file in the root goes into a copy of the root, and is lost.
unfoldable pub my_creat : (pathname : Bytes) (mode : ℕ) → Call ℕ
unfolding folder_path
my_creat pathname mode t =
    let (inum, t') = inode_init mode t in
    let dir_names = split pathname slash in
    let dirent : Dirent = record { d_ino = inum; d_name = back dir_names } in
    if length dir_names == 0
    then none
    else if not (ltb (length (back dir_names)) d_name_size)
    then none
    else elim (find 0 t'.my_ilist) [
      | none ↦ some (minus_one, t')
      | some root ↦
          if length (pop_back dir_names) == 0
          then some (as_int inum, t')
          else elim (set_inode (get_inode_number (folder_path (slash ∷ []) (pop_back dir_names)) t')
              (push_dirent dirent) t') [ none ↦ none | some t'' ↦ some (as_int inum, t'') ]
    ]

-- The end of `my_mkdir`, with the parent found.
unfoldable pub make_directory : (mode : ℕ) (name : Bytes) (parent_inode : ℕ) → Call ℕ
make_directory mode name parent_inode t =
    let (new_inode, t') = inode_init mode t in
    let dirent : Dirent = record { d_ino = new_inode; d_name = name } in
    if not (ltb (length name) d_name_size)
    then none
    else elim (set_inode parent_inode (push_dirent dirent) t') [
      | none ↦ none
      | some t'' ↦ some (as_int new_inode, t'')
    ]

unfoldable pub my_mkdir : (pathname : Bytes) (mode : ℕ) → Call ℕ
unfolding make_directory parent_path
my_mkdir pathname mode t =
    let dir_names = split pathname slash in
    let parent_inode = get_inode_number (parent_path [] (pop_back dir_names)) t in
    if not (get_inode_number pathname t == long_minus_one)
    then some (minus_one, t)
    else if length dir_names == 0
    then some (minus_one, t)
    else if length dir_names == 1
    then make_directory mode (back dir_names) 0 t
    else if parent_inode == long_minus_one
    then some (minus_one, t)
    else make_directory mode (back dir_names) parent_inode t

-- The loop of `my_rename`: the iterator is moved on before it is read, so the first entry is skipped
-- and the end is read as an entry. The name is put into a copy of the directory.
unfoldable pub rename_loop : (fname newname : Bytes) → List Dirent → Option ℕ
rename_loop fname newname [] = some minus_one
rename_loop fname newname (d ∷ []) = none
rename_loop fname newname (d ∷ e ∷ ds) =
    if bytes_beq fname e.d_name
    then if ltb (length newname) d_name_size then some 0 else none
    else rename_loop fname newname (e ∷ ds)

unfoldable pub my_rename : (oldpath newpath : Bytes) → Call ℕ
unfolding rename_loop folder_path
my_rename oldpath newpath t =
    let dir_names = split oldpath slash in
    let new_names = split newpath slash in
    let i_num = get_inode_number (folder_path (slash ∷ []) (pop_back dir_names)) t in
    if get_inode_number oldpath t == long_minus_one
    then some (minus_one, t)
    else if length dir_names == 0
    then none
    else if length new_names == 0
    then none
    else if i_num == long_minus_one
    then some (minus_one, t)
    else elim (find i_num t.my_ilist) [
      | none ↦ some (minus_one, t)
      | some n ↦ elim (rename_loop (back dir_names) (back new_names) n.inode.dirent_buf) [
        | none ↦ none
        | some r ↦ some (r, t)
      ]
    ]

-- The entries without the first of the name, if there is one.
unfoldable pub without : Bytes → List Dirent → Option (List Dirent)
without name [] = none
without name (d ∷ ds) =
    let rest = without name ds in
    if bytes_beq d.d_name name then some ds else elim rest [ none ↦ none | some es ↦ some (d ∷ es) ]

unfoldable pub my_rmdir : (pathname : Bytes) → Call ℕ
unfolding without parent_path
my_rmdir pathname t =
    let current_inode = get_inode_number pathname t in
    let dir_names = split pathname slash in
    let parent_inode = get_inode_number (parent_path [] (pop_back dir_names)) t in
    if current_inode == long_minus_one
    then some (minus_one, t)
    else if current_inode == 0
    then some (minus_one, t)
    else elim (find current_inode t.my_ilist) [
      | none ↦ none
      | some n ↦
          if ltb 0 (length n.inode.dirent_buf)
          then some (minus_one, t)
          else if length dir_names == 0
          then none
          else if parent_inode == long_minus_one
          then some (minus_one, t)
          else elim (find parent_inode t.my_ilist) [
            | none ↦ none
            | some p ↦ elim (without (back dir_names) p.inode.dirent_buf) [
              | none ↦ some (minus_one, t)
              | some ds ↦ elim (set_inode parent_inode (λ i. record i { dirent_buf = ds }) t) [
                | none ↦ none
                | some t' ↦ some (0, record t' { my_ilist = erase current_inode t'.my_ilist })
              ]
            ]
          ]
    ]
