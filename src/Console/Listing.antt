-- ===== src/Console/Listing.antt =====
-- The commands of ProjectWOFuse/src/my_stubs.cc that list files: `ls`, `describe_file` and `visit`.
pub mod Quiet
pub mod Good
use cs179f_bbfs_project.Base.{
  ℕ, zero, suc, ◌+◌, Bool, true, false, not, ◌&&◌, ◌||◌, Option, none, some, List, [], ◌∷◌, ◌++◌,
  ltb, ◌==◌, if◌then◌else◌, length, Bytes,
}
use cs179f_bbfs_project.Base.Words.{as_int}
use cs179f_bbfs_project.State.{
  ok, an_err, s_isdir, s_islnk, enoent, enotdir, Stat, Dirent, fault, out_of_fuel, M, pure, ◌>>=◌,
  ◌>>◌, file_at, entry_at, set_errno,
}
use cs179f_bbfs_project.Path.{slash}
use cs179f_bbfs_project.Resolve.{MyDir, fopendir, my_readdir, find_real_ino, find_ino}
use cs179f_bbfs_project.Create.{is_dot}
use cs179f_bbfs_project.Attributes.{my_fstat, my_lstat}

-- The names that the host has for users and groups, where it has any.
pub record Accounts : Type 0 where
  pub has_user : ℕ → Bool
  pub has_group : ℕ → Bool

-- What is printed of a file: its metadata, whether it has attributes, and the link's text if it is a
-- link.
pub record Described : Type 0 where
  pub stat : Stat
  pub tagged : Bool
  pub target : Option Bytes

-- The result is dropped by every caller, and where the file is found there is none.
unfoldable pub describe_file : Bytes → M (Option Described)
unfolding my_lstat
describe_file pathname = do
  (err, st) ← my_lstat pathname
  elim st [
    | none ↦ do set_errno enoent; pure none
    | some s ↦ do
      fh ← find_ino pathname
      if fh == 0 then pure none else do
        f ← entry_at fh
        if s_islnk s.st_mode
            then (do
              real ← find_real_ino pathname
              link ← entry_at real
              pure (
                  some (record {
                    stat = s;
                    tagged = not (length f.xattr == 0);
                    target = some link.bytes;
                  })))
            else pure
                (some (record { stat = s; tagged = not (length f.xattr == 0); target = none }))
  ]

-- The loop of `ls` over the entries.
unfoldable pub describe_all : Bytes → List Dirent → M (List (Option Described))
unfolding describe_file
describe_all path [] = pure []
describe_all path (it ∷ v) = do
  d ← describe_file (path ++ slash ∷ it.d_name)
  ds ← describe_all path v
  pure (d ∷ ds)

unfoldable pub ls : Bytes → M (List (Option Described))
unfolding describe_all
ls path = do
  fh ← find_real_ino path
  if fh == 0 then pure [] else do
    f ← entry_at fh
    if s_isdir f.metadata.st_mode
        then describe_all path f.dentries
        else (do set_errno enotdir; d ← describe_file path; pure (d ∷ []))

-- The last byte of a path that is not empty.
unfoldable pub last_byte : Bytes → Option ℕ
last_byte [] = none
last_byte (c ∷ []) = some c
last_byte (c ∷ d ∷ s) = last_byte (d ∷ s)

-- `root + ( root.back() == '/' ? "" : "/" ) + s`. There is no last byte of an empty path.
unfoldable pub child_path : (root name : Bytes) → Option Bytes
unfolding last_byte
child_path root name = elim (last_byte root) [
  | none ↦ none
  | some c ↦ some (if c == slash then root ++ name else root ++ slash ∷ name)
]

-- The first loop of `visit`: the paths of the entries other than `.` and `..`, and those of them that
-- are directories. Where `my_fstat` fails `st` was never set.
gather : (rounds : ℕ) (root : Bytes) → MyDir → M (List Bytes × List Bytes)
unfolding child_path
gather zero root dirp = λ fs. out_of_fuel
gather (suc k) root dirp = do
  (dp, dirp') ← my_readdir dirp
  elim dp [
    | none ↦ pure ([], [])
    | some d ↦ if is_dot d.d_name then gather k root dirp' else elim (child_path root d.d_name) [
      | none ↦ λ fs. fault
      | some s ↦ do
        (error, st) ← my_fstat d.d_ino
        elim st [
          | none ↦ λ fs. fault
          | some st' ↦ do
            (file, sub) ← gather k root dirp'
            pure (s ∷ file, if s_isdir st'.st_mode then s ∷ sub else sub)
        ]
    ]
  ]

-- The blocks of the files that can be found, as an `int`.
unfoldable pub total_blocks : List Bytes → (size : ℕ) → M ℕ
total_blocks [] size = pure size
total_blocks (filename ∷ file) size = do
  (err, st) ← my_lstat filename
  total_blocks file (elim st [ none ↦ size | some s ↦ as_int (size + s.st_blocks) ])

-- `<` on `std::string`.
unfoldable pub bytes_ltb : Bytes → Bytes → Bool
bytes_ltb s [] = false
bytes_ltb [] (d ∷ t) = true
bytes_ltb (c ∷ s) (d ∷ t) = ltb c d || (c == d && bytes_ltb s t)

-- `file.sort()`, which is stable.
unfoldable pub insert_file : Bytes → List Bytes → List Bytes
unfolding bytes_ltb
insert_file s [] = s ∷ []
insert_file s (t ∷ file) =
    let rest = insert_file s file in if bytes_ltb t s then t ∷ rest else s ∷ t ∷ file

unfoldable pub sort_files : List Bytes → List Bytes
unfolding insert_file
sort_files [] = []
sort_files (s ∷ file) = insert_file s (sort_files file)

-- What `visit` prints: the head of a directory with its blocks, of which half the number is printed,
-- and a line for each file.
pub data Line : Type 0 where
  heading : (root : Bytes) (blocks : ℕ) → Line
  row : (filename : Bytes) (stat : Stat) → Line

-- The loop that reports each file. `getpwuid` and `getgrgid` give NULL for a number that has no name,
-- and it is followed.
unfoldable pub report : Accounts → List Bytes → M (Bool × List Line)
report names [] = pure (true, [])
report names (filename ∷ file) = do
  (err, st) ← my_lstat filename
  elim st [
    | none ↦ pure (false, [])
    | some s ↦
        if names.has_user s.st_uid && names.has_group s.st_gid
        then (do (all, lines) ← report names file; pure (all, row filename s ∷ lines))
        else (λ fs. fault)
  ]

-- The last loop of `visit`. The results of the calls are dropped.
unfoldable pub visit_all : (Bytes → M (ℕ × List Line)) → List Bytes → M (List Line)
visit_all go [] = pure []
visit_all go (root ∷ roots) = do
  (err, lines) ← go root
  more ← visit_all go roots
  pure (lines ++ more)

-- The result, and what is printed. The fuel counts how deep the calls are nested.
unfoldable pub visit : (fuel : ℕ) → Accounts → (root : Bytes) → M (ℕ × List Line)
unfolding gather total_blocks sort_files report visit_all fopendir
visit zero names root = λ fs. out_of_fuel
visit (suc k) names root = do
  fh ← find_ino root
  dirp ← fopendir fh
  elim dirp [
    | none ↦ pure (an_err, [])
    | some dir ↦ do
      (file, hard_subdirectory) ← λ fs. gather (length (file_at fs fh).dentries + 1) root dir fs
      size ← total_blocks file 0
      (all, lines) ← report names (sort_files file)
      if not all then pure (an_err, heading root size ∷ lines) else do
        more ← visit_all (visit k names) hard_subdirectory
        pure (ok, heading root size ∷ (lines ++ more))
  ]
