-- ===== src/Console/Dialog.antt =====
-- The loop of `main` in ProjectWOFuse/src/my_stubs.cc: what it reads for each command from `myin`, the
-- file named by the program's argument, or from `cin`, and what it puts into `record`.
use cs179f_bbfs_project.Base.{
  ℕ, ◌-◌, ◌^◌, Bool, true, false, ◌||◌, Option, none, some, List, [], ◌∷◌, ◌++◌, ltb, ◌==◌,
  if◌then◌else◌, Bytes, bytes_beq, codes,
}
use cs179f_bbfs_project.Console.{
  mkdir, rmdir, show, lstat, creat, chown, chmod, access, link, unlink, rename, pread, pwrite,
  symlink, readlink, utime, truncate, statvfs, lsetxattr, lgetxattr, lremovexattr, llistxattr,
  Command, basic, on_file, last,
}
use cs179f_bbfs_project.Console.Input.{
  Stream, good, read_word, read_number, int_target, unsigned_target, long_target, with_base,
  get_line, ignore_byte, digits,
}

-- `myin`, `cin` and the text of `record`.
pub record Dialog : Type 0 where
  pub myin : Stream
  pub cin : Stream
  pub recorded : Bytes

-- What one round of the loop asks for. `idle` is a command that only prints, or whose numbers were
-- wrong.
pub data Request : Type 0 where
  command : Command → Request
  list_files : (file : Bytes) → Request
  list_tree : (file : Bytes) → Request
  idle : Request
  leave : (file : Bytes) → Request
  stop : Request

-- A round's input gives no request where a variable that was never set is used.
abbrev pub Reader : Type 0
Reader = Dialog → Option (Request × Dialog)

-- `(myin.good() ? myin : cin) >> ...`
unfoldable pub from_input : {A : Type 0} → (Stream → A × Stream) → Dialog → A × Dialog
from_input read d =
    if good d.myin
    then (let (a, s) = read d.myin in (a, record d { myin = s }))
    else (let (a, s) = read d.cin in (a, record d { cin = s }))

unfoldable pub from_cin : {A : Type 0} → (Stream → A × Stream) → Dialog → A × Dialog
from_cin read d = let (a, s) = read d.cin in (a, record d { cin = s })

-- `record << text << endl`.
abbrev pub note : Bytes → Dialog → Dialog
note text d = record d { recorded = d.recorded ++ (text ++ b'\n' ∷ []) }

-- Whether `cin` had failed; it is then cleared, and the rest of its line dropped.
unfoldable pub reset_cin : Dialog → Bool × Dialog
reset_cin d =
    if d.cin.failed
    then (true, record d { cin = (get_line (record d.cin { at_eof = false; failed = false })).1 })
    else (false, d)

-- A variable of type `string`, which is empty at first.
abbrev pub or_empty : Option Bytes → Bytes
or_empty none = []
or_empty (some w) = w

-- A mode or a number that was read is recorded in its base, and used, unless `cin` has failed.
unfoldable pub noted_number :
    (base : ℕ) → (ℕ → Reader) → Option ℕ × Dialog → Option (Request × Dialog)
noted_number base next (n, d) =
    let (bad, d') = reset_cin d in
    if bad
    then some (idle, d')
    else elim n [ none ↦ none | some m ↦ next m (note (digits base m) d') ]

-- A mode in octal, as `mkdir`, `creat`, `chmod` and `access` ask for it.
unfoldable pub ask_mode : (ℕ → Request) → Reader
ask_mode next d =
    noted_number 8 (λ mode d'. some (next mode, d'))
      (from_input (λ s. read_number unsigned_target (with_base 8 s)) d)

-- A decimal number that is recorded, as `chown` asks for it.
unfoldable pub ask_id : (ℕ → Reader) → Reader
ask_id next d =
    noted_number 10 next (from_input (λ s. read_number unsigned_target (with_base 10 s)) d)

-- A path that is recorded, as `link` and `rename` ask for it.
unfoldable pub ask_path : (Bytes → Request) → Reader
ask_path next d =
    let (newpath, d1) = from_input read_word d in
    some (next (or_empty newpath), note (or_empty newpath) d1)

-- Two variables that were set.
abbrev pub both : Option ℕ → Option ℕ → (ℕ → ℕ → Request) → Dialog → Option (Request × Dialog)
both (some a) (some b) next d = some (next a b, d)
both none b next d = none
both (some a) none next d = none

-- `offset` is read in the base that was set last.
unfoldable pub ask_pread : (file : Bytes) → Reader
ask_pread file d =
    let (offset, d1) = from_input (read_number int_target) d in
    let (size, d2) = from_input (λ s. read_number int_target (with_base 10 s)) d1 in
    both offset size (λ a b. command (on_file (pread file a b))) d2

-- The text comes from `cin`, whatever `myin` holds, and the offset is not recorded.
unfoldable pub ask_pwrite : (file : Bytes) → Reader
ask_pwrite file d =
    let (offset, d1) = from_input (read_number int_target) d in
    let (text, d2) = from_cin get_line (record d1 { cin = ignore_byte d1.cin }) in
    elim offset [
      | none ↦ none
      | some a ↦ some (command (on_file (pwrite file a (or_empty text))), note (or_empty text) d2)
    ]

unfoldable pub ask_symlink : (file : Bytes) → Reader
ask_symlink file d =
    let (text, d1) = from_input read_word d in
    some (command (on_file (symlink file (or_empty text))), d1)

unfoldable pub ask_utime : (file : Bytes) → Reader
ask_utime file d =
    let (actime, d1) = from_cin (read_number long_target) d in
    let (modtime, d2) = from_cin (read_number long_target) d1 in
    both actime modtime (λ a b. command (on_file (utime file a b))) d2

unfoldable pub ask_truncate : (file : Bytes) → Reader
ask_truncate file d =
    let (n, d1) = from_cin (read_number int_target) d in
    elim n [ none ↦ none | some size ↦ some (command (last (truncate file size)), d1) ]

unfoldable pub ask_lsetxattr : (file : Bytes) → Reader
ask_lsetxattr file d =
    let (name, d1) = from_cin read_word d in
    let (val, d2) = from_cin read_word d1 in
    some (command (last (lsetxattr file (or_empty name) (or_empty val))), d2)

-- `val.resize(size + 1)`: the sum overflows for the largest `int`, and `resize` throws for a size
-- below -1.
unfoldable pub ask_lgetxattr : (file : Bytes) → Reader
ask_lgetxattr file d =
    let (name, d1) = from_cin read_word d in
    let (size, d2) = from_cin (read_number int_target) d1 in
    elim size [
      | none ↦ none
      | some n ↦
          if ltb n (2 ^ 31 - 1) || n == 2 ^ 32 - 1
          then some (command (last (lgetxattr file (or_empty name))), d2)
          else none
    ]

unfoldable pub ask_lremovexattr : (file : Bytes) → Reader
ask_lremovexattr file d =
    let (name, d1) = from_cin read_word d in
    some (command (last (lremovexattr file (or_empty name))), d1)

-- The words that `op` is compared with.
pub data Op : Type 0 where
  help play save mkdir_op rmdir_op show_op ls_op lstat_op exit break_op lslr : Op
  creat_op touch chown_op chmod_op access_op link_op unlink_op cwd rename_op pread_op pwrite_op : Op
  symlink_op readlink_op utime_op truncate_op statvfs_op lsetxattr_op lgetxattr_op : Op
  lremovexattr_op llistxattr_op unknown : Op

abbrev pub op_table : List (Bytes × Op)
op_table =
    (codes "help", help)
    ∷ (codes "play", play)
    ∷ (codes "save", save)
    ∷ (codes "mkdir", mkdir_op)
    ∷ (codes "rmdir", rmdir_op)
    ∷ (codes "show", show_op)
    ∷ (codes "ls", ls_op)
    ∷ (codes "lstat", lstat_op)
    ∷ (codes "exit", exit)
    ∷ (codes "break", break_op)
    ∷ (codes "lslr", lslr)
    ∷ (codes "creat", creat_op)
    ∷ (codes "touch", touch)
    ∷ (codes "chown", chown_op)
    ∷ (codes "chmod", chmod_op)
    ∷ (codes "access", access_op)
    ∷ (codes "link", link_op)
    ∷ (codes "unlink", unlink_op)
    ∷ (codes "cwd", cwd)
    ∷ (codes "rename", rename_op)
    ∷ (codes "pread", pread_op)
    ∷ (codes "pwrite", pwrite_op)
    ∷ (codes "symlink", symlink_op)
    ∷ (codes "readlink", readlink_op)
    ∷ (codes "utime", utime_op)
    ∷ (codes "truncate", truncate_op)
    ∷ (codes "statvfs", statvfs_op)
    ∷ (codes "lsetxattr", lsetxattr_op)
    ∷ (codes "lgetxattr", lgetxattr_op)
    ∷ (codes "lremovexattr", lremovexattr_op)
    ∷ (codes "llistxattr", llistxattr_op)
    ∷ []

unfoldable pub find_op : Bytes → List (Bytes × Op) → Op
find_op op [] = unknown
find_op op ((name, o) ∷ ops) = let rest = find_op op ops in if bytes_beq op name then o else rest

-- The branch of an op.
unfoldable pub ask : Op → (file : Bytes) → Reader
unfolding ask_mode ask_id ask_path ask_pread ask_pwrite ask_symlink ask_utime ask_truncate
    ask_lsetxattr ask_lgetxattr ask_lremovexattr
ask mkdir_op file = ask_mode (λ mode. command (basic (mkdir file mode)))
ask rmdir_op file = λ d. some (command (basic (rmdir file)), d)
ask show_op file = λ d. some (command (basic (show file)), d)
ask ls_op file = λ d. some (list_files file, d)
ask lstat_op file = λ d. some (command (basic (lstat file)), d)
ask exit file = λ d. some (leave file, d)
ask break_op file = λ d. some (stop, d)
ask lslr file = λ d. some (list_tree file, d)
ask creat_op file = ask_mode (λ mode. command (basic (creat file mode)))
ask touch file = ask_mode (λ mode. command (basic (creat file mode)))
ask chown_op file = ask_id (λ u. ask_id (λ g d. some (command (basic (chown file u g)), d)))
ask chmod_op file = ask_mode (λ mode. command (basic (chmod file mode)))
ask access_op file = ask_mode (λ mode. command (basic (access file mode)))
ask link_op file = ask_path (λ newpath. command (on_file (link file newpath)))
ask unlink_op file = λ d. some (command (on_file (unlink file)), d)
ask rename_op file = ask_path (λ newpath. command (on_file (rename file newpath)))
ask pread_op file = ask_pread file
ask pwrite_op file = ask_pwrite file
ask symlink_op file = ask_symlink file
ask readlink_op file = λ d. some (command (on_file (readlink file)), d)
ask utime_op file = ask_utime file
ask truncate_op file = ask_truncate file
ask statvfs_op file = λ d. some (command (last (statvfs file)), d)
ask lsetxattr_op file = ask_lsetxattr file
ask lgetxattr_op file = ask_lgetxattr file
ask lremovexattr_op file = ask_lremovexattr file
ask llistxattr_op file = λ d. some (command (last (llistxattr file)), d)
ask help file = λ d. some (idle, d)
ask play file = λ d. some (idle, d)
ask save file = λ d. some (idle, d)
ask cwd file = λ d. some (idle, d)
ask unknown file = λ d. some (idle, d)

-- `>> op >> file`.
abbrev pub read_two : Stream → (Option Bytes × Option Bytes) × Stream
read_two s = let (op, s1) = read_word s in let (file, s2) = read_word s1 in ((op, file), s2)

-- What follows the two words: the line is recorded, and the branch of the op taken.
unfoldable pub dispatch : (Option Bytes × Option Bytes) × Dialog → Option (Request × Dialog)
dispatch ((op, file), d) =
    let head = or_empty op ++ b' ' ∷ or_empty file in
    let d' = if bytes_beq (or_empty op) (codes "exit") then d else note head d in
    ask (find_op (or_empty op) op_table) (or_empty file) d'

unfoldable pub read_request : Reader
read_request d = dispatch (from_input read_two d)
