-- ===== src/Console/Replay.antt =====
-- The dialogs that `main` of ProjectWOFuse/src/my_stubs.cc records in full, and how it reads them back:
-- commands whose input is a name, and a mode in octal, two decimal numbers, or a second path.
pub mod Fed
pub mod Asks
pub mod Sessions
pub mod Whole
pub mod Saved
pub mod Endless
use cs179f_bbfs_project.Base.{
  ℕ, zero, suc, ◌+◌, ◌-◌, ◌^◌, ◌<◌, ◌≡◌, refl, sym, ap, ◌∙◌, inl, inr, Bool, true, false, not, ◌&&◌,
  ◌||◌, Option, none, some, List, [], ◌∷◌, ◌++◌, append-nil, append_assoc, arith, ltb, ◌==◌,
  if◌then◌else◌, Bytes, bytes_beq, bytes_beq_iff, Bool-cases, codes,
}
use cs179f_bbfs_project.Console.{
  BasicCommand, mkdir, rmdir, show, lstat, creat, chown, chmod, access, FileCommand, link, unlink,
  rename, readlink, LastCommand, statvfs, llistxattr, Command, basic, on_file, last,
}
use cs179f_bbfs_project.Console.Input.{
  Stream, good, is_space, read_word, read_number, unsigned_target, with_base, digits,
}
use cs179f_bbfs_project.Console.Input.Scan.{
  IsBase, IsWord, Offers, read_word_lem, octal, decimal, read_number_lem,
}
use cs179f_bbfs_project.Console.Dialog.{
  Dialog, Request, command, list_files, list_tree, idle, leave, stop, Reader, from_input, note,
  reset_cin, or_empty, noted_number, ask_mode, ask_id, ask_path, Op, help, play, save, mkdir_op,
  rmdir_op, show_op, ls_op, lstat_op, exit, break_op, lslr, creat_op, touch, chown_op, chmod_op,
  access_op, link_op, unlink_op, cwd, rename_op, pread_op, pwrite_op, symlink_op, readlink_op,
  utime_op, truncate_op, statvfs_op, lsetxattr_op, lgetxattr_op, lremovexattr_op, llistxattr_op,
  unknown, op_table, find_op, ask, read_two, dispatch, read_request,
}

-- What an op asks for behind its file. An op whose input is not recorded in full, `exit` and `break`
-- are other ones.
pub data Shape : Type 0 where
  plain : Request → Shape
  needs_mode : (ℕ → Request) → Shape
  needs_ids : (ℕ → ℕ → Request) → Shape
  needs_path : (Bytes → Request) → Shape
  other : Shape

unfoldable pub shape : Op → (file : Bytes) → Shape
shape mkdir_op file = needs_mode (λ mode. command (basic (mkdir file mode)))
shape creat_op file = needs_mode (λ mode. command (basic (creat file mode)))
shape touch file = needs_mode (λ mode. command (basic (creat file mode)))
shape chmod_op file = needs_mode (λ mode. command (basic (chmod file mode)))
shape access_op file = needs_mode (λ mode. command (basic (access file mode)))
shape chown_op file = needs_ids (λ u g. command (basic (chown file u g)))
shape link_op file = needs_path (λ newpath. command (on_file (link file newpath)))
shape rename_op file = needs_path (λ newpath. command (on_file (rename file newpath)))
shape rmdir_op file = plain (command (basic (rmdir file)))
shape show_op file = plain (command (basic (show file)))
shape ls_op file = plain (list_files file)
shape lstat_op file = plain (command (basic (lstat file)))
shape lslr file = plain (list_tree file)
shape unlink_op file = plain (command (on_file (unlink file)))
shape readlink_op file = plain (command (on_file (readlink file)))
shape statvfs_op file = plain (command (last (statvfs file)))
shape llistxattr_op file = plain (command (last (llistxattr file)))
shape help file = plain idle
shape play file = plain idle
shape save file = plain idle
shape cwd file = plain idle
shape unknown file = plain idle
shape exit file = other
shape break_op file = other
shape pread_op file = other
shape pwrite_op file = other
shape symlink_op file = other
shape utime_op file = other
shape truncate_op file = other
shape lsetxattr_op file = other
shape lgetxattr_op file = other
shape lremovexattr_op file = other

-- What stands behind the file of a command.
pub data Rest : Type 0 where
  no_more : Rest
  a_mode : ℕ → Rest
  ids : (u g : ℕ) → Rest
  a_path : Bytes → Rest

-- A command as it is typed.
pub record Entry : Type 0 where
  pub op : Bytes
  pub file : Bytes
  pub more : Rest

-- The request of an op with what stands behind its file, where that is what it asks for.
abbrev pub request_of : Shape → Rest → Option Request
request_of (plain r) no_more = some r
request_of (needs_mode f) (a_mode m) = some (f m)
request_of (needs_ids f) (ids u g) = some (f u g)
request_of (needs_path f) (a_path p) = some (f p)
request_of s r = none

abbrev pub line : Bytes → Bytes → Bytes
line s t = s ++ b'\n' ∷ t

-- The text of a command in front of another text.
abbrev pub rest_text : Rest → Bytes → Bytes
rest_text no_more t = t
rest_text (a_mode m) t = line (digits 8 m) t
rest_text (ids u g) t = line (digits 10 u) (line (digits 10 g) t)
rest_text (a_path p) t = line p t

abbrev pub entry_text : Entry → Bytes → Bytes
entry_text e t = e.op ++ b' ' ∷ line e.file (rest_text e.more t)

-- Words, and numbers of 32 bits.
abbrev pub IsRest : Rest → Type 0
IsRest no_more = Unit {0}
IsRest (a_mode m) = m < 2 ^ 32
IsRest (ids u g) = (u < 2 ^ 32) × (g < 2 ^ 32)
IsRest (a_path p) = IsWord p

-- A command whose input is of the kind that its op asks for.
pub record IsEntry (e : Entry) (r : Request) : Type 0 where
  pub op_word : IsWord e.op
  pub file_word : IsWord e.file
  pub rest : IsRest e.more
  pub asks : request_of (shape (find_op e.op op_table) e.file) e.more ≡ some r
