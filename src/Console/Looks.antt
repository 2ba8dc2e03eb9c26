-- ===== src/Console/Looks.antt =====
-- The commands of `main` in ProjectWOFuse/src/my_stubs.cc that only look.
use cs179f_bbfs_project.Base.{
  ap, ◌∙◌, ◌-◌, some, true, ℕ, ◌+◌, ◌^◌, ◌≡◌, refl, ◌==◌, false, ◌&&◌, Option, none, Bytes, ltb,
}
use cs179f_bbfs_project.Base.Words.{as_int, of_int}
use cs179f_bbfs_project.Base.Map.{find, bytes_key}
use cs179f_bbfs_project.State.{has_entry, new_file, enoent, Fs, Run, and_then, pure, done, file_at}
use cs179f_bbfs_project.State.View.{file_at_absent, SameView}
use cs179f_bbfs_project.Resolve.Quiet.{
  Quiet, stays, faulted, bind_seen, branch_seen, option_seen, done_seen, errno_seen, touch_seen,
  find_real_ino-Quiet, find_ino-Quiet, my_pread-Quiet, my_readlink-Quiet,
}
use cs179f_bbfs_project.Attributes.{my_access, my_statvfs}
use cs179f_bbfs_project.Xattr.{my_lgetxattr, my_llistxattr}
use cs179f_bbfs_project.Console.{
  printed, show, lstat, access, pread, readlink, statvfs, lgetxattr, llistxattr, basic, on_file,
  last, run_basic, run_file, run_last, run_command, print_xattr_list,
}
use cs179f_bbfs_project.Console.Listing.{Accounts}
use cs179f_bbfs_project.Console.Listing.Quiet.{
  my_fstat-Quiet, my_lstat-Quiet, ls-Quiet, visit-Quiet,
}
use cs179f_bbfs_project.Console.Dialog.{Request, command, list_files, list_tree, idle, leave}
use cs179f_bbfs_project.Console.Loop.{Clock, Ending, serve}

-- What only looks: `show`, `lstat`, `access`, `pread`, `readlink`, `statvfs`, `lgetxattr`, `llistxattr`,
-- `ls`, `lslr`, `exit`, and what does nothing.
pub data Looks : Request → Type 0 where
  shows : {file : Bytes} → Looks (command (basic (show file)))
  lstats : {file : Bytes} → Looks (command (basic (lstat file)))
  accesses : {file : Bytes} {mode : ℕ} → Looks (command (basic (access file mode)))
  preads : {file : Bytes} {offset size : ℕ} → Looks (command (on_file (pread file offset size)))
  readlinks : {file : Bytes} → Looks (command (on_file (readlink file)))
  statvfss : {file : Bytes} → Looks (command (last (statvfs file)))
  lgetxattrs : {file name : Bytes} → Looks (command (last (lgetxattr file name)))
  llistxattrs : {file : Bytes} → Looks (command (last (llistxattr file)))
  lists : {file : Bytes} → Looks (list_files file)
  walks : {file : Bytes} → Looks (list_tree file)
  idles : Looks idle
  leaves : {file : Bytes} → Looks (leave file)

my_access-Quiet :
    {v fs : Fs} (path : Bytes) (mask : ℕ) → SameView v fs → Quiet v (my_access path mask fs)
unfolding my_access
my_access-Quiet path mask s = bind_seen (find_ino-Quiet path s) λ fh gs t.
    bind_seen (my_fstat-Quiet fh t) λ (err, st) hs u. option_seen st _ _ (stays u) (λ m. stays u)

my_statvfs-Quiet : {v fs : Fs} (path : Bytes) → SameView v fs → Quiet v (my_statvfs path false fs)
unfolding my_statvfs
my_statvfs-Quiet path s =
    bind_seen (find_ino-Quiet path s)
      λ fh gs t. branch_seen (fh == 0) _ _ (stays (errno_seen t enoent)) (stays t)

my_lgetxattr-Quiet :
    {v fs : Fs} (path name : Bytes) → SameView v fs → Quiet v (my_lgetxattr path name fs)
unfolding my_lgetxattr
my_lgetxattr-Quiet path name s = bind_seen (find_real_ino-Quiet path s) λ fh gs t.
    branch_seen (fh == 0) _ _ (stays (errno_seen t enoent)) (
      option_seen (find name (file_at gs fh).xattr) _ _ (stays (touch_seen t fh))
        (λ value. stays (touch_seen t fh)))

my_llistxattr-Quiet :
    {v fs : Fs} (path : Bytes) (size : ℕ) → SameView v fs → Quiet v (my_llistxattr path size fs)
unfolding my_llistxattr
my_llistxattr-Quiet path size s =
    bind_seen (find_real_ino-Quiet path s)
      λ fh gs t. branch_seen (fh == 0) _ _ (stays (errno_seen t enoent)) (stays (touch_seen t fh))

-- A call whose result is dropped.
drop_seen : {A : Type 0} {v : Fs} {r : Run A} → Quiet v r → Quiet v (and_then r (λ _. pure tt))
drop_seen q = bind_seen q λ a gs t. stays t

printed_seen :
    {A B : Type 0} {v : Fs} {r : Run (B × Option A)}
    → Quiet v r
    → Quiet v (and_then r (λ q. printed (q.1)))
printed_seen q = bind_seen q λ a gs t. shown (a.1) t
  where
    shown : {A : Type 0} {v gs : Fs} (o : Option A) → SameView v gs → Quiet v (printed o gs)
    shown none t = faulted
    shown (some a) t = stays t

then_none :
    {A : Type 0} {v : Fs} {r : Run A}
    → Quiet v r
    → Quiet v (and_then r (λ _. pure {A = Option Ending} none))
then_none q = bind_seen q λ a gs t. stays t

Looks-Quiet :
    {v fs : Fs} (clock : Clock) (names : Accounts) (depth : ℕ) (r : Request) (recorded : Bytes)
    → Looks r
    → SameView v fs
    → Quiet v (serve clock names depth r recorded fs)
unfolding serve run_command run_basic run_file run_last print_xattr_list
Looks-Quiet clock names depth _ recorded (shows {file}) s =
    then_none (bind_seen (find_ino-Quiet file s) λ fh gs t. stays (touch_seen t (as_int fh)))
Looks-Quiet clock names depth _ recorded (lstats {file}) s =
    then_none (printed_seen (my_lstat-Quiet file s))
Looks-Quiet clock names depth _ recorded (accesses {file} {mode}) s =
    then_none (drop_seen (my_access-Quiet file mode s))
Looks-Quiet clock names depth _ recorded (preads {file} {offset} {size}) s = then_none (
    branch_seen (ltb size (2 ^ 31 - 1)) _ _
      (bind_seen (find_ino-Quiet file s) λ fh gs t.
        printed_seen (my_pread-Quiet (as_int fh) (size + 1) (of_int size) (of_int offset) t))
      faulted)
Looks-Quiet clock names depth _ recorded (readlinks {file}) s =
    then_none (drop_seen (my_readlink-Quiet file 20 20 s))
Looks-Quiet clock names depth _ recorded (statvfss {file}) s =
    then_none (printed_seen (my_statvfs-Quiet file s))
Looks-Quiet clock names depth _ recorded (lgetxattrs {file} {name}) s =
    then_none (drop_seen (my_lgetxattr-Quiet file name s))
Looks-Quiet clock names depth _ recorded (llistxattrs {file}) s = then_none (
    bind_seen (my_llistxattr-Quiet file 100 s)
      λ r gs t. branch_seen (ltb 0 (r.0) && ltb (r.0) (2 ^ 31)) _ _ faulted (stays t))
Looks-Quiet clock names depth _ recorded (lists {file}) s = then_none (ls-Quiet file s)
Looks-Quiet clock names depth _ recorded (walks {file}) s =
    then_none (visit-Quiet depth names file s)
Looks-Quiet clock names depth _ recorded idles s = stays s
Looks-Quiet clock names depth _ recorded leaves s = stays s

-- `show`, `lstat`, `access`, `pread`, `readlink`, `statvfs`, `lgetxattr`, `llistxattr`, `ls`, `lslr`,
-- `exit` and a command that does nothing, where they return, leave every file of `ilist.entry` there and
-- as it was, and the counter and `cwd` too, whatever the state. An entry that a read has made for a
-- number without one may be new, and holds a file of zeros.
pub serve-Looks :
    (clock : Clock) (names : Accounts) (depth : ℕ) (r : Request) (recorded : Bytes) (fs gs : Fs)
    (e : Option Ending)
    → Looks r
    → serve clock names depth r recorded fs ≡ done e gs
    → ((j : ℕ) → has_entry fs j ≡ true → (has_entry gs j ≡ true) × (file_at gs j ≡ file_at fs j))
      × ((j : ℕ) → has_entry fs j ≡ false → file_at gs j ≡ new_file)
      × (gs.count ≡ fs.count)
      × (gs.cwd ≡ fs.cwd)
serve-Looks clock names depth r recorded fs gs e looks run =
    let start : SameView fs fs = record {
      files = refl;
      count = refl;
      first_time = refl;
      cwd = refl;
      kept = λ j h. h;
    } in
    let s : SameView fs gs = done_seen (Looks-Quiet clock names depth r recorded looks start) run in
    (
      λ j there. (s.kept j there, ap (λ v. v j) s.files),
      λ j absent. ap (λ v. v j) s.files ∙ file_at_absent fs j absent,
      s.count,
      s.cwd,
    )
