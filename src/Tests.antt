-- ===== src/Tests.antt =====
-- Runs of the operations on small file systems, and the theorems at concrete inputs.
pub mod Stubs
pub mod FuseCalls
pub mod Names
pub mod Callbacks
pub mod Sizes
pub mod Dialogs
use cs179f_bbfs_project.Base.{false, ℕ, List, [], ◌∷◌, Bytes, codes}
use cs179f_bbfs_project.Base.Map.{Map}
use cs179f_bbfs_project.State.{
  Run, done, fault, out_of_fuel, empty_fs, Env, Errno, unset, Stat, zero_stat, Dirent, File, Fs,
}

abbrev pub env : Env
env = record { umask = 0o22; euid = 1; egid = 1; time = λ i. 1000; working_dir = codes "/home" }

abbrev pub entry_to : ℕ → Bytes → Dirent
entry_to ino name = record { d_ino = ino; d_name = name }

abbrev pub file_of : (ino mode nlink : ℕ) → Bytes → List Dirent → File
file_of ino mode nlink bytes dentries = record {
  metadata = record (zero_stat) { st_ino = ino; st_mode = mode; st_nlink = nlink };
  bytes = bytes;
  dentries = dentries;
  xattr = [];
}

abbrev pub root : File
root = file_of 2 0o40700 1 [] (
    entry_to 2 (codes ".")
    ∷ entry_to 2 (codes "..")
    ∷ entry_to 3 (codes "a")
    ∷ entry_to 4 (codes "l")
    ∷ entry_to 5 (codes "long")
    ∷ [])

-- A root with a file `/a`, a link `/l` to it, and a link `/long` whose text does not fit.
abbrev pub small : Fs
small = record {
  entry =
      (2, root)
      ∷ (3, file_of 3 0o100644 1 (codes "hello") [])
      ∷ (4, file_of 4 0o120644 1 (codes "/a") [])
      ∷ (
        5,
        file_of 5 0o120644 1 (codes "/0123456789/0123456789/0123456789/0123456789/0123456789") [],
      )
      ∷ [];
  count = 6;
  first_time = false;
  errno = unset;
  cwd = codes "/home";
}

abbrev pub to_file : Bytes
to_file = codes "/a"

abbrev pub to_link : Bytes
to_link = codes "/l"

abbrev pub to_long : Bytes
to_long = codes "/long"

abbrev pub new_name : Bytes
new_name = codes "b"

-- The state that a run ends in.
abbrev pub state_of : {A : Type 0} → Run A → Fs
state_of (done a fs) = fs
state_of fault = empty_fs
state_of out_of_fuel = empty_fs
