-- ===== src/System/Boot.antt =====
-- The file system that `initialize` makes.
use cs179f_bbfs_project.Base.{ℕ, ◌≡◌, refl, false, arith, [], ◌∷◌, ◌==◌, if◌then◌else◌, bytes_beq}
use cs179f_bbfs_project.Base.Map.{find, insert, nat_key}
use cs179f_bbfs_project.State.{
  Env, unset, File, Fs, empty_fs, done, masked, file_type-masked, s_islnk, or_ifdir, file_at, touch,
  update, next, new_file,
}
use cs179f_bbfs_project.Path.{split, join, back, pop_back}
use cs179f_bbfs_project.Resolve.{find_ino}
use cs179f_bbfs_project.Create.{new_stat, dot, dot_dot, initialize}
use cs179f_bbfs_project.Invariant.{IsFileOk, IsWellFormed, new_file-IsFileOk, files_if}

-- The root, whose two entries lead to itself.
unfoldable pub root_file : Env → File
unfolding new_stat
root_file env = record {
  metadata = new_stat env 2 (or_ifdir 0o700);
  bytes = [];
  dentries = record { d_ino = 2; d_name = dot } ∷ record { d_ino = 2; d_name = dot_dot } ∷ [];
  xattr = [];
}

unfoldable pub booted_fs : Env → Fs
unfolding root_file
booted_fs env = record {
  entry = (2, root_file env) ∷ [];
  count = 3;
  first_time = false;
  errno = unset;
  cwd = env.working_dir;
}

root_mode : (env : Env) → s_islnk (masked (or_ifdir 0o700) env.umask) ≡ false
root_mode env = ground (arith, file_type-masked (or_ifdir 0o700) env.umask)

-- `initialize` makes the root and nothing else.
pub initialize-booted : (env : Env) → initialize env empty_fs ≡ done tt (booted_fs env)
unfolding initialize find_ino booted_fs file_at touch update next split join back pop_back bytes_beq
    find insert
initialize-booted env = rw root_mode

root_file-IsFileOk : (env : Env) → IsFileOk 3 2 (root_file env)
unfolding root_file
root_file-IsFileOk env = record {
  zero_mode = λ e. absurd (omega arith);
  inos = omega arith;
  fit = omega arith;
}

file_at-booted :
    (env : Env) (i : ℕ) → file_at (booted_fs env) i ≡ (if i == 2 then root_file env else new_file)
unfolding file_at booted_fs find
file_at-booted env i = ground arith

-- The file system that `initialize` makes is well-formed.
pub booted_fs-IsWellFormed : (env : Env) → IsWellFormed (booted_fs env)
unfolding booted_fs
booted_fs-IsWellFormed env = record {
  counter = omega arith;
  booted = refl;
  files = λ i.
      rw file_at-booted
        (files_if 3 i 2 (root_file env) new_file (root_file-IsFileOk env) (new_file-IsFileOk 3 i));
  fresh = λ i h. rw file_at-booted (ground arith);
}
