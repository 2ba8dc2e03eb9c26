-- ===== src/Tests/Sizes.antt =====
-- The theorems on sizes, modes and the removal of attributes of my_stubs.cc at concrete inputs.
use cs179f_bbfs_project.Base.{
  Bytes, ◌/◌, ◌%◌, ◌↔◌, ℕ, ◌≡◌, refl, false, [], ◌∷◌, arith, codes, bytes_beq,
}
use cs179f_bbfs_project.Base.Map.{find, insert, nat_key, bytes_key}
use cs179f_bbfs_project.State.{
  an_err, with_mode, ok, unset, zero_stat, Fs, done, file_at, touch, update,
}
use cs179f_bbfs_project.State.Effects.{set_at}
use cs179f_bbfs_project.Path.{split, split_loop, find_byte}
use cs179f_bbfs_project.Resolve.{find_ino}
use cs179f_bbfs_project.Resolve.View.{search_name, resolve, real_ino}
use cs179f_bbfs_project.Resolve.Follow.{followed}
use cs179f_bbfs_project.Contents.{my_pwrite, resize, my_truncate}
use cs179f_bbfs_project.Contents.Truncate.{
  IsResizable, with_size, my_truncate-with_size, my_truncate-my_truncate,
}
use cs179f_bbfs_project.Attributes.{my_access, my_chmod}
use cs179f_bbfs_project.Attributes.Chmod.{IsRegularAt, my_chmod_lem}
use cs179f_bbfs_project.Xattr.{my_lremovexattr}
use cs179f_bbfs_project.Xattr.Remove.{IsSameFile, my_lremovexattr-my_lsetxattr}
use cs179f_bbfs_project.Tests.{state_of, root, small, to_file}
use cs179f_bbfs_project.Tests.Stubs.{tagged, tags}

-- `/a` with five bytes and an `st_size` that says so.
abbrev sized : Fs
sized = record {
  entry =
      (2, root)
      ∷ (
        3,
        record {
          metadata = record (zero_stat) {
            st_ino = 3;
            st_mode = 0o100644;
            st_nlink = 1;
            st_size = 5;
          };
          bytes = codes "hello";
          dentries = [];
          xattr = [];
        },
      )
      ∷ [];
  count = 4;
  first_time = false;
  errno = unset;
  cwd = codes "/";
}

file-IsResizable : IsResizable (file_at sized) to_file 8
unfolding resolve search_name bytes_beq file_at find split split_loop find_byte
file-IsResizable = record {
  followable = λ lnk. cc;
  some_file = omega arith;
  no_dir = refl;
  size_fits = omega arith;
}

my_truncate-with_size_example :
    (gs : Fs) × (my_truncate to_file 8 sized ≡ done ok gs)
    × (file_at gs ≡ set_at (followed (file_at sized) to_file) (with_size 8) (file_at sized))
my_truncate-with_size_example = my_truncate-with_size to_file 8 sized file-IsResizable

grown : Fs
unfolding my_truncate
grown = state_of (my_truncate to_file 8 sized)

grows : my_truncate to_file 8 sized ≡ done ok grown
unfolding my_truncate grown resize find_ino split bytes_beq find file_at touch update insert
grows = refl

my_truncate-my_truncate_example :
    (hs : Fs) × (my_truncate to_file 5 grown ≡ done ok hs) × (file_at hs ≡ file_at sized)
unfolding resolve search_name bytes_beq file_at find split split_loop find_byte
my_truncate-my_truncate_example =
    my_truncate-my_truncate to_file 8 sized grown file-IsResizable refl refl (omega arith) refl
      grows

my_lremovexattr-my_lsetxattr_example :
    (hs : Fs) × (my_lremovexattr to_file (codes "user") tagged ≡ done ok hs)
    × ((i : ℕ) → IsSameFile (file_at hs i) (file_at small i))
unfolding resolve search_name bytes_beq file_at find split split_loop find_byte
my_lremovexattr-my_lsetxattr_example =
    my_lremovexattr-my_lsetxattr to_file (codes "user") (codes "me") small tagged (omega arith) refl
      refl refl tags

file-IsRegularAt : IsRegularAt (file_at small) to_file
unfolding resolve search_name bytes_beq file_at find split split_loop find_byte
file-IsRegularAt = record {
  no_link = refl;
  regular = refl;
  some_file = omega arith;
  counted = omega arith;
  zero_no_dir = refl;
}

my_chmod_lem_example :
    (gs : Fs) × (my_chmod to_file 0o400 small ≡ done ok gs)
    × (file_at gs ≡ set_at (real_ino (file_at small) to_file) (with_mode 0o400) (file_at small))
    × ((mask : ℕ)
        → (r : ℕ) × (hs : Fs) × (my_access to_file mask gs ≡ done r hs)
          × ((r ≡ ok) ↔ ((0o400 / 64) % 8 ≡ (mask / 64) % 8)))
    × ((buf : Bytes) (size offset : ℕ)
        → (hs : Fs) × (my_pwrite (real_ino (file_at small) to_file) buf size offset gs
            ≡ done an_err hs))
my_chmod_lem_example = my_chmod_lem to_file 0o400 small file-IsRegularAt (omega arith)
