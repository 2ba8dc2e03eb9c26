-- ===== src/Tests/Names.antt =====
-- The theorems on names and links of my_stubs.cc at concrete inputs.
use cs179f_bbfs_project.Base.{◌≡◌, ◌⊎◌, refl, true, false, [], ◌∷◌, arith, Bytes, codes, bytes_beq}
use cs179f_bbfs_project.Base.Map.{find, insert, nat_key}
use cs179f_bbfs_project.State.{Fs, done, ok, unset, file_at, touch, update, new_file, dirent_frame}
use cs179f_bbfs_project.Path.{split, split_loop, find_byte, back, pop_back, join}
use cs179f_bbfs_project.Resolve.{root_ino, find_ino}
use cs179f_bbfs_project.Resolve.View.{search_name, resolve, real_ino}
use cs179f_bbfs_project.Links.{erase_first, my_link, my_unlink, my_rmdir, my_rename}
use cs179f_bbfs_project.Links.Effects.{unlinked, IsNamed, IsRemovable, my_unlink-unlinked}
use cs179f_bbfs_project.Links.RoundTrip.{IsLinkable, my_unlink-my_link}
use cs179f_bbfs_project.Links.Root.{my_rmdir_root}
use cs179f_bbfs_project.Links.Unlink.{count_name, IsFileIn, my_unlink_path}
use cs179f_bbfs_project.Links.Rename.{my_rename_path}
use cs179f_bbfs_project.Resolve.Keeps.{is_dir_at}
use cs179f_bbfs_project.Tests.Stubs.{b-IsNewName}
use cs179f_bbfs_project.Tests.{state_of, entry_to, file_of, small, to_file, new_name}

file-IsNamed : IsNamed (file_at small) to_file
unfolding resolve search_name bytes_beq file_at find split split_loop find_byte join pop_back back
file-IsNamed = record {
  followable = λ lnk. cc;
  parent_followable = λ lnk. cc;
  some_file = omega arith;
  named = refl;
}

my_unlink-unlinked_example :
    (gs : Fs) × (my_unlink to_file small ≡ done ok gs)
    × (file_at gs ≡ unlinked to_file (file_at small))
my_unlink-unlinked_example = my_unlink-unlinked to_file small file-IsNamed

a-IsFileIn : IsFileIn (file_at small) [] (codes "a")
unfolding count_name resolve search_name bytes_beq file_at find split split_loop find_byte
    erase_first
a-IsFileIn = record {
  zero_free = refl;
  is_dir = refl;
  plain = (omega arith, tt);
  some_name = refl;
  named = refl;
  some_file = omega arith;
  no_dir = refl;
  no_link = refl;
  once = refl;
}

my_unlink_path_example :
    (gs : Fs) × (my_unlink to_file small ≡ done ok gs)
    × (real_ino (file_at gs) to_file ≡ 0)
    × ((path : Bytes)
        → is_dir_at (file_at small) (real_ino (file_at small) path) ≡ true
        → real_ino (file_at gs) path ≡ real_ino (file_at small) path)
my_unlink_path_example = my_unlink_path [] (codes "a") small a-IsFileIn

my_rename_path_example :
    (gs : Fs) × (my_rename to_file (codes "/b") small ≡ done ok gs)
    × (real_ino (file_at gs) (codes "/b") ≡ real_ino (file_at small) to_file)
    × (real_ino (file_at gs) to_file ≡ 0)
    × (file_at gs (real_ino (file_at small) to_file)
        ≡ file_at small (real_ino (file_at small) to_file))
    × ((path : Bytes)
        → is_dir_at (file_at small) (real_ino (file_at small) path) ≡ true
        → real_ino (file_at gs) path ≡ real_ino (file_at small) path)
my_rename_path_example = my_rename_path [] (codes "a") [] new_name small a-IsFileIn b-IsNewName

-- A root with no names but its own.
abbrev lone : Fs
lone = record {
  entry = (2, file_of 2 0o40700 1 [] (entry_to 2 (codes ".") ∷ entry_to 2 (codes "..") ∷ [])) ∷ [];
  count = 3;
  first_time = false;
  errno = unset;
  cwd = codes "/";
}

root-IsRemovable : IsRemovable (file_at lone) (codes "/")
unfolding resolve search_name bytes_beq file_at find split split_loop find_byte join pop_back
root-IsRemovable = record {
  followable = λ lnk. cc;
  parent_followable = λ lnk. cc;
  is_dir = refl;
  few = omega arith;
}

my_rmdir_root_example :
    (gs : Fs) × (my_rmdir (codes "/") lone ≡ done ok gs)
    × (file_at gs root_ino ≡ new_file)
    × ((other : Bytes)
        → (real_ino (file_at gs) other ≡ root_ino) ⊎ (real_ino (file_at gs) other ≡ 0))
unfolding resolve search_name bytes_beq file_at find split split_loop find_byte join pop_back
my_rmdir_root_example = my_rmdir_root (codes "/") lone root-IsRemovable refl refl

file-IsLinkable : IsLinkable (file_at small) to_file [] new_name
unfolding resolve search_name bytes_beq file_at find split split_loop find_byte
file-IsLinkable = record {
  followable = λ lnk. cc;
  some_file = omega arith;
  regular = refl;
  zero_free = refl;
  new = b-IsNewName;
  named = refl;
  counted = omega arith;
  fits = omega arith;
}

linked_fs : Fs
unfolding my_link
linked_fs = state_of (my_link to_file (codes "/b") small)

links : my_link to_file (codes "/b") small ≡ done ok linked_fs
unfolding my_link linked_fs find_ino split join pop_back bytes_beq file_at find update insert touch
    dirent_frame back
links = refl

my_unlink-my_link_example :
    (hs : Fs) × (my_unlink (codes "/b") linked_fs ≡ done ok hs) × (file_at hs ≡ file_at small)
my_unlink-my_link_example =
    my_unlink-my_link to_file [] new_name small linked_fs file-IsLinkable links
