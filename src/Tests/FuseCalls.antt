-- ===== src/Tests/FuseCalls.antt =====
-- The theorems on my_calls.cc at concrete inputs.
use cs179f_bbfs_project.Base.{◌≡◌, refl, some, [], ◌∷◌, arith, codes, bytes_beq}
use cs179f_bbfs_project.Base.Map.{find, nat_key}
use cs179f_bbfs_project.Path.{find_byte, back, pop_back}
use cs179f_bbfs_project.Fuse.{Tables, split, split_loop, push_part, get_inode_number}
use cs179f_bbfs_project.Fuse.Calls.{my_open1}
use cs179f_bbfs_project.Fuse.Names.{my_rename}
use cs179f_bbfs_project.Fuse.{max_inode, long_minus_one}
use cs179f_bbfs_project.Fuse.Names.{my_creat}
use cs179f_bbfs_project.Base.Map.{insert}
use cs179f_bbfs_project.Fuse.{minus_one, inode_init}
use cs179f_bbfs_project.Fuse.Names.{my_rmdir}
use cs179f_bbfs_project.Fuse.Session.{run_fuse, creat, FuseReach, start, step}
use cs179f_bbfs_project.Fuse.Rootless.{FuseReach-rootless}

-- What a failed `my_creat` leaves: an inode that no directory has.
abbrev one_inode : Tables
one_inode = record {
  my_ilist =
      (
        1,
        record {
          address = 0;
          inode = record { i_ino = 1; i_mode = 0o644; buf = []; dirent_buf = [] };
        },
      )
      ∷ [];
  my_open_ft = [];
  addresses = 1;
}

one_inode-FuseReach : FuseReach one_inode
unfolding run_fuse my_creat inode_init max_inode split split_loop push_part find_byte bytes_beq find
    insert pop_back back
one_inode-FuseReach = step {r = minus_one} start (creat (codes "/new") 0o644) refl

FuseReach-rootless_example :
    (get_inode_number (codes "/new") one_inode ≡ long_minus_one)
    × (my_open1 (codes "/new") 0 one_inode ≡ some (minus_one, one_inode))
    × (my_rename (codes "/new") (codes "/b") one_inode ≡ some (minus_one, one_inode))
    × (my_rmdir (codes "/new") one_inode ≡ some (minus_one, one_inode))
FuseReach-rootless_example =
    FuseReach-rootless one_inode (codes "/new") (codes "/b") 0 one_inode-FuseReach (omega arith)
