-- ===== src/Tests/Stubs.antt =====
-- The theorems on my_stubs.cc at concrete inputs.
use cs179f_bbfs_project.Base.{
  true, Option, ℕ, ◌≤◌, ◌≡◌, ◌≢◌, refl, some, [], arith, ◌==◌, if◌then◌else◌, length, Bytes, codes,
  bytes_beq, c_str,
}
use cs179f_bbfs_project.Base.Words.{inc64, and_not}
use cs179f_bbfs_project.Base.Map.{find, insert, nat_key, bytes_key}
use cs179f_bbfs_project.State
use cs179f_bbfs_project.State.{
  masked, dirent_frame, Env, Errno, Fs, File, Run, done, fault, out_of_fuel, M, ok, an_err, eexist,
  enoent, file_at, touch, update, with_nlink, s_isdir, empty_fs, new_file,
}
use cs179f_bbfs_project.Path.{back, pop_back, slash, split, split_loop, find_byte, join, parent_of}
use cs179f_bbfs_project.Path.RoundTrip.{join-split}
use cs179f_bbfs_project.Resolve.{find_real_ino, find_ino, lookup, my_pread}
use cs179f_bbfs_project.Resolve.View.{
  search_name, resolve, real_ino, lookup-search, find_real_ino-real,
}
use cs179f_bbfs_project.Resolve.Read.{my_pread_lem}
use cs179f_bbfs_project.Resolve.Follow.{IsShortLink, find_ino-followed, find_ino_overrun}
use cs179f_bbfs_project.Resolve.NewName.{IsNewName}
use cs179f_bbfs_project.Create.{my_mkdir, my_mknod, new_stat}
use cs179f_bbfs_project.Create.Fresh.{IsReady, my_mknod-made}
use cs179f_bbfs_project.Contents.{my_open, my_close, my_pwrite}
use cs179f_bbfs_project.Contents.Write.{my_pwrite-written, my_pread-my_pwrite, after_write}
use cs179f_bbfs_project.Contents.Handles.{my_open_lem, my_close-my_open}
use cs179f_bbfs_project.Links.{my_link}
use cs179f_bbfs_project.Links.Link.{my_link-linked}
use cs179f_bbfs_project.Xattr.{my_lsetxattr, my_llistxattr}
use cs179f_bbfs_project.Xattr.Laws.{my_llistxattr_fits}
use cs179f_bbfs_project.Invariant.{IsWellFormed}
use cs179f_bbfs_project.System.{mkdir, run_call, call, Reach, boot, next}
use cs179f_bbfs_project.System.Boot.{booted_fs, initialize-booted}
use cs179f_bbfs_project.System.Safety.{Reach-IsWellFormed, run_call-ne-out_of_fuel}
use cs179f_bbfs_project.Console.Ends.{serve-IsWellFormed}
use cs179f_bbfs_project.Console.Listing.{Accounts}
use cs179f_bbfs_project.Console.Dialog.{list_files}
use cs179f_bbfs_project.Console.Loop.{Ending, serve}
use cs179f_bbfs_project.Create.Exists.{IsThere, my_mknod_exists}
use cs179f_bbfs_project.State.{new_file, enotempty}
use cs179f_bbfs_project.Path.{join}
use cs179f_bbfs_project.Tests.{state_of, env, small, to_file, to_link, to_long, new_name}

join-split_example : join (split (codes "/a//b") slash) slash ≡ codes "/a//b"
join-split_example = join-split (codes "/a//b") slash

lookup-search_example : lookup (codes "a") 2 small ≡ done 3 small
unfolding search_name bytes_beq file_at touch find
lookup-search_example = lookup-search (codes "a") 2 small

find_real_ino-real_example :
    (e : Errno) × (find_real_ino to_file small ≡ done 3 (record small { errno = e }))
unfolding resolve search_name bytes_beq file_at find split split_loop find_byte
find_real_ino-real_example = find_real_ino-real to_file small

link_short : IsShortLink (file_at small) 4
unfolding file_at find c_str
link_short = record { lnk = refl; ne_zero = omega arith; short = omega arith; fit = omega arith }

find_ino-followed_example :
    (e : Errno) × (find_ino to_link small ≡ done 3 (touch 4 (record small { errno = e })))
unfolding resolve search_name bytes_beq file_at find split split_loop find_byte c_str
find_ino-followed_example = find_ino-followed to_link small (λ lnk. link_short)

find_ino_overrun_example : find_ino to_long small ≡ fault
unfolding resolve search_name bytes_beq file_at find split split_loop find_byte c_str
find_ino_overrun_example =
    find_ino_overrun to_long small refl (omega arith) (omega arith) (omega arith)

my_pread_lem_example : my_pread 3 10 5 1 small ≡ done (5, some (codes "ello")) small
unfolding file_at find touch c_str
my_pread_lem_example = my_pread_lem 3 10 5 1 small (omega arith) (omega arith) (omega arith)

small-IsReady : IsReady small
unfolding file_at find
small-IsReady = record {
  booted = refl;
  room = omega arith;
  fresh = refl;
  zero_free = refl;
  counted = omega arith;
}

pub b-IsNewName : IsNewName (file_at small) [] new_name
unfolding resolve search_name bytes_beq file_at find split split_loop find_byte
b-IsNewName = record {
  is_dir = refl;
  lacked = (refl, (refl, (refl, (refl, (refl, tt)))));
  plain = (omega arith, tt);
  some_name = refl;
  short = omega arith;
}

my_mknod-made_example :
    (gs : Fs) × (my_mknod env (codes "/b") 0o100666 small ≡ done ok gs)
    × (real_ino (file_at gs) (codes "/b") ≡ 6)
    × ((file_at gs 6).metadata ≡ new_stat env 6 0o100666)
    × ((path : Bytes)
        → real_ino (file_at small) path ≢ 0
        → real_ino (file_at gs) path ≡ real_ino (file_at small) path)
my_mknod-made_example = my_mknod-made env [] new_name 0o100666 small small-IsReady refl b-IsNewName

my_link-linked_example :
    (gs : Fs) × (my_link to_file (codes "/b") small ≡ done ok gs)
    × (real_ino (file_at gs) (codes "/b") ≡ 3)
    × (file_at gs 3 ≡ with_nlink 2 (file_at small 3))
    × ((other : Bytes)
        → real_ino (file_at small) other ≢ 0
        → real_ino (file_at gs) other ≡ real_ino (file_at small) other)
unfolding resolve search_name bytes_beq file_at find split split_loop find_byte
my_link-linked_example =
    my_link-linked to_file [] new_name small (λ lnk. cc) (omega arith) refl refl b-IsNewName

my_pwrite-written_example :
    my_pwrite 3 (codes "XY") 2 1 small
    ≡ done 2 (update 3 (after_write (codes "XY") 1) (touch 3 small))
unfolding file_at find
my_pwrite-written_example =
    my_pwrite-written 3 (codes "XY") 1 small (omega arith) refl (omega arith, (omega arith, tt))
      (omega arith) (omega arith)

my_pread-my_pwrite_example :
    my_pread 3 10 2 1 (update 3 (after_write (codes "XY") 1) (touch 3 small))
    ≡ done (2, some (codes "XY")) (touch 3 (update 3 (after_write (codes "XY") 1) (touch 3 small)))
unfolding file_at find
my_pread-my_pwrite_example =
    my_pread-my_pwrite 3 10 (codes "XY") 1 small
      (update 3 (after_write (codes "XY") 1) (touch 3 small)) (omega arith) refl
      (omega arith, (omega arith, tt)) (omega arith) (omega arith) (omega arith) (omega arith)
      my_pwrite-written_example

my_open_lem_example :
    (gs : Fs) × (my_open env to_file 0 small ≡ done 3 gs)
    × ((i : ℕ)
        → file_at gs i ≡ (
            if i == 3
            then with_nlink (inc64 (file_at small i).metadata.st_nlink) (file_at small i)
            else file_at small i))
    × (gs.count ≡ 6)
unfolding resolve search_name bytes_beq file_at find split split_loop find_byte
my_open_lem_example = my_open_lem env to_file 0 small (λ lnk. cc)

opened : Fs
unfolding my_open
opened = state_of (my_open env to_file 0 small)

opens : my_open env to_file 0 small ≡ done 3 opened
unfolding my_open opened find_ino split bytes_beq find file_at touch
opens = refl

my_close-my_open_example :
    (hs : Fs) × (my_close 3 opened ≡ done ok hs) × ((i : ℕ) → file_at hs i ≡ file_at small i)
unfolding resolve search_name bytes_beq file_at find split split_loop find_byte
my_close-my_open_example =
    my_close-my_open env to_file 0 small opened (λ lnk. cc) (omega arith) (omega arith)
      (omega arith) opens

unfoldable pub tagged : Fs
unfolding my_lsetxattr
tagged = state_of (my_lsetxattr to_file (codes "user") (codes "me") small)

pub tags : my_lsetxattr to_file (codes "user") (codes "me") small ≡ done ok tagged
unfolding my_lsetxattr tagged find_real_ino split bytes_beq find file_at touch
tags = refl

my_llistxattr_fits_example :
    (r : ℕ) × (out : Bytes) × (gs : Fs) × (my_llistxattr to_file 4 tagged ≡ done (r, out) gs)
    × (length out ≤ 4)
    × (file_at gs ≡ file_at tagged)
my_llistxattr_fits_example = my_llistxattr_fits to_file 4 tagged

with_a : Fs
unfolding run_call booted_fs
with_a = state_of (run_call env (mkdir to_file 0o755) (booted_fs env))

makes_a : run_call env (mkdir to_file 0o755) (booted_fs env) ≡ done tt with_a
unfolding run_call booted_fs with_a my_mkdir State.next find_ino split join pop_back bytes_beq
    file_at find update insert masked and_not touch dirent_frame back
makes_a = refl

with_a-Reach : Reach env with_a
with_a-Reach = next (boot (initialize-booted env)) (call (mkdir to_file 0o755) tt makes_a)

Reach-IsWellFormed_example : IsWellFormed with_a
Reach-IsWellFormed_example = Reach-IsWellFormed env with_a with_a-Reach

run_call-ne-out_of_fuel_example :
    (run_call env (mkdir (codes "/a/b") 0o700) with_a ≢ out_of_fuel)
    × ((gs : Fs)
        → run_call env (mkdir (codes "/a/b") 0o700) with_a ≡ done tt gs
        → with_a.count ≤ gs.count)
run_call-ne-out_of_fuel_example =
    run_call-ne-out_of_fuel env with_a (mkdir (codes "/a/b") 0o700) with_a-Reach tt

abbrev host_names : Accounts
host_names = record { has_user = λ u. true; has_group = λ g. true }

serve-IsWellFormed_example :
    (serve (λ i. env) host_names 0 (list_files (codes "/")) [] with_a ≢ out_of_fuel)
    × ((e : Option Ending) (gs : Fs)
        → serve (λ i. env) host_names 0 (list_files (codes "/")) [] with_a ≡ done e gs
        → IsWellFormed gs × (with_a.count ≤ gs.count))
serve-IsWellFormed_example =
    serve-IsWellFormed env (λ i. env) host_names 0 (list_files (codes "/")) [] with_a with_a-Reach
      tt

root-IsThere : IsThere small (parent_of to_file)
unfolding resolve search_name bytes_beq file_at find split split_loop find_byte join pop_back
root-IsThere = record { some_file = omega arith; below = omega arith; plain = refl }

file-IsThere : IsThere small to_file
unfolding resolve search_name bytes_beq file_at find split split_loop find_byte
file-IsThere = record { some_file = omega arith; below = omega arith; plain = refl }

my_mknod_exists_example :
    (gs : Fs) × (my_mknod env to_file 0o100666 small ≡ done an_err gs)
    × (gs.errno ≡ eexist)
    × (gs.count ≡ 7)
    × ((i : ℕ)
        → file_at gs i ≡ (
            if i == 6
            then record (new_file) { metadata = new_stat env 6 0o100666 }
            else file_at small i))
my_mknod_exists_example =
    my_mknod_exists env to_file 0o100666 small small-IsReady root-IsThere file-IsThere
