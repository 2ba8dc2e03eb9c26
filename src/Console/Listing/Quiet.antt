-- ===== src/Console/Listing/Quiet.antt =====
-- The commands of ProjectWOFuse/src/my_stubs.cc that list files change nothing that the operations can see.
use cs179f_bbfs_project.Base.{
  ℕ, zero, suc, ◌+◌, ◌==◌, not, ◌&&◌, List, [], ◌∷◌, ◌++◌, Bytes, length,
}
use cs179f_bbfs_project.State.{
  enoent, enotdir, ebadf, s_isdir, s_islnk, Dirent, Fs, M, file_at, has_entry,
}
use cs179f_bbfs_project.State.View.{SameView}
use cs179f_bbfs_project.Path.{slash}
use cs179f_bbfs_project.Resolve.{MyDir}
use cs179f_bbfs_project.Resolve.Quiet.{
  Quiet, run_seen, stays, faulted, ran_out, bind_seen, branch_seen, option_seen, errno_seen,
  touch_seen, fopendir-Quiet, my_readdir-Quiet, find_real_ino-Quiet, find_ino-Quiet,
}
use cs179f_bbfs_project.Create.{is_dot}
use cs179f_bbfs_project.Attributes.{my_fstat, my_lstat}
use cs179f_bbfs_project.Console.Listing.{
  Accounts, describe_file, describe_all, ls, child_path, gather, total_blocks, sort_files, Line,
  report, visit_all, visit,
}

pub my_fstat-Quiet : {v fs : Fs} (fh : ℕ) → SameView v fs → Quiet v (my_fstat fh fs)
unfolding my_fstat
my_fstat-Quiet {v} {fs} fh s =
    run_seen (has_entry fs fh) (stays (touch_seen s fh)) (stays (errno_seen s enoent))

pub my_lstat-Quiet : {v fs : Fs} (path : Bytes) → SameView v fs → Quiet v (my_lstat path fs)
unfolding my_lstat
my_lstat-Quiet path s =
    bind_seen (find_real_ino-Quiet path s)
      λ fh gs t. branch_seen (fh == 0) _ _ (stays (errno_seen t ebadf)) (my_fstat-Quiet fh t)

pub describe_file-Quiet :
    {v fs : Fs} (pathname : Bytes) → SameView v fs → Quiet v (describe_file pathname fs)
unfolding describe_file
describe_file-Quiet pathname s = bind_seen (my_lstat-Quiet pathname s) λ (err, st) gs t.
    option_seen st _ _ (stays (errno_seen t enoent)) (λ m.
      bind_seen (find_ino-Quiet pathname t) λ fh hs u. branch_seen (fh == 0) _ _ (stays u) (
        branch_seen (s_islnk m.st_mode) _ _
          (bind_seen (find_real_ino-Quiet pathname (touch_seen u fh))
            λ real is w. stays (touch_seen w real))
          (stays (touch_seen u fh))))

describe_all-Quiet :
    {v fs : Fs} (path : Bytes) (es : List Dirent)
    → SameView v fs
    → Quiet v (describe_all path es fs)
unfolding describe_all
describe_all-Quiet path [] s = stays s
describe_all-Quiet path (it ∷ es) s =
    bind_seen (describe_file-Quiet (path ++ slash ∷ it.d_name) s)
      λ d gs t. bind_seen (describe_all-Quiet path es t) λ ds hs u. stays u

pub ls-Quiet : {v fs : Fs} (path : Bytes) → SameView v fs → Quiet v (ls path fs)
unfolding ls
ls-Quiet path s = bind_seen (find_real_ino-Quiet path s) λ fh gs t.
    branch_seen (fh == 0) _ _ (stays t) (
      branch_seen (s_isdir (file_at gs fh).metadata.st_mode) _ _
        (describe_all-Quiet path (file_at gs fh).dentries (touch_seen t fh))
        (bind_seen (describe_file-Quiet path (errno_seen (touch_seen t fh) enotdir))
          λ d hs u. stays u))

gather-Quiet :
    {v fs : Fs} (k : ℕ) (root : Bytes) (dirp : MyDir)
    → SameView v fs
    → Quiet v (gather k root dirp fs)
unfolding gather
gather-Quiet zero root dirp s = ran_out
gather-Quiet (suc k) root dirp s = bind_seen (my_readdir-Quiet s dirp) λ (dp, dirp') gs t.
    option_seen dp _ _ (stays t) (λ d.
      branch_seen (is_dot d.d_name) _ _ (gather-Quiet k root dirp' t) (
        option_seen (child_path root d.d_name) _ _ faulted (λ p.
          bind_seen (my_fstat-Quiet d.d_ino t) λ (err, st) hs u.
            option_seen st _ _ faulted
              (λ m. bind_seen (gather-Quiet k root dirp' u) λ (file, sub) is w. stays w))))

total_blocks-Quiet :
    {v fs : Fs} (file : List Bytes) (size : ℕ) → SameView v fs → Quiet v (total_blocks file size fs)
unfolding total_blocks
total_blocks-Quiet [] size s = stays s
total_blocks-Quiet {v} {fs} (filename ∷ file) size s =
    bind_seen (my_lstat-Quiet filename s) λ (err, st) gs t. total_blocks-Quiet {fs = gs} file _ t

report-Quiet :
    {v fs : Fs} (names : Accounts) (file : List Bytes)
    → SameView v fs
    → Quiet v (report names file fs)
unfolding report
report-Quiet names [] s = stays s
report-Quiet names (filename ∷ file) s = bind_seen (my_lstat-Quiet filename s) λ (err, st) gs t.
    option_seen st _ _ (stays t) (λ m.
      branch_seen (names.has_user m.st_uid && names.has_group m.st_gid) _ _
        (bind_seen (report-Quiet names file t) λ (all, lines) hs u. stays u) faulted)

visit_all-Quiet :
    {v fs : Fs} (go : Bytes → M (ℕ × List Line)) (roots : List Bytes)
    → ((root : Bytes) (gs : Fs) → SameView v gs → Quiet v (go root gs))
    → SameView v fs
    → Quiet v (visit_all go roots fs)
unfolding visit_all
visit_all-Quiet go [] h s = stays s
visit_all-Quiet go (root ∷ roots) h s =
    bind_seen (h root _ s)
      λ (err, lines) gs t. bind_seen (visit_all-Quiet go roots h t) λ more hs u. stays u

pub visit-Quiet :
    {v fs : Fs} (k : ℕ) (names : Accounts) (root : Bytes)
    → SameView v fs
    → Quiet v (visit k names root fs)
unfolding visit
visit-Quiet zero names root s = ran_out
visit-Quiet (suc k) names root s = bind_seen (find_ino-Quiet root s) λ fh gs t.
    bind_seen (fopendir-Quiet t fh) λ dirp hs u. option_seen dirp _ _ (stays u) (λ dir.
      bind_seen (gather-Quiet (length (file_at hs fh).dentries + 1) root dir u) λ (file, sub) is w.
        bind_seen (total_blocks-Quiet file 0 w) λ size js x.
          bind_seen (report-Quiet names (sort_files file) x) λ (all, lines) ks y.
            branch_seen (not all) _ _ (stays y) (
              bind_seen (visit_all-Quiet (visit k names) sub (λ r ls z. visit-Quiet k names r z) y)
                λ more ls z. stays z))
