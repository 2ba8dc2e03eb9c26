-- ===== src/Console/Listing/Good.antt =====
-- `ls` and `describe_file` of ProjectWOFuse/src/my_stubs.cc end, and keep the file system well-formed.
use cs179f_bbfs_project.Base.{ℕ, ◌==◌, List, [], ◌∷◌, ◌++◌, Bytes}
use cs179f_bbfs_project.State.{enoent, enotdir, s_isdir, s_islnk, Dirent, Fs, file_at}
use cs179f_bbfs_project.Path.{slash}
use cs179f_bbfs_project.Invariant.{Ensures, returns, bind}
use cs179f_bbfs_project.Invariant.Rules.{
  IsGood, Good, IsGood-errno, IsGood-touch, find_then, find_real_then, branch, option_branch,
}
use cs179f_bbfs_project.Invariant.Attributes.{my_lstat-Good}
use cs179f_bbfs_project.Console.Listing.{describe_file, describe_all, ls}

pub describe_file-Good :
    {n : ℕ} {fs : Fs}
    → IsGood n fs
    → (pathname : Bytes) → Ensures (Good n) (describe_file pathname fs)
unfolding describe_file
describe_file-Good g pathname = bind (my_lstat-Good g pathname) λ (err, st) gs g'.
    option_branch st _ _ (λ missing. returns (IsGood-errno g' enoent))
      (λ m found. find_then g' pathname λ fh hs g'' same lt.
        branch (fh == 0) _ _ (λ z. returns g'')
          (λ nz.
            branch (s_islnk m.st_mode) _ _
              (λ lnk.
                find_real_then (IsGood-touch g'' fh) pathname
                  λ real is h same' lt'. returns (IsGood-touch h real))
              (λ other. returns (IsGood-touch g'' fh))))

describe_all-Good :
    {n : ℕ} {fs : Fs}
    → (path : Bytes) (es : List Dirent) → IsGood n fs
    → Ensures (Good n) (describe_all path es fs)
unfolding describe_all
describe_all-Good path [] g = returns g
describe_all-Good path (it ∷ es) g =
    bind (describe_file-Good g (path ++ slash ∷ it.d_name))
      λ d gs g'. bind (describe_all-Good path es g') λ ds hs g''. returns g''

pub ls-Good : {n : ℕ} {fs : Fs} → IsGood n fs → (path : Bytes) → Ensures (Good n) (ls path fs)
unfolding ls
ls-Good g path = find_real_then g path λ fh gs g' same lt.
    branch (fh == 0) _ _ (λ z. returns g')
      (λ nz.
        branch (s_isdir (file_at gs fh).metadata.st_mode) _ _
          (λ dir. describe_all-Good path (file_at gs fh).dentries (IsGood-touch g' fh))
          (λ other.
            bind (describe_file-Good (IsGood-errno (IsGood-touch g' fh) enotdir) path)
              λ d hs g''. returns g''))
