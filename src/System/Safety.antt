-- ===== src/System/Safety.antt =====
-- Every state that the program reaches is well-formed, and no call runs out of rounds.
use mathlib.Core.Path.{subst}
use cs179f_bbfs_project.Base.{
  ℕ, ◌≤◌, ◌≡◌, sym, ◌∙◌, ◌≢◌, not, Option, none, some, arith, Bytes, ltb, ◌==◌, length, c_str,
}
use cs179f_bbfs_project.Base.Words.{as_int, of_int, slt, add64, sub64}
use cs179f_bbfs_project.State.{
  Env, Fs, Run, done, out_of_fuel, and_then, pure, file_at, s_isdir, s_islnk,
}
use cs179f_bbfs_project.State.View.{state_of_done}
use cs179f_bbfs_project.Resolve.{my_pread, my_readlink, strcpy}
use cs179f_bbfs_project.Invariant.{Ensures, returns, faults, bind, IsWellFormed}
use cs179f_bbfs_project.Invariant.Rules.{IsGood, Good, IsGood-touch, find_real_then, branch}
use cs179f_bbfs_project.Invariant.Attributes.{
  my_fstat-Good, my_lstat-Good, my_access-Good, my_chmod-Good, my_chown-Good, my_utime-Good,
  my_statvfs-Good,
}
use cs179f_bbfs_project.Invariant.Contents.{
  my_open-Good, my_close-Good, my_pwrite-Good, my_ftruncate-Good, my_truncate-Good,
}
use cs179f_bbfs_project.Invariant.Create.{my_mknod-Good, my_mkdir-Good, my_creat-Good}
use cs179f_bbfs_project.Invariant.Links.{
  my_link-Good, my_unlink-Good, my_rmdir-Good, my_symlink-Good, my_rename-Good,
}
use cs179f_bbfs_project.Invariant.Xattr.{
  my_lsetxattr-Good, my_lgetxattr-Good, my_llistxattr-Good, my_lremovexattr-Good,
}
use cs179f_bbfs_project.System.{
  Call, lstat, fstat, mknod, mkdir, creat, link, unlink, rmdir, symlink, readlink, rename, access,
  chmod, chown, utime, opens, close, pread, pwrite, statvfs, setxattr, getxattr, listxattr,
  removexattr, ftruncate, truncate, run_call, IsAllowed, call, Reach, boot, next,
}
use cs179f_bbfs_project.System.Boot.{initialize-booted, booted_fs-IsWellFormed}

strcpy-Good :
    {n : ℕ} {fs : Fs} (room : ℕ) (s : Option Bytes) (ret : ℕ)
    → IsGood n fs
    → Ensures (Good n) (strcpy room s ret fs)
unfolding strcpy
strcpy-Good room none ret g = faults
strcpy-Good room (some s) ret g =
    branch (ltb (length (c_str s)) room) _ _ (λ fits. returns g) (λ over. faults)

module _ {n : ℕ} {fs : Fs} (g : IsGood n fs) where
  pub my_pread-Good : (fh room size offset : ℕ) → Ensures (Good n) (my_pread fh room size offset fs)
  unfolding my_pread
  my_pread-Good fh room size offset =
      let t = IsGood-touch g fh in
      let f = file_at fs fh in
      let len = of_int (as_int (length f.bytes)) in
      branch (s_isdir f.metadata.st_mode) _ _ (λ dir. returns t)
        λ file.
          branch (slt len offset) _ _ (λ past. returns t)
            λ inside.
              branch (ltb len (sub64 (add64 offset size) 1)) _ _ (λ short. strcpy-Good room _ _ t)
                (λ full. strcpy-Good room _ _ t)

module _ {n : ℕ} {fs : Fs} (g : IsGood n fs) where
  pub my_readlink-Good :
      (path : Bytes) (room size : ℕ) → Ensures (Good n) (my_readlink path room size fs)
  unfolding my_readlink
  my_readlink-Good path room size = find_real_then g path λ fh gs g' same lt.
      branch (fh == 0) _ _ (λ z. returns g')
        λ nz.
          let t = IsGood-touch g' fh in
          branch (not (s_islnk (file_at gs fh).metadata.st_mode)) _ _ (λ other. returns t)
            λ lnk. bind (my_pread-Good t fh room size 0) λ _ hs g''. returns g''

  pub ends-Good :
      {A : Type 0} {r : Run A} → Ensures (Good n) r → Ensures (Good n) (and_then r (λ _. pure tt))
  ends-Good e = bind e λ _ gs g'. returns g'

module _ {n : ℕ} {fs : Fs} (g : IsGood n fs) (env : Env) where
  -- Every call that is allowed keeps the file system well-formed.
  pub run_call-Good : (c : Call) → IsAllowed fs c → Ensures (Good n) (run_call env c fs)
  unfolding run_call
  run_call-Good (lstat path) h = ends-Good g (my_lstat-Good g path)
  run_call-Good (fstat fh) h = ends-Good g (my_fstat-Good g fh)
  run_call-Good (mknod path mode) h = ends-Good g (my_mknod-Good g env path mode)
  run_call-Good (mkdir path mode) h = ends-Good g (my_mkdir-Good g env path mode)
  run_call-Good (creat path mode) h = ends-Good g (my_creat-Good g env path mode)
  run_call-Good (link path newpath) h = ends-Good g (my_link-Good g path newpath)
  run_call-Good (unlink path) h = ends-Good g (my_unlink-Good g path)
  run_call-Good (rmdir path) h = ends-Good g (my_rmdir-Good g path)
  run_call-Good (symlink path target) h = ends-Good g (my_symlink-Good g env path target)
  run_call-Good (readlink path room size) h = ends-Good g (my_readlink-Good g path room size)
  run_call-Good (rename path newpath) h = ends-Good g (my_rename-Good g path newpath)
  run_call-Good (access path mask) h = ends-Good g (my_access-Good g path mask)
  run_call-Good (chmod path mode) h = ends-Good g (my_chmod-Good g path mode)
  run_call-Good (chown path uid gid) h = ends-Good g (my_chown-Good g path uid gid)
  run_call-Good (utime path ubuf) h = ends-Good g (my_utime-Good g path ubuf)
  run_call-Good (opens path flags) h = ends-Good g (my_open-Good g env path flags)
  run_call-Good (close fh) h = ends-Good g (my_close-Good g fh h)
  run_call-Good (pread fh room size offset) h = ends-Good g (my_pread-Good g fh room size offset)
  run_call-Good (pwrite fh buf size offset) h = ends-Good g (my_pwrite-Good g fh buf size offset h)
  run_call-Good (statvfs path null) h = ends-Good g (my_statvfs-Good g path null)
  run_call-Good (setxattr path name value) h = ends-Good g (my_lsetxattr-Good g path name value)
  run_call-Good (getxattr path name) h = ends-Good g (my_lgetxattr-Good g path name)
  run_call-Good (listxattr path size) h = ends-Good g (my_llistxattr-Good g path size)
  run_call-Good (removexattr path name) h = ends-Good g (my_lremovexattr-Good g path name)
  run_call-Good (ftruncate fh offset) h = ends-Good g (my_ftruncate-Good g fh offset h.0 h.1)
  run_call-Good (truncate path newsize) h = ends-Good g (my_truncate-Good g path newsize h)

pub Good-of_done :
    {n : ℕ} {r : Run (Unit {0})} {gs : Fs} → Ensures (Good n) r → r ≡ done tt gs → IsGood n gs
Good-of_done (returns p) e = subst (IsGood _) (state_of_done e) p
Good-of_done faults e = cc

pub IsGood-self : (fs : Fs) → IsWellFormed fs → IsGood fs.count fs
IsGood-self fs w = record { formed = w; counted = omega arith }

-- Every state that `initialize` and then any allowed calls lead to is well-formed: the root was made,
-- number 0 is never a directory or a link, directory entries lead only to numbers that were handed
-- out, no file is larger than an `int` counts, and the numbers not handed out yet have no file.
pub Reach-IsWellFormed : (env : Env) (fs : Fs) → Reach env fs → IsWellFormed fs
Reach-IsWellFormed env fs (boot e) =
    subst IsWellFormed (state_of_done (sym (initialize-booted env) ∙ e))
      (booted_fs-IsWellFormed env)
Reach-IsWellFormed env fs (next {fs = gs} r (call c h e)) =
    (Good-of_done (run_call-Good (IsGood-self gs (Reach-IsWellFormed env gs r)) env c h) e).formed

-- In a reachable state no allowed call runs out of rounds, and the inode counter never goes back.
pub run_call-ne-out_of_fuel :
    (env : Env) (fs : Fs) (c : Call)
    → Reach env fs
    → IsAllowed fs c
    → (run_call env c fs ≢ out_of_fuel)
      × ((gs : Fs) → run_call env c fs ≡ done tt gs → fs.count ≤ gs.count)
run_call-ne-out_of_fuel env fs c r h =
    let e = run_call-Good (IsGood-self fs (Reach-IsWellFormed env fs r)) env c h in
    (fuel e, λ gs d. (Good-of_done e d).counted)
  where
    fuel : {q : Run (Unit {0})} → Ensures (Good fs.count) q → q ≢ out_of_fuel
    fuel (returns p) e = cc
    fuel faults e = cc
