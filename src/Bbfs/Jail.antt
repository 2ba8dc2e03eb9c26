-- ===== src/Bbfs/Jail.antt =====
-- What the callbacks of ProjectWFuse/src/bbfs.c can reach on the host.
use cs179f_bbfs_project.Base.{true, false, Bool, ◌&&◌, [], ◌∷◌, ◌==◌, if◌then◌else◌, Bytes}
use cs179f_bbfs_project.Fuse.{minus_one, long_minus_one}
use cs179f_bbfs_project.Bbfs.{Sys, Host}
use cs179f_bbfs_project.Bbfs.Session

unfoldable pub is_prefix : Bytes → Bytes → Bool
is_prefix [] p = true
is_prefix (x ∷ xs) [] = false
is_prefix (x ∷ xs) (y ∷ ys) = (x == y) && is_prefix xs ys

-- A call that is refused for a path that does not start with a root.
unfoldable pub guard :
    {World A : Type 0} (root : Bytes) (refused : A) → (Bytes → Sys World A) → Bytes → Sys World A
guard root refused call p = if is_prefix root p then call p else (λ w. (refused, w))

unfoldable pub guard_both :
    {World A : Type 0} (root : Bytes) (refused : A)
    → (Bytes → Bytes → Sys World A)
    → Bytes
    → Bytes
    → Sys World A
unfolding guard
guard_both root refused call p q = guard root refused (λ p'. guard root refused (call p') q) p

-- A host that fails every call with a path that does not start with a root, without effect. The target
-- of a new symbolic link is text, and is not looked up.
unfoldable pub jailed : {World : Type 0} → Bytes → Host World → Host World
jailed root h = record h {
  lstat = guard root (minus_one, []) h.lstat;
  readlink = λ p size. guard root (long_minus_one, []) (λ q. h.readlink q size) p;
  open_mode = λ p flags mode. guard root minus_one (λ q. h.open_mode q flags mode) p;
  open_file = λ p flags. guard root minus_one (λ q. h.open_file q flags) p;
  mkfifo = λ p mode. guard root minus_one (λ q. h.mkfifo q mode) p;
  mknod = λ p mode dev. guard root minus_one (λ q. h.mknod q mode dev) p;
  mkdir = λ p mode. guard root minus_one (λ q. h.mkdir q mode) p;
  unlink = guard root minus_one h.unlink;
  rmdir = guard root minus_one h.rmdir;
  symlink = λ target p. guard root minus_one (h.symlink target) p;
  rename = guard_both root minus_one h.rename;
  link = guard_both root minus_one h.link;
  chmod = λ p mode. guard root minus_one (λ q. h.chmod q mode) p;
  chown = λ p uid gid. guard root minus_one (λ q. h.chown q uid gid) p;
  truncate = λ p size. guard root minus_one (λ q. h.truncate q size) p;
  utime = λ p ubuf. guard root minus_one (λ q. h.utime q ubuf) p;
  statvfs = guard root (minus_one, []) h.statvfs;
  lsetxattr =
      λ p name value size flags. guard root minus_one (λ q. h.lsetxattr q name value size flags) p;
  lgetxattr = λ p name size. guard root (long_minus_one, []) (λ q. h.lgetxattr q name size) p;
  llistxattr = λ p size. guard root (long_minus_one, []) (λ q. h.llistxattr q size) p;
  lremovexattr = λ p name. guard root minus_one (λ q. h.lremovexattr q name) p;
  access = λ p mask. guard root minus_one (λ q. h.access q mask) p;
  opendir = guard root 0 h.opendir;
}
