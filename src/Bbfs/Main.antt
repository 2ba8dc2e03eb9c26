-- ===== src/Bbfs/Main.antt =====
-- `log_open` of ProjectWFuse/src/log.c, and `main` of ProjectWFuse/src/bbfs.c: the arguments that libfuse gets, and the root that is mounted.
use cs179f_bbfs_project.Base.{
  ℕ, zero, suc, ◌-◌, ◌<◌, ◌≡◌, ◌≢◌, refl, ap, Bool, false, ◌||◌, Option, List, [], ◌∷◌, ◌++◌, arith,
  ltb, ◌==◌, if◌then◌else◌, length, take, set, Bytes, codes, none, some,
}

pub data End : Type 0 where
  exits : (status : ℕ) → End
  aborts : End

-- `s[0] == '-'`. The byte after the last one of an argument is NUL.
unfoldable pub starts_with_dash : Bytes → Bool
starts_with_dash [] = false
starts_with_dash (c ∷ s) = c == 45

-- `argv[i]` for an `i` below `argc`.
unfoldable pub argument : ℕ → List Bytes → Bytes
argument i [] = []
argument zero (s ∷ argv) = s
argument (suc i) (s ∷ argv) = argument i argv

-- The file that is logged to, unless the program exits because `fopen` gives NULL, which is 0.
unfoldable pub log_open : (fopen : (path mode : Bytes) → ℕ) → Option ℕ
log_open fopen =
    let logfile = fopen (codes "bbfs.log") (codes "w") in
    if logfile == 0 then none else some logfile

module _ (uid euid : ℕ) (realpath : Bytes → Option Bytes) (fopen : (path mode : Bytes) → ℕ)
    (fuse_main : List Bytes → Option Bytes → (logfile : ℕ) → ℕ) where
  -- The root may be NULL. `fuse_main` gets the arguments, the root and the log.
  unfoldable pub bb_main : (argv : List Bytes) → End
  unfolding argument starts_with_dash
  bb_main argv =
      let argc = length argv in
      let argv' = set argv (argc - 2) (argument (argc - 1) argv) in
      if uid == 0 || euid == 0
      then exits 1
      else if ltb argc 3
          || starts_with_dash (argument (argc - 2) argv)
          || starts_with_dash (argument (argc - 1) argv)
      then aborts
      else elim (log_open fopen) [
        | none ↦ exits 1
        | some logfile ↦
            exits (fuse_main (take (argc - 1) argv') (realpath (argument (argc - 2) argv)) logfile)
      ]

log_opened :
    (fopen : (path mode : Bytes) → ℕ)
    → fopen (codes "bbfs.log") (codes "w") ≢ 0
    → log_open fopen ≡ some (fopen (codes "bbfs.log") (codes "w"))
unfolding log_open
log_opened fopen opens =
    let no : (fopen (codes "bbfs.log") (codes "w") == 0) ≡ false = ground (arith, opens) in
    rw no refl

last_two :
    (opts : List Bytes) (root mount : Bytes)
    → (argument (length opts) (opts ++ root ∷ mount ∷ []) ≡ root)
      × (argument (suc (length opts)) (opts ++ root ∷ mount ∷ []) ≡ mount)
unfolding argument
last_two [] root mount = (refl, refl)
last_two (o ∷ opts) root mount = last_two opts root mount

take-set :
    (opts : List Bytes) (root mount : Bytes)
    → take (suc (length opts)) (set (opts ++ root ∷ mount ∷ []) (length opts) mount)
      ≡ opts ++ mount ∷ []
take-set [] root mount = refl
take-set (o ∷ opts) root mount = ap (λ x. o ∷ x) (take-set opts root mount)

length_two :
    (opts : List Bytes) (root mount : Bytes)
    → length (opts ++ root ∷ mount ∷ []) ≡ suc (suc (length opts))
length_two [] root mount = refl
length_two (o ∷ opts) root mount = ap suc (length_two opts root mount)

-- Run by a user that is not root as `program options root mount`, with neither of the last two starting
-- with a dash and a log that can be opened, the program mounts the real path of the root, and libfuse gets the arguments without it.
pub bb_main_mounts :
    (uid euid : ℕ) (realpath : Bytes → Option Bytes) (fopen : (path mode : Bytes) → ℕ)
    (fuse_main : List Bytes → Option Bytes → (logfile : ℕ) → ℕ)
    → (opts : List Bytes) (root mount : Bytes) → uid ≢ 0
    → euid ≢ 0
    → 0 < length opts
    → starts_with_dash root ≡ false
    → starts_with_dash mount ≡ false
    → fopen (codes "bbfs.log") (codes "w") ≢ 0
    → bb_main uid euid realpath fopen fuse_main (opts ++ root ∷ mount ∷ [])
      ≡ exits
          (fuse_main (opts ++ mount ∷ []) (realpath root) (fopen (codes "bbfs.log") (codes "w")))
unfolding bb_main
bb_main_mounts uid euid realpath fopen fuse_main opts root mount user effective some_opts plain_root
      plain_mount opens =
    let l = length_two opts root mount in
    let few : ltb (length (opts ++ root ∷ mount ∷ [])) 3 ≡ false = ground (arith, l) in
    let at_root : length (opts ++ root ∷ mount ∷ []) - 2 ≡ length opts = omega (arith, l) in
    let at_mount : length (opts ++ root ∷ mount ∷ []) - 1 ≡ suc (length opts) = omega (arith, l) in
    let (is_root, is_mount) = last_two opts root mount in
    let nu : (uid == 0) ≡ false = ground (arith, user) in
    let ne : (euid == 0) ≡ false = ground (arith, effective) in
    rw
      (
        nu,
        ne,
        few,
        log_opened fopen opens,
        at_root,
        at_mount,
        is_root,
        is_mount,
        plain_root,
        plain_mount,
        take-set opts root mount,
      )
      refl
