-- ===== src/Invariant.antt =====
-- The well-formedness of the file system of ProjectWOFuse/src/my_stubs.cc, and the postconditions
-- in which its preservation is stated. The children prove it for each operation.
pub mod Parts
pub mod Rules
pub mod Attributes
pub mod Contents
pub mod Links
pub mod Xattr
pub mod Create
use mathlib.Core.Path.{subst}
use cs179f_bbfs_project.Base.{
  ℕ, ◌+◌, ◌^◌, ◌≤◌, ◌<◌, ◌≡◌, refl, sym, ==_iff, true, false, arith, ◌==◌, if◌then◌else◌,
  Bool-cases, inl, inr, length, All, List, [], ◌∷◌, ◌++◌,
}
use cs179f_bbfs_project.State.{
  Errno, Dirent, File, new_file, Fs, Run, done, fault, M, and_then, file_at, touch, update, forget,
}
use cs179f_bbfs_project.State.View.{
  SameView, SameView-errno, SameView-touch, file_at-update, file_at-forget,
}

-- A run that ends makes `P` true of its result and its state. It may fault, but no loop runs out
-- of rounds.
pub data Ensures {A : Type 0} (P : A → Fs → Type 0) : Run A → Type 0 where
  returns : {a : A} {fs : Fs} → P a fs → Ensures P (done a fs)
  faults : Ensures P fault

module _ {A : Type 0} {P : A → Fs → Type 0} where
  pub bind :
      {B : Type 0} {Q : B → Fs → Type 0} {r : Run A} {k : A → M B}
      → Ensures P r
      → ((a : A) (fs : Fs) → P a fs → Ensures Q (k a fs))
      → Ensures Q (and_then r k)
  bind (returns p) next = next _ _ p
  bind faults next = faults

  pub weaken :
      {Q : A → Fs → Type 0} {r : Run A}
      → Ensures P r
      → ((a : A) (fs : Fs) → P a fs → Q a fs)
      → Ensures Q r
  weaken (returns p) h = returns (h _ _ p)
  weaken faults h = faults

-- The entries of a directory lead to numbers that were handed out.
abbrev pub InosBelow : ℕ → List Dirent → Type 0
InosBelow count = All (λ d. d.d_ino < count)

-- What holds of the file with the number `fh`, when `count` is the next number to hand out.
pub record IsFileOk (count fh : ℕ) (f : File) : Type 0 where
  pub zero_mode : fh ≡ 0 → f.metadata.st_mode ≡ 0
  pub inos : InosBelow count f.dentries
  pub fit : length f.bytes < 2 ^ 31

-- The root was made; number 0, which stands for no file, is never a directory or a link; and a
-- number that was not handed out yet has no file.
pub record IsWellFormed (fs : Fs) : Type 0 where
  pub counter : 3 ≤ fs.count
  pub booted : fs.first_time ≡ false
  pub files : (i : ℕ) → IsFileOk fs.count i (file_at fs i)
  pub fresh : (i : ℕ) → fs.count ≤ i → file_at fs i ≡ new_file

pub SameView-IsWellFormed : {fs gs : Fs} → SameView fs gs → IsWellFormed fs → IsWellFormed gs
SameView-IsWellFormed {fs} {gs} s w = record {
  counter = rw s.count w.counter;
  booted = rw s.first_time w.booted;
  files = rw (s.files, s.count) w.files;
  fresh = rw (s.files, s.count) w.fresh;
}

-- What holds of a file by its number holds of each number.
pub files_if :
    (count i fh : ℕ) (f g : File)
    → IsFileOk count fh f
    → IsFileOk count i g
    → IsFileOk count i (if i == fh then f else g)
files_if count i fh f g hf hg = elim (Bool-cases (i == fh)) [
  | inl same ↦ rw same (subst (λ n. IsFileOk count n f) (sym ((==_iff i fh).0 same)) hf)
  | inr other ↦ rw other hg
]

pub update-IsWellFormed :
    (fh : ℕ) (g : File → File) (fs : Fs)
    → IsWellFormed fs
    → fh < fs.count
    → IsFileOk fs.count fh (g (file_at fs fh))
    → IsWellFormed (update fh g fs)
unfolding update
update-IsWellFormed fh g fs w lt ok_file = record {
  counter = w.counter;
  booted = w.booted;
  files = λ i.
      rw file_at-update
        (files_if fs.count i fh (g (file_at fs fh)) (file_at fs i) ok_file (w.files i));
  fresh = λ i h. rw file_at-update (ground (arith, w.fresh i));
}

pub new_file-IsFileOk : (count fh : ℕ) → IsFileOk count fh new_file
new_file-IsFileOk count fh = record { zero_mode = λ e. refl; inos = tt; fit = omega arith }

pub forget-IsWellFormed : (fh : ℕ) (fs : Fs) → IsWellFormed fs → IsWellFormed (forget fh fs)
unfolding forget
forget-IsWellFormed fh fs w = record {
  counter = w.counter;
  booted = w.booted;
  files = λ i.
      rw file_at-forget (
        files_if fs.count i fh new_file (file_at fs i) (new_file-IsFileOk fs.count fh) (w.files i));
  fresh = λ i h. rw file_at-forget (ground (arith, w.fresh i));
}

pub errno-IsWellFormed :
    (e : Errno) (fs : Fs) → IsWellFormed fs → IsWellFormed (record fs { errno = e })
errno-IsWellFormed e fs w = SameView-IsWellFormed (SameView-errno e fs) w

pub touch-IsWellFormed : (fh : ℕ) (fs : Fs) → IsWellFormed fs → IsWellFormed (touch fh fs)
touch-IsWellFormed fh fs w = SameView-IsWellFormed (SameView-touch fh fs) w

-- More numbers handed out.
pub InosBelow-mono : (m n : ℕ) (ds : List Dirent) → m ≤ n → InosBelow m ds → InosBelow n ds
InosBelow-mono m n [] h b = tt
InosBelow-mono m n (d ∷ ds) h (hd, b) = (omega arith, InosBelow-mono m n ds h b)

pub InosBelow-append :
    (n : ℕ) (ds : List Dirent) (d : Dirent)
    → InosBelow n ds
    → d.d_ino < n
    → InosBelow n (ds ++ d ∷ [])
InosBelow-append n [] d b h = (h, tt)
InosBelow-append n (e ∷ ds) d (he, b) h = (he, InosBelow-append n ds d b h)
