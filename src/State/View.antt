-- ===== src/State/View.antt =====
-- What the program can see of a state: `file_at` gives every number its file, also a number
-- with no entry, so the entries that reads make along the way do not show.
use mathlib.Core.Path.{fun_ext}
use cs179f_bbfs_project.Base.{ℕ, ◌≡◌, ◌≢◌, ap, ◌∙◌, refl, true, false, arith, ◌==◌, if◌then◌else◌}
use cs179f_bbfs_project.Base.Map.{insert, nat_key}
use cs179f_bbfs_project.Base.Map.Laws.{find-insert, find-erase}
use cs179f_bbfs_project.State.{
  Errno, File, Fs, new_file, has_entry, Run, done, fault, out_of_fuel, file_at, touch, update,
  forget,
}

pub file_at-touch : (fh : ℕ) (fs : Fs) → file_at (touch fh fs) ≡ file_at fs
unfolding file_at touch
file_at-touch fh fs = fun_ext λ i. ground (arith, find-insert i fh new_file fs.entry)

pub file_at-update :
    (fh i : ℕ) (g : File → File) (fs : Fs)
    → file_at (update fh g fs) i ≡ (if i == fh then g (file_at fs fh) else file_at fs i)
unfolding file_at update
file_at-update fh i g fs = ground (arith, find-insert i fh (g (file_at fs fh)) fs.entry)

pub file_at-forget :
    (fh i : ℕ) (fs : Fs) → file_at (forget fh fs) i ≡ (if i == fh then new_file else file_at fs i)
unfolding file_at forget
file_at-forget fh i fs = ground (arith, find-erase i fh fs.entry)

pub file_at_absent : (fs : Fs) (fh : ℕ) → has_entry fs fh ≡ false → file_at fs fh ≡ new_file
unfolding file_at
file_at_absent fs fh h = ground arith

pub touch_present : (fs : Fs) (fh : ℕ) → has_entry fs fh ≡ true → touch fh fs ≡ fs
unfolding touch
touch_present fs fh h = ground arith

-- The later state differs at most in `errno` and in entries that a read has made.
pub record SameView (fs fs' : Fs) : Type 0 where
  pub files : file_at fs' ≡ file_at fs
  pub count : fs'.count ≡ fs.count
  pub first_time : fs'.first_time ≡ fs.first_time
  pub cwd : fs'.cwd ≡ fs.cwd
  pub kept : (j : ℕ) → has_entry fs j ≡ true → has_entry fs' j ≡ true

pub SameView-trans : {fs gs hs : Fs} → SameView fs gs → SameView gs hs → SameView fs hs
SameView-trans s t = record {
  files = cc (s.files, t.files);
  count = cc (s.count, t.count);
  first_time = cc (s.first_time, t.first_time);
  cwd = cc (s.cwd, t.cwd);
  kept = λ j h. t.kept j (s.kept j h);
}

pub SameView-touch : (fh : ℕ) (fs : Fs) → SameView fs (touch fh fs)
unfolding touch
SameView-touch fh fs = record {
  files = file_at-touch fh fs;
  count = ground arith;
  first_time = ground arith;
  cwd = ground arith;
  kept = λ j h. ground (arith, find-insert j fh new_file fs.entry);
}

pub touch-touch : (fh : ℕ) (fs : Fs) → touch fh (touch fh fs) ≡ touch fh fs
unfolding touch
touch-touch fh fs = ground (arith, find-insert fh fh new_file fs.entry)

-- Setting `errno` shows nowhere else.
pub file_at_errno : (e : Errno) (fs : Fs) → file_at (record fs { errno = e }) ≡ file_at fs
unfolding file_at
file_at_errno e fs = refl

pub SameView-errno : (e : Errno) (fs : Fs) → SameView fs (record fs { errno = e })
SameView-errno e fs = record {
  files = file_at_errno e fs;
  count = refl;
  first_time = refl;
  cwd = refl;
  kept = λ j h. h;
}

-- A file whose mode is not zero has an entry.
pub touch_of_mode : (fs : Fs) (fh : ℕ) → (file_at fs fh).metadata.st_mode ≢ 0 → touch fh fs ≡ fs
unfolding touch file_at
touch_of_mode fs fh h = ground arith

-- An update is known by what it makes of the file that is there.
pub update_eq :
    (fh : ℕ) (g h : File → File) (fs : Fs)
    → g (file_at fs fh) ≡ h (file_at fs fh)
    → update fh g fs ≡ update fh h fs
unfolding update
update_eq fh g h fs e = ap (λ f. record fs { entry = insert fh f fs.entry }) e

pub file_at-update_self :
    (fh : ℕ) (g : File → File) (fs : Fs) → file_at (update fh g fs) fh ≡ g (file_at fs fh)
file_at-update_self fh g fs =
    let same : (fh == fh) ≡ true = ground arith in file_at-update fh fh g fs ∙ rw same

module _ {A : Type 0} where
  state_or : Fs → Run A → Fs
  state_or d (done a fs) = fs
  state_or d fault = d
  state_or d out_of_fuel = d

  -- The state of a run that is done.
  pub state_of_done : {a b : A} {fs gs : Fs} → done a fs ≡ done b gs → fs ≡ gs
  unfolding state_or
  state_of_done {fs = s} e = ap (state_or s) e
