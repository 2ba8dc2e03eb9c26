-- ===== src/Invariant/Rules.antt =====
-- Rules that walk through an operation: one for each way in which it goes on.
use cs179f_bbfs_project.Base.{
  ℕ, ◌≤◌, ◌<◌, ◌≡◌, refl, Bool, true, false, Option, none, some, arith, if◌then◌else◌, Bytes,
}
use cs179f_bbfs_project.State.{Errno, File, Fs, Run, M, and_then, file_at, touch, update, forget}
use cs179f_bbfs_project.State.View.{SameView, SameView-touch}
use cs179f_bbfs_project.Resolve.{find_real_ino, find_ino}
use cs179f_bbfs_project.Invariant.{
  Ensures, bind, IsFileOk, IsWellFormed, SameView-IsWellFormed, update-IsWellFormed,
  forget-IsWellFormed, errno-IsWellFormed,
}
use cs179f_bbfs_project.Invariant.Parts.{Finds, find_real_ino-Finds, find_ino-Finds}

-- Well-formed, with at least `n` numbers handed out.
pub record IsGood (n : ℕ) (fs : Fs) : Type 0 where
  pub formed : IsWellFormed fs
  pub counted : n ≤ fs.count

abbrev pub Good : {A : Type 0} → ℕ → A → Fs → Type 0
Good n a fs = IsGood n fs

module _ {n : ℕ} {fs : Fs} (g : IsGood n fs) where
  pub IsGood-errno : (e : Errno) → IsGood n (record fs { errno = e })
  IsGood-errno e = record { formed = errno-IsWellFormed e fs g.formed; counted = g.counted }

  pub IsGood-SameView : {gs : Fs} → SameView fs gs → IsGood n gs
  IsGood-SameView s = record {
    formed = SameView-IsWellFormed s g.formed;
    counted = rw s.count g.counted;
  }

  pub IsGood-touch : (fh : ℕ) → IsGood n (touch fh fs)
  IsGood-touch fh = IsGood-SameView (SameView-touch fh fs)

  pub lt-touch : (fh j : ℕ) → j < fs.count → j < (touch fh fs).count
  lt-touch fh j lt = omega (arith, (SameView-touch fh fs).count)

  pub IsGood-update :
      (fh : ℕ) (h : File → File)
      → fh < fs.count
      → IsFileOk fs.count fh (h (file_at fs fh))
      → IsGood n (update fh h fs)
  unfolding update
  IsGood-update fh h lt k = record {
    formed = update-IsWellFormed fh h fs g.formed lt k;
    counted = g.counted;
  }

  pub IsGood-forget : (fh : ℕ) → IsGood n (forget fh fs)
  unfolding forget
  IsGood-forget fh = record { formed = forget-IsWellFormed fh fs g.formed; counted = g.counted }

  module _ {B : Type 0} {P : B → Fs → Type 0} where
    found :
        {r : Run ℕ} {k : ℕ → M B}
        → Ensures (Finds fs) r
        → ((fh : ℕ) (gs : Fs)
            → IsGood n gs
            → gs.count ≡ fs.count
            → fh < gs.count
            → Ensures P (k fh gs))
        → Ensures P (and_then r k)
    found e next =
        bind e λ fh gs (s, lt). next fh gs (IsGood-SameView s) s.count (omega (arith, s.count))

    pub find_then :
        (path : Bytes) {k : ℕ → M B}
        → ((fh : ℕ) (gs : Fs)
            → IsGood n gs
            → gs.count ≡ fs.count
            → fh < gs.count
            → Ensures P (k fh gs))
        → Ensures P (and_then (find_ino path fs) k)
    find_then path next = found (find_ino-Finds fs g.formed path) next

    pub find_real_then :
        (path : Bytes) {k : ℕ → M B}
        → ((fh : ℕ) (gs : Fs)
            → IsGood n gs
            → gs.count ≡ fs.count
            → fh < gs.count
            → Ensures P (k fh gs))
        → Ensures P (and_then (find_real_ino path fs) k)
    find_real_then path next = found (find_real_ino-Finds fs g.formed path) next

module _ {A : Type 0} {P : A → Fs → Type 0} where
  pub branch :
      (b : Bool) (m k : M A) {fs : Fs}
      → (b ≡ true → Ensures P (m fs))
      → (b ≡ false → Ensures P (k fs))
      → Ensures P ((if b then m else k) fs)
  branch true m k yes_case no_case = yes_case refl
  branch false m k yes_case no_case = no_case refl

  pub branch_run :
      (b : Bool) {r s : Run A}
      → (b ≡ true → Ensures P r)
      → (b ≡ false → Ensures P s)
      → Ensures P (if b then r else s)
  branch_run true yes_case no_case = yes_case refl
  branch_run false yes_case no_case = no_case refl

  pub option_branch :
      {V : Type 0} (o : Option V) (m : M A) (k : V → M A) {fs : Fs}
      → (o ≡ none → Ensures P (m fs))
      → ((v : V) → o ≡ some v → Ensures P (k v fs))
      → Ensures P ((elim o as (λ _. M A) [ none ↦ m | some v ↦ k v ]) fs)
  option_branch none m k none_case some_case = none_case refl
  option_branch (some v) m k none_case some_case = some_case v refl
