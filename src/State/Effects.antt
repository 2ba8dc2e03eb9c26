-- ===== src/State/Effects.antt =====
-- Changes of what a state shows: a file put in the place of another.
use mathlib.Core.Path.{fun_ext}
use cs179f_bbfs_project.Base.{
  sym, inl, inr, Bool-cases, ℕ, ◌≡◌, ◌∙◌, ap, true, false, arith, ◌==◌, if◌then◌else◌, ◌≢◌,
}
use cs179f_bbfs_project.State.{File, Fs, new_file, file_at, touch, update, forget}
use cs179f_bbfs_project.State.View.{file_at-touch, file_at-update, file_at-forget}

-- What a state shows: the file of every number.
abbrev pub View : Type 0
View = ℕ → File

-- The view in which the file of one number is changed.
abbrev pub set_at : ℕ → (File → File) → View → View
set_at k g v i = if i == k then g (v k) else v i

-- The change that erases a file.
abbrev pub erased : File → File
erased f = new_file

module _ (v : View) (k : ℕ) (g : File → File) where
  pub set_at_self : set_at k g v k ≡ g (v k)
  set_at_self = let same : (k == k) ≡ true = ground arith in rw same

  pub set_at_other : (i : ℕ) → i ≢ k → set_at k g v i ≡ v i
  set_at_other i ne = let other : (i == k) ≡ false = ground arith in rw other

-- A change that puts back the only file that differs.
pub set_at_back :
    (v u : View) (k : ℕ) (g : File → File)
    → g (u k) ≡ v k
    → ((i : ℕ) → i ≢ k → u i ≡ v i)
    → set_at k g u ≡ v
set_at_back v u k g back same = fun_ext (λ i. elim (Bool-cases (i == k)) [
  | inl at_k ↦ let p : i ≡ k = ground arith in rw at_k (back ∙ ap v (sym p))
  | inr other ↦
      rw other (same i (λ p. let e : (i == k) ≡ true = ground (arith, p) in cc (e, other)))
])

-- The writes of a state are changes of its view.
pub file_at-update_as :
    (k : ℕ) (g : File → File) (fs : Fs) (v : View)
    → file_at fs ≡ v
    → file_at (update k g fs) ≡ set_at k g v
file_at-update_as k g fs v e = fun_ext (λ i. file_at-update k i g fs) ∙ ap (set_at k g) e

pub file_at-forget_as :
    (k : ℕ) (fs : Fs) (v : View) → file_at fs ≡ v → file_at (forget k fs) ≡ set_at k erased v
file_at-forget_as k fs v e = fun_ext (λ i. file_at-forget k i fs) ∙ ap (set_at k erased) e

pub file_at-touch_as : (k : ℕ) (fs : Fs) (v : View) → file_at fs ≡ v → file_at (touch k fs) ≡ v
file_at-touch_as k fs v e = file_at-touch k fs ∙ e
