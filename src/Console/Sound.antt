-- ===== src/Console/Sound.antt =====
-- Whatever `main` in ProjectWOFuse/src/my_stubs.cc reads, its file system stays well-formed.
use mathlib.Core.Path.{subst}
use cs179f_bbfs_project.Base.{
  ℕ, zero, suc, ◌≡◌, refl, sym, ap, ◌∙◌, [], Option, none, some, Bytes, codes,
}
use cs179f_bbfs_project.State.{Fs, Run, done, fault, out_of_fuel, M, and_then, empty_fs}
use cs179f_bbfs_project.State.View.{SameView}
use cs179f_bbfs_project.Resolve.Quiet.{Quiet, stays, faulted, ran_out}
use cs179f_bbfs_project.Create.{initialize}
use cs179f_bbfs_project.Invariant.{Ensures, returns, faults, IsWellFormed}
use cs179f_bbfs_project.Invariant.Rules.{IsGood, Good, IsGood-SameView, IsGood-touch}
use cs179f_bbfs_project.Invariant.Attributes.{my_lstat-Good}
use cs179f_bbfs_project.Invariant.Create.{my_mkdir-Good}
use cs179f_bbfs_project.System.Boot.{booted_fs, initialize-booted, booted_fs-IsWellFormed}
use cs179f_bbfs_project.System.Safety.{IsGood-self}
use cs179f_bbfs_project.Console.Safety.{run_command-Good}
use cs179f_bbfs_project.Console.Listing.{Accounts, ls}
use cs179f_bbfs_project.Console.Listing.Quiet.{describe_file-Quiet, ls-Quiet, visit-Quiet}
use cs179f_bbfs_project.Console.Dialog.{
  Dialog, Request, command, list_files, list_tree, idle, leave, stop, read_request,
}
use cs179f_bbfs_project.Console.Loop.{
  Clock, later, Ending, after_break, serve, finish, one_round, main_loop, stream_of, opened,
  my_main,
}

-- A run that, if it ends, does so in a well-formed state with `n` numbers or more handed out.
data Ends {A : Type 0} (n : ℕ) : Run A → Type 0 where
  ends : {a : A} {gs : Fs} → IsGood n gs → Ends n (done a gs)
  faulty : Ends n fault
  endless : Ends n out_of_fuel

module _ {A : Type 0} {n : ℕ} where
  after :
      {B : Type 0} {r : Run B} {k : B → M A}
      → Ends n r
      → ((b : B) (gs : Fs) → IsGood n gs → Ends n (k b gs))
      → Ends n (and_then r k)
  after (ends g) next = next _ _ g
  after faulty next = faulty
  after endless next = endless

  of_ensures : {r : Run A} → Ensures (Good n) r → Ends n r
  of_ensures (returns g) = ends g
  of_ensures faults = faulty

  of_quiet : {v : Fs} {r : Run A} → IsGood n v → Quiet v r → Ends n r
  of_quiet g (stays s) = ends (IsGood-SameView g s)
  of_quiet g faulted = faulty
  of_quiet g ran_out = endless

same : (fs : Fs) → SameView fs fs
same fs = record { files = refl; count = refl; first_time = refl; cwd = refl; kept = λ j h. h }

module _ {n : ℕ} (clock : Clock) (names : Accounts) (depth : ℕ) where
  ls-Ends : {fs : Fs} → IsGood n fs → (path : Bytes) → Ends n (ls path fs)
  ls-Ends {fs} g path = of_quiet g (ls-Quiet path (same fs))

  after_break-Ends : {fs : Fs} → IsGood n fs → Ends n (after_break clock fs)
  unfolding after_break
  after_break-Ends g0 =
      after (of_ensures (my_lstat-Good (IsGood-touch g0 2) (codes "/"))) λ a fs1 g1.
        after (ls-Ends g1 (codes "/")) λ b fs2 g2.
          after (of_ensures (my_mkdir-Good g2 (clock 0) (codes "/junk") 0o700)) λ c fs3 g3.
            after (ls-Ends g3 (codes "/")) λ d fs4 g4.
              after (ls-Ends g4 (codes "/junk")) λ e fs5 g5.
                after (of_ensures (my_mkdir-Good g5 (clock 1) (codes "/junk/stuff") 700))
                  λ f fs6 g6. after (ls-Ends g6 (codes "/junk")) λ h fs7 g7.
                    after (ls-Ends g7 (codes "/junk/stuff")) λ i fs8 g8.
                      after (of_quiet g8 (describe_file-Quiet (codes "/junk") (same fs8)))
                        λ j fs9 g9. ends g9

  serve-Ends :
      {fs : Fs}
      → IsGood n fs
      → (r : Request) (recorded : Bytes) → Ends n (serve clock names depth r recorded fs)
  unfolding serve
  serve-Ends g (command c) recorded =
      after (of_ensures (run_command-Good g (clock 0) c)) λ a gs g'. ends g'
  serve-Ends g (list_files file) recorded = after (ls-Ends g file) λ a gs g'. ends g'
  serve-Ends {fs} g (list_tree file) recorded =
      after (of_quiet g (visit-Quiet depth names file (same fs))) λ a gs g'. ends g'
  serve-Ends g idle recorded = ends g
  serve-Ends g (leave file) recorded = ends g
  serve-Ends g stop recorded = after (after_break-Ends g) λ a gs g'. ends g'

  one_round-Ends :
      {fs : Fs} (more : Dialog → M Ending) (o : Option (Request × Dialog))
      → ((d : Dialog) (gs : Fs) → IsGood n gs → Ends n (more d gs))
      → IsGood n fs
      → Ends n (one_round clock names depth more o fs)
  unfolding one_round finish
  one_round-Ends more none h g = faulty
  one_round-Ends more (some (r, d)) h g =
      after (serve-Ends g r d.recorded) λ e gs g'. finished e gs g'
    where
      finished : (e : Option Ending) (gs : Fs) → IsGood n gs → Ends n (finish more d e gs)
      finished (some how) gs g' = ends g'
      finished none gs g' = h d gs g'

main_loop-Ends :
    {n : ℕ} (clock : Clock) (names : Accounts) (depth k : ℕ) (d : Dialog) (fs : Fs)
    → IsGood n fs
    → Ends n (main_loop k clock names depth d fs)
unfolding main_loop
main_loop-Ends clock names depth zero d fs g = endless
main_loop-Ends clock names depth (suc k) d fs g =
    one_round-Ends clock names depth (main_loop k (later clock) names depth) (read_request d)
      (main_loop-Ends (later clock) names depth k) g

carried : {fs gs : Fs} → fs ≡ gs → IsWellFormed fs → IsWellFormed gs
carried e w = subst IsWellFormed e w

good_of :
    {A : Type 0} {n : ℕ} {r : Run A} {a : A} {gs : Fs} → Ends n r → r ≡ done a gs → IsWellFormed gs
good_of (ends g) run = carried (cc run) g.formed
good_of faulty run = cc run
good_of endless run = cc run

-- Whatever the file holds that the program gets, and whatever is typed: where `main` ends, by `exit` or
-- at the end of its body, the file system that it leaves is well-formed.
pub my_main-IsWellFormed :
    (rounds : ℕ) (clock : Clock) (names : Accounts) (depth : ℕ) (argument : Option Bytes)
    (typed : Bytes) (how : Ending) (gs : Fs)
    → my_main rounds clock names depth argument typed ≡ done how gs
    → IsWellFormed gs
unfolding my_main
my_main-IsWellFormed rounds clock names depth argument typed how gs run =
    let d : Dialog = record { myin = opened argument; cin = stream_of typed; recorded = [] } in
    let g : IsGood (booted_fs (clock 0)).count (booted_fs (clock 0)) =
      IsGood-self (booted_fs (clock 0)) (booted_fs-IsWellFormed (clock 0)) in
    let start : and_then (initialize (clock 0) empty_fs)
          (λ _. main_loop rounds (later clock) names depth d)
        ≡ main_loop rounds (later clock) names depth d (booted_fs (clock 0)) =
      ap (λ q. and_then q (λ _. main_loop rounds (later clock) names depth d))
        (initialize-booted (clock 0)) in
    good_of (main_loop-Ends (later clock) names depth rounds d (booted_fs (clock 0)) g)
      (sym start ∙ run)
