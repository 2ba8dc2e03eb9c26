-- ===== src/Console/Ends.antt =====
-- The rounds of `main` in ProjectWOFuse/src/my_stubs.cc that end whatever the files are.
use mathlib.Core.Path.{subst}
use cs179f_bbfs_project.Base.{ℕ, ◌≤◌, ◌≡◌, ◌≢◌, Option, Bytes, codes}
use cs179f_bbfs_project.State.{Env, Fs, Run, done, out_of_fuel}
use cs179f_bbfs_project.Invariant.{Ensures, returns, faults, bind, IsWellFormed}
use cs179f_bbfs_project.Invariant.Rules.{IsGood, Good, IsGood-touch}
use cs179f_bbfs_project.Invariant.Attributes.{my_lstat-Good}
use cs179f_bbfs_project.Invariant.Create.{my_mkdir-Good}
use cs179f_bbfs_project.System.{Reach}
use cs179f_bbfs_project.System.Safety.{IsGood-self, Reach-IsWellFormed}
use cs179f_bbfs_project.Console.Safety.{run_command-Good}
use cs179f_bbfs_project.Console.Listing.{Accounts}
use cs179f_bbfs_project.Console.Listing.Good.{describe_file-Good, ls-Good}
use cs179f_bbfs_project.Console.Dialog.{Request, command, list_files, list_tree, idle, leave, stop}
use cs179f_bbfs_project.Console.Loop.{Clock, Ending, after_break, serve}

-- Any request but that of `lslr`.
abbrev pub IsBounded : Request → Type 0
IsBounded (list_tree file) = ⊥
IsBounded r = Unit

module _ {n : ℕ} (clock : Clock) where
  after_break-Good : {fs : Fs} → IsGood n fs → Ensures (Good n) (after_break clock fs)
  unfolding after_break
  after_break-Good g0 = bind (my_lstat-Good (IsGood-touch g0 2) (codes "/")) λ a fs1 g1.
      bind (ls-Good g1 (codes "/")) λ b fs2 g2.
        bind (my_mkdir-Good g2 (clock 0) (codes "/junk") 0o700) λ c fs3 g3.
          bind (ls-Good g3 (codes "/")) λ d fs4 g4. bind (ls-Good g4 (codes "/junk")) λ e fs5 g5.
            bind (my_mkdir-Good g5 (clock 1) (codes "/junk/stuff") 700) λ f fs6 g6.
              bind (ls-Good g6 (codes "/junk")) λ h fs7 g7.
                bind (ls-Good g7 (codes "/junk/stuff"))
                  λ i fs8 g8. bind (describe_file-Good g8 (codes "/junk")) λ j fs9 g9. returns g9

  serve-Good :
      {fs : Fs} (names : Accounts) (depth : ℕ) (r : Request) (recorded : Bytes)
      → IsGood n fs
      → IsBounded r
      → Ensures (Good n) (serve clock names depth r recorded fs)
  unfolding serve
  serve-Good names depth (command c) recorded g h =
      bind (run_command-Good g (clock 0) c) λ a gs g'. returns g'
  serve-Good names depth (list_files file) recorded g h =
      bind (ls-Good g file) λ a gs g'. returns g'
  serve-Good names depth (list_tree file) recorded g h = absurd h
  serve-Good names depth idle recorded g h = returns g
  serve-Good names depth (leave file) recorded g h = returns g
  serve-Good names depth stop recorded g h = bind (after_break-Good g) λ a gs g'. returns g'

ne_out_of_fuel : {A : Type 0} {n : ℕ} {r : Run A} → Ensures (Good n) r → r ≢ out_of_fuel
ne_out_of_fuel (returns g) e = cc
ne_out_of_fuel faults e = cc

returned-Good :
    {A : Type 0} {n : ℕ} {r : Run A} {a : A} {gs : Fs}
    → Ensures (Good n) r
    → r ≡ done a gs
    → IsGood n gs
returned-Good {n = n} (returns {fs = hs} g) e = let p : hs ≡ _ = cc e in subst (IsGood n) p g
returned-Good faults e = cc e

-- In a reachable state, a round of `main` ends within its rounds, or in a fault, whatever is asked for but
-- `lslr`: each command that calls an operation, `ls`, `exit`, `break` with the calls behind the loop,
-- and a command that only prints. The state after it is well-formed, and no number was taken back.
pub serve-IsWellFormed :
    (env : Env) (clock : Clock) (names : Accounts) (depth : ℕ) (r : Request) (recorded : Bytes)
    (fs : Fs)
    → Reach env fs
    → IsBounded r
    → (serve clock names depth r recorded fs ≢ out_of_fuel)
      × ((e : Option Ending) (gs : Fs)
          → serve clock names depth r recorded fs ≡ done e gs
          → IsWellFormed gs × (fs.count ≤ gs.count))
serve-IsWellFormed env clock names depth r recorded fs reach h =
    let g : IsGood fs.count fs = IsGood-self fs (Reach-IsWellFormed env fs reach) in
    let e = serve-Good clock names depth r recorded g h in
    (ne_out_of_fuel e, λ how gs d. ((returned-Good e d).formed, (returned-Good e d).counted))
