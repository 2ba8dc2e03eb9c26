-- ===== src/Console/Replay/Sessions.antt =====
-- Whole runs of `main` in ProjectWOFuse/src/my_stubs.cc: the commands that are typed, and the file that
-- they were recorded in.
use cs179f_bbfs_project.Base.{
  ℕ, suc, ◌≡◌, refl, ap, ◌∙◌, true, Option, none, some, List, [], ◌∷◌, ◌++◌, Bytes,
}
use cs179f_bbfs_project.State.{Fs, Run, done, fault, out_of_fuel, M, pure, and_then, ◌>>=◌}
use cs179f_bbfs_project.Console.{drops, run_command}
use cs179f_bbfs_project.Console.Listing.{Accounts, ls, visit}
use cs179f_bbfs_project.Console.Dialog.{
  Dialog, Request, command, list_files, list_tree, idle, leave, stop, read_request,
}
use cs179f_bbfs_project.Console.Loop.{Clock, later, Ending, finish, one_round, serve, main_loop}
use cs179f_bbfs_project.Console.Replay.{Entry, entry_text, IsEntry}
use cs179f_bbfs_project.Console.Replay.Fed.{Source, Fed}
use cs179f_bbfs_project.Console.Replay.Asks.{read_request_lem, Asked, goes_on}

-- The call that a request makes.
unfoldable pub run_request : Clock → Accounts → (depth : ℕ) → Request → M (Unit {0})
run_request clock names depth (command c) = run_command (clock 0) c
run_request clock names depth (list_files file) = drops (ls file)
run_request clock names depth (list_tree file) = drops (visit depth names file)
run_request clock names depth idle = pure tt
run_request clock names depth (leave file) = pure tt
run_request clock names depth stop = pure tt

-- Commands, and the requests that they make.
pub data Session : List Entry → List Request → Type 0 where
  over : Session [] []
  entered :
      {e : Entry} {r : Request} {es : List Entry} {rs : List Request}
      → IsEntry e r
      → Session es rs
      → Session (e ∷ es) (r ∷ rs)

-- The text of some commands in front of another text.
abbrev pub texts : List Entry → Bytes → Bytes
texts [] t = t
texts (e ∷ es) t = entry_text e (texts es t)

unfoldable pub run_all : Clock → Accounts → (depth : ℕ) → List Request → M (Unit {0})
run_all clock names depth [] = pure tt
run_all clock names depth (r ∷ rs) =
    run_request clock names depth r >>= λ _. run_all (later clock) names depth rs

-- The clock behind some commands.
abbrev pub past : List Entry → Clock → Clock
past [] clock = clock
past (e ∷ es) clock = past es (later clock)

-- The rounds that some commands take, before more of them.
abbrev pub rounds_of : List Entry → ℕ → ℕ
rounds_of [] k = k
rounds_of (e ∷ es) k = suc (rounds_of es k)

abbrev no_end : M (Option Ending)
no_end = pure none

dropped :
    {A : Type 0} (q : Run A)
    → and_then q (λ _. no_end) ≡ and_then (and_then q (λ _. pure tt)) (λ (u : Unit {0}). no_end)
dropped (done a fs) = refl
dropped fault = refl
dropped out_of_fuel = refl

serve_on :
    (clock : Clock) (names : Accounts) (depth : ℕ) (r : Request) (rec : Bytes) (fs : Fs)
    → goes_on r ≡ true
    → serve clock names depth r rec fs ≡ (run_request clock names depth r >>= λ _. no_end) fs
unfolding serve run_request
serve_on clock names depth (command c) rec fs h = refl
serve_on clock names depth (list_files file) rec fs h = dropped (ls file fs)
serve_on clock names depth (list_tree file) rec fs h = dropped (visit depth names file fs)
serve_on clock names depth idle rec fs h = refl
serve_on clock names depth (leave file) rec fs h = cc h
serve_on clock names depth stop rec fs h = cc h

then_finish :
    (q : Run (Unit {0})) (more : Dialog → M Ending) (d : Dialog)
    → and_then (and_then q (λ _. no_end)) (finish more d) ≡ and_then q (λ _. more d)
unfolding finish
then_finish (done u fs) more d = refl
then_finish fault more d = refl
then_finish out_of_fuel more d = refl

and_then_ap : {A B : Type 0} {p q : Run A} (f : A → M B) → p ≡ q → and_then p f ≡ and_then q f
and_then_ap f e = ap (λ r. and_then r f) e

pub same_then :
    {A B : Type 0} (q : Run A) (f g : A → M B)
    → ((a : A) (gs : Fs) → f a gs ≡ g a gs)
    → and_then q f ≡ and_then q g
same_then (done a gs) f g h = h a gs
same_then fault f g h = refl
same_then out_of_fuel f g h = refl

pub regroup :
    {A B : Type 0} (q : Run (Unit {0})) (f : M A) (g : M B)
    → and_then q (λ _. f >>= λ _. g) ≡ and_then (and_then q (λ _. f)) (λ _. g)
regroup (done a gs) f g = refl
regroup fault f g = refl
regroup out_of_fuel f g = refl

module _ (clock : Clock) (names : Accounts) (depth : ℕ) where
  one_round_lem :
      (more : Dialog → M Ending) (d : Dialog) (r : Request) (fs : Fs)
      → goes_on r ≡ true
      → one_round clock names depth more (some (r, d)) fs
        ≡ (run_request clock names depth r >>= λ _. more d) fs
  unfolding one_round
  one_round_lem more d r fs on =
      and_then_ap (finish more d) (serve_on clock names depth r d.recorded fs on)
      ∙ then_finish (run_request clock names depth r fs) more d

  -- A round of the loop whose request does not end it.
  pub round_lem :
      (k : ℕ) (d d' : Dialog) (r : Request) (fs : Fs)
      → read_request d ≡ some (r, d')
      → goes_on r ≡ true
      → main_loop (suc k) clock names depth d fs
        ≡ (run_request clock names depth r >>= λ _. main_loop k (later clock) names depth d') fs
  unfolding main_loop
  round_lem k d d' r fs e on =
      ap (λ o. one_round clock names depth (main_loop k (later clock) names depth) o fs) e
      ∙ one_round_lem (main_loop k (later clock) names depth) d' r fs on

-- What is left of a dialog when the commands in its input are read.
pub record Behind (clock : Clock) (names : Accounts) (depth : ℕ) (src : Source) (d : Dialog)
    (es : List Entry) (rs : List Request) (x : Bytes) : Type 0 where
  pub next : Dialog
  pub fed : Fed src next x
  pub written : (t : Bytes) → next.recorded ++ t ≡ d.recorded ++ texts es t
  pub served :
      (k : ℕ) (fs : Fs)
      → main_loop (rounds_of es k) clock names depth d fs
        ≡ (run_all clock names depth rs >>= λ _. main_loop k (past es clock) names depth next) fs

-- Commands that stand in the input are served one after the other.
pub main_loop-texts :
    (clock : Clock) (names : Accounts) (depth : ℕ) (src : Source) (d : Dialog) (es : List Entry)
    (rs : List Request) (x : Bytes)
    → Session es rs
    → Fed src d (texts es x)
    → Behind clock names depth src d es rs x
unfolding run_all
main_loop-texts clock names depth src d _ _ x over h = record {
  next = d;
  fed = h;
  written = λ t. refl;
  served = λ k fs. refl;
}
main_loop-texts clock names depth src d (e ∷ es) (r ∷ rs) x (entered is more) h =
    let q : Asked src d (read_request d) r (entry_text e) (texts es x) =
      read_request_lem src d e r (texts es x) is h in
    let b : Behind (later clock) names depth src q.next es rs x =
      main_loop-texts (later clock) names depth src q.next es rs x more q.fed in
    record {
      next = b.next;
      fed = b.fed;
      written = λ t. b.written t ∙ q.written (texts es t);
      served = λ k fs.
          round_lem clock names depth (rounds_of es k) d q.next r fs q.asked q.on
          ∙ same_then (run_request clock names depth r fs)
              (λ _. main_loop (rounds_of es k) (later clock) names depth q.next)
              (λ _. run_all (later clock) names depth rs >>= λ _.
                main_loop k (past es (later clock)) names depth b.next)
              (λ u gs. b.served k gs)
          ∙ regroup (run_request clock names depth r fs) (run_all (later clock) names depth rs)
              (main_loop k (past es (later clock)) names depth b.next);
    }
