-- ===== src/Console/Loop.antt =====
-- `main` of ProjectWOFuse/src/my_stubs.cc: the commands that are read, one after the other, and what
-- comes after `break`.
use cs179f_bbfs_project.Base.{ℕ, true, false, zero, suc, Option, none, some, [], Bytes, codes}
use cs179f_bbfs_project.State.{
  Env, Run, fault, out_of_fuel, M, pure, ◌>>=◌, ◌>>◌, entry_at, empty_fs,
}
use cs179f_bbfs_project.Create.{my_mkdir, initialize}
use cs179f_bbfs_project.Attributes.{my_lstat}
use cs179f_bbfs_project.Console.{run_command}
use cs179f_bbfs_project.Console.Input.{Stream}
use cs179f_bbfs_project.Console.Listing.{Accounts, ls, describe_file, visit}
use cs179f_bbfs_project.Console.Dialog.{
  Dialog, Request, command, list_files, list_tree, idle, leave, stop, read_request,
}

-- How `main` ends: with a file that the record is written to, or at the end of its body.
pub data Ending : Type 0 where
  saved : (file recorded : Bytes) → Ending
  ended : Ending

-- What a call sees of the clock, the user and the mask, for `initialize`, for each round after it, and
-- for the calls that make files behind `break`.
abbrev pub Clock : Type 0
Clock = ℕ → Env

abbrev pub later : Clock → Clock
later clock i = clock (suc i)

-- The calls behind the loop. Two modes are written in octal, and one in decimal.
unfoldable pub after_break : Clock → M (Unit {0})
unfolding my_lstat ls describe_file my_mkdir
after_break clock = do
  entry_at 2
  my_lstat (codes "/")
  ls (codes "/")
  my_mkdir (clock 0) (codes "/junk") 0o700
  ls (codes "/")
  ls (codes "/junk")
  my_mkdir (clock 1) (codes "/junk/stuff") 700
  ls (codes "/junk")
  ls (codes "/junk/stuff")
  describe_file (codes "/junk")
  pure tt

-- The part of a round behind the input. `depth` bounds how deep `visit` may nest its calls.
unfoldable pub serve :
    Clock → Accounts → (depth : ℕ) → Request → (recorded : Bytes) → M (Option Ending)
serve clock names depth (command c) recorded = run_command (clock 0) c >>= λ _. pure none
serve clock names depth (list_files file) recorded = ls file >>= λ _. pure none
serve clock names depth (list_tree file) recorded = visit depth names file >>= λ _. pure none
serve clock names depth idle recorded = pure none
serve clock names depth (leave file) recorded = pure (some (saved file recorded))
serve clock names depth stop recorded = after_break clock >>= λ _. pure (some ended)

-- What comes behind a round: the end, or another round.
unfoldable pub finish : (more : Dialog → M Ending) → Dialog → Option Ending → M Ending
finish more d (some how) = pure how
finish more d none = more d

-- A round behind its input.
unfoldable pub one_round :
    Clock
    → Accounts
    → (depth : ℕ) → (more : Dialog → M Ending) → Option (Request × Dialog)
    → M Ending
one_round clock names depth more none = λ fs. fault
one_round clock names depth more (some (req, d)) =
    serve clock names depth req d.recorded >>= finish more d

-- The loop, for as many rounds as are given.
unfoldable pub main_loop : (rounds : ℕ) → Clock → Accounts → (depth : ℕ) → Dialog → M Ending
main_loop zero clock names depth d = λ fs. out_of_fuel
main_loop (suc k) clock names depth d =
    one_round clock names depth (main_loop k (later clock) names depth) (read_request d)

abbrev pub stream_of : Bytes → Stream
stream_of text = record { rest = text; at_eof = false; failed = false; base = 10 }

-- A file that is not there, or none named, leaves `myin` failed.
abbrev pub opened : Option Bytes → Stream
opened none = record { rest = []; at_eof = false; failed = true; base = 10 }
opened (some text) = stream_of text

-- The program, with the text of the file that its argument names and what is typed.
unfoldable pub my_main :
    (rounds : ℕ) → Clock → Accounts → (depth : ℕ) → Option Bytes → (typed : Bytes) → Run Ending
my_main rounds clock names depth argument typed =
    (initialize (clock 0) >>= λ _.
    main_loop rounds (later clock) names depth
      (record { myin = opened argument; cin = stream_of typed; recorded = [] }))
      empty_fs
