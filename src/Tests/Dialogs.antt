-- ===== src/Tests/Dialogs.antt =====
-- The theorems on the dialogs of `main` in ProjectWOFuse/src/my_stubs.cc at concrete inputs.
use cs179f_bbfs_project.Base.{
  ℕ, false, ◌+◌, ◌≡◌, refl, ap, ◌∙◌, true, none, some, List, [], ◌∷◌, ◌++◌, arith, Bytes, codes,
  bytes_beq, length,
}
use cs179f_bbfs_project.State
use cs179f_bbfs_project.Base.Words.{and_not}
use cs179f_bbfs_project.Base.Map.{find, insert, nat_key}
use cs179f_bbfs_project.State.{
  has_entry, new_file, masked, dirent_frame, Fs, Run, done, out_of_fuel, pure, ◌>>=◌, and_then,
  empty_fs, file_at, touch, update, push_dentry,
}
use cs179f_bbfs_project.Path.{split, join, back, pop_back}
use cs179f_bbfs_project.Resolve.{find_ino}
use cs179f_bbfs_project.Create.{initialize, my_mkdir, my_mknod}
use cs179f_bbfs_project.System.Boot.{booted_fs, initialize-booted}
use cs179f_bbfs_project.Invariant.{IsWellFormed}
use cs179f_bbfs_project.Console.Sound.{my_main-IsWellFormed}
use cs179f_bbfs_project.Console.{mkdir, basic, run_command}
use cs179f_bbfs_project.Console.Input.{digits}
use cs179f_bbfs_project.Console.Input.Scan.{IsWord}
use cs179f_bbfs_project.Console.Listing.{Accounts}
use cs179f_bbfs_project.Console.Dialog.{Request, command, idle, find_op}
use cs179f_bbfs_project.Console.Loop.{Clock, later, saved, my_main}
use cs179f_bbfs_project.Console.Replay.{Entry, a_mode, no_more, shape}
use cs179f_bbfs_project.Console.Replay.Sessions.{
  Session, over, entered, texts, run_all, run_request,
}
use cs179f_bbfs_project.Console.Replay.Whole.{exit_text, typed-Session}
use cs179f_bbfs_project.Console.Replay.Saved.{saved_replays}
use cs179f_bbfs_project.Console.Replay.Endless.{ended-Session}
use cs179f_bbfs_project.Console.Listing.{
  visit, child_path, last_byte, total_blocks, sort_files, insert_file, bytes_ltb, report, visit_all,
}
use cs179f_bbfs_project.Console.Loop.{serve}
use cs179f_bbfs_project.Console.Looks.{walks, serve-Looks}
use cs179f_bbfs_project.Console.Dialog.{list_tree}
use cs179f_bbfs_project.Attributes.{my_lstat, my_fstat}
use cs179f_bbfs_project.Resolve.{fopendir, my_readdir, find_real_ino}
use cs179f_bbfs_project.Base.{get_elem?}
use cs179f_bbfs_project.Path.{split_loop, find_byte}
use cs179f_bbfs_project.State.{file_at, touch}
use cs179f_bbfs_project.Base.Map.{find}
use cs179f_bbfs_project.Tests.{env, state_of, small}

-- A clock that shows one time, and one that goes on.
abbrev clock : Clock
clock i = env

abbrev later_clock : Clock
later_clock i = record (env) { time = λ j. 2000 + i }

abbrev names : Accounts
names = record { has_user = λ u. true; has_group = λ g. true }

abbrev dialog : List Entry
dialog =
    record { op = codes "mkdir"; file = codes "/a"; more = a_mode 0o755 }
    ∷ record { op = codes "help"; file = codes "me"; more = no_more }
    ∷ []

abbrev requests : List Request
requests = command (basic (mkdir (codes "/a") 0o755)) ∷ idle ∷ []

abbrev record_file : Bytes
record_file = codes "r"

dialog-Session : Session dialog requests
unfolding find_op shape bytes_beq
dialog-Session =
    entered
      (record {
        op_word = record {
          some_byte = refl;
          no_space = (refl, (refl, (refl, (refl, (refl, tt)))));
        };
        file_word = record { some_byte = refl; no_space = (refl, (refl, tt)) };
        rest = omega arith;
        asks = refl;
      })
      (entered
        (record {
          op_word = record { some_byte = refl; no_space = (refl, (refl, (refl, (refl, tt)))) };
          file_word = record { some_byte = refl; no_space = (refl, (refl, tt)) };
          rest = tt;
          asks = refl;
        })
        over)

record_file-IsWord : IsWord record_file
record_file-IsWord = record { some_byte = refl; no_space = (refl, tt) }

-- The text of the dialog.
dialog_text : texts dialog [] ≡ codes "mkdir /a\n755\nhelp me\n"
unfolding digits
dialog_text = refl

typed-Session_example :
    my_main (length dialog + 1) clock names 3 none (texts dialog (exit_text record_file))
    ≡ (initialize env >>= λ _.
          run_all clock names 3 requests >>= λ _. pure (saved record_file (texts dialog [])))
        empty_fs
typed-Session_example =
    typed-Session clock names 3 dialog requests record_file dialog-Session record_file-IsWord

ended-Session_example :
    my_main (length dialog + 1000) clock names 3 none (texts dialog [])
    ≡ (initialize env >>= λ _. run_all clock names 3 requests >>= λ _. λ fs. out_of_fuel) empty_fs
ended-Session_example = ended-Session clock names 3 1000 dialog requests dialog-Session

abbrev after_dialog : Fs
after_dialog = state_of (my_mkdir env (codes "/a") 0o755 (booted_fs env))

serves :
    (run_all clock names 3 requests >>= λ _. pure (saved record_file (texts dialog [])))
      (booted_fs env)
    ≡ done (saved record_file (texts dialog [])) after_dialog
unfolding run_all run_request run_command booted_fs my_mkdir my_mknod find_ino file_at touch update
    State.next split join back pop_back bytes_beq find insert masked and_not dirent_frame
serves = refl

saves :
    my_main (length dialog + 1) clock names 3 none (texts dialog (exit_text record_file))
    ≡ done (saved record_file (texts dialog [])) after_dialog
saves =
    typed-Session clock names 3 dialog requests record_file dialog-Session record_file-IsWord
    ∙ ap
        (λ q.
          and_then q (λ _.
            run_all clock names 3 requests >>= λ _. pure (saved record_file (texts dialog []))))
        (initialize-booted env)
    ∙ serves

saved_replays_example :
    (my_main
        (length dialog + 2)
        later_clock
        names
        3
        (some (texts dialog []))
        (exit_text record_file)
      ≡ (initialize (later_clock 0) >>= λ _. run_all (later later_clock) names 3 requests >>= λ _.
            pure (saved record_file (texts dialog [] ++ codes " \n")))
          empty_fs)
    × (my_main (length dialog + 2) clock names 3 (some (texts dialog [])) (exit_text record_file)
        ≡ done (saved record_file (texts dialog [] ++ codes " \n")) after_dialog)
saved_replays_example =
    saved_replays clock later_clock names 3 dialog requests record_file (texts dialog [])
      after_dialog dialog-Session record_file-IsWord saves

abbrev to_root : Bytes
to_root = codes "/"

walked : Fs
unfolding serve
walked = state_of (serve clock names 1 (list_tree to_root) [] small)

walks_root : serve clock names 1 (list_tree to_root) [] small ≡ done none walked
unfolding serve walked visit child_path last_byte total_blocks sort_files insert_file bytes_ltb
    report visit_all my_lstat my_fstat fopendir my_readdir find_ino find_real_ino split split_loop
    find_byte bytes_beq file_at find touch get_elem? length
walks_root = refl

serve-Looks_example :
    ((j : ℕ)
      → has_entry small j ≡ true
      → (has_entry walked j ≡ true) × (file_at walked j ≡ file_at small j))
    × ((j : ℕ) → has_entry small j ≡ false → file_at walked j ≡ new_file)
    × (walked.count ≡ small.count)
    × (walked.cwd ≡ small.cwd)
serve-Looks_example =
    serve-Looks clock names 1 (list_tree to_root) [] small walked none walks walks_root

my_main-IsWellFormed_example : IsWellFormed after_dialog
my_main-IsWellFormed_example =
    my_main-IsWellFormed (length dialog + 1) clock names 3 none
      (texts dialog (exit_text record_file)) (saved record_file (texts dialog [])) after_dialog
      saves
