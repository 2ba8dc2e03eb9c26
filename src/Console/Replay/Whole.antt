-- ===== src/Console/Replay/Whole.antt =====
-- `main` of ProjectWOFuse/src/my_stubs.cc from its start to `exit`: the commands that are typed, and the
-- file that they were recorded in.
use cs179f_bbfs_project.Base.{
  ℕ, suc, ◌+◌, ◌≡◌, refl, sym, ap, ◌∙◌, arith, true, false, Option, none, some, List, [], ◌∷◌, ◌++◌,
  append-nil, Bytes, bytes_beq, codes, length,
}
use cs179f_bbfs_project.State.{Fs, done, pure, ◌>>=◌, empty_fs}
use cs179f_bbfs_project.Create.{initialize}
use cs179f_bbfs_project.Console.Input.{Stream, good, skip_spaces, read_word}
use cs179f_bbfs_project.Console.Input.Scan.{IsWord, Offers}
use cs179f_bbfs_project.Console.Listing.{Accounts}
use cs179f_bbfs_project.Console.Dialog.{
  Dialog, Request, idle, leave, from_input, note, find_op, ask, read_two, dispatch, read_request,
}
use cs179f_bbfs_project.Console.Loop.{
  Clock, later, saved, finish, one_round, serve, main_loop, stream_of, opened, my_main,
}
use cs179f_bbfs_project.Console.Replay.{Entry, line}
use cs179f_bbfs_project.Console.Replay.Fed.{Source, from_file, from_typed, Fed, from_input-Fed}
use cs179f_bbfs_project.Console.Replay.Asks.{read_two_lem}
use cs179f_bbfs_project.Console.Replay.Sessions.{
  past, run_request, Session, texts, run_all, rounds_of, round_lem, same_then, Behind,
  main_loop-texts,
}

-- `exit` with the file for the record.
abbrev pub exit_text : Bytes → Bytes
exit_text file = codes "exit" ++ b' ' ∷ line file []

pub read_two_end :
    (s : Stream) → Offers s [] → (t : Stream) × (read_two s ≡ ((none, none), t)) × (good t ≡ false)
unfolding read_word skip_spaces
read_two_end s o =
    let nothing : skip_spaces s.rest ≡ [] = o.holds in
    (
      record s { rest = []; at_eof = true; failed = true },
      rw (o.not_at_eof, o.not_failed, nothing) refl,
      refl,
    )

no_words :
    (d : Dialog) (t : Stream)
    → good d.myin ≡ true
    → read_two d.myin ≡ ((none, none), t)
    → from_input read_two d ≡ ((none, none), record d { myin = t })
unfolding from_input
no_words d t fine e =
    rw fine (ap (λ (p : (Option Bytes × Option Bytes) × Stream). (p.0, record d { myin = p.1 })) e)

pub idle_lem :
    (d d1 : Dialog)
    → from_input read_two d ≡ ((none, none), d1)
    → read_request d ≡ some (idle, note (b' ' ∷ []) d1)
unfolding read_request dispatch find_op bytes_beq ask
idle_lem d d1 e = ap dispatch e

same_offered : (s t : Stream) (x : Bytes) → s ≡ t → Offers t x → Offers s x
same_offered s t x e o = record {
  not_at_eof = ap (λ u. u.at_eof) e ∙ o.not_at_eof;
  not_failed = ap (λ u. u.failed) e ∙ o.not_failed;
  holds = ap (λ u. skip_spaces u.rest) e ∙ o.holds;
}

-- The end of the file: a round without words, which is recorded as such, and the file is not read any
-- more.
record Drained (d : Dialog) (x : Bytes) : Type 0 where
  unread : Stream
  next : Dialog
  asked : read_request d ≡ some (idle, next)
  fed : Fed (from_typed unread) next x
  written : next.recorded ≡ d.recorded ++ codes " \n"

drained : (c : Stream) (d : Dialog) (x : Bytes) → Fed (from_file c) d [] → Offers c x → Drained d x
drained c d x (o, (same, sound)) typed =
    let (t, e, bad) = read_two_end d.myin o in
    let fine : good d.myin ≡ true = rw (o.not_at_eof, o.not_failed) refl in
    record {
      unread = t;
      next = note (b' ' ∷ []) (record d { myin = t });
      asked = idle_lem d (record d { myin = t }) (no_words d t fine e);
      fed = (same_offered d.cin c x same typed, (refl, bad));
      written = refl;
    }

left :
    (src : Source) (d : Dialog) (file : Bytes)
    → Fed src d (exit_text file)
    → IsWord file
    → (d' : Dialog) × (read_request d ≡ some (leave file, d')) × (d'.recorded ≡ d.recorded)
unfolding read_request dispatch find_op bytes_beq ask
left src d file h word =
    let (d1, e, a) =
      from_input-Fed src d read_two (some (codes "exit"), some file) (exit_text file) []
        (λ s o.
          read_two_lem (codes "exit") file [] s
            (record { some_byte = refl; no_space = (refl, (refl, (refl, (refl, tt)))) }) word o)
        h in
    (d1, ap dispatch e, a.same)

-- `exit` ends the loop, and the record is what was recorded before.
exit_round :
    (clock : Clock) (names : Accounts) (depth : ℕ) (src : Source) (d : Dialog) (file : Bytes)
    (k : ℕ) (fs : Fs)
    → Fed src d (exit_text file)
    → IsWord file
    → main_loop (suc k) clock names depth d fs ≡ done (saved file d.recorded) fs
unfolding main_loop one_round serve finish
exit_round clock names depth src d file k fs h word =
    let (d1, e, same) = left src d file h word in
    ap (λ o. one_round clock names depth (main_loop k (later clock) names depth) o fs) e
    ∙ ap (λ r. done (saved file r) fs) same

idle_round :
    (clock : Clock) (names : Accounts) (depth : ℕ) (d : Dialog) (fs : Fs)
    → (run_request clock names depth idle >>= λ _. main_loop 1 (later clock) names depth d) fs
      ≡ main_loop 1 (later clock) names depth d fs
unfolding run_request
idle_round clock names depth d fs = refl

pub rounds_of-length : (es : List Entry) (k : ℕ) → rounds_of es k ≡ length es + k
unfolding length
rounds_of-length [] k = omega arith
rounds_of-length (e ∷ es) k =
    let e : rounds_of es k ≡ length es + k = rounds_of-length es k in omega (arith, e)

module _ (clock : Clock) (names : Accounts) (depth : ℕ) where
  -- The program with no file, which is typed commands that are recorded in full and then `exit`: it makes the calls of the
  -- commands in their order, ends in one round for each and one for `exit`, and the text that it
  -- saves is that of the commands.
  pub typed-Session :
      (es : List Entry) (rs : List Request) (file : Bytes)
      → Session es rs
      → IsWord file
      → my_main (length es + 1) clock names depth none (texts es (exit_text file))
        ≡ (initialize (clock 0) >>= λ _.
              run_all (later clock) names depth rs >>= λ _. pure (saved file (texts es [])))
            empty_fs
  unfolding my_main
  typed-Session es rs file session word =
      let d : Dialog = record {
        myin = opened none;
        cin = stream_of (texts es (exit_text file));
        recorded = [];
      } in
      let offered : Offers d.cin (texts es (exit_text file)) = record {
        not_at_eof = refl;
        not_failed = refl;
        holds = refl;
      } in
      let b : Behind (later clock) names depth (from_typed (opened none)) d es rs (exit_text file) =
        main_loop-texts (later clock) names depth (from_typed (opened none)) d es rs
          (exit_text file) session (offered, (refl, refl)) in
      let kept : b.next.recorded ≡ texts es [] = sym (append-nil b.next.recorded) ∙ b.written [] in
      same_then (initialize (clock 0) empty_fs)
        (λ _. main_loop (length es + 1) (later clock) names depth d)
        (λ _. run_all (later clock) names depth rs >>= λ _. pure (saved file (texts es [])))
        λ u fs.
          ap (λ n. main_loop n (later clock) names depth d fs) (sym (rounds_of-length es 1))
          ∙ b.served 1 fs
          ∙ same_then (run_all (later clock) names depth rs fs)
              (λ _. main_loop 1 (past es (later clock)) names depth b.next)
              (λ _. pure (saved file (texts es [])))
              λ v gs.
                exit_round (past es (later clock)) names depth (from_typed (opened none)) b.next
                  file 0 gs b.fed word
                ∙ ap (λ r. done (saved file r) gs) kept

  -- The program with the text of those commands as its file, which is then typed `exit`: it makes the
  -- same calls, in one round more, for the end of the file, which is recorded as a line of one space.
  pub replayed-Session :
      (es : List Entry) (rs : List Request) (file : Bytes)
      → Session es rs
      → IsWord file
      → my_main (length es + 2) clock names depth (some (texts es [])) (exit_text file)
        ≡ (initialize (clock 0) >>= λ _. run_all (later clock) names depth rs >>= λ _.
              pure (saved file (texts es (codes " \n"))))
            empty_fs
  unfolding my_main
  replayed-Session es rs file session word =
      let c : Stream = stream_of (exit_text file) in
      let d : Dialog = record { myin = opened (some (texts es [])); cin = c; recorded = [] } in
      let typed : Offers c (exit_text file) = record {
        not_at_eof = refl;
        not_failed = refl;
        holds = refl;
      } in
      let offered : Offers d.myin (texts es []) = record {
        not_at_eof = refl;
        not_failed = refl;
        holds = refl;
      } in
      let b : Behind (later clock) names depth (from_file c) d es rs [] =
        main_loop-texts (later clock) names depth (from_file c) d es rs [] session
          (offered, (refl, refl)) in
      let q : Drained b.next (exit_text file) = drained c b.next (exit_text file) b.fed typed in
      let kept : q.next.recorded ≡ texts es (codes " \n") = q.written ∙ b.written (codes " \n") in
      same_then (initialize (clock 0) empty_fs)
        (λ _. main_loop (length es + 2) (later clock) names depth d)
        (λ _.
          run_all (later clock) names depth rs >>= λ _. pure (saved file (texts es (codes " \n"))))
        λ u fs.
          ap (λ n. main_loop n (later clock) names depth d fs) (sym (rounds_of-length es 2))
          ∙ b.served 2 fs
          ∙ same_then (run_all (later clock) names depth rs fs)
              (λ _. main_loop 2 (past es (later clock)) names depth b.next)
              (λ _. pure (saved file (texts es (codes " \n"))))
              λ v gs.
                round_lem (past es (later clock)) names depth 1 b.next q.next idle gs q.asked refl
                ∙ idle_round (past es (later clock)) names depth q.next gs
                ∙ exit_round (later (past es (later clock))) names depth (from_typed q.unread)
                    q.next file 0 gs q.fed word
                ∙ ap (λ r. done (saved file r) gs) kept
