-- ===== src/Console/Replay/Endless.antt =====
-- `main` of ProjectWOFuse/src/my_stubs.cc when its input ends without `exit` or `break`.
use cs179f_bbfs_project.Base.{
  ℕ, zero, suc, ◌+◌, ◌≡◌, refl, sym, ap, ◌∙◌, true, false, ◌||◌, Option, none, List, [], ◌∷◌,
  length, Bytes, arith,
}
use cs179f_bbfs_project.State.{Fs, out_of_fuel, ◌>>=◌, empty_fs}
use cs179f_bbfs_project.Create.{initialize}
use cs179f_bbfs_project.Console.Input.{Stream, good, read_word}
use cs179f_bbfs_project.Console.Input.Scan.{Offers}
use cs179f_bbfs_project.Console.Listing.{Accounts}
use cs179f_bbfs_project.Console.Dialog.{Dialog, Request, idle, from_input, note, read_two}
use cs179f_bbfs_project.Console.Loop.{Clock, later, main_loop, stream_of, opened, my_main}
use cs179f_bbfs_project.Console.Replay.{Entry}
use cs179f_bbfs_project.Console.Replay.Fed.{from_typed}
use cs179f_bbfs_project.Console.Replay.Sessions.{
  past, run_request, Session, texts, run_all, round_lem, same_then, Behind, main_loop-texts,
}
use cs179f_bbfs_project.Console.Replay.Whole.{read_two_end, idle_lem, rounds_of-length}

bad_read : (s : Stream) → good s ≡ false → read_two s ≡ ((none, none), record s { failed = true })
unfolding read_word
bad_read s bad = let still : (s.at_eof || true) ≡ true = ground arith in rw (bad, still) refl

silent :
    (d : Dialog) (t : Stream)
    → good d.myin ≡ false
    → read_two d.cin ≡ ((none, none), t)
    → from_input read_two d ≡ ((none, none), record d { cin = t })
unfolding from_input
silent d t bad e =
    rw bad (ap (λ (p : (Option Bytes × Option Bytes) × Stream). (p.0, record d { cin = p.1 })) e)

out_of_rounds :
    (clock : Clock) (names : Accounts) (depth : ℕ) (d : Dialog) (fs : Fs)
    → main_loop 0 clock names depth d fs ≡ out_of_fuel
unfolding main_loop
out_of_rounds clock names depth d fs = refl

silent_round :
    (clock : Clock) (names : Accounts) (depth : ℕ) (k : ℕ) (d : Dialog) (t : Stream) (fs : Fs)
    → good d.myin ≡ false
    → read_two d.cin ≡ ((none, none), t)
    → main_loop (suc k) clock names depth d fs
      ≡ main_loop k (later clock) names depth (note (b' ' ∷ []) (record d { cin = t })) fs
unfolding run_request
silent_round clock names depth k d t fs bad e =
    round_lem clock names depth k d (note (b' ' ∷ []) (record d { cin = t })) idle fs
      (idle_lem d (record d { cin = t }) (silent d t bad e)) refl

-- Where neither stream can be read the loop goes round for ever.
endless :
    (clock : Clock) (names : Accounts) (depth : ℕ) (k : ℕ) (d : Dialog) (fs : Fs)
    → good d.myin ≡ false
    → good d.cin ≡ false
    → main_loop k clock names depth d fs ≡ out_of_fuel
endless clock names depth zero d fs bad bad' = out_of_rounds clock names depth d fs
endless clock names depth (suc k) d fs bad bad' =
    let t : Stream = record (d.cin) { failed = true } in
    let still : good t ≡ false = ground arith in
    silent_round clock names depth k d t fs bad (bad_read d.cin bad')
    ∙ endless (later clock) names depth k (note (b' ' ∷ []) (record d { cin = t })) fs bad still

ended_input :
    (clock : Clock) (names : Accounts) (depth : ℕ) (k : ℕ) (d : Dialog) (fs : Fs)
    → good d.myin ≡ false
    → Offers d.cin []
    → main_loop k clock names depth d fs ≡ out_of_fuel
ended_input clock names depth zero d fs bad o = out_of_rounds clock names depth d fs
ended_input clock names depth (suc k) d fs bad o =
    let (t, e, after) = read_two_end d.cin o in
    silent_round clock names depth k d t fs bad e
    ∙ endless (later clock) names depth k (note (b' ' ∷ []) (record d { cin = t })) fs bad after

module _ (clock : Clock) (names : Accounts) (depth : ℕ) where
  -- The program with no file whose input is commands that are recorded in full and then ends makes the calls of those
  -- commands, and where they return it goes round for ever: no number of rounds is enough.
  pub ended-Session :
      (k : ℕ) (es : List Entry) (rs : List Request)
      → Session es rs
      → my_main (length es + k) clock names depth none (texts es [])
        ≡ (initialize (clock 0) >>= λ _.
              run_all (later clock) names depth rs >>= λ _. λ fs. out_of_fuel)
            empty_fs
  unfolding my_main
  ended-Session k es rs session =
      let d : Dialog = record {
        myin = opened none;
        cin = stream_of (texts es []);
        recorded = [];
      } in
      let offered : Offers d.cin (texts es []) = record {
        not_at_eof = refl;
        not_failed = refl;
        holds = refl;
      } in
      let b : Behind (later clock) names depth (from_typed (opened none)) d es rs [] =
        main_loop-texts (later clock) names depth (from_typed (opened none)) d es rs [] session
          (offered, (refl, refl)) in
      let unread : good b.next.myin ≡ false = ap good (b.fed.1.0) in
      same_then (initialize (clock 0) empty_fs)
        (λ _. main_loop (length es + k) (later clock) names depth d)
        (λ _. run_all (later clock) names depth rs >>= λ _. λ fs. out_of_fuel)
        λ u fs.
          ap (λ n. main_loop n (later clock) names depth d fs) (sym (rounds_of-length es k))
          ∙ b.served k fs
          ∙ same_then (run_all (later clock) names depth rs fs)
              (λ _. main_loop k (past es (later clock)) names depth b.next) (λ _. λ hs. out_of_fuel)
              λ v gs. ended_input (past es (later clock)) names depth k b.next gs unread (b.fed.0)
