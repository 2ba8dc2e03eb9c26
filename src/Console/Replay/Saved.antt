-- ===== src/Console/Replay/Saved.antt =====
-- The record that `exit` of ProjectWOFuse/src/my_stubs.cc saves, given back to `main` as its file.
use cs179f_bbfs_project.Base.{
  ℕ, ◌+◌, ◌≡◌, refl, sym, ap, ◌∙◌, none, some, List, [], ◌∷◌, ◌++◌, append_assoc, Bytes, codes,
  length,
}
use cs179f_bbfs_project.State.{◌>>=◌, Fs, Run, done, fault, out_of_fuel, pure, and_then, empty_fs}
use cs179f_bbfs_project.Create.{initialize}
use cs179f_bbfs_project.Console.Input.{digits}
use cs179f_bbfs_project.Console.Input.Scan.{IsWord}
use cs179f_bbfs_project.Console.Listing.{Accounts}
use cs179f_bbfs_project.Console.Dialog.{Request}
use cs179f_bbfs_project.Console.Loop.{Clock, later, Ending, saved, ended, my_main}
use cs179f_bbfs_project.Console.Replay.{
  Rest, no_more, a_mode, ids, a_path, rest_text, entry_text, Entry, line,
}
use cs179f_bbfs_project.Console.Replay.Sessions.{Session, texts, run_all, regroup}
use cs179f_bbfs_project.Console.Replay.Whole.{exit_text, typed-Session, replayed-Session}

rest_text_append : (r : Rest) (t u : Bytes) → rest_text r t ++ u ≡ rest_text r (t ++ u)
rest_text_append no_more t u = refl
rest_text_append (a_mode m) t u = append_assoc (digits 8 m) (b'\n' ∷ t) u
rest_text_append (ids v g) t u =
    append_assoc (digits 10 v) (b'\n' ∷ line (digits 10 g) t) u
    ∙ ap (line (digits 10 v)) (append_assoc (digits 10 g) (b'\n' ∷ t) u)
rest_text_append (a_path p) t u = append_assoc p (b'\n' ∷ t) u

entry_text_append : (e : Entry) (t u : Bytes) → entry_text e t ++ u ≡ entry_text e (t ++ u)
entry_text_append e t u =
    append_assoc e.op (b' ' ∷ line e.file (rest_text e.more t)) u
    ∙ ap (λ r. e.op ++ b' ' ∷ r)
        (append_assoc e.file (b'\n' ∷ rest_text e.more t) u
          ∙ ap (line e.file) (rest_text_append e.more t u))

abbrev saved_text : Ending → Bytes
saved_text (saved file text) = text
saved_text ended = []

texts_append : (es : List Entry) (t u : Bytes) → texts es t ++ u ≡ texts es (t ++ u)
texts_append [] t u = refl
texts_append (e ∷ es) t u =
    entry_text_append e (texts es t) u ∙ ap (entry_text e) (texts_append es t u)

last_pure :
    {A : Type 0} (q : Run (Unit {0})) (x y e : A) (gs : Fs)
    → and_then q (λ _. pure x) ≡ done e gs
    → (x ≡ e) × (and_then q (λ _. pure y) ≡ done y gs)
last_pure (done u hs) x y e gs h = let same : hs ≡ gs = cc h in (cc h, ap (done y) same)
last_pure fault x y e gs h = cc h
last_pure out_of_fuel x y e gs h = cc h

from_text :
    (clock : Clock) (names : Accounts) (depth : ℕ) (es : List Entry) (rs : List Request)
    (file text : Bytes)
    → Session es rs
    → IsWord file
    → texts es [] ≡ text
    → my_main (length es + 2) clock names depth (some text) (exit_text file)
      ≡ (initialize (clock 0) >>= λ _.
            run_all (later clock) names depth rs >>= λ _. pure (saved file (text ++ codes " \n")))
          empty_fs
from_text clock names depth es rs file text session word same_text =
    let end_text : texts es (codes " \n") ≡ text ++ codes " \n" =
      sym (texts_append es [] (codes " \n")) ∙ ap (λ t. t ++ codes " \n") same_text in
    ap (λ t. my_main (length es + 2) clock names depth (some t) (exit_text file)) (sym same_text)
    ∙ replayed-Session clock names depth es rs file session word
    ∙ ap
        (λ t.
          (initialize (clock 0) >>= λ _.
          run_all (later clock) names depth rs >>= λ _. pure (saved file t))
            empty_fs)
        end_text

-- A run of typed commands and `exit`, each command with input that is recorded in full (words, a mode
-- in octal below 2 ^ 32, or the two numbers of `chown`), is repeated from the text that it saved. The
-- program that gets the text as its file, and is then typed `exit`, makes the same calls in the same
-- order, each at the time that its own clock shows, and ends in one round more; the text that it
-- saves has a line of one space more. Where the clock shows the same times as in the first run, it
-- ends in the same state.
pub saved_replays :
    (clock clock' : Clock) (names : Accounts) (depth : ℕ) (es : List Entry) (rs : List Request)
    (file text : Bytes) (gs : Fs)
    → Session es rs
    → IsWord file
    → my_main (length es + 1) clock names depth none (texts es (exit_text file))
      ≡ done (saved file text) gs
    → (my_main (length es + 2) clock' names depth (some text) (exit_text file)
        ≡ (initialize (clock' 0) >>= λ _. run_all (later clock') names depth rs >>= λ _.
              pure (saved file (text ++ codes " \n")))
            empty_fs)
      × (my_main (length es + 2) clock names depth (some text) (exit_text file)
          ≡ done (saved file (text ++ codes " \n")) gs)
saved_replays clock clock' names depth es rs file text gs session word run =
    let calls : Run (Unit {0}) =
      and_then (initialize (clock 0) empty_fs) (λ _. run_all (later clock) names depth rs) in
    let first : Ending = saved file (texts es []) in
    let second : Ending = saved file (text ++ codes " \n") in
    let calls_made : and_then calls (λ _. pure first) ≡ done (saved file text) gs =
      sym (
        regroup (initialize (clock 0) empty_fs) (run_all (later clock) names depth rs) (pure first))
      ∙ sym (typed-Session clock names depth es rs file session word)
      ∙ run in
    let (same, again) = last_pure calls first second (saved file text) gs calls_made in
    let same_text : texts es [] ≡ text = ap saved_text same in
    (
      from_text clock' names depth es rs file text session word same_text,
      from_text clock names depth es rs file text session word same_text
          ∙ regroup (initialize (clock 0) empty_fs) (run_all (later clock) names depth rs)
              (pure second)
          ∙ again,
    )
