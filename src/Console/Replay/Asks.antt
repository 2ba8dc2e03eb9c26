-- ===== src/Console/Replay/Asks.antt =====
-- A command that stands in the input of `main` in ProjectWOFuse/src/my_stubs.cc: what is asked for, and what
-- is recorded.
use cs179f_bbfs_project.Base.{
  ℕ, ◌≡◌, refl, sym, ap, ◌∙◌, inl, inr, Bool, true, false, Option, none, some, ◌∷◌, ◌++◌,
  append_assoc, if◌then◌else◌, Bytes, bytes_beq, bytes_beq_iff, Bool-cases, codes,
}
use cs179f_bbfs_project.Console.Input.{Stream, digits}
use cs179f_bbfs_project.Console.Input.Scan.{IsWord, Offers, read_word_lem}
use cs179f_bbfs_project.Console.Dialog.{
  Dialog, Request, command, list_files, list_tree, idle, leave, stop, Reader, note, ask_mode,
  ask_id, ask_path, Op, help, play, save, mkdir_op, rmdir_op, show_op, ls_op, lstat_op, exit,
  break_op, lslr, creat_op, touch, chown_op, chmod_op, access_op, link_op, unlink_op, cwd,
  rename_op, pread_op, pwrite_op, symlink_op, readlink_op, utime_op, truncate_op, statvfs_op,
  lsetxattr_op, lgetxattr_op, lremovexattr_op, llistxattr_op, unknown, op_table, find_op, ask,
  read_two, dispatch, read_request,
}
use cs179f_bbfs_project.Console.Replay.{
  Shape, plain, needs_mode, needs_ids, needs_path, other, shape, Rest, no_more, a_mode, ids, a_path,
  Entry, request_of, line, rest_text, entry_text, IsRest, IsEntry,
}
use cs179f_bbfs_project.Console.Replay.Fed.{
  Source, Fed, from_input-Fed, Noted, Noted-After, ask_mode-Fed, ask_id-Fed, ask_path-Fed,
}

-- A request that does not end the loop.
abbrev pub goes_on : Request → Bool
goes_on (command c) = true
goes_on (list_files file) = true
goes_on (list_tree file) = true
goes_on idle = true
goes_on (leave file) = false
goes_on stop = false

-- What an op's branch does, as its shape says, and that the loop goes on.
abbrev pub AskedAs : Shape → Reader → Type 0
AskedAs (plain r) a = (a ≡ λ d. some (r, d)) × (goes_on r ≡ true)
AskedAs (needs_mode f) a = (a ≡ ask_mode f) × ((m : ℕ) → goes_on (f m) ≡ true)
AskedAs (needs_ids f) a =
    (a ≡ ask_id (λ u. ask_id (λ g d. some (f u g, d)))) × ((u g : ℕ) → goes_on (f u g) ≡ true)
AskedAs (needs_path f) a = (a ≡ ask_path f) × ((p : Bytes) → goes_on (f p) ≡ true)
AskedAs other a = Unit {0}

asked_as : (o : Op) (file : Bytes) → AskedAs (shape o file) (ask o file)
unfolding shape ask
asked_as mkdir_op file = (refl, λ x. refl)
asked_as creat_op file = (refl, λ x. refl)
asked_as touch file = (refl, λ x. refl)
asked_as chmod_op file = (refl, λ x. refl)
asked_as access_op file = (refl, λ x. refl)
asked_as chown_op file = (refl, λ u g. refl)
asked_as link_op file = (refl, λ x. refl)
asked_as rename_op file = (refl, λ x. refl)
asked_as rmdir_op file = (refl, refl)
asked_as show_op file = (refl, refl)
asked_as ls_op file = (refl, refl)
asked_as lstat_op file = (refl, refl)
asked_as lslr file = (refl, refl)
asked_as unlink_op file = (refl, refl)
asked_as readlink_op file = (refl, refl)
asked_as statvfs_op file = (refl, refl)
asked_as llistxattr_op file = (refl, refl)
asked_as help file = (refl, refl)
asked_as play file = (refl, refl)
asked_as save file = (refl, refl)
asked_as cwd file = (refl, refl)
asked_as unknown file = (refl, refl)
asked_as exit file = tt
asked_as break_op file = tt
asked_as pread_op file = tt
asked_as pwrite_op file = tt
asked_as symlink_op file = tt
asked_as utime_op file = tt
asked_as truncate_op file = tt
asked_as lsetxattr_op file = tt
asked_as lgetxattr_op file = tt
asked_as lremovexattr_op file = tt

-- A command that was read whole.
pub record Asked (src : Source) (d : Dialog) (out : Option (Request × Dialog)) (r : Request)
    (text : Bytes → Bytes) (x : Bytes) : Type 0 where
  pub next : Dialog
  pub asked : out ≡ some (r, next)
  pub fed : Fed src next x
  pub written : (t : Bytes) → next.recorded ++ t ≡ d.recorded ++ text t
  pub on : goes_on r ≡ true

abbrev at_dialog : Dialog → Option Request → Option (Request × Dialog)
at_dialog d none = none
at_dialog d (some q) = some (q, d)

-- What was asked for, with the dialog that is left.
found : {q r : Request} (d : Dialog) → some q ≡ some r → at_dialog d (some q) ≡ at_dialog d (some r)
found d e = ap (at_dialog d) e

abbrev may_go_on : Option Request → Bool
may_go_on none = false
may_go_on (some q) = goes_on q

still_on : {q r : Request} → some q ≡ some r → goes_on q ≡ true → goes_on r ≡ true
still_on e h = sym (ap may_go_on e) ∙ h

by_shape :
    (src : Source) (d : Dialog) (r : Request) (x : Bytes) (s : Shape) (more : Rest) (a : Reader)
    → AskedAs s a
    → request_of s more ≡ some r
    → IsRest more
    → Fed src d (rest_text more x)
    → Asked src d (a d) r (rest_text more) x
by_shape src d r x (plain q) no_more a (is, on) asks ok h = record {
  next = d;
  asked = ap (λ b. b d) is ∙ found d asks;
  fed = h;
  written = λ t. refl;
  on = still_on asks on;
}
by_shape src d r x (needs_mode f) (a_mode m) a (is, on) asks ok h =
    let (d1, e, n) = ask_mode-Fed src d f m x h ok in
    record {
      next = d1;
      asked = ap (λ b. b d) is ∙ e ∙ found d1 asks;
      fed = n.fed;
      written = n.written;
      on = still_on asks (on m);
    }
by_shape src d r x (needs_ids f) (ids u g) a (is, on) asks (ok_u, ok_g) h =
    let after : ℕ → Reader = λ v d. some (f u v, d) in
    let (d1, e, n) =
      ask_id-Fed src d (λ v. ask_id (λ w d. some (f v w, d))) u (line (digits 10 g) x) h ok_u in
    let (d2, e', n') = ask_id-Fed src d1 after g x n.fed ok_g in
    record {
      next = d2;
      asked = ap (λ b. b d) is ∙ e ∙ e' ∙ found d2 asks;
      fed = n'.fed;
      written = λ t. n'.written t ∙ n.written (line (digits 10 g) t);
      on = still_on asks (on u g);
    }
by_shape src d r x (needs_path f) (a_path p) a (is, on) asks ok h =
    let (d1, e, n) = ask_path-Fed src d f p x h ok in
    record {
      next = d1;
      asked = ap (λ b. b d) is ∙ e ∙ found d1 asks;
      fed = n.fed;
      written = n.written;
      on = still_on asks (on p);
    }
by_shape src d r x (plain q) (a_mode m) a is asks ok h = cc asks
by_shape src d r x (plain q) (ids u g) a is asks ok h = cc asks
by_shape src d r x (plain q) (a_path p) a is asks ok h = cc asks
by_shape src d r x (needs_mode f) no_more a is asks ok h = cc asks
by_shape src d r x (needs_mode f) (ids u g) a is asks ok h = cc asks
by_shape src d r x (needs_mode f) (a_path p) a is asks ok h = cc asks
by_shape src d r x (needs_ids f) no_more a is asks ok h = cc asks
by_shape src d r x (needs_ids f) (a_mode m) a is asks ok h = cc asks
by_shape src d r x (needs_ids f) (a_path p) a is asks ok h = cc asks
by_shape src d r x (needs_path f) no_more a is asks ok h = cc asks
by_shape src d r x (needs_path f) (a_mode m) a is asks ok h = cc asks
by_shape src d r x (needs_path f) (ids u g) a is asks ok h = cc asks
by_shape src d r x other no_more a is asks ok h = cc asks
by_shape src d r x other (a_mode m) a is asks ok h = cc asks
by_shape src d r x other (ids u g) a is asks ok h = cc asks
by_shape src d r x other (a_path p) a is asks ok h = cc asks

-- `exit`, which is not recorded, is not read back.
other_none : (more : Rest) → request_of other more ≡ none
other_none no_more = refl
other_none (a_mode m) = refl
other_none (ids u g) = refl
other_none (a_path p) = refl

exit_other : (file : Bytes) → shape (find_op (codes "exit") op_table) file ≡ other
unfolding find_op shape bytes_beq
exit_other file = refl

not_exit :
    (op file : Bytes) (more : Rest) (r : Request)
    → request_of (shape (find_op op op_table) file) more ≡ some r
    → bytes_beq op (codes "exit") ≡ false
not_exit op file more r e = elim (Bool-cases (bytes_beq op (codes "exit"))) [
  | inl is_exit ↦
      let same : op ≡ codes "exit" = (bytes_beq_iff op (codes "exit")).0 is_exit in
      let lost : shape (find_op op op_table) file ≡ other =
        ap (λ w. shape (find_op w op_table) file) same ∙ exit_other file in
      let nothing : none ≡ some r = sym (ap (λ s. request_of s more) lost ∙ other_none more) ∙ e in
      cc nothing
  | inr no_exit ↦ no_exit
]

pub read_two_lem :
    (op file : Bytes) (x : Bytes) (s : Stream)
    → IsWord op
    → IsWord file
    → Offers s (op ++ b' ' ∷ line file x)
    → (t : Stream) × (read_two s ≡ ((some op, some file), t)) × Offers t x
read_two_lem op file x s word word' o =
    let (t, e, o') = read_word_lem s op (line file x) b' ' o word refl in
    let (t', e', o'') = read_word_lem t file x b'\n' o' word' refl in (t', rw (e, e') refl, o'')

dispatch_lem :
    (op file : Bytes) (d : Dialog)
    → bytes_beq op (codes "exit") ≡ false
    → dispatch ((some op, some file), d)
      ≡ ask (find_op op op_table) file (note (op ++ b' ' ∷ file) d)
unfolding dispatch
dispatch_lem op file d e =
    ap (λ b. ask (find_op op op_table) file (if b then d else note (op ++ b' ' ∷ file) d)) e

-- A command that stands in the input is read, and recorded as it stands there.
pub read_request_lem :
    (src : Source) (d : Dialog) (e : Entry) (r : Request) (x : Bytes)
    → IsEntry e r
    → Fed src d (entry_text e x)
    → Asked src d (read_request d) r (entry_text e) x
unfolding read_request
read_request_lem src d e r x is h =
    let (d1, first, a) =
      from_input-Fed src d read_two (some e.op, some e.file) (entry_text e x) (rest_text e.more x)
        (λ s o. read_two_lem e.op e.file (rest_text e.more x) s is.op_word is.file_word o) h in
    let head : Bytes = e.op ++ b' ' ∷ e.file in
    let n : Noted src d (note head d1) head (rest_text e.more x) =
      Noted-After src d d1 head (rest_text e.more x) a in
    let o : Op = find_op e.op op_table in
    let q : Asked src (note head d1) (ask o e.file (note head d1)) r (rest_text e.more) x =
      by_shape src (note head d1) r x (shape o e.file) e.more (ask o e.file) (asked_as o e.file)
        is.asks is.rest n.fed in
    record {
      next = q.next;
      asked =
          ap dispatch first
          ∙ dispatch_lem e.op e.file d1 (not_exit e.op e.file e.more r is.asks)
          ∙ q.asked;
      fed = q.fed;
      written = λ t.
          q.written t
          ∙ n.written (rest_text e.more t)
          ∙ ap (λ u. d.recorded ++ u)
              (append_assoc e.op (b' ' ∷ e.file) (b'\n' ∷ rest_text e.more t));
      on = q.on;
    }
