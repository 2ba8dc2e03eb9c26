-- ===== src/Console/Replay/Fed.antt =====
-- What the questions of `main` in ProjectWOFuse/src/my_stubs.cc read, and record, where their answer stands
-- in the input.
use cs179f_bbfs_project.Base.{
  ℕ, ◌^◌, ◌<◌, ◌≡◌, refl, ap, ◌∙◌, Bool, true, false, Option, some, ◌++◌, append_assoc,
  if◌then◌else◌, Bytes,
}
use cs179f_bbfs_project.Console.Input.{
  Stream, good, read_word, read_number, unsigned_target, with_base, digits,
}
use cs179f_bbfs_project.Console.Input.Scan.{
  IsBase, IsWord, Offers, read_word_lem, octal, decimal, read_number_lem,
}
use cs179f_bbfs_project.Console.Dialog.{
  Dialog, Request, idle, Reader, from_input, note, reset_cin, or_empty, noted_number, ask_mode,
  ask_id, ask_path,
}
use cs179f_bbfs_project.Console.Replay.{line}

-- Where the input comes from: the file, with a `cin` that has not failed, or `cin` behind a file that
-- is not read.
pub data Source : Type 0 where
  from_file : (cin : Stream) → Source
  from_typed : (myin : Stream) → Source

-- A dialog whose input is a text.
abbrev pub Fed : Source → Dialog → Bytes → Type 0
Fed (from_file c) d x = Offers d.myin x × ((d.cin ≡ c) × (c.failed ≡ false))
Fed (from_typed m) d x = Offers d.cin x × ((d.myin ≡ m) × (good m ≡ false))

-- A dialog after more was read, and nothing recorded.
pub record After (src : Source) (d next : Dialog) (x : Bytes) : Type 0 where
  pub fed : Fed src next x
  pub same : next.recorded ≡ d.recorded

good_offered : (s : Stream) (x : Bytes) → Offers s x → good s ≡ true
good_offered s x o = rw (o.not_at_eof, o.not_failed) refl

-- What a source gives is read as from a stream that offers it.
pub from_input-Fed :
    {A : Type 0} (src : Source) (d : Dialog) (read : Stream → A × Stream) (a : A) (x y : Bytes)
    → ((s : Stream) → Offers s x → (t : Stream) × (read s ≡ (a, t)) × Offers t y)
    → Fed src d x
    → (next : Dialog) × (from_input read d ≡ (a, next)) × After src d next y
unfolding from_input
from_input-Fed (from_file c) d read a x y h (o, (same, sound)) =
    let (t, e, after) = h d.myin o in
    (
      record d { myin = t },
      rw (good_offered d.myin x o, e) refl,
      record { fed = (after, (same, sound)); same = refl },
    )
from_input-Fed (from_typed m) d read a x y h (o, (same, bad)) =
    let (t, e, after) = h d.cin o in
    let no_file : good d.myin ≡ false = ap good same ∙ bad in
    (record d { cin = t }, rw (no_file, e) refl, record { fed = (after, (same, bad)); same = refl })

pub reset_cin-Fed : (src : Source) (d : Dialog) (x : Bytes) → Fed src d x → reset_cin d ≡ (false, d)
unfolding reset_cin
reset_cin-Fed (from_file c) d x (o, (same, sound)) =
    let fine : d.cin.failed ≡ false = ap (λ s. s.failed) same ∙ sound in rw fine refl
reset_cin-Fed (from_typed m) d x (o, h) = rw (o.not_failed) refl

pub note-Fed : (src : Source) (d : Dialog) (text x : Bytes) → Fed src d x → Fed src (note text d) x
note-Fed (from_file c) d text x h = h
note-Fed (from_typed m) d text x h = h

pub note-line :
    (d : Dialog) (text t : Bytes) → (note text d).recorded ++ t ≡ d.recorded ++ line text t
note-line d text t = simp append_assoc

-- A number or a path that was read and recorded.
pub record Noted (src : Source) (d next : Dialog) (text x : Bytes) : Type 0 where
  pub fed : Fed src next x
  pub written : (t : Bytes) → next.recorded ++ t ≡ d.recorded ++ line text t

pub Noted-After :
    (src : Source) (d next : Dialog) (text x : Bytes)
    → After src d next x
    → Noted src d (note text next) text x
Noted-After src d next text x a = record {
  fed = note-Fed src next text x a.fed;
  written = λ t. note-line next text t ∙ ap (λ r. r ++ line text t) a.same;
}

noted_number_lem :
    (base : ℕ) (next : ℕ → Reader) (n : ℕ) (d : Dialog)
    → reset_cin d ≡ (false, d)
    → noted_number base next (some n, d) ≡ next n (note (digits base n) d)
unfolding noted_number
noted_number_lem base next n d sound =
    ap (λ (p : Bool × Dialog). if p.0 then some (idle, p.1) else next n (note (digits base n) p.1))
      sound

-- A number that is read in a base and recorded in it.
number_Fed :
    {base : ℕ} (b : IsBase base) (src : Source) (d : Dialog) (next : ℕ → Reader) (n : ℕ) (x : Bytes)
    → Fed src d (line (digits base n) x)
    → n < 2 ^ 32
    → (after : Dialog) × (noted_number base next
          (from_input (λ s. read_number unsigned_target (with_base base s)) d)
        ≡ next n after)
      × Noted src d after (digits base n) x
number_Fed {base} b src d next n x h fits =
    let (d1, e, a) =
      from_input-Fed src d (λ s. read_number unsigned_target (with_base base s)) (some n)
        (line (digits base n) x) x (λ s o. read_number_lem b s n x b'\n' o fits refl) h in
    (
      note (digits base n) d1,
      ap (noted_number base next) e
          ∙ noted_number_lem base next n d1 (reset_cin-Fed src d1 x a.fed),
      Noted-After src d d1 (digits base n) x a,
    )

pub ask_mode-Fed :
    (src : Source) (d : Dialog) (f : ℕ → Request) (m : ℕ) (x : Bytes)
    → Fed src d (line (digits 8 m) x)
    → m < 2 ^ 32
    → (next : Dialog) × (ask_mode f d ≡ some (f m, next)) × Noted src d next (digits 8 m) x
unfolding ask_mode
ask_mode-Fed src d f m x h fits = number_Fed octal src d (λ mode d'. some (f mode, d')) m x h fits

pub ask_id-Fed :
    (src : Source) (d : Dialog) (f : ℕ → Reader) (n : ℕ) (x : Bytes)
    → Fed src d (line (digits 10 n) x)
    → n < 2 ^ 32
    → (next : Dialog) × (ask_id f d ≡ f n next) × Noted src d next (digits 10 n) x
unfolding ask_id
ask_id-Fed src d f n x h fits = number_Fed decimal src d f n x h fits

path_read :
    (f : Bytes → Request) (p : Bytes) (d d1 : Dialog)
    → from_input read_word d ≡ (some p, d1)
    → ask_path f d ≡ some (f p, note p d1)
unfolding ask_path
path_read f p d d1 e =
    ap (λ (q : Option Bytes × Dialog). some (f (or_empty q.0), note (or_empty q.0) q.1)) e

pub ask_path-Fed :
    (src : Source) (d : Dialog) (f : Bytes → Request) (p x : Bytes)
    → Fed src d (line p x)
    → IsWord p
    → (next : Dialog) × (ask_path f d ≡ some (f p, next)) × Noted src d next p x
ask_path-Fed src d f p x h word =
    let (d1, e, a) =
      from_input-Fed src d read_word (some p) (line p x) x
        (λ s o. read_word_lem s p x b'\n' o word refl) h in
    (note p d1, path_read f p d d1 e, Noted-After src d d1 p x a)
