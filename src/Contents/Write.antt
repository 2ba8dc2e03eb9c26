-- ===== src/Contents/Write.antt =====
-- What `my_pwrite` writes, and that `my_pread` reads it back.
use mathlib.Core.Path.{ap₂}
use cs179f_bbfs_project.Base.{
  ℕ, ◌+◌, ◌-◌, ◌^◌, ◌≤◌, ◌<◌, ◌≡◌, ◌≢◌, refl, sym, ap, ◌∙◌, true, false, some, [], ◌∷◌, ◌++◌, arith,
  ◌==◌, ltb, leb, append_assoc, Bytes, NoNul, length, get_elem?, set, take, drop, replicate,
  c_str_id, length-append, length-take, length-drop, length-replicate, take_all, take-append-drop,
  take-append_left, drop-append_left,
}
use cs179f_bbfs_project.State.{File, Fs, done, file_at, touch, update, s_isreg, s_isdir}
use cs179f_bbfs_project.State.View.{file_at-update_self, state_of_done, update_eq, file_at-touch}
use cs179f_bbfs_project.Resolve.{my_pread}
use cs179f_bbfs_project.Resolve.Read.{my_pread_lem}
use cs179f_bbfs_project.Contents.{my_pwrite, write_loop, resize, char_at}

set_middle :
    (pre : Bytes) (m c : ℕ) (post : Bytes) → set (pre ++ m ∷ post) (length pre) c ≡ pre ++ c ∷ post
set_middle [] m c post = refl
set_middle (x ∷ pre) m c post = ap (λ t. x ∷ t) (set_middle pre m c post)

get_middle : (u : Bytes) (c : ℕ) (t : Bytes) → get_elem? (u ++ c ∷ t) (length u) ≡ some c
get_middle [] c t = refl
get_middle (x ∷ u) c t = get_middle u c t

char_at_middle : (u : Bytes) (c : ℕ) (t : Bytes) → char_at (u ++ c ∷ t) (length u) ≡ some c
unfolding char_at
char_at_middle u c t =
    let short : (length u == length (u ++ c ∷ t)) ≡ false =
      ground (arith, length-append u (c ∷ t)) in
    rw short (get_middle u c t)

-- The loop puts the rest `t` of the text over as many bytes `mid`.
write_loop_middle :
    (t mid pre post u : Bytes) (i j : ℕ)
    → length mid ≡ length t
    → i ≡ length pre
    → j ≡ length u
    → write_loop (length t) (pre ++ (mid ++ post)) i (u ++ t) j ≡ some (pre ++ (t ++ post))
unfolding write_loop
write_loop_middle [] [] pre post u i j e ei ej = refl
write_loop_middle [] (m ∷ mid) pre post u i j e ei ej = absurd (omega arith)
write_loop_middle (c ∷ t) [] pre post u i j e ei ej = absurd (omega arith)
write_loop_middle (c ∷ t) (m ∷ mid) pre post u i j e ei ej =
    let inside : ltb i (length (pre ++ (m ∷ (mid ++ post)))) ≡ true =
      ground (arith, length-append pre (m ∷ (mid ++ post))) in
    let got : char_at (u ++ c ∷ t) j ≡ some c = rw ej (char_at_middle u c t) in
    let put : set (pre ++ m ∷ (mid ++ post)) i c ≡ pre ++ c ∷ (mid ++ post) =
      rw ei (set_middle pre m c (mid ++ post)) in
    let more : write_loop (length t) ((pre ++ c ∷ []) ++ (mid ++ post)) (i + 1) ((u ++ c ∷ []) ++ t)
          (j + 1)
        ≡ some ((pre ++ c ∷ []) ++ (t ++ post)) =
      write_loop_middle t mid (pre ++ c ∷ []) post (u ++ c ∷ []) (i + 1) (j + 1) (omega arith)
        (omega (arith, length-append pre (c ∷ []))) (omega (arith, length-append u (c ∷ []))) in
    rw (inside, got, put) (simp append_assoc at more)

-- `buf` put over the bytes of `s` from `offset` on.
abbrev pub overwrite : Bytes → ℕ → Bytes → Bytes
overwrite s offset buf = take offset s ++ (buf ++ drop (length buf) (drop offset s))

-- The bytes of a file after a write: as many zero bytes as the text is long are put at its end, and
-- the text goes over them or over what stood before.
abbrev pub written : Bytes → ℕ → Bytes → Bytes
written s offset buf = overwrite (s ++ replicate (length buf) 0) offset buf

length-zeros : (s buf : Bytes) → length (s ++ replicate (length buf) 0) ≡ length s + length buf
length-zeros s buf =
    omega
      (arith, length-append s (replicate (length buf) 0), length-replicate {A = ℕ} (length buf) 0)

resize_longer : (s : Bytes) (n : ℕ) → resize (length s + n) s ≡ s ++ replicate n 0
unfolding resize
resize_longer s n =
    let e : length s + n - length s ≡ n = omega arith in
    rw (take_all (length s + n) s (omega arith), e)

write_loop-written :
    (s buf : Bytes) (offset : ℕ)
    → offset ≤ length s
    → write_loop (length buf) (s ++ replicate (length buf) 0) offset buf 0
      ≡ some (written s offset buf)
write_loop-written s buf offset h =
    let x : Bytes = s ++ replicate (length buf) 0 in
    let whole : take offset x
          ++ (take (length buf) (drop offset x) ++ drop (length buf) (drop offset x))
        ≡ x =
      ap (λ t. take offset x ++ t) (take-append-drop (length buf) (drop offset x))
      ∙ take-append-drop offset x in
    let middle =
      write_loop_middle buf (take (length buf) (drop offset x)) (take offset x)
        (drop (length buf) (drop offset x)) [] offset 0
        (omega (
          arith,
          length-take (length buf) (drop offset x),
          length-drop offset x,
          length-zeros s buf,
        ))
        (omega (arith, length-take offset x, length-zeros s buf)) refl in
    ap (λ t. write_loop (length buf) t offset buf 0) (sym whole) ∙ middle

-- The file after `my_pwrite` has written the text `buf`.
abbrev pub after_write : Bytes → ℕ → File → File
after_write buf offset f = record f {
  bytes = written f.bytes offset buf;
  metadata = record (f.metadata) { st_size = length buf };
}

-- A text without NUL is written to a regular file at a position inside it or at its end, where the
-- file stays below 2 ^ 31 bytes: all bytes
-- are written, the file grows by their number wherever they go, and `st_size` becomes that number.
pub my_pwrite-written :
    (fh : ℕ) (buf : Bytes) (offset : ℕ) (fs : Fs)
    → fh ≢ 0
    → s_isreg (file_at fs fh).metadata.st_mode ≡ true
    → NoNul buf
    → offset ≤ length (file_at fs fh).bytes
    → length (file_at fs fh).bytes + length buf < 2 ^ 31
    → my_pwrite fh buf (length buf) offset fs
      ≡ done (length buf) (update fh (after_write buf offset) (touch fh fs))
unfolding my_pwrite
my_pwrite-written fh buf offset fs nz reg text inside fit =
    let f = file_at fs fh in
    let nz' : (fh == 0) ≡ false = ground (arith, nz) in
    let small : leb (2 ^ 31) (length f.bytes + length buf) ≡ false = ground arith in
    let here : ltb (length f.bytes) offset ≡ false = ground arith in
    rw
      (
        nz',
        reg,
        small,
        here,
        c_str_id buf text,
        resize_longer f.bytes (length buf),
        write_loop-written f.bytes buf offset inside,
      )
      (ap₂ done (omega arith) (
        update_eq fh
          (λ f'. record f' {
            bytes = written f.bytes offset buf;
            metadata = record (f'.metadata) { st_size = length buf };
          })
          (after_write buf offset) (touch fh fs) (rw file_at-touch)))

length-written :
    (s : Bytes) (offset : ℕ) (buf : Bytes)
    → offset ≤ length s
    → length (written s offset buf) ≡ length s + length buf
length-written s offset buf h =
    let x : Bytes = s ++ replicate (length buf) 0 in
    omega (
      arith,
      length-append (take offset x) (buf ++ drop (length buf) (drop offset x)),
      length-append buf (drop (length buf) (drop offset x)),
      length-take offset x,
      length-drop offset x,
      length-drop (length buf) (drop offset x),
      length-zeros s buf,
    )

read_written :
    (s : Bytes) (offset : ℕ) (buf : Bytes)
    → offset ≤ length s
    → take (length buf) (drop offset (written s offset buf)) ≡ buf
read_written s offset buf h =
    let x : Bytes = s ++ replicate (length buf) 0 in
    rw
      (drop-append_left offset (take offset x) (buf ++ drop (length buf) (drop offset x))
        (omega (arith, length-take offset x, length-zeros s buf)))
      (take-append_left (length buf) buf (drop (length buf) (drop offset x)) refl)

reg_not_dir : (mode : ℕ) → s_isreg mode ≡ true → s_isdir mode ≡ false
reg_not_dir mode h = ground arith

-- What `my_pwrite` has written to a regular file, inside it or at its end, `my_pread` reads back from
-- the same place, into any buffer with room for it and its NUL. The text has no NUL and is not empty,
-- and the file stays below 2 ^ 31 bytes.
pub my_pread-my_pwrite :
    (fh room : ℕ) (buf : Bytes) (offset : ℕ) (fs gs : Fs)
    → fh ≢ 0
    → s_isreg (file_at fs fh).metadata.st_mode ≡ true
    → NoNul buf
    → 0 < length buf
    → length buf < room
    → offset ≤ length (file_at fs fh).bytes
    → length (file_at fs fh).bytes + length buf < 2 ^ 31
    → my_pwrite fh buf (length buf) offset fs ≡ done (length buf) gs
    → my_pread fh room (length buf) offset gs ≡ done (length buf, some buf) (touch fh gs)
my_pread-my_pwrite fh room buf offset fs gs nz reg text pos fits inside small run =
    let f = file_at fs fh in
    let now : file_at gs fh ≡ after_write buf offset f =
      ap (λ s. file_at s fh)
        (state_of_done (sym run ∙ my_pwrite-written fh buf offset fs nz reg text inside small))
      ∙ file_at-update_self fh (after_write buf offset) (touch fh fs)
      ∙ rw file_at-touch in
    let len : length (file_at gs fh).bytes ≡ length f.bytes + length buf =
      ap (λ (g : File). length g.bytes) now ∙ length-written f.bytes offset buf inside in
    let kind : s_isdir (file_at gs fh).metadata.st_mode ≡ false =
      rw now (reg_not_dir f.metadata.st_mode reg) in
    let got : take (length buf) (drop offset (file_at gs fh).bytes) ≡ buf =
      rw now (read_written f.bytes offset buf inside) in
    let past : ltb (length (file_at gs fh).bytes) offset ≡ false = ground arith in
    let short : ltb (length (file_at gs fh).bytes) (offset + length buf - 1) ≡ false =
      ground arith in
    let room_ok : ltb (length buf) room ≡ true = ground arith in
    my_pread_lem fh room (length buf) offset gs (omega arith) pos (omega arith)
    ∙ rw (kind, past, short, got, c_str_id buf text, room_ok)
