-- ===== src/Contents/Truncate.antt =====
-- `my_truncate`: what the file then holds.
use mathlib.Core.Path.{fun_ext}
use cs179f_bbfs_project.Base.{
  ℕ, ◌-◌, ◌^◌, ◌<◌, ◌≤◌, ◌≡◌, ◌≢◌, refl, sym, ap, ◌∙◌, false, ◌++◌, arith, ◌==◌, append-nil, length,
  length-append, length-take, length-replicate, take, replicate, take_all, take-append_left, Bytes,
}
use cs179f_bbfs_project.Base.Words.{is_neg}
use cs179f_bbfs_project.State.{ok, File, Fs, done, file_at, touch, update, s_isdir, s_islnk}
use cs179f_bbfs_project.State.View.{state_of_done}
use cs179f_bbfs_project.State.Effects.{
  View, set_at, set_at_self, set_at_other, set_at_back, file_at-update_as, file_at-touch_as,
}
use cs179f_bbfs_project.Resolve.View.{real_ino}
use cs179f_bbfs_project.Resolve.Follow.{IsFollowable, followed, find_ino_as}
use cs179f_bbfs_project.Resolve.Compose.{resolve-Extends}
use cs179f_bbfs_project.Resolve.Grow.{set_at-Extends}
use cs179f_bbfs_project.Contents.{resize, my_ftruncate, my_truncate}

-- The bytes up to a size, and zero bytes where there are fewer.
abbrev pub cut_or_filled : ℕ → Bytes → Bytes
cut_or_filled n s = take n s ++ replicate (n - length s) 0

abbrev pub with_size : ℕ → File → File
with_size n f = record f {
  bytes = cut_or_filled n f.bytes;
  metadata = record (f.metadata) { st_size = n };
}

length-cut_or_filled : (n : ℕ) (s : Bytes) → length (cut_or_filled n s) ≡ n
length-cut_or_filled n s =
    let zeros : length {A = ℕ} (replicate (n - length s) 0) ≡ n - length s =
      length-replicate (n - length s) 0 in
    omega (arith, length-append (take n s) (replicate (n - length s) 0), length-take n s, zeros)

-- The change as the code makes it.
abbrev stored : ℕ → File → File
stored n f = record f {
  bytes = cut_or_filled n f.bytes;
  metadata = record (f.metadata) { st_size = length (cut_or_filled n f.bytes) };
}

stored-with_size : (n : ℕ) → stored n ≡ with_size n
stored-with_size n = fun_ext (λ f.
    ap
      (λ k. record f {
        bytes = cut_or_filled n f.bytes;
        metadata = record (f.metadata) { st_size = k };
      })
      (length-cut_or_filled n f.bytes))

-- What `my_truncate` accepts: a path that leads to a file that is no directory, and a size that is not
-- negative.
pub record IsResizable (v : View) (path : Bytes) (n : ℕ) : Type 0 where
  pub followable : IsFollowable v path
  pub some_file : followed v path ≢ 0
  pub no_dir : s_isdir (v (followed v path)).metadata.st_mode ≡ false
  pub size_fits : n < 2 ^ 63

-- `my_truncate` gives the file at the path the size asked for: its bytes up to there, or all of them
-- and zero bytes behind them. Its `st_size` is that size, and nothing else changes.
pub my_truncate-with_size :
    (path : Bytes) (n : ℕ) (fs : Fs)
    → IsResizable (file_at fs) path n
    → (gs : Fs) × (my_truncate path n fs ≡ done ok gs)
      × (file_at gs ≡ set_at (followed (file_at fs) path) (with_size n) (file_at fs))
unfolding my_truncate my_ftruncate resize
my_truncate-with_size path n fs h =
    let v = file_at fs in
    let fh = followed v path in
    let (gs, run, e) = find_ino_as path fs v refl h.followable in
    let e1 = file_at-touch_as fh gs v e in
    let e2 = file_at-touch_as fh (touch fh gs) v e1 in
    let signed : is_neg n ≡ false = ground (arith, h.size_fits) in
    let nz : (fh == 0) ≡ false = ground (arith, h.some_file) in
    (
      update fh (stored n) (touch fh (touch fh gs)),
      rw (signed, run, nz, e, h.no_dir, e1, h.no_dir),
      file_at-update_as fh (stored n) _ v e2 ∙ ap (λ g. set_at fh g v) (stored-with_size n),
    )

grown_back : (n : ℕ) (s : Bytes) → length s ≤ n → cut_or_filled (length s) (cut_or_filled n s) ≡ s
grown_back n s le =
    let zeros : Bytes = replicate (n - length s) 0 in
    let grown : cut_or_filled n s ≡ s ++ zeros = ap (λ x. x ++ zeros) (take_all n s le) in
    let enough : length s - length (cut_or_filled n s) ≡ 0 =
      omega (arith, le, length-cut_or_filled n s) in
    let cut : take (length s) (cut_or_filled n s) ≡ s =
      ap (take (length s)) grown ∙ take-append_left (length s) s zeros refl in
    rw (enough, cut) (append-nil s)

-- A file that is made longer and then cut to the length that it had is as it was, and so is every
-- other file. Its `st_size` was its length, and no link stands at the path's end.
pub my_truncate-my_truncate :
    (path : Bytes) (n : ℕ) (fs gs : Fs)
    → IsResizable (file_at fs) path n
    → s_islnk (file_at fs (real_ino (file_at fs) path)).metadata.st_mode ≡ false
    → s_isdir (file_at fs 0).metadata.st_mode ≡ false
    → length (file_at fs (real_ino (file_at fs) path)).bytes ≤ n
    → (file_at fs (real_ino (file_at fs) path)).metadata.st_size
      ≡ length (file_at fs (real_ino (file_at fs) path)).bytes
    → my_truncate path n fs ≡ done ok gs
    → (hs : Fs) × (my_truncate path (length (file_at fs (real_ino (file_at fs) path)).bytes) gs
        ≡ done ok hs)
      × (file_at hs ≡ file_at fs)
my_truncate-my_truncate path n fs gs h no_link zero le sized run =
    let v = file_at fs in
    let u = file_at gs in
    let fh = real_ino v path in
    let m = length (v fh).bytes in
    let direct : followed v path ≡ fh = rw no_link in
    let (gs', run', e') = my_truncate-with_size path n fs h in
    let e : u ≡ set_at fh (with_size n) v =
      ap file_at (state_of_done (sym run ∙ run')) ∙ e' ∙ rw direct in
    let nz : fh ≢ 0 = rw direct at h.some_file in
    let leads : real_ino u path ≡ fh =
      ap (λ w. real_ino w path) e
      ∙ resolve-Extends _ _ _ _ (set_at-Extends v fh (with_size n) (λ d. d) refl) zero nz in
    let file : u fh ≡ with_size n (v fh) = ap (λ w. w fh) e ∙ set_at_self v fh (with_size n) in
    let plain : s_islnk (u (real_ino u path)).metadata.st_mode ≡ false =
      rw leads (ap (λ (f : File). s_islnk f.metadata.st_mode) file ∙ no_link) in
    let again : followed u path ≡ fh = rw plain leads in
    let no_dir : s_isdir (v fh).metadata.st_mode ≡ false = rw direct at h.no_dir in
    let ready : IsResizable u path m = record {
      followable = λ lnk. cc (lnk, plain);
      some_file = rw again nz;
      no_dir = rw again (ap (λ (f : File). s_isdir f.metadata.st_mode) file ∙ no_dir);
      size_fits = omega (arith, le, h.size_fits);
    } in
    let (hs, cut, back) = my_truncate-with_size path m gs ready in
    let bytes : cut_or_filled m (cut_or_filled n (v fh).bytes) ≡ (v fh).bytes =
      grown_back n (v fh).bytes le in
    let same : with_size m (u fh) ≡ v fh =
      ap (with_size m) file
      ∙ ap (λ b. record (v fh) { bytes = b; metadata = record ((v fh).metadata) { st_size = m } })
          bytes
      ∙ ap (λ k. record (v fh) { metadata = record ((v fh).metadata) { st_size = k } })
          (sym sized) in
    let whole : set_at fh (with_size m) u ≡ v =
      set_at_back v u fh (with_size m) same
        (λ i other. ap (λ w. w i) e ∙ set_at_other v fh (with_size n) i other) in
    (hs, cut, back ∙ rw again whole)
