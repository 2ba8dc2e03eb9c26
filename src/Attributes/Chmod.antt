-- ===== src/Attributes/Chmod.antt =====
-- What `my_chmod` does to a regular file, as `my_access` and `my_pwrite` see it.
use cs179f_bbfs_project.Base.{
  ℕ, ◌/◌, ◌%◌, ◌^◌, ◌<◌, ◌≡◌, ◌≢◌, ◌↔◌, refl, sym, ap, ◌∙◌, inl, inr, true, false, arith, ◌==◌,
  Bool-cases, Bytes,
}
use cs179f_bbfs_project.State.{
  ok, an_err, File, Fs, done, new_file, has_entry, file_at, touch, update, with_mode, s_isdir,
  s_isreg, s_islnk,
}
use cs179f_bbfs_project.State.View.{file_at_absent}
use cs179f_bbfs_project.State.Effects.{
  View, set_at, set_at_self, file_at-update_as, file_at-touch_as,
}
use cs179f_bbfs_project.Resolve.View.{real_ino}
use cs179f_bbfs_project.Resolve.Follow.{followed, find_ino_as}
use cs179f_bbfs_project.Resolve.Compose.{resolve-Extends}
use cs179f_bbfs_project.Resolve.Grow.{set_at-Extends}
use cs179f_bbfs_project.Attributes.{check_access, my_fstat, my_access, my_chmod}
use cs179f_bbfs_project.Contents.{my_pwrite}

-- The three tests together compare the owner's bits.
check_access_lem :
    (mode mask : ℕ) → (check_access mode mask ≡ ok) ↔ ((mode / 64) % 8 ≡ (mask / 64) % 8)
unfolding check_access
check_access_lem mode mask = (λ e. ground (arith, e), λ e. ground (arith, e))

-- A file with a link count stands in the table.
counted_there :
    (fs : Fs) (v : View) (fh : ℕ)
    → file_at fs ≡ v
    → (v fh).metadata.st_nlink ≢ 0
    → has_entry fs fh ≡ true
counted_there fs v fh e counted = elim (Bool-cases (has_entry fs fh)) [
  | inl there ↦ there
  | inr gone ↦
      let empty : v fh ≡ new_file = ap (λ w. w fh) (sym e) ∙ file_at_absent fs fh gone in
      absurd (counted (ap (λ (f : File). f.metadata.st_nlink) empty))
]

-- A path to a regular file that has a link count, with no link at its end.
pub record IsRegularAt (v : View) (path : Bytes) : Type 0 where
  pub no_link : s_islnk (v (real_ino v path)).metadata.st_mode ≡ false
  pub regular : s_isreg (v (real_ino v path)).metadata.st_mode ≡ true
  pub some_file : real_ino v path ≢ 0
  pub counted : (v (real_ino v path)).metadata.st_nlink ≢ 0
  pub zero_no_dir : s_isdir (v 0).metadata.st_mode ≡ false

access_lem :
    (path : Bytes) (mask mode : ℕ) (gs : Fs) (u : View)
    → file_at gs ≡ u
    → s_islnk (u (real_ino u path)).metadata.st_mode ≡ false
    → (u (real_ino u path)).metadata.st_mode ≡ mode
    → (u (real_ino u path)).metadata.st_nlink ≢ 0
    → (r : ℕ) × (hs : Fs) × (my_access path mask gs ≡ done r hs)
      × ((r ≡ ok) ↔ ((mode / 64) % 8 ≡ (mask / 64) % 8))
unfolding my_access my_fstat
access_lem path mask mode gs u now plain stored counted =
    let fh = real_ino u path in
    let direct : followed u path ≡ fh = rw plain in
    let (hs, found, e) = find_ino_as path gs u now (λ lnk. cc (lnk, plain)) in
    let there : has_entry hs fh ≡ true = counted_there hs u fh e counted in
    (
      check_access mode mask,
      touch fh hs,
      rw (found, direct, there, e, stored) refl,
      check_access_lem mode mask,
    )

write_refused :
    (fh : ℕ) (buf : Bytes) (size offset : ℕ) (gs : Fs) (u : View)
    → file_at gs ≡ u
    → fh ≢ 0
    → s_isreg (u fh).metadata.st_mode ≡ false
    → (hs : Fs) × (my_pwrite fh buf size offset gs ≡ done an_err hs)
unfolding my_pwrite
write_refused fh buf size offset gs u now some_file no_reg =
    let nz : (fh == 0) ≡ false = ground (arith, some_file) in
    (touch fh gs, rw (now, nz, no_reg) refl)

-- `my_chmod` of a regular file stores the permission bits that it is given as the whole mode, and changes
-- nothing else. From then on `my_access` grants a mask exactly if the owner's bits are the same in
-- both, and the file, which has lost its type, refuses every write.
pub my_chmod_lem :
    (path : Bytes) (mode : ℕ) (fs : Fs)
    → IsRegularAt (file_at fs) path
    → mode < 2 ^ 12
    → (gs : Fs) × (my_chmod path mode fs ≡ done ok gs)
      × (file_at gs ≡ set_at (real_ino (file_at fs) path) (with_mode mode) (file_at fs))
      × ((mask : ℕ)
          → (r : ℕ) × (hs : Fs) × (my_access path mask gs ≡ done r hs)
            × ((r ≡ ok) ↔ ((mode / 64) % 8 ≡ (mask / 64) % 8)))
      × ((buf : Bytes) (size offset : ℕ)
          → (hs : Fs) × (my_pwrite (real_ino (file_at fs) path) buf size offset gs
              ≡ done an_err hs))
unfolding my_chmod
my_chmod_lem path mode fs h bits =
    let v = file_at fs in
    let fh = real_ino v path in
    let direct : followed v path ≡ fh = rw h.no_link in
    let (ts, found, e) = find_ino_as path fs v refl (λ lnk. cc (lnk, h.no_link)) in
    let no_dir : s_isdir (v fh).metadata.st_mode ≡ false = ground (arith, h.regular) in
    let nz : (fh == 0) ≡ false = ground (arith, h.some_file) in
    let gs : Fs = update fh (with_mode mode) (touch fh ts) in
    let u : View = set_at fh (with_mode mode) v in
    let now : file_at gs ≡ u =
      file_at-update_as fh (with_mode mode) (touch fh ts) v (file_at-touch_as fh ts v e) in
    let file : u fh ≡ with_mode mode (v fh) = set_at_self v fh (with_mode mode) in
    let leads : real_ino u path ≡ fh =
      resolve-Extends _ _ _ _ (set_at-Extends v fh (with_mode mode) (λ d. cc (d, no_dir)) refl)
        h.zero_no_dir h.some_file in
    let no_type : s_islnk mode ≡ false = ground (arith, bits) in
    let no_reg : s_isreg mode ≡ false = ground (arith, bits) in
    let plain : s_islnk (u (real_ino u path)).metadata.st_mode ≡ false =
      rw leads (ap (λ (f : File). s_islnk f.metadata.st_mode) file ∙ no_type) in
    let counted : (u fh).metadata.st_nlink ≢ 0 =
      rw (ap (λ (f : File). f.metadata.st_nlink) file) h.counted in
    (
      gs,
      rw (found, direct, e, no_dir, nz) refl,
      now,
      λ mask.
          access_lem path mask mode gs u now plain
            (rw leads (ap (λ (f : File). f.metadata.st_mode) file)) (rw leads counted),
      λ buf size offset.
          write_refused fh buf size offset gs u now h.some_file
            (ap (λ (f : File). s_isreg f.metadata.st_mode) file ∙ no_reg),
    )
