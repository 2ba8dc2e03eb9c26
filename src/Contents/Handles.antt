-- ===== src/Contents/Handles.antt =====
-- `my_open` and `my_close`: what they do to the link count, and that `my_open` makes no file.
use cs179f_bbfs_project.Base.{
  ℕ, ◌-◌, ◌^◌, ◌<◌, ◌≡◌, ◌≢◌, sym, ap, ◌∙◌, inl, inr, true, false, arith, ◌==◌, leb, if◌then◌else◌,
  Bytes, Bool-cases,
}
use cs179f_bbfs_project.Base.Words.{as_int, inc64, dec64}
use cs179f_bbfs_project.State.{ok, Env, File, Fs, done, file_at, touch, update, with_nlink}
use cs179f_bbfs_project.State.View.{
  file_at-update, file_at-update_self, file_at-touch, state_of_done,
}
use cs179f_bbfs_project.Resolve.Follow.{IsFollowable, followed, find_ino_view}
use cs179f_bbfs_project.Contents.{my_open, my_close}

abbrev raised : File → File
raised f = with_nlink (inc64 f.metadata.st_nlink) f

-- Of a path that ends in no link, or in one of less than 50 bytes, `my_open` returns, whatever the flags, the number that the path leads to, 0 if it leads to no file,
-- and counts one more link of that number. It makes no file: no number is handed out.
pub my_open_lem :
    (env : Env) (path : Bytes) (flags : ℕ) (fs : Fs)
    → IsFollowable (file_at fs) path
    → (gs : Fs) × (my_open env path flags fs ≡ done (as_int (followed (file_at fs) path)) gs)
      × ((i : ℕ)
          → file_at gs i ≡ (
              if i == followed (file_at fs) path
              then with_nlink (inc64 (file_at fs i).metadata.st_nlink) (file_at fs i)
              else file_at fs i))
      × (gs.count ≡ fs.count)
unfolding my_open update
my_open_lem env path flags fs h =
    let (gs, run, same) = find_ino_view path fs h in
    let fh = followed (file_at fs) path in
    let any : leb 0 fh ≡ true = ground arith in
    (
      update fh raised gs,
      rw (run, any),
      λ i. rw (file_at-update, same.files) (at_fh i fh),
      same.count,
    )
  where
    at_fh :
        (i fh : ℕ)
        → (if i == fh then raised (file_at fs fh) else file_at fs i)
          ≡ (if i == fh then raised (file_at fs i) else file_at fs i)
    at_fh i fh = elim (Bool-cases (i == fh)) [
      | inl e ↦ let p : i ≡ fh = ground arith in rw (e, p)
      | inr e ↦ rw e
    ]

abbrev lowered : File → File
lowered f = with_nlink (dec64 f.metadata.st_nlink) f

-- Closing a file that keeps a link.
close_kept :
    (fh : ℕ) (gs : Fs)
    → fh ≢ 0
    → dec64 (file_at gs fh).metadata.st_nlink ≢ 0
    → my_close fh gs ≡ done ok (touch fh (update fh lowered gs))
unfolding my_close
close_kept fh gs nz kept =
    let nz' : (fh == 0) ≡ false = ground (arith, nz) in
    let kept' : (dec64 (file_at gs fh).metadata.st_nlink == 0) ≡ false = ground arith in
    rw (nz', file_at-update_self, kept')

lowered-raised : (f : File) → f.metadata.st_nlink < 2 ^ 64 - 1 → lowered (raised f) ≡ f
lowered-raised f fit =
    let e : dec64 (inc64 f.metadata.st_nlink) ≡ f.metadata.st_nlink = omega arith in
    ap (λ n. with_nlink n f) e

-- `my_close` takes back what `my_open` did: an open file with at least one link that is closed again
-- is as it was, and so is every other file. The count is taken to stay in 64 bits.
pub my_close-my_open :
    (env : Env) (path : Bytes) (flags : ℕ) (fs gs : Fs)
    → IsFollowable (file_at fs) path
    → followed (file_at fs) path ≢ 0
    → 0 < (file_at fs (followed (file_at fs) path)).metadata.st_nlink
    → (file_at fs (followed (file_at fs) path)).metadata.st_nlink < 2 ^ 64 - 1
    → my_open env path flags fs ≡ done (as_int (followed (file_at fs) path)) gs
    → (hs : Fs) × (my_close (followed (file_at fs) path) gs ≡ done ok hs)
      × ((i : ℕ) → file_at hs i ≡ file_at fs i)
my_close-my_open env path flags fs gs h nz pos fit run =
    let fh = followed (file_at fs) path in
    let (gs', run', files, _) = my_open_lem env path flags fs h in
    let e : gs ≡ gs' = state_of_done (sym run ∙ run') in
    let self : (fh == fh) ≡ true = ground arith in
    let view : (i : ℕ) → file_at gs i ≡ (if i == fh then raised (file_at fs i) else file_at fs i) =
      λ i. ap (λ s. file_at s i) e ∙ files i in
    let at_fh : file_at gs fh ≡ raised (file_at fs fh) = view fh ∙ rw self in
    let kept : dec64 (file_at gs fh).metadata.st_nlink ≢ 0 = rw at_fh (omega arith) in
    (
      touch fh (update fh lowered gs),
      close_kept fh gs nz kept,
      λ i.
          rw (file_at-touch, file_at-update, at_fh, view i)
            (back i fh (lowered-raised (file_at fs fh) fit)),
    )
  where
    back :
        (i fh : ℕ)
        → lowered (raised (file_at fs fh)) ≡ file_at fs fh
        → (if i == fh
            then lowered (raised (file_at fs fh))
            else (if i == fh then raised (file_at fs i) else file_at fs i))
          ≡ file_at fs i
    back i fh e = elim (Bool-cases (i == fh)) [
      | inl same ↦ let p : i ≡ fh = ground arith in rw (same, e, p)
      | inr other ↦ rw other
    ]
