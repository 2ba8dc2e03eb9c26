-- ===== src/Resolve/Follow.antt =====
-- Reading a symbolic link: when the 50 bytes of `find_ino` hold the target, and when they do not.
use cs179f_bbfs_project.Base.{
  ℕ, ◌^◌, ◌≤◌, ◌<◌, ◌≡◌, ◌∙◌, ◌≢◌, inl, inr, true, false, some, arith, ltb, ◌==◌, if◌then◌else◌,
  Bool-cases, length, Bytes, c_str, c_str-take, length-c_str, length-c_str-take, ltb→lt,
}
use cs179f_bbfs_project.State.{
  ok, an_err, s_isdir, s_islnk, Errno, File, Fs, done, fault, file_at, touch,
}
use cs179f_bbfs_project.State.View.{
  SameView, SameView-trans, SameView-touch, SameView-errno, file_at_errno, touch_of_mode,
}
use cs179f_bbfs_project.Resolve.{find_real_ino, my_pread, my_readlink, follow, find_ino, link_room}
use cs179f_bbfs_project.Resolve.View.{real_ino, find_real_ino-real}
use cs179f_bbfs_project.Resolve.Read.{my_pread_lem, read_bytes}

-- A target of less than 50 bytes is read whole, and the count is not the error code.
read_bytes_link :
    (s : Bytes) (fs : Fs)
    → length (c_str s) < 50
    → (r : ℕ) × (read_bytes s link_room 50 0 fs ≡ done (r, some (c_str s)) fs) × (r ≢ an_err)
read_bytes_link s fs small = elim (Bool-cases (ltb (length s) 49)) [
  | inl short ↦ (length s, ground arith, omega (arith, ltb→lt (length s) 49 short))
  | inr full ↦ (50, rw (full, c_str-take 50 s small) (ground arith), omega arith)
]

read_bytes_long :
    (s : Bytes) (fs : Fs) → 50 ≤ length (c_str s) → read_bytes s link_room 50 0 fs ≡ fault
read_bytes_long s fs long =
    let full : ltb (length s) 49 ≡ false = ground (arith, length-c_str s) in
    rw (full, length-c_str-take 50 s long) (ground arith)

-- What the proofs below use of a link that can be followed.
pub record IsShortLink (view : ℕ → File) (fh : ℕ) : Type 0 where
  pub lnk : s_islnk (view fh).metadata.st_mode ≡ true
  pub ne_zero : fh ≢ 0
  pub short : length (c_str (view fh).bytes) < 50
  pub fit : length (view fh).bytes < 2 ^ 31

link_not_dir : (mode : ℕ) → s_islnk mode ≡ true → s_isdir mode ≡ false
link_not_dir mode h = ground arith

link_mode : (mode : ℕ) → s_islnk mode ≡ true → mode ≢ 0
link_mode mode h = ground arith

touch_link : (fs : Fs) (fh : ℕ) → s_islnk (file_at fs fh).metadata.st_mode ≡ true → touch fh fs ≡ fs
touch_link fs fh h = touch_of_mode fs fh (link_mode (file_at fs fh).metadata.st_mode h)

module _ (fs : Fs) (e₀ : Errno) where
  -- The lemmas of the parts, in a state whose `errno` may have changed.
  find_real_again :
      (path : Bytes)
      → (e : Errno) × (find_real_ino path (record fs { errno = e₀ })
          ≡ done (real_ino (file_at fs) path) (record fs { errno = e }))
  find_real_again path = rw file_at_errno at (find_real_ino-real path (record fs { errno = e₀ }))

  pread_link :
      (fh : ℕ)
      → IsShortLink (file_at fs) fh
      → (r : ℕ) × (my_pread fh link_room 50 0 (record fs { errno = e₀ })
          ≡ done (r, some (c_str (file_at fs fh).bytes)) (record fs { errno = e₀ }))
        × (r ≢ an_err)
  pread_link fh l =
      let gs : Fs = record fs { errno = e₀ } in
      let (r, run, good) = read_bytes_link (file_at fs fh).bytes gs l.short in
      let lnk : s_islnk (file_at gs fh).metadata.st_mode ≡ true = rw (file_at_errno e₀ fs) l.lnk in
      let few : length (file_at gs fh).bytes < 2 ^ 31 = rw (file_at_errno e₀ fs) l.fit in
      (
        r,
        my_pread_lem fh link_room 50 0 gs few (omega arith) (omega arith)
            ∙ rw
                (
                  touch_link gs fh lnk,
                  link_not_dir (file_at gs fh).metadata.st_mode lnk,
                  file_at_errno e₀ fs,
                )
                run,
        good,
      )

-- A short link is read whole.
readlink_short :
    (fs : Fs) (e₀ : Errno) (path : Bytes)
    → IsShortLink (file_at fs) (real_ino (file_at fs) path)
    → (e : Errno) × (my_readlink path link_room 50 (record fs { errno = e₀ })
        ≡ done
            (ok, some (c_str (file_at fs (real_ino (file_at fs) path)).bytes))
            (record fs { errno = e }))
unfolding my_readlink
readlink_short fs e₀ path l =
    let fh = real_ino (file_at fs) path in
    let (e, run) = find_real_again fs e₀ path in
    let (r, got, good) = pread_link fs e fh l in
    let gs : Fs = record fs { errno = e } in
    let lnk : s_islnk (file_at gs fh).metadata.st_mode ≡ true = rw (file_at_errno e fs) l.lnk in
    let nz : (fh == 0) ≡ false = ground (arith, l.ne_zero) in
    let ng : (r == an_err) ≡ false = ground arith in
    (e, rw (run, nz, touch_link gs fh lnk, lnk, got, ng))

-- Where `find_ino` leads: a link at the end of the path is followed once.
abbrev pub followed : (ℕ → File) → Bytes → ℕ
followed view path =
    if s_islnk (view (real_ino view path)).metadata.st_mode
    then real_ino view (c_str (view (real_ino view path)).bytes)
    else real_ino view path

-- What `find_ino` needs: if the path leads to a link, the link's text has less than 50 bytes.
abbrev pub IsFollowable : (ℕ → File) → Bytes → Type 0
IsFollowable view path =
    s_islnk (view (real_ino view path)).metadata.st_mode ≡ true
    → IsShortLink view (real_ino view path)

-- Of a path that ends in no link, or in one of less than 50 bytes, `find_ino` returns what it leads to,
-- the link followed once. The state gains at most an entry for
-- the file without one, and `errno` may change.
pub find_ino-followed :
    (path : Bytes) (fs : Fs)
    → IsFollowable (file_at fs) path
    → (e : Errno) × (find_ino path fs
        ≡ done
            (followed (file_at fs) path)
            (touch (real_ino (file_at fs) path) (record fs { errno = e })))
unfolding find_ino follow
find_ino-followed path fs ok_path =
    elim (Bool-cases (s_islnk (file_at fs (real_ino (file_at fs) path)).metadata.st_mode)) [
      | inr plain ↦
          let (e, run) = find_real_ino-real path fs in (e, rw (run, file_at_errno e fs, plain))
      | inl lnk ↦
          let fh = real_ino (file_at fs) path in
          let l = ok_path lnk in
          let (e, run) = find_real_ino-real path fs in
          let (e', read) = readlink_short fs e path l in
          let (e'', again) = find_real_again fs e' (c_str (file_at fs fh).bytes) in
          (
            e'',
            rw (
              run,
              file_at_errno e fs,
              lnk,
              touch_link (record fs { errno = e }) fh (rw (file_at_errno e fs) lnk),
              read,
              again,
              touch_link (record fs { errno = e'' }) fh (rw (file_at_errno e'' fs) lnk),
            ),
          )
    ]

-- A path that ends in a link to a text of 50 bytes or more, in a file below 2 ^ 31 bytes, makes `find_ino` write past the end of
-- its buffer.
pub find_ino_overrun :
    (path : Bytes) (fs : Fs)
    → s_islnk (file_at fs (real_ino (file_at fs) path)).metadata.st_mode ≡ true
    → real_ino (file_at fs) path ≢ 0
    → 50 ≤ length (c_str (file_at fs (real_ino (file_at fs) path)).bytes)
    → length (file_at fs (real_ino (file_at fs) path)).bytes < 2 ^ 31
    → find_ino path fs ≡ fault
unfolding find_ino my_readlink
find_ino_overrun path fs lnk nz long fit =
    let fh = real_ino (file_at fs) path in
    let (e, run) = find_real_ino-real path fs in
    let (e', again) = find_real_again fs e path in
    let gs : Fs = record fs { errno = e } in
    let hs : Fs = record fs { errno = e' } in
    let lnk' : s_islnk (file_at gs fh).metadata.st_mode ≡ true = rw (file_at_errno e fs) lnk in
    let lnk'' : s_islnk (file_at hs fh).metadata.st_mode ≡ true = rw (file_at_errno e' fs) lnk in
    let nz' : (fh == 0) ≡ false = ground (arith, nz) in
    let over : my_pread fh link_room 50 0 hs ≡ fault =
      my_pread_lem fh link_room 50 0 hs (rw (file_at_errno e' fs) fit) (omega arith) (omega arith)
      ∙ rw (link_not_dir (file_at hs fh).metadata.st_mode lnk'', file_at_errno e' fs)
          (read_bytes_long (file_at fs fh).bytes (touch fh hs) long) in
    rw (run, lnk', touch_link gs fh lnk', again, nz', lnk'', touch_link hs fh lnk'', over)

-- `find_ino` on a followable path: the result, in a state that shows the same.
pub find_ino_view :
    (path : Bytes) (fs : Fs)
    → IsFollowable (file_at fs) path
    → (gs : Fs) × (find_ino path fs ≡ done (followed (file_at fs) path) gs) × SameView fs gs
find_ino_view path fs h =
    let (e, run) = find_ino-followed path fs h in
    (
      touch (real_ino (file_at fs) path) (record fs { errno = e }),
      run,
      SameView-trans (SameView-errno e fs)
          (SameView-touch (real_ino (file_at fs) path) (record fs { errno = e })),
    )

-- The same, where the path leads to what is known to be no link.
pub find_ino_real :
    (path : Bytes) (fs : Fs)
    → s_islnk (file_at fs (real_ino (file_at fs) path)).metadata.st_mode ≡ false
    → (gs : Fs) × (find_ino path fs ≡ done (real_ino (file_at fs) path) gs) × SameView fs gs
find_ino_real path fs plain =
    let (gs, run, same) = find_ino_view path fs (λ lnk. cc) in (gs, run ∙ rw plain, same)

-- The same, for a state that is known to show `v`.
pub find_ino_as :
    (path : Bytes) (fs : Fs) (v : ℕ → File)
    → file_at fs ≡ v
    → IsFollowable v path
    → (gs : Fs) × (find_ino path fs ≡ done (followed v path) gs) × (file_at gs ≡ v)
find_ino_as path fs v e h =
    let (gs, run, same) = find_ino_view path fs (rw e h) in (gs, run ∙ rw e, same.files ∙ e)
