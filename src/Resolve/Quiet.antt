-- ===== src/Resolve/Quiet.antt =====
-- Searches in ProjectWOFuse/src/my_stubs.cc change nothing that the operations can see.
use cs179f_bbfs_project.Base.{
  ℕ, zero, suc, ◌+◌, ◌==◌, ◌≡◌, ◌∙◌, ap, sym, c_str, Bool, true, false, not, Option, none, some,
  List, [], ◌∷◌, Bytes, bytes_beq, length, get_elem?, ltb, if◌then◌else◌,
}
use cs179f_bbfs_project.Base.Words.{slt, of_int, as_int, add64, sub64}
use cs179f_bbfs_project.State.{
  Errno, enoent, an_err, File, Fs, Run, done, fault, out_of_fuel, M, and_then, file_at, touch,
  has_entry, s_isdir, s_islnk,
}
use cs179f_bbfs_project.State.View.{SameView, SameView-trans, SameView-errno, SameView-touch}
use cs179f_bbfs_project.Path.{slash, split}
use cs179f_bbfs_project.Resolve.{
  MyDir, fopendir, my_readdir, lookup_loop, lookup, find_loop, root_ino, find_real_ino, substr,
  strcpy, my_pread, my_readlink, link_room, follow, find_ino,
}

-- A run that, if it ends, leaves what can be seen of `v`.
pub data Quiet {A : Type 0} (v : Fs) : Run A → Type 0 where
  stays : {a : A} {fs : Fs} → SameView v fs → Quiet v (done a fs)
  faulted : Quiet v fault
  ran_out : Quiet v out_of_fuel

moved : {v fs gs : Fs} → fs ≡ gs → SameView v fs → SameView v gs
moved e s = record {
  files = ap file_at (sym e) ∙ s.files;
  count = ap (λ f. f.count) (sym e) ∙ s.count;
  first_time = ap (λ f. f.first_time) (sym e) ∙ s.first_time;
  cwd = ap (λ f. f.cwd) (sym e) ∙ s.cwd;
  kept = λ j h. ap (λ f. has_entry f j) (sym e) ∙ s.kept j h;
}

module _ {A : Type 0} {v : Fs} where
  pub bind_seen :
      {B : Type 0} {r : Run B} {k : B → M A}
      → Quiet v r
      → ((b : B) (fs : Fs) → SameView v fs → Quiet v (k b fs))
      → Quiet v (and_then r k)
  bind_seen (stays s) next = next _ _ s
  bind_seen faulted next = faulted
  bind_seen ran_out next = ran_out

  pub branch_seen :
      (b : Bool) (m k : M A) {fs : Fs}
      → Quiet v (m fs)
      → Quiet v (k fs)
      → Quiet v ((if b then m else k) fs)
  branch_seen true m k p q = p
  branch_seen false m k p q = q

  pub run_seen : (b : Bool) {r q : Run A} → Quiet v r → Quiet v q → Quiet v (if b then r else q)
  run_seen true p q = p
  run_seen false p q = q

  pub option_seen :
      {V : Type 0} (o : Option V) (m : M A) (k : V → M A) {fs : Fs}
      → Quiet v (m fs)
      → ((a : V) → Quiet v (k a fs))
      → Quiet v ((elim o as (λ _. M A) [ none ↦ m | some a ↦ k a ]) fs)
  option_seen none m k p q = p
  option_seen (some a) m k p q = q a

  pub done_seen : {a : A} {r : Run A} {fs : Fs} → Quiet v r → r ≡ done a fs → SameView v fs
  done_seen (stays s) e = moved (cc e) s
  done_seen faulted e = cc e
  done_seen ran_out e = cc e

module _ {v fs : Fs} (s : SameView v fs) where
  pub errno_seen : (e : Errno) → SameView v (record fs { errno = e })
  errno_seen e = SameView-trans s (SameView-errno e fs)

  pub touch_seen : (fh : ℕ) → SameView v (touch fh fs)
  touch_seen fh = SameView-trans s (SameView-touch fh fs)

module _ {v fs : Fs} (s : SameView v fs) where
  pub fopendir-Quiet : (fh : ℕ) → Quiet v (fopendir fh fs)
  unfolding fopendir
  fopendir-Quiet fh =
      branch_seen (s_isdir (file_at fs fh).metadata.st_mode) _ _ (stays (touch_seen s fh))
        (stays (touch_seen s fh))

  pub my_readdir-Quiet : (dirp : MyDir) → Quiet v (my_readdir dirp fs)
  unfolding my_readdir
  my_readdir-Quiet dirp =
      let f : File = file_at fs dirp.fh in
      branch_seen (dirp.index == length f.dentries) _ _ (stays (touch_seen s dirp.fh)) (
        option_seen (get_elem? f.dentries dirp.index) _ _ faulted
          (λ d. stays (touch_seen s dirp.fh)))

lookup_loop-Quiet :
    {v fs : Fs} (k : ℕ) (name : Bytes) (dirp : MyDir)
    → SameView v fs
    → Quiet v (lookup_loop k name dirp fs)
unfolding lookup_loop
lookup_loop-Quiet zero name dirp s = ran_out
lookup_loop-Quiet (suc k) name dirp s = bind_seen (my_readdir-Quiet s dirp) λ (dp, dirp') gs t.
    option_seen dp _ _ (stays t)
      (λ d. branch_seen (bytes_beq d.d_name name) _ _ (stays t) (lookup_loop-Quiet k name dirp' t))

lookup-Quiet : {v fs : Fs} (name : Bytes) (fh : ℕ) → SameView v fs → Quiet v (lookup name fh fs)
unfolding lookup
lookup-Quiet name fh s = bind_seen (fopendir-Quiet s fh) λ dirp gs t.
    option_seen dirp _ _ (stays t)
      (λ d. lookup_loop-Quiet (length (file_at gs fh).dentries + 1) name d t)

find_loop-Quiet :
    {v fs : Fs} (segments : List Bytes) (fh : ℕ)
    → SameView v fs
    → Quiet v (find_loop segments fh fs)
unfolding find_loop
find_loop-Quiet [] fh s = stays s
find_loop-Quiet {v} {fs} (it ∷ segments) fh s =
    run_seen (bytes_beq it []) (find_loop-Quiet segments fh s) (
      run_seen (has_entry fs fh)
        (run_seen (s_isdir (file_at fs fh).metadata.st_mode)
          (bind_seen (lookup-Quiet it fh s) λ fh' gs t. find_loop-Quiet segments fh' t) (stays s))
        (stays (errno_seen s enoent)))

pub find_real_ino-Quiet :
    {v fs : Fs} (path : Bytes) → SameView v fs → Quiet v (find_real_ino path fs)
unfolding find_real_ino
find_real_ino-Quiet path s = find_loop-Quiet (split path slash) root_ino s

strcpy-Quiet :
    {v fs : Fs} (room : ℕ) (o : Option Bytes) (ret : ℕ)
    → SameView v fs
    → Quiet v (strcpy room o ret fs)
unfolding strcpy
strcpy-Quiet room none ret s = faulted
strcpy-Quiet room (some t) ret s = branch_seen (ltb (length (c_str t)) room) _ _ (stays s) faulted

pub my_pread-Quiet :
    {v fs : Fs} (fh room size offset : ℕ)
    → SameView v fs
    → Quiet v (my_pread fh room size offset fs)
unfolding my_pread
my_pread-Quiet {v} {fs} fh room size offset s =
    let f : File = file_at fs fh in
    let len : ℕ = of_int (as_int (length f.bytes)) in
    let t : SameView v (touch fh fs) = touch_seen s fh in
    branch_seen (s_isdir f.metadata.st_mode) _ _ (stays t) (
      branch_seen (slt len offset) _ _ (stays t) (
        branch_seen (ltb len (sub64 (add64 offset size) 1)) _ _
          (strcpy-Quiet room (substr f.bytes offset (length f.bytes)) (as_int (sub64 len offset)) t)
          (strcpy-Quiet room (substr f.bytes offset size) (as_int size) t)))

pub my_readlink-Quiet :
    {v fs : Fs} (path : Bytes) (room size : ℕ)
    → SameView v fs
    → Quiet v (my_readlink path room size fs)
unfolding my_readlink
my_readlink-Quiet path room size s = bind_seen (find_real_ino-Quiet path s) λ fh gs t.
    branch_seen (fh == 0) _ _ (stays t) (
      branch_seen (not (s_islnk (file_at gs fh).metadata.st_mode)) _ _ (stays (touch_seen t fh))
        (bind_seen (my_pread-Quiet fh room size 0 (touch_seen t fh)) λ (err, link) hs u. stays u))

pub find_ino-Quiet : {v fs : Fs} (path : Bytes) → SameView v fs → Quiet v (find_ino path fs)
unfolding find_ino follow
find_ino-Quiet path s = bind_seen (find_real_ino-Quiet path s) λ fh gs t.
    branch_seen (not (s_islnk (file_at gs fh).metadata.st_mode)) _ _ (stays (touch_seen t fh)) (
      bind_seen (my_readlink-Quiet path link_room 50 (touch_seen t fh))
        λ (err, link) hs u. branch_seen (err == an_err) _ _ (stays u) (follow-Quiet link u))
  where
    follow-Quiet : {v fs : Fs} (link : Option Bytes) → SameView v fs → Quiet v (follow link fs)
    follow-Quiet none s = faulted
    follow-Quiet (some target) s = find_real_ino-Quiet target s
