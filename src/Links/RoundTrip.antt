-- ===== src/Links/RoundTrip.antt =====
-- `my_unlink` takes back what `my_link` did.
use mathlib.Core.Path.{fun_ext}
use cs179f_bbfs_project.Base.{
  ℕ, ◌-◌, ◌^◌, ◌<◌, ◌≡◌, ◌≢◌, sym, ap, ◌∙◌, inl, inr, true, false, ◌∷◌, ◌++◌, arith, ◌==◌,
  Bool-cases, Bytes,
}
use cs179f_bbfs_project.Base.Words.{inc64, dec64}
use cs179f_bbfs_project.State.{
  ok, File, Fs, done, file_at, with_nlink, push_dentry, s_isreg, s_islnk,
}
use cs179f_bbfs_project.State.View.{state_of_done}
use cs179f_bbfs_project.State.Effects.{View, set_at, set_at_self, set_at_other}
use cs179f_bbfs_project.Path.{slash, parent_of}
use cs179f_bbfs_project.Path.RoundTrip.{tail_of_child}
use cs179f_bbfs_project.Resolve.View.{real_ino}
use cs179f_bbfs_project.Resolve.Follow.{IsFollowable, followed}
use cs179f_bbfs_project.Resolve.NewName.{IsNewName, new_dir_ne_zero}
use cs179f_bbfs_project.Create.{is_dot}
use cs179f_bbfs_project.Links.{erase_name, my_link, my_unlink}
use cs179f_bbfs_project.Links.Link.{more_links, dir_ne_file, linked, my_link_effect, my_link-linked}
use cs179f_bbfs_project.Links.Unlink.{dir_no_link}
use cs179f_bbfs_project.Links.Effects.{drop_link, dropped, IsNamed, my_unlink-unlinked}
use cs179f_bbfs_project.Links.Erase.{erase-push}

drop-more : (f : File) → f.metadata.st_nlink < 2 ^ 64 - 1 → drop_link (more_links f) ≡ f
drop-more f fit =
    let e : dec64 (inc64 f.metadata.st_nlink) ≡ f.metadata.st_nlink = omega arith in
    ap (λ n. with_nlink n f) e

reg_no_link : (mode : ℕ) → s_isreg mode ≡ true → s_islnk mode ≡ false
reg_no_link mode h = ground arith

-- What `my_link` asks for, with a link count that stays in 64 bits.
pub record IsLinkable (v : View) (path dir name : Bytes) : Type 0 where
  pub followable : IsFollowable v path
  pub some_file : followed v path ≢ 0
  pub regular : s_isreg (v (followed v path)).metadata.st_mode ≡ true
  pub zero_free : (v 0).metadata.st_mode ≡ 0
  pub new : IsNewName v dir name
  pub named : is_dot name ≡ false
  pub counted : 0 < (v (followed v path)).metadata.st_nlink
  pub fits : (v (followed v path)).metadata.st_nlink < 2 ^ 64 - 1

module _ {v : View} {path dir name : Bytes} (n : IsLinkable v path dir name) where
  fh_ne_dir : followed v path ≢ real_ino v dir
  fh_ne_dir p = dir_ne_file v (real_ino v dir) (followed v path) n.new.is_dir n.regular (sym p)

  linked_file : linked path dir name v (followed v path) ≡ more_links (v (followed v path))
  linked_file =
      set_at_other (set_at (followed v path) more_links v) (real_ino v dir)
        (push_dentry (record { d_ino = followed v path; d_name = name })) (followed v path)
        fh_ne_dir
      ∙ set_at_self v (followed v path) more_links

  linked_dir :
      linked path dir name v (real_ino v dir)
      ≡ push_dentry (record { d_ino = followed v path; d_name = name }) (v (real_ino v dir))
  linked_dir =
      set_at_self (set_at (followed v path) more_links v) (real_ino v dir)
        (push_dentry (record { d_ino = followed v path; d_name = name }))
      ∙ ap (push_dentry (record { d_ino = followed v path; d_name = name }))
          (set_at_other v (followed v path) more_links (real_ino v dir) (λ p. fh_ne_dir (sym p)))

  entry_back : erase_name name (linked path dir name v (real_ino v dir)) ≡ v (real_ino v dir)
  entry_back =
      ap (erase_name name) linked_dir
      ∙ ap (λ ds. record (v (real_ino v dir)) { dentries = ds })
          (erase-push name (followed v path) (v (real_ino v dir)).dentries n.new.lacked)

  dropped-linked :
      dropped (followed v path) (set_at (real_ino v dir) (erase_name name) (linked path dir name v))
      ≡ v
  dropped-linked =
      let u = linked path dir name v in
      let fh = followed v path in
      let d = real_ino v dir in
      let w : View = set_at d (erase_name name) u in
      let w_fh : w fh ≡ more_links (v fh) =
        set_at_other u d (erase_name name) fh fh_ne_dir ∙ linked_file in
      let back : drop_link (w fh) ≡ v fh = ap drop_link w_fh ∙ drop-more (v fh) n.fits in
      let last : ((set_at fh drop_link w fh).metadata.st_nlink == 0) ≡ false =
        rw (ap (λ (f : File). f.metadata.st_nlink) (set_at_self w fh drop_link ∙ back))
          (ground (arith, n.counted)) in
      rw last (
        fun_ext (λ i. elim (Bool-cases (i == fh)) [
          | inl at_fh ↦ let p : i ≡ fh = ground arith in rw at_fh (back ∙ ap v (sym p))
          | inr not_fh ↦ elim (Bool-cases (i == d)) [
            | inl at_d ↦
                let p : i ≡ d = ground arith in rw (not_fh, at_d) (entry_back ∙ ap v (sym p))
            | inr not_d ↦ rw (not_fh, not_d)
          ]
        ]))

-- Where number 0 has no mode: a new link to a regular file whose link count is between 1 and 2 ^ 64 - 2,
-- under a plain name that fits, that its directory lacks and that is not `.` or `..`, is made and then
-- unlinked. All files are then as they were before.
pub my_unlink-my_link :
    (path dir name : Bytes) (fs gs : Fs)
    → IsLinkable (file_at fs) path dir name
    → my_link path (dir ++ slash ∷ name) fs ≡ done ok gs
    → (hs : Fs) × (my_unlink (dir ++ slash ∷ name) gs ≡ done ok hs) × (file_at hs ≡ file_at fs)
my_unlink-my_link path dir name fs gs n run =
    let v = file_at fs in
    let fh = followed v path in
    let u = file_at gs in
    let new = dir ++ slash ∷ name in
    let (gs', run', e') =
      my_link_effect path dir name fs n.followable n.some_file n.regular n.zero_free n.new in
    let (gs'', run'', leads', _, kept') =
      my_link-linked path dir name fs n.followable n.some_file n.regular n.zero_free n.new in
    let e : u ≡ linked path dir name v = ap file_at (state_of_done (sym run ∙ run')) ∙ e' in
    let again : u ≡ file_at gs'' = ap file_at (state_of_done (sym run ∙ run'')) in
    let leads : real_ino u new ≡ fh = ap (λ w. real_ino w new) again ∙ leads' in
    let at_dir : real_ino u dir ≡ real_ino v dir =
      ap (λ w. real_ino w dir) again ∙ kept' dir (new_dir_ne_zero n.new n.zero_free) in
    let file : u fh ≡ more_links (v fh) = ap (λ w. w fh) e ∙ linked_file n in
    let parent : u (real_ino v dir)
        ≡ push_dentry (record { d_ino = fh; d_name = name }) (v (real_ino v dir)) =
      ap (λ w. w (real_ino v dir)) e ∙ linked_dir n in
    let no_link : s_islnk (u (real_ino u new)).metadata.st_mode ≡ false = rw leads (
      ap (λ (f : File). s_islnk f.metadata.st_mode) file
      ∙ reg_no_link (v fh).metadata.st_mode n.regular) in
    let plain_dir : s_islnk (u (real_ino u dir)).metadata.st_mode ≡ false = rw at_dir (
      ap (λ (f : File). s_islnk f.metadata.st_mode) parent
      ∙ dir_no_link (v (real_ino v dir)).metadata.st_mode n.new.is_dir) in
    let names = tail_of_child dir name n.new.plain in
    let plain_parent : s_islnk (u (real_ino u (parent_of new))).metadata.st_mode ≡ false =
      rw (names.1) plain_dir in
    let new_fh : followed u new ≡ fh = rw no_link leads in
    let new_dir : followed u (parent_of new) ≡ real_ino v dir = rw (names.1, plain_dir) at_dir in
    let ready : IsNamed u new = record {
      followable = λ lnk. cc (lnk, no_link);
      parent_followable = λ lnk. cc (lnk, plain_parent);
      some_file = rw new_fh n.some_file;
      named = rw (names.0) n.named;
    } in
    let (hs, gone, h) = my_unlink-unlinked new gs ready in
    (hs, gone, h ∙ rw (new_fh, new_dir, names.0, e) (dropped-linked n))
