-- ===== src/Fuse/Invariant.antt =====
-- What the tables of my_calls.cc keep, whatever calls are made: every inode and every open file stands
-- under its own number, and every address was given out.
use mathlib.Core.Path.{subst}
use cs179f_bbfs_project.Base.{
  ℕ, ◌+◌, ◌<◌, ◌≡◌, refl, sym, ◌∙◌, inl, inr, Bool, true, false, Option, none, some, [], ◌∷◌, arith,
  ltb, ◌==◌, if◌then◌else◌, All, Bool-cases, Option-cases,
}
use cs179f_bbfs_project.Base.Map.{Map, find, insert, erase, nat_key}
use cs179f_bbfs_project.Fuse.{
  Inode, Node, OpenFile, Tables, no_tables, insert_new, inode_init, file_init, set_inode,
}

module _ {A : Type 0} (P : ℕ × A → Type 0) where
  pub All-insert : (k : ℕ) (a : A) (m : Map ℕ A) → P (k, a) → All P m → All P (insert k a m)
  unfolding insert
  All-insert k a [] p h = (p, tt)
  All-insert k a ((j, b) ∷ m) p (hj, h) = elim (Bool-cases (k == j)) [
    | inl same ↦ rw same (p, h)
    | inr other ↦ elim (Bool-cases (ltb k j)) [
      | inl below ↦ rw (other, below) (p, (hj, h))
      | inr above ↦ rw (other, above) (hj, All-insert k a m p h)
    ]
  ]

  pub All-erase : (k : ℕ) (m : Map ℕ A) → All P m → All P (erase k m)
  unfolding erase
  All-erase k [] h = tt
  All-erase k ((j, b) ∷ m) (hj, h) = elim (Bool-cases (k == j)) [
    | inl same ↦ rw same (All-erase k m h)
    | inr other ↦ rw other (hj, All-erase k m h)
  ]

  pub All-insert_new : (k : ℕ) (a : A) (m : Map ℕ A) → P (k, a) → All P m → All P (insert_new k a m)
  All-insert_new k a m p h =
      elim (find k m)
        as (λ o. All P (elim o as (λ x. Map ℕ A) [ none ↦ insert k a m | some old ↦ m ])) [
          | none ↦ All-insert k a m p h
          | some old ↦ h
        ]

  -- What is found is one of the entries.
  pub All-find : (k : ℕ) (a : A) (m : Map ℕ A) → All P m → find k m ≡ some a → P (k, a)
  unfolding find
  All-find k a [] h e = cc
  All-find k a ((j, b) ∷ m) (hj, h) e = elim (Bool-cases (k == j)) [
    | inl same ↦
        let p : k ≡ j = ground arith in
        let e' : some b ≡ some a = rw same at e in let q : a ≡ b = cc e' in rw (p, q) hj
    | inr other ↦ All-find k a m h (rw other at e)
  ]

pub record IsWellFormed (t : Tables) : Type 0 where
  pub keyed : All (λ e. e.0 ≡ e.1.inode.i_ino) t.my_ilist
  pub files_keyed : All (λ e. e.0 ≡ e.1.f_desc) t.my_open_ft
  pub given : All (λ e. e.1.address < t.addresses) t.my_ilist
  pub pointers : All (λ e. e.1.f_inode < t.addresses) t.my_open_ft

pub no_tables-IsWellFormed : IsWellFormed no_tables
no_tables-IsWellFormed = record { keyed = tt; files_keyed = tt; given = tt; pointers = tt }

pub inode_init-IsWellFormed :
    (mode : ℕ) (t : Tables) → IsWellFormed t → IsWellFormed ((inode_init mode t).1)
unfolding inode_init
inode_init-IsWellFormed mode t w = record {
  keyed = All-insert_new (λ e. e.0 ≡ e.1.inode.i_ino) _ _ t.my_ilist refl w.keyed;
  files_keyed = w.files_keyed;
  given =
      All-insert_new (λ e. e.1.address < t.addresses + 1) _ _ t.my_ilist (omega arith)
        (more t.my_ilist w.given);
  pointers = more_files t.my_open_ft w.pointers;
}
  where
    more :
        (m : Map ℕ Node)
        → All (λ e. e.1.address < t.addresses) m
        → All (λ e. e.1.address < t.addresses + 1) m
    more [] h = tt
    more (e ∷ m) (he, h) = (omega (arith, he), more m h)

    more_files :
        (m : Map ℕ OpenFile)
        → All (λ e. e.1.f_inode < t.addresses) m
        → All (λ e. e.1.f_inode < t.addresses + 1) m
    more_files [] h = tt
    more_files (e ∷ m) (he, h) = (omega (arith, he), more_files m h)

pub file_init-IsWellFormed :
    (m pos flags a : ℕ) (t : Tables)
    → IsWellFormed t
    → a < t.addresses
    → IsWellFormed ((file_init m pos flags a t).1)
unfolding file_init
file_init-IsWellFormed m pos flags a t w lt = record {
  keyed = w.keyed;
  files_keyed = All-insert_new (λ e. e.0 ≡ e.1.f_desc) _ _ t.my_open_ft refl w.files_keyed;
  given = w.given;
  pointers = All-insert_new (λ e. e.1.f_inode < t.addresses) _ _ t.my_open_ft lt w.pointers;
}

-- A call that is undefined, or returns tables with the property.
pub data Leaves {A : Type 0} (P : Tables → Type 0) : Option (A × Tables) → Type 0 where
  undefined : Leaves P none
  returns : {a : A} {t : Tables} → P t → Leaves P (some (a, t))

module _ {A : Type 0} {P : Tables → Type 0} where
  pub Leaves-if :
      (b : Bool) (x y : Option (A × Tables))
      → Leaves P x
      → Leaves P y
      → Leaves P (if b then x else y)
  Leaves-if true x y l r = l
  Leaves-if false x y l r = r

  pub Leaves-option :
      {B : Type 0} (o : Option B) (x : Option (A × Tables)) (y : B → Option (A × Tables))
      → Leaves P x
      → ((b : B) → o ≡ some b → Leaves P (y b))
      → Leaves P (elim o as (λ _. Option (A × Tables)) [ none ↦ x | some b ↦ y b ])
  Leaves-option none x y l r = l
  Leaves-option (some b) x y l r = r b refl

-- The tables with an inode changed.
abbrev pub changed_inode : ℕ → (Inode → Inode) → Tables → Node → Tables
changed_inode k g t n = record t { my_ilist = insert k (record n { inode = g n.inode }) t.my_ilist }

pub set_inode_changed :
    (k : ℕ) (g : Inode → Inode) (t t' : Tables)
    → set_inode k g t ≡ some t'
    → (n : Node) × (find k t.my_ilist ≡ some n) × (changed_inode k g t n ≡ t')
set_inode_changed k g t t' e = elim (Option-cases (find k t.my_ilist)) [
  | inl missing ↦ let no : none ≡ some t' = rw missing at e in cc no
  | inr (n, found) ↦
      let yes : some (changed_inode k g t n) ≡ some t' = rw found at e in (n, found, cc yes)
]

-- An inode that is changed keeps its number and its address.
pub set_inode-IsWellFormed :
    (k : ℕ) (g : Inode → Inode) (t t' : Tables)
    → ((i : Inode) → (g i).i_ino ≡ i.i_ino)
    → IsWellFormed t
    → set_inode k g t ≡ some t'
    → IsWellFormed t'
set_inode-IsWellFormed k g t t' same w e =
    let (n, found, p) = set_inode_changed k g t t' e in
    subst IsWellFormed p (record {
      keyed =
          All-insert (λ e. e.0 ≡ e.1.inode.i_ino) k _ t.my_ilist
            (All-find (λ e. e.0 ≡ e.1.inode.i_ino) k n t.my_ilist w.keyed found
              ∙ sym (same n.inode))
            w.keyed;
      files_keyed = w.files_keyed;
      given =
          All-insert (λ e. e.1.address < t.addresses) k _ t.my_ilist
            (All-find (λ e. e.1.address < t.addresses) k n t.my_ilist w.given found) w.given;
      pointers = w.pointers;
    })

pub erase-IsWellFormed :
    (k : ℕ) (t : Tables)
    → IsWellFormed t
    → IsWellFormed (record t { my_ilist = erase k t.my_ilist })
erase-IsWellFormed k t w = record {
  keyed = All-erase (λ e. e.0 ≡ e.1.inode.i_ino) k t.my_ilist w.keyed;
  files_keyed = w.files_keyed;
  given = All-erase (λ e. e.1.address < t.addresses) k t.my_ilist w.given;
  pointers = w.pointers;
}

pub close-IsWellFormed :
    (fd : ℕ) (t : Tables)
    → IsWellFormed t
    → IsWellFormed (record t { my_open_ft = erase fd t.my_open_ft })
close-IsWellFormed fd t w = record {
  keyed = w.keyed;
  files_keyed = All-erase (λ e. e.0 ≡ e.1.f_desc) fd t.my_open_ft w.files_keyed;
  given = w.given;
  pointers = All-erase (λ e. e.1.f_inode < t.addresses) fd t.my_open_ft w.pointers;
}

-- A property of the tables that every change which the calls make keeps.
pub record IsKept (P : Tables → Type 0) : Type 0 where
  pub started : P no_tables
  pub inode_made : (mode : ℕ) (t : Tables) → P t → P ((inode_init mode t).1)
  pub inode_set :
      (k : ℕ) (g : Inode → Inode) (t t' : Tables)
      → ((i : Inode) → (g i).i_ino ≡ i.i_ino)
      → P t
      → set_inode k g t ≡ some t'
      → P t'
  pub inode_erased : (k : ℕ) (t : Tables) → P t → P (record t { my_ilist = erase k t.my_ilist })
  pub file_made :
      (m pos flags k : ℕ) (n : Node) (t : Tables)
      → P t
      → find k t.my_ilist ≡ some n
      → P ((file_init m pos flags n.address t).1)
  pub file_erased :
      (fd : ℕ) (t : Tables) → P t → P (record t { my_open_ft = erase fd t.my_open_ft })

pub IsWellFormed-IsKept : IsKept IsWellFormed
IsWellFormed-IsKept = record {
  started = no_tables-IsWellFormed;
  inode_made = inode_init-IsWellFormed;
  inode_set = set_inode-IsWellFormed;
  inode_erased = erase-IsWellFormed;
  file_made = λ m pos flags k n t w e.
      file_init-IsWellFormed m pos flags n.address t w
        (All-find (λ e. e.1.address < t.addresses) k n t.my_ilist w.given e);
  file_erased = close-IsWellFormed;
}
