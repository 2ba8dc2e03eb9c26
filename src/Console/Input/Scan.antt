-- ===== src/Console/Input/Scan.antt =====
-- What `>>` finds in a text that `<<` wrote.
use cs179f_bbfs_project.Base.{
  ℕ, zero, suc, ◌+◌, ◌-◌, ◌*◌, ◌/◌, ◌%◌, ◌^◌, ◌<◌, ◌≤◌, ◌≡◌, refl, ap, ◌∙◌, inl, inr, Bool, true,
  false, ◌&&◌, some, [], ◌∷◌, ◌++◌, arith, ltb, leb, ◌==◌, All, Bool-cases, Bytes,
}
use cs179f_bbfs_project.Console.Input.{
  Stream, is_space, skip_spaces, span_word, is_end, extract, read_word, scan_digits,
  unsigned_target, store, scan_magnitude, scan_number, read_number, with_base, digits_loop, digits,
}

-- A word: some bytes, none of them a space.
pub record IsWord (w : Bytes) : Type 0 where
  pub some_byte : is_end w ≡ false
  pub no_space : All (λ c. is_space c ≡ false) w

-- A stream that is good and holds a text, up to the spaces in front.
pub record Offers (s : Stream) (x : Bytes) : Type 0 where
  pub not_at_eof : s.at_eof ≡ false
  pub not_failed : s.failed ≡ false
  pub holds : skip_spaces s.rest ≡ skip_spaces x

span_word-append :
    (w : Bytes) (c : ℕ) (x : Bytes)
    → All (λ b. is_space b ≡ false) w
    → is_space c ≡ true
    → span_word (w ++ c ∷ x) ≡ (w, c ∷ x)
unfolding span_word
span_word-append [] c x h space = rw space
span_word-append (b ∷ w) c x (hb, h) space = rw (hb, span_word-append w c x h space)

skip_spaces_word : (w x : Bytes) → IsWord w → skip_spaces (w ++ x) ≡ w ++ x
unfolding skip_spaces
skip_spaces_word [] x h = cc h.some_byte
skip_spaces_word (c ∷ w) x h = rw (h.no_space.0)

-- An extraction from a good stream that has something but space.
extract_offered :
    {A : Type 0} (scan : Bytes → A × (Bool × Bytes)) (s : Stream) (x : Bytes) (c : ℕ) (t : Bytes)
    → Offers s x
    → skip_spaces x ≡ c ∷ t
    → extract scan s ≡ (
      some (scan (c ∷ t)).0,
      record s {
        rest = (scan (c ∷ t)).1.1;
        at_eof = is_end (scan (c ∷ t)).1.1;
        failed = (scan (c ∷ t)).1.0;
      },
    )
extract_offered scan s x c t o e =
    let held : skip_spaces s.rest ≡ c ∷ t = o.holds ∙ e in
    rw (o.not_at_eof, o.not_failed, held) refl

skip_spaces_space : (c : ℕ) (x : Bytes) → is_space c ≡ true → skip_spaces (c ∷ x) ≡ skip_spaces x
unfolding skip_spaces
skip_spaces_space c x space = rw space

-- A word with a space behind it is read, and what is behind them is left.
pub read_word_lem :
    (s : Stream) (w x : Bytes) (c : ℕ)
    → Offers s (w ++ c ∷ x)
    → IsWord w
    → is_space c ≡ true
    → (t : Stream) × (read_word s ≡ (some w, t)) × Offers t x
unfolding read_word
read_word_lem s [] x c o h space = cc h.some_byte
read_word_lem s (b ∷ w) x c o h space =
    let e : span_word (b ∷ (w ++ c ∷ x)) ≡ (b ∷ w, c ∷ x) =
      span_word-append (b ∷ w) c x h.no_space space in
    let t : Stream = record s { rest = c ∷ x; at_eof = false; failed = false } in
    (
      t,
      extract_offered (λ u. let (v, r) = span_word u in (v, (false, r))) s _ b (w ++ c ∷ x) o
            (skip_spaces_word (b ∷ w) (c ∷ x) h)
          ∙ rw e refl,
      record { not_at_eof = refl; not_failed = refl; holds = skip_spaces_space c x space },
    )

-- The bases whose digits are those of a decimal number, and what the arithmetic of one is.
pub record IsBase (base : ℕ) : Type 0 where
  pub whole : (n : ℕ) → (n / base) * base + n % base ≡ n
  pub digit : (n : ℕ) → n % base < base
  pub less : (n m : ℕ) → n < 2 * m → n / base < m
  pub few : base ≤ 10

pub octal : IsBase 8
octal = record {
  whole = λ n. omega arith;
  digit = λ n. omega arith;
  less = λ n m h. omega (arith, h);
  few = omega arith;
}

pub decimal : IsBase 10
decimal = record {
  whole = λ n. omega arith;
  digit = λ n. omega arith;
  less = λ n m h. omega (arith, h);
  few = omega arith;
}

abbrev pub is_digit : (base c : ℕ) → Bool
is_digit base c = leb 48 c && ltb c (48 + base)

-- The first byte is a digit.
abbrev pub starts_digit : ℕ → Bytes → Bool
starts_digit base [] = false
starts_digit base (c ∷ s) = is_digit base c

module _ {base : ℕ} (b : IsBase base) where
  digits_loop-starts_digit :
      (k n : ℕ) (out : Bytes)
      → starts_digit base out ≡ true
      → starts_digit base (digits_loop k base n out) ≡ true
  unfolding digits_loop
  digits_loop-starts_digit zero n out h = h
  digits_loop-starts_digit (suc k) n out h = elim (Bool-cases (n == 0)) [
    | inl done ↦ rw done h
    | inr more ↦
        rw more (
          digits_loop-starts_digit k (n / base) ((48 + n % base) ∷ out) (ground (arith, b.digit n)))
  ]

  digits-starts_digit : (n : ℕ) → starts_digit base (digits base n) ≡ true
  unfolding digits digits_loop
  digits-starts_digit n = elim (Bool-cases (n == 0)) [
    | inl is_zero ↦ rw is_zero (ground (arith, b.digit 0))
    | inr more ↦
        rw (more, digits_loop)
          (digits_loop-starts_digit 31 (n / base) ((48 + n % base) ∷ [])
            (ground (arith, b.digit n)))
  ]

  scan_digits-digits_loop :
      (k n : ℕ) (out : Bytes)
      → n < 2 ^ k
      → scan_digits base 0 (digits_loop k base n out) ≡ scan_digits base n out
  unfolding digits_loop scan_digits
  scan_digits-digits_loop zero n out h = let p : n ≡ 0 = omega (arith, h) in rw p refl
  scan_digits-digits_loop (suc k) n out h = elim (Bool-cases (n == 0)) [
    | inl done ↦ let p : n ≡ 0 = ground arith in rw (done, p) refl
    | inr more ↦
        let small : n / base < 2 ^ k = b.less n (2 ^ k) (omega (arith, h)) in
        let read : (leb 48 (48 + n % base) && ltb (48 + n % base) (48 + base)) ≡ true =
          ground (arith, b.digit n) in
        let value : (n / base) * base + (48 + n % base - 48) ≡ n = omega (arith, b.whole n) in
        rw more (
          scan_digits-digits_loop k (n / base) ((48 + n % base) ∷ out) small
          ∙ rw (scan_digits, read, value) refl)
  ]

  digits_loop-append :
      (k n : ℕ) (out r : Bytes) → digits_loop k base n out ++ r ≡ digits_loop k base n (out ++ r)
  unfolding digits_loop
  digits_loop-append zero n out r = refl
  digits_loop-append (suc k) n out r = elim (Bool-cases (n == 0)) [
    | inl done ↦ rw done refl
    | inr more ↦ rw more (digits_loop-append k (n / base) ((48 + n % base) ∷ out) r)
  ]

  digits_nonzero : (n : ℕ) → (n == 0) ≡ false → digits base n ≡ digits_loop 32 base n []
  unfolding digits digits_loop
  digits_nonzero n more = rw more refl

  digits_zero : digits base 0 ≡ 48 ∷ []
  unfolding digits
  digits_zero = refl

  scan_digits-digits :
      (n c : ℕ) (x : Bytes)
      → n < 2 ^ 32
      → is_space c ≡ true
      → scan_digits base 0 (digits base n ++ c ∷ x) ≡ (n, c ∷ x)
  unfolding scan_digits
  scan_digits-digits n c x fits space =
      let no_digit : is_digit base c ≡ false = ground (arith, b.few) in
      elim (Bool-cases (n == 0)) [
        | inl is_zero ↦
            let p : n ≡ 0 = ground arith in
            let digit : is_digit base 48 ≡ true = ground (arith, b.digit 0) in
            let zero_first : 0 * base + 0 ≡ 0 = omega arith in
            rw (p, digits_zero) (rw (digit, no_digit, zero_first) refl)
        | inr more ↦
            ap (λ s. scan_digits base 0 (s ++ c ∷ x)) (digits_nonzero n more)
            ∙ ap (scan_digits base 0) (digits_loop-append 32 n [] (c ∷ x))
            ∙ scan_digits-digits_loop 32 n (c ∷ x) fits
            ∙ rw no_digit refl
      ]

  starts_digit-append :
      (s r : Bytes) → starts_digit base s ≡ true → starts_digit base (s ++ r) ≡ true
  starts_digit-append [] r h = cc h
  starts_digit-append (c ∷ s) r h = h

  -- A number in front of a space is scanned whole.
  scan_number_lem :
      (s : Bytes) (n : ℕ) (x : Bytes)
      → starts_digit base s ≡ true
      → n < 2 ^ 32
      → scan_digits base 0 s ≡ (n, x)
      → scan_number unsigned_target base s ≡ (n, (false, x))
  unfolding scan_number scan_magnitude store
  scan_number_lem [] n x h fits e = cc h
  scan_number_lem (c ∷ s) n x h fits e =
      let minus : (c == b'-') ≡ false = ground arith in
      let plus : (c == b'+') ≡ false = ground arith in
      let in_range : ltb (2 ^ 32 - 1) n ≡ false = ground arith in
      rw (minus, plus) (rw (e, h, in_range) refl)

  skip_spaces_digit : (s : Bytes) → starts_digit base s ≡ true → skip_spaces s ≡ s
  unfolding skip_spaces
  skip_spaces_digit [] h = cc h
  skip_spaces_digit (c ∷ s) h =
      let no_space : is_space c ≡ false = ground (arith, b.few) in rw no_space refl

  number_offered :
      (s : Stream) (text : Bytes) (n : ℕ) (x : Bytes) (c : ℕ)
      → Offers (with_base base s) text
      → starts_digit base text ≡ true
      → scan_number unsigned_target base text ≡ (n, (false, c ∷ x))
      → is_space c ≡ true
      → (t : Stream) × (read_number unsigned_target (with_base base s) ≡ (some n, t)) × Offers t x
  unfolding read_number
  number_offered s [] n x c o h e space = cc h
  number_offered s (d ∷ u) n x c o h e space = (
    record (with_base base s) { rest = c ∷ x; at_eof = false; failed = false },
    extract_offered (scan_number unsigned_target base) (with_base base s) (d ∷ u) d u o
          (skip_spaces_digit (d ∷ u) h)
        ∙ rw e refl,
    record { not_at_eof = refl; not_failed = refl; holds = skip_spaces_space c x space },
  )

  -- A number that was written in a base is read back in that base.
  pub read_number_lem :
      (s : Stream) (n : ℕ) (x : Bytes) (c : ℕ)
      → Offers s (digits base n ++ c ∷ x)
      → n < 2 ^ 32
      → is_space c ≡ true
      → (t : Stream) × (read_number unsigned_target (with_base base s) ≡ (some n, t)) × Offers t x
  read_number_lem s n x c o fits space =
      let text : Bytes = digits base n ++ c ∷ x in
      let starts : starts_digit base text ≡ true =
        starts_digit-append (digits base n) (c ∷ x) (digits-starts_digit n) in
      number_offered s text n x c
        (record { not_at_eof = o.not_at_eof; not_failed = o.not_failed; holds = o.holds }) starts
        (scan_number_lem text n (c ∷ x) starts fits (scan_digits-digits n c x fits space)) space
