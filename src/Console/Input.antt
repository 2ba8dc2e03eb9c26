-- ===== src/Console/Input.antt =====
-- The standard streams that `main` of ProjectWOFuse/src/my_stubs.cc reads with `>>`, `getline` and
-- `ignore`, on an input that is a fixed text, and the numbers and words that it reads and records.
pub mod Scan
use cs179f_bbfs_project.Base.{
  ℕ, zero, suc, ◌+◌, ◌-◌, ◌*◌, ◌/◌, ◌%◌, ◌^◌, Bool, true, false, not, ◌&&◌, ◌||◌, Option, none,
  some, List, [], ◌∷◌, ◌++◌, ltb, leb, ◌==◌, if◌then◌else◌, Bytes,
}

-- `eofbit`, `failbit`, and the base that `oct` and `dec` set.
pub record Stream : Type 0 where
  pub rest : Bytes
  pub at_eof : Bool
  pub failed : Bool
  pub base : ℕ

abbrev pub good : Stream → Bool
good s = not (s.at_eof || s.failed)

-- `isspace`.
abbrev pub is_space : ℕ → Bool
is_space c = c == 32 || (leb 9 c && leb c 13)

unfoldable pub skip_spaces : Bytes → Bytes
skip_spaces [] = []
skip_spaces (c ∷ s) = let rest = skip_spaces s in if is_space c then rest else c ∷ s

-- The bytes before the first space, and those from there on.
unfoldable pub span_word : Bytes → Bytes × Bytes
span_word [] = ([], [])
span_word (c ∷ s) = let (w, r) = span_word s in if is_space c then ([], c ∷ s) else (c ∷ w, r)

abbrev pub is_end : Bytes → Bool
is_end [] = true
is_end (c ∷ s) = false

-- An extraction: nothing where the stream was not good, or ended before anything but space was
-- read. The variable is then left as it was.
abbrev pub extract : {A : Type 0} → (Bytes → A × (Bool × Bytes)) → Stream → Option A × Stream
extract scan s =
    if not (good s) then (none, record s { failed = true }) else elim (skip_spaces s.rest) [
      | [] ↦ (none, record s { rest = []; at_eof = true; failed = true })
      | c ∷ t ↦
          let (a, (bad, r)) = scan (c ∷ t) in
          (some a, record s { rest = r; at_eof = is_end r; failed = bad })
    ]

unfoldable pub read_word : Stream → Option Bytes × Stream
unfolding skip_spaces span_word
read_word = extract (λ t. let (w, r) = span_word t in (w, (false, r)))

-- The digits of a base at the start of a text, added to a number.
unfoldable pub scan_digits : (base n : ℕ) → Bytes → ℕ × Bytes
scan_digits base n [] = (n, [])
scan_digits base n (c ∷ s) =
    let more = scan_digits base (n * base + (c - 48)) s in
    if leb 48 c && ltb c (48 + base) then more else (n, c ∷ s)

-- The types of the variables that numbers are read into: `int`, `unsigned int` and `long`.
pub data Target : Type 0 where
  int_target unsigned_target long_target : Target

-- The largest value, and the largest magnitude of a negative one.
abbrev pub greatest : Target → ℕ
greatest int_target = 2 ^ 31 - 1
greatest unsigned_target = 2 ^ 32 - 1
greatest long_target = 2 ^ 63 - 1

abbrev pub least : Target → ℕ
least int_target = 2 ^ 31
least unsigned_target = 2 ^ 32 - 1
least long_target = 2 ^ 63

abbrev pub modulus : Target → ℕ
modulus int_target = 2 ^ 32
modulus unsigned_target = 2 ^ 32
modulus long_target = 2 ^ 64

-- The pattern that is stored for a sign and a magnitude, and whether it is out of range. An unsigned
-- one out of range becomes the largest value, whatever the sign.
unfoldable pub store : Target → (negative : Bool) → ℕ → ℕ × Bool
store unsigned_target negative n =
    if ltb (2 ^ 32 - 1) n
    then (2 ^ 32 - 1, true)
    else if negative
    then ((2 ^ 32 - n) % 2 ^ 32, false)
    else (n, false)
store t true n =
    if ltb (least t) n then (modulus t - least t, true) else ((modulus t - n) % modulus t, false)
store t false n = if ltb (greatest t) n then (greatest t, true) else (n, false)

-- A number without its sign. Where there is no digit, 0 is stored and the extraction fails.
unfoldable pub scan_magnitude : Target → (base : ℕ) → (negative : Bool) → Bytes → ℕ × (Bool × Bytes)
unfolding scan_digits store
scan_magnitude t base negative [] = (0, (true, []))
scan_magnitude t base negative (c ∷ s) =
    let (n, r) = scan_digits base 0 (c ∷ s) in
    let (value, out_of_range) = store t negative n in
    if leb 48 c && ltb c (48 + base) then (value, (out_of_range, r)) else (0, (true, c ∷ s))

unfoldable pub scan_number : Target → (base : ℕ) → Bytes → ℕ × (Bool × Bytes)
unfolding scan_magnitude
scan_number t base [] = (0, (true, []))
scan_number t base (c ∷ s) =
    if c == b'-'
    then scan_magnitude t base true s
    else if c == b'+'
    then scan_magnitude t base false s
    else scan_magnitude t base false (c ∷ s)

unfoldable pub read_number : Target → Stream → Option ℕ × Stream
unfolding skip_spaces scan_number
read_number t s = extract (scan_number t s.base) s

-- `>> oct` and `>> dec`.
abbrev pub with_base : ℕ → Stream → Stream
with_base b s = record s { base = b }

-- The bytes before the first newline, those behind it, and whether there is one.
unfoldable pub span_line : Bytes → Bytes × (Bool × Bytes)
span_line [] = ([], (false, []))
span_line (c ∷ s) =
    let (line, (ended, r)) = span_line s in
    if c == b'\n' then ([], (true, s)) else (c ∷ line, (ended, r))

-- `getline`. Nothing where the stream was not good.
unfoldable pub get_line : Stream → Option Bytes × Stream
unfolding span_line
get_line s =
    let (line, (ended, r)) = span_line s.rest in
    if good s
    then (some line, record s { rest = r; at_eof = not ended; failed = is_end s.rest })
    else (none, record s { failed = true })

-- `cin.ignore()`.
unfoldable pub ignore_byte : Stream → Stream
ignore_byte s =
    if good s
    then elim s.rest [ [] ↦ record s { at_eof = true } | c ∷ r ↦ record s { rest = r } ]
    else record s { failed = true }

-- The digits of a number, for as many rounds as are given.
unfoldable pub digits_loop : (rounds base n : ℕ) → Bytes → Bytes
digits_loop zero base n out = out
digits_loop (suc k) base n out =
    let rest = digits_loop k base (n / base) ((48 + n % base) ∷ out) in if n == 0 then out else rest

-- A 32-bit number as `<<` prints it. It has at most 32 digits.
unfoldable pub digits : (base n : ℕ) → Bytes
unfolding digits_loop
digits base n = if n == 0 then 48 ∷ [] else digits_loop 32 base n []
