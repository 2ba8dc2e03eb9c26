-- ===== src/Base/Words.antt =====
-- Machine integers as bit patterns: a value of w bits is a number below 2 ^ w, and a signed one is
-- read in two's complement. Single bits of a `mode_t` are read and set by division.
use Prim.Native.Nat.{ℕ, zero, suc, ◌+◌, ◌-◌, ◌*◌, ◌/◌, ◌%◌, ◌^◌, ◌<◌, ◌≤◌}
use mathlib.Core.Path.{◌≡◌, refl}
use mathlib.Core.Bool.{Bool}
use native.Mathlib.Omega.{arith}
use cs179f_bbfs_project.Base.Tests.{ltb, leb, ◌==◌, if◌then◌else◌}

-- The conversion to a 32-bit `int`.
abbrev pub as_int : ℕ → ℕ
as_int n = n % 2 ^ 32

-- The conversion of an `int` to a 64-bit type, signed or not: the sign bit is copied.
abbrev pub of_int : ℕ → ℕ
of_int n = if ltb n (2 ^ 31) then n else n + (2 ^ 64 - 2 ^ 32)

-- `a < b` on 64-bit signed integers.
abbrev pub slt : ℕ → ℕ → Bool
slt a b = ltb ((a + 2 ^ 63) % 2 ^ 64) ((b + 2 ^ 63) % 2 ^ 64)

-- `x < 0` on a 64-bit signed integer.
abbrev pub is_neg : ℕ → Bool
is_neg a = leb (2 ^ 63) a

abbrev pub add64 : ℕ → ℕ → ℕ
add64 a b = (a + b) % 2 ^ 64

abbrev pub sub64 : ℕ → ℕ → ℕ
sub64 a b = (a + 2 ^ 64 - b) % 2 ^ 64

-- `n++` and `n--` on a 64-bit unsigned number.
abbrev pub inc64 : ℕ → ℕ
inc64 n = add64 n 1

abbrev pub dec64 : ℕ → ℕ
dec64 n = sub64 n 1

-- Whether the bit of weight `w`, a power of two, is set in `m`.
abbrev pub has_bit : ℕ → ℕ → Bool
has_bit w m = (m / w) % 2 == 1

-- `m | w` for a single bit `w`.
abbrev pub or_bit : ℕ → ℕ → ℕ
or_bit w m = if has_bit w m then m else m + w

-- `m & ~u` for a `u` below 2 ^ k.
unfoldable pub and_not : ℕ → ℕ → ℕ → ℕ
and_not zero m u = m
and_not (suc k) m u = 2 * and_not k (m / 2) (u / 2) + (if u % 2 == 1 then 0 else m % 2)

-- `m` without its low k bits.
abbrev pub high : ℕ → ℕ → ℕ
high zero m = m
high (suc k) m = high k (m / 2)

pub high-and_not : (k m u : ℕ) → high k (and_not k m u) ≡ high k m
unfolding and_not
high-and_not zero m u = refl
high-and_not (suc k) m u = rw half (high-and_not k (m / 2) (u / 2))
  where
    half :
        (2 * and_not k (m / 2) (u / 2) + (if u % 2 == 1 then 0 else m % 2)) / 2
        ≡ and_not k (m / 2) (u / 2)
    half = ground arith

-- Below 2 ^ 31 a conversion to `int` and back keeps the number.
pub of_int-as_int : (n : ℕ) → n < 2 ^ 31 → of_int (as_int n) ≡ n
of_int-as_int n h = ground arith

pub slt_small : (a b : ℕ) → a < 2 ^ 31 → b < 2 ^ 31 → slt a b ≡ ltb a b
slt_small a b h k = ground arith

pub end_small :
    (offset size : ℕ)
    → offset + size < 2 ^ 31
    → 0 < size
    → sub64 (add64 offset size) 1 ≡ offset + size - 1
end_small offset size h k = ground arith

pub left_small : (n offset : ℕ) → n < 2 ^ 31 → offset ≤ n → as_int (sub64 n offset) ≡ n - offset
left_small n offset h k = ground arith
