-- ===== src/State/Modes.antt =====
-- The mode bits and the result codes that my_stubs.cc uses.
use cs179f_bbfs_project.Base.{ℕ, ◌/◌, ◌%◌, ◌≡◌, Bool, arith, ◌==◌}
use cs179f_bbfs_project.Base.Words.{or_bit, and_not, high-and_not}

-- `const int ok` and `const int an_err`: 0 and -1, as 32-bit patterns.
abbrev pub ok : ℕ
ok = 0

abbrev pub an_err : ℕ
an_err = 0xffffffff

-- `an_err` returned as an `ino_t`.
abbrev pub err_ino : ℕ
err_ino = 0xffffffffffffffff

-- `mode & S_IFMT`, as the number that stands in those four bits.
abbrev pub file_type : ℕ → ℕ
file_type mode = (mode / 0o10000) % 16

abbrev pub s_isdir : ℕ → Bool
s_isdir mode = file_type mode == 0o4

abbrev pub s_isreg : ℕ → Bool
s_isreg mode = file_type mode == 0o10

abbrev pub s_islnk : ℕ → Bool
s_islnk mode = file_type mode == 0o12

abbrev pub s_irusr : ℕ
s_irusr = 0o400

abbrev pub s_iwusr : ℕ
s_iwusr = 0o200

abbrev pub s_ixusr : ℕ
s_ixusr = 0o100

-- `mode | S_IFDIR`, `mode | S_IFREG`, and `mode | S_IFLNK`, which sets two bits.
abbrev pub or_ifdir : ℕ → ℕ
or_ifdir mode = or_bit 0o40000 mode

abbrev pub or_ifreg : ℕ → ℕ
or_ifreg mode = or_bit 0o100000 mode

abbrev pub or_iflnk : ℕ → ℕ
or_iflnk mode = or_bit 0o100000 (or_bit 0o20000 mode)

-- `mode & ~old_umask`, for a mask of permission bits.
unfoldable pub masked : ℕ → ℕ → ℕ
masked mode umask = and_not 9 mode umask

-- The mask leaves the type of the file alone.
pub file_type-masked : (mode umask : ℕ) → file_type (masked mode umask) ≡ file_type mode
unfolding masked
file_type-masked mode umask = omega (arith, high-and_not 9 mode umask)
