-- ===== src/Num64.antt =====
-- bwlib/arithm64.c and the BWLNum64 macros of bwlib/bwlib.h: 64-bit fixed-point times, the seconds
-- in the upper 32 bits and the fraction in the lower 32. A uint64_t is a number below 2 ^ 64 and
-- every operation wraps as the C operation does. The two conversions through `double` are left out.
pub mod Laws
mod Tests
use bwctl.Prelude.{ℕ, zero, suc, ◌+◌, ◌-◌, ◌*◌, ◌/◌, ◌%◌, ◌^◌, ltb, leb, if◌then◌else◌}

abbrev pub u32_mod : ℕ
u32_mod = 0x1_0000_0000

abbrev pub u64_mod : ℕ
u64_mod = 0x1_0000_0000_0000_0000

abbrev pub billion : ℕ
billion = 1_000_000_000

abbrev pub million : ℕ
million = 1_000_000

-- MASK32(x) and x >> 32
abbrev pub mask32 : ℕ → ℕ
mask32 x = x % u32_mod

abbrev pub high32 : ℕ → ℕ
high32 x = x / u32_mod

-- BWLNum64Add, BWLNum64Sub and BWLNum64Min. (BWLNum64Cmp is `ltb` where the code asks for < 0.)
abbrev pub num64_add : ℕ → ℕ → ℕ
num64_add x y = (x + y) % u64_mod

abbrev pub num64_sub : ℕ → ℕ → ℕ
num64_sub x y = (x + u64_mod - y) % u64_mod

abbrev pub num64_min : ℕ → ℕ → ℕ
num64_min x y = if ltb x y then x else y

-- BWLNum64Mult: the four partial products, each a uint64_t expression.
unfoldable pub num64_mult : ℕ → ℕ → ℕ
num64_mult x y =
    let xlo = mask32 x in
    let xhi = mask32 (high32 x) in
    let ylo = mask32 y in
    let yhi = mask32 (high32 y) in
    (high32 (xlo * ylo) + xhi * ylo + xlo * yhi + xhi * yhi * u32_mod % u64_mod) % u64_mod

-- BWLULongToNum64: the argument is a uint32_t.
abbrev pub ulong_to_num64 : ℕ → ℕ
ulong_to_num64 a = mask32 a * u32_mod

-- BWLI2numTToNum64: the argument is a uint64_t, whose upper half is shifted out.
abbrev pub i2num_to_num64 : ℕ → ℕ
i2num_to_num64 a = a * u32_mod % u64_mod

-- BWLUsecToNum64
abbrev pub usec_to_num64 : ℕ → ℕ
usec_to_num64 usec = mask32 usec * u32_mod / million

-- struct timespec and struct timeval, with seconds and fractions that are not negative.
pub record Timespec : Type 0 where
  pub tv_sec : ℕ
  pub tv_nsec : ℕ

pub record Timeval : Type 0 where
  pub tv_sec : ℕ
  pub tv_usec : ℕ

-- `while (frac >= unit) { sec++; frac -= unit; }` with `sec` below `sec_mod`, on fuel.
unfoldable pub carry : ℕ → ℕ → ℕ → ℕ → ℕ → ℕ × ℕ
carry zero sec_mod unit sec frac = (sec, frac)
carry (suc fuel) sec_mod unit sec frac =
    let rest = carry fuel sec_mod unit ((sec + 1) % sec_mod) (frac - unit) in
    if leb unit frac then rest else (sec, frac)

-- Rounds enough for a fraction that fits 32 bits and a unit of a million or more.
abbrev pub carry_fuel : ℕ
carry_fuel = 4295

-- BWLNum64ToTimespec. `tv_sec` is a 64-bit long.
unfoldable pub num64_to_timespec : ℕ → Timespec
num64_to_timespec from =
    let (sec, nsec) =
      carry carry_fuel u64_mod billion (mask32 (high32 from))
        (mask32 (high32 (mask32 from * billion))) in
    record { tv_sec = sec; tv_nsec = nsec }

-- BWLTimespecToNum64
pub timespec_to_num64 : Timespec → ℕ
timespec_to_num64 from =
    let (sec, nsec) = carry carry_fuel u32_mod billion (mask32 from.tv_sec) (mask32 from.tv_nsec) in
    mask32 sec * u32_mod + mask32 (nsec * u32_mod / billion)

-- BWLNum64ToTimeval
pub num64_to_timeval : ℕ → Timeval
num64_to_timeval from =
    let (sec, usec) =
      carry carry_fuel u64_mod million (mask32 (high32 from))
        (mask32 (high32 (mask32 from * million))) in
    record { tv_sec = sec; tv_usec = usec }

-- BWLTimevalToNum64
pub timeval_to_num64 : Timeval → ℕ
timeval_to_num64 from =
    let (sec, usec) = carry carry_fuel u32_mod million (mask32 from.tv_sec) (mask32 from.tv_usec) in
    mask32 sec * u32_mod + mask32 (usec * u32_mod / million)
