-- ===== src/Num64/Laws.antt =====
-- What the conversions of bwlib/arithm64.c keep, and what BWLNum64Mult computes.
use bwctl.Prelude.{
  ℕ, zero, suc, ◌+◌, ◌-◌, ◌*◌, ◌/◌, ◌%◌, ◌≤◌, ◌<◌, ◌≡◌, inl, inr, arith, leb, Bool-cases, leb→le,
  leb→lt,
}
use bwctl.Num64.{
  u32_mod, u64_mod, billion, million, num64_mult, carry, carry_fuel, Timespec, Timeval,
  num64_to_timespec, timespec_to_num64, num64_to_timeval, timeval_to_num64,
}

-- The product of two numbers given by their halves, shifted down by 32 bits.
mult_halves :
    (a b c d x y : ℕ)
    → x ≡ u32_mod * a + b
    → y ≡ u32_mod * c + d
    → (b * d / u32_mod + a * d + b * c + a * c * u32_mod % u64_mod) % u64_mod
      ≡ x * y / u32_mod % u64_mod
mult_halves a b c d x y p q = rw (p, q) (omega arith)

halves : (x : ℕ) → x < u64_mod → x ≡ u32_mod * (x / u32_mod % u32_mod) + x % u32_mod
halves x h = omega arith

-- For 64-bit operands, BWLNum64Mult is the fixed-point product: the whole product shifted down by
-- 32 bits, modulo 2 ^ 64.
pub num64_mult_lem :
    (x y : ℕ) → x < u64_mod → y < u64_mod → num64_mult x y ≡ x * y / u32_mod % u64_mod
unfolding num64_mult
num64_mult_lem x y hx hy =
    mult_halves (x / u32_mod % u32_mod) (x % u32_mod) (y / u32_mod % u32_mod) (y % u32_mod) x y
      (halves x hx) (halves y hy)

-- A fraction below the unit leaves the loop at once.
carry_idle : (n m unit sec frac : ℕ) → frac < unit → carry (suc n) m unit sec frac ≡ (sec, frac)
unfolding carry
carry_idle n m unit sec frac h = ground arith

-- With fuel enough the loop ends by its test: the fraction is below the unit.
carry_bounded : (n m unit sec frac : ℕ) → frac < n * unit → (carry n m unit sec frac).1 < unit
unfolding carry
carry_bounded zero m unit sec frac h = absurd (omega arith)
carry_bounded (suc n) m unit sec frac h = elim (Bool-cases (leb unit frac)) [
  | inl more ↦
      rw more
        (carry_bounded n m unit ((sec + 1) % m) (frac - unit) (omega (arith, leb→le _ _ more)))
  | inr done ↦ rw done (leb→lt _ _ done)
]

-- The conversions with their loops gone.
pub num64_to_timespec_lem :
    (x : ℕ)
    → x < u64_mod
    → num64_to_timespec x
      ≡ record { tv_sec = x / u32_mod; tv_nsec = x % u32_mod * billion / u32_mod }
unfolding num64_to_timespec
num64_to_timespec_lem x h = ground (
  arith,
  carry_idle 4294 u64_mod billion (x / u32_mod % u32_mod)
      (x % u32_mod * billion / u32_mod % u32_mod) (omega arith),
)

pub timespec_to_num64_lem :
    (t : Timespec)
    → t.tv_sec < u32_mod
    → t.tv_nsec < billion
    → timespec_to_num64 t ≡ t.tv_sec * u32_mod + t.tv_nsec * u32_mod / billion
unfolding timespec_to_num64
timespec_to_num64_lem t hs hn = ground (
  arith,
  carry_idle 4294 u32_mod billion (t.tv_sec % u32_mod) (t.tv_nsec % u32_mod) (omega arith),
)

num64_to_timeval_lem :
    (x : ℕ)
    → x < u64_mod
    → num64_to_timeval x
      ≡ record { tv_sec = x / u32_mod; tv_usec = x % u32_mod * million / u32_mod }
unfolding num64_to_timeval
num64_to_timeval_lem x h = ground (
  arith,
  carry_idle 4294 u64_mod million (x / u32_mod % u32_mod)
      (x % u32_mod * million / u32_mod % u32_mod) (omega arith),
)

timeval_to_num64_lem :
    (t : Timeval)
    → t.tv_sec < u32_mod
    → t.tv_usec < million
    → timeval_to_num64 t ≡ t.tv_sec * u32_mod + t.tv_usec * u32_mod / million
unfolding timeval_to_num64
timeval_to_num64_lem t hs hn = ground (
  arith,
  carry_idle 4294 u32_mod million (t.tv_sec % u32_mod) (t.tv_usec % u32_mod) (omega arith),
)

-- A 64-bit time taken to nanoseconds by BWLNum64ToTimespec and back by BWLTimespecToNum64 never
-- grows, and loses at most five units of the last place.
timespec_to_num64-num64_to_timespec :
    (x : ℕ)
    → x < u64_mod
    → (timespec_to_num64 (num64_to_timespec x) ≤ x)
      × (x ≤ timespec_to_num64 (num64_to_timespec x) + 5)
timespec_to_num64-num64_to_timespec x h =
    rw
      (
        num64_to_timespec_lem x h,
        timespec_to_num64_lem
            (record { tv_sec = x / u32_mod; tv_nsec = x % u32_mod * billion / u32_mod })
            (omega arith) (omega arith),
      )
      (omega arith)

-- A timespec whose seconds fit 32 bits and whose nanoseconds are below a billion comes back from
-- the wire format with the same seconds and at most one nanosecond less.
pub num64_to_timespec-timespec_to_num64 :
    (t : Timespec)
    → t.tv_sec < u32_mod
    → t.tv_nsec < billion
    → ((num64_to_timespec (timespec_to_num64 t)).tv_sec ≡ t.tv_sec)
      × ((num64_to_timespec (timespec_to_num64 t)).tv_nsec ≤ t.tv_nsec)
      × (t.tv_nsec ≤ (num64_to_timespec (timespec_to_num64 t)).tv_nsec + 1)
num64_to_timespec-timespec_to_num64 t hs hn =
    rw
      (
        timespec_to_num64_lem t hs hn,
        num64_to_timespec_lem (t.tv_sec * u32_mod + t.tv_nsec * u32_mod / billion) (omega arith),
      )
      (omega arith)

-- The same for microseconds: a timeval comes back with the same seconds and at most one
-- microsecond less.
num64_to_timeval-timeval_to_num64 :
    (t : Timeval)
    → t.tv_sec < u32_mod
    → t.tv_usec < million
    → ((num64_to_timeval (timeval_to_num64 t)).tv_sec ≡ t.tv_sec)
      × ((num64_to_timeval (timeval_to_num64 t)).tv_usec ≤ t.tv_usec)
      × (t.tv_usec ≤ (num64_to_timeval (timeval_to_num64 t)).tv_usec + 1)
num64_to_timeval-timeval_to_num64 t hs hn =
    rw
      (
        timeval_to_num64_lem t hs hn,
        num64_to_timeval_lem (t.tv_sec * u32_mod + t.tv_usec * u32_mod / million) (omega arith),
      )
      (omega arith)

-- Any timespec at all, also one whose nanosecond field (a uint32_t in the code) is not a proper
-- fraction, is brought to one by the loop of BWLTimespecToNum64 within the fuel; so too the loop
-- over microseconds.
pub carry_fuel_suffices :
    (m sec frac : ℕ)
    → frac < u32_mod
    → ((carry carry_fuel m billion sec frac).1 < billion)
      × ((carry carry_fuel m million sec frac).1 < million)
carry_fuel_suffices m sec frac h = (
  carry_bounded carry_fuel m billion sec frac (omega arith),
  carry_bounded carry_fuel m million sec frac (omega arith),
)
