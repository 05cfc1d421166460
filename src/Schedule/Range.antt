-- ===== src/Schedule/Range.antt =====
-- bwctld/bwctld.c: the times of a reservation while the search of ChldReservationDemand moves them,
-- where none of them wraps, and the seconds that they come to.
use bwctl.Prelude.{ℕ, suc, ◌+◌, ◌-◌, ◌*◌, ◌/◌, ◌≤◌, ◌<◌, ◌≡◌, List, [], ◌∷◌, arith}
use bwctl.Num64.{u32_mod, u64_mod}
use bwctl.TimeStamp.{jan_1970, timestamp_to_num64}
use bwctl.TimeStamp.Epoch.{num64_to_timestamp_lem}
use bwctl.Tools.{TestType}
use bwctl.Schedule.{TimeSlot}
use bwctl.Schedule.Timeline.{Timeline}
use bwctl.Schedule.Load.{Fits}
use bwctl.Schedule.Search.{
  Wish, Times, times_from, first_second, last_second, recheck, times_behind,
}

-- 1970 as a fixed-point time.
abbrev pub jan64 : ℕ
jan64 = jan_1970 * u32_mod

-- The times belong together, after 1970, and their sums did not wrap.
pub record InRange (w : Wish) (t : Times) : Type 0 where
  pub after_epoch : jan64 ≤ t.start
  pub no_wrap : t.start + w.fuzz + w.dtime < u64_mod
  pub restime_sum : t.restime ≡ t.start + w.fuzz
  pub end_sum : t.end ≡ t.start + w.fuzz + w.dtime

-- A reservation behind the slot would not wrap either.
abbrev pub Below : Wish → TimeSlot → Type 0
Below w s = (s.end + 1 + jan_1970) * u32_mod + w.fuzz + w.dtime < u64_mod

pub times_from-InRange :
    (w : Wish) (start : ℕ)
    → jan64 ≤ start
    → start + w.fuzz + w.dtime < u64_mod
    → InRange w (times_from w start)
unfolding times_from
times_from-InRange w start lo hi = ground arith

pub recheck-InRange : (w : Wish) (t : Times) → InRange w t → recheck w t ≡ t
unfolding recheck times_from
recheck-InRange w t v = ground arith

pub first_second_lem :
    (w : Wish) (t : Times) → InRange w t → first_second t ≡ t.start / u32_mod - jan_1970
unfolding first_second
first_second_lem w t v = num64_to_timestamp_lem t.start v.after_epoch (omega arith)

last_second_lem :
    (w : Wish) (t : Times) → InRange w t → last_second t ≡ t.end / u32_mod - jan_1970 + 1
unfolding last_second
last_second_lem w t v = omega (arith, num64_to_timestamp_lem t.end (omega arith) (omega arith))

pub first-lt-last : (w : Wish) (t : Times) → InRange w t → first_second t < last_second t
first-lt-last w t v = omega (arith, first_second_lem w t v, last_second_lem w t v)

pub times_behind-InRange : (w : Wish) (s : TimeSlot) → Below w s → InRange w (times_behind w s)
unfolding times_behind timestamp_to_num64
times_behind-InRange w s h =
    times_from-InRange w (timestamp_to_num64 (s.end + 1)) (omega arith) (omega arith)

pub start-times_behind :
    (w : Wish) (s : TimeSlot)
    → Below w s
    → (times_behind w s).start ≡ (s.end + 1 + jan_1970) * u32_mod
unfolding times_behind times_from timestamp_to_num64
start-times_behind w s h = omega arith

pub first_second-times_behind :
    (w : Wish) (s : TimeSlot) → Below w s → first_second (times_behind w s) ≡ s.end + 1
first_second-times_behind w s h = omega (
  arith,
  first_second_lem w (times_behind w s) (times_behind-InRange w s h),
  start-times_behind w s h,
)

pub Fits-behind :
    (test : TestType) (a b n : ℕ) (slots : List TimeSlot)
    → Timeline n slots
    → b < n
    → Fits test a b slots
Fits-behind test a b n [] v h = tt
Fits-behind test a b n (s ∷ slots) v h =
    (λ p q. absurd (omega arith), Fits-behind test a b (suc s.end) slots v.4 (omega arith))
