-- ===== src/TimeStamp/Epoch.antt =====
-- The move between the epochs, and seconds against fixed-point times.
use bwctl.Prelude.{ℕ, ◌+◌, ◌-◌, ◌*◌, ◌/◌, ◌%◌, ◌≤◌, ◌<◌, ◌≡◌, refl, Option, none, some, arith}
use bwctl.Num64.{
  u32_mod, u64_mod, billion, Timespec, timespec_to_num64, num64_add, num64_sub, ulong_to_num64,
}
use bwctl.Num64.Laws.{
  num64_to_timespec_lem, num64_to_timespec-timespec_to_num64, timespec_to_num64_lem,
}
use bwctl.TimeStamp.{
  TimeStamp, jan_1970, num64_to_timestamp, timestamp_to_num64, timespec_to_time_stamp,
  time_stamp_to_timespec, set_time_stamp_error,
}

-- The second of a time after 1970 (no wrap of the 32-bit seconds).
pub num64_to_timestamp_lem :
    (x : ℕ) → jan_1970 * u32_mod ≤ x → x < u64_mod → num64_to_timestamp x ≡ x / u32_mod - jan_1970
unfolding num64_to_timestamp
num64_to_timestamp_lem x lo h =
    ground (arith, num64_to_timespec_lem (num64_sub x (ulong_to_num64 jan_1970)) (omega arith))

-- A second taken to a fixed-point time and back is itself, whenever it fits 32 bits: the sum with
-- the epoch may wrap, and the difference wraps back.
num64_to_timestamp-timestamp_to_num64 :
    (ts : ℕ) → ts < u32_mod → num64_to_timestamp (timestamp_to_num64 ts) ≡ ts
unfolding num64_to_timestamp timestamp_to_num64
num64_to_timestamp-timestamp_to_num64 ts h = ground (
  arith,
  num64_to_timespec_lem (num64_sub (timestamp_to_num64 ts) (ulong_to_num64 jan_1970)) (omega arith),
)

-- A 64-bit time taken to its second and back is cut down to a whole second.
timestamp_to_num64-num64_to_timestamp :
    (x : ℕ) → x < u64_mod → timestamp_to_num64 (num64_to_timestamp x) ≡ x - x % u32_mod
unfolding num64_to_timestamp timestamp_to_num64
timestamp_to_num64-num64_to_timestamp x h =
    ground (arith, num64_to_timespec_lem (num64_sub x (ulong_to_num64 jan_1970)) (omega arith))

-- The shift between the epochs and back, modulo 2 ^ 64.
shift_back :
    (x : ℕ)
    → x < u64_mod
    → num64_sub (num64_add x (ulong_to_num64 jan_1970)) (ulong_to_num64 jan_1970) ≡ x
shift_back x h = omega arith

-- The error estimate does not change the time that is stored.
tstamp-timespec_to_time_stamp :
    (t : TimeStamp) (v : Timespec) (errest last_errest : Option ℕ)
    → (timespec_to_time_stamp t v errest last_errest).tstamp
      ≡ num64_add (timespec_to_num64 v) (ulong_to_num64 jan_1970)
unfolding timespec_to_time_stamp set_time_stamp_error
tstamp-timespec_to_time_stamp t v none l = refl
tstamp-timespec_to_time_stamp t v (some e) none = ground arith
tstamp-timespec_to_time_stamp t v (some e) (some l) = ground arith

-- A timespec whose seconds fit 32 bits, stored by BWLTimespecToTimeStamp with any error estimate,
-- comes back from BWLTimeStampToTimespec with the same seconds and at most one nanosecond less.
time_stamp_to_timespec-timespec_to_time_stamp :
    (t : TimeStamp) (v : Timespec) (errest last_errest : Option ℕ)
    → v.tv_sec < u32_mod
    → v.tv_nsec < billion
    → let back = time_stamp_to_timespec (timespec_to_time_stamp t v errest last_errest) in
      (back.tv_sec ≡ v.tv_sec) × (back.tv_nsec ≤ v.tv_nsec) × (v.tv_nsec ≤ back.tv_nsec + 1)
unfolding time_stamp_to_timespec
time_stamp_to_timespec-timespec_to_time_stamp t v errest last_errest hs hn =
    rw
      (
        tstamp-timespec_to_time_stamp t v errest last_errest,
        shift_back (timespec_to_num64 v) (omega (arith, timespec_to_num64_lem v hs hn)),
      )
      (num64_to_timespec-timespec_to_num64 v hs hn)
