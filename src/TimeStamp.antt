-- ===== src/TimeStamp.antt =====
-- bwlib/time.c: timestamps, their error estimates, their eight and two bytes on the wire, and the
-- move between the epochs of 1900 and 1970. Byte fields are numbers below 256. The null checks of
-- the pointer arguments and the system calls that read the clock are left out.
pub mod Estimate
pub mod Wire
pub mod Epoch
use bwctl.Prelude.{
  ℕ, zero, suc, ◌+◌, ◌*◌, ◌/◌, ◌%◌, Bool, true, false, Option, none, some, List, [], ◌∷◌, ◌++◌, leb,
  ◌==◌, if◌then◌else◌, not,
}
use bwctl.Num64.{
  u32_mod, u64_mod, mask32, high32, num64_add, num64_sub, ulong_to_num64, usec_to_num64, Timespec,
  Timeval, num64_to_timespec, timespec_to_num64, num64_to_timeval, timeval_to_num64,
}

-- BWLTimeStamp
pub record TimeStamp : Type 0 where
  pub tstamp : ℕ
  pub sync : ℕ
  pub multiplier : ℕ
  pub scale : ℕ

-- BWLJAN_1970, the seconds between the epochs.
abbrev pub jan_1970 : ℕ
jan_1970 = 0x83aa7e80

-- htonl and ntohl with the copy to or from a buffer: four bytes, the most significant first.
be32_bytes : ℕ → List ℕ
be32_bytes t = t / 0x1000000 % 256 ∷ t / 0x10000 % 256 ∷ t / 0x100 % 256 ∷ t % 256 ∷ []

be32_value : ℕ → ℕ → ℕ → ℕ → ℕ
be32_value a b c d = a * 0x1000000 + b * 0x10000 + c * 0x100 + d

-- _BWLEncodeTimeStamp
unfoldable pub encode_time_stamp : TimeStamp → List ℕ
unfolding be32_bytes
encode_time_stamp t = be32_bytes (mask32 (high32 t.tstamp)) ++ be32_bytes (mask32 t.tstamp)

-- _BWLDecodeTimeStamp, on a buffer of eight bytes; any other buffer is none that the code passes.
unfoldable pub decode_time_stamp : TimeStamp → List ℕ → TimeStamp
unfolding be32_value
decode_time_stamp t (a ∷ b ∷ c ∷ d ∷ e ∷ f ∷ g ∷ h ∷ []) = record t {
  tstamp = be32_value a b c d * u32_mod + be32_value e f g h % u32_mod;
}
decode_time_stamp t _ = t

-- The first byte of an error estimate. `& 0x3F` is the remainder by 64, and `|= 0x80` on what is
-- below 64 adds 128.
abbrev pub err_estimate_byte : TimeStamp → ℕ
err_estimate_byte t = if t.sync == 0 then t.scale % 64 else t.scale % 64 + 128

-- _BWLEncodeTimeStampErrEstimate: `none` where the code returns False.
unfoldable pub encode_err_estimate : TimeStamp → Option (ℕ × ℕ)
encode_err_estimate t = if t.multiplier == 0 then none else some (err_estimate_byte t, t.multiplier)

-- _BWLDecodeTimeStampErrEstimate: the stamp and the result. `& 0x80` tests the digit of 128.
unfoldable pub decode_err_estimate : TimeStamp → ℕ × ℕ → TimeStamp × Bool
decode_err_estimate t (b0, b1) =
    let first = if b1 == 0 then 0 else b0 in
    (record t { sync = first / 128 % 2; scale = first % 64; multiplier = b1 }, not (b1 == 0))

-- The loop of BWLSetTimeStampError, `while (err >= 0xFF) { err >>= 1; scale++; }`, on fuel.
pub scale_down : ℕ → ℕ → ℕ → ℕ × ℕ
scale_down zero err scale = (err, scale)
scale_down (suc fuel) err scale =
    let rest = scale_down fuel (err / 2) (scale + 1) in if leb 0xFF err then rest else (err, scale)

-- BWLSetTimeStampError. Sixty-four halvings bring every 64-bit value to 0.
pub set_time_stamp_error : TimeStamp → ℕ → TimeStamp
set_time_stamp_error t val =
    let (err, scale) = scale_down 64 (val % u64_mod) 0 in
    record t { scale = scale % 256; multiplier = (err + 1) % 256 }

-- The loop of BWLGetTimeStampError, `while (scale > 0) { err <<= 1; scale--; }`.
unfoldable pub scale_up : ℕ → ℕ → ℕ
scale_up zero err = err
scale_up (suc scale) err = scale_up scale (err * 2 % u64_mod)

-- BWLGetTimeStampError
unfoldable pub get_time_stamp_error : TimeStamp → ℕ
get_time_stamp_error t = scale_up (t.scale % 64) (t.multiplier % 256)

-- BWLTimevalToTimeStamp and BWLTimeStampToTimeval
timeval_to_time_stamp : TimeStamp → Timeval → TimeStamp
timeval_to_time_stamp t tval = record t {
  tstamp = num64_add (timeval_to_num64 tval) (ulong_to_num64 jan_1970);
}

time_stamp_to_timeval : TimeStamp → Timeval
time_stamp_to_timeval t = num64_to_timeval (num64_sub t.tstamp (ulong_to_num64 jan_1970))

-- BWLTimespecToTimeStamp. A null `errest` or `last_errest` is `none`.
pub timespec_to_time_stamp : TimeStamp → Timespec → Option ℕ → Option ℕ → TimeStamp
timespec_to_time_stamp t tval errest last_errest =
    let moved = record t {
      tstamp = num64_add (timespec_to_num64 tval) (ulong_to_num64 jan_1970);
    } in
    let cleared = record moved { sync = 0; scale = 0; multiplier = 0 } in
    elim errest [
      | none ↦ cleared
      | some e ↦ if e == 0 then cleared else (elim last_errest [
        | none ↦ set_time_stamp_error moved (usec_to_num64 e)
        | some l ↦ if e == l then moved else set_time_stamp_error moved (usec_to_num64 e)
      ])
    ]

-- BWLTimeStampToTimespec
pub time_stamp_to_timespec : TimeStamp → Timespec
time_stamp_to_timespec t = num64_to_timespec (num64_sub t.tstamp (ulong_to_num64 jan_1970))

-- BWLNum64ToTimestamp: the second, in the epoch of 1970, that a time falls in.
unfoldable pub num64_to_timestamp : ℕ → ℕ
num64_to_timestamp tstamp = (num64_to_timespec (num64_sub tstamp (ulong_to_num64 jan_1970))).tv_sec

-- BWLTimestampToNum64: the sum is cut to a uint32_t by the call.
unfoldable pub timestamp_to_num64 : ℕ → ℕ
timestamp_to_num64 ts = ulong_to_num64 (ts + jan_1970)
