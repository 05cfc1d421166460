-- ===== src/TimeStamp/Wire.antt =====
-- The bytes of timestamps and error estimates: writing and reading are inverse to one another.
use bwctl.Prelude.{ℕ, ◌<◌, ◌≡◌, ◌≢◌, ◌↔◌, arith, [], ◌∷◌, none, some, true, false, All}
use bwctl.Num64.{u64_mod}
use bwctl.TimeStamp.{
  TimeStamp, encode_time_stamp, decode_time_stamp, encode_err_estimate, decode_err_estimate,
  err_estimate_byte,
}

-- A 64-bit time written by _BWLEncodeTimeStamp and read by _BWLDecodeTimeStamp into any record
-- comes back whole, and the read leaves the other fields of the record alone.
pub decode-encode_time_stamp :
    (t u : TimeStamp)
    → t.tstamp < u64_mod
    → decode_time_stamp u (encode_time_stamp t) ≡ record u { tstamp = t.tstamp }
unfolding decode_time_stamp encode_time_stamp
decode-encode_time_stamp t u h = ground arith

-- Any eight bytes read by _BWLDecodeTimeStamp are written back by _BWLEncodeTimeStamp as they were:
-- no two wire forms mean the same time.
encode-decode_time_stamp :
    (t : TimeStamp) (a b c d e f g h : ℕ)
    → All (λ x. x < 256) (a ∷ b ∷ c ∷ d ∷ e ∷ f ∷ g ∷ h ∷ [])
    → encode_time_stamp (decode_time_stamp t (a ∷ b ∷ c ∷ d ∷ e ∷ f ∷ g ∷ h ∷ []))
      ≡ a ∷ b ∷ c ∷ d ∷ e ∷ f ∷ g ∷ h ∷ []
unfolding decode_time_stamp encode_time_stamp
encode-decode_time_stamp t a b c d e f g h bytes = ground arith

-- Whether a stamp has an error estimate that can be sent.
abbrev pub HasEstimate : TimeStamp → Type 0
HasEstimate t = (t.multiplier ≢ 0) × (t.multiplier < 256) × (t.scale < 64) × (t.sync < 2)

-- An error estimate that _BWLEncodeTimeStampErrEstimate accepts is read back by
-- _BWLDecodeTimeStampErrEstimate as the same flag, scale and multiplier, with result True.
pub decode-encode_err_estimate :
    (t u : TimeStamp)
    → HasEstimate t
    → (b : ℕ × ℕ) × (encode_err_estimate t ≡ some b)
      × (b.0 < 256)
      × (decode_err_estimate u b
          ≡ (record u { sync = t.sync; scale = t.scale; multiplier = t.multiplier }, true))
unfolding decode_err_estimate encode_err_estimate
decode-encode_err_estimate t u h =
    ((err_estimate_byte t, t.multiplier), ground arith, ground arith, ground arith)

-- The estimate with multiplier 0 is the only one that is not sent, and the only one that is read
-- as False; reading it clears the flag and the scale.
err_estimate_invalid :
    (t u : TimeStamp) (b0 : ℕ)
    → ((encode_err_estimate t ≡ none) ↔ (t.multiplier ≡ 0))
      × (decode_err_estimate u (b0, 0) ≡ (record u { sync = 0; scale = 0; multiplier = 0 }, false))
unfolding decode_err_estimate encode_err_estimate
err_estimate_invalid t u b0 = ((λ e. ground arith, λ e. ground arith), ground arith)
