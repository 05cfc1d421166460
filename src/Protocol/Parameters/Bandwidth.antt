-- ===== src/Protocol/Parameters/Bandwidth.antt =====
-- The bandwidth of a test request, which is sent as a number of 32 bits and an exponent.
use bwctl.Prelude.{ℕ, zero, suc, ◌+◌, ◌/◌, ◌<◌, ◌≤◌, arith, Bool-cases, leb, inl, inr, leb→le}
use bwctl.Protocol.Parameters.{scale_bandwidth, shift_left}

-- What is left of a bandwidth that was scaled by an exponent.
abbrev Scaled : ℕ → ℕ → ℕ × ℕ → Type 0
Scaled fuel bandwidth (m, e) =
    (m < 0x100000000)
    × (e ≤ fuel)
    × (shift_left e m ≤ bandwidth)
    × (bandwidth < shift_left e m + shift_left e 1)

pub scale_bandwidth-Scaled :
    (fuel bandwidth : ℕ)
    → bandwidth < shift_left fuel 0x100000000
    → Scaled fuel bandwidth (scale_bandwidth fuel bandwidth)
unfolding scale_bandwidth
scale_bandwidth-Scaled zero bandwidth h = (h, omega arith, omega arith, omega arith)
scale_bandwidth-Scaled (suc fuel) bandwidth h = elim (Bool-cases (leb bandwidth 0xffffffff)) [
  | inl fits ↦
      let small = leb→le bandwidth 0xffffffff fits in
      rw fits (omega arith, omega arith, omega arith, omega arith)
  | inr large ↦
      let (small, few, below, above) = scale_bandwidth-Scaled fuel (bandwidth / 2) (omega arith) in
      rw large (small, omega arith, omega arith, omega arith)
]
