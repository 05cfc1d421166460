-- ===== src/TimeStamp/Estimate.antt =====
-- The error estimate of a timestamp: what BWLSetTimeStampError stores and BWLGetTimeStampError
-- gives back.
use native.Mathlib.Nat.{pow-suc, one-le-pow}
use bwctl.Prelude.{
  ℕ, zero, suc, ◌+◌, ◌*◌, ◌/◌, ◌%◌, ◌^◌, ◌≤◌, ◌<◌, ◌≡◌, ◌⊎◌, inl, inr, refl, ap, arith, leb,
  Bool-cases, leb→le, leb→lt,
}
use bwctl.Num64.{u64_mod}
use bwctl.TimeStamp.{TimeStamp, scale_down, scale_up, set_time_stamp_error, get_time_stamp_error}

-- What the loop leaves of `v` after `k` halvings: a number below 0xFF whose k doublings stay within
-- `v`, and which is at least 127 if there was a halving.
abbrev Scaled : ℕ → ℕ → ℕ × ℕ → ℕ → Type 0
Scaled v s r k =
    (r.1 ≡ s + k)
    × (r.0 < 255)
    × (r.0 * 2 ^ k ≤ v)
    × (v < r.0 * 2 ^ k + 2 ^ k)
    × ((k ≡ 0) × (r.0 ≡ v) ⊎ (127 ≤ r.0))

Scaled-suc : (v s k : ℕ) (r : ℕ × ℕ) → 255 ≤ v → Scaled (v / 2) (s + 1) r k → Scaled v s r (suc k)
Scaled-suc v s k r big h = (
  omega arith,
  h.1,
  omega (arith, pow-suc 2 k, ap (λ (t : ℕ). r.0 * t) (pow-suc 2 k)),
  omega (arith, pow-suc 2 k, ap (λ (t : ℕ). r.0 * t) (pow-suc 2 k)),
  inr (omega arith),
)

scale_down_lem :
    (n fuel v s : ℕ)
    → v < 255 * 2 ^ n
    → n < fuel
    → (k : ℕ) × (k ≤ n) × Scaled v s (scale_down fuel v s) k
unfolding scale_down
scale_down_lem n zero v s hv hn = absurd (omega arith)
scale_down_lem zero (suc fuel) v s hv hn = (0, omega arith, ground arith)
scale_down_lem (suc n) (suc fuel) v s hv hn = elim (Bool-cases (leb 0xFF v)) [
  | inr done ↦ rw done (0, omega arith, omega (arith, leb→lt _ _ done))
  | inl more ↦ rw more (
      let (k, kn, h) =
        scale_down_lem n fuel (v / 2) (s + 1) (omega (arith, pow-suc 2 n)) (omega arith) in
      (suc k, omega arith, Scaled-suc v s k (scale_down fuel (v / 2) (s + 1)) (leb→le _ _ more) h))
]

mul_mono_left : (c a b : ℕ) → a ≤ b → a * c ≤ b * c
mul_mono_left c a b h = grind arith

mul_mono : (a b : ℕ) → 1 ≤ b → a ≤ a * b
mul_mono a b h = grind arith

-- Doublings that do not overflow.
scale_up_lem : (k m : ℕ) → m * 2 ^ k < u64_mod → scale_up k m ≡ m * 2 ^ k
unfolding scale_up
scale_up_lem zero m h = omega arith
scale_up_lem (suc k) m h = rw (small, scale_up_lem k (m * 2) (omega (arith, shifted))) shifted
  where
    shifted : m * 2 * 2 ^ k ≡ m * 2 ^ suc k
    shifted = omega (arith, ap (λ (t : ℕ). m * t) (pow-suc 2 k))

    small : m * 2 % u64_mod ≡ m * 2
    small = omega (arith, shifted, mul_mono (m * 2) (2 ^ k) (one-le-pow k 2 (omega arith)))

-- The bounds, from what the loop leaves.
estimate_bounds :
    (v k : ℕ) (r : ℕ × ℕ)
    → v < 127 * 2 ^ 57
    → k ≤ 57
    → Scaled v 0 r k
    → let m = (r.0 + 1) % 256 in
      let s = r.1 % 256 in
      (0 < m)
      × (m < 256)
      × (s < 64)
      × (v < scale_up (s % 64) (m % 256))
      × (127 * scale_up (s % 64) (m % 256) ≤ 128 * v + 127)
estimate_bounds v k r h hk z =
    (omega arith, omega arith, omega arith, omega (arith, got, one), omega (arith, got, tight, one))
  where
    one : 2 ^ 0 ≡ 1
    one = refl

    same_scale : r.1 % 256 % 64 ≡ k
    same_scale = omega arith

    same_mult : (r.0 + 1) % 256 % 256 ≡ r.0 + 1
    same_mult = omega arith

    tight : 127 * 2 ^ k ≤ v + 127
    tight = elim (z.4) [
      | inl none_done ↦ rw (none_done.0) (omega arith)
      | inr some_done ↦ omega (arith, mul_mono_left (2 ^ k) 127 r.0 some_done)
    ]

    got : scale_up (r.1 % 256 % 64) ((r.0 + 1) % 256 % 256) ≡ r.0 * 2 ^ k + 2 ^ k
    got = rw (same_scale, same_mult, scale_up_lem k (r.0 + 1) (omega (arith, tight))) (omega arith)

-- For an error below 127 * 2 ^ 57, the estimate that BWLSetTimeStampError stores fits its fields
-- (eight bits, not zero, and six bits), and BWLGetTimeStampError reads it as more than the error,
-- by at most one part in 127 and one unit.
get-set_time_stamp_error :
    (t : TimeStamp) (v : ℕ)
    → v < 127 * 2 ^ 57
    → let s = set_time_stamp_error t v in
      (0 < s.multiplier)
      × (s.multiplier < 256)
      × (s.scale < 64)
      × (v < get_time_stamp_error s)
      × (127 * get_time_stamp_error s ≤ 128 * v + 127)
unfolding get_time_stamp_error set_time_stamp_error
get-set_time_stamp_error t v h =
    let e : v % u64_mod ≡ v = omega arith in
    let (k, hk, z) = scale_down_lem 57 64 v 0 (omega arith) (omega arith) in
    rw e (estimate_bounds v k (scale_down 64 v 0) h hk z)
