-- ===== src/Policy/Float.antt =====
-- The comparison `(lim.value + node->used[i].value) > (node->limits[i].value * fudge)` of
-- IntegerResourceDemand in bwctld/policy.c. `fudge` is a float, so both sides are converted to
-- float: a number keeps its 24 leading binary digits, rounded to nearest, ties to even.
use bwctl.Prelude.{
  ℕ, zero, suc, ◌+◌, ◌*◌, ◌/◌, ◌%◌, ◌≤◌, ◌<◌, ◌≡◌, Bool, false, arith, ltb, ◌==◌, if◌then◌else◌,
  ◌&&◌, Bool-cases, inl, inr, ltb→lt, ltb→le,
}

-- 2 ^ e for the fewest halvings e that bring `n` below `limit`, on fuel.
unfoldable pub unit_below : ℕ → ℕ → ℕ → ℕ
unit_below limit zero n = 1
unit_below limit (suc fuel) n =
    let rest = 2 * unit_below limit fuel (n / 2) in if ltb n limit then 1 else rest

-- `q` units and a rest `r`, rounded to whole units.
unfoldable pub round_to_unit : ℕ → ℕ → ℕ → ℕ
round_to_unit unit q r =
    if ltb unit (2 * r)
    then (q + 1) * unit
    else if 2 * r == unit && q % 2 == 1
    then (q + 1) * unit
    else q * unit

-- A number rounded to the leading digits that fit below `limit`.
unfoldable pub rounded_below : ℕ → ℕ → ℕ → ℕ
rounded_below limit fuel n =
    let unit = unit_below limit fuel n in
    if unit == 1 then n else round_to_unit unit (n / unit) (n % unit)

-- The conversion of a 64-bit number to float; forty halvings are enough for any.
unfoldable pub to_float : ℕ → ℕ
to_float n = rounded_below 0x1000000 41 n

-- And to double, with 53 digits: eleven halvings are enough.
unfoldable pub to_double : ℕ → ℕ
unfolding rounded_below unit_below round_to_unit
to_double n = rounded_below 0x20000000000000 12 n

-- The comparison, with fudge 1.
unfoldable pub exceeds : ℕ → ℕ → Bool
exceeds total limit = ltb (to_float limit) (to_float total)

unit_below_small : (fuel n : ℕ) → n < 0x1000000 → unit_below 0x1000000 (suc fuel) n ≡ 1
unfolding unit_below
unit_below_small fuel n h = ground arith

unit_below_step :
    (fuel n : ℕ)
    → 0x1000000 ≤ n
    → unit_below 0x1000000 (suc fuel) n ≡ 2 * unit_below 0x1000000 fuel (n / 2)
unfolding unit_below
unit_below_step fuel n h = ground arith

unit_below_pos : (fuel n : ℕ) → 0 < unit_below 0x1000000 fuel n
unfolding unit_below
unit_below_pos zero n = omega arith
unit_below_pos (suc fuel) n = ground (arith, unit_below_pos fuel (n / 2))

-- The digits that are kept are 24: the number holds 2 ^ 23 units or more.
unit_below-le : (fuel n : ℕ) → 0x800000 ≤ n → unit_below 0x1000000 fuel n * 0x800000 ≤ n
unfolding unit_below
unit_below-le zero n h = omega arith
unit_below-le (suc fuel) n h = ground (arith, unit_below-le fuel (n / 2))

-- Below 2 ^ 24 the conversion changes nothing.
to_float_small : (n : ℕ) → n < 0x1000000 → to_float n ≡ n
unfolding to_float rounded_below
to_float_small n h = let e : unit_below 0x1000000 41 n ≡ 1 = unit_below_small 40 n h in rw e

le-round_to_unit : (unit q r : ℕ) → q * unit ≤ round_to_unit unit q r
unfolding round_to_unit
le-round_to_unit unit q r = ground arith

le_div_of_mul : (u n : ℕ) → 0 < u → u * 0x800000 ≤ n → 0x800000 ≤ n / u
le_div_of_mul u n p h = grind arith

product_bound : (q u : ℕ) → 0x800000 ≤ q → 2 ≤ u → 0x1000000 ≤ q * u
product_bound q u p h = grind arith

-- From 2 ^ 24 on, the conversion stays there.
to_float_big : (n : ℕ) → 0x1000000 ≤ n → 0x1000000 ≤ to_float n
unfolding to_float rounded_below
to_float_big n h = ground (arith, bound, le-round_to_unit unit (n / unit) (n % unit), two)
  where
    unit : ℕ
    unit = unit_below 0x1000000 41 n

    two : 2 ≤ unit_below 0x1000000 41 n
    two = omega (arith, unit_below_step 40 n h, unit_below_pos 40 (n / 2))

    bound : 0x1000000 ≤ n / unit_below 0x1000000 41 n * unit_below 0x1000000 41 n
    bound =
        product_bound (n / unit_below 0x1000000 41 n) (unit_below 0x1000000 41 n)
          (le_div_of_mul (unit_below 0x1000000 41 n) n (omega (arith, two))
            (unit_below-le 41 n (omega arith)))
          two

-- For a limit below 2 ^ 24 the comparison in float is the exact one.
pub exceeds_exact : (total limit : ℕ) → limit < 0x1000000 → exceeds total limit ≡ ltb limit total
unfolding exceeds
exceeds_exact total limit h = elim (Bool-cases (ltb total 0x1000000)) [
  | inl small ↦ rw (to_float_small limit h, to_float_small total (ltb→lt _ _ small))
  | inr big ↦
      rw (to_float_small limit h)
        (ground (arith, to_float_big total (ltb→le _ _ big), ltb→le _ _ big))
]

-- From 2 ^ 24 on it is not: a limit that is a multiple of 4 below 2 ^ 25 does not refuse a total
-- that is one above it.
pub exceeds_misses :
    (limit : ℕ)
    → 0x1000000 ≤ limit
    → limit < 0x2000000
    → limit % 4 ≡ 0
    → exceeds (limit + 1) limit ≡ false
unfolding exceeds to_float rounded_below round_to_unit
exceeds_misses limit lo hi even =
    let u : unit_below 0x1000000 41 limit ≡ 2 =
      omega (arith, unit_below_step 40 limit lo, unit_below_small 39 (limit / 2) (omega arith)) in
    let u' : unit_below 0x1000000 41 (limit + 1) ≡ 2 = omega (
      arith,
      unit_below_step 40 (limit + 1) (omega arith),
      unit_below_small 39 ((limit + 1) / 2) (omega arith),
    ) in
    rw (u, u') (ground arith)
