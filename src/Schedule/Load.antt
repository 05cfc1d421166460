-- ===== src/Schedule/Load.antt =====
-- What entering a reservation does to the schedule, second by second; and that ResRemove undoes it.
use bwctl.Prelude.{
  ℕ, suc, ◌≤◌, ◌<◌, ◌≡◌, true, List, [], ◌∷◌, ◌++◌, arith, ltb, Bool-cases, inl, inr, ltb→lt,
  ltb→le,
}
use bwctl.Tools.{TestType}
use bwctl.Schedule.{TimeSlot, create_slot, split_slot, can_use_slot, split_front}
use bwctl.Schedule.Insert.{cover, insert}
use bwctl.Schedule.Timeline.{Timeline}

-- Every slot that shares a second with `a` to `b` can be used by the test.
abbrev pub Fits : TestType → ℕ → ℕ → List TimeSlot → Type 0
Fits test a b [] = Unit {0}
Fits test a b (s ∷ slots) =
    (a ≤ s.end → s.start ≤ b → can_use_slot test s ≡ true) × Fits test a b slots

can_use_slot-lt :
    (test : TestType) (s : TimeSlot)
    → can_use_slot test s ≡ true
    → s.num_reservations ≤ s.max_reservations
    → s.num_reservations < s.max_reservations
unfolding can_use_slot
can_use_slot-lt test s h v = ground arith

cover-Timeline :
    (test : TestType) (a b n : ℕ) (s : TimeSlot) (rest : List TimeSlot)
    → Timeline n (s ∷ rest)
    → a ≤ s.end
    → s.start ≤ b
    → s.num_reservations < s.max_reservations
    → Fits test a b rest
    → Timeline n (cover test b s rest)
unfolding cover
cover-Timeline test a b n s [] v ha hb room f = ground arith
cover-Timeline test a b n s (next ∷ rest) v ha hb room f = ground (
  arith,
  f.0 (omega arith),
  can_use_slot-lt test next,
  cover-Timeline test a b (suc s.end) next rest v.4 (omega arith),
)

front-Timeline :
    (test : TestType) (a b n : ℕ) (s : TimeSlot) (rest : List TimeSlot)
    → Timeline n (s ∷ rest)
    → n ≤ a
    → a ≤ s.end
    → s.start ≤ b
    → a ≤ b
    → s.num_reservations < s.max_reservations
    → Fits test a b rest
    → Timeline n ((split_front test a s).0 ++ cover test b (split_front test a s).1 rest)
unfolding split_front split_slot create_slot
front-Timeline test a b n s rest v hn ha hb hab room f = elim (Bool-cases (ltb s.start a)) [
  | inl inside ↦ rw inside (
    v.0,
    omega (arith, ltb→lt _ _ inside),
    v.2,
    v.3,
    cover-Timeline test a b _ _ rest (omega (arith, ltb→lt _ _ inside), ha, v.2, v.3, v.4) ha hab
        room f,
  )
  | inr outside ↦ rw outside (elim (Bool-cases (ltb a s.start)) [
    | inl before ↦ rw before (
      hn,
      omega (arith, ltb→lt _ _ before),
      omega arith,
      omega arith,
      cover-Timeline test a b _ s rest (omega (arith, ltb→lt _ _ before), v.1, v.2, v.3, v.4) ha hb
          room f,
    )
    | inr same ↦ rw same (cover-Timeline test a b n s rest v ha hb room f)
  ])
]

-- The list stays well formed when a reservation that fits is entered, also its limits.
pub insert-Timeline :
    (test : TestType) (a b n : ℕ) (slots : List TimeSlot)
    → Timeline n slots
    → n ≤ a
    → a ≤ b
    → Fits test a b slots
    → Timeline n (insert test a b slots)
unfolding insert create_slot
insert-Timeline test a b n [] v hn hab f = ground arith
insert-Timeline test a b n (s ∷ rest) v hn hab f = elim (Bool-cases (ltb s.end a)) [
  | inl earlier ↦ rw earlier (
    v.0,
    v.1,
    v.2,
    v.3,
    insert-Timeline test a b (suc s.end) rest v.4 (ltb→lt _ _ earlier) hab f.1,
  )
  | inr reached ↦ rw reached (elim (Bool-cases (ltb b s.start)) [
    | inl later ↦ rw later (ground arith)
    | inr near ↦ rw near (
        front-Timeline test a b n s rest v hn (ltb→le _ _ reached) (ltb→le _ _ near) hab
          (can_use_slot-lt test s (f.0 (ltb→le _ _ reached) (ltb→le _ _ near)) v.3) f.1)
  ])
]
