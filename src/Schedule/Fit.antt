-- ===== src/Schedule/Fit.antt =====
-- What the search of ChldReservationDemand finds, as long as no time wraps: the reservation fits
-- the list it is entered in, no earlier than asked for and no later than allowed.
use bwctl.Prelude.{
  ℕ, suc, ◌≤◌, ◌<◌, ◌≡◌, refl, true, false, Option, none, some, List, [], ◌∷◌, arith, ltb,
  if◌then◌else◌, Bool-cases, inl, inr, ltb→lt, ltb→le, lt→ltb, All,
}
use bwctl.Tools.{TestType}
use bwctl.Schedule.{TimeSlot, Walk, conflict, run, can_use_slot, walk, create_slot}
use bwctl.Schedule.Insert.{insert, enter-insert}
use bwctl.Schedule.Timeline.{Timeline}
use bwctl.Schedule.Load.{Fits}
use bwctl.Schedule.Search.{
  Wish, Times, Outcome, denied, placed, Round, stop, next, first_second, last_second, is_late,
  times_behind, ends_before, after_walk, round, behind, find_slot,
}
use bwctl.Schedule.Range.{
  InRange, Below, recheck-InRange, first_second_lem, times_behind-InRange, start-times_behind,
  first_second-times_behind, Fits-behind,
}
use bwctl.Schedule.Seen.{Saw, walk-Saw}

-- What the search may end with, from the times `t` over `slots`. Denied: a time that is late, no
-- earlier than `t`. Placed: a time that is not late, no earlier than `t`, which fits the list and
-- is entered in it.
abbrev pub Good : Wish → Times → List TimeSlot → Outcome → Type 0
Good w t slots (denied t') = InRange w t' × (t.start ≤ t'.start) × (is_late w t' ≡ true)
Good w t slots (placed t' slots') =
    InRange w t'
    × (t.start ≤ t'.start)
    × (is_late w t' ≡ false)
    × Fits w.test (first_second t') (last_second t') slots
    × (slots' ≡ insert w.test (first_second t') (last_second t') slots)

Good-behind :
    (w : Wish) (t u : Times) (s : TimeSlot) (rest : List TimeSlot) (o : Outcome)
    → InRange w u
    → t.start ≤ u.start
    → s.end < first_second u
    → Good w u rest o
    → Good w t (s ∷ rest) (behind s o)
unfolding insert
Good-behind w t u s rest (denied t') r h p g = (g.0, omega arith, g.2)
Good-behind w t u s rest (placed t' slots) r h p g =
    let behind_s : s.end < first_second t' =
      omega (arith, first_second_lem w t' g.0, first_second_lem w u r) in
    (
      g.0,
      omega arith,
      g.2,
      (λ q. absurd (omega (arith, behind_s)), g.3),
      rw (lt→ltb _ _ behind_s, g.4),
    )

insert_before :
    (test : TestType) (a b : ℕ) (s : TimeSlot) (rest : List TimeSlot)
    → ltb s.end a ≡ false
    → ltb b s.start ≡ true
    → create_slot test a b ∷ s ∷ rest ≡ insert test a b (s ∷ rest)
unfolding insert
insert_before test a b s rest p q = rw (p, q)

-- What one round leaves to prove of the search.
abbrev GoodRound : Wish → Times → TimeSlot → List TimeSlot → Round → Type 0
GoodRound w t s rest (stop o) = Good w t (s ∷ rest) o
GoodRound w t s rest (next prev u) =
    InRange w u
    × (t.start ≤ u.start)
    × (s.end < first_second u)
    × (ends_before prev (first_second u) ≡ true)

ends_before_mono :
    (prev : Option TimeSlot) (m n : ℕ)
    → m ≤ n
    → ends_before prev m ≡ true
    → ends_before prev n ≡ true
ends_before_mono none m n h e = refl
ends_before_mono (some p) m n h e = ground arith

after_walk-GoodRound :
    (w : Wish) (prev : Option TimeSlot) (t : Times) (s : TimeSlot) (rest : List TimeSlot) (k : Walk)
    → walk w.test (last_second t) s rest ≡ k
    → InRange w t
    → is_late w t ≡ false
    → ends_before prev (first_second t) ≡ true
    → first_second t ≤ s.end
    → s.start ≤ last_second t
    → can_use_slot w.test s ≡ true
    → Saw w (first_second t) (last_second t) s rest k
    → GoodRound w t s rest (after_walk w prev t s k)
unfolding after_walk
after_walk-GoodRound w prev t s rest (conflict c) e r late p lo hi usable saw =
    let second = first_second-times_behind w c saw.1 in
    (
      times_behind-InRange w c saw.1,
      omega (arith, start-times_behind w c saw.1, first_second_lem w t r),
      omega (arith, second),
      ends_before_mono prev (first_second t) (first_second (times_behind w c))
          (omega (arith, second)) p,
    )
after_walk-GoodRound w prev t s rest (run slots after) e r late p lo hi usable saw = (
  r,
  omega arith,
  late,
  ((λ _ _. usable), saw),
  enter-insert w.test (first_second t) (last_second t) s rest slots after lo hi e,
)

round-GoodRound :
    (w : Wish) (prev : Option TimeSlot) (t : Times) (s : TimeSlot) (rest : List TimeSlot) (n : ℕ)
    → Timeline n (s ∷ rest)
    → All (Below w) (s ∷ rest)
    → InRange w t
    → ends_before prev (first_second t) ≡ true
    → GoodRound w t s rest (round w prev t s rest)
unfolding round
round-GoodRound w prev t s rest n v h r p =
    rw (recheck-InRange w t r) (elim (Bool-cases (is_late w t)) [
      | inl late ↦ rw late (r, omega arith, late)
      | inr on_time ↦ rw on_time (elim (Bool-cases (ltb s.end (first_second t))) [
        | inl earlier ↦ rw earlier (r, omega arith, ltb→lt _ _ earlier, earlier)
        | inr reached ↦
            rw (reached, p)
              (elim (Bool-cases (ltb (last_second t) s.start)) [
                | inl later ↦ rw later (
                  r,
                  omega arith,
                  on_time,
                  (
                    (λ _ q. absurd (omega (arith, ltb→lt _ _ later))),
                    Fits-behind w.test _ _ (suc s.end) rest v.4 (omega (arith, ltb→lt _ _ later)),
                  ),
                  insert_before w.test _ _ s rest reached later,
                )
                | inr near ↦ rw near (elim (Bool-cases (can_use_slot w.test s)) [
                  | inr full ↦ rw full (
                    times_behind-InRange w s h.0,
                    omega (
                      arith,
                      start-times_behind w s h.0,
                      first_second_lem w t r,
                      ltb→le _ _ reached,
                    ),
                    omega (arith, first_second-times_behind w s h.0),
                    lt→ltb _ _ (omega (arith, first_second-times_behind w s h.0)),
                  )
                  | inl usable ↦ rw usable (
                      after_walk-GoodRound w prev t s rest (walk w.test (last_second t) s rest) refl
                        r on_time p (ltb→le _ _ reached) (ltb→le _ _ near) usable
                        (walk-Saw w (first_second t) (last_second t) n s rest v h.1))
                ])
              ])
      ])
    ])

last_round :
    (w : Wish) (t : Times)
    → InRange w t
    → Good w t [] (
        if is_late w t
        then denied t
        else placed t (create_slot w.test (first_second t) (last_second t) ∷ []))
unfolding insert
last_round w t r = elim (Bool-cases (is_late w t)) [
  | inl late ↦ rw late (r, omega arith, late)
  | inr on_time ↦ rw on_time (r, omega arith, on_time, tt, refl)
]

-- The rest of the search after a round, given what it does on the slots behind.
after_round :
    (w : Wish) (prev : Option TimeSlot) (t : Times) (s : TimeSlot) (rest : List TimeSlot)
    (k : Round)
    → round w prev t s rest ≡ k
    → GoodRound w t s rest k
    → ((prev' : Option TimeSlot) (u : Times)
        → InRange w u
        → ends_before prev' (first_second u) ≡ true
        → Good w u rest (find_slot w prev' u rest))
    → Good w t (s ∷ rest) (find_slot w prev t (s ∷ rest))
unfolding find_slot
after_round w prev t s rest (stop o) e g ih = rw (e, find_slot) g
after_round w prev t s rest (next prev' u) e g ih =
    rw (e, find_slot)
      (Good-behind w t u s rest (find_slot w prev' u rest) g.0 g.1 g.2 (ih prev' u g.0 g.3))

-- The search of ChldReservationDemand over a well-formed list, where no time wraps. If it denies,
-- the time it came to is later than allowed. If it places the reservation then the time is no
-- earlier than the one it began with and not later than allowed, every slot that overlaps the
-- reservation can be used, and the new list is the old one with the reservation entered.
pub find_slot-Good :
    (w : Wish) (prev : Option TimeSlot) (t : Times) (n : ℕ) (slots : List TimeSlot)
    → Timeline n slots
    → All (Below w) slots
    → InRange w t
    → ends_before prev (first_second t) ≡ true
    → Good w t slots (find_slot w prev t slots)
unfolding find_slot
find_slot-Good w prev t n [] v h r p = last_round w t r
find_slot-Good w prev t n (s ∷ rest) v h r p =
    after_round w prev t s rest (round w prev t s rest) refl
      (round-GoodRound w prev t s rest n v h r p)
      (λ prev' u r' p'. find_slot-Good w prev' u (suc s.end) rest v.4 h.1 r' p')
