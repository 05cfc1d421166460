-- ===== src/Schedule/Width.antt =====
-- The time that the search of ChldReservationDemand comes to is a 64-bit number.
use bwctl.Prelude.{ℕ, ◌<◌, Option, List, [], ◌∷◌, arith}
use bwctl.Num64.{u64_mod}
use bwctl.Schedule.{TimeSlot, Walk, conflict, run, walk}
use bwctl.Schedule.Search.{
  Times, Wish, Outcome, denied, placed, Round, stop, next, times_from, last_second, recheck,
  times_behind, after_walk, round, behind, find_slot,
}

abbrev pub restime_of : Outcome → ℕ
restime_of (denied t) = t.restime
restime_of (placed t slots) = t.restime

abbrev round_restime : Round → ℕ
round_restime (stop o) = restime_of o
round_restime (next prev t) = t.restime

pub times_from_width : (w : Wish) (start : ℕ) → (times_from w start).restime < u64_mod
unfolding times_from
times_from_width w start = omega arith

recheck_width : (w : Wish) (t : Times) → t.restime < u64_mod → (recheck w t).restime < u64_mod
unfolding recheck
recheck_width w t h = ground (arith, times_from_width w t.start)

after_walk_width :
    (w : Wish) (prev : Option TimeSlot) (t : Times) (s : TimeSlot) (k : Walk)
    → t.restime < u64_mod
    → round_restime (after_walk w prev t s k) < u64_mod
unfolding after_walk times_behind
after_walk_width w prev t s (conflict c) h = omega arith
after_walk_width w prev t s (run slots after) h = h

round_width :
    (w : Wish) (prev : Option TimeSlot) (t : Times) (s : TimeSlot) (rest : List TimeSlot)
    → t.restime < u64_mod
    → round_restime (round w prev t s rest) < u64_mod
unfolding round times_behind
round_width w prev t s rest h =
    let u = recheck w t in
    ground
      (arith, recheck_width w t h, after_walk_width w prev u s (walk w.test (last_second u) s rest))

behind_width :
    (s : TimeSlot) (o : Outcome) → restime_of o < u64_mod → restime_of (behind s o) < u64_mod
behind_width s (denied t) h = h
behind_width s (placed t slots) h = h

after_round_width :
    (s : TimeSlot) (rest : List TimeSlot) (w : Wish) (k : Round)
    → round_restime k < u64_mod
    → ((prev : Option TimeSlot) (t : Times)
        → t.restime < u64_mod
        → restime_of (find_slot w prev t rest) < u64_mod)
    → restime_of (elim k [ stop o ↦ o | next prev t ↦ behind s (find_slot w prev t rest) ])
      < u64_mod
after_round_width s rest w (stop o) h ih = h
after_round_width s rest w (next prev t) h ih =
    behind_width s (find_slot w prev t rest) (ih prev t h)

pub find_slot_width :
    (w : Wish) (prev : Option TimeSlot) (t : Times) (slots : List TimeSlot)
    → t.restime < u64_mod
    → restime_of (find_slot w prev t slots) < u64_mod
unfolding find_slot
find_slot_width w prev t [] h = ground arith
find_slot_width w prev t (s ∷ rest) h =
    after_round_width s rest w (round w prev t s rest) (round_width w prev t s rest h)
      (λ prev' t' h'. find_slot_width w prev' t' rest h')
