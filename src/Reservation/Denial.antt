-- ===== src/Reservation/Denial.antt =====
-- bwctld/bwctld.c: the demands that ChldReservationDemand refuses, and those that it cannot.
use bwctl.Prelude.{
  ℕ, ◌-◌, ◌≡◌, refl, ◌∙◌, Bool, true, false, Option, none, some, List, [], ◌∷◌, arith,
  if◌then◌else◌,
}
use bwctl.Tools.{Tool}
use bwctl.Schedule.{TimeSlot, Walk, conflict, run, walk}
use bwctl.Schedule.Search.{
  Wish, Times, Outcome, denied, placed, Round, stop, next, times_from, first_second, last_second,
  is_late, recheck, after_walk, round, behind, find_slot,
}
use bwctl.Schedule.Timeline.{Timeline, load, touched, load-res_remove}
use bwctl.Reservation.{
  Reservation, Request, Environment, State, Reply, granted, refused, remove_times,
  delete_reservation, take_reservation, first_start, latest, wish_of, search_slot, conclude,
  reservation_demand,
}
use bwctl.Reservation.Grant.{reservation_demand_known}

-- A demand that is too late before the search begins is refused with its time, and the child keeps
-- no reservation. The list of slots is changed all the same: every slot that overlaps the refused
-- times, whosever reservations it holds, counts one less in each of its seconds.
pub refused_at_once :
    (tools : List Tool) (env : Environment) (q : Request) (st : State) (hsecs now : ℕ)
    (r : Reservation) (slots : List TimeSlot) (t : Times)
    → env.hsecs ≡ some hsecs
    → env.currtime ≡ some now
    → take_reservation env q st ≡ some (slots, r)
    → Timeline 0 slots
    → times_from (wish_of tools q r.tool now hsecs) (first_start q now) ≡ t
    → is_late (wish_of tools q r.tool now hsecs) t ≡ true
    → ((reservation_demand tools env q st).1 ≡ refused t.restime)
      × ((reservation_demand tools env q st).0.res ≡ none)
      × ((x : ℕ)
          → load x (reservation_demand tools env q st).0.slots ≡ (
              if touched (first_second t) (last_second t) x slots
              then load x slots - 1
              else load x slots))
unfolding search_slot conclude delete_reservation remove_times
refused_at_once tools env q st hsecs now r slots t eh en et v e_t late =
    rw (reservation_demand_known tools env q st hsecs now r slots eh en et, e_t, late)
      (refl, refl, λ x. load-res_remove (first_second t) (last_second t) x 0 slots v)

abbrev is_placed : Outcome → Bool
is_placed (denied t) = false
is_placed (placed t slots) = true

abbrev pub is_granted : Reply → Bool
is_granted (granted time port) = true
is_granted _ = false

-- What a round decides, other than that the reservation is late.
abbrev goes_on : Round → Bool
goes_on (stop o) = is_placed o
goes_on (next prev t) = true

is_late_never : (w : Wish) (t : Times) → w.ltime ≡ 0 → is_late w t ≡ false
unfolding is_late
is_late_never w t h = ground (arith, h)

after_walk-goes_on :
    (w : Wish) (prev : Option TimeSlot) (t : Times) (s : TimeSlot) (k : Walk)
    → goes_on (after_walk w prev t s k) ≡ true
unfolding after_walk
after_walk-goes_on w prev t s (conflict c) = refl
after_walk-goes_on w prev t s (run slots after) = refl

round-goes_on :
    (w : Wish) (prev : Option TimeSlot) (t : Times) (s : TimeSlot) (rest : List TimeSlot)
    → w.ltime ≡ 0
    → goes_on (round w prev t s rest) ≡ true
unfolding round
round-goes_on w prev t s rest h =
    let u = recheck w t in
    ground (
      arith,
      is_late_never w u h,
      after_walk-goes_on w prev u s (walk w.test (last_second u) s rest),
    )

is_placed-behind : (s : TimeSlot) (o : Outcome) → is_placed (behind s o) ≡ is_placed o
is_placed-behind s (denied t) = refl
is_placed-behind s (placed t slots) = refl

round_placed :
    (s : TimeSlot) (rest : List TimeSlot) (w : Wish) (k : Round)
    → goes_on k ≡ true
    → ((prev : Option TimeSlot) (t : Times) → is_placed (find_slot w prev t rest) ≡ true)
    → is_placed (elim k [ stop o ↦ o | next prev t ↦ behind s (find_slot w prev t rest) ]) ≡ true
round_placed s rest w (stop o) h ih = h
round_placed s rest w (next prev t) h ih = is_placed-behind s (find_slot w prev t rest) ∙ ih prev t

find_slot_placed :
    (w : Wish) (prev : Option TimeSlot) (t : Times) (slots : List TimeSlot)
    → w.ltime ≡ 0
    → is_placed (find_slot w prev t slots) ≡ true
unfolding find_slot
find_slot_placed w prev t [] h = rw (is_late_never w t h) refl
find_slot_placed w prev t (s ∷ rest) h =
    round_placed s rest w (round w prev t s rest) (round-goes_on w prev t s rest h)
      (λ prev' t'. find_slot_placed w prev' t' rest h)

latest_zero : (q : Request) (now hsecs : ℕ) → q.ltime ≡ 0 → latest q now hsecs ≡ 0
unfolding latest
latest_zero q now hsecs h = ground (arith, h)

search_slot_placed :
    (w : Wish) (t : Times) (slots : List TimeSlot)
    → w.ltime ≡ 0
    → is_placed (search_slot w t slots) ≡ true
unfolding search_slot
search_slot_placed w t slots h = rw (is_late_never w t h) (find_slot_placed w none t slots h)

is_granted-conclude :
    (q : Request) (r : Reservation) (slots : List TimeSlot) (o : Outcome)
    → is_placed o ≡ true
    → is_granted (conclude q r slots o).1 ≡ true
unfolding conclude
is_granted-conclude q r slots (denied t) h = h
is_granted-conclude q r slots (placed t slots') h = refl

-- A demand whose latest time is 0 is never refused as too late, however full the list of slots and
-- however near the event horizon: where the daemon knows its horizon and the time and has the
-- reservation, the demand is granted.
pub granted_without_latest :
    (tools : List Tool) (env : Environment) (q : Request) (st : State) (hsecs now : ℕ)
    (r : Reservation) (slots : List TimeSlot)
    → env.hsecs ≡ some hsecs
    → env.currtime ≡ some now
    → take_reservation env q st ≡ some (slots, r)
    → q.ltime ≡ 0
    → is_granted (reservation_demand tools env q st).1 ≡ true
unfolding wish_of
granted_without_latest tools env q st hsecs now r slots eh en et h =
    let w = wish_of tools q r.tool now hsecs in
    let t = times_from w (first_start q now) in
    rw (reservation_demand_known tools env q st hsecs now r slots eh en et) (
      is_granted-conclude q r slots (search_slot w t slots)
        (search_slot_placed w t slots (latest_zero q now hsecs h)))
