-- ===== src/Reservation/Grant.antt =====
-- What ChldReservationDemand answers, and that the end of a reservation gives its seconds back.
use mathlib.Core.Path.{subst}
use bwctl.Prelude.{
  ℕ, ◌+◌, ◌*◌, ◌≤◌, ◌<◌, ◌≡◌, refl, ◌∙◌, ap, inl, inr, true, false, none, some, List, arith, All,
  Bool-cases,
}
use bwctl.Num64.{u32_mod, u64_mod}
use bwctl.Num64.Laws.{num64_mult_lem}
use bwctl.Tools.{Tool}
use bwctl.Schedule.{TimeSlot}
use bwctl.Schedule.Search.{
  Wish, Times, Outcome, denied, placed, times_from, first_second, last_second, is_late,
}
use bwctl.Schedule.Timeline.{Timeline}
use bwctl.Schedule.Insert.{insert}
use bwctl.Schedule.Load.{Fits}
use bwctl.Schedule.Range.{InRange, Below, times_from-InRange, first-lt-last, jan64}
use bwctl.Schedule.Fit.{Good, find_slot-Good}
use bwctl.Reservation.{
  Reservation, Request, Environment, State, Reply, granted, refused, remove_times,
  delete_reservation, take_reservation, min_start, first_start, wish_of, search_slot, conclude,
  answer, reservation_demand,
}

-- The request's times, and those behind any slot in the list, do not wrap, and they begin in 1970
-- or later.
pub record NoWrap (w : Wish) (q : Request) (now : ℕ) (slots : List TimeSlot) : Type 0 where
  pub earliest : min_start q now + u32_mod < u64_mod
  pub epoch : jan64 ≤ first_start q now
  pub sums : first_start q now + w.fuzz + w.dtime < u64_mod
  pub behind : All (Below w) slots

-- The two answers to a request that finds `slots` and keeps the reservation `r`, and that may begin
-- at `earliest`.
pub data Answer (w : Wish) (q : Request) (earliest : ℕ) (r : Reservation) (slots : List TimeSlot)
    (st : State) (reply : Reply) : Type 0 where
  grants :
      (t : Times)
      → reply ≡ granted t.restime r.toolport
      → st.res ≡ some (record r { times = t; fuzz = q.ftime; duration = q.duration })
      → earliest ≤ t.start
      → t.restime ≡ t.start + w.fuzz
      → is_late w t ≡ false
      → first_second t < last_second t
      → Fits w.test (first_second t) (last_second t) slots
      → st.slots ≡ insert w.test (first_second t) (last_second t) slots
      → Answer w q earliest r slots st reply
  refuses :
      (t : Times)
      → reply ≡ refused t.restime
      → st.res ≡ none
      → is_late w t ≡ true
      → st.slots ≡ remove_times t slots
      → Answer w q earliest r slots st reply

min-le-first :
    (q : Request) (now : ℕ)
    → min_start q now + u32_mod < u64_mod
    → min_start q now ≤ first_start q now
unfolding first_start
min-le-first q now h = ground (arith, min_start)

search_slot-Good :
    (w : Wish) (t : Times) (slots : List TimeSlot)
    → Timeline 0 slots
    → All (Below w) slots
    → InRange w t
    → Good w t slots (search_slot w t slots)
unfolding search_slot
search_slot-Good w t slots v h r = elim (Bool-cases (is_late w t)) [
  | inl late ↦ rw late (r, omega arith, late)
  | inr on_time ↦ rw on_time (find_slot-Good w none t 0 slots v h r refl)
]

-- The end of ChldReservationDemand, from what the search came to.
conclude-Answer :
    (w : Wish) (q : Request) (earliest : ℕ) (r : Reservation) (t0 : Times) (slots : List TimeSlot)
    (o : Outcome)
    → Good w t0 slots o
    → earliest ≤ t0.start
    → Answer w q earliest r slots (conclude q r slots o).0 (conclude q r slots o).1
unfolding conclude delete_reservation
conclude-Answer w q earliest r t0 slots (denied t) (range, later, late) m =
    refuses t refl refl late refl
conclude-Answer w q earliest r t0 slots (placed t slots') (range, later, on_time, fits, eq) m =
    grants t refl refl (omega arith) range.restime_sum on_time (first-lt-last w t range) fits eq

min_start-first :
    (q : Request) (now : ℕ) (w : Wish)
    → min_start q now + u32_mod < u64_mod
    → min_start q now ≤ (times_from w (first_start q now)).start
unfolding times_from
min_start-first q now w h = min-le-first q now h

pub reservation_demand_known :
    (tools : List Tool) (env : Environment) (q : Request) (st : State) (hsecs now : ℕ)
    (r : Reservation) (slots : List TimeSlot)
    → env.hsecs ≡ some hsecs
    → env.currtime ≡ some now
    → take_reservation env q st ≡ some (slots, r)
    → reservation_demand tools env q st
      ≡ conclude q r slots (
          search_slot
            (wish_of tools q r.tool now hsecs)
            (times_from (wish_of tools q r.tool now hsecs) (first_start q now))
            slots)
unfolding reservation_demand answer
reservation_demand_known tools env q st hsecs now r slots eh en et =
    ap (λ h. answer tools q st h (take_reservation env q st) env.currtime) eh
    ∙ ap (λ x. answer tools q st (some hsecs) x env.currtime) et
    ∙ ap (λ c. answer tools q st (some hsecs) (some (slots, r)) c) en

-- The answer, with the earliest start as the code computes it.
pub reservation_demand-earliest :
    (tools : List Tool) (env : Environment) (q : Request) (st : State) (hsecs now : ℕ)
    (r : Reservation) (slots : List TimeSlot)
    → env.hsecs ≡ some hsecs
    → env.currtime ≡ some now
    → take_reservation env q st ≡ some (slots, r)
    → Timeline 0 slots
    → NoWrap (wish_of tools q r.tool now hsecs) q now slots
    → Answer
        (wish_of tools q r.tool now hsecs)
        q
        (min_start q now)
        r
        slots
        (reservation_demand tools env q st).0
        (reservation_demand tools env q st).1
reservation_demand-earliest tools env q st hsecs now r slots eh en et v ok =
    let w = wish_of tools q r.tool now hsecs in
    let t = times_from w (first_start q now) in
    rw (reservation_demand_known tools env q st hsecs now r slots eh en et) (
      conclude-Answer w q (min_start q now) r t slots (search_slot w t slots)
        (search_slot-Good w t slots v ok.behind
          (times_from-InRange w (first_start q now) ok.epoch ok.sums))
        (min_start-first q now w ok.earliest))

-- Two round trips are a product of fixed-point numbers, and the sum is one of 64 bits.
min_start-exact :
    (q : Request) (now : ℕ)
    → now + q.ftime + 2 * q.rtttime < u64_mod
    → min_start q now ≡ now + q.ftime + 2 * q.rtttime
unfolding min_start
min_start-exact q now h =
    rw (num64_mult_lem q.rtttime (2 * u32_mod) (omega arith) (omega arith)) (omega arith)

-- A child's demand, where the daemon knows its horizon and the time, and has the reservation taken
-- out of a well-formed list (or a new one), is answered in one of two ways, as long as the first
-- start is not before 1970, and the times of the demand, the seconds behind the slots, and the sum
-- of now, the other server's fuzz and two round trips do not wrap. It is granted: the reservation
-- is kept with its times, the test begins no earlier than that sum and not later than allowed,
-- every slot that overlaps it could be used by the test, and it is entered in the list. Or it is
-- refused: the child keeps no reservation, the time that is handed back is later than allowed, and
-- the seconds of that time are taken out of the list.
pub reservation_demand-Answer :
    (tools : List Tool) (env : Environment) (q : Request) (st : State) (hsecs now : ℕ)
    (r : Reservation) (slots : List TimeSlot)
    → env.hsecs ≡ some hsecs
    → env.currtime ≡ some now
    → take_reservation env q st ≡ some (slots, r)
    → Timeline 0 slots
    → NoWrap (wish_of tools q r.tool now hsecs) q now slots
    → now + q.ftime + 2 * q.rtttime < u64_mod
    → Answer
        (wish_of tools q r.tool now hsecs)
        q
        (now + q.ftime + 2 * q.rtttime)
        r
        slots
        (reservation_demand tools env q st).0
        (reservation_demand tools env q st).1
reservation_demand-Answer tools env q st hsecs now r slots eh en et v ok sum =
    subst
      (λ (earliest : ℕ).
        Answer (wish_of tools q r.tool now hsecs) q earliest r slots
          (reservation_demand tools env q st).0 (reservation_demand tools env q st).1)
      (min_start-exact q now sum)
      (reservation_demand-earliest tools env q st hsecs now r slots eh en et v ok)
