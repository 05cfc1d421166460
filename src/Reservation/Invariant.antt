-- ===== src/Reservation/Invariant.antt =====
-- bwctld/bwctld.c: what holds of the daemon's list of slots after any sequence of steps.
use bwctl.Prelude.{
  ℕ, ◌+◌, ◌≤◌, ◌<◌, ◌≡◌, refl, inl, inr, true, Option, none, some, List, [], ◌∷◌, arith,
  if◌then◌else◌, Bool-cases,
}
use bwctl.Tools.{Tool}
use bwctl.Schedule.{TimeSlot}
use bwctl.Schedule.Search.{Times, Wish, first_second, last_second}
use bwctl.Schedule.Timeline.{Timeline, load, touched, res_remove-Timeline, load-res_remove}
use bwctl.Schedule.Insert.{insert}
use bwctl.Schedule.Load.{Fits, insert-Timeline}
use bwctl.Schedule.Seconds.{load-insert}
use bwctl.Reservation.{
  Reservation, Request, Environment, State, Reply, same_sid, remove_times, delete_reservation,
  alloc_reservation, take_reservation, min_start, wish_of, answer, reservation_demand,
  reservation_complete,
}
use bwctl.Reservation.Grant.{Answer, grants, refuses, reservation_demand-earliest}
use bwctl.Reservation.Daemon.{Event, demand, complete, gone, handle, Safe, covers}

-- A child's state is sound beside `others` reservations per second: the list is well formed, and no
-- second holds more reservations than the child's and the others'.
pub record Sound (others : ℕ → ℕ) (slots : List TimeSlot) (res : Option Reservation) : Type 0 where
  pub timeline : Timeline 0 slots
  pub held : (t : ℕ) → load t slots ≤ covers t res + others t

covered-touched :
    (a b t : ℕ) (slots : List TimeSlot)
    → 0 < load t slots
    → a ≤ t
    → t ≤ b
    → touched a b t slots ≡ true
covered-touched a b t [] h p q = absurd (omega arith)
covered-touched a b t (s ∷ slots) h p q = ground (arith, covered-touched a b t slots)

-- A reservation that is taken out.
remove_times-Sound :
    (others : ℕ → ℕ) (slots : List TimeSlot) (r : Reservation)
    → Sound others slots (some r)
    → Sound others (remove_times r.times slots) none
unfolding remove_times
remove_times-Sound others slots r v =
    let a = first_second r.times in
    let b = last_second r.times in
    record {
      timeline = res_remove-Timeline a b 0 slots v.timeline;
      held = λ t.
          ground (
            arith,
            v.held t,
            load-res_remove a b t 0 slots v.timeline,
            covered-touched a b t slots,
          );
    }

-- Fewer reservations are sound too.
remove_more :
    (others : ℕ → ℕ) (slots : List TimeSlot) (t : Times)
    → Sound others slots none
    → Sound others (remove_times t slots) none
unfolding remove_times
remove_more others slots u v =
    let a = first_second u in
    let b = last_second u in
    record {
      timeline = res_remove-Timeline a b 0 slots v.timeline;
      held = λ t. ground (arith, v.held t, load-res_remove a b t 0 slots v.timeline);
    }

delete_reservation-Sound :
    (others : ℕ → ℕ) (slots : List TimeSlot) (res : Option Reservation)
    → Sound others slots res
    → Sound others
        (delete_reservation (record { slots = slots; res = res })).slots
        (delete_reservation (record { slots = slots; res = res })).res
unfolding delete_reservation
delete_reservation-Sound others slots none v = v
delete_reservation-Sound others slots (some r) v = remove_times-Sound others slots r v

-- A granted reservation that is entered.
insert-Sound :
    (others : ℕ → ℕ) (tools_test : bwctl.Tools.TestType) (slots : List TimeSlot) (r : Reservation)
    → Sound others slots none
    → first_second r.times < last_second r.times
    → Fits tools_test (first_second r.times) (last_second r.times) slots
    → Sound others (insert tools_test (first_second r.times) (last_second r.times) slots) (some r)
insert-Sound others test slots r v h f =
    let a = first_second r.times in
    let b = last_second r.times in
    record {
      timeline = insert-Timeline test a b 0 slots v.timeline (omega arith) (omega arith) f;
      held = λ t. ground (arith, v.held t, load-insert test a b t 0 slots v.timeline (omega arith));
    }

Answer-Sound :
    (others : ℕ → ℕ) (w : Wish) (q : Request) (now : ℕ) (r : Reservation) (slots : List TimeSlot)
    (st : State) (reply : Reply)
    → Answer w q now r slots st reply
    → Sound others slots none
    → Sound others st.slots st.res
Answer-Sound others w q now r slots st reply (grants t e_reply e_res early sum late h f e_slots) v =
    rw (e_slots, e_res)
      (insert-Sound others w.test slots
        (record r { times = t; fuzz = q.ftime; duration = q.duration }) v h f)
Answer-Sound others w q now r slots st reply (refuses t e_reply e_res late e_slots) v =
    rw (e_slots, e_res) (remove_more others slots t v)

-- What is left where a reservation was taken out or allocated.
abbrev Taken : (ℕ → ℕ) → Option (List TimeSlot × Reservation) → Type 0
Taken others none = Unit {0}
Taken others (some (slots, r)) = Sound others slots none

reschedule-Taken :
    (others : ℕ → ℕ) (q : Request) (slots : List TimeSlot) (r : Reservation)
    → Sound others slots (some r)
    → Taken others (
        if same_sid q.sid r.sid
        then some (remove_times r.times slots, record r { toolport = q.toolport })
        else none)
reschedule-Taken others q slots r v = elim (Bool-cases (same_sid q.sid r.sid)) [
  | inl same ↦ rw same (remove_times-Sound others slots r v)
  | inr other ↦ rw other tt
]

allocate-Taken :
    (others : ℕ → ℕ) (slots : List TimeSlot) (new : Option Reservation)
    → Sound others slots none
    → Taken others (elim new [ none ↦ none | some r ↦ some (slots, r) ])
allocate-Taken others slots none v = tt
allocate-Taken others slots (some r) v = v

take_reservation-Taken :
    (others : ℕ → ℕ) (env : Environment) (q : Request) (slots : List TimeSlot)
    (res : Option Reservation)
    → Sound others slots res
    → Taken others (take_reservation env q (record { slots = slots; res = res }))
unfolding take_reservation
take_reservation-Taken others env q slots (some r) v = reschedule-Taken others q slots r v
take_reservation-Taken others env q slots none v =
    allocate-Taken others slots (alloc_reservation env q) v

-- Every branch of ChldReservationDemand, given what it answers in the last.
answer-Sound :
    (others : ℕ → ℕ) (tools : List Tool) (q : Request) (st : State) (hsecs currtime : Option ℕ)
    (taken : Option (List TimeSlot × Reservation))
    → Sound others st.slots st.res
    → Taken others taken
    → ((h now : ℕ) (r : Reservation) (slots : List TimeSlot)
        → hsecs ≡ some h
        → currtime ≡ some now
        → taken ≡ some (slots, r)
        → Timeline 0 slots
        → Answer
            (wish_of tools q r.tool now h)
            q
            (min_start q now)
            r
            slots
            (answer tools q st hsecs taken currtime).0
            (answer tools q st hsecs taken currtime).1)
    → Sound others
        (answer tools q st hsecs taken currtime).0.slots
        (answer tools q st hsecs taken currtime).0.res
unfolding answer
answer-Sound others tools q st none currtime taken v out ans = v
answer-Sound others tools q st (some h) currtime none v out ans = v
answer-Sound others tools q st (some h) none (some (slots, r)) v out ans = out
answer-Sound others tools q st (some h) (some now) (some (slots, r)) v out ans =
    Answer-Sound others (wish_of tools q r.tool now h) q (min_start q now) r slots
      (answer tools q st (some h) (some (slots, r)) (some now)).0
      (answer tools q st (some h) (some (slots, r)) (some now)).1
      (ans h now r slots refl refl refl out.timeline) (out)

complete-Sound :
    (others : ℕ → ℕ) (sid : List ℕ) (slots : List TimeSlot) (res : Option Reservation)
    → Sound others slots res
    → Sound others
        (reservation_complete sid (record { slots = slots; res = res })).0.slots
        (reservation_complete sid (record { slots = slots; res = res })).0.res
unfolding reservation_complete
complete-Sound others sid slots none v = v
complete-Sound others sid slots (some r) v = elim (Bool-cases (same_sid sid r.sid)) [
  | inl same ↦ rw same (delete_reservation-Sound others slots (some r) v)
  | inr other ↦ rw other v
]

-- Whatever a child does, its state stays sound beside the reservations of the others.
pub handle-Sound :
    (others : ℕ → ℕ) (tools : List Tool) (e : Event) (slots : List TimeSlot)
    (res : Option Reservation)
    → Sound others slots res
    → Safe tools e (record { slots = slots; res = res })
    → Sound others
        (handle tools e (record { slots = slots; res = res })).slots
        (handle tools e (record { slots = slots; res = res })).res
unfolding handle reservation_demand
handle-Sound others tools (demand env q) slots res v safe =
    let st : State = record { slots = slots; res = res } in
    answer-Sound others tools q st env.hsecs env.currtime (take_reservation env q st) v
      (take_reservation-Taken others env q slots res v)
      (λ h now r slots' eh en et timeline.
        reservation_demand-earliest tools env q st h now r slots' eh en et timeline
          (safe h now r slots' eh en et))
handle-Sound others tools (complete sid) slots res v safe = complete-Sound others sid slots res v
handle-Sound others tools gone slots res v safe = delete_reservation-Sound others slots res v
