-- ===== src/Reservation/RoundTrip.antt =====
-- bwctld/bwctld.c: ChldReservationDemand and then ChldReservationComplete.
use bwctl.Bytes.{c_string}
use bwctl.Prelude.{ℕ, Option, ◌≡◌, refl, true, none, some, List, [], ◌∷◌, arith, take}
use bwctl.Tools.{Tool}
use bwctl.Schedule.{TimeSlot}
use bwctl.Schedule.Search.{Wish, first_second, last_second}
use bwctl.Schedule.Timeline.{Timeline, load}
use bwctl.Schedule.Remove.{res_remove-insert}
use bwctl.Reservation.{
  Reservation, Request, Environment, State, Reply, granted, bytes_equal, same_sid, remove_times,
  delete_reservation, take_reservation, no_times, alloc_reservation, min_start, wish_of,
  reservation_demand, reservation_complete,
}
use bwctl.Reservation.Grant.{NoWrap, Answer, grants, refuses, reservation_demand-earliest}

bytes_equal_refl : (xs : List ℕ) → bytes_equal xs xs ≡ true
unfolding bytes_equal
bytes_equal_refl [] = refl
bytes_equal_refl (x ∷ xs) = ground (arith, bytes_equal_refl xs)

same_sid_refl : (sid : List ℕ) → same_sid sid sid ≡ true
unfolding same_sid
same_sid_refl sid = bytes_equal_refl (take 8 sid)

-- What the end of the reservation finds and leaves.
abbrev pub Undone : List ℕ → List TimeSlot → State → Type 0
Undone sid slots st =
    ((reservation_complete sid st).1 ≡ true)
    × ((reservation_complete sid st).0.res ≡ none)
    × ((t : ℕ) → load t (reservation_complete sid st).0.slots ≡ load t slots)

Answer-Undone :
    (w : Wish) (q : Request) (earliest : ℕ) (r : Reservation) (slots : List TimeSlot) (st : State)
    (reply : Reply) (time port : ℕ)
    → Answer w q earliest r slots st reply
    → reply ≡ granted time port
    → Timeline 0 slots
    → Undone r.sid slots st
unfolding reservation_complete delete_reservation remove_times
Answer-Undone w q earliest r slots st reply time port
      (grants t e_reply e_res early sum late h f e_slots) e v =
    rw (e_res, e_slots, same_sid_refl r.sid)
      (
        refl,
        refl,
        λ x.
            res_remove-insert w.test (first_second t) (last_second t) x 0 slots v (omega arith)
              (omega arith) f,
      )
Answer-Undone w q earliest r slots st reply time port (refuses t e_reply e_res late e_slots) e v =
    absurd (cc (e, e_reply))

-- A demand that is granted and then completed with the session's id: the completion succeeds, the
-- child keeps no reservation, and every second holds as many reservations as before the demand
-- (where a reservation of the child itself was taken out, as without that one). This holds as long
-- as the daemon knows the horizon and the time, the list of slots is well formed, the first start
-- is not before 1970, and neither the times of the demand nor the seconds behind the slots wrap.
pub complete-demand :
    (tools : List Tool) (env : Environment) (q : Request) (st : State) (hsecs now : ℕ)
    (r : Reservation) (slots : List TimeSlot) (time port : ℕ)
    → env.hsecs ≡ some hsecs
    → env.currtime ≡ some now
    → take_reservation env q st ≡ some (slots, r)
    → Timeline 0 slots
    → NoWrap (wish_of tools q r.tool now hsecs) q now slots
    → (reservation_demand tools env q st).1 ≡ granted time port
    → Undone r.sid slots (reservation_demand tools env q st).0
complete-demand tools env q st hsecs now r slots time port eh en et v ok granted_it =
    Answer-Undone (wish_of tools q r.tool now hsecs) q (min_start q now) r slots
      (reservation_demand tools env q st).0 (reservation_demand tools env q st).1 time port
      (reservation_demand-earliest tools env q st hsecs now r slots eh en et v ok) granted_it v

-- The reservation that AllocReservation makes, with the port that the tool picks.
abbrev pub fresh : Request → ℕ → Reservation
fresh q port = record {
  tool = q.tool_id;
  sid = q.sid;
  times = no_times;
  fuzz = 0;
  sender = c_string q.sender;
  receiver = c_string q.receiver;
  duration = 0;
  toolport = port;
}

alloc_fresh :
    (env : Environment) (q : Request) (port : ℕ)
    → env.init_port ≡ some port
    → alloc_reservation env q ≡ some (fresh q port)
unfolding alloc_reservation
alloc_fresh env q port h = rw (h, alloc_reservation) refl

pub take_fresh :
    (env : Environment) (q : Request) (slots : List TimeSlot) (res : Option Reservation) (port : ℕ)
    → res ≡ none
    → env.init_port ≡ some port
    → take_reservation env q (record { slots = slots; res = res }) ≡ some (slots, fresh q port)
unfolding take_reservation
take_fresh env q slots res port new h =
    rw (new, take_reservation) (rw (alloc_fresh env q port h) refl)
