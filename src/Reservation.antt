-- ===== src/Reservation.antt =====
-- bwctld/bwctld.c: a child's reservation, from the request (ChldReservationDemand) to its end
-- (ChldReservationComplete, DeleteReservation). The daemon's list of slots and the child's
-- reservation are the state. Memory never runs out here, log lines are left out, and what the
-- daemon gets from elsewhere in a call is an argument: the clock, the port that the tool's init
-- hook picks (BWLToolInitTest), and the event horizon of the child's class.
pub mod Width
pub mod Grant
pub mod Daemon
pub mod Invariant
pub mod Reachable
pub mod RoundTrip
pub mod Denial
mod Tests
use bwctl.Prelude.{
  ℕ, ◌+◌, Bool, true, false, Option, none, some, List, [], ◌∷◌, ltb, ◌==◌, if◌then◌else◌, take,
  ◌&&◌, not,
}
use bwctl.Num64.{
  num64_add, num64_sub, num64_min, num64_mult, ulong_to_num64, i2num_to_num64, u64_mod,
}
use bwctl.Bytes.{c_string}
use bwctl.Tools.{Tool, get_test_types}
use bwctl.Schedule.{TimeSlot, res_remove}
use bwctl.Schedule.Search.{
  Wish, Times, Outcome, denied, placed, times_from, first_second, last_second, is_late, find_slot,
}

-- struct ReservationRec
pub record Reservation : Type 0 where
  pub tool : ℕ
  pub sid : List ℕ
  pub times : Times
  pub fuzz : ℕ
  pub sender : List ℕ
  pub receiver : List ℕ
  pub duration : ℕ
  pub toolport : ℕ

-- The arguments of ChldReservationDemand that the child sent.
pub record Request : Type 0 where
  pub sid : List ℕ
  pub rtime : ℕ
  pub ftime : ℕ
  pub ltime : ℕ
  pub duration : ℕ
  pub rtttime : ℕ
  pub toolport : ℕ
  pub tool_id : ℕ
  pub sender : List ℕ
  pub receiver : List ℕ

-- The arguments that the daemon gets from elsewhere: `none` where the call fails.
pub record Environment : Type 0 where
  pub hsecs : Option ℕ
  pub currtime : Option ℕ
  pub init_port : Option ℕ

-- The list of slots and cstate->res.
pub record State : Type 0 where
  pub slots : List TimeSlot
  pub res : Option Reservation

-- What is handed back: restime and toolport; restime with err 0; or err 1.
pub data Reply : Type 0 where
  granted : ℕ → ℕ → Reply
  refused : ℕ → Reply
  failed : Reply

pub bytes_equal : List ℕ → List ℕ → Bool
bytes_equal [] [] = true
bytes_equal (x ∷ xs) (y ∷ ys) = x == y && bytes_equal xs ys
bytes_equal _ _ = false

-- `memcmp(sid, cstate->res->sid, sizeof(sid)) == 0`: `sid` is a pointer there, so eight of the
-- sixteen bytes are compared.
pub same_sid : List ℕ → List ℕ → Bool
unfolding bytes_equal
same_sid a b = bytes_equal (take 8 a) (take 8 b)

-- ResRemove of a reservation.
pub remove_times : Times → List TimeSlot → List TimeSlot
remove_times t slots = res_remove (first_second t) (last_second t) slots

-- DeleteReservation
pub delete_reservation : State → State
delete_reservation st = elim st.res [
  | none ↦ st
  | some r ↦ record { slots = remove_times r.times st.slots; res = none }
]

abbrev pub no_times : Times
no_times = record { start = 0; restime = 0; end = 0 }

-- AllocReservation: `none` where the tool's initialization fails.
pub alloc_reservation : Environment → Request → Option Reservation
alloc_reservation env q = elim env.init_port [
  | none ↦ none
  | some port ↦ some (record {
    tool = q.tool_id;
    sid = q.sid;
    times = no_times;
    fuzz = 0;
    sender = c_string q.sender;
    receiver = c_string q.receiver;
    duration = 0;
    toolport = port;
  })
]

-- The start of ChldReservationDemand: the reservation of the child, taken out of the slots, or a
-- new one (AllocReservation).
unfoldable pub take_reservation :
    Environment → Request → State → Option (List TimeSlot × Reservation)
unfolding alloc_reservation
take_reservation env q st = elim st.res [
  | some r ↦
      if same_sid q.sid r.sid
      then some (remove_times r.times st.slots, record r { toolport = q.toolport })
      else none
  | none ↦ elim (alloc_reservation env q) [ none ↦ none | some r ↦ some (st.slots, r) ]
]

-- The earliest time that the daemon is willing to have the test: two round trips and the other
-- server's fuzz from now.
unfoldable pub min_start : Request → ℕ → ℕ
min_start q now = num64_add now (num64_add q.ftime (num64_mult q.rtttime (ulong_to_num64 2)))

-- res->start: the requested time less the fuzz, or a second behind the earliest.
unfoldable pub first_start : Request → ℕ → ℕ
unfolding min_start
first_start q now =
    let start = num64_sub q.rtime q.ftime in
    if ltb start (min_start q now) then num64_add (min_start q now) (ulong_to_num64 1) else start

-- `ltime`, the smaller of the request's and the event horizon's, if there is a horizon.
unfoldable pub latest : Request → ℕ → ℕ → ℕ
latest q now hsecs =
    if hsecs == 0 then q.ltime else num64_min q.ltime (num64_add now (i2num_to_num64 hsecs))

-- What the search is asked for.
unfoldable pub wish_of : List Tool → Request → ℕ → ℕ → ℕ → Wish
wish_of tools q tool now hsecs = record {
  test = get_test_types tools tool;
  fuzz = q.ftime;
  dtime = num64_add (ulong_to_num64 q.duration) q.ftime;
  ltime = latest q now hsecs;
}

-- The search, with the check that the code makes before it.
unfoldable pub search_slot : Wish → Times → List TimeSlot → Outcome
search_slot w t slots = if is_late w t then denied t else find_slot w none t slots

-- The end of ChldReservationDemand: the reservation is kept with its times, or deleted, which takes
-- it out of the slots by the times that the search had come to.
unfoldable pub conclude : Request → Reservation → List TimeSlot → Outcome → State × Reply
unfolding delete_reservation
conclude q r slots (placed t slots') = (
  record {
    slots = slots';
    res = some (record r { times = t; fuzz = q.ftime; duration = q.duration });
  },
  granted t.restime r.toolport,
)
conclude q r slots (denied t) = (
  delete_reservation (record {
    slots = slots;
    res = some (record r { times = t; fuzz = q.ftime; duration = q.duration });
  }),
  refused t.restime,
)

-- The calls of ChldReservationDemand in their order, and what it does when one fails: the event
-- horizon, the reservation, the time.
unfoldable pub answer :
    List Tool
    → Request
    → State
    → Option ℕ
    → Option (List TimeSlot × Reservation)
    → Option ℕ
    → State × Reply
answer tools q st none taken currtime = (st, failed)
answer tools q st (some hsecs) none currtime = (st, failed)
answer tools q st (some hsecs) (some (slots, r)) none =
    (record { slots = slots; res = none }, failed)
answer tools q st (some hsecs) (some (slots, r)) (some now) =
    let w = wish_of tools q r.tool now hsecs in
    conclude q r slots (search_slot w (times_from w (first_start q now)) slots)

-- ChldReservationDemand
unfoldable pub reservation_demand : List Tool → Environment → Request → State → State × Reply
unfolding answer
reservation_demand tools env q st =
    answer tools q st env.hsecs (take_reservation env q st) env.currtime

-- ChldReservationComplete: the state and whether it returns True.
pub reservation_complete : List ℕ → State → State × Bool
reservation_complete sid st = elim st.res [
  | none ↦ (st, false)
  | some r ↦ if same_sid sid r.sid then (delete_reservation st, true) else (st, false)
]
