-- ===== src/Reservation/Width.antt =====
-- The widths of what ChldReservationDemand hands back: a 64-bit time and a 16-bit port.
use bwctl.Prelude.{ℕ, ◌<◌, Option, none, some, List, arith}
use bwctl.Num64.{u64_mod}
use bwctl.Tools.{Tool}
use bwctl.Schedule.{TimeSlot}
use bwctl.Schedule.Search.{Wish, Times, Outcome, denied, placed, times_from}
use bwctl.Schedule.Width.{restime_of, times_from_width, find_slot_width}
use bwctl.Reservation.{
  Reservation, Request, Environment, State, Reply, granted, refused, failed, take_reservation,
  first_start, wish_of, search_slot, conclude, answer, reservation_demand,
}

abbrev pub reply_time : Reply → ℕ
reply_time (granted time port) = time
reply_time (refused time) = time
reply_time failed = 0

abbrev pub reply_port : Reply → ℕ
reply_port (granted time port) = port
reply_port _ = 0

search_slot_width :
    (w : Wish) (t : Times) (slots : List TimeSlot)
    → t.restime < u64_mod
    → restime_of (search_slot w t slots) < u64_mod
unfolding search_slot
search_slot_width w t slots h = ground (arith, find_slot_width w none t slots h)

conclude_width :
    (q : Request) (r : Reservation) (slots : List TimeSlot) (o : Outcome)
    → restime_of o < u64_mod
    → r.toolport < 0x10000
    → (reply_time (conclude q r slots o).1 < u64_mod)
      × (reply_port (conclude q r slots o).1 < 0x10000)
unfolding conclude
conclude_width q r slots (denied t) h p = (h, omega arith)
conclude_width q r slots (placed t slots') h p = (h, p)

-- The port of the reservation that is taken.
abbrev pub taken_port : Option (List TimeSlot × Reservation) → ℕ
taken_port none = 0
taken_port (some (slots, r)) = r.toolport

answer_width :
    (tools : List Tool) (q : Request) (st : State) (hsecs : Option ℕ)
    (taken : Option (List TimeSlot × Reservation)) (currtime : Option ℕ)
    → taken_port taken < 0x10000
    → (reply_time (answer tools q st hsecs taken currtime).1 < u64_mod)
      × (reply_port (answer tools q st hsecs taken currtime).1 < 0x10000)
unfolding answer
answer_width tools q st none taken currtime h = (omega arith, omega arith)
answer_width tools q st (some hsecs) none currtime h = (omega arith, omega arith)
answer_width tools q st (some hsecs) (some (slots, r)) none h = (omega arith, omega arith)
answer_width tools q st (some hsecs) (some (slots, r)) (some now) h =
    let w = wish_of tools q r.tool now hsecs in
    let t = times_from w (first_start q now) in
    conclude_width q r slots (search_slot w t slots)
      (search_slot_width w t slots (times_from_width w (first_start q now))) h

abbrev pub PortFits : Option ℕ → Type 0
PortFits none = Unit {0}
PortFits (some port) = port < 0x10000

pub take_reservation_port :
    (env : Environment) (q : Request) (st : State)
    → PortFits env.init_port
    → q.toolport < 0x10000
    → taken_port (take_reservation env q st) < 0x10000
unfolding take_reservation
take_reservation_port env q st h p = ground arith

pub reservation_demand_width :
    (tools : List Tool) (env : Environment) (q : Request) (st : State)
    → PortFits env.init_port
    → q.toolport < 0x10000
    → (reply_time (reservation_demand tools env q st).1 < u64_mod)
      × (reply_port (reservation_demand tools env q st).1 < 0x10000)
unfolding reservation_demand
reservation_demand_width tools env q st h p =
    answer_width tools q st env.hsecs (take_reservation env q st) env.currtime
      (take_reservation_port env q st h p)
