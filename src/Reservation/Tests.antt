-- ===== src/Reservation/Tests.antt =====
-- bwctld/bwctld.c: a daemon with one child, run on concrete demands.
use mathlib.Core.Path.{subst}
use mathlib.Core.Option.{some-injective}
use bwctl.Prelude.{
  ℕ, ◌+◌, ◌*◌, ◌≡◌, refl, ap, true, Option, none, some, List, [], ◌∷◌, arith, if◌then◌else◌, ◌-◌,
  ◌/◌, All, sym, ◌∙◌, get_elem?,
}
use bwctl.Num64.{u32_mod, num64_mult, num64_to_timespec, carry}
use bwctl.TimeStamp.{jan_1970, num64_to_timestamp}
use bwctl.Tools.{Tool, TestType, get_test_types}
use bwctl.Schedule.{TimeSlot, SlotType, res_remove, has_reservation, remove_reservation}
use bwctl.Schedule.Search.{Times, times_from, first_second, last_second, is_late, find_slot}
use bwctl.Schedule.Timeline.{load, touched}
use bwctl.Reservation.{
  Reservation, Request, Environment, State, granted, refused, same_sid, remove_times,
  delete_reservation, take_reservation, min_start, first_start, latest, wish_of, search_slot,
  conclude, answer, reservation_demand, reservation_complete,
}
use bwctl.Reservation.Grant.{NoWrap, Answer, reservation_demand-Answer}
use bwctl.Reservation.Daemon.{demand, complete, handle, Daemon, act, Safe, Reach, start, fork, step}
use bwctl.Reservation.Reachable.{Reach-idle}
use bwctl.Reservation.RoundTrip.{Undone, complete-demand}
use bwctl.Reservation.Denial.{is_granted, refused_at_once, granted_without_latest}

-- Two tools, and the time: a thousand seconds behind 1970.
abbrev tools : List Tool
tools =
    record { id = 1; test_types = TestType.throughput }
    ∷ record { id = 2; test_types = TestType.latency }
    ∷ []

abbrev clock : ℕ
clock = (jan_1970 + 1000) * u32_mod

abbrev env : Environment
env = record { hsecs = some 3600; currtime = some clock; init_port = some 5001 }

abbrev session : List ℕ
session = 1 ∷ 2 ∷ 3 ∷ 4 ∷ 5 ∷ 6 ∷ 7 ∷ 8 ∷ 9 ∷ 10 ∷ 11 ∷ 12 ∷ 13 ∷ 14 ∷ 15 ∷ 16 ∷ []

-- Ten seconds of throughput, a hundred seconds from now, with a fuzz of a second.
abbrev query : Request
query = record {
  sid = session;
  rtime = clock + 100 * u32_mod;
  ftime = u32_mod;
  ltime = clock + 1000 * u32_mod;
  duration = 10;
  rtttime = u32_mod / 10;
  toolport = 0;
  tool_id = 1;
  sender = 10 ∷ 1 ∷ [];
  receiver = 10 ∷ 2 ∷ [];
}

-- The reservation that is allocated for it.
abbrev fresh : Reservation
fresh = record {
  tool = 1;
  sid = session;
  times = record { start = 0; restime = 0; end = 0 };
  fuzz = 0;
  sender = 10 ∷ 1 ∷ [];
  receiver = 10 ∷ 2 ∷ [];
  duration = 0;
  toolport = 5001;
}

abbrev idle : State
idle = record { slots = []; res = none }

allocated : take_reservation env query idle ≡ some ([], fresh)
unfolding take_reservation
allocated = refl

in_range : (hsecs tool : ℕ) → NoWrap (wish_of tools query tool clock hsecs) query clock []
unfolding wish_of first_start min_start num64_mult get_test_types latest
in_range hsecs tool = record {
  earliest = omega arith;
  epoch = omega arith;
  sums = omega arith;
  behind = tt;
}

reservation_demand-Answer_example :
    Answer
      (wish_of tools query 1 clock 3600)
      query
      (clock + u32_mod + 2 * (u32_mod / 10))
      fresh
      []
      (reservation_demand tools env query idle).0
      (reservation_demand tools env query idle).1
reservation_demand-Answer_example =
    reservation_demand-Answer tools env query idle 3600 clock fresh [] refl refl allocated tt
      (in_range 3600 1) (omega arith)

granted_it : (reservation_demand tools env query idle).1 ≡ granted (clock + 100 * u32_mod) 5001
unfolding reservation_demand answer take_reservation wish_of first_start min_start num64_mult
    get_test_types latest search_slot conclude is_late times_from find_slot
granted_it = refl

complete-demand_example : Undone session [] (reservation_demand tools env query idle).0
complete-demand_example =
    complete-demand tools env query idle 3600 clock fresh [] (clock + 100 * u32_mod) 5001 refl refl
      allocated tt (in_range 3600 1) granted_it

-- The daemon with one child, before and after its demand, and after it has completed.
abbrev forked : Daemon
forked = record { slots = []; children = none ∷ [] }

abbrev reserved : Daemon
reserved = act tools (demand env query) 0 none forked

abbrev held_by : Option Reservation
held_by = (reservation_demand tools env query idle).0.res

abbrev completed : Daemon
completed = act tools (complete session) 0 held_by reserved

Reach-forked : Reach tools forked
Reach-forked = fork (record { slots = []; children = [] }) start

query-Safe : Safe tools (demand env query) idle
query-Safe hsecs now r slots eh en et =
    let slots_are : [] ≡ slots = ap (λ x. x.0) (some-injective _ _ (sym allocated ∙ et)) in
    subst (λ list. NoWrap (wish_of tools query r.tool now hsecs) query now list) slots_are
      (subst (λ time. NoWrap (wish_of tools query r.tool time hsecs) query time [])
        (some-injective clock now en) (in_range hsecs r.tool))

Reach-reserved : Reach tools reserved
Reach-reserved = step forked (demand env query) 0 none Reach-forked refl query-Safe

at_zero : get_elem? reserved.children 0 ≡ some held_by
unfolding act handle
at_zero = refl

Reach-completed : Reach tools completed
Reach-completed = step reserved (complete session) 0 held_by Reach-reserved at_zero tt

all_idle : All (λ c. c ≡ none) completed.children
unfolding act handle reservation_complete delete_reservation same_sid reservation_demand answer
    take_reservation wish_of first_start min_start num64_mult get_test_types latest search_slot
    conclude is_late times_from find_slot
all_idle = (refl, tt)

Reach-idle_example : completed.slots ≡ []
Reach-idle_example = Reach-idle tools completed Reach-completed all_idle

-- The same demand with a latest time that has passed, where another child holds seconds 1100 to
-- 1120.
abbrev late_query : Request
late_query = record query { ltime = clock }

abbrev others_slot : TimeSlot
others_slot = record {
  type = SlotType.bandwidth;
  start = 1100;
  end = 1120;
  num_reservations = 1;
  max_reservations = 30;
}

abbrev busy : State
busy = record { slots = others_slot ∷ []; res = none }

abbrev late_times : Times
late_times = times_from (wish_of tools late_query 1 clock 3600) (first_start late_query clock)

late : is_late (wish_of tools late_query 1 clock 3600) late_times ≡ true
unfolding is_late times_from wish_of latest first_start min_start num64_mult
late = refl

refused_at_once_example :
    ((reservation_demand tools env late_query busy).1 ≡ refused late_times.restime)
    × ((reservation_demand tools env late_query busy).0.res ≡ none)
    × ((x : ℕ)
        → load x (reservation_demand tools env late_query busy).0.slots ≡ (
            if touched (first_second late_times) (last_second late_times) x busy.slots
            then load x busy.slots - 1
            else load x busy.slots))
refused_at_once_example =
    refused_at_once tools env late_query busy 3600 clock fresh (others_slot ∷ []) late_times refl
      refl (unfold take_reservation in refl)
      (omega arith, omega arith, omega arith, omega arith, tt) refl late

-- The other child's reservation is gone from the list.
others_lost : (reservation_demand tools env late_query busy).0.slots ≡ []
unfolding reservation_demand answer take_reservation wish_of first_start min_start num64_mult
    get_test_types latest search_slot conclude is_late times_from delete_reservation remove_times
    res_remove has_reservation remove_reservation last_second first_second num64_to_timestamp
    num64_to_timespec carry
others_lost = refl

granted_without_latest_example :
    is_granted (reservation_demand tools env (record query { ltime = 0 }) busy).1 ≡ true
granted_without_latest_example =
    granted_without_latest tools env (record query { ltime = 0 }) busy 3600 clock fresh
      (others_slot ∷ []) refl refl (unfold take_reservation in refl) refl
