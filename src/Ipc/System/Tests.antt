-- ===== src/Ipc/System/Tests.antt =====
-- bwctld/bwctld.c: a child that names its class, asks for a time and ends its test, on concrete
-- messages.
use mathlib.Core.Path.{subst}
use bwctl.Prelude.{
  ℕ, ◌*◌, ◌+◌, ◌/◌, ◌≤◌, ◌≡◌, refl, sym, ap, ◌∙◌, arith, length, Option, none, some, List, [], ◌∷◌,
}
use bwctl.Bytes.{sub, zeros}
use mathlib.Core.Option.{some-injective}
use bwctl.Num64.{num64_mult}
use bwctl.Tools.{get_test_types}
use bwctl.Schedule.Search.{is_late, times_from, find_slot}
use bwctl.Policy.{get_node, get_fixed_limit}
use bwctl.Reservation.{
  Reservation, Request, Environment, State, take_reservation, wish_of, first_start, min_start,
  latest, search_slot, conclude, answer, reservation_demand,
}
use bwctl.Reservation.Grant.{NoWrap}
use bwctl.Reservation.Daemon.{Event, demand, Safe}
use bwctl.Ipc.Complete.{complete_message, read_test_complete}
use bwctl.Ipc.Dispatch.{serve_reservation}
use bwctl.Ipc.{read_req_type}
use bwctl.Ipc.ReservationQuery.{reservation_message, read_reservation_query}
use bwctl.Ipc.Dispatch.{env_of}
use bwctl.Num64.{u32_mod}
use bwctl.Schedule.Timeline.{Timeline, load}
use bwctl.Policy.Usage.{Within}
use bwctl.Reservation.Daemon.{Reach, count}
use bwctl.Ipc.Dispatch.{check_fd}
use bwctl.Ipc.Effects.{event_of}
use bwctl.Ipc.System.{
  Server, SafeEvent, broker_of, put_back, Runs, boot, connect, message, daemon_of, Runs-Reach,
  Runs-Kept,
}
use bwctl.Ipc.Tests.{classes, tools, clock, world}

-- One child, which has sent the name of its class.
abbrev connected : Server
connected = record { classes = classes; slots = []; children = (none, none) ∷ [] }

abbrev greeting : List ℕ
greeting =
    0xfe ∷ 0xfe ∷ 0xfe ∷ 0xfe ∷ 0xef ∷ 0xcd ∷ 0 ∷ 0 ∷ 114 ∷ 0 ∷ 0xfe ∷ 0xfe ∷ 0xfe ∷ 0xfe ∷ []

abbrev greeted : Server
greeted = put_back connected 0 (check_fd world (broker_of connected (none, none)) greeting).broker

Runs-greeted : Runs tools classes greeted
unfolding event_of
Runs-greeted =
    message connected world 0 (none, none) greeting
      (connect (record { classes = classes; slots = []; children = [] }) boot) refl refl tt

greeted_class : greeted.children ≡ (some 0, none) ∷ []
unfolding check_fd
greeted_class = refl

-- The server once the child has its class.
abbrev known : Server
known = record { classes = classes; slots = []; children = (some 0, none) ∷ [] }

greeted_is : greeted ≡ known
unfolding check_fd
greeted_is = refl

Runs-known : Runs tools classes known
Runs-known = subst (Runs tools classes) greeted_is Runs-greeted

-- A demand of ten seconds of throughput, a hundred seconds from now.
abbrev session : List ℕ
session = 1 ∷ 2 ∷ 3 ∷ 4 ∷ 5 ∷ 6 ∷ 7 ∷ 8 ∷ 9 ∷ 10 ∷ 11 ∷ 12 ∷ 13 ∷ 14 ∷ 15 ∷ 16 ∷ []

abbrev query : Request
query = record {
  sid = session;
  rtime = clock + 100 * u32_mod;
  ftime = u32_mod;
  ltime = clock + 1000 * u32_mod;
  duration = 10;
  rtttime = u32_mod / 10;
  toolport = 0;
  tool_id = 1;
  sender = sub 0 46 zeros;
  receiver = sub 0 46 zeros;
}

abbrev demand_of : Event
demand_of = demand (env_of world (broker_of known (some 0, none)) 0) query

demand_is :
    event_of world (broker_of known (some 0, none)) (reservation_message query) ≡ some demand_of
unfolding event_of read_req_type read_reservation_query reservation_message
demand_is = refl

abbrev idle : State
idle = record { slots = []; res = none }

abbrev env : Environment
env = env_of world (broker_of known (some 0, none)) 0

-- The reservation that is allocated.
abbrev fresh : Reservation
fresh = record {
  tool = 1;
  sid = session;
  times = record { start = 0; restime = 0; end = 0 };
  fuzz = 0;
  sender = [];
  receiver = [];
  duration = 0;
  toolport = 5001;
}

allocated : take_reservation env query idle ≡ some ([], fresh)
unfolding take_reservation
allocated = refl

in_range : (hsecs tool : ℕ) → NoWrap (wish_of tools query tool clock hsecs) query clock []
unfolding wish_of first_start min_start num64_mult get_test_types latest
in_range hsecs tool = record {
  earliest = omega arith;
  epoch = omega arith;
  sums = omega arith;
  behind = tt;
}

query-Safe : Safe tools demand_of idle
query-Safe hsecs now r slots eh en et =
    let slots_are : [] ≡ slots = ap (λ x. x.0) (some-injective _ _ (sym allocated ∙ et)) in
    subst (λ list. NoWrap (wish_of tools query r.tool now hsecs) query now list) slots_are
      (subst (λ time. NoWrap (wish_of tools query r.tool time hsecs) query time [])
        (some-injective clock now en) (in_range hsecs r.tool))

Runs-demanded : Runs tools classes (
    put_back known 0
      (check_fd world (broker_of known (some 0, none)) (reservation_message query)).broker)
Runs-demanded =
    message known world 0 (some 0, none) (reservation_message query) Runs-known refl refl
      (subst (λ (e : Option Event). SafeEvent tools e idle) (sym demand_is) query-Safe)

-- The server once the demand is granted: the child has a reservation, in a slot.
abbrev behind_demand : State
behind_demand = (reservation_demand tools env query idle).0

abbrev reserved : Server
reserved = record {
  classes = classes;
  slots = behind_demand.slots;
  children = (some 0, behind_demand.res) ∷ [];
}

one_slot : length reserved.slots ≡ 1
unfolding reservation_demand answer take_reservation wish_of first_start min_start num64_mult
    get_test_types latest search_slot conclude is_late times_from find_slot get_node get_fixed_limit
one_slot = refl

Runs-reserved : Runs tools classes reserved
unfolding reservation_demand answer take_reservation wish_of first_start min_start num64_mult
    get_test_types latest search_slot conclude is_late times_from find_slot check_fd read_req_type
    read_reservation_query reservation_message serve_reservation get_node get_fixed_limit
Runs-reserved = Runs-demanded

-- The end of the test.
abbrev ended : Server
ended =
    put_back reserved 0
      (check_fd world (broker_of reserved (some 0, behind_demand.res))
        (complete_message session 0)).broker

completion_is :
    event_of world (broker_of reserved (some 0, behind_demand.res)) (complete_message session 0)
    ≡ some (Event.complete session)
unfolding event_of read_req_type read_test_complete complete_message
completion_is = refl

Runs-ended : Runs tools classes ended
Runs-ended =
    message reserved world 0 (some 0, behind_demand.res) (complete_message session 0) Runs-reserved
      refl refl
      (subst (λ (e : Option Event). SafeEvent tools e behind_demand) (sym completion_is) tt)

Runs-Reach_example : Reach tools (daemon_of ended)
Runs-Reach_example = Runs-Reach tools classes ended Runs-ended

Runs-Kept_example :
    ((l : ℕ) → Within l classes → Within l reserved.classes)
    × Timeline 0 reserved.slots
    × ((t : ℕ) → load t reserved.slots ≤ count t (daemon_of reserved).children)
Runs-Kept_example = Runs-Kept tools classes reserved Runs-reserved
