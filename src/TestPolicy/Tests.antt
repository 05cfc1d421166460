-- ===== src/TestPolicy/Tests.antt =====
-- The policy of a child on concrete tests.
use bwctl.Prelude.{
  ℕ, ◌*◌, ◌+◌, ◌/◌, ◌^◌, ◌<◌, ◌≡◌, refl, arith, ap, true, false, none, some, List, [], ◌∷◌,
}
use bwctl.Num64.{u32_mod, num64_mult}
use bwctl.Tools.{Tool, TestType, get_test_types}
use bwctl.Schedule.Search.{find_slot, is_late, times_from}
use bwctl.Policy.{
  lim_pending, Entry, PolicyNode, find_entry, get_node, get_limit, get_fixed_limit, limit_kind,
  set_used,
}
use bwctl.Policy.Demand.{mesg_request, resource_demand, integer_demand, demand_at}
use bwctl.Policy.Float.{exceeds, to_float, rounded_below, unit_below}
use bwctl.Policy.Counted.{entry_of}
use bwctl.Reservation.{
  reservation_demand, answer, take_reservation, wish_of, latest, first_start, min_start,
  search_slot, conclude,
}
use bwctl.Reservation.Denial.{is_granted}
use bwctl.Ipc.Dispatch.{World, Broker}
use bwctl.Protocol.TestRequest.{inet, TestRequest, no_spec}
use bwctl.TestPolicy.{
  Child, Verdict, allowed, limits_allow, ttl_allowed, one_pending, info_of, with_ttl,
  check_test_policy, test_complete,
}
use bwctl.TestPolicy.Control.{admitted, send_class, send_class_lem}
use bwctl.TestPolicy.Course.{
  Linked, TestFits, Course, counted, demanded, check_test_policy-Course, check_test_policy-settled,
}
use bwctl.TestPolicy.Refusal.{closure_of, check_test_policy-no_time}
use bwctl.TestPolicy.RoundTrip.{Ready, Restored, test_complete-check_test_policy}

abbrev pending_entry : Entry
pending_entry = record { limit = lim_pending; value = 3; used = 1 }

abbrev classes : List PolicyNode
classes = record { nodename = "root"; parent = none; entries = pending_entry ∷ [] } ∷ []

abbrev pub clock : ℕ
clock = (2208988800 + 1000) * u32_mod

abbrev tools : List Tool
tools = record { id = 1; test_types = TestType.throughput } ∷ []

abbrev pub world : World
world = record {
  tools = tools;
  find = λ name. some 0;
  currtime = some clock;
  init_port = some 5001;
  can_write = true;
}

abbrev pub child : Child
child = record {
  copy = classes;
  node = some 0;
  allow_unsync = false;
  is_synchronized = true;
  is_local = false;
  rtt_bound = u32_mod / 10;
  node_name = λ a. 49 ∷ [];
}

abbrev pub broker : Broker
broker = record { classes = classes; slots = []; node = some 0; res = none }

-- Ten seconds of throughput over TCP, a hundred seconds from now.
abbrev test : TestRequest
test = record {
  conf_client = true;
  conf_server = false;
  sid = 1 ∷ 2 ∷ 3 ∷ 4 ∷ 5 ∷ 6 ∷ 7 ∷ 8 ∷ 9 ∷ 10 ∷ 11 ∷ 12 ∷ 13 ∷ 14 ∷ 15 ∷ 16 ∷ [];
  tool_port = 5001;
  client = inet (192 ∷ 0 ∷ 2 ∷ 1 ∷ []);
  server = inet (192 ∷ 0 ∷ 2 ∷ 2 ∷ []);
  req_time = record { tstamp = clock + 100 * u32_mod; sync = 1; multiplier = 1; scale = 20 };
  latest_time = clock + 1000 * u32_mod;
  server_sends = 0;
  no_server_endpoint = 0;
  outformat = 0;
  spec = record no_spec { tool_id = 1; duration = 10 };
}

-- The same, to be done before it can be.
abbrev late_test : TestRequest
late_test = record test { latest_time = 1 }

pub link : Linked world child 0 broker
link = record { same_class = refl; known = refl; answers = refl; ports = omega arith }

test-TestFits :
    (latest : ℕ) → latest < 2 ^ 64 → TestFits child (record test { latest_time = latest }) u32_mod
test-TestFits latest h = record {
  sid = refl;
  req_time = omega arith;
  fuzz_time = omega arith;
  latest_time = omega arith;
  rtt_bound = omega arith;
  tool_port = omega arith;
  tool_id = omega arith;
}

send_class_lem_example :
    send_class world (λ id. 114 ∷ []) 0 (record broker { node = none })
    ≡ (record broker { node = some 0 }, admitted 0)
send_class_lem_example =
    send_class_lem world (λ id. 114 ∷ []) 0 (record broker { node = none }) refl refl (omega arith)
      (λ e. absurd (omega arith), tt)

check_test_policy-Course_example :
    Course world child 0 test u32_mod broker
      (check_test_policy world child none test u32_mod broker)
check_test_policy-Course_example =
    check_test_policy-Course world child 0 test u32_mod broker link (test-TestFits _ (omega arith))

allowed_limits : limits_allow child 0 test u32_mod ≡ true
unfolding limits_allow resource_demand integer_demand limit_kind get_limit get_node find_entry
    demand_at
allowed_limits = refl

late_limits : limits_allow child 0 late_test u32_mod ≡ true
unfolding limits_allow
late_limits = allowed_limits

no_ttl : ttl_allowed child 0 test ≡ some 0
unfolding ttl_allowed get_node get_fixed_limit limit_kind get_limit find_entry
no_ttl = refl

pub counted_too : (resource_demand mesg_request one_pending classes 0).1 ≡ true
unfolding resource_demand integer_demand limit_kind find_entry demand_at exceeds to_float
    rounded_below unit_below
counted_too = refl

no_time :
    is_granted (demanded world child 0 (with_ttl late_test 0) u32_mod (counted 0 broker)).1 ≡ false
unfolding reservation_demand answer take_reservation resource_demand integer_demand limit_kind
    find_entry demand_at exceeds to_float rounded_below unit_below get_fixed_limit get_limit
    get_node wish_of latest first_start min_start num64_mult search_slot conclude is_late times_from
    set_used
no_time = refl

check_test_policy-no_time_example :
    (closure_of (check_test_policy world child none late_test u32_mod broker).1 ≡ none)
    × (entry_of lim_pending
          (check_test_policy world child none late_test u32_mod broker).0.classes
          0
        ≡ some (record pending_entry { used = 2 }))
unfolding ttl_allowed
check_test_policy-no_time_example =
    check_test_policy-no_time world child 0 late_test u32_mod 0 broker pending_entry link
      (test-TestFits 1 (omega arith)) (unfold get_node find_entry in refl)
      (λ e. absurd (omega arith)) (omega arith) late_limits no_ttl counted_too no_time

test-Ready : Ready world child 0 test u32_mod broker 0 clock 5001
unfolding get_node get_fixed_limit get_limit limit_kind find_entry set_used resource_demand
    integer_demand demand_at exceeds to_float rounded_below unit_below wish_of first_start min_start
    num64_mult get_test_types latest
test-Ready = record {
  within = ((omega arith, λ _. omega arith), tt);
  idle = refl;
  slots = tt;
  hsecs_known = refl;
  now_known = refl;
  port_known = refl;
  no_wrap = record { earliest = omega arith; epoch = omega arith; sums = omega arith; behind = tt };
}

-- The daemon has the second that was asked for, and the port of the tool.
allowed_test :
    (check_test_policy world child none test u32_mod broker).1
    ≡ allowed (info_of 0 test) test (clock + 100 * u32_mod) 5001
unfolding reservation_demand answer take_reservation resource_demand integer_demand limit_kind
    find_entry demand_at exceeds to_float rounded_below unit_below get_fixed_limit get_limit
    get_node wish_of latest first_start min_start num64_mult search_slot conclude is_late times_from
    set_used find_slot
allowed_test =
    ap (λ (x : Broker × Verdict). x.1)
      (check_test_policy-settled world child 0 test u32_mod 0 broker link
        (test-TestFits _ (omega arith)) allowed_limits no_ttl counted_too)

test_complete-check_test_policy_example : Restored broker (
    test_complete world
      (info_of 0 test)
      0
      (check_test_policy world child none test u32_mod broker).0)
test_complete-check_test_policy_example =
    test_complete-check_test_policy world child 0 test u32_mod broker 0 clock 5001 0 link
      (test-TestFits _ (omega arith)) test-Ready (omega arith) (info_of 0 test) test
      (clock + 100 * u32_mod) 5001 allowed_test
