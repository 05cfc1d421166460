-- ===== src/TestSession/Tests.antt =====
-- bwlib/sapi.c: a test that is asked for and cancelled, on concrete messages.
use bwctl.Prelude.{
  ℕ, ◌*◌, ◌+◌, ◌≡◌, ◌++◌, refl, arith, ap, true, false, Option, none, some, List, [], ◌∷◌, ◌∙◌,
}
use bwctl.Num64.{u32_mod, num64_mult}
use bwctl.Tools.{get_test_types}
use bwctl.Bytes.{zeros, put, split}
use bwctl.TimeStamp.{
  TimeStamp, decode_time_stamp, decode_err_estimate, get_time_stamp_error, scale_up,
}
use bwctl.Protocol.{no_flags, Session, Control, Wire, done, failed, fatal, warning, receive, send}
use bwctl.Protocol.Parameters.{parse_throughput}
use bwctl.Protocol.TestRequest.{
  TestRequest, throughput, inet, no_spec, read_test_request, decode_request, with_parameters,
}
use bwctl.Protocol.Start.{write_test_accept}
use bwctl.Protocol.Request.{read_request_type}
use bwctl.Schedule.Search.{find_slot, is_late, times_from}
use bwctl.Policy.{find_entry, get_node, get_limit, get_fixed_limit, limit_kind, set_used}
use bwctl.Policy.Demand.{resource_demand, integer_demand, demand_at}
use bwctl.Policy.Float.{exceeds, to_float, rounded_below, unit_below}
use bwctl.Reservation.{
  reservation_demand, answer, take_reservation, wish_of, latest, first_start, min_start,
  search_slot, conclude,
}
use bwctl.Ipc.Dispatch.{Broker}
use bwctl.TestPolicy.{Verdict, allowed, limits_allow, ttl_allowed, info_of, check_test_policy}
use bwctl.TestPolicy.Course.{TestFits, check_test_policy-settled}
use bwctl.TestPolicy.RoundTrip.{Ready, Restored}
use bwctl.TestPolicy.Tests.{clock, world, child, broker, link, counted_too}
use bwctl.TestSession.{
  ErrSeverity, err_ok, err_info, err_warning, Context, Serving, TestSession, session_of, fuzz_of,
  alloc_session, judge, behind_policy, process_test_request,
}
use bwctl.TestSession.Unanswered.{process_test_request-unanswered}
use bwctl.TestSession.Cancel.{Asked, Cancels, process-judge, process_test_request-cancelled}
use bwctl.TestSession.Ends.{Ends, process_test_request-Ends}

-- A request of ten seconds of throughput, a hundred seconds from the clock, or without a time, as
-- its first block and what follows it.
abbrev a_time : ℕ → ℕ → List ℕ
a_time b2 b3 = 0x83 ∷ 0xaa ∷ b2 ∷ b3 ∷ 0 ∷ 0 ∷ 0 ∷ 0 ∷ []

abbrev sixteen : List ℕ
sixteen = 1 ∷ 2 ∷ 3 ∷ 4 ∷ 5 ∷ 6 ∷ 7 ∷ 8 ∷ 9 ∷ 10 ∷ 11 ∷ 12 ∷ 13 ∷ 14 ∷ 15 ∷ 16 ∷ []

abbrev blank : List ℕ
blank = 0 ∷ 0 ∷ 0 ∷ 0 ∷ 0 ∷ 0 ∷ 0 ∷ 0 ∷ []

abbrev first_block : List ℕ → List ℕ
first_block time = 1 ∷ 4 ∷ 1 ∷ 0 ∷ 0 ∷ 0 ∷ 0 ∷ 10 ∷ time

abbrev later_blocks : List ℕ
later_blocks =
    a_time 0x86 0x50
    ++ (20 ∷ 1 ∷ 0x13 ∷ 0x89 ∷ 192 ∷ 0 ∷ 2 ∷ 1 ∷ []
        ++ (blank
            ++ (0 ∷ 0 ∷ 0 ∷ 0 ∷ 192 ∷ 0 ∷ 2 ∷ 2 ∷ []
                ++ (blank
                    ++ (0 ∷ 0 ∷ 0 ∷ 0 ∷ []
                        ++ (sixteen
                            ++ (0 ∷ 0 ∷ 0 ∷ 0 ∷ [] ++ (blank ++ (blank ++ (blank ++ blank))))))))))

abbrev control : List ℕ → Option Session → Control
control time tests = record {
  state = record no_flags { request = true; test_request = true };
  version = 0;
  mode = 1;
  msg = put 0 16 (first_block time) zeros;
  tests = tests;
}

abbrev wire : Wire
wire = record { incoming = later_blocks; outgoing = []; up = true }

-- The connection once the request is read.
abbrev read_control : List ℕ → Option Session → Control
read_control time tests = record (control time tests) {
  state = record no_flags { request = true; test_accept = true };
  msg = put 16 96 later_blocks (put 0 16 (first_block time) zeros);
}

abbrev read_wire : Wire
read_wire = record wire { incoming = [] }

abbrev at : ℕ → TimeStamp
at time = record { tstamp = time; sync = 0; multiplier = 1; scale = 20 }

abbrev asked : TestRequest
asked = record {
  conf_client = true;
  conf_server = false;
  sid = sixteen;
  tool_port = 5001;
  client = inet (192 ∷ 0 ∷ 2 ∷ 1 ∷ []);
  server = inet (192 ∷ 0 ∷ 2 ∷ 2 ∷ []);
  req_time = at (clock + 100 * u32_mod);
  latest_time = clock + 1000 * u32_mod;
  server_sends = 0;
  no_server_endpoint = 0;
  outformat = 0;
  spec = record no_spec { tool_id = 1; duration = 10; verbose = 1 };
}

abbrev context : Context
context = record {
  tools = λ id. some throughput;
  now = some (at clock);
  new_sid = none;
  validates = λ q. true;
}

abbrev serving : Serving
serving = record {
  control = control (a_time 0x82 0xcc) none;
  wire = wire;
  session = none;
  broker = broker;
}

process_test_request-Ends_example : Ends serving (process_test_request world child context serving)
process_test_request-Ends_example = process_test_request-Ends world child context serving

read_first :
    read_test_request (λ id. some throughput) none (control (a_time 0x82 0xcc) none) wire
    ≡ done asked (read_control (a_time 0x82 0xcc) none) read_wire
unfolding read_test_request decode_request with_parameters receive decode_time_stamp
    decode_err_estimate split parse_throughput
read_first = refl

abbrev serving-Asked : Asked context serving (at clock) asked
serving-Asked = record {
  control = read_control (a_time 0x82 0xcc) none;
  wire = read_wire;
  message = asked;
  kind = throughput;
  expected = refl;
  free = refl;
  read = read_first;
  clock = refl;
  named_as = refl;
  tool = refl;
}

-- The error of both clocks is a 4096th of a second.
abbrev fuzz : ℕ
fuzz = 0x80200000 + u32_mod

fuzz_asked : fuzz_of (at clock) asked ≡ fuzz
unfolding get_time_stamp_error scale_up
fuzz_asked = refl

asked-TestFits : TestFits child asked (fuzz_of (at clock) asked)
asked-TestFits = record {
  sid = refl;
  req_time = omega arith;
  fuzz_time = rw fuzz_asked (omega arith);
  latest_time = omega arith;
  rtt_bound = omega arith;
  tool_port = omega arith;
  tool_id = omega arith;
}

allowed_limits : limits_allow child 0 asked (fuzz_of (at clock) asked) ≡ true
unfolding limits_allow resource_demand integer_demand limit_kind get_limit get_node find_entry
    demand_at
allowed_limits = refl

no_ttl : ttl_allowed child 0 asked ≡ some 0
unfolding ttl_allowed get_node get_fixed_limit limit_kind get_limit find_entry
no_ttl = refl

allowed_asked :
    (check_test_policy world child none asked (fuzz_of (at clock) asked) broker).1
    ≡ allowed (info_of 0 asked) asked (clock + 100 * u32_mod) 5001
unfolding reservation_demand answer take_reservation resource_demand integer_demand limit_kind
    find_entry demand_at exceeds to_float rounded_below unit_below get_fixed_limit get_limit
    get_node wish_of latest first_start min_start num64_mult search_slot conclude is_late times_from
    set_used find_slot get_time_stamp_error scale_up
allowed_asked =
    ap (λ (x : Broker × Verdict). x.1)
      (check_test_policy-settled world child 0 asked (fuzz_of (at clock) asked) 0 broker link
        asked-TestFits allowed_limits no_ttl counted_too)

asked-Ready : Ready world child 0 asked (fuzz_of (at clock) asked) broker 0 clock 5001
unfolding get_node get_fixed_limit get_limit limit_kind find_entry set_used resource_demand
    integer_demand demand_at exceeds to_float rounded_below unit_below wish_of first_start min_start
    num64_mult get_test_types latest get_time_stamp_error scale_up
asked-Ready = record {
  within = ((omega arith, λ _. omega arith), tt);
  idle = refl;
  slots = tt;
  hsecs_known = refl;
  now_known = refl;
  port_known = refl;
  no_wrap = record { earliest = omega arith; epoch = omega arith; sums = omega arith; behind = tt };
}

-- The session that the first request leaves.
abbrev reserved : TestSession
reserved = record {
  request = asked;
  fuzz = fuzz_of (at clock) asked;
  reserve_time = clock + 100 * u32_mod;
  local_tool_port = 5001;
  closure = some (info_of 0 asked);
}

-- What follows the hook of the policy, by its verdict.
abbrev judged_by : Verdict → ErrSeverity × Serving
judged_by =
    behind_policy world context (record (alloc_session asked) { fuzz = fuzz_of (at clock) asked })
      (record serving {
        control = read_control (a_time 0x82 0xcc) none;
        wire = read_wire;
        broker = (check_test_policy world child none asked (fuzz_of (at clock) asked) broker).0;
      })

judged :
    let r =
      judge world child context
        (at clock)
        (alloc_session asked)
        (record serving { control = read_control (a_time 0x82 0xcc) none; wire = read_wire }) in
    (r.0 ≡ err_ok) × (r.1.session ≡ some reserved)
unfolding judge behind_policy write_test_accept send
judged = (
  ap (λ (v : Verdict). (judged_by v).0) allowed_asked,
  ap (λ (v : Verdict). (judged_by v).1.session) allowed_asked,
)

abbrev first : ErrSeverity × Serving
first = process_test_request world child context serving

accepted_first : (first.0 ≡ err_ok) × (first.1.session ≡ some reserved)
accepted_first =
    let same = process-judge world child context serving (at clock) asked serving-Asked in
    (
      ap (λ (p : ErrSeverity × Serving). p.0) same ∙ judged.0,
      ap (λ (p : ErrSeverity × Serving). p.1.session) same ∙ judged.1,
    )

-- The second request is the first one without its time.
abbrev cancelling : Serving
cancelling = record {
  control = control blank (some (session_of reserved));
  wire = wire;
  session = some reserved;
  broker = first.1.broker;
}

abbrev cancelled : TestRequest
cancelled = record asked { req_time = at 0 }

read_second :
    read_test_request
      (λ id. some throughput)
      (some asked)
      (control blank (some (session_of reserved)))
      wire
    ≡ done cancelled (read_control blank (some (session_of reserved))) read_wire
unfolding read_test_request receive decode_time_stamp decode_err_estimate split
read_second = refl

cancelling-Cancels : Cancels context cancelling reserved
cancelling-Cancels = record {
  control = read_control blank (some (session_of reserved));
  wire = read_wire;
  message = cancelled;
  now = at clock;
  expected = refl;
  held = refl;
  read = read_second;
  clock = refl;
  no_time = refl;
}

process_test_request-cancelled_example :
    ((process_test_request world child context cancelling).0 ≡ err_info)
    × (((process_test_request world child context cancelling).1.session ≡ none)
        × Restored broker (process_test_request world child context cancelling).1.broker)
process_test_request-cancelled_example =
    process_test_request-cancelled world child 0 context context serving cancelling (at clock) asked
      reserved 0 clock 5001 serving-Asked link asked-TestFits asked-Ready accepted_first.0
      accepted_first.1 refl cancelling-Cancels

-- A daemon that does not know the tool.
abbrev without_tools : Context
without_tools = record context { tools = λ id. none }

read_unknown :
    read_test_request (λ id. none) none (control (a_time 0x82 0xcc) none) wire
    ≡ failed warning
        (record (control (a_time 0x82 0xcc) none) {
          msg = put 16 96 later_blocks (put 0 16 (first_block (a_time 0x82 0xcc)) zeros);
        })
        read_wire
unfolding read_test_request decode_request with_parameters receive decode_time_stamp
    decode_err_estimate split
read_unknown = refl

process_test_request-unanswered_example :
    let r = process_test_request world child without_tools serving in
    (r.0 ≡ err_warning)
    × ((r.1.wire.outgoing ≡ [])
        × ((next : Wire) → read_request_type r.1.control next ≡ failed fatal r.1.control next))
process_test_request-unanswered_example =
    process_test_request-unanswered world child without_tools serving _ _ refl read_unknown
