-- ===== src/TestPolicy.antt =====
-- bwctld/policy.c, the hooks of a child that decide about a test: BWLDCheckTestPolicy, which checks
-- a request against the limits of the user class and then asks the daemon for a pending reservation
-- and for a time, and BWLDTestComplete, which gives them back. A child has a copy of the tree of
-- classes from the fork; only limits of fixed and Boolean kinds are looked up in it, which leaves
-- it as it is.
pub mod Control
pub mod Course
pub mod Refusal
pub mod RoundTrip
pub mod Tests
use bwctl.Prelude.{
  ℕ, ◌+◌, ◌-◌, ◌/◌, ◌%◌, Bool, true, false, not, Option, none, some, List, ltb, ◌==◌, if◌then◌else◌,
  ◌&&◌, ◌||◌,
}
use bwctl.Num64.{u32_mod}
use bwctl.Bytes.{nth, sub}
use bwctl.Policy.{
  lim_bandwidth, lim_pending, lim_duration, lim_allow_tcp, lim_allow_udp, lim_max_time_error,
  lim_minimum_ttl, lim_allow_no_endpoint, LimRec, PolicyNode, get_node, get_fixed_limit,
}
use bwctl.Policy.Float.{to_double}
use bwctl.Policy.Demand.{mesg_request, mesg_release, resource_demand}
use bwctl.Reservation.{Request}
use bwctl.Ipc.{mesg_ok}
use bwctl.Ipc.Dispatch.{World, Broker}
use bwctl.Ipc.Ask.{resource, reservation, complete, ask}
use bwctl.Protocol.Parameters.{TestSpec}
use bwctl.Protocol.TestRequest.{Address, TestRequest}

-- What the child has of its connection and its context: its copy of the classes, its class
-- (BWLDPOLICY_NODE), whether it may and does run unsynchronized, whether the client is on this host
-- (BWLCntrlIsLocal), the bound of the round trip, and an address in digits (BWLAddrNodeName).
pub record Child : Type 0 where
  pub copy : List PolicyNode
  pub node : Option ℕ
  pub allow_unsync : Bool
  pub is_synchronized : Bool
  pub is_local : Bool
  pub rtt_bound : ℕ
  pub node_name : Address → List ℕ

-- BWLDTestInfoRec, the closure of a test. `res` has one entry.
pub record TestInfo : Type 0 where
  pub node : ℕ
  pub sid : List ℕ
  pub res : LimRec

-- What BWLDCheckTestPolicy returns: True with the closure, the test (whose port and first TTL it
-- may set), the time and the local port; False with no closure and, if a response was read, its
-- time; or False with BWLErrFATAL.
pub data Verdict : Type 0 where
  allowed : TestInfo → TestRequest → ℕ → ℕ → Verdict
  denied : Option ℕ → Verdict
  broken : Verdict

-- BWLDResourceDemand of a request, on the copy.
abbrev allows : Child → ℕ → ℕ → ℕ → Bool
allows child id limit value =
    (resource_demand mesg_request (record { limit = limit; value = value }) child.copy id).1

-- tspec->duration + tspec->omit
abbrev test_seconds : TestRequest → ℕ
test_seconds q = (q.spec.duration + q.spec.omit) % u32_mod

-- (BWLDLimitT) ceil(BWLNum64ToDouble(fuzz_time))
error_seconds : ℕ → ℕ
unfolding to_double
error_seconds fuzz = (to_double fuzz + (u32_mod - 1)) / u32_mod

protocol_allowed : Child → ℕ → TestRequest → Bool
protocol_allowed child id q =
    if q.spec.udp
    then allows child id lim_allow_udp 1 && allows child id lim_bandwidth q.spec.bandwidth
    else allows child id lim_allow_tcp 1

endpoint_allowed : Child → ℕ → TestRequest → Bool
endpoint_allowed child id q =
    if q.conf_client && not (q.no_server_endpoint == 0)
    then child.is_local || allows child id lim_allow_no_endpoint 1
    else true

-- The checks of a new request in their order, but for the TTL. The duration is checked twice, and
-- the tool against a mask of all bits.
unfoldable pub limits_allow : Child → ℕ → TestRequest → ℕ → Bool
unfolding error_seconds protocol_allowed endpoint_allowed
limits_allow child id q fuzz =
    (child.allow_unsync || child.is_synchronized)
    && (allows child id lim_duration (test_seconds q)
        && (allows child id lim_duration (test_seconds q)
            && (allows child id lim_max_time_error (error_seconds fuzz)
                && (not (q.spec.tool_id == 0)
                    && (protocol_allowed child id q && endpoint_allowed child id q)))))

-- The first TTL, which a minimum holds for on the side that sends: `none` if it is too low.
abbrev sends : TestRequest → Bool
sends q = (q.conf_client && q.server_sends == 0) || (not q.conf_client && not (q.server_sends == 0))

abbrev first_ttl : ℕ → ℕ → Option ℕ
first_ttl minimum ttl =
    if ltb 0 minimum && (ltb 0 ttl && ltb ttl minimum)
    then none
    else some (if ttl == 0 then minimum % 256 else ttl)

unfoldable pub ttl_allowed : Child → ℕ → TestRequest → Option ℕ
ttl_allowed child id q =
    let ttl = q.spec.traceroute_first_ttl in
    if not (sends q) then some ttl else (elim (get_node child.copy id) [
      | none ↦ some ttl
      | some node ↦ elim (get_fixed_limit node lim_minimum_ttl) [
        | none ↦ some ttl
        | some minimum ↦ first_ttl minimum ttl
      ]
    ])

-- tinfo->res[0]
abbrev pub one_pending : LimRec
one_pending = record { limit = lim_pending; value = 1 }

-- A name in an array of 46 bytes that was cleared before.
abbrev name_bytes : List ℕ → List ℕ
name_bytes name = sub 0 46 (nth name)

-- The arguments of BWLDReservationQuery.
abbrev pub query_for : Child → TestInfo → TestRequest → ℕ → Request
query_for child info q fuzz =
    let client_sends = q.server_sends == 0 in
    record {
      sid = info.sid;
      rtime = q.req_time.tstamp;
      ftime = fuzz;
      ltime = q.latest_time;
      duration = test_seconds q;
      rtttime = child.rtt_bound;
      toolport = q.tool_port;
      tool_id = q.spec.tool_id;
      sender = name_bytes (child.node_name (if client_sends then q.client else q.server));
      receiver = name_bytes (child.node_name (if client_sends then q.server else q.client));
    }

-- What follows the response: the parent's port is taken by a receiver.
abbrev pub after_response : TestInfo → TestRequest → ℕ × Option (ℕ × ℕ) → Verdict
after_response info q (mesg, none) = denied none
after_response info q (mesg, some (time, port)) =
    if mesg == mesg_ok
    then allowed info (record q { tool_port = if q.conf_client then q.tool_port else port }) time
        port
    else denied (some time)

-- From the label `reservation` on.
pub reserve : World → Child → TestInfo → TestRequest → ℕ → Broker → Broker × Verdict
unfolding ask
reserve w child info q fuzz b =
    let (b', mesg, read) = ask w b (reservation (query_for child info q fuzz)) in
    (b', after_response info q (mesg, read))

abbrev pub with_ttl : TestRequest → ℕ → TestRequest
with_ttl q ttl = record q { spec = record q.spec { traceroute_first_ttl = ttl } }

abbrev pub info_of : ℕ → TestRequest → TestInfo
info_of id q = record { node = id; sid = q.sid; res = one_pending }

-- The consumable resource, which the daemon counts, and then the reservation.
pub request_pending : World → Child → ℕ → TestRequest → ℕ → Broker → Broker × Verdict
unfolding ask reserve
request_pending w child id q fuzz b =
    let (b', mesg, read) = ask w b (resource mesg_request one_pending) in
    if mesg == mesg_ok then reserve w child (info_of id q) q fuzz b' else (b', denied none)

-- A new request at the child's class.
pub check_new : World → Child → ℕ → TestRequest → ℕ → Broker → Broker × Verdict
unfolding limits_allow ttl_allowed request_pending
check_new w child id q fuzz b =
    if limits_allow child id q fuzz
    then (elim (ttl_allowed child id q) [
      | none ↦ (b, denied none)
      | some ttl ↦ request_pending w child id (with_ttl q ttl) fuzz b
    ])
    else (b, denied none)

-- BWLDCheckTestPolicy, with the closure of a reservation that there is.
pub check_test_policy :
    World → Child → Option TestInfo → TestRequest → ℕ → Broker → Broker × Verdict
unfolding reserve check_new
check_test_policy w child (some info) q fuzz b = reserve w child info q fuzz b
check_test_policy w child none q fuzz b = elim child.node [
  | none ↦ (b, broken)
  | some id ↦ check_new w child id q fuzz b
]

-- BWLDTestComplete
pub test_complete : World → TestInfo → ℕ → Broker → Broker
unfolding ask
test_complete w info aval b =
    let released = (ask w b (resource mesg_release info.res)).0 in
    (ask w (if info.res.limit == 0 then b else released) (complete info.sid aval)).0
