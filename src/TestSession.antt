-- ===== src/TestSession.antt =====
-- BWLProcessTestRequest of bwlib/sapi.c, with _BWLTestSessionFree of bwlib/api.c: a test request on
-- the connection of a child. The child keeps at most one test session. The hooks of the context are
-- those of bwctld/policy.c, and what a child asks of the daemon changes the daemon.
pub mod Ends
pub mod Cancel
pub mod Reading
pub mod Unanswered
mod Tests
use bwctl.Prelude.{ℕ, ◌*◌, Bool, Option, none, some, List, ◌==◌, if◌then◌else◌}
use bwctl.Num64.{num64_add}
use bwctl.TimeStamp.{TimeStamp, get_time_stamp_error}
use bwctl.Protocol.{
  AcceptType, accept_byte, accept, reject, failure, unsupported, Severity, fatal, warning, Session,
  Control, Wire, Outcome, done, failed,
}
use bwctl.Protocol.Start.{write_test_accept}
use bwctl.Protocol.TestRequest.{TestRequest, ToolKind, read_test_request}
use bwctl.Ipc.Dispatch.{World, Broker}
use bwctl.TestPolicy.{
  Child, TestInfo, Verdict, allowed, denied, broken, check_test_policy, test_complete,
}

-- BWLErrSeverity
pub data ErrSeverity : Type 0 where
  err_ok err_info err_warning err_fatal : ErrSeverity

abbrev pub severity_of : Severity → ErrSeverity
severity_of fatal = err_fatal
severity_of warning = err_warning

-- BWLTestSessionRec, its test request with the addresses and the port among its fields.
pub record TestSession : Type 0 where
  pub request : TestRequest
  pub fuzz : ℕ
  pub reserve_time : ℕ
  pub local_tool_port : ℕ
  pub closure : Option TestInfo

-- What the messages take from it.
abbrev pub session_of : TestSession → Session
session_of ts = record {
  conf_client = ts.request.conf_client;
  conf_server = ts.request.conf_server;
  sid = ts.request.sid;
  tool_port = ts.request.tool_port;
  reserve_time = ts.reserve_time;
}

-- What the child has around it: the tools by their number, what BWLGetTimeStamp and _BWLCreateSID
-- return, and whether the tool takes the test (BWLToolValidateTest).
pub record Context : Type 0 where
  pub tools : ℕ → Option ToolKind
  pub now : Option TimeStamp
  pub new_sid : Option (List ℕ)
  pub validates : TestRequest → Bool

-- A connection with its session, which is what cntrl->tests points to, and the daemon.
pub record Serving : Type 0 where
  pub control : Control
  pub wire : Wire
  pub session : Option TestSession
  pub broker : Broker

abbrev hold_session : Serving → TestSession → Serving
hold_session s ts = record s {
  control = record s.control { tests = some (session_of ts) };
  session = some ts;
}

-- BWLDTestComplete, if there is a closure.
abbrev pub release : World → Option TestInfo → Broker → Broker
release w none b = b
release w (some info) b = test_complete w info (accept_byte failure) b

-- _BWLTestSessionFree, with BWL_CNTRL_FAILURE. No endpoint has been started yet.
abbrev free_session : World → TestSession → Serving → Serving
free_session w ts s = record {
  control = record s.control { tests = none };
  wire = s.wire;
  session = none;
  broker = release w ts.closure s.broker;
}

-- The negative answer, whose failure is ignored.
abbrev pub behind_write : Serving → Outcome Unit → Serving
behind_write s (done a c wi) = record s { control = c; wire = wi }
behind_write s (failed sev c wi) = record s { control = c; wire = wi }

abbrev answer_negative : ErrSeverity → AcceptType → TestSession → Serving → Serving
answer_negative err_fatal acceptval ts s = s
answer_negative err acceptval ts s =
    behind_write s (write_test_accept acceptval (session_of ts) s.control s.wire)

-- The label `error`.
abbrev pub reject_test :
    World → ErrSeverity → AcceptType → TestSession → Serving → ErrSeverity × Serving
reject_test w err acceptval ts s = (err, free_session w ts (answer_negative err acceptval ts s))

-- What follows the positive answer; `err2` is freeing alone.
abbrev pub behind_accept : World → TestSession → Serving → Outcome Unit → ErrSeverity × Serving
behind_accept w ts s (done a c wi) = (err_ok, hold_session (record s { control = c; wire = wi }) ts)
behind_accept w ts s (failed sev c wi) =
    (severity_of sev, free_session w ts (record s { control = c; wire = wi }))

-- The time that a refusal leaves.
abbrev time_left : Option ℕ → ℕ → ℕ
time_left none t = t
time_left (some time) t = time

-- The session with what the hook has set.
abbrev pub agreed : TestSession → TestInfo → TestRequest → ℕ → ℕ → TestSession
agreed ts info q time port = record {
  request = q;
  fuzz = ts.fuzz;
  reserve_time = time;
  local_tool_port = port;
  closure = some info;
}

-- What follows the hook of the policy.
pub behind_policy : World → Context → TestSession → Serving → Verdict → ErrSeverity × Serving
behind_policy w x ts s (allowed info q time port) =
    let ts' = agreed ts info q time port in
    if x.validates q
    then behind_accept w ts' s (write_test_accept accept (session_of ts') s.control s.wire)
    else reject_test w err_warning unsupported ts' s
behind_policy w x ts s (denied time) =
    reject_test w err_info reject
      (record ts { reserve_time = time_left time ts.reserve_time; closure = none }) s
behind_policy w x ts s broken = reject_test w err_fatal accept ts s

-- The errors of both clocks, and a second and a half.
abbrev pub fuzz_of : TimeStamp → TestRequest → ℕ
fuzz_of now q =
    num64_add (num64_add (get_time_stamp_error q.req_time) (get_time_stamp_error now))
      (3 * 0x80000000)

pub judge : World → Child → Context → TimeStamp → TestSession → Serving → ErrSeverity × Serving
unfolding behind_policy
judge w child x now ts s =
    let fuzz = fuzz_of now ts.request in
    let (b, verdict) = check_test_policy w child ts.closure ts.request fuzz s.broker in
    behind_policy w x (record ts { fuzz = fuzz }) (record s { broker = b }) verdict

-- The request of a new session: a receiver gets an identifier.
abbrev pub named : Context → TestRequest → Option TestRequest
named x q =
    if q.conf_server
    then (elim x.new_sid [ none ↦ none | some sid ↦ some (record q { sid = sid }) ])
    else some q

abbrev pub alloc_session : TestRequest → TestSession
alloc_session q = record {
  request = q;
  fuzz = 0;
  reserve_time = 0;
  local_tool_port = 0;
  closure = none;
}

-- A new session at the time `now`: its tool, and before that its identifier.
abbrev pub with_tool :
    World
    → Child
    → Context
    → TimeStamp
    → TestRequest
    → Serving
    → Option ToolKind
    → ErrSeverity × Serving
with_tool w child x now q s none = reject_test w err_warning unsupported (alloc_session q) s
with_tool w child x now q s (some kind) = judge w child x now (alloc_session q) s

abbrev pub with_sid :
    World
    → Child
    → Context
    → TimeStamp
    → TestRequest
    → Serving
    → Option TestRequest
    → ErrSeverity × Serving
with_sid w child x now q s none = reject_test w err_warning failure (alloc_session q) s
with_sid w child x now q s (some q') = with_tool w child x now q' s (x.tools q'.spec.tool_id)

abbrev open_session :
    World → Child → Context → TimeStamp → TestRequest → Serving → ErrSeverity × Serving
open_session w child x now q s = with_sid w child x now q s (named x q)

-- An update of the session: with no time the client cancels it.
abbrev pub update_session :
    World → Child → Context → TimeStamp → TestSession → Serving → ErrSeverity × Serving
update_session w child x now ts s =
    let ts' = record ts { reserve_time = 0 } in
    if ts.request.req_time.tstamp == 0
    then reject_test w err_info reject ts' s
    else judge w child x now ts' s

-- What follows a request that was read, by the session that there is and the time.
abbrev pub at_time :
    World
    → Child
    → Context
    → TestRequest
    → Serving
    → Option TestSession
    → Option TimeStamp
    → ErrSeverity × Serving
at_time w child x q s none none = reject_test w err_warning failure (alloc_session q) s
at_time w child x q s none (some now) = open_session w child x now q s
at_time w child x q s (some old) none =
    reject_test w err_warning failure (record old { request = q }) s
at_time w child x q s (some old) (some now) =
    update_session w child x now (record old { request = q }) s

abbrev behind_request : World → Child → Context → TestRequest → Serving → ErrSeverity × Serving
behind_request w child x q s = at_time w child x q s s.session x.now

-- The session when the reading has failed: it may have freed the session.
abbrev release_session : World → Option TestSession → Broker → Broker
release_session w none b = b
release_session w (some ts) b = release w ts.closure b

abbrev pub kept_session : World → Serving → Control → Wire → Option Session → Serving
kept_session w s c wi none = record {
  control = c;
  wire = wi;
  session = none;
  broker = release_session w s.session s.broker;
}
kept_session w s c wi (some session) = record s { control = c; wire = wi }

abbrev unread : World → Serving → Control → Wire → Serving
unread w s c wi = kept_session w s c wi c.tests

abbrev pub behind_read :
    World → Child → Context → Serving → Outcome TestRequest → ErrSeverity × Serving
behind_read w child x s (done q c wi) =
    behind_request w child x q (record s { control = c; wire = wi })
behind_read w child x s (failed sev c wi) = (severity_of sev, unread w s c wi)

abbrev pub request_held : Option TestSession → Option TestRequest
request_held none = none
request_held (some ts) = some ts.request

-- BWLProcessTestRequest. Called in a wrong state, _BWLReadTestRequest leaves acceptval as it is,
-- which makes a warning of its error.
pub process_test_request : World → Child → Context → Serving → ErrSeverity × Serving
process_test_request w child x s =
    if s.control.state.test_request
    then behind_read w child x s
        (read_test_request x.tools (request_held s.session) s.control s.wire)
    else (err_warning, s)
