-- ===== src/TestSession/Cancel.antt =====
-- bwlib/sapi.c: a test request that is accepted, and then cancelled.
use bwctl.Prelude.{
  ℕ, ◌≡◌, refl, sym, ap, ◌∙◌, Bool, true, false, Option, none, some, if◌then◌else◌, ◌==◌, arith,
}
use mathlib.Core.Path.{subst}
use mathlib.Core.Option.{some-injective}
use bwctl.TimeStamp.{TimeStamp}
use bwctl.Protocol.{
  accept_byte, accept, reject, failure, fatal, warning, Control, Wire, Outcome, done, failed,
}
use bwctl.Protocol.Start.{write_test_accept}
use bwctl.Protocol.TestRequest.{TestRequest, ToolKind, read_test_request}
use bwctl.Ipc.Dispatch.{World, Broker}
use bwctl.TestPolicy.{
  Child, TestInfo, Verdict, allowed, denied, broken, check_test_policy, test_complete,
}
use bwctl.TestPolicy.Course.{Linked, TestFits}
use bwctl.TestPolicy.RoundTrip.{Ready, Restored, test_complete-check_test_policy}
use bwctl.TestSession.Reading.{read-behind_read}
use bwctl.TestSession.{
  ErrSeverity, err_ok, err_info, err_warning, TestSession, session_of, Context, Serving, release,
  behind_write, reject_test, behind_accept, agreed, behind_policy, fuzz_of, judge, named,
  alloc_session, with_tool, with_sid, at_time, process_test_request,
}

-- A request of a new session that is read at a time that is known, with its identifier and a tool.
pub record Asked (x : Context) (s : Serving) (now : TimeStamp) (q : TestRequest) : Type 0 where
  pub control : Control
  pub wire : Wire
  pub message : TestRequest
  pub kind : ToolKind
  pub expected : s.control.state.test_request ≡ true
  pub free : s.session ≡ none
  pub read : read_test_request x.tools none s.control s.wire ≡ done message control wire
  pub clock : x.now ≡ some now
  pub named_as : named x message ≡ some q
  pub tool : x.tools q.spec.tool_id ≡ some kind

-- A request without a time, on a connection that has a session.
pub record Cancels (x : Context) (s : Serving) (ts : TestSession) : Type 0 where
  pub control : Control
  pub wire : Wire
  pub message : TestRequest
  pub now : TimeStamp
  pub expected : s.control.state.test_request ≡ true
  pub held : s.session ≡ some ts
  pub read :
      read_test_request x.tools (some ts.request) s.control s.wire ≡ done message control wire
  pub clock : x.now ≡ some now
  pub no_time : message.req_time.tstamp ≡ 0

-- The session and the daemon behind a policy that allowed the test.
record Agreed (ts : TestSession) (b : Broker) (v : Verdict) (s : Serving) : Type 0 where
  pub info : TestInfo
  pub request : TestRequest
  pub time : ℕ
  pub port : ℕ
  pub verdict : v ≡ allowed info request time port
  pub session : s.session ≡ some (agreed ts info request time port)
  pub broker : s.broker ≡ b

behind_accept-Agreed :
    (w : World) (ts : TestSession) (info : TestInfo) (q : TestRequest) (time port : ℕ) (s : Serving)
    (o : Outcome Unit)
    → (behind_accept w (agreed ts info q time port) s o).0 ≡ err_ok
    → Agreed ts s.broker
        (allowed info q time port)
        (behind_accept w (agreed ts info q time port) s o).1
behind_accept-Agreed w ts info q time port s (done a c wi) h = record {
  info = info;
  request = q;
  time = time;
  port = port;
  verdict = refl;
  session = refl;
  broker = refl;
}
behind_accept-Agreed w ts info q time port s (failed fatal c wi) h = absurd (cc)
behind_accept-Agreed w ts info q time port s (failed warning c wi) h = absurd (cc)

if_accepted :
    (valid : Bool) (w : World) (ts : TestSession) (info : TestInfo) (q : TestRequest)
    (time port : ℕ) (s s' : Serving) (o : Outcome Unit)
    → let r =
        if valid then behind_accept w (agreed ts info q time port) s o else (err_warning, s') in
      r.0 ≡ err_ok → Agreed ts s.broker (allowed info q time port) r.1
if_accepted true w ts info q time port s s' o h = behind_accept-Agreed w ts info q time port s o h
if_accepted false w ts info q time port s s' o h = absurd (cc)

behind_policy-Agreed :
    (w : World) (x : Context) (ts : TestSession) (s : Serving) (v : Verdict)
    → (behind_policy w x ts s v).0 ≡ err_ok
    → Agreed ts s.broker v (behind_policy w x ts s v).1
unfolding behind_policy
behind_policy-Agreed w x ts s (allowed info q time port) h =
    if_accepted (x.validates q) w ts info q time port s _
      (write_test_accept accept (session_of (agreed ts info q time port)) s.control s.wire) h
behind_policy-Agreed w x ts s (denied time) h = absurd (cc)
behind_policy-Agreed w x ts s broken h = absurd (cc)

-- The negative answer leaves the daemon alone.
behind_write-broker : (s : Serving) (o : Outcome Unit) → (behind_write s o).broker ≡ s.broker
behind_write-broker s (done a c wi) = refl
behind_write-broker s (failed sev c wi) = refl

-- The session that a request opens.
abbrev opened : TimeStamp → TestRequest → TestSession
opened now q = record (alloc_session q) { fuzz = fuzz_of now q }

-- What follows a request that opens a session.
pub process-judge :
    (w : World) (child : Child) (x : Context) (s : Serving) (now : TimeStamp) (q : TestRequest)
    (a : Asked x s now q)
    → process_test_request w child x s
      ≡ judge w child x now (alloc_session q) (record s { control = a.control; wire = a.wire })
process-judge w child x s now q a =
    let s' = record s { control = a.control; wire = a.wire } in
    read-behind_read w child x s none _ a.expected a.free a.read
    ∙ ap (λ (held : Option TestSession). at_time w child x a.message s' held x.now) a.free
    ∙ ap (at_time w child x a.message s' none) a.clock
    ∙ ap (with_sid w child x now a.message s') a.named_as
    ∙ ap (with_tool w child x now q s') a.tool

judge-Agreed :
    (w : World) (child : Child) (x : Context) (s : Serving) (now : TimeStamp) (q : TestRequest)
    → (judge w child x now (alloc_session q) s).0 ≡ err_ok
    → let r = check_test_policy w child none q (fuzz_of now q) s.broker in
      Agreed (opened now q) r.0 r.1 (judge w child x now (alloc_session q) s).1
unfolding judge
judge-Agreed w child x s now q h =
    let r = check_test_policy w child none q (fuzz_of now q) s.broker in
    behind_policy-Agreed w x (opened now q) (record s { broker = r.0 }) r.1 h

-- A request that opens a session, and that is accepted.
process-Agreed :
    (w : World) (child : Child) (x : Context) (s : Serving) (now : TimeStamp) (q : TestRequest)
    → Asked x s now q
    → (process_test_request w child x s).0 ≡ err_ok
    → let r = check_test_policy w child none q (fuzz_of now q) s.broker in
      Agreed (opened now q) r.0 r.1 (process_test_request w child x s).1
process-Agreed w child x s now q a h =
    let r = check_test_policy w child none q (fuzz_of now q) s.broker in
    let same = process-judge w child x s now q a in
    subst (λ (p : ErrSeverity × Serving). Agreed (opened now q) r.0 r.1 p.1) (sym same)
      (judge-Agreed w child x (record s { control = a.control; wire = a.wire }) now q
        (ap (λ (p : ErrSeverity × Serving). p.0) (sym same) ∙ h))

-- A request that cancels a session.
process-cancel :
    (w : World) (child : Child) (x : Context) (s : Serving) (ts : TestSession) (c : Cancels x s ts)
    → process_test_request w child x s
      ≡ reject_test w err_info reject
          (record ts { request = c.message; reserve_time = 0 })
          (record s { control = c.control; wire = c.wire })
process-cancel w child x s ts c =
    let s' = record s { control = c.control; wire = c.wire } in
    let ts' = record ts { request = c.message } in
    let cancelled = record ts { request = c.message; reserve_time = 0 } in
    read-behind_read w child x s (some ts) _ c.expected c.held c.read
    ∙ ap (λ (held : Option TestSession). at_time w child x c.message s' held x.now) c.held
    ∙ ap (at_time w child x c.message s' (some ts)) c.clock
    ∙ ap
        (λ (t : ℕ).
          if t == 0
          then reject_test w err_info reject cancelled s'
          else judge w child x c.now cancelled s')
        c.no_time

-- What freeing a session does to the daemon, where the session was agreed on.
cancelled-broker :
    (w : World) (child : Child) (x : Context) (s : Serving) (ts : TestSession) (info : TestInfo)
    → Cancels x s ts
    → ts.closure ≡ some info
    → (process_test_request w child x s).1.broker
      ≡ test_complete w info (accept_byte failure) s.broker
cancelled-broker w child x s ts info c closed =
    let s' = record s { control = c.control; wire = c.wire } in
    let ts' = record ts { request = c.message; reserve_time = 0 } in
    ap (λ (p : ErrSeverity × Serving). p.1.broker) (process-cancel w child x s ts c)
    ∙ ap (release w ts.closure)
        (behind_write-broker s' (write_test_accept reject (session_of ts') c.control c.wire))
    ∙ ap (λ (closure : Option TestInfo). release w closure s.broker) closed

-- A child whose class the daemon knows, without a reservation, accepts a request of a new test, and
-- the next request that it reads has no time, with which the client cancels the test: the second
-- request ends with BWLErrINFO, the connection has no session, and at the daemon what the classes
-- have in use is as it was before the first, the child holds no reservation, and each second of the
-- schedule holds as many reservations as before. (The conditions on the daemon are those of
-- BWLDCheckTestPolicy and BWLDTestComplete: the classes' limits are kept, the list of slots is well
-- formed, and no time wraps.)
pub process_test_request-cancelled :
    (w : World) (child : Child) (id : ℕ) (x x' : Context) (s s' : Serving) (now : TimeStamp)
    (q : TestRequest) (ts : TestSession) (hsecs clock port : ℕ)
    → Asked x s now q
    → Linked w child id s.broker
    → TestFits child q (fuzz_of now q)
    → Ready w child id q (fuzz_of now q) s.broker hsecs clock port
    → (process_test_request w child x s).0 ≡ err_ok
    → (process_test_request w child x s).1.session ≡ some ts
    → s'.broker ≡ (process_test_request w child x s).1.broker
    → Cancels x' s' ts
    → ((process_test_request w child x' s').0 ≡ err_info)
      × (((process_test_request w child x' s').1.session ≡ none)
          × Restored s.broker (process_test_request w child x' s').1.broker)
process_test_request-cancelled w child id x x' s s' now q ts hsecs clock port a l f y ok held kept
      c =
    let g = process-Agreed w child x s now q a ok in
    let same = some-injective _ _ (sym held ∙ g.session) in
    let ended = process-cancel w child x' s' ts c in
    let broker_is =
      cancelled-broker w child x' s' ts g.info c (ap (λ (t : TestSession). t.closure) same)
      ∙ ap (test_complete w g.info (accept_byte failure)) (kept ∙ g.broker) in
    (
      ap (λ (p : ErrSeverity × Serving). p.0) ended,
      (
        ap (λ (p : ErrSeverity × Serving). p.1.session) ended,
        subst (Restored s.broker) (sym broker_is) (
            test_complete-check_test_policy w child id q (fuzz_of now q) s.broker hsecs clock port
              (accept_byte failure) l f y (omega arith) g.info g.request g.time g.port g.verdict),
      ),
    )
