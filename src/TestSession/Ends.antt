-- ===== src/TestSession/Ends.antt =====
-- bwlib/sapi.c: how BWLProcessTestRequest ends, for every request and every answer of the daemon.
use bwctl.Prelude.{
  ◌≡◌, ◌⊎◌, inl, inr, refl, Bool, true, false, Option, none, some, if◌then◌else◌, ◌==◌,
}
use bwctl.TimeStamp.{TimeStamp}
use bwctl.Protocol.{accept, Severity, fatal, warning, Session, Control, Wire, Outcome, done, failed}
use bwctl.Protocol.Start.{write_test_accept}
use bwctl.Protocol.TestRequest.{TestRequest, ToolKind}
use bwctl.Protocol.TestRequest.Reads.{Reads, read_test_request-Reads}
use bwctl.Ipc.Dispatch.{World}
use bwctl.TestPolicy.{Child, TestInfo, Verdict, allowed, denied, broken, check_test_policy}
use bwctl.TestSession.{
  ErrSeverity, err_ok, err_info, err_warning, err_fatal, severity_of, TestSession, session_of,
  Context, Serving, behind_accept, agreed, behind_policy, judge, named, fuzz_of, alloc_session,
  with_tool, with_sid, update_session, at_time, kept_session, behind_read, request_held,
  process_test_request,
}

-- The connection has no session.
abbrev Ended : Serving → Type 0
Ended s = (s.session ≡ none) × (s.control.tests ≡ none)

-- The connection has a session that is reserved: it has a closure, and the messages are about it.
pub record Reserved (s : Serving) (ts : TestSession) (info : TestInfo) : Type 0 where
  pub held : s.session ≡ some ts
  pub closed : ts.closure ≡ some info
  pub tests : s.control.tests ≡ some (session_of ts)

-- The session and what the messages are about are those of before.
abbrev SameSession : Serving → Serving → Type 0
SameSession s s' = (s'.session ≡ s.session) × (s'.control.tests ≡ s.control.tests)

pub Ends : Serving → ErrSeverity × Serving → Type 0
Ends s (err_ok, s') = (ts : TestSession) × (info : TestInfo) × Reserved s' ts info
Ends s (err_info, s') = Ended s'
Ends s (err_warning, s') = Ended s' ⊎ SameSession s s'
Ends s (err_fatal, s') = Ended s' ⊎ SameSession s s'

if-Ends :
    (b : Bool) (s : Serving) (p q : ErrSeverity × Serving)
    → Ends s p
    → Ends s q
    → Ends s (if b then p else q)
if-Ends true s p q hp hq = hp
if-Ends false s p q hp hq = hq

failed-Ends :
    (sev : Severity) (s s' : Serving) → Ended s' ⊎ SameSession s s' → Ends s (severity_of sev, s')
unfolding Ends
failed-Ends fatal s s' h = h
failed-Ends warning s s' h = h

module _ (w : World) (child : Child) (x : Context) (s0 : Serving) where
  info-Ends : (s' : Serving) → Ended s' → Ends s0 (err_info, s')
  unfolding Ends
  info-Ends s' h = h

  warning-Ends : (s' : Serving) → Ended s' → Ends s0 (err_warning, s')
  unfolding Ends
  warning-Ends s' h = inl h

  fatal-Ends : (s' : Serving) → Ended s' → Ends s0 (err_fatal, s')
  unfolding Ends
  fatal-Ends s' h = inl h

  behind_accept-Ends :
      (ts : TestSession) (info : TestInfo) (s : Serving) (o : Outcome Unit)
      → ts.closure ≡ some info
      → Ends s0 (behind_accept w ts s o)
  unfolding Ends
  behind_accept-Ends ts info s (done a c wi) h =
      (ts, info, record { held = refl; closed = h; tests = refl })
  behind_accept-Ends ts info s (failed fatal c wi) h = inl (refl, refl)
  behind_accept-Ends ts info s (failed warning c wi) h = inl (refl, refl)

  behind_policy-Ends :
      (ts : TestSession) (s : Serving) (v : Verdict) → Ends s0 (behind_policy w x ts s v)
  unfolding behind_policy
  behind_policy-Ends ts s (allowed info q time port) =
      let ts' = agreed ts info q time port in
      if-Ends (x.validates q) s0 _ _
        (behind_accept-Ends ts' info s (write_test_accept accept (session_of ts') s.control s.wire)
          refl)
        (warning-Ends _ (refl, refl))
  behind_policy-Ends ts s (denied time) = info-Ends _ (refl, refl)
  behind_policy-Ends ts s broken = fatal-Ends _ (refl, refl)

  judge-Ends :
      (now : TimeStamp) (ts : TestSession) (s : Serving) → Ends s0 (judge w child x now ts s)
  unfolding judge
  judge-Ends now ts s =
      let fuzz = fuzz_of now ts.request in
      let r = check_test_policy w child ts.closure ts.request fuzz s.broker in
      behind_policy-Ends (record ts { fuzz = fuzz }) (record s { broker = r.0 }) r.1

  with_tool-Ends :
      (now : TimeStamp) (q : TestRequest) (s : Serving) (kind : Option ToolKind)
      → Ends s0 (with_tool w child x now q s kind)
  with_tool-Ends now q s none = warning-Ends _ (refl, refl)
  with_tool-Ends now q s (some kind) = judge-Ends now (alloc_session q) s

  with_sid-Ends :
      (now : TimeStamp) (q : TestRequest) (s : Serving) (named_as : Option TestRequest)
      → Ends s0 (with_sid w child x now q s named_as)
  with_sid-Ends now q s none = warning-Ends _ (refl, refl)
  with_sid-Ends now q s (some q') = with_tool-Ends now q' s (x.tools q'.spec.tool_id)

  update_session-Ends :
      (now : TimeStamp) (ts : TestSession) (s : Serving)
      → Ends s0 (update_session w child x now ts s)
  update_session-Ends now ts s =
      if-Ends (ts.request.req_time.tstamp == 0) s0 _ _ (info-Ends _ (refl, refl))
        (judge-Ends now (record ts { reserve_time = 0 }) s)

  at_time-Ends :
      (q : TestRequest) (s : Serving) (old : Option TestSession) (now : Option TimeStamp)
      → Ends s0 (at_time w child x q s old now)
  at_time-Ends q s none none = warning-Ends _ (refl, refl)
  at_time-Ends q s none (some now) = with_sid-Ends now q s (named x q)
  at_time-Ends q s (some old) none = warning-Ends _ (refl, refl)
  at_time-Ends q s (some old) (some now) = update_session-Ends now (record old { request = q }) s

  kept-Ends :
      (c : Control) (wi : Wire) (tests : Option Session)
      → c.tests ≡ tests
      → (c.tests ≡ s0.control.tests) ⊎ (c.tests ≡ none)
      → Ended (kept_session w s0 c wi tests) ⊎ SameSession s0 (kept_session w s0 c wi tests)
  kept-Ends c wi none are h = inl (refl, are)
  kept-Ends c wi (some session) are (inl same) = inr (refl, same)
  kept-Ends c wi (some session) are (inr gone) = absurd (cc)

  behind_read-Ends :
      (o : Outcome TestRequest) → Reads s0.control s0.wire o → Ends s0 (behind_read w child x s0 o)
  unfolding Reads
  behind_read-Ends (done q c wi) h =
      at_time-Ends q (record s0 { control = c; wire = wi }) s0.session x.now
  behind_read-Ends (failed fatal c wi) h = failed-Ends fatal s0 _ (kept-Ends c wi c.tests refl h)
  behind_read-Ends (failed warning c wi) h =
      failed-Ends warning s0 _ (kept-Ends c wi c.tests refl (inl h.0))

  -- However a test request ends: without an error the connection has a session with a closure,
  -- and the messages are about that session; after BWLErrINFO, with which a test is refused or
  -- cancelled, it has none; and after any other error it has none, or its session is as before.
  pub process_test_request-Ends : Ends s0 (process_test_request w child x s0)
  unfolding process_test_request
  process_test_request-Ends =
      if-Ends s0.control.state.test_request s0 _ _
        (behind_read-Ends _
          (read_test_request-Reads x.tools (request_held s0.session) s0.control s0.wire))
        (failed-Ends warning s0 s0 (inr (refl, refl)))
