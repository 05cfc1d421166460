-- ===== src/TestSession/Reading.antt =====
-- bwlib/sapi.c: BWLProcessTestRequest by what _BWLReadTestRequest returns.
use bwctl.Prelude.{◌≡◌, ap, ◌∙◌, Bool, true, Option, if◌then◌else◌}
use bwctl.Protocol.{Outcome}
use bwctl.Protocol.TestRequest.{TestRequest, read_test_request}
use bwctl.Ipc.Dispatch.{World}
use bwctl.TestPolicy.{Child}
use bwctl.TestSession.{
  err_warning, TestSession, Context, Serving, behind_read, request_held, process_test_request,
}

-- What was read goes on to what follows it.
pub read-behind_read :
    (w : World) (child : Child) (x : Context) (s : Serving) (held : Option TestSession)
    (o : Outcome TestRequest)
    → s.control.state.test_request ≡ true
    → s.session ≡ held
    → read_test_request x.tools (request_held held) s.control s.wire ≡ o
    → process_test_request w child x s ≡ behind_read w child x s o
unfolding process_test_request
read-behind_read w child x s held o expected is_held read =
    ap
      (λ (b : Bool).
        if b
        then behind_read w child x s
            (read_test_request x.tools (request_held s.session) s.control s.wire)
        else (err_warning, s))
      expected
    ∙ ap
        (λ (session : Option TestSession).
          behind_read w child x s
            (read_test_request x.tools (request_held session) s.control s.wire))
        is_held
    ∙ ap (behind_read w child x s) read
