-- ===== src/TestSession/Unanswered.antt =====
-- bwlib/sapi.c: a test request that is read with a warning.
use bwctl.Prelude.{◌≡◌, refl, ap, ◌∙◌, true, Option, none, some, arith}
use mathlib.Core.Path.{subst}
use bwctl.Protocol.{fatal, warning, Session, Control, Wire, failed}
use bwctl.Protocol.Request.{read_request_type}
use bwctl.Protocol.TestRequest.{read_test_request}
use bwctl.Protocol.TestRequest.Reads.{Reads, read_test_request-Reads}
use bwctl.Ipc.Dispatch.{World}
use bwctl.TestPolicy.{Child}
use bwctl.TestSession.{
  ErrSeverity, err_warning, Context, Serving, request_held, kept_session, process_test_request,
}
use bwctl.TestSession.Reading.{read-behind_read}

-- While a test request is being read, no other request is.
refused_type :
    (c : Control) (w : Wire)
    → c.state.test_request ≡ true
    → read_request_type c w ≡ failed fatal c w
unfolding read_request_type
refused_type c w h = ground arith

kept-control :
    (w : World) (s : Serving) (c : Control) (wi : Wire) (tests : Option Session)
    → ((kept_session w s c wi tests).control ≡ c) × ((kept_session w s c wi tests).wire ≡ wi)
kept-control w s c wi none = (refl, refl)
kept-control w s c wi (some session) = (refl, refl)

-- What a warning leaves.
warned :
    (c c' : Control) (w w' : Wire)
    → Reads c w (failed warning c' w')
    → (c'.state ≡ c.state) × (w'.outgoing ≡ w.outgoing)
unfolding Reads
warned c c' w w' h = h.1

-- A test request that is read with BWLErrWARNING, for which the client is to be told of a failure,
-- is not answer_negative: nothing is written, and the connection cannot go on, as every request
-- that follows is refused.
pub process_test_request-unanswered :
    (w : World) (child : Child) (x : Context) (s : Serving) (c : Control) (wi : Wire)
    → s.control.state.test_request ≡ true
    → read_test_request x.tools (request_held s.session) s.control s.wire ≡ failed warning c wi
    → let r = process_test_request w child x s in
      (r.0 ≡ err_warning)
      × ((r.1.wire.outgoing ≡ s.wire.outgoing)
          × ((next : Wire) → read_request_type r.1.control next ≡ failed fatal r.1.control next))
process_test_request-unanswered w child x s c wi expected read =
    let ends = read-behind_read w child x s s.session _ expected refl read in
    let (state, outgoing) = warned s.control c s.wire wi (
      subst (Reads s.control s.wire) read
        (read_test_request-Reads x.tools (request_held s.session) s.control s.wire)) in
    let (control_is, wire_is) = kept-control w s c wi c.tests in
    let control_of = ap (λ (p : ErrSeverity × Serving). p.1.control) ends ∙ control_is in
    (
      ap (λ (p : ErrSeverity × Serving). p.0) ends,
      (
        ap (λ (p : ErrSeverity × Serving). p.1.wire.outgoing) ends
            ∙ ap (λ (v : Wire). v.outgoing) wire_is
            ∙ outgoing,
        λ next. refused_type (process_test_request w child x s).1.control next (
            ap (λ (d : Control). d.state.test_request) control_of
            ∙ ap (λ f. f.test_request) state
            ∙ expected),
      ),
    )
