-- ===== src/Protocol/States/Requests.antt =====
-- What BWLReadRequestType lets through.
use bwctl.Prelude.{◌≡◌, Bool, true, false, not, ◌&&◌, if◌then◌else◌, arith}
use bwctl.Protocol.{
  Flags, no_flags, is_reading, fatal, Control, Wire, Outcome, done, failed, receive,
}
use bwctl.Protocol.Request.{
  RequestType, sock_close, test, start_session, stop_session, time, request_type, read_request_type,
}

-- The state that the call is made for.
abbrev waits_for_request : Flags → Bool
waits_for_request s = s.request && not (is_reading s)

-- What a result says of the states before and after.
abbrev pub Lets : Flags → Outcome RequestType → Type 0
Lets s (done sock_close c w) = (waits_for_request s ≡ true) × (c.state ≡ no_flags)
Lets s (done test c w) =
    (waits_for_request s ≡ true) × ((s.test ≡ false) × (c.state ≡ record s { test_request = true }))
Lets s (done start_session c w) =
    (waits_for_request s ≡ true)
    × ((s.test ≡ false) × (c.state ≡ record s { start_session = true }))
Lets s (done stop_session c w) =
    (waits_for_request s ≡ true) × ((s.test ≡ true) × (c.state ≡ record s { stop_session = true }))
Lets s (done time c w) =
    (waits_for_request s ≡ true) × ((s.test ≡ false) × (c.state ≡ record s { time_request = true }))
Lets s (failed sev c w) = (sev ≡ fatal) × (c.state ≡ (if waits_for_request s then no_flags else s))

-- A request is let through only where the connection waits for one, with the bit Request and no
-- request that is partly read: a StopSession only while a test is active, and any other request
-- only while none is. The state gains the request's own bit and no other. A closed socket leaves an
-- invalid connection, with no bit set, and so does every message that is not let through; where the
-- connection does not wait for a request, the call fails and leaves the state alone.
pub read_request_type_lem : (c : Control) (w : Wire) → Lets c.state (read_request_type c w)
unfolding read_request_type request_type receive
read_request_type_lem c w = ground arith
