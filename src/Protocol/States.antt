-- ===== src/Protocol/States.antt =====
-- The calls of bwlib/protocol.c on a control connection, the state that each needs, and the states
-- that a connection can be in.
pub mod Kept
pub mod Phase
pub mod Requests
pub mod Answers
mod Tests
use bwctl.Prelude.{
  ℕ, ◌≡◌, refl, ap, Bool, true, false, List, [], ◌∷◌, not, ◌&&◌, ◌||◌, if◌then◌else◌, Option, none,
  some, arith, ◌⊎◌, inl, inr,
}
use bwctl.Bytes.{Buffer, all_zero, sub}
use bwctl.Protocol.{
  Flags, no_flags, is_initial, is_setup, is_pending, only_setup, only_uptime, only_request,
  is_reading, Control, Wire, Outcome, done, failed, AcceptType, Session, receive, send,
}
use bwctl.TimeStamp.{TimeStamp}
use bwctl.Protocol.Greeting.{
  write_server_greeting, read_server_greeting, write_client_greeting, read_client_greeting,
  write_server_ok, read_server_ok, read_server_uptime,
}
use bwctl.Protocol.Request.{
  read_request_type, write_time_request, read_time_request, write_time_response, read_time_response,
  request_type,
}
use bwctl.Protocol.Start.{
  write_test_accept, read_test_accept, has_tests, write_start_session, read_start_session,
  write_start_ack, read_start_ack,
}
use bwctl.Protocol.TestRequest.{TestRequest, ToolKind, write_test_request, read_test_request}
use bwctl.Protocol.Stop.{write_stop_session, read_stop_session}

-- At most one request is being read.
abbrev reads_one : Flags → Bool
reads_one s =
    not (s.test_request && (s.start_session || (s.stop_session || s.time_request)))
    && (not (s.start_session && (s.stop_session || s.time_request))
        && not (s.stop_session && s.time_request))

-- In setup, or waiting for the uptime, with no other bit; or with the bit Request if any other.
abbrev pub in_phase : Flags → Bool
in_phase s =
    if s.request
    then not (s.setup || s.uptime) && reads_one s
    else not (s.setup && s.uptime)
      && not (s.test || (s.test_accept || (s.start_ack || (s.time_response || is_reading s))))

-- The calls of protocol.c, with what is passed to them.
pub data Call : Type 0 where
  call_write_server_greeting : ℕ → List ℕ → Call
  call_read_server_greeting : Call
  call_write_client_greeting : List ℕ → List ℕ → List ℕ → Call
  call_read_client_greeting : Call
  call_write_server_ok : AcceptType → ℕ → ℕ → List ℕ → Call
  call_read_server_ok : Call
  call_read_server_uptime : Call
  call_read_request_type : Call
  call_write_time_request : Call
  call_read_time_request : Call
  call_write_time_response : TimeStamp → Call
  call_read_time_response : TimeStamp → Call
  call_write_test_request : (ℕ → Option ToolKind) → TestRequest → Call
  call_read_test_request : (ℕ → Option ToolKind) → Option TestRequest → Call
  call_write_test_accept : AcceptType → Session → Call
  call_read_test_accept : Session → Call
  call_write_start_session : ℕ → Call
  call_read_start_session : ℕ → Call
  call_write_start_ack : ℕ → AcceptType → Call
  call_read_start_ack : ℕ → Call
  call_write_stop_session : AcceptType → Option (List ℕ) → Call
  call_read_stop_session : Call

-- The connection and the streams behind a call, whatever its result.
abbrev sides_of : {A : Type 0} → Outcome A → Control × Wire
sides_of (done a c w) = (c, w)
sides_of (failed sev c w) = (c, w)

abbrev pub state_of : {A : Type 0} → Outcome A → Flags
state_of o = (sides_of o).0.state

abbrev pub after : Call → Control → Wire → Control × Wire
after (call_write_server_greeting modes challenge) c w =
    sides_of (write_server_greeting modes challenge c w)
after call_read_server_greeting c w = sides_of (read_server_greeting c w)
after (call_write_client_greeting userid token iv) c w =
    sides_of (write_client_greeting userid token iv c w)
after call_read_client_greeting c w = sides_of (read_client_greeting c w)
after (call_write_server_ok code uptime tools iv) c w =
    sides_of (write_server_ok code uptime tools iv c w)
after call_read_server_ok c w = sides_of (read_server_ok c w)
after call_read_server_uptime c w = sides_of (read_server_uptime c w)
after call_read_request_type c w = sides_of (read_request_type c w)
after call_write_time_request c w = sides_of (write_time_request c w)
after call_read_time_request c w = sides_of (read_time_request c w)
after (call_write_time_response t) c w = sides_of (write_time_response t c w)
after (call_read_time_response t) c w = sides_of (read_time_response t c w)
after (call_write_test_request kinds request) c w = sides_of (write_test_request kinds request c w)
after (call_read_test_request kinds existing) c w = sides_of (read_test_request kinds existing c w)
after (call_write_test_accept code session) c w = sides_of (write_test_accept code session c w)
after (call_read_test_accept session) c w = sides_of (read_test_accept session c w)
after (call_write_start_session port) c w = sides_of (write_start_session port c w)
after (call_read_start_session port) c w = sides_of (read_start_session port c w)
after (call_write_start_ack port code) c w = sides_of (write_start_ack port code c w)
after (call_read_start_ack port) c w = sides_of (read_start_ack port c w)
after (call_write_stop_session code file) c w = sides_of (write_stop_session code file c w)
after call_read_stop_session c w = sides_of (read_stop_session c w)

abbrev pub state_after : Call → Control → Wire → Flags
state_after k c w = (after k c w).0.state

-- The states of a connection that is used in any order of calls, with any bytes from the peer and
-- writes that succeed or not. Between the calls the caller may change all but the state: it fails
-- the connection (_BWLFailControlSession) or ends the test (BWLStopSession).
pub data Reached : Flags → Type 0 where
  initial : Reached no_flags
  called : (k : Call) (c : Control) (w : Wire) → Reached c.state → Reached (state_after k c w)
  control_failed : (s : Flags) → Reached s → Reached no_flags
  test_ended : (s : Flags) → Reached s → Reached (record s { test = false })
