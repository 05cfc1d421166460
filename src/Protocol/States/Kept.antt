-- ===== src/Protocol/States/Kept.antt =====
-- Each call of protocol.c on its own: it keeps a connection in its phase.
use bwctl.Prelude.{ℕ, ◌≡◌, refl, inl, inr, true, List, Option, arith}
use bwctl.TimeStamp.{TimeStamp}
use bwctl.Protocol.{Flags, AcceptType, Session, Control, Wire, Outcome, done, failed, receive, send}
use bwctl.Protocol.Greeting.{
  write_server_greeting, read_server_greeting, write_client_greeting, read_client_greeting,
  write_server_ok, read_server_ok, read_server_uptime,
}
use bwctl.Protocol.Request.{
  read_request_type, write_time_request, read_time_request, write_time_response, read_time_response,
  request_type,
}
use bwctl.Protocol.Start.{
  write_test_accept, read_test_accept, write_start_session, read_start_session, write_start_ack,
  read_start_ack,
}
use bwctl.Protocol.TestRequest.{TestRequest, ToolKind, write_test_request}
use bwctl.Protocol.TestRequest.Reads.{Moves}
use bwctl.Protocol.Stop.{write_stop_session, read_stop_session}
use bwctl.Protocol.States.{in_phase, state_of}

pub write_server_greeting_kept :
    (modes : ℕ) (challenge : List ℕ) (c : Control) (w : Wire)
    → in_phase c.state ≡ true
    → in_phase (state_of (write_server_greeting modes challenge c w)) ≡ true
unfolding write_server_greeting send
write_server_greeting_kept modes challenge c w h = ground arith

pub read_server_greeting_kept :
    (c : Control) (w : Wire)
    → in_phase c.state ≡ true
    → in_phase (state_of (read_server_greeting c w)) ≡ true
unfolding read_server_greeting receive
read_server_greeting_kept c w h = ground arith

pub write_client_greeting_kept :
    (userid : List ℕ) (token : List ℕ) (iv : List ℕ) (c : Control) (w : Wire)
    → in_phase c.state ≡ true
    → in_phase (state_of (write_client_greeting userid token iv c w)) ≡ true
unfolding write_client_greeting send
write_client_greeting_kept userid token iv c w h = ground arith

pub read_client_greeting_kept :
    (c : Control) (w : Wire)
    → in_phase c.state ≡ true
    → in_phase (state_of (read_client_greeting c w)) ≡ true
unfolding read_client_greeting receive
read_client_greeting_kept c w h = ground arith

pub write_server_ok_kept :
    (code : AcceptType) (uptime : ℕ) (tools : ℕ) (iv : List ℕ) (c : Control) (w : Wire)
    → in_phase c.state ≡ true
    → in_phase (state_of (write_server_ok code uptime tools iv c w)) ≡ true
unfolding write_server_ok send
write_server_ok_kept code uptime tools iv c w h = ground arith

pub read_server_ok_kept :
    (c : Control) (w : Wire)
    → in_phase c.state ≡ true
    → in_phase (state_of (read_server_ok c w)) ≡ true
unfolding read_server_ok receive
read_server_ok_kept c w h = ground arith

pub read_server_uptime_kept :
    (c : Control) (w : Wire)
    → in_phase c.state ≡ true
    → in_phase (state_of (read_server_uptime c w)) ≡ true
unfolding read_server_uptime receive
read_server_uptime_kept c w h = ground arith

pub read_request_type_kept :
    (c : Control) (w : Wire)
    → in_phase c.state ≡ true
    → in_phase (state_of (read_request_type c w)) ≡ true
unfolding read_request_type request_type receive
read_request_type_kept c w h = ground arith

pub write_time_request_kept :
    (c : Control) (w : Wire)
    → in_phase c.state ≡ true
    → in_phase (state_of (write_time_request c w)) ≡ true
unfolding write_time_request send
write_time_request_kept c w h = ground arith

pub read_time_request_kept :
    (c : Control) (w : Wire)
    → in_phase c.state ≡ true
    → in_phase (state_of (read_time_request c w)) ≡ true
unfolding read_time_request receive
read_time_request_kept c w h = ground arith

pub write_time_response_kept :
    (t : TimeStamp) (c : Control) (w : Wire)
    → in_phase c.state ≡ true
    → in_phase (state_of (write_time_response t c w)) ≡ true
unfolding write_time_response send
write_time_response_kept t c w h = ground arith

pub read_time_response_kept :
    (t : TimeStamp) (c : Control) (w : Wire)
    → in_phase c.state ≡ true
    → in_phase (state_of (read_time_response t c w)) ≡ true
unfolding read_time_response receive
read_time_response_kept t c w h = ground arith

pub write_test_request_kept :
    (kinds : ℕ → Option ToolKind) (request : TestRequest) (c : Control) (w : Wire)
    → in_phase c.state ≡ true
    → in_phase (state_of (write_test_request kinds request c w)) ≡ true
unfolding write_test_request send
write_test_request_kept kinds request c w h = ground arith

-- What _BWLReadTestRequest does to the state keeps the phase.
pub moved_kept :
    (s : Flags) (o : Outcome TestRequest)
    → Moves s o
    → in_phase s ≡ true
    → in_phase (state_of o) ≡ true
unfolding Moves
moved_kept s (done q c w) m h = ground (arith, m.0, m.1)
moved_kept s (failed sev c w) (inl same) h = rw same h
moved_kept s (failed sev c w) (inr invalid) h = rw invalid refl

pub write_test_accept_kept :
    (code : AcceptType) (session : Session) (c : Control) (w : Wire)
    → in_phase c.state ≡ true
    → in_phase (state_of (write_test_accept code session c w)) ≡ true
unfolding write_test_accept send
write_test_accept_kept code session c w h = ground arith

pub read_test_accept_kept :
    (session : Session) (c : Control) (w : Wire)
    → in_phase c.state ≡ true
    → in_phase (state_of (read_test_accept session c w)) ≡ true
unfolding read_test_accept receive
read_test_accept_kept session c w h = ground arith

pub write_start_session_kept :
    (port : ℕ) (c : Control) (w : Wire)
    → in_phase c.state ≡ true
    → in_phase (state_of (write_start_session port c w)) ≡ true
unfolding write_start_session send
write_start_session_kept port c w h = ground arith

pub read_start_session_kept :
    (port : ℕ) (c : Control) (w : Wire)
    → in_phase c.state ≡ true
    → in_phase (state_of (read_start_session port c w)) ≡ true
unfolding read_start_session receive
read_start_session_kept port c w h = ground arith

pub write_start_ack_kept :
    (port : ℕ) (code : AcceptType) (c : Control) (w : Wire)
    → in_phase c.state ≡ true
    → in_phase (state_of (write_start_ack port code c w)) ≡ true
unfolding write_start_ack send
write_start_ack_kept port code c w h = ground arith

pub read_start_ack_kept :
    (port : ℕ) (c : Control) (w : Wire)
    → in_phase c.state ≡ true
    → in_phase (state_of (read_start_ack port c w)) ≡ true
unfolding read_start_ack receive
read_start_ack_kept port c w h = ground arith

pub write_stop_session_kept :
    (code : AcceptType) (file : Option (List ℕ)) (c : Control) (w : Wire)
    → in_phase c.state ≡ true
    → in_phase (state_of (write_stop_session code file c w)) ≡ true
unfolding write_stop_session send
write_stop_session_kept code file c w h = ground arith

pub read_stop_session_kept :
    (c : Control) (w : Wire)
    → in_phase c.state ≡ true
    → in_phase (state_of (read_stop_session c w)) ≡ true
unfolding read_stop_session receive
read_stop_session_kept c w h = ground arith
