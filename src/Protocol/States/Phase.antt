-- ===== src/Protocol/States/Phase.antt =====
-- The phases of a control connection.
use bwctl.Prelude.{◌≡◌, refl, true, false, arith}
use bwctl.Protocol.{Flags, Control, Wire}
use bwctl.Protocol.TestRequest.{read_test_request}
use bwctl.Protocol.TestRequest.Reads.{read_test_request-Moves}
use bwctl.Protocol.States.{
  Call, call_write_server_greeting, call_read_server_greeting, call_write_client_greeting,
  call_read_client_greeting, call_write_server_ok, call_read_server_ok, call_read_server_uptime,
  call_read_request_type, call_write_time_request, call_read_time_request, call_write_time_response,
  call_read_time_response, call_write_test_request, call_read_test_request, call_write_test_accept,
  call_read_test_accept, call_write_start_session, call_read_start_session, call_write_start_ack,
  call_read_start_ack, call_write_stop_session, call_read_stop_session, in_phase, state_after,
  Reached, initial, called, control_failed, test_ended,
}
use bwctl.Protocol.States.Kept.{
  write_server_greeting_kept, read_server_greeting_kept, write_client_greeting_kept,
  read_client_greeting_kept, write_server_ok_kept, read_server_ok_kept, read_server_uptime_kept,
  read_request_type_kept, write_time_request_kept, read_time_request_kept, write_time_response_kept,
  read_time_response_kept, write_test_request_kept, moved_kept, write_test_accept_kept,
  read_test_accept_kept, write_start_session_kept, read_start_session_kept, write_start_ack_kept,
  read_start_ack_kept, write_stop_session_kept, read_stop_session_kept,
}

-- Every call of protocol.c keeps a connection in its phase.
in_phase-after :
    (k : Call) (c : Control) (w : Wire)
    → in_phase c.state ≡ true
    → in_phase (state_after k c w) ≡ true
in_phase-after (call_write_server_greeting modes challenge) c w h =
    write_server_greeting_kept modes challenge c w h
in_phase-after call_read_server_greeting c w h = read_server_greeting_kept c w h
in_phase-after (call_write_client_greeting userid token iv) c w h =
    write_client_greeting_kept userid token iv c w h
in_phase-after call_read_client_greeting c w h = read_client_greeting_kept c w h
in_phase-after (call_write_server_ok code uptime tools iv) c w h =
    write_server_ok_kept code uptime tools iv c w h
in_phase-after call_read_server_ok c w h = read_server_ok_kept c w h
in_phase-after call_read_server_uptime c w h = read_server_uptime_kept c w h
in_phase-after call_read_request_type c w h = read_request_type_kept c w h
in_phase-after call_write_time_request c w h = write_time_request_kept c w h
in_phase-after call_read_time_request c w h = read_time_request_kept c w h
in_phase-after (call_write_time_response t) c w h = write_time_response_kept t c w h
in_phase-after (call_read_time_response t) c w h = read_time_response_kept t c w h
in_phase-after (call_write_test_request kinds request) c w h =
    write_test_request_kept kinds request c w h
in_phase-after (call_read_test_request kinds existing) c w h =
    moved_kept c.state (read_test_request kinds existing c w)
      (read_test_request-Moves kinds existing c w) h
in_phase-after (call_write_test_accept code session) c w h =
    write_test_accept_kept code session c w h
in_phase-after (call_read_test_accept session) c w h = read_test_accept_kept session c w h
in_phase-after (call_write_start_session port) c w h = write_start_session_kept port c w h
in_phase-after (call_read_start_session port) c w h = read_start_session_kept port c w h
in_phase-after (call_write_start_ack port code) c w h = write_start_ack_kept port code c w h
in_phase-after (call_read_start_ack port) c w h = read_start_ack_kept port c w h
in_phase-after (call_write_stop_session code file) c w h = write_stop_session_kept code file c w h
in_phase-after call_read_stop_session c w h = read_stop_session_kept c w h

test_ended_kept : (s : Flags) → in_phase s ≡ true → in_phase (record s { test = false }) ≡ true
test_ended_kept s h = ground arith

-- Whatever calls of protocol.c are made, the writes and reads of greetings, of requests and of
-- their answers (those of a test request among them), in whatever order and with whatever bytes
-- from the peer, a connection is in one phase: no bit, Setup alone or Uptime alone; or else the bit
-- Request is set with neither of these two, and at most one request is partly read. In particular,
-- no bit of a request, an answer or a test is ever set without the bit Request.
pub Reached-in_phase : (s : Flags) → Reached s → in_phase s ≡ true
Reached-in_phase _ initial = refl
Reached-in_phase _ (called k c w r) = in_phase-after k c w (Reached-in_phase c.state r)
Reached-in_phase _ (control_failed s r) = refl
Reached-in_phase _ (test_ended s r) = test_ended_kept s (Reached-in_phase s r)
