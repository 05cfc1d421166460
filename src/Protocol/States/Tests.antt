-- ===== src/Protocol/States/Tests.antt =====
-- Calls on a control connection, on concrete messages.
use bwctl.Prelude.{◌≤◌, ◌+◌, ◌≡◌, refl, true, if◌then◌else◌, []}
use bwctl.Bytes.{zeros, sub, split}
use bwctl.TimeStamp.{encode_err_estimate}
use bwctl.Protocol.{Flags, no_flags, only_request, Control, accept, send, receive, get_accept_type}
use bwctl.Protocol.States.{
  Call, call_read_test_accept, call_write_server_greeting, call_write_server_ok,
  call_write_test_request, in_phase, state_after, initial, called,
}
use bwctl.Protocol.States.Phase.{Reached-in_phase}
use bwctl.Protocol.States.Answers.{of_test, Exchanged, opened, Exchanged-is_due}
use bwctl.Protocol.Exchange.{wire}
use bwctl.Protocol.Start.{read_test_accept}
use bwctl.Protocol.TestRequest.{request_buffer, write_test_request}
use bwctl.Protocol.Greeting.{write_server_greeting, write_server_ok}
use bwctl.Protocol.Parameters.{unparse_traceroute}
use bwctl.Protocol.Tests.{a_session, an_old_daemon, a_tracer, a_request}

-- A connection of a server, in this state.
abbrev in_state : Flags → Control
in_state s = record an_old_daemon { state = s }

-- A server that greets a client and accepts it, and then writes a test request, as a client does.
abbrev greeting_call : Call
greeting_call = call_write_server_greeting 1 []

abbrev accept_call : Call
accept_call = call_write_server_ok accept 0 1 []

abbrev request_call : Call
request_call = call_write_test_request a_tracer a_request

abbrev greeted_state : Flags
greeted_state = state_after greeting_call (in_state no_flags) (wire [])

abbrev open_state : Flags
open_state = state_after accept_call (in_state greeted_state) (wire [])

abbrev asking_state : Flags
asking_state = state_after request_call (in_state open_state) (wire [])

asking_state_is : asking_state ≡ record only_request { test_accept = true }
unfolding write_server_greeting write_server_ok write_test_request request_buffer
    encode_err_estimate unparse_traceroute send
asking_state_is = refl

Reached-in_phase_example : in_phase asking_state ≡ true
Reached-in_phase_example = Reached-in_phase asking_state (
    called request_call (in_state open_state) (wire []) (
      called accept_call (in_state greeted_state) (wire [])
        (called greeting_call (in_state no_flags) (wire []) initial)))

-- The same connection reads the answer to its request.
abbrev answer_call : Call
answer_call = call_read_test_accept a_session

abbrev answered_state : Flags
answered_state = state_after answer_call (in_state asking_state) (wire (sub 0 32 zeros))

asked_once : Exchanged of_test asking_state 1 0
unfolding write_server_greeting write_server_ok write_test_request request_buffer
    encode_err_estimate unparse_traceroute send
asked_once = Exchanged.called request_call (in_state open_state) (wire []) 0 0 (
    Exchanged.called accept_call (in_state greeted_state) (wire []) 0 0
      (Exchanged.called greeting_call (in_state no_flags) (wire []) 0 0 opened))

answered_once : Exchanged of_test answered_state 1 1
unfolding write_server_greeting write_server_ok write_test_request request_buffer
    encode_err_estimate unparse_traceroute send read_test_accept receive split get_accept_type
answered_once =
    Exchanged.called answer_call (in_state asking_state) (wire (sub 0 32 zeros)) 1 0 asked_once

Exchanged-is_due_example : 1 + (if answered_state.test_accept then 1 else 0) ≤ 1
Exchanged-is_due_example = Exchanged-is_due of_test answered_state 1 1 answered_once
