-- ===== src/Protocol/States/Answers.antt =====
-- Requests and their answers in any order of calls: a TestAccept answers a test request, a StartAck
-- a StartSession, and a time response a time request.
use bwctl.Prelude.{ℕ, ◌+◌, ◌≤◌, ◌≡◌, Bool, false, inl, inr, refl, if◌then◌else◌, arith}
use bwctl.Protocol.{Flags, no_flags, Control, Wire, Outcome, done, failed, receive, send}
use bwctl.Protocol.Greeting.{
  write_server_greeting, read_server_greeting, write_client_greeting, read_client_greeting,
  write_server_ok, read_server_ok, read_server_uptime,
}
use bwctl.Protocol.Request.{
  read_request_type, write_time_request, read_time_request, write_time_response, read_time_response,
  request_type,
}
use bwctl.Protocol.Start.{
  write_test_accept, read_test_accept, write_start_session, read_start_session, write_start_ack,
  read_start_ack,
}
use bwctl.Protocol.TestRequest.{TestRequest, write_test_request, read_test_request}
use bwctl.Protocol.TestRequest.Reads.{Moves, read_test_request-Moves}
use bwctl.Protocol.Stop.{write_stop_session, read_stop_session}
use bwctl.Protocol.States.{
  Call, call_write_server_greeting, call_read_server_greeting, call_write_client_greeting,
  call_read_client_greeting, call_write_server_ok, call_read_server_ok, call_read_server_uptime,
  call_read_request_type, call_write_time_request, call_read_time_request, call_write_time_response,
  call_read_time_response, call_write_test_request, call_read_test_request, call_write_test_accept,
  call_read_test_accept, call_write_start_session, call_read_start_session, call_write_start_ack,
  call_read_start_ack, call_write_stop_session, call_read_stop_session, state_after, state_of,
}

-- 1 for a call that succeeds.
abbrev succeeds : {A : Type 0} → Outcome A → ℕ
succeeds (done a c w) = 1
succeeds (failed sev c w) = 0

abbrev bit : Bool → ℕ
bit b = if b then 1 else 0

-- A request, and what answers it.
pub data Kind : Type 0 where
  of_test of_start of_time : Kind

-- Whether an answer is due.
abbrev pub is_due : Kind → Flags → Bool
is_due of_test s = s.test_accept
is_due of_start s = s.start_ack
is_due of_time s = s.time_response

-- The requests, and the answers, that a call has written or read.
abbrev pub requests : Kind → Call → Control → Wire → ℕ
requests of_test (call_write_test_request kinds request) c w =
    succeeds (write_test_request kinds request c w)
requests of_test (call_read_test_request kinds existing) c w =
    succeeds (read_test_request kinds existing c w)
requests of_start (call_write_start_session port) c w = succeeds (write_start_session port c w)
requests of_start (call_read_start_session port) c w = succeeds (read_start_session port c w)
requests of_time call_write_time_request c w = succeeds (write_time_request c w)
requests of_time call_read_time_request c w = succeeds (read_time_request c w)
requests _ _ c w = 0

abbrev pub answers : Kind → Call → Control → Wire → ℕ
answers of_test (call_write_test_accept code session) c w =
    succeeds (write_test_accept code session c w)
answers of_test (call_read_test_accept session) c w = succeeds (read_test_accept session c w)
answers of_start (call_write_start_ack port code) c w = succeeds (write_start_ack port code c w)
answers of_start (call_read_start_ack port) c w = succeeds (read_start_ack port c w)
answers of_time (call_write_time_response t) c w = succeeds (write_time_response t c w)
answers of_time (call_read_time_response t) c w = succeeds (read_time_response t c w)
answers _ _ c w = 0

-- A test request that is read.
abbrev of_request : Kind → ℕ → ℕ
of_request of_test n = n
of_request _ n = 0

moved_due :
    (kind : Kind) (s : Flags) (o : Outcome TestRequest)
    → Moves s o
    → 0 + bit (is_due kind (state_of o)) ≤ of_request kind (succeeds o) + bit (is_due kind s)
unfolding Moves
moved_due kind s (done q c w) m = rw m.1 (ground arith)
moved_due kind s (failed sev c w) (inl same) = rw same (omega arith)
moved_due kind s (failed sev c w) (inr invalid) = rw invalid (ground arith)

-- A call answers only what is due, and what is due behind it was due or was requested by it.
call_due :
    (kind : Kind) (k : Call) (c : Control) (w : Wire)
    → answers kind k c w + bit (is_due kind (state_after k c w))
      ≤ requests kind k c w + bit (is_due kind c.state)
unfolding write_server_greeting read_server_greeting write_client_greeting read_client_greeting
    write_server_ok read_server_ok read_server_uptime read_request_type request_type
    write_time_request read_time_request write_time_response read_time_response write_test_request
    write_test_accept read_test_accept write_start_session read_start_session write_start_ack
    read_start_ack write_stop_session read_stop_session send receive
call_due kind (call_write_server_greeting modes challenge) c w = ground arith
call_due kind call_read_server_greeting c w = ground arith
call_due kind (call_write_client_greeting userid token iv) c w = ground arith
call_due kind call_read_client_greeting c w = ground arith
call_due kind (call_write_server_ok code uptime tools iv) c w = ground arith
call_due kind call_read_server_ok c w = ground arith
call_due kind call_read_server_uptime c w = ground arith
call_due kind call_read_request_type c w = ground arith
call_due kind call_write_time_request c w = ground arith
call_due kind call_read_time_request c w = ground arith
call_due kind (call_write_time_response t) c w = ground arith
call_due kind (call_read_time_response t) c w = ground arith
call_due kind (call_write_test_request kinds request) c w = ground arith
call_due of_test (call_read_test_request kinds existing) c w =
    moved_due of_test c.state (read_test_request kinds existing c w)
      (read_test_request-Moves kinds existing c w)
call_due of_start (call_read_test_request kinds existing) c w =
    moved_due of_start c.state (read_test_request kinds existing c w)
      (read_test_request-Moves kinds existing c w)
call_due of_time (call_read_test_request kinds existing) c w =
    moved_due of_time c.state (read_test_request kinds existing c w)
      (read_test_request-Moves kinds existing c w)
call_due kind (call_write_test_accept code session) c w = ground arith
call_due kind (call_read_test_accept session) c w = ground arith
call_due kind (call_write_start_session port) c w = ground arith
call_due kind (call_read_start_session port) c w = ground arith
call_due kind (call_write_start_ack port code) c w = ground arith
call_due kind (call_read_start_ack port) c w = ground arith
call_due kind (call_write_stop_session code file) c w = ground arith
call_due kind call_read_stop_session c w = ground arith

-- A history of a connection, with the requests and the answers of a kind that were written or read
-- so far. Between the calls the caller fails the connection or ends the test.
pub data Exchanged (kind : Kind) : Flags → ℕ → ℕ → Type 0 where
  opened : Exchanged kind no_flags 0 0
  called :
      (k : Call) (c : Control) (w : Wire) (n m : ℕ)
      → Exchanged kind c.state n m
      → Exchanged kind (state_after k c w) (requests kind k c w + n) (answers kind k c w + m)
  control_failed : (s : Flags) (n m : ℕ) → Exchanged kind s n m → Exchanged kind no_flags n m
  test_ended :
      (s : Flags) (n m : ℕ) → Exchanged kind s n m → Exchanged kind (record s { test = false }) n m

not_later : (kind : Kind) (s : Flags) → is_due kind (record s { test = false }) ≡ is_due kind s
not_later of_test s = refl
not_later of_start s = refl
not_later of_time s = refl

none_due : (kind : Kind) → is_due kind no_flags ≡ false
none_due of_test = refl
none_due of_start = refl
none_due of_time = refl

-- Of test requests and TestAccepts, of StartSessions and StartAcks, and of time requests and time
-- responses: whatever calls are made on a connection, in whatever order and with whatever bytes
-- from the peer, the answers that calls have written or read with success are never more than the
-- requests that calls have written or read with success, and while an answer is due they are fewer.
-- Between the calls the caller may fail the connection or end the test.
pub Exchanged-is_due :
    (kind : Kind) (s : Flags) (n m : ℕ)
    → Exchanged kind s n m
    → m + (if is_due kind s then 1 else 0) ≤ n
Exchanged-is_due kind _ _ _ opened = rw (none_due kind) (omega arith)
Exchanged-is_due kind _ _ _ (called k c w n m h) =
    omega (arith, call_due kind k c w, Exchanged-is_due kind c.state n m h)
Exchanged-is_due kind _ _ _ (control_failed s n m h) =
    rw (none_due kind) (omega (arith, Exchanged-is_due kind s n m h))
Exchanged-is_due kind _ _ _ (test_ended s n m h) =
    rw (not_later kind s) (Exchanged-is_due kind s n m h)
