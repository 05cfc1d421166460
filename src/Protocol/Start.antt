-- ===== src/Protocol/Start.antt =====
-- bwlib/protocol.c: the acceptance of a test request, and the start of a session.
use bwctl.Prelude.{
  ℕ, Bool, true, false, Option, none, some, [], ◌∷◌, ◌==◌, if◌then◌else◌, not, ◌&&◌, ◌||◌,
}
use bwctl.Bytes.{Buffer, zeros, put, sub, be16, get16, all_zero}
use bwctl.TimeStamp.{TimeStamp, encode_time_stamp, decode_time_stamp}
use bwctl.Protocol.{
  Flags, is_pending, AcceptType, accept_byte, get_accept_type, is_accept, is_invalid, fatal,
  Session, Control, Wire, Outcome, done, failed, fail_control, send, receive, drained,
}

abbrev stamp : ℕ → TimeStamp
stamp t = record { tstamp = t; sync = 0; multiplier = 0; scale = 0 }

-- _BWLWriteTestAccept
unfoldable pub write_test_accept : AcceptType → Session → Control → Wire → Outcome Unit
unfolding send
write_test_accept acceptval session c w =
    let answer = put 0 1 (accept_byte acceptval ∷ []) zeros in
    let ported = if session.conf_server then put 2 2 (be16 session.tool_port) answer else answer in
    let buf =
      put 20 8 (encode_time_stamp (stamp session.reserve_time)) (put 4 16 session.sid ported) in
    let c' = record c { msg = buf } in
    if not c.state.test_accept then failed fatal c w else (elim (send 32 buf w) [
      | none ↦ fail_control c' w
      | some w' ↦ done tt (record c' { state = record c.state { test_accept = false } }) w'
    ])

-- The fields that _BWLReadTestAccept takes from the answer.
abbrev accepted : Buffer → Session → Session
accepted buf session =
    let time = (decode_time_stamp (stamp 0) (sub 20 8 buf)).tstamp in
    if session.conf_server
    then record session { tool_port = get16 2 buf; sid = sub 4 16 buf; reserve_time = time }
    else record session { reserve_time = time }

-- _BWLReadTestAccept: the answer and the session.
unfoldable pub read_test_accept : Session → Control → Wire → Outcome (AcceptType × Session)
unfolding receive get_accept_type
read_test_accept session c w =
    if not c.state.test_accept then failed fatal c w else (elim (receive 0 32 c.msg w) [
      | none ↦ fail_control c (drained w)
      | some (buf, w') ↦
          let c' = record c { msg = buf } in
          let code = get_accept_type (buf 0) in
          if not (all_zero (sub 28 4 buf)) || is_invalid code
          then fail_control c' w'
          else done (code, accepted buf session)
              (record c' { state = record c.state { test_accept = false } }) w'
    ])

abbrev pub has_tests : Option Session → Bool
has_tests none = false
has_tests (some session) = true

-- cntrl->tests->conf_client and cntrl->tests->conf_server. Where the code reads them there are
-- tests.
abbrev conf_client_of : Option Session → Bool
conf_client_of none = false
conf_client_of (some session) = session.conf_client

abbrev conf_server_of : Option Session → Bool
conf_server_of none = false
conf_server_of (some session) = session.conf_server

-- _BWLWriteStartSession
unfoldable pub write_start_session : ℕ → Control → Wire → Outcome Unit
unfolding send
write_start_session peerport c w =
    let start = put 0 1 (2 ∷ []) zeros in
    let buf = if conf_client_of c.tests then put 2 2 (be16 peerport) start else start in
    let c' = record c { msg = buf } in
    if not c.state.request || (is_pending c.state || not (has_tests c.tests))
    then failed fatal c w
    else (elim (send 32 buf w) [
      | none ↦ fail_control c' w
      | some w' ↦
          done tt (record c' { state = record c.state { start_ack = true; test = true } }) w'
    ])

-- _BWLReadStartSession: *peerport, which the code writes only for a client that is configured.
unfoldable pub read_start_session : ℕ → Control → Wire → Outcome ℕ
unfolding receive
read_start_session peerport c w =
    if not c.state.start_session || not (has_tests c.tests)
    then failed fatal c w
    else (elim (receive 16 16 c.msg w) [
      | none ↦ fail_control c (drained w)
      | some (buf, w') ↦
          let c' = record c { msg = buf } in
          if not (all_zero (sub 16 16 buf)) || not (buf 0 == 2)
          then fail_control c' w'
          else done (if conf_client_of c.tests then get16 2 buf else peerport)
              (record c' {
                state = record c.state { start_session = false; start_ack = true; test = true };
              })
              w'
    ])

-- _BWLWriteStartAck: a denied test is no longer active.
unfoldable pub write_start_ack : ℕ → AcceptType → Control → Wire → Outcome Unit
unfolding send
write_start_ack peerport acceptval c w =
    let answer = put 0 1 (accept_byte acceptval ∷ []) zeros in
    let buf = if conf_server_of c.tests then put 2 2 (be16 peerport) answer else answer in
    let c' = record c { msg = buf } in
    if not c.state.start_ack then failed fatal c w else (elim (send 32 buf w) [
      | none ↦ fail_control c' w
      | some w' ↦
          done tt
            (record c' {
              state = record c.state {
                start_ack = false;
                test = c.state.test && is_accept acceptval;
              };
            })
            w'
    ])

-- The state behind a StartAck that was read: a rejected session is back at requests.
abbrev acked : AcceptType → Flags → Flags
acked code s =
    if s.test && not (is_accept code)
    then record s { start_ack = false; test = false; request = true }
    else record s { start_ack = false }

-- _BWLReadStartAck: the answer and *peerport.
unfoldable pub read_start_ack : ℕ → Control → Wire → Outcome (AcceptType × ℕ)
unfolding receive get_accept_type
read_start_ack peerport c w =
    if not c.state.start_ack then failed fatal c w else (elim (receive 0 32 c.msg w) [
      | none ↦ fail_control c (drained w)
      | some (buf, w') ↦
          let c' = record c { msg = buf } in
          let code = get_accept_type (buf 0) in
          if not (all_zero (sub 16 16 buf)) || is_invalid code
          then fail_control c' w'
          else done (code, if conf_server_of c.tests then get16 2 buf else peerport)
              (record c' { state = acked code c.state }) w'
    ])
