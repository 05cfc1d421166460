-- ===== src/Protocol/Request.antt =====
-- bwlib/protocol.c: the type of a request (BWLReadRequestType), and the requests and responses of
-- the time.
use bwctl.Prelude.{
  ℕ, Bool, true, false, Option, none, some, List, [], ◌∷◌, ◌==◌, if◌then◌else◌, not, ◌&&◌, ◌||◌,
}
use bwctl.Bytes.{zeros, put, sub, all_zero}
use bwctl.TimeStamp.{
  TimeStamp, encode_time_stamp, decode_time_stamp, encode_err_estimate, decode_err_estimate,
}
use bwctl.Protocol.{
  Flags, no_flags, is_reading, is_pending, fatal, Control, Wire, Outcome, done, failed,
  fail_control, send, receive, drained,
}

-- BWLRequestType
pub data RequestType : Type 0 where
  sock_close test start_session stop_session time : RequestType

-- The switch on the message's first byte: the request, with its bit in the state.
unfoldable pub request_type : ℕ → Flags → Option (RequestType × Flags)
request_type msgtype s =
    if msgtype == 1
    then some (test, record s { test_request = true })
    else if msgtype == 2
    then some (start_session, record s { start_session = true })
    else if msgtype == 3
    then some (stop_session, record s { stop_session = true })
    else if msgtype == 4
    then some (time, record s { time_request = true })
    else none

-- While a test is active only a StopSession is allowed, and only then.
abbrev is_out_of_place : ℕ → Flags → Bool
is_out_of_place msgtype s = (s.test && not (msgtype == 3)) || (not s.test && msgtype == 3)

-- BWLReadRequestType: BWLReqInvalid is the failure. A closed socket is a result, with the state
-- invalid.
unfoldable pub read_request_type : Control → Wire → Outcome RequestType
unfolding receive request_type
read_request_type c w =
    if not c.state.request || is_reading c.state
    then failed fatal c w
    else (elim (receive 0 16 c.msg w) [
      | none ↦ done sock_close (record c { state = no_flags }) (drained w)
      | some (buf, w') ↦
          let c' = record c { msg = buf } in
          if is_out_of_place (buf 0) c.state
          then fail_control c' w'
          else (elim (request_type (buf 0) c.state) [
            | none ↦ fail_control c' w'
            | some (type, s) ↦ done type (record c' { state = s }) w'
          ])
    ])

-- _BWLWriteTimeRequest
unfoldable pub write_time_request : Control → Wire → Outcome Unit
unfolding send
write_time_request c w =
    let buf = put 0 1 (4 ∷ []) zeros in
    let c' = record c { msg = buf } in
    if not c.state.request || is_pending c.state then failed fatal c w else (elim (send 32 buf w) [
      | none ↦ fail_control c' w
      | some w' ↦ done tt (record c' { state = record c.state { time_response = true } }) w'
    ])

-- _BWLReadTimeRequest
unfoldable pub read_time_request : Control → Wire → Outcome Unit
unfolding receive
read_time_request c w =
    if not c.state.time_request then failed fatal c w else (elim (receive 16 16 c.msg w) [
      | none ↦ fail_control c (drained w)
      | some (buf, w') ↦
          let c' = record c { msg = buf } in
          if not (all_zero (sub 16 16 buf))
          then fail_control c' w'
          else done tt
              (record c' { state = record c.state { time_request = false; time_response = true } })
              w'
    ])

abbrev estimate_bytes : ℕ × ℕ → List ℕ
estimate_bytes e = e.0 ∷ e.1 ∷ []

-- _BWLWriteTimeResponse
unfoldable pub write_time_response : TimeStamp → Control → Wire → Outcome Unit
unfolding send
write_time_response t c w =
    let timed = put 0 8 (encode_time_stamp t) zeros in
    if not c.state.time_response then failed fatal c w else (elim (encode_err_estimate t) [
      | none ↦ failed fatal (record c { msg = timed }) w
      | some e ↦
          let buf = put 8 2 (estimate_bytes e) timed in
          let c' = record c { msg = buf } in
          elim (send 32 buf w) [
            | none ↦ fail_control c' w
            | some w' ↦ done tt (record c' { state = record c.state { time_response = false } }) w'
          ]
    ])

-- _BWLReadTimeResponse, into the stamp `t`.
unfoldable pub read_time_response : TimeStamp → Control → Wire → Outcome TimeStamp
unfolding receive
read_time_response t c w =
    if not c.state.time_response then failed fatal c w else (elim (receive 0 32 c.msg w) [
      | none ↦ fail_control c (drained w)
      | some (buf, w') ↦
          let c' = record c { msg = buf } in
          let (t', ok) = decode_err_estimate (decode_time_stamp t (sub 0 8 buf)) (buf 8, buf 9) in
          if not (all_zero (sub 16 16 buf)) || not ok
          then fail_control c' w'
          else done t' (record c' { state = record c.state { time_response = false } }) w'
    ])
