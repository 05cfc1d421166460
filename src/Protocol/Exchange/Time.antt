-- ===== src/Protocol/Exchange/Time.antt =====
-- The request of the time: BWLControlTimeCheck against a daemon that waits for requests.
use bwctl.Prelude.{ℕ, some, true, List, [], ◌∷◌, ◌≡◌, ◌<◌, refl, ◌⊎◌}
use bwctl.Bytes.{split, sub, put, zeros}
use bwctl.Num64.{u64_mod}
use bwctl.TimeStamp.{TimeStamp, encode_time_stamp, encode_err_estimate, decode_err_estimate}
use bwctl.TimeStamp.Wire.{decode-encode_time_stamp, decode-encode_err_estimate, HasEstimate}
use bwctl.Protocol.{Control, Wire, Severity, Outcome, only_request, send, receive}
use bwctl.Protocol.Request.{
  RequestType, time, request_type, read_request_type, write_time_request, read_time_request,
  write_time_response, read_time_response,
}
use bwctl.Protocol.Peers.{control_time_check, process_time_request, process_request}
use bwctl.Protocol.Exchange.{wire, heard, Says, converse, converse_once, EndsIn}

abbrev time_request : List ℕ
time_request = sub 0 32 (put 0 1 (4 ∷ []) zeros)

abbrev time_answer : TimeStamp → ℕ × ℕ → List ℕ
time_answer t b = sub 0 32 (put 8 2 (b.0 ∷ b.1 ∷ []) (put 0 8 (encode_time_stamp t) zeros))

abbrev pub at_rest : Control → Control
at_rest c = record c { state = only_request }

-- The daemon's side: its other handlers, its clock, and where it starts.
pub record Daemon : Type 0 where
  pub process_test : Control → Wire → Outcome Unit
  pub endpoint_start : ℕ → Severity ⊎ ℕ
  pub now : TimeStamp
  pub control : Control

abbrev pub serve : Daemon → Wire → Outcome RequestType
serve d = process_request d.process_test (some d.now) d.endpoint_start (at_rest d.control)

-- The client with the server's answer.
time_check_answered :
    (t u : TimeStamp) (b : ℕ × ℕ) (c : Control)
    → t.tstamp < u64_mod
    → decode_err_estimate (record u { tstamp = t.tstamp }) b ≡ (t, true)
    → Says (control_time_check u (at_rest c) (wire (time_answer t b))) t only_request time_request
unfolding control_time_check write_time_request read_time_response send receive split
    encode_time_stamp
time_check_answered t u b c h read =
    rw (decode-encode_time_stamp t u h) (rw read ((refl, refl, refl), refl))

-- The server with the client's request.
time_request_answered :
    (d : Daemon) (b : ℕ × ℕ)
    → encode_err_estimate d.now ≡ some b
    → Says (serve d (wire time_request)) time only_request (time_answer d.now b)
unfolding process_request process_time_request read_request_type request_type read_time_request
    write_time_response send receive split
time_request_answered d b sent = rw sent ((refl, refl, refl), refl)

time_check_asks :
    (u : TimeStamp) (c : Control)
    → heard (control_time_check u (at_rest c) (wire [])) ≡ time_request
unfolding control_time_check write_time_request read_time_response send receive split
time_check_asks u c = refl

-- A client that asks for the time and a daemon that waits for requests, where the daemon's clock is
-- below 2^64 and has an error estimate that can be sent: the client has the daemon's time with its
-- estimate, the daemon has processed a request of the time, and both are at rest again in the state
-- Request, with nothing unread.
pub control_time_check-process_request :
    (u : TimeStamp) (c : Control) (d : Daemon)
    → d.now.tstamp < u64_mod
    → HasEstimate d.now
    → EndsIn (converse 1 (control_time_check u (at_rest c)) (serve d)).0 d.now only_request
      × EndsIn (converse 1 (control_time_check u (at_rest c)) (serve d)).1 time only_request
control_time_check-process_request u c d h he =
    let (b, sent, byte, read) =
      decode-encode_err_estimate d.now (record u { tstamp = d.now.tstamp }) he in
    converse_once (control_time_check u (at_rest c)) (serve d) d.now time only_request only_request
      time_request (time_answer d.now b) (time_check_asks u c) (time_request_answered d b sent)
      (time_check_answered d.now u b c h read)
