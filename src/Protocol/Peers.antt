-- ===== src/Protocol/Peers.antt =====
-- bwlib/capi.c and bwlib/sapi.c: what a client and a server do with the messages of a session. The
-- clock, the endpoints and the processing of results are parameters, by what they return. A
-- function that fails leaves the rest of its peer's stream aside.
use bwctl.Prelude.{
  ℕ, Bool, true, false, Option, none, some, List, [], if◌then◌else◌, not, ◌&&◌, ◌⊎◌, inl, inr,
}
use bwctl.TimeStamp.{TimeStamp}
use bwctl.Protocol.{
  no_flags, AcceptType, accept, failure, is_accept, Severity, fatal, warning, Control, Wire,
  Outcome, done, failed, fail_control,
}
use bwctl.Protocol.Request.{
  RequestType, test, start_session, stop_session, time, read_request_type, write_time_request,
  read_time_request, write_time_response, read_time_response,
}
use bwctl.Protocol.Start.{
  write_start_session, read_start_session, write_start_ack, read_start_ack, has_tests,
}
use bwctl.Protocol.Stop.{write_stop_session, read_stop_session}

-- `if((rc = f(cntrl)) < BWLErrOK) return _BWLFailControlSession(cntrl,rc)`, and what follows it.
abbrev or_fail : {A B : Type 0} → Outcome A → (A → Control → Wire → Outcome B) → Outcome B
or_fail (done a c w) k = k a c w
or_fail (failed sev c w) k = failed sev (record c { state = no_flags }) w

-- The same with `return _BWLFailControlSession(cntrl,BWLErrFATAL)`.
abbrev or_fatal : {A B : Type 0} → Outcome A → (A → Control → Wire → Outcome B) → Outcome B
or_fatal (done a c w) k = k a c w
or_fatal (failed sev c w) k = fail_control c w

-- What follows unless a function has failed.
abbrev pub and_then : {A B : Type 0} → Outcome A → (A → Control → Wire → Outcome B) → Outcome B
and_then (done a c w) k = k a c w
and_then (failed sev c w) k = failed sev c w

-- BWLControlTimeCheck, with the stamp on the stack that the response is read into.
unfoldable pub control_time_check : TimeStamp → Control → Wire → Outcome TimeStamp
unfolding write_time_request read_time_response
control_time_check t c w =
    or_fatal (write_time_request c w)
      λ _ c' w'. or_fatal (read_time_response t c' w') λ t' c'' w''. done t' c'' w''

-- BWLProcessTimeRequest, with what BWLGetTimeStamp returns.
unfoldable pub process_time_request : Option TimeStamp → Control → Wire → Outcome Unit
unfolding read_time_request write_time_response
process_time_request now c w = or_fail (read_time_request c w) λ _ c' w'. elim now [
  | none ↦ fail_control c' w'
  | some t ↦ or_fail (write_time_response t c' w') λ _ c'' w''. done tt c'' w''
]

-- BWLStartSession: the port that is sent, and the server's.
unfoldable pub start_session_with : ℕ → Control → Wire → Outcome ℕ
unfolding write_start_session read_start_ack
start_session_with dataport c w = or_fail (write_start_session dataport c w) λ _ c' w'.
    or_fatal (read_start_ack dataport c' w')
      λ answer c'' w''. if is_accept answer.0 then done answer.1 c'' w'' else fail_control c'' w''

-- BWLProcessStartSession. _BWLEndpointStart takes the client's port and returns its own, or fails.
unfoldable pub process_start_session : (ℕ → Severity ⊎ ℕ) → Control → Wire → Outcome Unit
unfolding read_start_session write_start_ack
process_start_session endpoint_start c w = or_fail (read_start_session 0 c w) λ peerport c' w'.
    elim (endpoint_start peerport) [
      | inl err ↦ deny err (write_start_ack 0 failure c' w')
      | inr port ↦ or_fail (write_start_ack port accept c' w') λ _ c'' w''. done tt c'' w''
    ]
  where
    deny : Severity → Outcome Unit → Outcome Unit
    deny err (done a c w) = failed err (record c { state = no_flags }) w
    deny err (failed sev c w) = failed err (record c { state = no_flags }) w

-- What BWLStopSession leaves: the severity that it returns, *acceptval, what it wrote to *intr, and
-- the results that it wrote to remotefp.
pub record StopResult : Type 0 where
  pub severity : Option Severity
  pub acceptval : AcceptType
  pub intr : Option AcceptType
  pub results : List ℕ

-- MIN of two severities, where `none` is BWLErrOK.
abbrev pub worse : Option Severity → Option Severity → Option Severity
worse (some fatal) b = some fatal
worse (some warning) (some fatal) = some fatal
worse (some warning) _ = some warning
worse none b = b

abbrev pub is_fatal : Option Severity → Bool
is_fatal (some fatal) = true
is_fatal _ = false

-- What the endpoint, the processing of results and the freeing of the session return.
pub record Hooks : Type 0 where
  pub endpoint_stop : Option Severity
  pub process_results : Option Severity
  pub session_free : Option Severity

-- The test's answer when the local endpoint has failed, and the file that is then sent.
abbrev pub local_answer : Hooks → AcceptType → AcceptType
local_answer hooks acceptval =
    if is_accept acceptval && is_fatal hooks.endpoint_stop then failure else acceptval

abbrev pub local_file : Hooks → AcceptType → Option (List ℕ) → Option (List ℕ)
local_file hooks acceptval localfp =
    if is_accept acceptval && is_fatal hooks.endpoint_stop then none else localfp

-- BWLStopSession. The call of _BWLReadStopSession passes `acceptval` where the function takes
-- `retn_on_intr`, and `intr` where it takes `acceptval`: the peer's answer is written to *intr.
unfoldable pub stop_session_with :
    AcceptType → Option (List ℕ) → Hooks → Control → Wire → Outcome StopResult
stop_session_with acceptval localfp hooks c w =
    let aval = local_answer hooks acceptval in
    if not (has_tests c.tests)
    then done (record { severity = none; acceptval = acceptval; intr = none; results = [] }) c w
    else or_fatal (write_stop_session aval (local_file hooks acceptval localfp) c w) λ _ c' w'.
      or_fatal (read_request_type c' w') λ type c'' w''. elim type [
        | stop_session ↦ or_fail (read_stop_session c'' w'') λ answer c3 w3.
            done
              (record {
                severity =
                    worse hooks.session_free (worse hooks.process_results hooks.endpoint_stop);
                acceptval = aval;
                intr = some answer.0;
                results = answer.1;
              })
              (record c3 { tests = none; state = record c3.state { test = false } }) w3
        | _ ↦ fail_control c'' w''
      ]

-- BWLEndSession: *acceptval, the results, and what the freeing of the session returns.
unfoldable pub end_session :
    AcceptType → Hooks → Control → Wire → Outcome (AcceptType × List ℕ × Option Severity)
end_session acceptval hooks c w = or_fail (write_stop_session acceptval none c w) λ _ c' w'.
    or_fatal (read_request_type c' w') λ type c'' w''. elim type [
      | stop_session ↦ or_fail (read_stop_session c'' w'') λ answer c3 w3.
          done (answer.0, answer.1, hooks.session_free) (record c3 { tests = none }) w3
      | _ ↦ fail_control c'' w''
    ]

-- A request in the loop of the daemon's child, with BWLProcessTestRequest as a parameter: the
-- request that was processed.
unfoldable pub process_request :
    (Control → Wire → Outcome Unit)
    → Option TimeStamp
    → (ℕ → Severity ⊎ ℕ)
    → Control
    → Wire
    → Outcome RequestType
unfolding read_request_type process_time_request process_start_session
process_request process_test now endpoint_start c w = and_then (read_request_type c w) λ type c' w'.
    elim type [
      | test ↦ and_then (process_test c' w') λ _ c'' w''. done test c'' w''
      | time ↦ and_then (process_time_request now c' w') λ _ c'' w''. done time c'' w''
      | start_session ↦
          and_then (process_start_session endpoint_start c' w')
            λ _ c'' w''. done start_session c'' w''
      | _ ↦ failed fatal c' w'
    ]
