-- ===== src/Protocol.antt =====
-- bwlib/protocol.c and the control states of bwlib/bwlibP.h: a control connection between two
-- processes, each with its own BWLControl. The connection is in open mode once it is set up, so
-- blocks go as they are (bwlib/io.c enciphers them in the other modes). What a side has read and
-- written is a pair of streams; a read fails where bytes are missing, a write where the socket is
-- down. Interrupts are such failures. Messages are lists of bytes, and log lines are left out.
pub mod Greeting
pub mod Request
pub mod Start
pub mod Stop
pub mod Parameters
pub mod TestRequest
pub mod Peers
pub mod Setup
pub mod States
pub mod Exchange
mod Tests
use bwctl.Prelude.{
  ℕ, ◌+◌, ◌*◌, ◌/◌, ◌%◌, Bool, true, false, Option, none, some, List, [], ◌∷◌, ◌++◌, ◌==◌,
  if◌then◌else◌, not, ◌&&◌, ◌||◌,
}
use bwctl.Bytes.{Buffer, put, sub, split}

-- The bits of a state: _BWLStateSetup, _BWLStateUptime and the others, in their order.
pub record Flags : Type 0 where
  pub setup : Bool
  pub uptime : Bool
  pub request : Bool
  pub test : Bool
  pub test_request : Bool
  pub start_session : Bool
  pub stop_session : Bool
  pub test_accept : Bool
  pub start_ack : Bool
  pub time_request : Bool
  pub time_response : Bool

-- _BWLStateInitial and _BWLStateInvalid
abbrev pub no_flags : Flags
no_flags = record {
  setup = false;
  uptime = false;
  request = false;
  test = false;
  test_request = false;
  start_session = false;
  stop_session = false;
  test_accept = false;
  start_ack = false;
  time_request = false;
  time_response = false;
}

abbrev pub only_setup : Flags
only_setup = record no_flags { setup = true }

abbrev pub only_uptime : Flags
only_uptime = record no_flags { uptime = true }

abbrev pub only_request : Flags
only_request = record no_flags { request = true }

-- _BWLStateIsReading and _BWLStateIsPending
abbrev pub is_reading : Flags → Bool
is_reading s = s.test_request || (s.start_session || (s.stop_session || s.time_request))

abbrev pub is_pending : Flags → Bool
is_pending s = s.test_accept || (s.start_ack || (s.stop_session || s.time_response))

-- The bits above _BWLStateUptime.
abbrev in_session : Flags → Bool
in_session s =
    s.request || (s.test || (s.test_accept || (s.start_ack || (s.time_response || is_reading s))))

-- _BWLStateIsInitial and _BWLStateIsSetup
abbrev pub is_initial : Flags → Bool
is_initial s = not (s.setup || (s.uptime || in_session s))

abbrev pub is_setup : Flags → Bool
is_setup s = s.setup && not (s.uptime || in_session s)

-- BWLAcceptType
pub data AcceptType : Type 0 where
  invalid_accept accept reject failure unsupported : AcceptType

-- `acceptval & 0xff`
abbrev pub accept_byte : AcceptType → ℕ
accept_byte invalid_accept = 0xff
accept_byte accept = 0
accept_byte reject = 1
accept_byte failure = 2
accept_byte unsupported = 4

-- _BWLGetAcceptType
pub get_accept_type : ℕ → AcceptType
get_accept_type val =
    if val == 0
    then accept
    else if val == 1
    then reject
    else if val == 2
    then failure
    else if val == 4
    then unsupported
    else invalid_accept

abbrev pub is_accept : AcceptType → Bool
is_accept accept = true
is_accept _ = false

abbrev pub is_invalid : AcceptType → Bool
is_invalid invalid_accept = true
is_invalid _ = false

-- BWLErrSeverity, as far as the functions here return it.
pub data Severity : Type 0 where
  fatal warning : Severity

-- The fields of a session's record that the messages carry.
pub record Session : Type 0 where
  pub conf_client : Bool
  pub conf_server : Bool
  pub sid : List ℕ
  pub tool_port : ℕ
  pub reserve_time : ℕ

-- BWLControl: the state, the version and mode in force, the message buffer, and the session.
pub record Control : Type 0 where
  pub state : Flags
  pub version : ℕ
  pub mode : ℕ
  pub msg : Buffer
  pub tests : Option Session

-- A side's two streams, and whether writes succeed.
pub record Wire : Type 0 where
  pub incoming : List ℕ
  pub outgoing : List ℕ
  pub up : Bool

-- What a function returns: its results with BWLErrOK, or an error.
pub data Outcome (A : Type 0) : Type 0 where
  done : A → Control → Wire → Outcome A
  failed : Severity → Control → Wire → Outcome A

-- `cntrl->state = _BWLStateInvalid` with BWLErrFATAL: also _BWLFailControlSession.
abbrev pub fail_control : {A : Type 0} → Control → Wire → Outcome A
fail_control c w = failed fatal (record c { state = no_flags }) w

-- I2Writeni of n bytes, and of n bytes in blocks.
unfoldable pub send : ℕ → Buffer → Wire → Option Wire
send n buf w = if w.up then some (record w { outgoing = w.outgoing ++ sub 0 n buf }) else none

-- I2Readni of n bytes to &buf[off].
unfoldable pub receive : ℕ → ℕ → Buffer → Wire → Option (Buffer × Wire)
receive off n buf w = elim (split n w.incoming) [
  | none ↦ none
  | some (bytes, rest) ↦ some (put off n bytes buf, record w { incoming = rest })
]

-- The streams behind a read that was short.
abbrev pub drained : Wire → Wire
drained w = record w { incoming = [] }
