-- ===== src/Protocol/Exchange/Accept.antt =====
-- The answer to a test request: _BWLWriteTestAccept of the daemon, _BWLReadTestAccept of the
-- client.
use bwctl.Prelude.{ℕ, ◌<◌, ◌≡◌, refl, Bool, true, false, [], length, if◌then◌else◌}
use bwctl.Bytes.{split}
use bwctl.Bytes.Stream.{sub-nth}
use bwctl.Num64.{u64_mod}
use bwctl.TimeStamp.{TimeStamp, encode_time_stamp}
use bwctl.TimeStamp.Wire.{decode-encode_time_stamp}
use bwctl.Protocol.{
  Flags, only_request, Control, Session, Outcome, AcceptType, is_invalid, send, receive,
}
use bwctl.Protocol.Start.{write_test_accept, read_test_accept}
use bwctl.Protocol.Stop.Message.{accept_back}
use bwctl.Protocol.Exchange.{wire, heard, EndsIn}
use bwctl.Protocol.Exchange.Start.{port_back}

-- The state on both sides while an answer is outstanding.
abbrev pub awaiting : Flags
awaiting = record only_request { test_accept = true }

abbrev pub waits : Control → Control
waits c = record c { state = awaiting }

abbrev stamp : ℕ → TimeStamp
stamp t = record { tstamp = t; sync = 0; multiplier = 0; scale = 0 }

-- What the daemon answers with.
abbrev pub answers_with : AcceptType → Session → Control → Outcome Unit
answers_with code s c = write_test_accept code s (waits c) (wire [])

-- The session that the client has then: of a daemon that is configured, its identifier and port
-- too.
abbrev session_from : Bool → Session → Session → Session
session_from server s t =
    if server
    then record t {
      conf_server = true;
      tool_port = s.tool_port;
      sid = s.sid;
      reserve_time = s.reserve_time;
    }
    else record t { conf_server = false; reserve_time = s.reserve_time }

daemon_answered :
    (code : AcceptType) (s : Session) (c : Control) → EndsIn (answers_with code s c) tt only_request
unfolding write_test_accept send
daemon_answered code s c = (refl, refl, refl)

client_answered :
    (server : Bool) (code : AcceptType) (s t : Session) (c d : Control)
    → is_invalid code ≡ false
    → length s.sid ≡ 16
    → s.tool_port < 0x10000
    → s.reserve_time < u64_mod
    → EndsIn
        (read_test_accept
          (record t { conf_server = server })
          (waits d)
          (wire (heard (answers_with code (record s { conf_server = server }) c))))
        (code, session_from server s t)
        only_request
unfolding write_test_accept read_test_accept send receive split encode_time_stamp
client_answered true code s t c d h sid port time = rw (accept_back code) (
    rw h (
      rw (sub-nth s.sid 16 sid) (
        rw (port_back s.tool_port port) (
          rw (decode-encode_time_stamp (stamp s.reserve_time) (stamp 0) time) (refl, refl, refl)))))
client_answered false code s t c d h sid port time =
    rw (accept_back code) (
      rw h (rw (decode-encode_time_stamp (stamp s.reserve_time) (stamp 0) time) (refl, refl, refl)))

-- A daemon answers a test request and the client reads the answer, both with the answer outstanding
-- and with the same side configured; the answer is not the invalid one, and the session has an
-- identifier of 16 bytes, a port below 2^16 and a time below 2^64. The client has the answer and
-- the reserved time, and the daemon's identifier and port if the daemon is the configured server;
-- otherwise its own. Neither side awaits an answer then, and nothing is left unread.
pub read_test_accept-write_test_accept :
    (server : Bool) (code : AcceptType) (s t : Session) (c d : Control)
    → is_invalid code ≡ false
    → length s.sid ≡ 16
    → s.tool_port < 0x10000
    → s.reserve_time < u64_mod
    → EndsIn (answers_with code (record s { conf_server = server }) c) tt only_request
      × EndsIn
          (read_test_accept
            (record t { conf_server = server })
            (waits d)
            (wire (heard (answers_with code (record s { conf_server = server }) c))))
          (code, session_from server s t)
          only_request
read_test_accept-write_test_accept server code s t c d h sid port time = (
  daemon_answered code (record s { conf_server = server }) c,
  client_answered server code s t c d h sid port time,
)
