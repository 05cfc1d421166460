-- ===== src/Protocol/Exchange/Start.antt =====
-- The start of a session: BWLStartSession against a daemon that waits for requests.
use bwctl.Prelude.{
  ℕ, ◌+◌, ◌*◌, ◌/◌, ◌%◌, ◌<◌, ◌≡◌, Bool, true, false, refl, ◌∙◌, arith, some, List, [], ◌∷◌, inl,
  inr, if◌then◌else◌,
}
use bwctl.Bytes.{split, sub, put, zeros, be16}
use bwctl.Protocol.{
  Flags, Control, Wire, Session, Severity, Outcome, only_request, no_flags, send, receive,
  get_accept_type, accept_byte, failure,
}
use bwctl.Protocol.Request.{start_session, request_type, read_request_type}
use bwctl.Protocol.Start.{write_start_session, read_start_session, write_start_ack, read_start_ack}
use bwctl.Protocol.Peers.{start_session_with, process_start_session, process_request}
use bwctl.Protocol.Exchange.{
  wire, heard, Says, FailsIn, converse, converse_once, converse_fails, EndsIn,
}
use bwctl.Protocol.Exchange.Time.{Daemon, serve, at_rest}

-- The state while a test is active.
abbrev testing : Flags
testing = record only_request { test = true }

-- A side at rest that has a session, whose client and server are configured by this connection or
-- not.
abbrev with_session : Bool → Bool → Session → Control → Control
with_session client server s c = record c {
  tests = some (record s { conf_client = client; conf_server = server });
}

abbrev pub daemon_with : Bool → Bool → Session → Daemon → Daemon
daemon_with client server s d = record d { control = with_session client server s d.control }

abbrev port_message : ℕ → Bool → ℕ → List ℕ
port_message first has_port port =
    let buf = put 0 1 (first ∷ []) zeros in
    sub 0 32 (if has_port then put 2 2 (be16 port) buf else buf)

abbrev port_of : Bool → ℕ → ℕ → ℕ
port_of has_port port other = if has_port then port else other

abbrev pub starter : Bool → Bool → Session → ℕ → Control → Wire → Outcome ℕ
starter client server s port c = start_session_with port (at_rest (with_session client server s c))

start_asks :
    (client server : Bool) (s : Session) (port : ℕ) (c : Control)
    → heard (starter client server s port c (wire [])) ≡ port_message 2 client port
unfolding start_session_with write_start_session read_start_ack send receive split
start_asks client server s port c = refl

pub port_back : (port : ℕ) → port < 0x10000 → port / 256 % 256 * 256 + port % 256 ≡ port
port_back port h = omega arith

start_answered :
    (client server : Bool) (s : Session) (port : ℕ) (d : Daemon) (own : ℕ)
    → port < 0x10000
    → d.endpoint_start (port_of client port 0) ≡ inr own
    → Says
        (serve (daemon_with client server s d) (wire (port_message 2 client port)))
        start_session
        testing
        (port_message 0 server own)
unfolding process_request process_start_session read_request_type request_type read_start_session
    write_start_ack send receive split
start_answered true server s port d own h e =
    let started : d.endpoint_start port ≡ inr own = e in
    (
      rw (port_back port h) (rw (started, EndsIn) (refl, refl, refl)),
      rw (port_back port h) (rw (started, heard) refl),
    )
start_answered false server s port d own h e =
    let started : d.endpoint_start 0 ≡ inr own = e in
    (rw (started, EndsIn) (refl, refl, refl), rw (started, heard) refl)

start_refused :
    (client server : Bool) (s : Session) (port : ℕ) (d : Daemon) (err : Severity)
    → port < 0x10000
    → d.endpoint_start (port_of client port 0) ≡ inl err
    → FailsIn (serve (daemon_with client server s d) (wire (port_message 2 client port))) no_flags
      × (heard (serve (daemon_with client server s d) (wire (port_message 2 client port)))
          ≡ port_message 2 server 0)
unfolding process_request process_start_session read_request_type request_type read_start_session
    write_start_ack send receive split
start_refused true server s port d err h e =
    let refused : d.endpoint_start port ≡ inl err = e in
    (
      rw (port_back port h) (rw (refused, FailsIn) refl),
      rw (port_back port h) (rw (refused, heard) refl),
    )
start_refused false server s port d err h e =
    let refused : d.endpoint_start 0 ≡ inl err = e in
    (rw (refused, FailsIn) refl, rw (refused, heard) refl)

start_accepted :
    (client server : Bool) (s : Session) (port : ℕ) (c : Control) (own : ℕ)
    → own < 0x10000
    → Says
        (starter client server s port c (wire (port_message 0 server own)))
        (port_of server own port)
        testing
        (port_message 2 client port)
unfolding start_session_with write_start_session read_start_ack send receive split get_accept_type
start_accepted client true s port c own h = rw (port_back own h) ((refl, refl, refl), refl)
start_accepted client false s port c own h = ((refl, refl, refl), refl)

start_failed :
    (client server : Bool) (s : Session) (port : ℕ) (c : Control)
    → FailsIn (starter client server s port c (wire (port_message 2 server 0))) no_flags
      × (heard (starter client server s port c (wire (port_message 2 server 0)))
          ≡ port_message 2 client port)
unfolding start_session_with write_start_session read_start_ack send receive split get_accept_type
start_failed client true s port c = (refl, refl)
start_failed client false s port c = (refl, refl)

-- A client that starts a session and a daemon that waits for requests, which have the same session
-- and ports below 2^16. Where the daemon's endpoint starts, with the client's port if the client is
-- configured and 0 otherwise, the test is active on both sides, and the client has the port of the
-- endpoint if the server is configured and its own otherwise.
pub start_session_with-process_request :
    (client server : Bool) (s : Session) (port : ℕ) (c : Control) (d : Daemon) (own : ℕ)
    → port < 0x10000
    → own < 0x10000
    → d.endpoint_start (port_of client port 0) ≡ inr own
    → EndsIn
        (converse 1 (starter client server s port c) (serve (daemon_with client server s d))).0
        (port_of server own port)
        testing
      × EndsIn
          (converse 1 (starter client server s port c) (serve (daemon_with client server s d))).1
          start_session
          testing
start_session_with-process_request client server s port c d own hp ho e =
    converse_once (starter client server s port c) (serve (daemon_with client server s d))
      (port_of server own port) start_session testing testing (port_message 2 client port)
      (port_message 0 server own) (start_asks client server s port c)
      (start_answered client server s port d own hp e)
      (start_accepted client server s port c own ho)

-- The message of a refusal: there is no port.
failure_message :
    (server : Bool) → port_message 2 server 0 ≡ sub 0 32 (put 0 1 (accept_byte failure ∷ []) zeros)
failure_message true = refl
failure_message false = refl

-- Where the daemon's endpoint does not start, the daemon sends a StartAck with BWL_CNTRL_FAILURE
-- (and no port) and nothing else, and both connections are then invalid, with no bit set: neither
-- side has an active test. (The two sides have the same session, and the client's port is below
-- 2^16.)
pub start_session_with-refused :
    (client server : Bool) (s : Session) (port : ℕ) (c : Control) (d : Daemon) (err : Severity)
    → port < 0x10000
    → d.endpoint_start (port_of client port 0) ≡ inl err
    → FailsIn
        (converse 1 (starter client server s port c) (serve (daemon_with client server s d))).0
        no_flags
      × FailsIn
          (converse 1 (starter client server s port c) (serve (daemon_with client server s d))).1
          no_flags
      × (heard
            (converse 1 (starter client server s port c) (serve (daemon_with client server s d))).1
          ≡ sub 0 32 (put 0 1 (accept_byte failure ∷ []) zeros))
start_session_with-refused client server s port c d err hp e =
    let (client_fails, daemon_fails, sent) =
      converse_fails (starter client server s port c) (serve (daemon_with client server s d))
        no_flags no_flags (port_message 2 client port) (port_message 2 server 0)
        (start_asks client server s port c) (start_refused client server s port d err hp e)
        (start_failed client server s port c) in
    (client_fails, daemon_fails, sent ∙ failure_message server)
