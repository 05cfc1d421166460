-- ===== src/Protocol/Tests.antt =====
-- Runs of the control protocol on concrete sessions.
use bwctl.Prelude.{
  Option, ◌<◌, ◌≤◌, ℕ, ◌+◌, ◌≡◌, refl, true, false, List, [], ◌∷◌, none, some, inl, inr, arith,
}
use bwctl.Bytes.{zeros}
use bwctl.TimeStamp.{TimeStamp, encode_err_estimate}
use bwctl.Protocol.{no_flags, only_request, Control, Session, failed, fatal, accept}
use bwctl.Protocol.Request.{start_session, time, read_request_type}
use bwctl.Protocol.Peers.{Hooks, control_time_check, end_session, stop_session_with}
use bwctl.Protocol.Setup.{admitted, control_open}
use bwctl.Protocol.States.Requests.{Lets, read_request_type_lem}
use bwctl.Protocol.Exchange.{wire, heard, converse, EndsIn, FailsIn}
use bwctl.Protocol.Exchange.Time.{Daemon, serve, at_rest, control_time_check-process_request}
use bwctl.Protocol.Exchange.Start.{
  daemon_with, starter, start_session_with-process_request, start_session_with-refused,
}
use bwctl.Protocol.Exchange.Stop.{active, stop_result, end_session-stop_session_with}
use bwctl.Protocol.Stop.Message.{testing}
use bwctl.Protocol.Exchange.Accept.{
  awaiting, answers_with, waits, read_test_accept-write_test_accept,
}
use bwctl.Protocol.Exchange.Setup.{
  Acceptor, accepts, at_start, offer, modes_of, open_request, control_open-control_accept,
  control_accept-any_offer,
}
use bwctl.Protocol.Start.{read_test_accept}
use bwctl.Bytes.{Buffer, put, sub, be16, be32}
use bwctl.Protocol.TestRequest.{
  ToolKind, throughput, traceroute, inet, TestRequest, no_spec, request_fields, request_buffer,
  read_test_request,
}
use bwctl.Protocol.TestRequest.Legacy.{requested, read_test_request-older_version}
use bwctl.Protocol.TestRequest.RoundTrip.{
  CanSend, in_version, daemon_reads, read_back, read_test_request-request_buffer,
}
use bwctl.Num64.{u32_mod}
use bwctl.Protocol.Greeting.{current_version}
use bwctl.Protocol.{accept_byte, accept, failure}
use bwctl.Protocol.Parameters.{
  TestSpec, scale_bandwidth, shift_left, unparse_throughput, parse_throughput, unparse_traceroute,
}
use bwctl.Protocol.Parameters.RoundTrip.{
  received_spec, rounded, parse_throughput-unparse_throughput,
}
use bwctl.Protocol.Parameters.Versions.{KeepsOptions, unparse_throughput-KeepsOptions}

abbrev a_control : Control
a_control = record { state = no_flags; version = 0x06000000; mode = 1; msg = zeros; tests = none }

abbrev pub a_session : Session
a_session = record {
  conf_client = true;
  conf_server = false;
  sid = 1 ∷ 2 ∷ 3 ∷ 4 ∷ 5 ∷ 6 ∷ 7 ∷ 8 ∷ 9 ∷ 10 ∷ 11 ∷ 12 ∷ 13 ∷ 14 ∷ 15 ∷ 16 ∷ [];
  tool_port = 5001;
  reserve_time = 0xd0000000_80000000;
}

abbrev a_time : TimeStamp
a_time = record { tstamp = 0xd0000000_40000000; sync = 1; multiplier = 3; scale = 20 }

abbrev no_time : TimeStamp
no_time = record { tstamp = 0; sync = 0; multiplier = 0; scale = 0 }

abbrev a_daemon : Daemon
a_daemon = record {
  process_test = λ c w. failed fatal c w;
  endpoint_start = λ port. inr (port + 1);
  now = a_time;
  control = a_control;
}

abbrev a_broken_daemon : Daemon
a_broken_daemon = record a_daemon { endpoint_start = λ port. inl fatal }

abbrev quiet : Hooks
quiet = record { endpoint_stop = none; process_results = none; session_free = none }

abbrev an_acceptor : Acceptor
an_acceptor = record {
  challenge = a_session.sid;
  uptime = 0xcafe;
  tools = 7;
  policy = λ mode. admitted;
  authenticate = λ mode c w. failed fatal c w;
  control = a_control;
}

-- Twenty bytes of results: one whole block and four bytes.
abbrev results : List ℕ
results =
    91 ∷ 32 ∷ 51 ∷ 93 ∷ 32 ∷ 48 ∷ 46 ∷ 48 ∷ 45 ∷ 49 ∷ 48 ∷ 46 ∷ 48 ∷ 32 ∷ 115 ∷ 101 ∷ 99 ∷ 10 ∷ 0
    ∷ 255 ∷ []

end_session-stop_session_with_example :
    EndsIn
      (converse 1
        (end_session accept quiet (active a_session a_control))
        (stop_session_with accept (some results) quiet (active a_session a_control))).0
      (accept, results, none)
      testing
    × EndsIn
        (converse 1
          (end_session accept quiet (active a_session a_control))
          (stop_session_with accept (some results) quiet (active a_session a_control))).1
        (stop_result accept quiet accept)
        only_request
end_session-stop_session_with_example =
    end_session-stop_session_with accept accept (some results) quiet quiet a_session a_session
      a_control a_control refl refl

start_session_with-process_request_example :
    EndsIn
      (converse 1
        (starter true true a_session 6000 a_control)
        (serve (daemon_with true true a_session a_daemon))).0
      6001
      testing
    × EndsIn
        (converse 1
          (starter true true a_session 6000 a_control)
          (serve (daemon_with true true a_session a_daemon))).1
        start_session
        testing
start_session_with-process_request_example =
    start_session_with-process_request true true a_session 6000 a_control a_daemon 6001
      (omega arith) (omega arith) refl

start_session_with-refused_example :
    FailsIn
      (converse 1
        (starter true false a_session 6000 a_control)
        (serve (daemon_with true false a_session a_broken_daemon))).0
      no_flags
    × FailsIn
        (converse 1
          (starter true false a_session 6000 a_control)
          (serve (daemon_with true false a_session a_broken_daemon))).1
        no_flags
    × (heard
          (converse 1
            (starter true false a_session 6000 a_control)
            (serve (daemon_with true false a_session a_broken_daemon))).1
        ≡ sub 0 32 (put 0 1 (accept_byte failure ∷ []) zeros))
start_session_with-refused_example =
    start_session_with-refused true false a_session 6000 a_control a_broken_daemon fatal
      (omega arith) refl

control_time_check-process_request_example :
    EndsIn
      (converse 1 (control_time_check no_time (at_rest a_control)) (serve a_daemon)).0
      a_time
      only_request
    × EndsIn
        (converse 1 (control_time_check no_time (at_rest a_control)) (serve a_daemon)).1
        time
        only_request
control_time_check-process_request_example =
    control_time_check-process_request no_time a_control a_daemon (omega arith)
      ((λ e. absurd (omega arith)), omega arith, omega arith, omega arith)

read_test_accept-write_test_accept_example :
    EndsIn (answers_with accept (record a_session { conf_server = true }) a_control) tt only_request
    × EndsIn
        (read_test_accept
          (record a_session { conf_server = true; tool_port = 0; reserve_time = 0 })
          (waits a_control)
          (wire (heard (answers_with accept (record a_session { conf_server = true }) a_control))))
        (accept, record a_session { conf_server = true })
        only_request
read_test_accept-write_test_accept_example =
    read_test_accept-write_test_accept true accept a_session
      (record a_session { tool_port = 0; reserve_time = 0 }) a_control a_control refl refl
      (omega arith) (omega arith)

control_open-control_accept_example :
    EndsIn
      (converse 2
        (control_open 7 (λ mode. admitted) (at_start a_control))
        (accepts (offer true true) an_acceptor)).0
      (record { uptime = 0xcafe; tools = 7 })
      only_request
    × EndsIn
        (converse 2
          (control_open 7 (λ mode. admitted) (at_start a_control))
          (accepts (offer true true) an_acceptor)).1
        tt
        only_request
control_open-control_accept_example =
    control_open-control_accept true true 7 (λ mode. admitted) a_control an_acceptor refl refl refl
      (omega arith) (omega arith)

-- A server for which only the encrypted mode is offered.
control_accept-any_offer_example :
    EndsIn (accepts (modes_of false false true) an_acceptor (wire open_request)) tt only_request
control_accept-any_offer_example = control_accept-any_offer false false true an_acceptor refl refl

read_request_type_lem_example :
    Lets only_request (read_request_type (at_rest a_control) (wire a_session.sid))
read_request_type_lem_example = read_request_type_lem (at_rest a_control) (wire a_session.sid)

-- Ten gigabits a second over UDP, in four streams, and the defaults of a ping.
abbrev a_spec : TestSpec
a_spec = record no_spec {
  tool_id = 1;
  udp = true;
  bandwidth = 10000000001;
  window_size = 65536;
  parallel_streams = 4;
  mss = 1460;
  ping_packet_count = 10;
  ping_packet_size = 1000;
  ping_interpacket_time = 1000;
}

parse_throughput-unparse_throughput_example :
    (sent : Buffer) × (unparse_throughput current_version true a_spec zeros ≡ some sent)
    × (parse_throughput current_version sent no_spec ≡ received_spec 0 a_spec no_spec)
    × (rounded 10000000001 ≤ 10000000001)
    × (10000000001 < rounded 10000000001 + shift_left (scale_bandwidth 32 10000000001).1 1)
    × (10000000001 < u32_mod → rounded 10000000001 ≡ 10000000001)
parse_throughput-unparse_throughput_example =
    parse_throughput-unparse_throughput true a_spec no_spec zeros (omega arith) refl
      (omega arith, omega arith, omega arith, omega arith, omega arith)

-- A daemon that knows the omitted seconds but not the segment size: it is asked for both.
unparse_throughput-KeepsOptions_example :
    KeepsOptions 0x02000000 a_spec no_spec (unparse_throughput 0x02000000 true a_spec zeros)
unparse_throughput-KeepsOptions_example =
    unparse_throughput-KeepsOptions 0x02000000 true a_spec no_spec zeros (omega arith)
      (refl, refl, refl, refl)

-- A traceroute for a daemon of before tool negotiation.
abbrev pub a_request : TestRequest
a_request = record {
  conf_client = true;
  conf_server = false;
  sid = a_session.sid;
  tool_port = 5001;
  client = inet (192 ∷ 0 ∷ 2 ∷ 1 ∷ []);
  server = inet (192 ∷ 0 ∷ 2 ∷ 2 ∷ []);
  req_time = a_time;
  latest_time = 0;
  server_sends = 0;
  no_server_endpoint = 0;
  outformat = 0;
  spec = record no_spec { tool_id = 32; duration = 10; traceroute_last_ttl = 30 };
}

abbrev pub a_tracer : ℕ → Option ToolKind
a_tracer tool_id = some traceroute

abbrev pub an_old_daemon : Control
an_old_daemon = record a_control { version = 0 }

abbrev a_trace_message : Buffer
a_trace_message = put 78 2 (be16 0) (
    put 77 1 (30 ∷ []) (
      put 76 1 (0 ∷ []) (
        put 4 4 (be32 10) (
          request_fields a_request (148, 3)
            (put 44 4 (192 ∷ 0 ∷ 2 ∷ 2 ∷ [])
              (put 28 4 (192 ∷ 0 ∷ 2 ∷ 1 ∷ []) (put 1 1 (4 ∷ []) zeros)))))))

a_trace_is_written : request_buffer a_tracer 0 a_request ≡ some a_trace_message
unfolding request_buffer encode_err_estimate unparse_traceroute
a_trace_is_written = refl

read_test_request-older_version_example :
    FailsIn
      (read_test_request a_tracer none
        (record an_old_daemon { state = requested })
        (wire (sub 16 96 a_trace_message)))
      no_flags
read_test_request-older_version_example =
    read_test_request-older_version a_tracer a_request a_trace_message none an_old_daemon refl
      a_trace_is_written (λ e. absurd (omega arith)) (omega arith)

-- A measurement of throughput, of which the daemon is the server.
abbrev a_throughput_request : TestRequest
a_throughput_request = record a_request { conf_client = false; conf_server = true; spec = a_spec }

abbrev an_iperf : ℕ → Option ToolKind
an_iperf tool_id = some throughput

a_throughput_request-CanSend : CanSend a_throughput_request
a_throughput_request-CanSend = record {
  sid_length = refl;
  port_fits = omega arith;
  time_fits = omega arith;
  estimate = ((λ e. absurd (omega arith)), omega arith, omega arith, omega arith);
  latest_fits = omega arith;
  tool_fits = omega arith;
  one_tool = refl;
  duration_fits = omega arith;
  spec_fits = (omega arith, omega arith, omega arith, omega arith, omega arith);
}

read_test_request-request_buffer_example :
    (sent : Buffer) × (request_buffer an_iperf current_version
        (in_version a_throughput_request (192 ∷ 0 ∷ 2 ∷ 1 ∷ []) (192 ∷ 0 ∷ 2 ∷ 2 ∷ []))
      ≡ some sent)
    × EndsIn
        (daemon_reads an_iperf a_control sent)
        (read_back a_throughput_request (192 ∷ 0 ∷ 2 ∷ 1 ∷ []) (192 ∷ 0 ∷ 2 ∷ 2 ∷ []))
        awaiting
read_test_request-request_buffer_example =
    read_test_request-request_buffer an_iperf a_throughput_request (192 ∷ 0 ∷ 2 ∷ 1 ∷ [])
      (192 ∷ 0 ∷ 2 ∷ 2 ∷ []) a_control a_throughput_request-CanSend refl refl refl refl
