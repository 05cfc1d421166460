-- ===== src/Protocol/TestRequest/RoundTrip.antt =====
-- A test request between a client and a daemon of the current version.
use Prim.Native.Nat.{bit_and}
use bwctl.Prelude.{
  ℕ, ◌-◌, ◌%◌, ◌<◌, ◌≡◌, refl, ap, ◌∙◌, arith, Bool, true, false, Option, none, some, List, [], ◌∷◌,
  length, not, ◌==◌, inr, if◌then◌else◌,
}
use bwctl.Num64.{u64_mod, u32_mod}
use bwctl.Bytes.{Buffer, zeros, sub, put, split}
use bwctl.Bytes.Stream.{sub-nth}
use bwctl.TimeStamp.{
  TimeStamp, encode_time_stamp, decode_time_stamp, encode_err_estimate, decode_err_estimate,
}
use bwctl.TimeStamp.Wire.{HasEstimate, decode-encode_time_stamp, decode-encode_err_estimate}
use bwctl.Protocol.{Control, Outcome, done, only_request, receive}
use bwctl.Protocol.Request.{test, request_type, read_request_type}
use bwctl.Protocol.Peers.{and_then}
use bwctl.Protocol.Exchange.{wire, EndsIn}
use bwctl.Protocol.Exchange.Accept.{awaiting}
use bwctl.Protocol.TestRequest.Legacy.{requested}
use bwctl.Protocol.Greeting.{current_version}
use bwctl.Protocol.Parameters.{TestSpec, set_udp, parse_throughput}
use bwctl.Protocol.Parameters.RoundTrip.{
  Fits, sent_buffer, sent_throughput, read_throughput, received_spec,
}
use bwctl.Protocol.Stop.Message.{be32_back}
use bwctl.Protocol.Exchange.Start.{port_back}
use bwctl.Protocol.TestRequest.{
  ToolKind, throughput, inet, TestRequest, request_fields, request_buffer, decode_request,
  request_of, no_spec, flag_byte, get_addresses, same, with_parameters, read_test_request,
}

-- A request that can be sent: the widths of its fields, and one tool.
pub record CanSend (q : TestRequest) : Type 0 where
  pub sid_length : length q.sid ≡ 16
  pub port_fits : q.tool_port < 0x10000
  pub time_fits : q.req_time.tstamp < u64_mod
  pub estimate : HasEstimate q.req_time
  pub latest_fits : q.latest_time < u64_mod
  pub tool_fits : q.spec.tool_id < u32_mod
  pub one_tool : (bit_and q.spec.tool_id (q.spec.tool_id - 1) == 0) ≡ true
  pub duration_fits : q.spec.duration < u32_mod
  pub spec_fits : Fits q.spec

abbrev stamp : ℕ → TimeStamp
stamp t = record { tstamp = t; sync = 0; multiplier = 0; scale = 0 }

abbrev v4 : List ℕ → List ℕ → Buffer
v4 client server = put 44 4 server (put 28 4 client (put 1 1 (4 ∷ []) zeros))

-- The message in the daemon's buffer.
abbrev arrived : Buffer → Buffer → Buffer
arrived buf m = put 16 112 (sub 16 112 buf) (put 0 16 (sub 0 16 buf) m)

bool_back : (b : Bool) → not (flag_byte b == 0) ≡ b
bool_back true = refl
bool_back false = refl

version_back : (udp : Bool) → set_udp udp 4 % 16 ≡ 4
version_back true = refl
version_back false = refl

-- The fields of the request without its parameters.
abbrev bare : TestRequest → List ℕ → List ℕ → TestRequest
bare q client server = record q {
  client = inet client;
  server = inet server;
  tool_port = if q.conf_server then 0 else q.tool_port;
  spec = record no_spec {
    tool_id = q.spec.tool_id;
    duration = q.spec.duration;
    verbose = q.spec.verbose;
    tos = q.spec.tos;
  };
}

-- Everything but the parameters.
fields_back :
    (q : TestRequest) (b : ℕ × ℕ) (client server : List ℕ) (m : Buffer)
    → CanSend q
    → length client ≡ 4
    → length server ≡ 4
    → request_of current_version
        (arrived (sent_buffer q.spec (request_fields q b (v4 client server))) m)
        q.req_time
        (inet client, inet server)
      ≡ bare q client server
unfolding encode_time_stamp
fields_back q b client server m h hc hs = rw (bool_back q.conf_client) (
    rw (bool_back q.conf_server) (
      rw (sub-nth q.sid 16 h.sid_length) (
        rw (port_back q.tool_port h.port_fits) (
          rw (decode-encode_time_stamp (stamp q.latest_time) (stamp 0) h.latest_fits) (
            rw (be32_back q.spec.duration h.duration_fits)
              (rw (be32_back q.spec.tool_id h.tool_fits) refl))))))

-- The message of a request for a measurement of throughput between two addresses of version 4.
abbrev message : TestRequest → ℕ × ℕ → List ℕ → List ℕ → Buffer
message q b client server = sent_buffer q.spec (request_fields q b (v4 client server))

-- What the daemon has of it, where the client has asked for a bandwidth.
abbrev pub read_back : TestRequest → List ℕ → List ℕ → TestRequest
read_back q client server =
    let t = bare q client server in record t { spec = received_spec q.spec.verbose q.spec t.spec }

addresses_back :
    (q : TestRequest) (b : ℕ × ℕ) (client server : List ℕ) (m : Buffer)
    → length client ≡ 4
    → length server ≡ 4
    → get_addresses (arrived (message q b client server) m) ≡ some (inet client, inet server)
addresses_back q b client server m hc hs =
    rw (version_back q.spec.udp) (rw (sub-nth client 4 hc) (rw (sub-nth server 4 hs) refl))

parse_arrived :
    (buf m : Buffer) (t : TestSpec)
    → parse_throughput current_version (arrived buf m) t ≡ parse_throughput current_version buf t
unfolding parse_throughput
parse_arrived buf m t = refl

sides_differ :
    (client server : Bool)
    → server ≡ not client
    → same (not (flag_byte client == 0)) (not (flag_byte server == 0)) ≡ false
sides_differ true server h = rw h refl
sides_differ false server h = rw h refl

module _ (tools : ℕ → Option ToolKind) (q : TestRequest) (b : ℕ × ℕ) (client server : List ℕ)
    (m : Buffer) (h : CanSend q) (hc : length client ≡ 4) (hs : length server ≡ 4) where
  abbrev msg : Buffer
  msg = arrived (message q b client server) m

  decoded_fields :
      q.conf_server ≡ not q.conf_client
      → decode_request tools current_version msg q.req_time
        ≡ with_parameters tools current_version msg
            (request_of current_version msg q.req_time (inet client, inet server))
  unfolding decode_request
  decoded_fields conf =
      rw (sides_differ q.conf_client q.conf_server conf)
        (rw (addresses_back q b client server m hc hs) refl)

  decoded_parameters :
      tools q.spec.tool_id ≡ some throughput
      → with_parameters tools current_version msg (bare q client server)
        ≡ inr (read_back q client server)
  unfolding with_parameters
  decoded_parameters known = rw h.one_tool (
      rw known (
        ap (λ spec. inr (record (bare q client server) { spec = spec }))
          (parse_arrived (message q b client server) m (bare q client server).spec
            ∙ read_throughput q.spec (bare q client server).spec
                (request_fields q b (v4 client server)) (omega arith) refl h.spec_fits)))

  decoded :
      q.conf_server ≡ not q.conf_client
      → tools q.spec.tool_id ≡ some throughput
      → decode_request tools current_version msg q.req_time ≡ inr (read_back q client server)
  decoded conf known =
      decoded_fields conf
      ∙ ap (with_parameters tools current_version msg) (fields_back q b client server m h hc hs)
      ∙ decoded_parameters known

  decoded_time :
      decode_err_estimate (record (stamp 0) { tstamp = q.req_time.tstamp }) b ≡ (q.req_time, true)
      → decode_err_estimate (decode_time_stamp (stamp 0) (sub 8 8 msg)) (msg 24, msg 25)
        ≡ (q.req_time, true)
  unfolding encode_time_stamp
  decoded_time read = rw (decode-encode_time_stamp q.req_time (stamp 0) h.time_fits) (rw read refl)

-- A daemon at rest that reads a request of eight blocks.
abbrev pub daemon_reads : (ℕ → Option ToolKind) → Control → Buffer → Outcome TestRequest
daemon_reads tools d sent =
    and_then
      (read_request_type (record d { state = only_request; version = current_version })
        (wire (sub 0 128 sent)))
      λ type c w. read_test_request tools none c w

first_block :
    (q : TestRequest) (b : ℕ × ℕ) (client server : List ℕ) (d : Control)
    → read_request_type
        (record d { state = only_request; version = current_version })
        (wire (sub 0 128 (message q b client server)))
      ≡ done test
          (record d {
            state = requested;
            version = current_version;
            msg = put 0 16 (sub 0 16 (message q b client server)) d.msg;
          })
          (wire (sub 16 112 (message q b client server)))
unfolding read_request_type request_type receive split
first_block q b client server d = refl

other_blocks :
    (sent m : Buffer)
    → receive 16 112 m (wire (sub 16 112 sent)) ≡ some (put 16 112 (sub 16 112 sent) m, wire [])
unfolding receive split
other_blocks sent m = refl

abbrev pub in_version : TestRequest → List ℕ → List ℕ → TestRequest
in_version q client server = record q { client = inet client; server = inet server }

written :
    (tools : ℕ → Option ToolKind) (q : TestRequest) (b : ℕ × ℕ) (client server : List ℕ)
    → encode_err_estimate q.req_time ≡ some b
    → tools q.spec.tool_id ≡ some throughput
    → request_buffer tools current_version (in_version q client server)
      ≡ some (message q b client server)
unfolding request_buffer encode_time_stamp
written tools q b client server estimate known =
    rw (estimate, request_buffer)
      (rw known (sent_throughput q.conf_client q.spec (request_fields q b (v4 client server))))

-- A client asks a daemon of the current version, at rest, for a measurement of throughput between
-- two addresses of IP version 4, with one tool that both know, as client or as server of the test,
-- and with fields within their widths. The request is written, and the daemon reads it as it was
-- but for three things: the bandwidth is rounded down as Parameters.RoundTrip says, the port is
-- cleared where the daemon is the server, and the parameters of other kinds of tools are not sent.
-- The daemon then owes an answer, and nothing is left unread.
pub read_test_request-request_buffer :
    (tools : ℕ → Option ToolKind) (q : TestRequest) (client server : List ℕ) (d : Control)
    → CanSend q
    → length client ≡ 4
    → length server ≡ 4
    → q.conf_server ≡ not q.conf_client
    → tools q.spec.tool_id ≡ some throughput
    → (sent : Buffer) × (request_buffer tools current_version (in_version q client server)
        ≡ some sent)
      × EndsIn (daemon_reads tools d sent) (read_back q client server) awaiting
unfolding read_test_request
read_test_request-request_buffer tools q client server d h hc hs conf known =
    let (b, estimate, byte, read) =
      decode-encode_err_estimate q.req_time (record (stamp 0) { tstamp = q.req_time.tstamp })
        h.estimate in
    let sent = message q b client server in
    (
      sent,
      written tools q b client server estimate known,
      rw (first_block q b client server d, EndsIn)
          (rw (other_blocks sent (put 0 16 (sub 0 16 sent) d.msg)) (
            rw (decoded_time tools q b client server d.msg h hc hs read)
              (rw (decoded tools q b client server d.msg h hc hs conf known) (refl, refl, refl)))),
    )
