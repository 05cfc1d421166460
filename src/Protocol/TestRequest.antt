-- ===== src/Protocol/TestRequest.antt =====
-- bwlib/protocol.c: the test request (_BWLWriteTestRequest, _BWLReadTestRequest). The parameters of
-- the tool are written and read by BWLToolUnparseRequestParameters and
-- BWLToolParseRequestParameters (bwlib/tools.c), which look the tool up among those of the context:
-- the table is a parameter. Hosts are little-endian, which only the output format depends on.
-- Behind a failure the message buffer is that before, and addresses are taken to be made without
-- failure.
pub mod Legacy
pub mod Reads
pub mod RoundTrip
use Prim.Native.Nat.{bit_and}
use bwctl.Prelude.{
  ◌⊎◌, inl, inr, ℕ, ◌+◌, ◌-◌, ◌*◌, ◌/◌, ◌%◌, Bool, true, false, Option, none, some, List, [], ◌∷◌,
  ltb, leb, ◌==◌, if◌then◌else◌, not, ◌&&◌, ◌||◌,
}
use bwctl.Bytes.{Buffer, zeros, put, sub, be16, be32, get16, get32, all_zero}
use bwctl.TimeStamp.{
  TimeStamp, encode_time_stamp, decode_time_stamp, encode_err_estimate, decode_err_estimate,
}
use bwctl.Protocol.{
  Flags, is_pending, Severity, fatal, warning, Control, Wire, Outcome, done, failed, fail_control,
  send, receive, drained,
}
use bwctl.Protocol.Parameters.{
  TestSpec, negotiation_version, version_1_5, version_1_5_2, unparse_throughput, parse_throughput,
  unparse_traceroute, parse_traceroute, unparse_ping, parse_ping,
}

-- The three kinds of tools, by their unparse_request and parse_request.
pub data ToolKind : Type 0 where
  throughput traceroute ping : ToolKind

-- BWLToolUnparseRequestParameters and BWLToolParseRequestParameters for a tool of the table.
abbrev pub unparse_parameters : ToolKind → ℕ → Bool → TestSpec → Buffer → Option Buffer
unparse_parameters throughput version conf_client s buf =
    unparse_throughput version conf_client s buf
unparse_parameters traceroute version conf_client s buf = unparse_traceroute version s buf
unparse_parameters ping version conf_client s buf = unparse_ping version s buf

abbrev parse_parameters : ToolKind → ℕ → Buffer → TestSpec → TestSpec
parse_parameters throughput version buf s = parse_throughput version buf s
parse_parameters traceroute version buf s = parse_traceroute version buf s
parse_parameters ping version buf s = parse_ping version buf s

-- A socket address, as far as it is sent.
pub data Address : Type 0 where
  inet inet6 : List ℕ → Address
  other_family : Address

-- The IP version and the addresses of a test, unless the families do not go together.
abbrev pub put_addresses : Address → Address → Buffer → Option Buffer
put_addresses (inet client) (inet server) buf =
    some (put 44 4 server (put 28 4 client (put 1 1 (4 ∷ []) buf)))
put_addresses (inet6 client) (inet6 server) buf =
    some (put 44 16 server (put 28 16 client (put 1 1 (6 ∷ []) buf)))
put_addresses _ _ buf = none

-- What a request says: BWLTestSpec with the fields of the session.
pub record TestRequest : Type 0 where
  pub conf_client : Bool
  pub conf_server : Bool
  pub sid : List ℕ
  pub tool_port : ℕ
  pub client : Address
  pub server : Address
  pub req_time : TimeStamp
  pub latest_time : ℕ
  pub server_sends : ℕ
  pub no_server_endpoint : ℕ
  pub outformat : ℕ
  pub spec : TestSpec

abbrev pub flag_byte : Bool → ℕ
flag_byte true = 1
flag_byte false = 0

abbrev stamp : ℕ → TimeStamp
stamp t = record { tstamp = t; sync = 0; multiplier = 0; scale = 0 }

abbrev estimate_bytes : ℕ × ℕ → List ℕ
estimate_bytes e = e.0 ∷ e.1 ∷ []

-- The fields that every request has, written over the addresses.
abbrev pub request_fields : TestRequest → ℕ × ℕ → Buffer → Buffer
request_fields q estimate buf =
    let flags =
      put 2 2 (flag_byte q.conf_client ∷ flag_byte q.conf_server ∷ []) (put 0 1 (1 ∷ []) buf) in
    let times = put 24 2 (estimate_bytes estimate) (
      put 16 8 (encode_time_stamp (stamp q.latest_time))
        (put 8 8 (encode_time_stamp q.req_time) flags)) in
    let session = put 60 16 q.sid (put 26 2 (be16 q.tool_port) times) in
    let tool =
      put 100 1 (q.spec.verbose ∷ [])
        (put 4 4 (be32 q.spec.duration) (put 96 4 (be32 q.spec.tool_id) session)) in
    let ways =
      put 101 2 (q.server_sends ∷ q.no_server_endpoint ∷ [])
        (put 108 4 (q.outformat ∷ 0 ∷ 0 ∷ 0 ∷ []) tool) in
    put 93 1 (q.spec.tos ∷ []) ways

-- What the older versions refuse besides the parameters.
abbrev pub is_refused : ℕ → TestRequest → Bool
is_refused version q =
    (not (leb negotiation_version version) && not (q.outformat == 0))
    || (not (leb version_1_5 version) && not (q.server_sends == 0))

-- The buffer of a request, if it can be written.
unfoldable pub request_buffer : (ℕ → Option ToolKind) → ℕ → TestRequest → Option Buffer
unfolding unparse_throughput unparse_traceroute unparse_ping
request_buffer tools version q = elim (put_addresses q.client q.server zeros) [
  | none ↦ none
  | some buf ↦ elim (encode_err_estimate q.req_time) [
    | none ↦ none
    | some estimate ↦ if is_refused version q then none else (elim (tools q.spec.tool_id) [
      | none ↦ none
      | some kind ↦
          unparse_parameters kind version q.conf_client q.spec (request_fields q estimate buf)
    ])
  ]
]

abbrev request_length : ℕ → ℕ
request_length version = if leb negotiation_version version then 128 else 112

-- _BWLWriteTestRequest
unfoldable pub write_test_request :
    (ℕ → Option ToolKind) → TestRequest → Control → Wire → Outcome Unit
unfolding request_buffer
write_test_request tools q c w =
    if not c.state.request || is_pending c.state
    then failed fatal c w
    else (elim (request_buffer tools c.version q) [
      | none ↦ failed fatal c w
      | some buf ↦
          let c' = record c { msg = buf } in
          elim (send (request_length c.version) buf w) [
            | none ↦ fail_control c' w
            | some w' ↦ done tt (record c' { state = record c.state { test_accept = true } }) w'
          ]
    ])

-- BWL_TOOL_IPERF
abbrev tool_iperf : ℕ
tool_iperf = 1

-- memset(&tspec,0,sizeof(tspec))
abbrev pub no_spec : TestSpec
no_spec = record {
  verbose = 0;
  duration = 0;
  tool_id = 0;
  udp = false;
  tos = 0;
  bandwidth = 0;
  window_size = 0;
  len_buffer = 0;
  report_interval = 0;
  mss = 0;
  omit = 0;
  parallel_streams = 0;
  units = 0;
  dynamic_window_size = false;
  ping_packet_count = 0;
  ping_interpacket_time = 0;
  ping_packet_size = 0;
  ping_packet_ttl = 0;
  traceroute_packet_size = 0;
  traceroute_first_ttl = 0;
  traceroute_last_ttl = 0;
}

-- memcmp of sixteen bytes.
abbrev same_bytes : List ℕ → List ℕ → Bool
same_bytes [] [] = true
same_bytes (a ∷ bytes) (b ∷ others) = a == b && same_bytes bytes others
same_bytes _ _ = false

abbrev pub same : Bool → Bool → Bool
same true b = b
same false b = not b

-- The address family and the addresses of a request.
abbrev pub get_addresses : Buffer → Option (Address × Address)
get_addresses buf =
    if buf 1 % 16 == 6
    then some (inet6 (sub 28 16 buf), inet6 (sub 44 16 buf))
    else if buf 1 % 16 == 4
    then some (inet (sub 28 4 buf), inet (sub 44 4 buf))
    else none

-- `tool_id & (tool_id - 1)`, where several tools are asked for.
abbrev asks_several : ℕ → Bool
asks_several tool_id = not (bit_and tool_id (tool_id - 1) == 0)

-- The tool and the fields of BWLTestSpec outside the parameters, from the message.
abbrev tool_of : ℕ → Buffer → ℕ
tool_of version buf = if leb negotiation_version version then get32 96 buf else tool_iperf

abbrev spec_of : ℕ → Buffer → TestSpec
spec_of version buf = record no_spec {
  tool_id = tool_of version buf;
  duration = get32 4 buf;
  verbose = if leb version_1_5_2 version then buf 100 else 1;
  tos = buf 93;
}

-- A request that is decoded from the message, but for its parameters.
abbrev pub request_of : ℕ → Buffer → TimeStamp → Address × Address → TestRequest
request_of version buf req_time addresses =
    let conf_server = not (buf 3 == 0) in
    let reverses = leb version_1_5 version in
    record {
      conf_client = not (buf 2 == 0);
      conf_server = conf_server;
      sid = sub 60 16 buf;
      tool_port = if conf_server then 0 else get16 26 buf;
      client = addresses.0;
      server = addresses.1;
      req_time = req_time;
      latest_time = (decode_time_stamp (stamp 0) (sub 16 8 buf)).tstamp;
      server_sends = if reverses then buf 101 else 0;
      no_server_endpoint = if reverses then buf 102 else 0;
      outformat = if leb negotiation_version version then buf 108 else 0;
      spec = spec_of version buf;
    }

-- The tool of a new request, and its parameters: `inl` is the severity of the error.
unfoldable pub with_parameters :
    (ℕ → Option ToolKind) → ℕ → Buffer → TestRequest → Severity ⊎ TestRequest
with_parameters tools version buf q =
    if leb negotiation_version version && asks_several q.spec.tool_id
    then inl warning
    else (elim (tools q.spec.tool_id) [
      | none ↦ inl warning
      | some kind ↦ inr (record q { spec = parse_parameters kind version buf q.spec })
    ])

-- A new request.
unfoldable pub decode_request :
    (ℕ → Option ToolKind) → ℕ → Buffer → TimeStamp → Severity ⊎ TestRequest
decode_request tools version buf req_time =
    if same (not (buf 2 == 0)) (not (buf 3 == 0)) then inl fatal else (elim (get_addresses buf) [
      | none ↦ inl fatal
      | some addresses ↦
          with_parameters tools version buf (request_of version buf req_time addresses)
    ])

-- A request for a reservation that there is: only its times and the client's port are taken.
abbrev update_request : ℕ → Buffer → TimeStamp → TestRequest → Severity ⊎ TestRequest
update_request version buf req_time q =
    if not (same_bytes (sub 60 16 buf) q.sid)
    then inl fatal
    else inr (record q {
      req_time = req_time;
      latest_time = (decode_time_stamp (stamp 0) (sub 16 8 buf)).tstamp;
      tool_port = if q.conf_server then q.tool_port else get16 26 buf;
    })

-- The request of the message, with the reservation that there is.
abbrev request_in :
    (ℕ → Option ToolKind) → ℕ → Buffer → TimeStamp → Option TestRequest → Severity ⊎ TestRequest
request_in tools version buf req_time none = decode_request tools version buf req_time
request_in tools version buf req_time (some q) = update_request version buf req_time q

-- A request that does not fit the session that there is frees that session.
abbrev freed : Option TestRequest → Control → Control
freed none c = c
freed (some q) c = record c { tests = none }

abbrev pub fitted :
    Option TestRequest → Control → Wire → Severity ⊎ TestRequest → Outcome TestRequest
fitted existing c w (inl fatal) = fail_control (freed existing c) w
fitted existing c w (inl warning) = failed warning c w
fitted existing c w (inr q) =
    done q (record c { state = record c.state { test_request = false; test_accept = true } }) w

-- The message, where its blocks could be read: the padding, the error estimate, and the request.
abbrev pub padding_of : ℕ → ℕ
padding_of version = if leb negotiation_version version then 112 else 96

abbrev pub request_received :
    (ℕ → Option ToolKind)
    → Option TestRequest
    → Control
    → Wire
    → Option (Buffer × Wire)
    → Outcome TestRequest
request_received tools existing c w none = fail_control c (drained w)
request_received tools existing c w (some (buf, w')) =
    let c' = record c { msg = buf } in
    let (req_time, ok) =
      decode_err_estimate (decode_time_stamp (stamp 0) (sub 8 8 buf)) (buf 24, buf 25) in
    if not (all_zero (sub (padding_of c.version) 16 buf)) || not ok
    then fail_control c' w'
    else fitted existing c' w' (request_in tools c.version buf req_time existing)

-- _BWLReadTestRequest. With BWLErrWARNING, where the daemon is to answer with a failure, the state
-- is left as it is.
unfoldable pub read_test_request :
    (ℕ → Option ToolKind) → Option TestRequest → Control → Wire → Outcome TestRequest
read_test_request tools existing c w =
    if not c.state.test_request
    then failed fatal c w
    else request_received tools existing c w (receive 16 (padding_of c.version) c.msg w)
