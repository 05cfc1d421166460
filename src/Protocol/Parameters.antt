-- ===== src/Protocol/Parameters.antt =====
-- bwlib/protocol.c: the parameters of a test in a test request, for the tools that measure
-- throughput and for those of the kinds of traceroute and ping. They are written into and read from
-- the message buffer, whose other bytes _BWLWriteTestRequest fills.
pub mod Bandwidth
pub mod RoundTrip
pub mod Versions
use bwctl.Prelude.{
  ℕ, zero, suc, ◌+◌, ◌*◌, ◌/◌, ◌%◌, Bool, true, false, Option, none, some, List, [], ◌∷◌, ltb, leb,
  ◌==◌, if◌then◌else◌, not, ◌&&◌, ◌||◌,
}
use bwctl.Bytes.{Buffer, put, be16, be32, get16, get32}
use bwctl.Num64.{u64_mod}

-- BWL_MODE_PROTOCOL_TESTER_NEGOTIATION_VERSION and the later ones.
abbrev pub negotiation_version : ℕ
negotiation_version = 0x01000000

abbrev pub omit_version : ℕ
omit_version = 0x02000000

abbrev pub version_1_5 : ℕ
version_1_5 = 0x04000000

abbrev pub version_1_5_2 : ℕ
version_1_5_2 = 0x05000000

abbrev pub mss_version : ℕ
mss_version = 0x06000000

-- BWLTestSpec, without addresses and times. Numbers are below the limits of their types.
pub record TestSpec : Type 0 where
  pub verbose : ℕ
  pub duration : ℕ
  pub tool_id : ℕ
  pub udp : Bool
  pub tos : ℕ
  pub bandwidth : ℕ
  pub window_size : ℕ
  pub len_buffer : ℕ
  pub report_interval : ℕ
  pub mss : ℕ
  pub omit : ℕ
  pub parallel_streams : ℕ
  pub units : ℕ
  pub dynamic_window_size : Bool
  pub ping_packet_count : ℕ
  pub ping_interpacket_time : ℕ
  pub ping_packet_size : ℕ
  pub ping_packet_ttl : ℕ
  pub traceroute_packet_size : ℕ
  pub traceroute_first_ttl : ℕ
  pub traceroute_last_ttl : ℕ

-- The loop on the bandwidth: what fits into 32 bits, and how often it was halved. The fuel is 32,
-- as the bandwidth has 64 bits.
pub scale_bandwidth : ℕ → ℕ → ℕ × ℕ
scale_bandwidth zero bandwidth = (bandwidth, 0)
scale_bandwidth (suc fuel) bandwidth =
    let halved = scale_bandwidth fuel (bandwidth / 2) in
    if leb bandwidth 0xffffffff then (bandwidth, 0) else (halved.0, suc halved.1)

-- `bandwidth << exponent`, before it is cut to 64 bits.
abbrev pub shift_left : ℕ → ℕ → ℕ
shift_left zero m = m
shift_left (suc e) m = 2 * shift_left e m

-- `byte |= 0x10` and `byte |= _BWL_DYNAMIC_WINDOW_SIZE`, which is 1.
abbrev pub set_udp : Bool → ℕ → ℕ
set_udp flag byte = if flag && byte / 16 % 2 == 0 then byte + 16 else byte

abbrev pub set_dynamic : Bool → ℕ → ℕ
set_dynamic flag byte = if flag && byte % 2 == 0 then byte + 1 else byte

-- The bytes of BWLGenericUnparseThroughputParameters that every version has.
abbrev pub throughput_common : ℕ → TestSpec → Buffer → Buffer
throughput_common version s buf =
    let scaled = scale_bandwidth 32 s.bandwidth in
    let interval =
      if leb version_1_5 version then s.report_interval else s.report_interval / 1000 in
    put 92 1 (set_dynamic s.dynamic_window_size (buf 92) ∷ []) (
      put 88 4 (be32 interval) (
        put 84 4 (be32 s.window_size) (
          put 80 4 (be32 s.len_buffer)
            (put 76 4 (be32 scaled.0) (put 1 1 (set_udp s.udp (buf 1) ∷ []) buf)))))

-- The bytes of a server that negotiates tools.
abbrev pub throughput_negotiated : TestSpec → Buffer → Buffer
throughput_negotiated s buf = put 111 1 (s.units ∷ []) (
    put 109 1 ((scale_bandwidth 32 s.bandwidth).1 ∷ [])
      (put 96 4 (be32 s.tool_id) (put 94 1 (s.parallel_streams ∷ []) buf)))

-- BWLGenericUnparseThroughputParameters: the buffer, or the refusal of what a server of an older
-- version does not support.
unfoldable pub unparse_throughput : ℕ → Bool → TestSpec → Buffer → Option Buffer
unparse_throughput version conf_client s buf =
    let negotiates = leb negotiation_version version in
    let common = throughput_common version s buf in
    let negotiated = if negotiates then throughput_negotiated s common else common in
    let with_mss =
      if leb mss_version version then put 104 2 (be16 s.mss) negotiated else negotiated in
    if ltb version version_1_5 && (ltb 0 s.bandwidth && (not s.udp && conf_client))
    then none
    else if not negotiates
        && (not (s.parallel_streams == 0)
            || (not (s.units == 0) || ltb 0 (scale_bandwidth 32 s.bandwidth).1))
    then none
    else if not (leb mss_version version) && ltb 0 s.mss
    then none
    else if leb omit_version version
    then some (put 110 1 (s.omit ∷ []) with_mss)
    else if not (s.omit == 0)
    then none
    else some with_mss

-- BWLGenericParseThroughputParameters, into a spec. The interval has 16 bits.
unfoldable pub parse_throughput : ℕ → Buffer → TestSpec → TestSpec
parse_throughput version buf s =
    let negotiates = leb negotiation_version version in
    let has_omit = leb omit_version version in
    let interval = get32 88 buf in
    record s {
      udp = not (buf 1 / 16 == 0);
      bandwidth =
          if negotiates then shift_left (buf 109) (get32 76 buf) % u64_mod else get32 76 buf;
      len_buffer = get32 80 buf;
      window_size = get32 84 buf;
      report_interval = (if ltb version version_1_5 then interval * 1000 else interval) % 0x10000;
      dynamic_window_size = not (buf 92 % 2 == 0);
      parallel_streams = if negotiates then buf 94 else s.parallel_streams;
      units = if negotiates then buf 111 else s.units;
      verbose = if has_omit then buf 100 else s.verbose;
      omit = if has_omit then buf 110 else s.omit;
      mss = if leb mss_version version then get16 104 buf else s.mss;
    }

-- BWLGenericUnparseTracerouteParameters
unfoldable pub unparse_traceroute : ℕ → TestSpec → Buffer → Option Buffer
unparse_traceroute version s buf =
    if not (s.tos == 0) && ltb version version_1_5_2
    then none
    else some (
        put 78 2 (be16 s.traceroute_packet_size) (
          put 77 1 (s.traceroute_last_ttl ∷ [])
            (put 76 1 (s.traceroute_first_ttl ∷ []) (put 4 4 (be32 s.duration) buf))))

-- BWLGenericParseTracerouteParameters
pub parse_traceroute : ℕ → Buffer → TestSpec → TestSpec
parse_traceroute version buf s = record s {
  tos = if ltb version version_1_5_2 then 0 else s.tos;
  traceroute_first_ttl = buf 76;
  traceroute_last_ttl = buf 77;
  traceroute_packet_size = get16 78 buf;
}

-- BWLGenericUnparsePingParameters
unfoldable pub unparse_ping : ℕ → TestSpec → Buffer → Option Buffer
unparse_ping version s buf =
    if not (s.tos == 0) && ltb version version_1_5_2
    then none
    else some (
        put 84 1 (s.ping_packet_ttl ∷ []) (
          put 80 2 (be16 s.ping_interpacket_time)
            (put 78 2 (be16 s.ping_packet_size) (put 76 2 (be16 s.ping_packet_count) buf))))

-- BWLGenericParsePingParameters
pub parse_ping : ℕ → Buffer → TestSpec → TestSpec
parse_ping version buf s = record s {
  tos = if ltb version version_1_5_2 then 0 else s.tos;
  ping_packet_count = get16 76 buf;
  ping_packet_size = get16 78 buf;
  ping_interpacket_time = get16 80 buf;
  ping_packet_ttl = buf 84;
}
