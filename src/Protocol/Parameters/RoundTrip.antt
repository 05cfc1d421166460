-- ===== src/Protocol/Parameters/RoundTrip.antt =====
-- The parameters of a test between a client and a daemon of the current version.
use bwctl.Prelude.{
  ℕ, zero, suc, ◌+◌, ◌/◌, ◌%◌, ◌<◌, ◌≤◌, ◌≡◌, refl, arith, Bool, true, false, some, [], ◌∷◌, not,
  ◌==◌, leb, ltb, ◌&&◌, ◌⊎◌, inl, inr, if◌then◌else◌,
}
use bwctl.Bytes.{Buffer, put, be16, be32}
use bwctl.Num64.{u64_mod, u32_mod}
use bwctl.Protocol.Greeting.{current_version}
use bwctl.Protocol.Parameters.{
  TestSpec, scale_bandwidth, shift_left, set_udp, set_dynamic, throughput_common,
  throughput_negotiated, unparse_throughput, parse_throughput, version_1_5_2, unparse_ping,
  parse_ping, unparse_traceroute, parse_traceroute,
}
use bwctl.Protocol.Parameters.Bandwidth.{scale_bandwidth-Scaled}
use bwctl.Protocol.Stop.Message.{be32_back}
use bwctl.Protocol.Exchange.Start.{port_back}

-- The widths of the fields that the parameters of a throughput test have.
abbrev pub Fits : TestSpec → Type 0
Fits s =
    (s.bandwidth < u64_mod)
    × (s.window_size < u32_mod)
    × (s.len_buffer < u32_mod)
    × (s.report_interval < 0x10000)
    × (s.mss < 0x10000)

-- The bandwidth that is read.
abbrev pub rounded : ℕ → ℕ
rounded bandwidth = shift_left (scale_bandwidth 32 bandwidth).1 (scale_bandwidth 32 bandwidth).0

-- The spec that is read into `t`, with `verbose` from the message.
abbrev pub received_spec : ℕ → TestSpec → TestSpec → TestSpec
received_spec verbose s t = record t {
  udp = s.udp;
  bandwidth = rounded s.bandwidth;
  len_buffer = s.len_buffer;
  window_size = s.window_size;
  report_interval = s.report_interval;
  dynamic_window_size = s.dynamic_window_size;
  parallel_streams = s.parallel_streams;
  units = s.units;
  verbose = verbose;
  omit = s.omit;
  mss = s.mss;
}

abbrev pub sent_buffer : TestSpec → Buffer → Buffer
sent_buffer s buf =
    put 110 1 (s.omit ∷ [])
      (put 104 2 (be16 s.mss) (throughput_negotiated s (throughput_common current_version s buf)))

pub sent_throughput :
    (conf_client : Bool) (s : TestSpec) (buf : Buffer)
    → unparse_throughput current_version conf_client s buf ≡ some (sent_buffer s buf)
unfolding unparse_throughput
sent_throughput conf_client s buf = refl

udp_back : (flag : Bool) (byte : ℕ) → byte < 16 → not (set_udp flag byte / 16 == 0) ≡ flag
udp_back true byte h = ground arith
udp_back false byte h = ground arith

dynamic_back : (flag : Bool) (byte : ℕ) → byte ≡ 0 → not (set_dynamic flag byte % 2 == 0) ≡ flag
dynamic_back true byte h = ground arith
dynamic_back false byte h = ground arith

wrap64 : (n : ℕ) → n < u64_mod → n % u64_mod ≡ n
wrap64 n h = omega arith

wrap16 : (n : ℕ) → n < 0x10000 → n % 0x10000 ≡ n
wrap16 n h = omega arith

le→leb : (a b : ℕ) → a ≤ b → leb a b ≡ true
le→leb a b h = ground arith

scale_fits :
    (fuel bandwidth : ℕ) → bandwidth < u32_mod → scale_bandwidth fuel bandwidth ≡ (bandwidth, 0)
unfolding scale_bandwidth
scale_fits zero bandwidth h = refl
scale_fits (suc fuel) bandwidth h = rw (le→leb bandwidth 0xffffffff (omega arith)) refl

rounded_exact : (bandwidth : ℕ) → bandwidth < u32_mod → rounded bandwidth ≡ bandwidth
rounded_exact bandwidth h = rw (scale_fits 32 bandwidth h) refl

pub read_throughput :
    (s t : TestSpec) (buf : Buffer)
    → buf 1 < 16
    → buf 92 ≡ 0
    → Fits s
    → parse_throughput current_version (sent_buffer s buf) t ≡ received_spec (buf 100) s t
unfolding parse_throughput
read_throughput s t buf h1 h92 (bw, ws, lb, ri, ms) =
    let (small, few, below, above) = scale_bandwidth-Scaled 32 s.bandwidth bw in
    rw (udp_back s.udp (buf 1) h1) (
      rw (dynamic_back s.dynamic_window_size (buf 92) h92) (
        rw (be32_back (scale_bandwidth 32 s.bandwidth).0 small) (
          rw (wrap64 (rounded s.bandwidth) (omega arith)) (
            rw (be32_back s.window_size ws) (
              rw (be32_back s.len_buffer lb) (
                rw (be32_back s.report_interval (omega arith))
                  (rw (wrap16 s.report_interval ri) (rw (port_back s.mss ms) refl))))))))

-- The parameters of a throughput test, within the widths of their fields, from a client to a daemon
-- of the current version, in a buffer whose second byte is an IP version and which has no dynamic
-- window yet: they are all sent and all read as they were, but for the bandwidth. What is read of
-- it is at most what was asked for, and the difference is below two to the exponent that is sent; a
-- bandwidth below 2^32 is read exactly.
pub parse_throughput-unparse_throughput :
    (conf_client : Bool) (s t : TestSpec) (buf : Buffer)
    → buf 1 < 16
    → buf 92 ≡ 0
    → Fits s
    → (sent : Buffer) × (unparse_throughput current_version conf_client s buf ≡ some sent)
      × (parse_throughput current_version sent t ≡ received_spec (buf 100) s t)
      × (rounded s.bandwidth ≤ s.bandwidth)
      × (s.bandwidth < rounded s.bandwidth + shift_left (scale_bandwidth 32 s.bandwidth).1 1)
      × (s.bandwidth < u32_mod → rounded s.bandwidth ≡ s.bandwidth)
parse_throughput-unparse_throughput conf_client s t buf h1 h92 fits =
    let (small, few, below, above) = scale_bandwidth-Scaled 32 s.bandwidth fits.0 in
    (
      sent_buffer s buf,
      sent_throughput conf_client s buf,
      read_throughput s t buf h1 h92 fits,
      below,
      above,
      rounded_exact s.bandwidth,
    )

-- The widths of the fields of a ping and of a traceroute test.
abbrev ProbesFit : TestSpec → Type 0
ProbesFit s =
    (s.ping_packet_count < 0x10000)
    × (s.ping_packet_size < 0x10000)
    × (s.ping_interpacket_time < 0x10000)
    × (s.traceroute_packet_size < 0x10000)

-- What is kept of the spec `t` that is read into, or left out, for a version without a type of
-- service.
abbrev kept_tos : ℕ → TestSpec → ℕ
kept_tos version t = if ltb version version_1_5_2 then 0 else t.tos

sends_tos :
    (version : ℕ) (tos : ℕ)
    → (tos ≡ 0) ⊎ (version_1_5_2 ≤ version)
    → not (tos == 0) && ltb version version_1_5_2 ≡ false
sends_tos version tos (inl none_asked) = ground arith
sends_tos version tos (inr new) = ground arith

-- The parameters of a ping and of a traceroute test, within the widths of their fields, for a
-- daemon of any version, if no type of service is asked for or the version is 1.5.2 at least: both
-- are sent, and all that is sent is read as it was; the rest of the spec is left alone, but that an
-- older daemon clears the type of service.
parse_ping-unparse_ping :
    (version : ℕ) (s t : TestSpec) (buf : Buffer)
    → ProbesFit s
    → (s.tos ≡ 0) ⊎ (version_1_5_2 ≤ version)
    → (ping trace : Buffer) × (unparse_ping version s buf ≡ some ping)
      × (parse_ping version ping t ≡ record t {
        tos = kept_tos version t;
        ping_packet_count = s.ping_packet_count;
        ping_packet_size = s.ping_packet_size;
        ping_interpacket_time = s.ping_interpacket_time;
        ping_packet_ttl = s.ping_packet_ttl;
      })
      × (unparse_traceroute version s buf ≡ some trace)
      × (parse_traceroute version trace t ≡ record t {
        tos = kept_tos version t;
        traceroute_first_ttl = s.traceroute_first_ttl;
        traceroute_last_ttl = s.traceroute_last_ttl;
        traceroute_packet_size = s.traceroute_packet_size;
      })
unfolding unparse_ping parse_ping unparse_traceroute parse_traceroute
parse_ping-unparse_ping version s t buf (count, size, gap, packet) asked = (
  put 84 1 (s.ping_packet_ttl ∷ []) (
      put 80 2 (be16 s.ping_interpacket_time)
        (put 78 2 (be16 s.ping_packet_size) (put 76 2 (be16 s.ping_packet_count) buf))),
  put 78 2 (be16 s.traceroute_packet_size) (
      put 77 1 (s.traceroute_last_ttl ∷ [])
        (put 76 1 (s.traceroute_first_ttl ∷ []) (put 4 4 (be32 s.duration) buf))),
  rw (sends_tos version s.tos asked) refl,
  rw (port_back s.ping_packet_count count)
      (rw (port_back s.ping_packet_size size) (rw (port_back s.ping_interpacket_time gap) refl)),
  rw (sends_tos version s.tos asked) refl,
  rw (port_back s.traceroute_packet_size packet) refl,
)
