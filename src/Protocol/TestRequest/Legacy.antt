-- ===== src/Protocol/TestRequest/Legacy.antt =====
-- A test request for a daemon that does not negotiate tools.
use bwctl.Prelude.{
  ℕ, ◌<◌, ◌≡◌, ◌≢◌, refl, ap, ◌∙◌, arith, Bool, true, false, Option, none, some, [], ◌∷◌, ◌++◌, leb,
  ltb, ◌==◌, ◌&&◌, ◌||◌, not, if◌then◌else◌, Option-cases, Bool-cases, inl, inr,
}
use mathlib.Core.Path.{subst}
use bwctl.Num64.{u32_mod}
use bwctl.Bytes.{Buffer, zeros, sub, put, be32, all_zero, split}
use bwctl.TimeStamp.{encode_err_estimate}
use bwctl.Protocol.{Flags, no_flags, only_request, Control, receive}
use bwctl.Protocol.Parameters.{
  TestSpec, negotiation_version, mss_version, omit_version, version_1_5, scale_bandwidth,
  throughput_common, unparse_throughput, unparse_traceroute, unparse_ping,
}
use bwctl.Protocol.TestRequest.{
  ToolKind, throughput, traceroute, ping, TestRequest, unparse_parameters, request_buffer,
  request_fields, is_refused, put_addresses, read_test_request,
}
use bwctl.Protocol.Exchange.{wire, FailsIn}

-- The tool's number at offset 96.
abbrev HasTool : ℕ → Option Buffer → Type 0
HasTool tool_id none = Unit
HasTool tool_id (some buf) = sub 96 4 buf ≡ be32 tool_id

older_version :
    (version : ℕ) → leb negotiation_version version ≡ false → leb mss_version version ≡ false
older_version version n = ground arith

HasTool-branches :
    (tool_id : ℕ) (a b c d e : Bool) (with_omit without : Buffer)
    → HasTool tool_id (some with_omit)
    → HasTool tool_id (some without)
    → HasTool tool_id (
        if a
        then none
        else if b
        then none
        else if c
        then none
        else if d
        then some with_omit
        else if e
        then none
        else some without)
HasTool-branches tool_id true b c d e x y hx hy = tt
HasTool-branches tool_id false true c d e x y hx hy = tt
HasTool-branches tool_id false false true d e x y hx hy = tt
HasTool-branches tool_id false false false true e x y hx hy = hx
HasTool-branches tool_id false false false false true x y hx hy = tt
HasTool-branches tool_id false false false false false x y hx hy = hy

unparse_parameters-HasTool :
    (kind : ToolKind) (version : ℕ) (conf_client : Bool) (s : TestSpec) (buf : Buffer)
    → leb negotiation_version version ≡ false
    → sub 96 4 buf ≡ be32 s.tool_id
    → HasTool s.tool_id (unparse_parameters kind version conf_client s buf)
unfolding unparse_throughput unparse_traceroute unparse_ping
unparse_parameters-HasTool throughput version conf_client s buf n h =
    let common = throughput_common version s buf in
    rw n (
      rw (older_version version n) (
        HasTool-branches s.tool_id
          (ltb version version_1_5 && (ltb 0 s.bandwidth && (not s.udp && conf_client)))
          (not (s.parallel_streams == 0)
            || (not (s.units == 0) || ltb 0 (scale_bandwidth 32 s.bandwidth).1))
          (ltb 0 s.mss) (leb omit_version version) (not (s.omit == 0))
          (put 110 1 (s.omit ∷ []) common) common h h))
unparse_parameters-HasTool traceroute version conf_client s buf n h = ground arith
unparse_parameters-HasTool ping version conf_client s buf n h = ground arith

request_buffer-HasTool :
    (tools : ℕ → Option ToolKind) (version : ℕ) (q : TestRequest)
    → leb negotiation_version version ≡ false
    → HasTool q.spec.tool_id (request_buffer tools version q)
unfolding request_buffer
request_buffer-HasTool tools version q n =
    elim (Option-cases (put_addresses q.client q.server zeros)) [
      | inl e ↦ rw (e, HasTool) tt
      | inr (buf, e) ↦ elim (Option-cases (encode_err_estimate q.req_time)) [
        | inl f ↦ rw (e, HasTool) (rw (f, HasTool) tt)
        | inr (estimate, f) ↦ elim (Bool-cases (is_refused version q)) [
          | inl r ↦ rw (e, HasTool) (rw (f, HasTool) (rw (r, HasTool) tt))
          | inr r ↦ elim (Option-cases (tools q.spec.tool_id)) [
            | inl k ↦ rw (e, HasTool) (rw (f, HasTool) (rw (r, HasTool) (rw (k, HasTool) tt)))
            | inr (kind, k) ↦
                rw (e, HasTool)
                  (rw (f, HasTool)
                    (rw (r, HasTool)
                      (rw (k, HasTool)
                        (unparse_parameters-HasTool kind version q.conf_client q.spec
                          (request_fields q estimate buf) n refl))))
          ]
        ]
      ]
    ]

not_padding :
    (tool_id : ℕ) (x₄ x₅ x₆ x₇ x₈ x₉ x₁₀ x₁₁ x₁₂ x₁₃ x₁₄ x₁₅ : ℕ)
    → tool_id ≢ 0
    → tool_id < u32_mod
    → all_zero
        (be32 tool_id ++ (x₄ ∷ x₅ ∷ x₆ ∷ x₇ ∷ x₈ ∷ x₉ ∷ x₁₀ ∷ x₁₁ ∷ x₁₂ ∷ x₁₃ ∷ x₁₄ ∷ x₁₅ ∷ []))
      ≡ false
not_padding tool_id x₄ x₅ x₆ x₇ x₈ x₉ x₁₀ x₁₁ x₁₂ x₁₃ x₁₄ x₁₅ some_tool small = ground arith

received_rest :
    (buf m : Buffer)
    → receive 16 96 m (wire (sub 16 96 buf)) ≡ some (put 16 96 (sub 16 96 buf) m, wire [])
unfolding receive split
received_rest buf m = refl

-- The state of a daemon that has read the first block of a test request.
abbrev pub requested : Flags
requested = record only_request { test_request = true }

-- A test request for any tool that a client has written for a daemon that does not negotiate tools:
-- when the daemon, in that version, reads the rest of its seven blocks, it rejects the request, and
-- the connection is invalid.
pub read_test_request-older_version :
    (tools : ℕ → Option ToolKind) (q : TestRequest) (buf : Buffer) (existing : Option TestRequest)
    (d : Control)
    → leb negotiation_version d.version ≡ false
    → request_buffer tools d.version q ≡ some buf
    → q.spec.tool_id ≢ 0
    → q.spec.tool_id < u32_mod
    → FailsIn
        (read_test_request tools existing (record d { state = requested }) (wire (sub 16 96 buf)))
        no_flags
unfolding read_test_request
read_test_request-older_version tools q buf existing d n written some_tool small =
    let placed : sub 96 4 buf ≡ be32 q.spec.tool_id =
      subst (HasTool q.spec.tool_id) written (request_buffer-HasTool tools d.version q n) in
    let rest = sub 100 12 buf in
    let bad : all_zero (sub 96 16 buf) ≡ false =
      ap (λ l. all_zero (l ++ rest)) placed
      ∙ not_padding q.spec.tool_id (buf 100) (buf 101) (buf 102) (buf 103) (buf 104) (buf 105)
          (buf 106) (buf 107) (buf 108) (buf 109) (buf 110) (buf 111) some_tool small in
    rw n (rw (received_rest buf d.msg) (rw (n, FailsIn) (rw (bad, FailsIn) refl)))
