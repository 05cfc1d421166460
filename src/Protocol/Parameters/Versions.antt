-- ===== src/Protocol/Parameters/Versions.antt =====
-- The parameters of a test for a daemon of any version.
use bwctl.Prelude.{
  ℕ, ◌<◌, ◌≡◌, arith, Bool, true, false, Option, none, some, ◌==◌, ltb, leb, Bool-cases, inl, inr,
  if◌then◌else◌, not,
}
use bwctl.Bytes.{Buffer}
use bwctl.Protocol.Parameters.{
  TestSpec, negotiation_version, omit_version, mss_version, throughput_common, scale_bandwidth,
  unparse_throughput, parse_throughput,
}

-- A spec in which nothing is asked for (memset).
abbrev AsksNothing : TestSpec → Type 0
AsksNothing t = (t.mss ≡ 0) × (t.omit ≡ 0) × (t.parallel_streams ≡ 0) × (t.units ≡ 0)

-- Whether four options of a spec that later versions have added are those of another one.
abbrev SameOptions : TestSpec → TestSpec → Type 0
SameOptions r s =
    (r.mss ≡ s.mss)
    × (r.omit ≡ s.omit)
    × (r.parallel_streams ≡ s.parallel_streams)
    × (r.units ≡ s.units)

abbrev pub KeepsOptions : ℕ → TestSpec → TestSpec → Option Buffer → Type 0
KeepsOptions version s t none = Unit
KeepsOptions version s t (some sent) = SameOptions (parse_throughput version sent t) s

-- Where the daemon does not know any of the options, and the conditions on the tools are met.
legacy_kept :
    (version : ℕ) (s t : TestSpec) (sent : Buffer) (unsupported : Bool)
    → leb mss_version version ≡ false
    → leb omit_version version ≡ false
    → leb negotiation_version version ≡ false
    → (s.parallel_streams == 0) ≡ true
    → (s.units == 0) ≡ true
    → AsksNothing t
    → KeepsOptions version s t (
        if unsupported
        then none
        else if ltb 0 s.mss
        then none
        else if not (s.omit == 0)
        then none
        else some sent)
unfolding parse_throughput
legacy_kept version s t sent unsupported m o n p u a = ground arith

-- Four of the parameters of a throughput test, whatever the version of the daemon: either the
-- client refuses to send the parameters, or the daemon, of the same version and with a spec in
-- which these four are cleared, reads the segment size (below 2^16), the seconds omitted, the
-- parallel streams and the units as the client has them.
pub unparse_throughput-KeepsOptions :
    (version : ℕ) (conf_client : Bool) (s t : TestSpec) (buf : Buffer)
    → s.mss < 0x10000
    → AsksNothing t
    → KeepsOptions version s t (unparse_throughput version conf_client s buf)
unfolding unparse_throughput parse_throughput
unparse_throughput-KeepsOptions version conf_client s t buf h a =
    elim (Bool-cases (leb mss_version version)) [
      | inl m ↦ elim (Bool-cases (leb omit_version version)) [
        | inl o ↦ elim (Bool-cases (leb negotiation_version version)) [
          | inl n ↦ rw m (rw o (rw n (ground arith)))
          | inr n ↦ absurd (ground arith)
        ]
        | inr o ↦ absurd (ground arith)
      ]
      | inr m ↦ elim (Bool-cases (leb omit_version version)) [
        | inl o ↦ elim (Bool-cases (leb negotiation_version version)) [
          | inl n ↦ rw m (rw o (rw n (ground arith)))
          | inr n ↦ absurd (ground arith)
        ]
        | inr o ↦ elim (Bool-cases (leb negotiation_version version)) [
          | inl n ↦ rw m (rw o (rw n (ground arith)))
          | inr n ↦ elim (Bool-cases (s.parallel_streams == 0)) [
            | inl p ↦ elim (Bool-cases (s.units == 0)) [
              | inl u ↦ elim (Bool-cases (ltb 0 (scale_bandwidth 32 s.bandwidth).1)) [
                | inl e ↦ rw m (rw o (rw n (rw p (rw u (rw e (ground arith))))))
                | inr e ↦ rw m (
                    rw o (
                      rw n (
                        rw p (
                          rw u (
                            rw e (
                              legacy_kept version s t (throughput_common version s buf) _ m o n p u
                                a))))))
              ]
              | inr u ↦ rw m (rw o (rw n (rw p (rw u (ground arith)))))
            ]
            | inr p ↦ rw m (rw o (rw n (rw p (ground arith))))
          ]
        ]
      ]
    ]
