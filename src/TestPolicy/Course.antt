-- ===== src/TestPolicy/Course.antt =====
-- bwctld/policy.c: the ways in which BWLDCheckTestPolicy ends for a new test.
use mathlib.Core.Path.{subst, sym}
use bwctl.Prelude.{
  ℕ, ◌<◌, ◌≡◌, ◌⊎◌, inl, inr, refl, ap, ◌∙◌, Bool, true, false, Option, none, some, List, arith,
  length, if◌then◌else◌, ◌==◌, Bool-cases, Option-cases,
}
use bwctl.Num64.{u32_mod, u64_mod}
use bwctl.Bytes.{nth}
use bwctl.Bytes.Stream.{length-sub}
use bwctl.Policy.{PolicyNode}
use bwctl.Policy.Demand.{mesg_request, resource_demand}
use bwctl.Policy.Usage.{resource_demand_refused}
use bwctl.Reservation.{State, Reply, reservation_demand}
use bwctl.Reservation.Width.{PortFits}
use bwctl.Ipc.{mesg_ok}
use bwctl.Ipc.Dispatch.{World, Broker, env_of, state_of, with_state, port_behind, verdict}
use bwctl.Ipc.Ask.{resource, reservation, RequestFits, answer_of, decide}
use bwctl.Ipc.Decide.{ask-decide}
use bwctl.Protocol.TestRequest.{TestRequest}
use bwctl.TestPolicy.{
  Child, TestInfo, Verdict, denied, broken, limits_allow, ttl_allowed, one_pending, query_for,
  after_response, reserve, with_ttl, info_of, request_pending, check_new, check_test_policy,
}

-- The child has the class that the daemon has for it, the daemon answers, and picks ports of 16
-- bits.
pub record Linked (w : World) (child : Child) (id : ℕ) (b : Broker) : Type 0 where
  pub same_class : child.node ≡ some id
  pub known : b.node ≡ some id
  pub answers : w.can_write ≡ true
  pub ports : PortFits w.init_port

-- The fields that go to the daemon are within their widths.
pub record TestFits (child : Child) (q : TestRequest) (fuzz : ℕ) : Type 0 where
  pub sid : length q.sid ≡ 16
  pub req_time : q.req_time.tstamp < u64_mod
  pub fuzz_time : fuzz < u64_mod
  pub latest_time : q.latest_time < u64_mod
  pub rtt_bound : child.rtt_bound < u64_mod
  pub tool_port : q.tool_port < 0x10000
  pub tool_id : q.spec.tool_id < u32_mod

query_for-RequestFits :
    (child : Child) (info : TestInfo) (q : TestRequest) (fuzz : ℕ)
    → TestFits child q fuzz
    → info.sid ≡ q.sid
    → RequestFits (query_for child info q fuzz)
query_for-RequestFits child info q fuzz h same = record {
  sid = ap length same ∙ h.sid;
  rtime = h.req_time;
  ftime = h.fuzz_time;
  ltime = h.latest_time;
  duration = omega arith;
  rtttime = h.rtt_bound;
  toolport = h.tool_port;
  tool_id = h.tool_id;
  sender =
      length-sub 46 0 (nth (child.node_name (if q.server_sends == 0 then q.client else q.server)));
  receiver =
      length-sub 46 0 (nth (child.node_name (if q.server_sends == 0 then q.server else q.client)));
}

-- The broker once the test is counted as pending.
abbrev pub counted : ℕ → Broker → Broker
counted id b = record b { classes = (resource_demand mesg_request one_pending b.classes id).0 }

-- What the daemon decides about the time of the test, and what the child makes of it.
abbrev pub demanded : World → Child → ℕ → TestRequest → ℕ → Broker → State × Reply
demanded w child id q fuzz b =
    reservation_demand w.tools (env_of w b id) (query_for child (info_of id q) q fuzz) (state_of b)

abbrev settled : World → Child → ℕ → TestRequest → ℕ → Broker → Broker × Verdict
settled w child id q fuzz b =
    let (st, reply) = demanded w child id q fuzz b in
    (
      with_state b st,
      after_response (info_of id q) q (
          answer_of
            (port_behind (env_of w b id) (query_for child (info_of id q) q fuzz) (state_of b))
            reply),
    )

-- A limit of the class refuses the test; or the daemon counts as many pending tests as it may; or
-- the test is counted, and then the daemon decides about its time.
pub data Course (w : World) (child : Child) (id : ℕ) (q : TestRequest) (fuzz : ℕ) (b : Broker)
    (r : Broker × Verdict) : Type 0 where
  unfit :
      (limits_allow child id q fuzz ≡ false) ⊎ (ttl_allowed child id q ≡ none)
      → r ≡ (b, denied none)
      → Course w child id q fuzz b r
  full :
      (resource_demand mesg_request one_pending b.classes id).1 ≡ false
      → r ≡ (b, denied none)
      → Course w child id q fuzz b r
  pending :
      (ttl : ℕ)
      → limits_allow child id q fuzz ≡ true
      → ttl_allowed child id q ≡ some ttl
      → (resource_demand mesg_request one_pending b.classes id).1 ≡ true
      → r ≡ settled w child id (with_ttl q ttl) fuzz (counted id b)
      → Course w child id q fuzz b r

module _ (w : World) (child : Child) (id : ℕ) where
  decide_pending :
      (b : Broker)
      → decide w b id (resource mesg_request one_pending)
        ≡ (counted id b, verdict (resource_demand mesg_request one_pending b.classes id).1, none)
  unfolding decide
  decide_pending b = refl

  decide_reservation :
      (q : TestRequest) (fuzz : ℕ) (b : Broker)
      → let r = decide w b id (reservation (query_for child (info_of id q) q fuzz)) in
        (r.0, after_response (info_of id q) q (r.1, r.2)) ≡ settled w child id q fuzz b
  unfolding decide
  decide_reservation q fuzz b = refl

  reserve-settled :
      (q : TestRequest) (fuzz : ℕ) (b : Broker)
      → Linked w child id b
      → TestFits child q fuzz
      → reserve w child (info_of id q) q fuzz b ≡ settled w child id q fuzz b
  unfolding reserve
  reserve-settled q fuzz b l h =
      ap (λ (x : Broker × ℕ × Option (ℕ × ℕ)). (x.0, after_response (info_of id q) q (x.1, x.2)))
        (ask-decide w b id (reservation (query_for child (info_of id q) q fuzz)) l.known l.answers
          l.ports (query_for-RequestFits child (info_of id q) q fuzz h refl))
      ∙ decide_reservation q fuzz b

  -- What follows the response to the query of the pending test.
  abbrev pending_answered : TestRequest → ℕ → Broker × ℕ × Option (ℕ × ℕ) → Broker × Verdict
  pending_answered q fuzz x =
      if x.1 == mesg_ok then reserve w child (info_of id q) q fuzz x.0 else (x.0, denied none)

  request_pending-decided :
      (q : TestRequest) (fuzz : ℕ) (b : Broker)
      → Linked w child id b
      → request_pending w child id q fuzz b ≡ (
          if (resource_demand mesg_request one_pending b.classes id).1
          then reserve w child (info_of id q) q fuzz (counted id b)
          else (counted id b, denied none))
  unfolding request_pending
  request_pending-decided q fuzz b l =
      ap (pending_answered q fuzz) (
        ask-decide w b id (resource mesg_request one_pending) l.known l.answers tt
          (inl refl, omega arith, omega arith)
        ∙ decide_pending b)
      ∙ answered (resource_demand mesg_request one_pending b.classes id).1
    where
      answered :
          (ok : Bool)
          → pending_answered q fuzz (counted id b, verdict ok, none) ≡ (
              if ok
              then reserve w child (info_of id q) q fuzz (counted id b)
              else (counted id b, denied none))
      answered true = refl
      answered false = refl

  -- A refusal to count the test leaves the classes as they were.
  counted_refused :
      (b : Broker)
      → (resource_demand mesg_request one_pending b.classes id).1 ≡ false
      → counted id b ≡ b
  counted_refused b full_up =
      ap (λ (l : List PolicyNode). record b { classes = l })
        (resource_demand_refused mesg_request one_pending b.classes id full_up)

  request_pending-Course :
      (q : TestRequest) (fuzz ttl : ℕ) (b : Broker)
      → Linked w child id b
      → TestFits child q fuzz
      → limits_allow child id q fuzz ≡ true
      → ttl_allowed child id q ≡ some ttl
      → Course w child id q fuzz b (request_pending w child id (with_ttl q ttl) fuzz b)
  request_pending-Course q fuzz ttl b l h fit sent =
      let q' = with_ttl q ttl in
      let decided = request_pending-decided q' fuzz b l in
      elim (Bool-cases (resource_demand mesg_request one_pending b.classes id).1) [
        | inl ok ↦ pending ttl fit sent ok (
            rw ok at decided
            ∙ reserve-settled q' fuzz (counted id b)
                (record {
                  same_class = l.same_class;
                  known = l.known;
                  answers = l.answers;
                  ports = l.ports;
                })
                (record {
                  sid = h.sid;
                  req_time = h.req_time;
                  fuzz_time = h.fuzz_time;
                  latest_time = h.latest_time;
                  rtt_bound = h.rtt_bound;
                  tool_port = h.tool_port;
                  tool_id = h.tool_id;
                }))
        | inr full_up ↦ full full_up (
            rw full_up at decided
            ∙ ap (λ (x : Broker). (x, denied none)) (counted_refused b full_up))
      ]

  check_new-Course :
      (q : TestRequest) (fuzz : ℕ) (b : Broker)
      → Linked w child id b
      → TestFits child q fuzz
      → Course w child id q fuzz b (check_new w child id q fuzz b)
  unfolding check_new
  check_new-Course q fuzz b l h = elim (Bool-cases (limits_allow child id q fuzz)) [
    | inr misfit ↦ unfit (inl misfit) (rw misfit refl)
    | inl fit ↦ rw fit (elim (Option-cases (ttl_allowed child id q)) [
      | inl low ↦ unfit (inr low) (rw low refl)
      | inr (ttl, sent) ↦ rw sent (request_pending-Course q fuzz ttl b l h fit sent)
    ])
  ]

  -- How BWLDCheckTestPolicy ends for a new test of a child whose class the daemon knows, with
  -- everything it asks for going over the pipe. Where a limit of the class refuses the test, or the
  -- minimum TTL does, or the daemon has no room for one more pending test, the answer is False and
  -- nothing changes in the daemon. Otherwise the daemon counts the test as pending, and then
  -- answers as ChldReservationDemand does; the child has True with the daemon's time and port
  -- exactly where that grants the reservation.
  pub check_test_policy-Course :
      (q : TestRequest) (fuzz : ℕ) (b : Broker)
      → Linked w child id b
      → TestFits child q fuzz
      → Course w child id q fuzz b (check_test_policy w child none q fuzz b)
  unfolding check_test_policy
  check_test_policy-Course q fuzz b l h =
      subst
        (λ (node : Option ℕ).
          Course w child id q fuzz b
            (elim node [ none ↦ (b, broken) | some id' ↦ check_new w child id' q fuzz b ]))
        (sym l.same_class) (check_new-Course q fuzz b l h)

  settled-Course :
      (q : TestRequest) (fuzz ttl : ℕ) (b : Broker) (r : Broker × Verdict)
      → Course w child id q fuzz b r
      → limits_allow child id q fuzz ≡ true
      → ttl_allowed child id q ≡ some ttl
      → (resource_demand mesg_request one_pending b.classes id).1 ≡ true
      → r ≡ settled w child id (with_ttl q ttl) fuzz (counted id b)
  settled-Course q fuzz ttl b r (unfit (inl misfit) eq) fit sent ok = absurd (cc)
  settled-Course q fuzz ttl b r (unfit (inr low) eq) fit sent ok = absurd (cc)
  settled-Course q fuzz ttl b r (full full_up eq) fit sent ok = absurd (cc)
  settled-Course q fuzz ttl b r (pending ttl' fit' sent' ok' eq) fit sent ok =
      eq ∙ ap (λ (t : ℕ). settled w child id (with_ttl q t) fuzz (counted id b)) (cc)

  -- A test that is allowed so far and counted.
  pub check_test_policy-settled :
      (q : TestRequest) (fuzz ttl : ℕ) (b : Broker)
      → Linked w child id b
      → TestFits child q fuzz
      → limits_allow child id q fuzz ≡ true
      → ttl_allowed child id q ≡ some ttl
      → (resource_demand mesg_request one_pending b.classes id).1 ≡ true
      → check_test_policy w child none q fuzz b
        ≡ settled w child id (with_ttl q ttl) fuzz (counted id b)
  check_test_policy-settled q fuzz ttl b l h =
      settled-Course q fuzz ttl b (check_test_policy w child none q fuzz b)
        (check_test_policy-Course q fuzz b l h)
