-- ===== src/TestPolicy/RoundTrip.antt =====
-- bwctld/policy.c: a test that is allowed and then completed.
use bwctl.Prelude.{
  ℕ, ◌<◌, ◌≡◌, inr, refl, sym, ap, ◌∙◌, Bool, true, Option, none, some, List, arith, length,
}
use bwctl.Num64.{u32_mod}
use bwctl.Schedule.Timeline.{Timeline, load}
use bwctl.Policy.{lim_pending, lim_int, PolicyNode}
use bwctl.Policy.Demand.{mesg_request, mesg_release, integer_demand, resource_demand}
use bwctl.Policy.Usage.{Within}
use bwctl.Policy.Grant.{release-request}
use bwctl.Policy.Counted.{resource_demand-pending}
use bwctl.Reservation.{Reply, granted, refused, failed, wish_of, reservation_complete}
use bwctl.Reservation.Grant.{NoWrap}
use bwctl.Reservation.RoundTrip.{Undone, fresh, take_fresh, complete-demand}
use bwctl.Ipc.Dispatch.{World, Broker, env_of, state_of, with_state, port_behind, verdict, horizon}
use bwctl.Ipc.Ask.{resource, complete, ask, answer_of, decide}
use bwctl.Ipc.Decide.{ask-decide}
use bwctl.Protocol.TestRequest.{TestRequest}
use bwctl.TestPolicy.{
  Child, TestInfo, Verdict, allowed, one_pending, query_for, after_response, with_ttl, info_of,
  check_test_policy, test_complete,
}
use bwctl.TestPolicy.Course.{
  Linked, TestFits, Course, unfit, full, pending, counted, demanded, check_test_policy-Course,
}

-- The daemon decides the two requests of BWLDTestComplete.
test_complete-decided :
    (w : World) (id aval : ℕ) (sid : List ℕ) (b : Broker)
    → b.node ≡ some id
    → w.can_write ≡ true
    → length sid ≡ 16
    → aval < u32_mod
    → test_complete w (record { node = id; sid = sid; res = one_pending }) aval b
      ≡ with_state
          (record b { classes = (resource_demand mesg_release one_pending b.classes id).0 })
          (reservation_complete sid (state_of b)).0
unfolding test_complete
test_complete-decided w id aval sid b known can wide fits =
    let b1 = record b { classes = (resource_demand mesg_release one_pending b.classes id).0 } in
    ap (λ (x : Broker × ℕ × Option (ℕ × ℕ)). (ask w x.0 (complete sid aval)).0)
      (ask-decide w b id (resource mesg_release one_pending) known can tt
          (inr refl, omega arith, omega arith)
        ∙ decide_release)
    ∙ ap (λ (x : Broker × ℕ × Option (ℕ × ℕ)). x.0)
        (ask-decide w b1 id (complete sid aval) known can tt (wide, fits))
    ∙ decide_complete b1
  where
    decide_release : decide w b id (resource mesg_release one_pending) ≡ (
      record b { classes = (resource_demand mesg_release one_pending b.classes id).0 },
      verdict (resource_demand mesg_release one_pending b.classes id).1,
      none,
    )
    decide_release = unfold decide in refl

    decide_complete :
        (c : Broker)
        → (decide w c id (complete sid aval)).0
          ≡ with_state c (reservation_complete sid (state_of c)).0
    decide_complete c = unfold decide in refl

-- The child is allowed a test only where the daemon has granted its time.
after_response-allowed :
    (info : TestInfo) (q : TestRequest) (port : ℕ) (reply : Reply) (info' : TestInfo)
    (q' : TestRequest) (time local_port : ℕ)
    → after_response info q (answer_of port reply) ≡ allowed info' q' time local_port
    → (reply ≡ granted time local_port) × (info' ≡ info)
after_response-allowed info q port (granted t p) info' q' time local_port h = (cc, cc)
after_response-allowed info q port (refused t) info' q' time local_port h = absurd (cc)
after_response-allowed info q port failed info' q' time local_port h = absurd (cc)

-- Before the request the child held nothing, the classes keep their limits of pending tests, the
-- list of slots is well formed, and the daemon has the event horizon, the time and a port.
pub record Ready (w : World) (child : Child) (id : ℕ) (q : TestRequest) (fuzz : ℕ) (b : Broker)
    (hsecs now port : ℕ) : Type 0 where
  pub within : Within lim_pending b.classes
  pub idle : b.res ≡ none
  pub slots : Timeline 0 b.slots
  pub hsecs_known : horizon (counted id b) id ≡ some hsecs
  pub now_known : w.currtime ≡ some now
  pub port_known : w.init_port ≡ some port
  pub no_wrap :
      NoWrap
        (wish_of w.tools (query_for child (info_of id q) q fuzz) q.spec.tool_id now hsecs)
        (query_for child (info_of id q) q fuzz)
        now
        b.slots

-- Everything is as it was before the test was asked for.
abbrev pub Restored : Broker → Broker → Type 0
Restored b b' =
    (b'.classes ≡ b.classes) × (b'.res ≡ none) × ((t : ℕ) → load t b'.slots ≡ load t b.slots)

module _ (w : World) (child : Child) (id : ℕ) (q : TestRequest) (fuzz : ℕ) (b : Broker)
    (hsecs now port aval : ℕ) (l : Linked w child id b) (f : TestFits child q fuzz)
    (y : Ready w child id q fuzz b hsecs now port) (av : aval < u32_mod) where
  released :
      (resource_demand mesg_request one_pending b.classes id).1 ≡ true
      → (resource_demand mesg_release one_pending (counted id b).classes id).0 ≡ b.classes
  released ok =
      let request = resource_demand-pending mesg_request 1 b.classes id in
      ap (λ (c : List PolicyNode). (resource_demand mesg_release one_pending c id).0)
        (ap (λ (x : List PolicyNode × Bool). x.0) request)
      ∙ ap (λ (x : List PolicyNode × Bool). x.0)
          (resource_demand-pending mesg_release 1
            (integer_demand mesg_request one_pending lim_int b.classes (some id)).0 id)
      ∙ ap (λ (x : List PolicyNode × Bool). x.0)
          (release-request one_pending b.classes (some id) (omega arith) y.within
            (rw request at ok))

  given_back :
      (time local_port : ℕ)
      → (demanded w child id q fuzz (counted id b)).1 ≡ granted time local_port
      → Undone q.sid b.slots (demanded w child id q fuzz (counted id b)).0
  given_back time local_port granted_it =
      let query = query_for child (info_of id q) q fuzz in
      let env = env_of w (counted id b) id in
      complete-demand w.tools env query (state_of b) hsecs now (fresh query port) b.slots time
        local_port y.hsecs_known y.now_known
        (take_fresh env query b.slots b.res port y.idle y.port_known) y.slots y.no_wrap granted_it

  Restored-Course :
      (r : Broker × Verdict) (info : TestInfo) (q' : TestRequest) (time local_port : ℕ)
      → Course w child id q fuzz b r
      → r.1 ≡ allowed info q' time local_port
      → Restored b (test_complete w info aval r.0)
  Restored-Course r info q' time local_port (unfit why eq) h = absurd (cc)
  Restored-Course r info q' time local_port (full full_up eq) h = absurd (cc)
  Restored-Course r info q' time local_port (pending ttl fit sent ok eq) h =
      let (st, reply) = demanded w child id q fuzz (counted id b) in
      let query = query_for child (info_of id q) q fuzz in
      let verdict_eq = ap (λ (x : Broker × Verdict). x.1) (sym eq) ∙ h in
      let (granted_it, same) =
        after_response-allowed (info_of id q) (with_ttl q ttl)
          (port_behind (env_of w (counted id b) id) query (state_of b)) reply info q' time
          local_port verdict_eq in
      let (done, gone, loads) = given_back time local_port granted_it in
      let b1 = with_state (counted id b) st in
      let ended =
        ap (λ (x : Broker × TestInfo). test_complete w x.1 aval x.0) (λ i. ((eq i).0, same i))
        ∙ test_complete-decided w id aval q.sid b1 l.known l.answers f.sid av in
      (
        ap (λ (x : Broker). x.classes) ended ∙ released ok,
        ap (λ (x : Broker). x.res) ended ∙ gone,
        λ t. ap (λ (x : Broker). load t x.slots) ended ∙ loads t,
      )

  -- A new test of a child whose class the daemon knows, and which holds no reservation, that
  -- BWLDCheckTestPolicy allows, and that BWLDTestComplete then ends: what the classes have in use
  -- is as it was before the test was asked for, the child holds no reservation, and each second of
  -- the schedule holds as many reservations as before. (The classes' limits of pending tests are
  -- below 2^24 and kept, the list of slots is well formed, the daemon has the event horizon, the
  -- time and a port, and no time wraps.)
  pub test_complete-check_test_policy :
      (info : TestInfo) (q' : TestRequest) (time local_port : ℕ)
      → (check_test_policy w child none q fuzz b).1 ≡ allowed info q' time local_port
      → Restored b (test_complete w info aval (check_test_policy w child none q fuzz b).0)
  test_complete-check_test_policy info q' time local_port =
      Restored-Course (check_test_policy w child none q fuzz b) info q' time local_port
        (check_test_policy-Course w child id q fuzz b l f)
