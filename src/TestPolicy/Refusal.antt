-- ===== src/TestPolicy/Refusal.antt =====
-- bwctld/policy.c: a test that the daemon counts as pending and then has no time for.
use bwctl.Prelude.{
  ℕ, ◌+◌, ◌%◌, ◌<◌, ◌≡◌, ◌≢◌, refl, ap, ◌∙◌, true, false, Option, none, some, arith,
}
use bwctl.Num64.{u64_mod}
use bwctl.Policy.{lim_pending, Entry}
use bwctl.Policy.Demand.{mesg_request, resource_demand}
use bwctl.Policy.Counted.{entry_of, resource_demand-pending, integer_demand-counted}
use bwctl.Reservation.{Reply, granted, refused, failed}
use bwctl.Reservation.Denial.{is_granted}
use bwctl.Ipc.Ask.{answer_of}
use bwctl.Ipc.Dispatch.{World, Broker, state_of, port_behind, env_of}
use bwctl.Protocol.TestRequest.{TestRequest}
use bwctl.TestPolicy.{
  Child, TestInfo, Verdict, allowed, limits_allow, ttl_allowed, one_pending, query_for,
  after_response, with_ttl, info_of, check_test_policy,
}
use bwctl.TestPolicy.Course.{Linked, TestFits, counted, demanded, check_test_policy-settled}

-- The closure that is left to BWLDTestComplete.
abbrev pub closure_of : Verdict → Option TestInfo
closure_of (allowed info q time port) = some info
closure_of _ = none

-- One more test is pending in a class with a limit.
counted_one :
    (b : Broker) (id : ℕ) (e : Entry)
    → entry_of lim_pending b.classes id ≡ some e
    → e.value ≢ 0
    → e.used + 1 < u64_mod
    → (resource_demand mesg_request one_pending b.classes id).1 ≡ true
    → entry_of lim_pending (counted id b).classes id ≡ some (record e { used = e.used + 1 })
counted_one b id e h limited small ok =
    let same = resource_demand-pending mesg_request 1 b.classes id in
    let one : (1 + e.used) % u64_mod ≡ e.used + 1 = omega arith in
    rw same (
      integer_demand-counted one_pending b.classes id e h limited (rw same at ok)
      ∙ ap (λ (used : ℕ). some (record e { used = used })) one)

not_granted :
    (info : TestInfo) (q : TestRequest) (port : ℕ) (reply : Reply)
    → is_granted reply ≡ false
    → closure_of (after_response info q (answer_of port reply)) ≡ none
not_granted info q port (granted time toolport) h = cc
not_granted info q port (refused time) h = refl
not_granted info q port failed h = refl

-- A new test that the limits of its class allow, and for which the class, which has a limit of
-- pending tests, has room, but for which the daemon has no time: BWLDCheckTestPolicy returns False
-- and leaves no closure, so that BWLDTestComplete is not called for it, and the class has one more
-- pending test than before.
pub check_test_policy-no_time :
    (w : World) (child : Child) (id : ℕ) (q : TestRequest) (fuzz ttl : ℕ) (b : Broker) (e : Entry)
    → Linked w child id b
    → TestFits child q fuzz
    → entry_of lim_pending b.classes id ≡ some e
    → e.value ≢ 0
    → e.used + 1 < u64_mod
    → limits_allow child id q fuzz ≡ true
    → ttl_allowed child id q ≡ some ttl
    → (resource_demand mesg_request one_pending b.classes id).1 ≡ true
    → is_granted (demanded w child id (with_ttl q ttl) fuzz (counted id b)).1 ≡ false
    → (closure_of (check_test_policy w child none q fuzz b).1 ≡ none)
      × (entry_of lim_pending (check_test_policy w child none q fuzz b).0.classes id
          ≡ some (record e { used = e.used + 1 }))
check_test_policy-no_time w child id q fuzz ttl b e l f h limited small fit sent ok refusal =
    let q' = with_ttl q ttl in
    let b' = counted id b in
    rw (check_test_policy-settled w child id q fuzz ttl b l f fit sent ok) (
      not_granted (info_of id q') q'
          (port_behind (env_of w b' id) (query_for child (info_of id q') q' fuzz) (state_of b'))
          (demanded w child id q' fuzz b').1 refusal,
      counted_one b id e h limited small ok,
    )
