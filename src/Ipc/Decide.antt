-- ===== src/Ipc/Decide.antt =====
-- bwctld/bwctld.c and bwctld/policy.c: what a child asks for over its pipe is what the daemon
-- decides.
use bwctl.Prelude.{
  ℕ, ◌<◌, ◌≡◌, refl, sym, ap, ◌∙◌, Bool, true, false, Option, none, some, List, [], arith,
  if◌then◌else◌,
}
use mathlib.Core.List.{append-nil}
use bwctl.Num64.{u32_mod, u64_mod}
use bwctl.Policy.{LimRec}
use bwctl.Policy.Demand.{resource_demand}
use bwctl.Schedule.{TimeSlot}
use bwctl.Reservation.{
  Reservation, Environment, Request, Reply, granted, refused, failed, State, take_reservation,
  reservation_demand, reservation_complete,
}
use bwctl.Reservation.Width.{
  reply_time, reply_port, PortFits, taken_port, take_reservation_port, reservation_demand_width,
}
use bwctl.Ipc.{mesg_ok, mesg_denied, mesg_invalid, send_response, read_response}
use bwctl.Ipc.ReservationQuery.{send_reservation_response, read_reservation_response}
use bwctl.Ipc.Dispatch.{
  World, Broker, Served, check_fd, serve_query, serve_reservation, serve_complete, env_of, state_of,
  with_state, answer_reservation, port_behind, verdict, dropped, responds,
}
use bwctl.Ipc.Ask.{
  Ask, resource, reservation, complete, message, read_answer, ask, AskFits, settle, answer_of,
  decide,
}
use bwctl.Ipc.Exchange.{read_response-send_response, read-send_reservation_response}
use bwctl.Ipc.Settle.{check_fd-message}

-- What the child has of what was served.
abbrev heard : Ask → Served → Broker × ℕ × Option (ℕ × ℕ)
heard a s = (s.broker, (read_answer a s.written).0, (read_answer a s.written).1)

-- The message of a child alone in its pipe.
ask-settle :
    (w : World) (b : Broker) (id : ℕ) (a : Ask)
    → b.node ≡ some id
    → AskFits a
    → ask w b a ≡ heard a (settle w b id a [])
unfolding ask
ask-settle w b id a known fits =
    ap (heard a)
      (ap (check_fd w b) (sym (append-nil (message a))) ∙ check_fd-message w b id a [] known fits)

read_sent : (mesg : ℕ) → mesg < u32_mod → (read_response (send_response mesg)).0 ≡ mesg
read_sent mesg h =
    ap (λ (pipe : List ℕ). (read_response pipe).0) (sym (append-nil (send_response mesg)))
    ∙ ap (λ (x : ℕ × List ℕ). x.0) (read_response-send_response mesg [] h)

verdict_width : (ok : Bool) → verdict ok < u32_mod
verdict_width true = omega arith
verdict_width false = omega arith

heard-query :
    (w : World) (b : Broker) (id mesg : ℕ) (lim : LimRec)
    → w.can_write ≡ true
    → heard (resource mesg lim) (serve_query w b id mesg lim []) ≡ decide w b id (resource mesg lim)
unfolding serve_query decide
heard-query w b id mesg lim can =
    let (classes, ok) = resource_demand mesg lim b.classes id in
    rw can (
      ap (λ (x : ℕ). (record b { classes = classes }, x, none))
        (read_sent (verdict ok) (verdict_width ok)))

port_behind_width :
    (env : Environment) (q : Request) (st : State)
    → PortFits env.init_port
    → q.toolport < 0x10000
    → port_behind env q st < 0x10000
port_behind_width env q st h p =
    port_of (take_reservation env q st) (take_reservation_port env q st h p) p
  where
    port_of :
        (taken : Option (List TimeSlot × Reservation))
        → taken_port taken < 0x10000
        → q.toolport < 0x10000
        → (elim taken [ none ↦ q.toolport | some (slots, r) ↦ r.toolport ]) < 0x10000
    port_of none h' p' = p'
    port_of (some (slots, r)) h' p' = h'

read_reservation_sent :
    (mesg time port : ℕ)
    → mesg < u32_mod
    → time < u64_mod
    → port < 0x10000
    → read_reservation_response (send_reservation_response mesg time port)
      ≡ (mesg, some (time, port), [])
read_reservation_sent mesg time port hm ht hp =
    ap read_reservation_response (sym (append-nil (send_reservation_response mesg time port)))
    ∙ read-send_reservation_response mesg time port [] hm ht hp

-- A reply as it is heard.
heard-reply :
    (w : World) (b : Broker) (q : Request) (port : ℕ) (reply : Reply)
    → w.can_write ≡ true
    → reply_time reply < u64_mod
    → reply_port reply < 0x10000
    → port < 0x10000
    → heard (reservation q) (answer_reservation w b port reply [])
      ≡ (b, (answer_of port reply).0, (answer_of port reply).1)
heard-reply w b q port (granted time toolport) can ht hp hq = rw can (
    ap (λ (x : ℕ × Option (ℕ × ℕ) × List ℕ). (b, x.0, x.1))
      (read_reservation_sent mesg_ok time toolport (omega arith) ht hp))
heard-reply w b q port (refused time) can ht hp hq = rw can (
    ap (λ (x : ℕ × Option (ℕ × ℕ) × List ℕ). (b, x.0, x.1))
      (read_reservation_sent mesg_denied time port (omega arith) ht hq))
heard-reply w b q port failed can ht hp hq = unfold read_reservation_response in refl

heard-reservation :
    (w : World) (b : Broker) (id : ℕ) (q : Request)
    → w.can_write ≡ true
    → PortFits w.init_port
    → q.toolport < 0x10000
    → heard (reservation q) (serve_reservation w b id q []) ≡ decide w b id (reservation q)
unfolding serve_reservation decide
heard-reservation w b id q can ports port =
    let env = env_of w b id in
    let (st, reply) = reservation_demand w.tools env q (state_of b) in
    let (ht, hp) = reservation_demand_width w.tools env q (state_of b) ports port in
    heard-reply w (with_state b st) q (port_behind env q (state_of b)) reply can ht hp
      (port_behind_width env q (state_of b) ports port)

-- The end of a session: heard, or cut off by a signal.
heard-done :
    (w : World) (b : Broker) (sid : List ℕ) (aval : ℕ) (ok : Bool)
    → w.can_write ≡ true
    → heard
        (complete sid aval)
        (if ok then responds w b (send_response mesg_ok) [] else dropped b [])
      ≡ (b, if ok then mesg_ok else mesg_invalid, none)
heard-done w b sid aval true can =
    rw can (ap (λ (x : ℕ). (b, x, none)) (read_sent mesg_ok (omega arith)))
heard-done w b sid aval false can = unfold read_response in refl

heard-complete :
    (w : World) (b : Broker) (id aval : ℕ) (sid : List ℕ)
    → w.can_write ≡ true
    → heard (complete sid aval) (serve_complete w b sid []) ≡ decide w b id (complete sid aval)
unfolding serve_complete decide
heard-complete w b id aval sid can =
    let (st, ok) = reservation_complete sid (state_of b) in
    heard-done w (with_state b st) sid aval ok can

abbrev PortOf : World → Ask → Type 0
PortOf w (reservation q) = PortFits w.init_port
PortOf w _ = Unit {0}

-- Over its pipe, whatever a child that has a class asks for, with fields within their widths, the
-- daemon decides as it would without a pipe, and the child has the answer: OK or DENIED for a
-- resource, the time and port of a reservation that is granted, and nothing but a signal where
-- ChldReservationDemand or ChldReservationComplete fails. The daemon can write its response, and a
-- port that a tool picks is below 2^16.
pub ask-decide :
    (w : World) (b : Broker) (id : ℕ) (a : Ask)
    → b.node ≡ some id
    → w.can_write ≡ true
    → PortOf w a
    → AskFits a
    → ask w b a ≡ decide w b id a
ask-decide w b id (resource mesg lim) known can ports fits =
    ask-settle w b id (resource mesg lim) known fits
    ∙ unfold settle in heard-query w b id mesg lim can
ask-decide w b id (reservation q) known can ports fits =
    ask-settle w b id (reservation q) known fits
    ∙ unfold settle in heard-reservation w b id q can ports fits.toolport
ask-decide w b id (complete sid aval) known can ports fits =
    ask-settle w b id (complete sid aval) known fits
    ∙ unfold settle in heard-complete w b id aval sid can
