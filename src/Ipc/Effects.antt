-- ===== src/Ipc/Effects.antt =====
-- bwctld/bwctld.c: what CheckFD can change, whatever a child has written.
use bwctl.Prelude.{
  ℕ, ◌≡◌, refl, Bool, true, false, Option, none, some, List, ◌==◌, Bool-cases, inl, inr,
  if◌then◌else◌,
}
use bwctl.Policy.{LimRec}
use bwctl.Policy.Demand.{resource_demand}
use bwctl.Reservation.{
  Request, Reply, granted, refused, failed, reservation_demand, reservation_complete,
}
use bwctl.Reservation.Daemon.{Event, demand, complete, handle}
use bwctl.Ipc.{
  mesg_resource, mesg_reservation, mesg_complete, mesg_ok, send_response, read_req_type,
}
use bwctl.Ipc.Query.{read_query}
use bwctl.Ipc.ReservationQuery.{read_reservation_query}
use bwctl.Ipc.Complete.{read_test_complete}
use bwctl.Ipc.Dispatch.{
  World, Broker, serve_query, serve_reservation, serve_complete, after_query, after_reservation,
  after_complete, serve, after_type, dispatch, check_fd, env_of, state_of, with_state, port_behind,
  answer_reservation, responds, dropped,
}

-- The event of the child that a message is, if it is one: a demand or a completion.
abbrev event_of_request : World → Broker → ℕ → Option Request × List ℕ → Option Event
event_of_request w b id (none, rest) = none
event_of_request w b id (some q, rest) = some (demand (env_of w b id) q)

abbrev event_of_end : Option (List ℕ × ℕ) × List ℕ → Option Event
event_of_end (none, rest) = none
event_of_end (some (sid, aval), rest) = some (complete sid)

abbrev event_of_type : World → Broker → ℕ → ℕ → List ℕ → Option Event
event_of_type w b id type pipe =
    if type == mesg_resource
    then none
    else if type == mesg_reservation
    then event_of_request w b id (read_reservation_query pipe)
    else if type == mesg_complete
    then event_of_end (read_test_complete pipe)
    else none

abbrev event_of_read : World → Broker → ℕ → ℕ × Bool × List ℕ → Option Event
event_of_read w b id (type, true, rest) = none
event_of_read w b id (type, false, rest) = event_of_type w b id type rest

abbrev event_at : World → Broker → List ℕ → Option ℕ → Option Event
event_at w b pipe none = none
event_at w b pipe (some id) = event_of_read w b id (read_req_type pipe)

unfoldable pub event_of : World → Broker → List ℕ → Option Event
event_of w b pipe = event_at w b pipe b.node

-- Nothing changes; or a child without a class gets one; or one demand is made of the classes, from
-- the child's own class; or the event of the child happens to the slots and its reservation.
pub data Effect (w : World) (b : Broker) (event : Option Event) (b' : Broker) : Type 0 where
  nothing : event ≡ none → b' ≡ b → Effect w b event b'
  admitted :
      (node : Option ℕ)
      → event ≡ none
      → b.node ≡ none
      → b' ≡ record b { node = node }
      → Effect w b event b'
  counted :
      (id mesg : ℕ) (lim : LimRec)
      → event ≡ none
      → b.node ≡ some id
      → b' ≡ record b { classes = (resource_demand mesg lim b.classes id).0 }
      → Effect w b event b'
  moved :
      (id : ℕ) (e : Event)
      → event ≡ some e
      → b.node ≡ some id
      → b' ≡ with_state b (handle w.tools e (state_of b))
      → Effect w b event b'

answer_broker :
    (w : World) (b : Broker) (port : ℕ) (reply : Reply) (rest : List ℕ)
    → (answer_reservation w b port reply rest).broker ≡ b
answer_broker w b port (granted time toolport) rest = refl
answer_broker w b port (refused time) rest = refl
answer_broker w b port failed rest = refl

done_broker :
    (w : World) (b : Broker) (ok : Bool) (response rest : List ℕ)
    → (if ok then responds w b response rest else dropped b rest).broker ≡ b
done_broker w b true response rest = refl
done_broker w b false response rest = refl

module _ (w : World) (b : Broker) (id : ℕ) (known : b.node ≡ some id) where
  after_query-Effect :
      (read : Option (ℕ × LimRec) × List ℕ) → Effect w b none (after_query w b id read).broker
  unfolding after_query serve_query
  after_query-Effect (none, rest) = nothing refl refl
  after_query-Effect (some (mesg, lim), rest) = counted id mesg lim refl known refl

  after_reservation-Effect :
      (read : Option Request × List ℕ)
      → Effect w b (event_of_request w b id read) (after_reservation w b id read).broker
  unfolding after_reservation serve_reservation handle
  after_reservation-Effect (none, rest) = nothing refl refl
  after_reservation-Effect (some q, rest) =
      let env = env_of w b id in
      let (st, reply) = reservation_demand w.tools env q (state_of b) in
      moved id (demand env q) refl known
        (answer_broker w (with_state b st) (port_behind env q (state_of b)) reply rest)

  after_complete-Effect :
      (read : Option (List ℕ × ℕ) × List ℕ)
      → Effect w b (event_of_end read) (after_complete w b read).broker
  unfolding after_complete serve_complete handle
  after_complete-Effect (none, rest) = nothing refl refl
  after_complete-Effect (some (sid, aval), rest) =
      let (st, ok) = reservation_complete sid (state_of b) in
      moved id (complete sid) refl known
        (done_broker w (with_state b st) ok (send_response mesg_ok) rest)

  serve-Effect :
      (type : ℕ) (pipe : List ℕ)
      → Effect w b (event_of_type w b id type pipe) (serve w b id type pipe).broker
  unfolding serve
  serve-Effect type pipe = elim (Bool-cases (type == mesg_resource)) [
    | inl resource ↦ rw resource (after_query-Effect (read_query pipe))
    | inr other ↦ rw other (elim (Bool-cases (type == mesg_reservation)) [
      | inl reserved ↦ rw reserved (after_reservation-Effect (read_reservation_query pipe))
      | inr other' ↦ rw other' (elim (Bool-cases (type == mesg_complete)) [
        | inl completed ↦ rw completed (after_complete-Effect (read_test_complete pipe))
        | inr unknown ↦ rw unknown (nothing refl refl)
      ])
    ])
  ]

  after_type-Effect :
      (typed : ℕ × Bool × List ℕ)
      → Effect w b (event_of_read w b id typed) (after_type w b id typed).broker
  unfolding after_type
  after_type-Effect (type, true, rest) = nothing refl refl
  after_type-Effect (type, false, rest) = serve-Effect type rest

dispatch-Effect :
    (w : World) (b : Broker) (pipe : List ℕ) (node : Option ℕ)
    → b.node ≡ node
    → Effect w b (event_at w b pipe node) (dispatch w b pipe node).broker
unfolding dispatch
dispatch-Effect w b pipe none known = admitted _ refl known refl
dispatch-Effect w b pipe (some id) known = after_type-Effect w b id known (read_req_type pipe)

-- Whatever bytes a child has written, one run of CheckFD does one of four things: it changes
-- nothing; or it sets the class of a child that has none; or, of a child with a class, it makes one
-- demand at that class; or it has the event that it read, a demand or a completion, happen to the
-- slots and the child's own reservation.
pub check_fd-Effect :
    (w : World) (b : Broker) (pipe : List ℕ)
    → Effect w b (event_of w b pipe) (check_fd w b pipe).broker
unfolding check_fd event_of
check_fd-Effect w b pipe = dispatch-Effect w b pipe b.node refl
