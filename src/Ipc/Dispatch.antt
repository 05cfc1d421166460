-- ===== src/Ipc/Dispatch.antt =====
-- bwctld/bwctld.c: CheckFD, which reads one message of a child and does what it asks for.
use bwctl.Prelude.{ℕ, Bool, true, false, not, Option, none, some, List, [], ◌==◌, if◌then◌else◌}
use bwctl.Tools.{Tool}
use bwctl.Schedule.{TimeSlot}
use bwctl.Policy.{LimRec, PolicyNode, lim_event_horizon, get_node, get_fixed_limit}
use bwctl.Policy.Demand.{resource_demand}
use bwctl.Reservation.{
  Reservation, Request, Environment, State, Reply, granted, refused, failed, take_reservation,
  reservation_demand, reservation_complete,
}
use bwctl.Ipc.{
  mesg_resource, mesg_reservation, mesg_complete, mesg_ok, mesg_denied, send_response,
  read_req_type,
}
use bwctl.Ipc.Class.{ClassRead, read_class}
use bwctl.Ipc.Query.{read_query}
use bwctl.Ipc.ReservationQuery.{read_reservation_query, send_reservation_response}
use bwctl.Ipc.Complete.{read_test_complete}

-- What the daemon has from elsewhere when it serves a message: its tools, the table of classes, the
-- clock and the tool's port, each of which may fail, and whether the child's pipe can be written.
pub record World : Type 0 where
  pub tools : List Tool
  pub find : List ℕ → Option ℕ
  pub currtime : Option ℕ
  pub init_port : Option ℕ
  pub can_write : Bool

-- The daemon's classes and slots, and of the ChldState its class and reservation.
pub record Broker : Type 0 where
  pub classes : List PolicyNode
  pub slots : List TimeSlot
  pub node : Option ℕ
  pub res : Option Reservation

-- The broker behind a message, what was written to the child, what is left of what it wrote, and
-- err: the child is then sent a SIGTERM.
pub record Served : Type 0 where
  pub broker : Broker
  pub written : List ℕ
  pub rest : List ℕ
  pub err : Bool

abbrev pub dropped : Broker → List ℕ → Served
dropped b rest = record { broker = b; written = []; rest = rest; err = true }

-- A response, whose failure is an error.
abbrev pub responds : World → Broker → List ℕ → List ℕ → Served
responds w b response rest = record {
  broker = b;
  written = if w.can_write then response else [];
  rest = rest;
  err = not w.can_write;
}

abbrev pub verdict : Bool → ℕ
verdict true = mesg_ok
verdict false = mesg_denied

-- The slots and the reservation, as the functions of Reservation take and leave them.
abbrev pub state_of : Broker → State
state_of b = record { slots = b.slots; res = b.res }

abbrev pub with_state : Broker → State → Broker
with_state b st = record b { slots = st.slots; res = st.res }

-- BWLDGetFixedLimit of the event horizon, at the child's class.
abbrev pub horizon : Broker → ℕ → Option ℕ
horizon b id = elim (get_node b.classes id) [
  | none ↦ none
  | some node ↦ get_fixed_limit node lim_event_horizon
]

abbrev pub env_of : World → Broker → ℕ → Environment
env_of w b id = record { hsecs = horizon b id; currtime = w.currtime; init_port = w.init_port }

-- *toolport behind ChldReservationDemand.
abbrev pub port_behind : Environment → Request → State → ℕ
port_behind env q st = elim (take_reservation env q st) [
  | none ↦ q.toolport
  | some (slots, r) ↦ r.toolport
]

-- The case BWLDMESGRESOURCE.
unfoldable pub serve_query : World → Broker → ℕ → ℕ → LimRec → List ℕ → Served
serve_query w b id query lim rest =
    let (classes, ok) = resource_demand query lim b.classes id in
    responds w (record b { classes = classes }) (send_response (verdict ok)) rest

-- The case BWLDMESGRESERVATION, by what ChldReservationDemand replies.
abbrev pub answer_reservation : World → Broker → ℕ → Reply → List ℕ → Served
answer_reservation w b port (granted time toolport) rest =
    responds w b (send_reservation_response mesg_ok time toolport) rest
answer_reservation w b port (refused time) rest =
    responds w b (send_reservation_response mesg_denied time port) rest
answer_reservation w b port failed rest = dropped b rest

unfoldable pub serve_reservation : World → Broker → ℕ → Request → List ℕ → Served
serve_reservation w b id q rest =
    let env = env_of w b id in
    let (st, reply) = reservation_demand w.tools env q (state_of b) in
    answer_reservation w (with_state b st) (port_behind env q (state_of b)) reply rest

-- The case BWLDMESGCOMPLETE. ChldReservationComplete leaves err set also where it returns True, but
-- then the response overwrites it.
unfoldable pub serve_complete : World → Broker → List ℕ → List ℕ → Served
serve_complete w b sid rest =
    let (st, ok) = reservation_complete sid (state_of b) in
    if ok
    then responds w (with_state b st) (send_response mesg_ok) rest
    else dropped (with_state b st) rest

-- What follows a message that was read, or `none` where its reading failed.
unfoldable pub after_query : World → Broker → ℕ → Option (ℕ × LimRec) × List ℕ → Served
after_query w b id (none, rest) = dropped b rest
after_query w b id (some (mesg, lim), rest) = serve_query w b id mesg lim rest

unfoldable pub after_reservation : World → Broker → ℕ → Option Request × List ℕ → Served
after_reservation w b id (none, rest) = dropped b rest
after_reservation w b id (some q, rest) = serve_reservation w b id q rest

unfoldable pub after_complete : World → Broker → Option (List ℕ × ℕ) × List ℕ → Served
after_complete w b (none, rest) = dropped b rest
after_complete w b (some (sid, aval), rest) = serve_complete w b sid rest

-- The message of a child that has a class, by its type. A type that is none of the three is passed
-- over.
unfoldable pub serve : World → Broker → ℕ → ℕ → List ℕ → Served
unfolding after_query after_reservation after_complete
serve w b id type pipe =
    if type == mesg_resource
    then after_query w b id (read_query pipe)
    else if type == mesg_reservation
    then after_reservation w b id (read_reservation_query pipe)
    else if type == mesg_complete
    then after_complete w b (read_test_complete pipe)
    else record { broker = b; written = []; rest = pipe; err = false }

-- By the type that was read, whether err is set, and what is left.
unfoldable pub after_type : World → Broker → ℕ → ℕ × Bool × List ℕ → Served
unfolding serve
after_type w b id (type, true, rest) = dropped b rest
after_type w b id (type, false, rest) = serve w b id type rest

-- The first message.
abbrev pub admit : Broker → ClassRead → Served
admit b c = record {
  broker = record b { node = c.node };
  written = c.written;
  rest = c.rest;
  err = c.err;
}

-- CheckFD with the child's class.
unfoldable pub dispatch : World → Broker → List ℕ → Option ℕ → Served
unfolding read_class read_req_type after_type
dispatch w b pipe none = admit b (read_class w.find w.can_write pipe)
dispatch w b pipe (some id) = after_type w b id (read_req_type pipe)

-- CheckFD, for a child whose pipe can be read: its messages so far are `pipe`.
unfoldable pub check_fd : World → Broker → List ℕ → Served
unfolding dispatch
check_fd w b pipe = dispatch w b pipe b.node
