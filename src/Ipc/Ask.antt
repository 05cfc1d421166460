-- ===== src/Ipc/Ask.antt =====
-- bwctld/policy.c: what a child asks of the daemon, and what it has of the response.
use bwctl.Prelude.{ℕ, ◌<◌, ◌≡◌, ◌⊎◌, Option, none, some, List, length, if◌then◌else◌}
use bwctl.Num64.{u32_mod, u64_mod}
use bwctl.Policy.{LimRec}
use bwctl.Policy.Demand.{mesg_request, mesg_release, resource_demand}
use bwctl.Reservation.{
  Request, Reply, granted, refused, failed, reservation_demand, reservation_complete,
}
use bwctl.Ipc.{mesg_ok, mesg_denied, mesg_invalid, read_response}
use bwctl.Ipc.Query.{query_message}
use bwctl.Ipc.ReservationQuery.{reservation_message, read_reservation_response}
use bwctl.Ipc.Complete.{complete_message}
use bwctl.Ipc.Dispatch.{
  World, Broker, Served, check_fd, serve_query, serve_reservation, serve_complete, verdict, env_of,
  state_of, with_state, port_behind,
}

-- BWLDQuery, BWLDReservationQuery and BWLDSendTestComplete, with their arguments.
pub data Ask : Type 0 where
  resource : ℕ → LimRec → Ask
  reservation : Request → Ask
  complete : List ℕ → ℕ → Ask

abbrev pub message : Ask → List ℕ
message (resource mesg lim) = query_message mesg lim
message (reservation q) = reservation_message q
message (complete sid aval) = complete_message sid aval

-- The message of the response, and the reservation and port that are read with it.
abbrev pub read_answer : Ask → List ℕ → ℕ × Option (ℕ × ℕ)
read_answer (reservation q) pipe =
    let (mesg, read, rest) = read_reservation_response pipe in (mesg, read)
read_answer _ pipe = ((read_response pipe).0, none)

-- A child writes a message, the daemon serves it, and the child reads the response.
unfoldable pub ask : World → Broker → Ask → Broker × ℕ × Option (ℕ × ℕ)
unfolding check_fd
ask w b a =
    let s = check_fd w b (message a) in
    (s.broker, (read_answer a s.written).0, (read_answer a s.written).1)

-- The fields are within their widths.
pub record RequestFits (q : Request) : Type 0 where
  pub sid : length q.sid ≡ 16
  pub rtime : q.rtime < u64_mod
  pub ftime : q.ftime < u64_mod
  pub ltime : q.ltime < u64_mod
  pub duration : q.duration < u32_mod
  pub rtttime : q.rtttime < u64_mod
  pub toolport : q.toolport < 0x10000
  pub tool_id : q.tool_id < u32_mod
  pub sender : length q.sender ≡ 46
  pub receiver : length q.receiver ≡ 46

abbrev pub AskFits : Ask → Type 0
AskFits (resource mesg lim) =
    ((mesg ≡ mesg_request) ⊎ (mesg ≡ mesg_release)) × (lim.limit < u32_mod) × (lim.value < u64_mod)
AskFits (reservation q) = RequestFits q
AskFits (complete sid aval) = (length sid ≡ 16) × (aval < u32_mod)

-- What is asked for is done, without a pipe between.
unfoldable pub settle : World → Broker → ℕ → Ask → List ℕ → Served
settle w b id (resource mesg lim) rest = serve_query w b id mesg lim rest
settle w b id (reservation q) rest = serve_reservation w b id q rest
settle w b id (complete sid aval) rest = serve_complete w b sid rest

-- What the child is to have of each reply, and of a message that is answered by a signal only.
abbrev pub answer_of : ℕ → Reply → ℕ × Option (ℕ × ℕ)
answer_of port (granted time toolport) = (mesg_ok, some (time, toolport))
answer_of port (refused time) = (mesg_denied, some (time, port))
answer_of port failed = (mesg_invalid, none)

-- The specification of `ask`: the decisions of the daemon, with no bytes in sight.
unfoldable pub decide : World → Broker → ℕ → Ask → Broker × ℕ × Option (ℕ × ℕ)
decide w b id (resource mesg lim) =
    let (classes, ok) = resource_demand mesg lim b.classes id in
    (record b { classes = classes }, verdict ok, none)
decide w b id (reservation q) =
    let env = env_of w b id in
    let (st, reply) = reservation_demand w.tools env q (state_of b) in
    let (mesg, read) = answer_of (port_behind env q (state_of b)) reply in
    (with_state b st, mesg, read)
decide w b id (complete sid aval) =
    let (st, ok) = reservation_complete sid (state_of b) in
    (with_state b st, if ok then mesg_ok else mesg_invalid, none)
