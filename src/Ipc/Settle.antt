-- ===== src/Ipc/Settle.antt =====
-- bwctld/bwctld.c and bwctld/policy.c: CheckFD does what a child's message asks for, and the child
-- has the answer.
use bwctl.Prelude.{ℕ, ◌≡◌, refl, ap, ◌∙◌, false, some, List, ◌++◌, drop}
use bwctl.Policy.{LimRec}
use bwctl.Reservation.{Request}
use bwctl.Ipc.{mesg_resource, mesg_reservation, mesg_complete, mesg_mark, read_req_type}
use bwctl.Bytes.Host.{le}
use bwctl.Ipc.Query.{query_message}
use bwctl.Ipc.ReservationQuery.{reservation_message}
use bwctl.Ipc.Complete.{complete_message}
use bwctl.Ipc.Dispatch.{
  World, Broker, serve_query, serve_reservation, serve_complete, after_query, after_reservation,
  after_complete, serve, after_type, dispatch, check_fd,
}
use bwctl.Ipc.Ask.{Ask, resource, reservation, complete, message, AskFits, RequestFits, settle}
use bwctl.Ipc.Exchange.{read_query_lem, read_test_complete_lem, read_reservation_query_lem}

-- A message whose type is read is served by its type.
check_fd-typed :
    (w : World) (b : Broker) (id type : ℕ) (pipe rest : List ℕ)
    → b.node ≡ some id
    → read_req_type pipe ≡ (type, false, rest)
    → check_fd w b pipe ≡ serve w b id type rest
unfolding check_fd dispatch after_type
check_fd-typed w b id type pipe rest known typed =
    ap (dispatch w b pipe) known ∙ ap (after_type w b id) typed

check_fd-query :
    (w : World) (b : Broker) (id mesg : ℕ) (lim : LimRec) (rest : List ℕ)
    → b.node ≡ some id
    → AskFits (resource mesg lim)
    → check_fd w b (query_message mesg lim ++ rest) ≡ serve_query w b id mesg lim rest
unfolding query_message read_req_type
check_fd-query w b id mesg lim rest known (query, limit, value) =
    check_fd-typed w b id mesg_resource (query_message mesg lim ++ rest) _ known refl
    ∙ unfold serve after_query in
      ap (after_query w b id) (read_query_lem mesg lim rest query limit value)

check_fd-complete :
    (w : World) (b : Broker) (id aval : ℕ) (sid rest : List ℕ)
    → b.node ≡ some id
    → AskFits (complete sid aval)
    → check_fd w b (complete_message sid aval ++ rest) ≡ serve_complete w b sid rest
unfolding complete_message read_req_type
check_fd-complete w b id aval sid rest known (wide, fits) =
    check_fd-typed w b id mesg_complete (complete_message sid aval ++ rest)
      ((sid ++ (le 4 aval ++ le 4 mesg_mark)) ++ rest) known refl
    ∙ unfold serve after_complete in
      ap (after_complete w b) (read_test_complete_lem sid aval rest wide fits)

check_fd-reservation :
    (w : World) (b : Broker) (id : ℕ) (q : Request) (rest : List ℕ)
    → b.node ≡ some id
    → RequestFits q
    → check_fd w b (reservation_message q ++ rest) ≡ serve_reservation w b id q rest
check_fd-reservation w b id q rest known fits =
    check_fd-typed w b id mesg_reservation (reservation_message q ++ rest)
      (drop 8 (reservation_message q) ++ rest) known
      (unfold reservation_message read_req_type in refl)
    ∙ unfold serve after_reservation in
      ap (after_reservation w b id) (read_reservation_query_lem q rest fits)

-- Of a message that a child with a class wrote, with its fields within their widths, the daemon
-- reads the whole and nothing of what follows, and does what the message asks for.
pub check_fd-message :
    (w : World) (b : Broker) (id : ℕ) (a : Ask) (rest : List ℕ)
    → b.node ≡ some id
    → AskFits a
    → check_fd w b (message a ++ rest) ≡ settle w b id a rest
unfolding settle
check_fd-message w b id (resource mesg lim) rest known fits =
    check_fd-query w b id mesg lim rest known fits
check_fd-message w b id (reservation q) rest known fits =
    check_fd-reservation w b id q rest known fits
check_fd-message w b id (complete sid aval) rest known fits =
    check_fd-complete w b id aval sid rest known fits
