-- ===== src/Ipc/Exchange.antt =====
-- bwctld/policy.c and bwctld/bwctld.c: the messages of a child as the daemon reads them, and the
-- responses as the child reads them.
use mathlib.Core.Path.{subst}
use bwctl.Prelude.{ℕ, ◌<◌, ◌≡◌, ◌⊎◌, refl, inl, inr, some, List, ◌++◌, length, drop}
use bwctl.Num64.{u32_mod, u64_mod}
use bwctl.Bytes.{Buffer, nth, sub}
use bwctl.Bytes.Stream.{sub-nth}
use bwctl.Bytes.Host.{le, from_le-le2, from_le-le4, from_le-le8}
use bwctl.Policy.{LimRec}
use bwctl.Policy.Demand.{mesg_request, mesg_release}
use bwctl.Reservation.{Request}
use bwctl.Ipc.Ask.{RequestFits}
use bwctl.Ipc.{mesg_mark, send_response, read_response}
use bwctl.Ipc.Query.{read_query}
use bwctl.Ipc.ReservationQuery.{
  reservation_message, read_reservation_query, send_reservation_response, read_reservation_response,
}
use bwctl.Ipc.Complete.{read_test_complete}

pub read_query_lem :
    (mesg : ℕ) (lim : LimRec) (rest : List ℕ)
    → (mesg ≡ mesg_request) ⊎ (mesg ≡ mesg_release)
    → lim.limit < u32_mod
    → lim.value < u64_mod
    → read_query ((le 4 mesg ++ (le 4 lim.limit ++ (le 8 lim.value ++ le 4 mesg_mark))) ++ rest)
      ≡ (some (mesg, lim), rest)
unfolding read_query
read_query_lem mesg lim rest (inl h) limit value =
    rw h (rw (from_le-le4 lim.limit limit) (rw (from_le-le8 lim.value value) refl))
read_query_lem mesg lim rest (inr h) limit value =
    rw h (rw (from_le-le4 lim.limit limit) (rw (from_le-le8 lim.value value) refl))

pub read_response-send_response :
    (mesg : ℕ) (rest : List ℕ)
    → mesg < u32_mod
    → read_response (send_response mesg ++ rest) ≡ (mesg, rest)
unfolding read_response send_response
read_response-send_response mesg rest h = rw (from_le-le4 mesg h) refl

read_test_complete_buffer :
    (s : Buffer) (aval : ℕ) (rest : List ℕ)
    → aval < u32_mod
    → read_test_complete ((sub 0 16 s ++ (le 4 aval ++ le 4 mesg_mark)) ++ rest)
      ≡ (some (sub 0 16 s, aval), rest)
unfolding read_test_complete
read_test_complete_buffer s aval rest h = rw (from_le-le4 aval h) refl

pub read_test_complete_lem :
    (sid : List ℕ) (aval : ℕ) (rest : List ℕ)
    → length sid ≡ 16
    → aval < u32_mod
    → read_test_complete ((sid ++ (le 4 aval ++ le 4 mesg_mark)) ++ rest) ≡ (some (sid, aval), rest)
read_test_complete_lem sid aval rest wide h =
    subst
      (λ s.
        read_test_complete ((s ++ (le 4 aval ++ le 4 mesg_mark)) ++ rest) ≡ (some (s, aval), rest))
      (sub-nth sid 16 wide) (read_test_complete_buffer (nth sid) aval rest h)

-- The fields of a reservation's query behind its header, with the texts and the session id as they
-- stand in buffers.
abbrev in_buffers : Request → Buffer → Buffer → Buffer → Request
in_buffers q s x y = record q { sid = sub 0 16 s; sender = sub 0 46 x; receiver = sub 0 46 y }

read_reservation_query_buffers :
    (q : Request) (s x y : Buffer) (rest : List ℕ)
    → RequestFits q
    → read_reservation_query ((drop 8 (reservation_message (in_buffers q s x y))) ++ rest)
      ≡ (some (in_buffers q s x y), rest)
unfolding read_reservation_query reservation_message
read_reservation_query_buffers q s x y rest h = rw (from_le-le8 q.rtime h.rtime) (
    rw (from_le-le8 q.ftime h.ftime) (
      rw (from_le-le8 q.ltime h.ltime) (
        rw (from_le-le4 q.duration h.duration) (
          rw (from_le-le8 q.rtttime h.rtttime)
            (rw (from_le-le2 q.toolport h.toolport) (rw (from_le-le4 q.tool_id h.tool_id) refl))))))

in_buffers-nth :
    (q : Request) → RequestFits q → in_buffers q (nth q.sid) (nth q.sender) (nth q.receiver) ≡ q
in_buffers-nth q h i = record q {
  sid = sub-nth q.sid 16 h.sid i;
  sender = sub-nth q.sender 46 h.sender i;
  receiver = sub-nth q.receiver 46 h.receiver i;
}

pub read_reservation_query_lem :
    (q : Request) (rest : List ℕ)
    → RequestFits q
    → read_reservation_query (drop 8 (reservation_message q) ++ rest) ≡ (some q, rest)
read_reservation_query_lem q rest h =
    subst (λ r. read_reservation_query (drop 8 (reservation_message r) ++ rest) ≡ (some r, rest))
      (in_buffers-nth q h)
      (read_reservation_query_buffers q (nth q.sid) (nth q.sender) (nth q.receiver) rest h)

pub read-send_reservation_response :
    (mesg reservation toolport : ℕ) (rest : List ℕ)
    → mesg < u32_mod
    → reservation < u64_mod
    → toolport < 0x10000
    → read_reservation_response (send_reservation_response mesg reservation toolport ++ rest)
      ≡ (mesg, some (reservation, toolport), rest)
unfolding read_reservation_response send_reservation_response
read-send_reservation_response mesg reservation toolport rest hm hr ht =
    rw (from_le-le4 mesg hm) (rw (from_le-le8 reservation hr) (rw (from_le-le2 toolport ht) refl))
