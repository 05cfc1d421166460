-- ===== src/Ipc/ReservationQuery.antt =====
-- bwctld/policy.c: the query of a reservation and its response (BWLDReservationQuery,
-- BWLDReadReservationQuery, BWLDSendReservationResponse, BWLDReadReservationResponse).
use bwctl.Prelude.{ℕ, Option, none, some, List, [], ◌∷◌, ◌++◌, ◌&&◌, if◌then◌else◌}
use bwctl.Bytes.{Buffer, sub}
use bwctl.Bytes.Host.{le, get_le}
use bwctl.Reservation.{Request}
use bwctl.Ipc.{mesg_mark, mesg_reservation, mesg_invalid, read_ni, has_mark}

-- BWLDReservationQuery: what is written. The addresses are arrays of 46 bytes (INET6_ADDRSTRLEN).
unfoldable pub reservation_message : Request → List ℕ
reservation_message q =
    le 4 mesg_mark
    ++ (le 4 mesg_reservation
        ++ (q.sid
            ++ (le 8 q.rtime
                ++ (le 8 q.ftime
                    ++ (le 8 q.ltime
                        ++ (le 4 q.duration
                            ++ (le 8 q.rtttime
                                ++ (le 2 q.toolport
                                    ++ (0 ∷ 0 ∷ []
                                        ++ (le 4 q.tool_id
                                            ++ (q.sender
                                                ++ (q.receiver ++ le 4 mesg_mark))))))))))))

-- The fields at their offsets.
abbrev request_at : Buffer → Request
request_at buf = record {
  sid = sub 0 16 buf;
  rtime = get_le 16 8 buf;
  ftime = get_le 24 8 buf;
  ltime = get_le 32 8 buf;
  duration = get_le 40 4 buf;
  rtttime = get_le 44 8 buf;
  toolport = get_le 52 2 buf;
  tool_id = get_le 56 4 buf;
  sender = sub 60 46 buf;
  receiver = sub 106 46 buf;
}

-- BWLDReadReservationQuery: `none` where it returns False, and what is left in the pipe.
unfoldable pub read_reservation_query : List ℕ → Option Request × List ℕ
unfolding read_ni
read_reservation_query pipe =
    let (read, rest) = read_ni 156 pipe in
    (
      elim read [
        | none ↦ none
        | some buf ↦ if has_mark 152 buf then some (request_at buf) else none
      ],
      rest,
    )

-- BWLDSendReservationResponse: what is written.
unfoldable pub send_reservation_response : ℕ → ℕ → ℕ → List ℕ
send_reservation_response mesg reservation toolport =
    le 4 mesg_mark
    ++ (le 4 mesg ++ (le 8 reservation ++ (le 2 toolport ++ (0 ∷ 0 ∷ [] ++ le 4 mesg_mark))))

-- BWLDReadReservationResponse: the message, what is read of the reservation and the port, and the
-- pipe. With a wrong mark or a short read it returns False, which is BWLDMESGINVALID.
unfoldable pub read_reservation_response : List ℕ → ℕ × Option (ℕ × ℕ) × List ℕ
unfolding read_ni
read_reservation_response pipe =
    let (read, rest) = read_ni 24 pipe in
    elim read [
      | none ↦ (mesg_invalid, none, rest)
      | some buf ↦
          if has_mark 0 buf && has_mark 20 buf
          then (get_le 4 4 buf, some (get_le 8 8 buf, get_le 16 2 buf), rest)
          else (mesg_invalid, none, rest)
    ]
