-- ===== src/Ipc.antt =====
-- bwctld/policy.c, the messages between a child and the daemon on their pipe, as bwctld/policy.h
-- lays them out, and the dispatcher that serves them, CheckFD of bwctld/bwctld.c. A pipe is the
-- list of the bytes that are in it, oldest first. Numbers have the order of the host (both ends are
-- on one host), and a read that is cut short takes what there is.
pub mod Class
pub mod Query
pub mod ReservationQuery
pub mod Complete
pub mod Dispatch
pub mod Exchange
pub mod Ask
pub mod Settle
pub mod Decide
pub mod Effects
pub mod System
mod Tests
use bwctl.Prelude.{
  ℕ, Bool, true, false, Option, none, some, List, [], ◌∷◌, ◌++◌, ◌==◌, if◌then◌else◌, ◌&&◌,
}
use bwctl.Bytes.{Buffer, nth, split}
use bwctl.Bytes.Host.{le, get_le}

-- BWLDMESGMARK and the tags of the messages.
abbrev pub mesg_mark : ℕ
mesg_mark = 0xfefefefe

abbrev pub mesg_class : ℕ
mesg_class = 0xcdef

abbrev pub mesg_resource : ℕ
mesg_resource = 0xbeef

abbrev pub mesg_reservation : ℕ
mesg_reservation = 0xdeadbeef

abbrev pub mesg_complete : ℕ
mesg_complete = 0xabcdefab

abbrev pub mesg_invalid : ℕ
mesg_invalid = 0

abbrev pub mesg_ok : ℕ
mesg_ok = 1

abbrev pub mesg_denied : ℕ
mesg_denied = 2

-- I2Readni of n bytes: the buffer, or `none` on a short read, and what is left in the pipe.
unfoldable pub read_ni : ℕ → List ℕ → Option Buffer × List ℕ
unfolding split
read_ni n pipe = elim (split n pipe) [
  | none ↦ (none, [])
  | some (bytes, rest) ↦ (some (nth bytes), rest)
]

-- A mark at an offset of a message.
abbrev pub has_mark : ℕ → Buffer → Bool
has_mark off buf = get_le off 4 buf == mesg_mark

-- BWLDSendResponse: what is written.
unfoldable pub send_response : ℕ → List ℕ
send_response mesg = le 4 mesg_mark ++ (le 4 mesg ++ le 4 mesg_mark)

-- BWLDReadResponse: the message, and what is left in the pipe.
unfoldable pub read_response : List ℕ → ℕ × List ℕ
unfolding read_ni
read_response pipe =
    let (read, rest) = read_ni 12 pipe in
    (
      elim read [
        | none ↦ mesg_invalid
        | some buf ↦ if has_mark 0 buf && has_mark 8 buf then get_le 4 4 buf else mesg_invalid
      ],
      rest,
    )

-- BWLDReadReqType: the request type or 0, whether err is set, and what is left in the pipe.
pub read_req_type : List ℕ → ℕ × Bool × List ℕ
unfolding read_ni
read_req_type [] = (0, false, [])
read_req_type (b ∷ pipe) =
    let (read, rest) = read_ni 8 (b ∷ pipe) in
    elim read [
      | none ↦ (0, true, rest)
      | some buf ↦ if has_mark 0 buf then (get_le 4 4 buf, false, rest) else (0, true, rest)
    ]
