-- ===== src/Ipc/Complete.antt =====
-- bwctld/policy.c: the end of a test, BWLDSendTestComplete and BWLDReadTestComplete.
use bwctl.Prelude.{ℕ, Option, none, some, List, ◌++◌, if◌then◌else◌}
use bwctl.Bytes.{sub}
use bwctl.Bytes.Host.{le, get_le}
use bwctl.Ipc.{mesg_mark, mesg_complete, read_ni, has_mark}

-- BWLDSendTestComplete: what is written.
unfoldable pub complete_message : List ℕ → ℕ → List ℕ
complete_message sid aval =
    le 4 mesg_mark ++ (le 4 mesg_complete ++ (sid ++ (le 4 aval ++ le 4 mesg_mark)))

-- BWLDReadTestComplete: the session id and the accept value, or `none` where it returns False; and
-- what is left in the pipe.
unfoldable pub read_test_complete : List ℕ → Option (List ℕ × ℕ) × List ℕ
unfolding read_ni
read_test_complete pipe =
    let (read, rest) = read_ni 24 pipe in
    (
      elim read [
        | none ↦ none
        | some buf ↦ if has_mark 20 buf then some (sub 0 16 buf, get_le 16 4 buf) else none
      ],
      rest,
    )
