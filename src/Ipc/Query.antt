-- ===== src/Ipc/Query.antt =====
-- bwctld/policy.c: the query of a resource, BWLDQuery and BWLDReadQuery.
use bwctl.Prelude.{ℕ, Bool, Option, none, some, List, ◌++◌, ◌==◌, if◌then◌else◌, ◌&&◌, ◌||◌}
use bwctl.Bytes.Host.{le, get_le}
use bwctl.Policy.{LimRec}
use bwctl.Policy.Demand.{mesg_request, mesg_release, mesg_claim}
use bwctl.Ipc.{mesg_mark, mesg_resource, read_ni, has_mark}

-- BWLDQuery: what is written.
unfoldable pub query_message : ℕ → LimRec → List ℕ
query_message mesg lim =
    le 4 mesg_mark
    ++ (le 4 mesg_resource ++ (le 4 mesg ++ (le 4 lim.limit ++ (le 8 lim.value ++ le 4 mesg_mark))))

abbrev is_query : ℕ → Bool
is_query query = query == mesg_request || (query == mesg_release || query == mesg_claim)

-- BWLDReadQuery: `none` where it returns False, and what is left in the pipe.
unfoldable pub read_query : List ℕ → Option (ℕ × LimRec) × List ℕ
unfolding read_ni
read_query pipe =
    let (read, rest) = read_ni 20 pipe in
    (
      elim read [
        | none ↦ none
        | some buf ↦
            let query = get_le 0 4 buf in
            if has_mark 16 buf && is_query query
            then some (query, record { limit = get_le 4 4 buf; value = get_le 8 8 buf })
            else none
      ],
      rest,
    )
