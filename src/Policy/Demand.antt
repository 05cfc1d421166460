-- ===== src/Policy/Demand.antt =====
-- IntegerResourceDemand and BWLDResourceDemand of bwctld/policy.c: requests and releases of a
-- resource at a node and up the tree.
use bwctl.Prelude.{
  ℕ, ◌+◌, ◌-◌, ◌%◌, Bool, true, false, Option, none, some, List, [], ◌∷◌, ltb, ◌==◌, if◌then◌else◌,
  length,
}
use bwctl.Num64.{u64_mod}
use bwctl.Policy.{
  LimType, lim_int, lim_bool, lim_fixed_int, lim_not, LimRec, Entry, PolicyNode, find_entry,
  with_used, limit_kind, get_limit, get_node,
}
use bwctl.Policy.Float.{exceeds}

-- BWLDMESGREQUEST, BWLDMESGRELEASE and BWLDMESGCLAIM
abbrev pub mesg_request : ℕ
mesg_request = 0xfeed

abbrev pub mesg_release : ℕ
mesg_release = 0xdead

abbrev pub mesg_claim : ℕ
mesg_claim = 0x1feed1

abbrev pub is_fixed : LimType → Bool
is_fixed lim_fixed_int = true
is_fixed _ = false

abbrev pub is_int : LimType → Bool
is_int lim_int = true
is_int _ = false

-- IntegerResourceDemand at `node`, which the nodes `older` precede, with its entry for the limit
-- and what the call for its parent did: the older nodes and the result. The call for the parent
-- counts only where the code makes it. Any query but a request or a release is refused, a claim
-- too.
unfoldable pub demand_at :
    ℕ
    → LimRec
    → LimType
    → PolicyNode
    → List PolicyNode
    → List PolicyNode × Bool
    → Option Entry
    → List PolicyNode × Bool
demand_at query lim kind node older up none = (node ∷ older, true)
demand_at query lim kind node older (older', ok) (some e) =
    if e.value == 0
    then (node ∷ older', ok)
    else if query == mesg_release
    then (if is_fixed kind
        then (node ∷ older, true)
        else if ltb e.used lim.value
        then (node ∷ older, false)
        else if ok
        then (with_used lim.limit (e.used - lim.value) node ∷ older', true)
        else (node ∷ older', false))
    else if query == mesg_request
    then (if exceeds ((lim.value + e.used) % u64_mod) e.value
        then (node ∷ older, false)
        else if ok
        then (
          (if is_int kind then with_used lim.limit ((lim.value + e.used) % u64_mod) node else node)
              ∷ older',
          true,
        )
        else (node ∷ older', false))
    else (node ∷ older, false)

-- IntegerResourceDemand. The nodes newer than the one pointed to stay as they are.
unfoldable pub integer_demand :
    ℕ → LimRec → LimType → List PolicyNode → Option ℕ → List PolicyNode × Bool
integer_demand query lim kind nodes none = (nodes, true)
integer_demand query lim kind [] (some id) = ([], true)
integer_demand query lim kind (node ∷ older) (some id) =
    let here = id == length older in
    let up = integer_demand query lim kind older (if here then node.parent else some id) in
    if here
    then demand_at query lim kind node older up (find_entry lim.limit node.entries)
    else (node ∷ up.0, up.1)

-- The case of a Boolean limit.
abbrev bool_demand : LimRec → Option PolicyNode → Bool
bool_demand lim none = false
bool_demand lim (some node) = get_limit node lim.limit == lim.value

-- BWLDResourceDemand, by the kind of the limit.
abbrev pub demand_by_kind : ℕ → LimRec → List PolicyNode → ℕ → LimType → List PolicyNode × Bool
demand_by_kind query lim nodes id lim_not = (nodes, false)
demand_by_kind query lim nodes id lim_bool = (nodes, bool_demand lim (get_node nodes id))
demand_by_kind query lim nodes id lim_fixed_int =
    integer_demand query lim lim_fixed_int nodes (some id)
demand_by_kind query lim nodes id lim_int = integer_demand query lim lim_int nodes (some id)

unfoldable pub resource_demand : ℕ → LimRec → List PolicyNode → ℕ → List PolicyNode × Bool
resource_demand query lim nodes id = demand_by_kind query lim nodes id (limit_kind lim.limit)
