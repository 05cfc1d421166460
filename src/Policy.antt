-- ===== src/Policy.antt =====
-- bwctld/policy.c: the limits of the user classes. A class is a node of a tree; it holds its limits
-- and what is in use of each, and points to its parent. The nodes are a list, newest first, and a
-- node's pointer is the number of nodes older than it: a parent is read before its children are
-- made, so it is always older. Limit values (I2numT) are 64-bit numbers.
pub mod Float
pub mod Demand
pub mod Usage
pub mod Bounds
pub mod Grant
pub mod Counted
pub mod Inherit
pub mod Ident
mod Tests
use Prim.Native.String.{String}
use bwctl.Prelude.{
  ℕ, zero, suc, ◌+◌, ◌-◌, ◌%◌, Bool, true, false, Option, none, some, List, [], ◌∷◌, ◌++◌, ltb, leb,
  ◌==◌, if◌then◌else◌, length,
}
use bwctl.Num64.{u64_mod}

-- enum limtype
pub data LimType : Type 0 where
  lim_int lim_bool lim_fixed_int lim_not : LimType

-- struct limdesc
pub record LimDesc : Type 0 where
  pub limit : ℕ
  pub lname : String
  pub ltype : LimType
  pub def_value : ℕ

-- BWLDLimParent … BWLDLimAllowNoEndpoint
abbrev lim_parent : ℕ
lim_parent = 0

abbrev pub lim_bandwidth : ℕ
lim_bandwidth = 1

abbrev pub lim_pending : ℕ
lim_pending = 2

abbrev pub lim_event_horizon : ℕ
lim_event_horizon = 3

abbrev pub lim_duration : ℕ
lim_duration = 4

abbrev pub lim_allow_open_mode : ℕ
lim_allow_open_mode = 5

abbrev pub lim_allow_tcp : ℕ
lim_allow_tcp = 6

abbrev pub lim_allow_udp : ℕ
lim_allow_udp = 7

abbrev pub lim_max_time_error : ℕ
lim_max_time_error = 8

abbrev pub lim_minimum_ttl : ℕ
lim_minimum_ttl = 9

abbrev pub lim_allow_no_endpoint : ℕ
lim_allow_no_endpoint = 10

abbrev desc : ℕ → String → LimType → ℕ → LimDesc
desc limit lname ltype def_value = record {
  limit = limit;
  lname = lname;
  ltype = ltype;
  def_value = def_value;
}

-- limkeys
limkeys : List LimDesc
limkeys =
    desc lim_parent "parent" lim_not 0
    ∷ desc lim_bandwidth "bandwidth" lim_fixed_int 0
    ∷ desc lim_pending "pending" lim_int 0
    ∷ desc lim_event_horizon "event_horizon" lim_fixed_int 0
    ∷ desc lim_duration "duration" lim_fixed_int 0
    ∷ desc lim_allow_open_mode "allow_open_mode" lim_bool 1
    ∷ desc lim_allow_tcp "allow_tcp" lim_bool 1
    ∷ desc lim_allow_udp "allow_udp" lim_bool 0
    ∷ desc lim_max_time_error "max_time_error" lim_fixed_int 0
    ∷ desc lim_minimum_ttl "minimum_ttl" lim_fixed_int 0
    ∷ desc lim_allow_no_endpoint "allow_no_endpoint" lim_bool 0
    ∷ []

-- GetDefLimit
def_limit_in : List LimDesc → ℕ → ℕ
def_limit_in [] lim = 0
def_limit_in (k ∷ keys) lim = if lim == k.limit then k.def_value else def_limit_in keys lim

get_def_limit : ℕ → ℕ
unfolding def_limit_in limkeys
get_def_limit lim = def_limit_in limkeys lim

-- The loop that looks a limit's kind up, as BWLDGetFixedLimit and BWLDResourceDemand write it.
kind_in : List LimDesc → ℕ → LimType
kind_in [] lim = lim_not
kind_in (k ∷ keys) lim = if lim == k.limit then k.ltype else kind_in keys lim

unfoldable pub limit_kind : ℕ → LimType
unfolding kind_in limkeys
limit_kind lim = kind_in limkeys lim

-- BWLDLimRec
pub record LimRec : Type 0 where
  pub limit : ℕ
  pub value : ℕ

-- limits[i] and used[i] of a node: they carry the same limit.
pub record Entry : Type 0 where
  pub limit : ℕ
  pub value : ℕ
  pub used : ℕ

-- BWLDPolicyNodeRec
pub record PolicyNode : Type 0 where
  pub nodename : String
  pub parent : Option ℕ
  pub entries : List Entry

-- The entry of a limit: the loops `for(i=0;i<node->ilim;i++)`.
unfoldable pub find_entry : ℕ → List Entry → Option Entry
find_entry lim [] = none
find_entry lim (e ∷ entries) = if lim == e.limit then some e else find_entry lim entries

-- `node->used[i].value = used` at the entry of the limit.
unfoldable pub set_used : ℕ → ℕ → List Entry → List Entry
set_used lim used [] = []
set_used lim used (e ∷ entries) =
    if lim == e.limit then record e { used = used } ∷ entries else e ∷ set_used lim used entries

abbrev pub with_used : ℕ → ℕ → PolicyNode → PolicyNode
with_used lim used node = record node { entries = set_used lim used node.entries }

-- The node behind a pointer.
unfoldable pub get_node : List PolicyNode → ℕ → Option PolicyNode
get_node [] id = none
get_node (node ∷ nodes) id = if id == length nodes then some node else get_node nodes id

-- GetLimit
abbrev value_or : Option Entry → ℕ → ℕ
value_or none d = d
value_or (some e) d = e.value

unfoldable pub get_limit : PolicyNode → ℕ → ℕ
unfolding find_entry get_def_limit
get_limit node lim = value_or (find_entry lim node.entries) (get_def_limit lim)

-- GetUsed
abbrev used_or_zero : Option Entry → ℕ
used_or_zero none = 0
used_or_zero (some e) = e.used

get_used : PolicyNode → ℕ → ℕ
unfolding find_entry
get_used node lim = used_or_zero (find_entry lim node.entries)

-- BWLDGetFixedLimit: `none` where it returns False.
unfoldable pub get_fixed_limit : PolicyNode → ℕ → Option ℕ
unfolding limit_kind get_limit
get_fixed_limit node lim = elim (limit_kind lim) [
  | lim_bool ↦ some (get_limit node lim)
  | lim_fixed_int ↦ some (get_limit node lim)
  | _ ↦ none
]
