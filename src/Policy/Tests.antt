-- ===== src/Policy/Tests.antt =====
-- bwctld/policy.c: a root class with a child, on concrete demands.
use bwctl.Prelude.{
  ℕ, ◌+◌, ◌*◌, ◌≡◌, refl, false, Option, none, some, List, [], ◌∷◌, arith, ◌==◌, if◌then◌else◌,
  ◌&&◌, length, ◌∙◌,
}
use bwctl.Policy.Ident.{Longest, net_from, zero_at, node_from_addr, node_from_addr-Longest}
use bwctl.Policy.{
  lim_int, lim_pending, lim_event_horizon, LimRec, Entry, PolicyNode, find_entry, limit_kind,
}
use bwctl.Policy.Float.{exceeds, exceeds_misses}
use bwctl.Policy.Demand.{mesg_request, integer_demand, resource_demand}
use bwctl.Policy.Usage.{Within, resource_demand_refused}
use bwctl.Policy.Grant.{room_up, integer_demand-room_up}
use bwctl.Policy.Inherit.{inherit, value_in, combined, value_in-inherit}

abbrev entry : ℕ → ℕ → ℕ → Entry
entry limit value used = record { limit = limit; value = value; used = used }

-- The root allows three pending reservations, two of which are in use; its child allows two, and
-- uses one.
abbrev root : PolicyNode
root = record { nodename = "root"; parent = none; entries = entry lim_pending 3 2 ∷ [] }

abbrev child : PolicyNode
child = record { nodename = "child"; parent = some 0; entries = entry lim_pending 2 1 ∷ [] }

abbrev classes : List PolicyNode
classes = child ∷ root ∷ []

abbrev one : LimRec
one = record { limit = lim_pending; value = 1 }

abbrev two : LimRec
two = record { limit = lim_pending; value = 2 }

classes-Within : (lim : LimRec) → lim.limit ≡ lim_pending → Within lim.limit classes
unfolding find_entry
classes-Within lim e = rw e ((omega arith, λ _. omega arith), ((omega arith, λ _. omega arith), tt))

integer_demand-room_up_example :
    (integer_demand mesg_request one lim_int classes (some 1)).1 ≡ room_up one classes (some 1)
integer_demand-room_up_example =
    integer_demand-room_up one lim_int classes (some 1) (omega arith) (classes-Within one refl)

-- The child has no room for two.
refused_two : (resource_demand mesg_request two classes 1).1 ≡ false
unfolding resource_demand limit_kind
refused_two =
    integer_demand-room_up two lim_int classes (some 1) (omega arith) (classes-Within two refl)
    ∙ unfold room_up find_entry in refl

resource_demand_refused_example : (resource_demand mesg_request two classes 1).0 ≡ classes
resource_demand_refused_example = resource_demand_refused mesg_request two classes 1 refused_two

exceeds_misses_example : exceeds (20000000 + 1) 20000000 ≡ false
exceeds_misses_example = exceeds_misses 20000000 (omega arith) (omega arith) (omega arith)

abbrev parent_limits : List LimRec
parent_limits = record { limit = lim_event_horizon; value = 3600 } ∷ two ∷ []

-- A line that asks for more pending reservations than the parent has, and for no event horizon.
abbrev own_limits : List LimRec
own_limits =
    record { limit = lim_pending; value = 5 } ∷ record { limit = lim_event_horizon; value = 0 } ∷ []

value_in-inherit_example :
    value_in lim_pending (inherit parent_limits own_limits)
    ≡ combined
        (limit_kind lim_pending)
        (value_in lim_pending parent_limits)
        (value_in lim_pending own_limits)
value_in-inherit_example = value_in-inherit lim_pending parent_limits own_limits (refl, (refl, tt))

-- The nets 10.0.0.0/8 and 10.1.0.0/16, and an address in both.
abbrev nets : ℕ → List ℕ → Option ℕ
nets m (a ∷ b ∷ c ∷ d ∷ []) =
    if m == 8 && (a == 10 && b + c + d == 0)
    then some 1
    else if m == 16 && (a == 10 && (b == 1 && c + d == 0))
    then some 2
    else none
nets m _ = none

abbrev addr : List ℕ
addr = 10 ∷ 1 ∷ 2 ∷ 3 ∷ []

node_from_addr-Longest_example :
    (found : Option ℕ) × Longest nets addr (length addr * 8) found
    × (node_from_addr nets 0 addr ≡ (elim found [ none ↦ 0 | some node ↦ node ]))
node_from_addr-Longest_example = node_from_addr-Longest nets 0 addr

node_from_addr-nets : node_from_addr nets 0 addr ≡ 2
unfolding node_from_addr net_from zero_at
node_from_addr-nets = refl
