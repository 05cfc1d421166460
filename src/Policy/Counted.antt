-- ===== src/Policy/Counted.antt =====
-- bwctld/policy.c: what a granted request of a counted resource does to its class.
use bwctl.Prelude.{
  ℕ, ◌+◌, ◌%◌, ◌≡◌, refl, sym, ap, ◌∙◌, Bool, true, false, Option, none, some, List, [], ◌∷◌, arith,
  ◌==◌, length, Bool-cases, inl, inr, ◌≢◌,
}
use bwctl.Num64.{u64_mod}
use bwctl.Policy.{
  lim_int, lim_pending, limit_kind, LimRec, Entry, PolicyNode, find_entry, with_used, get_node,
}
use bwctl.Policy.Float.{exceeds}
use bwctl.Policy.Demand.{mesg_request, demand_at, integer_demand, resource_demand}
use bwctl.Policy.Usage.{demand_here, demand_older, find_entry-set_used}
use bwctl.Policy.Grant.{length-integer_demand}

-- What a class holds of a resource: `none` where it has no record of it.
abbrev pub entry_of : ℕ → List PolicyNode → ℕ → Option Entry
entry_of lim nodes id = elim (get_node nodes id) [
  | none ↦ none
  | some node ↦ find_entry lim node.entries
]

entry_none : (lim id : ℕ) → entry_of lim [] id ≡ none
unfolding get_node
entry_none lim id = refl

entry_here :
    (lim : ℕ) (node : PolicyNode) (older : List PolicyNode) (id : ℕ)
    → (id == length older) ≡ true
    → entry_of lim (node ∷ older) id ≡ find_entry lim node.entries
unfolding get_node
entry_here lim node older id h = rw (h, entry_of) refl

entry_older :
    (lim : ℕ) (node : PolicyNode) (older : List PolicyNode) (id : ℕ)
    → (id == length older) ≡ false
    → entry_of lim (node ∷ older) id ≡ entry_of lim older id
unfolding get_node
entry_older lim node older id h = rw (h, entry_of) refl

demand_at-counted :
    (lim : LimRec) (node : PolicyNode) (older : List PolicyNode) (up : List PolicyNode × Bool)
    (e : Entry)
    → e.value ≢ 0
    → (demand_at mesg_request lim lim_int node older up (some e)).1 ≡ true
    → demand_at mesg_request lim lim_int node older up (some e)
      ≡ (with_used lim.limit ((lim.value + e.used) % u64_mod) node ∷ up.0, true)
unfolding demand_at
demand_at-counted lim node older up e limited granted = ground (arith, exceeds, limited)

-- A limit that is not 0: after the request the class has the value more in use.
pub integer_demand-counted :
    (lim : LimRec) (nodes : List PolicyNode) (id : ℕ) (e : Entry)
    → entry_of lim.limit nodes id ≡ some e
    → e.value ≢ 0
    → (integer_demand mesg_request lim lim_int nodes (some id)).1 ≡ true
    → entry_of lim.limit (integer_demand mesg_request lim lim_int nodes (some id)).0 id
      ≡ some (record e { used = (lim.value + e.used) % u64_mod })
integer_demand-counted lim [] id e h limited granted = cc (entry_none lim.limit id)
integer_demand-counted lim (node ∷ older) id e h limited granted =
    elim (Bool-cases (id == length older)) [
      | inl here ↦
          let up = integer_demand mesg_request lim lim_int older node.parent in
          let used = (lim.value + e.used) % u64_mod in
          let found = sym (entry_here lim.limit node older id here) ∙ h in
          let step =
            demand_here mesg_request lim lim_int node older id here
            ∙ ap (demand_at mesg_request lim lim_int node older up) found in
          let done = step ∙ demand_at-counted lim node older up e limited (rw step at granted) in
          rw done (
            entry_here lim.limit (with_used lim.limit used node) up.0 id
              (rw (length-integer_demand mesg_request lim lim_int older node.parent) here)
            ∙ find_entry-set_used lim.limit used node.entries e found)
      | inr past ↦
          let newer = (integer_demand mesg_request lim lim_int older (some id)).0 in
          let step = demand_older mesg_request lim lim_int node older id past in
          rw step (
            entry_older lim.limit node newer id
              (rw (length-integer_demand mesg_request lim lim_int older (some id)) past)
            ∙ integer_demand-counted lim older id e
                (sym (entry_older lim.limit node older id past) ∙ h) limited (rw step at granted))
    ]

-- Pending reservations are counted.
pub resource_demand-pending :
    (mesg value : ℕ) (nodes : List PolicyNode) (id : ℕ)
    → resource_demand mesg (record { limit = lim_pending; value = value }) nodes id
      ≡ integer_demand mesg (record { limit = lim_pending; value = value }) lim_int nodes (some id)
unfolding resource_demand limit_kind
resource_demand-pending mesg value nodes id = refl
