-- ===== src/Policy/Bounds.antt =====
-- bwctld/policy.c: requests and releases keep the limits of every resource.
use bwctl.Prelude.{
  ℕ, ◌+◌, ◌-◌, ◌%◌, ◌≤◌, ◌<◌, ◌≡◌, refl, sym, ◌∙◌, Bool, false, Option, none, some, List, [], ◌∷◌,
  arith, ◌==◌, length, Bool-cases, inl, inr, ltb→le, ==→eq,
}
use bwctl.Num64.{u64_mod}
use bwctl.Policy.{
  LimType, lim_int, lim_bool, lim_fixed_int, lim_not, LimRec, Entry, PolicyNode, find_entry,
  set_used, limit_kind,
}
use bwctl.Policy.Float.{exceeds_exact}
use bwctl.Policy.Demand.{demand_at, integer_demand, resource_demand, demand_by_kind}
use bwctl.Policy.Usage.{
  EntryWithin, Within, demand_at_cases, demand_here, demand_older, find_entry-set_used,
}

find_entry-set_other :
    (l lim used : ℕ) (entries : List Entry)
    → (l == lim) ≡ false
    → find_entry l (set_used lim used entries) ≡ find_entry l entries
unfolding find_entry set_used
find_entry-set_other l lim used [] h = refl
find_entry-set_other l lim used (x ∷ entries) h =
    ground (arith, find_entry-set_other l lim used entries h)

-- A node whose entry of `lim` changes, seen at any resource `l`.
set_used-Within :
    (l lim used : ℕ) (entries : List Entry) (e : Entry)
    → find_entry lim entries ≡ some e
    → EntryWithin (find_entry l entries)
    → (EntryWithin (some e) → 0 < e.value → used ≤ e.value)
    → EntryWithin (find_entry l (set_used lim used entries))
set_used-Within l lim used entries e h v room = elim (Bool-cases (l == lim)) [
  | inr other ↦ rw (find_entry-set_other l lim used entries other) v
  | inl same ↦
      let eq = ==→eq l lim same in
      let here : EntryWithin (some e) = rw (eq, h) at v in
      rw eq (rw (find_entry-set_used lim used entries e h) (here.0, room here))
]

demand_at-Within :
    (l query : ℕ) (lim : LimRec) (kind : LimType) (node : PolicyNode) (older : List PolicyNode)
    (up : List PolicyNode × Bool) (e : Option Entry)
    → find_entry lim.limit node.entries ≡ e
    → EntryWithin (find_entry l node.entries)
    → Within l older
    → Within l up.0
    → Within l (demand_at query lim kind node older up e).0
demand_at-Within l query lim kind node older up none h v w u = unfold demand_at in (v, w)
demand_at-Within l query lim kind node older up (some e) h v w u =
    demand_at_cases (λ r. Within l r.0) query lim kind node older up e (λ b. (v, w)) (λ b. (v, u))
      (λ held. (
        set_used-Within l lim.limit (e.used - lim.value) node.entries e h v
            (λ here p. omega (arith, here.1 p)),
        u,
      ))
      (λ p room. (
        set_used-Within l lim.limit ((lim.value + e.used) % u64_mod) node.entries e h v (λ here _.
            ltb→le _ _
              (sym (exceeds_exact ((lim.value + e.used) % u64_mod) e.value here.0) ∙ room)),
        u,
      ))

integer_demand-Within :
    (l query : ℕ) (lim : LimRec) (kind : LimType) (nodes : List PolicyNode) (id : Option ℕ)
    → Within l nodes
    → Within l (integer_demand query lim kind nodes id).0
integer_demand-Within l query lim kind nodes none w = unfold integer_demand in w
integer_demand-Within l query lim kind [] (some id) w = unfold integer_demand in w
integer_demand-Within l query lim kind (node ∷ older) (some id) w =
    elim (Bool-cases (id == length older)) [
      | inl here ↦ rw (demand_here query lim kind node older id here) (
          demand_at-Within l query lim kind node older
            (integer_demand query lim kind older node.parent) (find_entry lim.limit node.entries)
            refl w.0 w.1 (integer_demand-Within l query lim kind older node.parent w.1))
      | inr past ↦
          rw (demand_older query lim kind node older id past)
            (w.0, integer_demand-Within l query lim kind older (some id) w.1)
    ]

demand_by_kind-Within :
    (l query : ℕ) (lim : LimRec) (nodes : List PolicyNode) (id : ℕ) (kind : LimType)
    → Within l nodes
    → Within l (demand_by_kind query lim nodes id kind).0
demand_by_kind-Within l query lim nodes id lim_not w = w
demand_by_kind-Within l query lim nodes id lim_bool w = w
demand_by_kind-Within l query lim nodes id lim_int w =
    integer_demand-Within l query lim lim_int nodes (some id) w
demand_by_kind-Within l query lim nodes id lim_fixed_int w =
    integer_demand-Within l query lim lim_fixed_int nodes (some id) w

-- Whatever is asked of BWLDResourceDemand, at any node, no class comes to use more of any resource
-- than its limit, as long as the limits of that resource are below 2 ^ 24 (where the comparison in
-- float is exact).
pub resource_demand-Within :
    (l query : ℕ) (lim : LimRec) (nodes : List PolicyNode) (id : ℕ)
    → Within l nodes
    → Within l (resource_demand query lim nodes id).0
unfolding resource_demand
resource_demand-Within l query lim nodes id =
    demand_by_kind-Within l query lim nodes id (limit_kind lim.limit)
