-- ===== src/Policy/Usage.antt =====
-- What requests and releases do to the tree of user classes: nothing when they are refused, and
-- else one of four things at each node.
use bwctl.Prelude.{
  ℕ, ◌+◌, ◌-◌, ◌%◌, ◌≤◌, ◌<◌, ◌≡◌, refl, ap, Bool, true, false, Option, none, some, List, [], ◌∷◌,
  arith, ltb, ◌==◌, length, Bool-cases, inl, inr, ltb→le,
}
use bwctl.Num64.{u64_mod}
use bwctl.Policy.{
  LimType, lim_int, lim_bool, lim_fixed_int, lim_not, LimRec, Entry, PolicyNode, find_entry,
  set_used, with_used, limit_kind,
}
use bwctl.Policy.Float.{exceeds}
use bwctl.Policy.Demand.{
  mesg_request, mesg_release, is_fixed, is_int, demand_at, integer_demand, resource_demand,
  demand_by_kind,
}

demand_at_refused :
    (query : ℕ) (lim : LimRec) (kind : LimType) (node : PolicyNode) (older : List PolicyNode)
    (up : List PolicyNode × Bool) (e : Option Entry)
    → (up.1 ≡ false → up.0 ≡ older)
    → (demand_at query lim kind node older up e).1 ≡ false
    → (demand_at query lim kind node older up e).0 ≡ node ∷ older
unfolding demand_at
demand_at_refused query lim kind node older up none h r = refl
demand_at_refused query lim kind node older up (some e) h r = ground (arith, exceeds)

-- The node that is pointed to, with the call for its parent; and the nodes newer than it.
pub demand_here :
    (query : ℕ) (lim : LimRec) (kind : LimType) (node : PolicyNode) (older : List PolicyNode)
    (id : ℕ)
    → (id == length older) ≡ true
    → integer_demand query lim kind (node ∷ older) (some id)
      ≡ demand_at query lim kind node older
          (integer_demand query lim kind older node.parent)
          (find_entry lim.limit node.entries)
unfolding integer_demand
demand_here query lim kind node older id h = rw h

pub demand_older :
    (query : ℕ) (lim : LimRec) (kind : LimType) (node : PolicyNode) (older : List PolicyNode)
    (id : ℕ)
    → (id == length older) ≡ false
    → integer_demand query lim kind (node ∷ older) (some id) ≡ (
      node ∷ (integer_demand query lim kind older (some id)).0,
      (integer_demand query lim kind older (some id)).1,
    )
unfolding integer_demand
demand_older query lim kind node older id h = rw h

integer_demand_refused :
    (query : ℕ) (lim : LimRec) (kind : LimType) (nodes : List PolicyNode) (id : Option ℕ)
    → (integer_demand query lim kind nodes id).1 ≡ false
    → (integer_demand query lim kind nodes id).0 ≡ nodes
integer_demand_refused query lim kind nodes none r = unfold integer_demand in refl
integer_demand_refused query lim kind [] (some id) r = unfold integer_demand in refl
integer_demand_refused query lim kind (node ∷ older) (some id) r =
    elim (Bool-cases (id == length older)) [
      | inl here ↦
          let e = demand_here query lim kind node older id here in
          rw e (
            demand_at_refused query lim kind node older
              (integer_demand query lim kind older node.parent) (find_entry lim.limit node.entries)
              (integer_demand_refused query lim kind older node.parent) (rw e at r))
      | inr past ↦
          let e = demand_older query lim kind node older id past in
          rw e (
            ap (λ (l : List PolicyNode). node ∷ l)
              (integer_demand_refused query lim kind older (some id) (rw e at r)))
    ]

demand_by_kind_refused :
    (query : ℕ) (lim : LimRec) (nodes : List PolicyNode) (id : ℕ) (kind : LimType)
    → (demand_by_kind query lim nodes id kind).1 ≡ false
    → (demand_by_kind query lim nodes id kind).0 ≡ nodes
demand_by_kind_refused query lim nodes id lim_not r = refl
demand_by_kind_refused query lim nodes id lim_bool r = refl
demand_by_kind_refused query lim nodes id lim_int r =
    integer_demand_refused query lim lim_int nodes (some id) r
demand_by_kind_refused query lim nodes id lim_fixed_int r =
    integer_demand_refused query lim lim_fixed_int nodes (some id) r

-- A demand that BWLDResourceDemand refuses, of any kind and at any node, leaves what is in use of
-- every class as it was, however far up the tree it got.
pub resource_demand_refused :
    (query : ℕ) (lim : LimRec) (nodes : List PolicyNode) (id : ℕ)
    → (resource_demand query lim nodes id).1 ≡ false
    → (resource_demand query lim nodes id).0 ≡ nodes
unfolding resource_demand
resource_demand_refused query lim nodes id =
    demand_by_kind_refused query lim nodes id (limit_kind lim.limit)

-- An entry within its limit, where it has one; the limit is small enough for the comparison in
-- float to be exact.
abbrev pub EntryWithin : Option Entry → Type 0
EntryWithin none = Unit {0}
EntryWithin (some e) = (e.value < 0x1000000) × (0 < e.value → e.used ≤ e.value)

-- No class uses more of the resource than its limit.
abbrev pub Within : ℕ → List PolicyNode → Type 0
Within limit [] = Unit {0}
Within limit (node ∷ older) = EntryWithin (find_entry limit node.entries) × Within limit older

pub find_entry-set_used :
    (lim used : ℕ) (entries : List Entry) (e : Entry)
    → find_entry lim entries ≡ some e
    → find_entry lim (set_used lim used entries) ≡ some (record e { used = used })
unfolding find_entry set_used
find_entry-set_used lim used [] e h = cc
find_entry-set_used lim used (x ∷ entries) e h =
    ground (arith, find_entry-set_used lim used entries e)

-- The ways a demand at a node ends: untouched, passed up, taken back or counted.
pub demand_at_cases {ℓ} :
    (P : List PolicyNode × Bool → Type ℓ) (query : ℕ) (lim : LimRec) (kind : LimType)
    (node : PolicyNode) (older : List PolicyNode) (up : List PolicyNode × Bool) (e : Entry)
    → ((b : Bool) → P (node ∷ older, b))
    → ((b : Bool) → P (node ∷ up.0, b))
    → (lim.value ≤ e.used → P (with_used lim.limit (e.used - lim.value) node ∷ up.0, true))
    → (0 < e.value
        → exceeds ((lim.value + e.used) % u64_mod) e.value ≡ false
        → P (with_used lim.limit ((lim.value + e.used) % u64_mod) node ∷ up.0, true))
    → P (demand_at query lim kind node older up (some e))
unfolding demand_at
demand_at_cases P query lim kind node older up e same passed freed counted =
    elim (Bool-cases (e.value == 0)) [
      | inl no_limit ↦ rw no_limit (passed up.1)
      | inr limited ↦ rw limited (elim (Bool-cases (query == mesg_release)) [
        | inl release ↦ rw release (elim (Bool-cases (is_fixed kind)) [
          | inl fixed ↦ rw fixed (same true)
          | inr tracked ↦ rw tracked (elim (Bool-cases (ltb e.used lim.value)) [
            | inl too_much ↦ rw too_much (same false)
            | inr held ↦ rw held (elim (Bool-cases up.1) [
              | inl ok ↦ rw ok (freed (ltb→le _ _ held))
              | inr not_ok ↦ rw not_ok (passed false)
            ])
          ])
        ])
        | inr no_release ↦ rw no_release (elim (Bool-cases (query == mesg_request)) [
          | inl request ↦
              rw request (elim (Bool-cases (exceeds ((lim.value + e.used) % u64_mod) e.value)) [
                | inl over ↦ rw over (same false)
                | inr room ↦ rw room (elim (Bool-cases up.1) [
                  | inl ok ↦ rw ok (elim (Bool-cases (is_int kind)) [
                    | inl tracked ↦ rw tracked (counted (ground (arith, limited)) room)
                    | inr fixed ↦ rw fixed (passed true)
                  ])
                  | inr not_ok ↦ rw not_ok (passed false)
                ])
              ])
          | inr other ↦ rw other (same false)
        ])
      ])
    ]
