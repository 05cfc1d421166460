-- ===== src/Policy/Grant.antt =====
-- When a request is granted, and that a release gives back exactly what a request took.
use bwctl.Prelude.{
  ℕ, suc, ◌+◌, ◌-◌, ◌%◌, ◌<◌, ◌≡◌, refl, ap, Bool, true, Option, none, some, List, [], ◌∷◌, arith,
  leb, ◌==◌, if◌then◌else◌, length, Bool-cases, inl, inr, ◌^◌, ◌&&◌, ◌||◌,
}
use bwctl.Num64.{u64_mod}
use bwctl.Policy.{LimType, lim_int, LimRec, Entry, PolicyNode, find_entry, set_used, with_used}
use bwctl.Policy.Float.{exceeds, exceeds_exact}
use bwctl.Policy.Demand.{mesg_request, mesg_release, demand_at, integer_demand}
use bwctl.Policy.Usage.{
  EntryWithin, Within, demand_at_cases, demand_here, demand_older, find_entry-set_used,
}

-- Whether a class can take `lim` more, and the classes above it up to the first that has no record
-- of such a limit: a class whose limit is 0 leaves it to those above.
abbrev room_at : LimRec → Option Entry → Bool → Bool
room_at lim none up = true
room_at lim (some e) up = (e.value == 0 || leb (lim.value + e.used) e.value) && up

unfoldable pub room_up : LimRec → List PolicyNode → Option ℕ → Bool
room_up lim nodes none = true
room_up lim [] (some id) = true
room_up lim (node ∷ older) (some id) =
    let here = id == length older in
    let up = room_up lim older (if here then node.parent else some id) in
    if here then room_at lim (find_entry lim.limit node.entries) up else up

demand_at-room_at :
    (lim : LimRec) (kind : LimType) (node : PolicyNode) (older : List PolicyNode)
    (up : List PolicyNode × Bool) (e : Option Entry)
    → lim.value < 2 ^ 63
    → EntryWithin e
    → (demand_at mesg_request lim kind node older up e).1 ≡ room_at lim e up.1
unfolding demand_at
demand_at-room_at lim kind node older up none small v = refl
demand_at-room_at lim kind node older up (some e) small v =
    ground (arith, exceeds_exact ((lim.value + e.used) % u64_mod) e.value v.0)

-- A request of a counted or a fixed resource, for less than 2 ^ 63, is granted exactly when the
-- class and those above it, up to the first that has no record of the limit, each have room for it
-- or hold it unlimited; as long as the limits are below 2 ^ 24 and none is exceeded before.
pub integer_demand-room_up :
    (lim : LimRec) (kind : LimType) (nodes : List PolicyNode) (id : Option ℕ)
    → lim.value < 2 ^ 63
    → Within lim.limit nodes
    → (integer_demand mesg_request lim kind nodes id).1 ≡ room_up lim nodes id
unfolding room_up
integer_demand-room_up lim kind nodes none small w = unfold integer_demand in refl
integer_demand-room_up lim kind [] (some id) small w = unfold integer_demand in refl
integer_demand-room_up lim kind (node ∷ older) (some id) small w =
    elim (Bool-cases (id == length older)) [
      | inl here ↦ rw (
        demand_here mesg_request lim kind node older id here,
        here,
        demand_at-room_at lim kind node older
            (integer_demand mesg_request lim kind older node.parent)
            (find_entry lim.limit node.entries) small w.0,
        integer_demand-room_up lim kind older node.parent small w.1,
      )
      | inr past ↦ rw (
        demand_older mesg_request lim kind node older id past,
        past,
        integer_demand-room_up lim kind older (some id) small w.1,
      )
    ]

set_used_back :
    (lim used : ℕ) (entries : List Entry) (e : Entry)
    → find_entry lim entries ≡ some e
    → set_used lim e.used (set_used lim used entries) ≡ entries
unfolding find_entry set_used
set_used_back lim used [] e h = cc
set_used_back lim used (x ∷ entries) e h = ground (arith, set_used_back lim used entries e)

length-demand_at :
    (query : ℕ) (lim : LimRec) (kind : LimType) (node : PolicyNode) (older : List PolicyNode)
    (up : List PolicyNode × Bool) (e : Option Entry)
    → length up.0 ≡ length older
    → length (demand_at query lim kind node older up e).0 ≡ suc (length older)
length-demand_at query lim kind node older up none h = unfold demand_at in refl
length-demand_at query lim kind node older up (some e) h =
    demand_at_cases (λ r. length r.0 ≡ suc (length older)) query lim kind node older up e
      (λ b. refl) (λ b. ap suc h) (λ _. ap suc h) (λ _ _. ap suc h)

pub length-integer_demand :
    (query : ℕ) (lim : LimRec) (kind : LimType) (nodes : List PolicyNode) (id : Option ℕ)
    → length (integer_demand query lim kind nodes id).0 ≡ length nodes
length-integer_demand query lim kind nodes none = unfold integer_demand in refl
length-integer_demand query lim kind [] (some id) = unfold integer_demand in refl
length-integer_demand query lim kind (node ∷ older) (some id) =
    elim (Bool-cases (id == length older)) [
      | inl here ↦ rw (demand_here query lim kind node older id here) (
          length-demand_at query lim kind node older
            (integer_demand query lim kind older node.parent) (find_entry lim.limit node.entries)
            (length-integer_demand query lim kind older node.parent))
      | inr past ↦
          rw (demand_older query lim kind node older id past)
            (ap suc (length-integer_demand query lim kind older (some id)))
    ]

-- The release at a node that counted the request.
undo_counted :
    (lim : LimRec) (node : PolicyNode) (older : List PolicyNode) (e : Entry)
    → find_entry lim.limit node.entries ≡ some e
    → 0 < e.value
    → lim.value + e.used < u64_mod
    → let u = (lim.value + e.used) % u64_mod in
      let node' = with_used lim.limit u node in
      (newer : List PolicyNode)
      → demand_at mesg_release lim lim_int node' newer
          (older, true)
          (find_entry lim.limit node'.entries)
        ≡ (node ∷ older, true)
unfolding demand_at
undo_counted lim node older e h pos small newer =
    rw (find_entry-set_used lim.limit ((lim.value + e.used) % u64_mod) node.entries e h)
      (ground (arith, back))
  where
    used_back : (lim.value + e.used) % u64_mod - lim.value ≡ e.used
    used_back = omega arith

    back :
        set_used lim.limit
          ((lim.value + e.used) % u64_mod - lim.value)
          (set_used lim.limit ((lim.value + e.used) % u64_mod) node.entries)
        ≡ node.entries
    back = rw used_back (set_used_back lim.limit ((lim.value + e.used) % u64_mod) node.entries e h)

-- The release at a node whose request was granted.
undo_at :
    (lim : LimRec) (node : PolicyNode) (older : List PolicyNode) (up : List PolicyNode × Bool)
    (e : Option Entry)
    → find_entry lim.limit node.entries ≡ e
    → EntryWithin e
    → lim.value < 2 ^ 63
    → (up.1 ≡ true → integer_demand mesg_release lim lim_int up.0 node.parent ≡ (older, true))
    → (id : ℕ) → (id == length older) ≡ true
    → length up.0 ≡ length older
    → (demand_at mesg_request lim lim_int node older up e).1 ≡ true
    → integer_demand mesg_release lim lim_int
        (demand_at mesg_request lim lim_int node older up e).0
        (some id)
      ≡ (node ∷ older, true)
unfolding demand_at
undo_at lim node older up none h v small ih id here len r =
    rw (demand_here mesg_release lim lim_int node older id here, h)
undo_at lim node older up (some e) h v small ih id here len r = elim (Bool-cases (e.value == 0)) [
  | inl no_limit ↦ rw no_limit (
      rw (
        demand_here mesg_release lim lim_int node up.0 id here',
        h,
        ih (rw no_limit at r),
        no_limit,
      ))
  | inr limited ↦ elim (Bool-cases (exceeds ((lim.value + e.used) % u64_mod) e.value)) [
    | inl over ↦ cc (rw (limited, over) at r)
    | inr room ↦ elim (Bool-cases up.1) [
      | inr not_ok ↦ cc (rw (limited, room, not_ok) at r)
      | inl ok ↦
          rw (limited, room, ok)
            (rw
              (
                demand_here mesg_release lim lim_int
                    (with_used lim.limit ((lim.value + e.used) % u64_mod) node) up.0 id here',
                ih ok,
              )
              (undo_counted lim node older e h (ground (arith, limited))
                (used_small (ground (arith, limited))) up.0))
    ]
  ]
]
  where
    used_small : 0 < e.value → lim.value + e.used < u64_mod
    used_small p = omega (arith, v.1 p, v.0)

    here' : (id == length up.0) ≡ true
    here' = rw len here

-- A counted resource that was requested and granted, at any class, is released in full: the release
-- is accepted, and everything that is in use of every class is as it was before the request. (The
-- limits of that resource are kept and below 2 ^ 24.)
pub release-request :
    (lim : LimRec) (nodes : List PolicyNode) (id : Option ℕ)
    → lim.value < 2 ^ 63
    → Within lim.limit nodes
    → (integer_demand mesg_request lim lim_int nodes id).1 ≡ true
    → integer_demand mesg_release lim lim_int
        (integer_demand mesg_request lim lim_int nodes id).0
        id
      ≡ (nodes, true)
release-request lim nodes none small w r = unfold integer_demand in refl
release-request lim [] (some id) small w r = unfold integer_demand in refl
release-request lim (node ∷ older) (some id) small w r = elim (Bool-cases (id == length older)) [
  | inl here ↦
      let e = demand_here mesg_request lim lim_int node older id here in
      rw e (
        undo_at lim node older (integer_demand mesg_request lim lim_int older node.parent)
          (find_entry lim.limit node.entries) refl w.0 small
          (release-request lim older node.parent small w.1) id here
          (length-integer_demand mesg_request lim lim_int older node.parent) (rw e at r))
  | inr past ↦
      let e = demand_older mesg_request lim lim_int node older id past in
      rw e (
        rw (
          demand_older mesg_release lim lim_int node
              (integer_demand mesg_request lim lim_int older (some id)).0 id
              (rw (length-integer_demand mesg_request lim lim_int older (some id)) past),
          release-request lim older (some id) small w.1 (rw e at r),
        ))
]
