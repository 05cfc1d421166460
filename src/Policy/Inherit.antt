-- ===== src/Policy/Inherit.antt =====
-- bwctld/policy.c: the limits of a class from its `limit` line (parselimitline) and its parent's.
-- The line's own limits are those that were read; the loop that copies is modelled from there on.
use bwctl.Prelude.{
  ℕ, ◌≡◌, refl, ◌∙◌, Bool, true, false, Option, none, some, List, [], ◌∷◌, ◌++◌, arith, leb, ◌==◌,
  if◌then◌else◌, ◌&&◌, not, Bool-cases, inl, inr, ap, ==→eq,
}
use bwctl.Policy.{LimType, lim_int, lim_fixed_int, LimRec, limit_kind}

-- `goto override`: the limit stands in limtemp.
is_defined : ℕ → List LimRec → Bool
is_defined lim [] = false
is_defined lim (r ∷ recs) = if lim == r.limit then true else is_defined lim recs

-- ltype is LIMINT or LIMFIXEDINT.
is_integer : LimType → Bool
is_integer lim_int = true
is_integer lim_fixed_int = true
is_integer _ = false

-- The parent's value takes the place of the child's: for an integer limit that the parent has,
-- where the child's is larger.
pub must_restrict : LimType → ℕ → ℕ → Bool
unfolding is_integer
must_restrict kind parent value = is_integer kind && (not (parent == 0) && not (leb value parent))

-- The code behind the label `override`, for the first record of the limit.
override : LimRec → List LimRec → List LimRec
unfolding must_restrict
override p [] = []
override p (r ∷ recs) =
    let rest = override p recs in
    if p.limit == r.limit
    then (if must_restrict (limit_kind p.limit) p.value r.value
        then record r { value = p.value } ∷ recs
        else r ∷ recs)
    else r ∷ rest

-- One round of the loop over the parent's limits.
inherit_one : LimRec → List LimRec → List LimRec
unfolding is_defined override
inherit_one p limits = if is_defined p.limit limits then override p limits else limits ++ p ∷ []

pub inherit : List LimRec → List LimRec → List LimRec
unfolding inherit_one
inherit [] limits = limits
inherit (p ∷ parent) limits = inherit parent (inherit_one p limits)

-- The value of a limit in a list of records, if it is there.
abbrev pub value_in : ℕ → List LimRec → Option ℕ
value_in lim [] = none
value_in lim (r ∷ recs) = if lim == r.limit then some r.value else value_in lim recs

-- The parent's value and the child's own, combined.
abbrev pub combined : LimType → Option ℕ → Option ℕ → Option ℕ
combined kind none own = own
combined kind (some p) none = some p
combined kind (some p) (some v) = if must_restrict kind p v then some p else some v

-- No limit stands twice in the list.
abbrev Distinct : List LimRec → Type 0
Distinct [] = Unit {0}
Distinct (r ∷ recs) = (value_in r.limit recs ≡ none) × Distinct recs

is_defined_value :
    (lim : ℕ) (recs : List LimRec)
    → is_defined lim recs ≡ (elim (value_in lim recs) [ none ↦ false | some v ↦ true ])
unfolding is_defined
is_defined_value lim [] = refl
is_defined_value lim (r ∷ recs) = elim (Bool-cases (lim == r.limit)) [
  | inl same ↦ rw same refl
  | inr other ↦ rw other (is_defined_value lim recs)
]

value_in-append :
    (lim : ℕ) (recs : List LimRec) (p : LimRec)
    → value_in lim (recs ++ p ∷ [])
      ≡ (elim (value_in lim recs) [ none ↦ value_in lim (p ∷ []) | some v ↦ some v ])
value_in-append lim [] p = refl
value_in-append lim (r ∷ recs) p = elim (Bool-cases (lim == r.limit)) [
  | inl same ↦ rw same refl
  | inr other ↦ rw other (value_in-append lim recs p)
]

value_in-override_other :
    (lim : ℕ) (p : LimRec) (recs : List LimRec)
    → (lim == p.limit) ≡ false
    → value_in lim (override p recs) ≡ value_in lim recs
unfolding override must_restrict
value_in-override_other lim p [] h = refl
value_in-override_other lim p (r ∷ recs) h = ground (arith, value_in-override_other lim p recs h)

value_in-override_same :
    (p : LimRec) (recs : List LimRec)
    → value_in p.limit (override p recs) ≡ (elim (value_in p.limit recs) [
      | none ↦ none
      | some v ↦ if must_restrict (limit_kind p.limit) p.value v then some p.value else some v
    ])
unfolding override
value_in-override_same p [] = refl
value_in-override_same p (r ∷ recs) = elim (Bool-cases (p.limit == r.limit)) [
  | inl same ↦ rw same (elim (Bool-cases (must_restrict (limit_kind p.limit) p.value r.value)) [
    | inl larger ↦ rw (larger, same) refl
    | inr smaller ↦ rw (smaller, same) refl
  ])
  | inr other ↦ rw other (rw other (value_in-override_same p recs))
]

-- A limit after one step of the loop.
value_in-inherit_one_same :
    (p : LimRec) (own : List LimRec)
    → value_in p.limit (inherit_one p own)
      ≡ combined (limit_kind p.limit) (some p.value) (value_in p.limit own)
unfolding inherit_one
value_in-inherit_one_same p own =
    rw (is_defined_value p.limit own)
      (ground (arith, value_in-override_same p own, value_in-append p.limit own p))

value_in-inherit_one_other :
    (lim : ℕ) (p : LimRec) (own : List LimRec)
    → (lim == p.limit) ≡ false
    → value_in lim (inherit_one p own) ≡ value_in lim own
unfolding inherit_one
value_in-inherit_one_other lim p own h =
    ground (arith, value_in-override_other lim p own h, value_in-append lim own p)

-- What a class has of a limit: the parent's value where the line does not give one, the line's own
-- where the parent has none, and of two the parent's if it is an integer limit, not 0 (unlimited)
-- and smaller. The parent's limits are distinct, as parselimitline makes them.
pub value_in-inherit :
    (lim : ℕ) (parent own : List LimRec)
    → Distinct parent
    → value_in lim (inherit parent own)
      ≡ combined (limit_kind lim) (value_in lim parent) (value_in lim own)
unfolding inherit
value_in-inherit lim [] own d = refl
value_in-inherit lim (p ∷ parent) own d = elim (Bool-cases (lim == p.limit)) [
  | inl same ↦
      let e : lim ≡ p.limit = ==→eq lim p.limit same in
      rw (value_in-inherit lim parent (inherit_one p own) d.1, e)
        (ground (arith, d.0, value_in-inherit_one_same p own))
  | inr other ↦
      rw (value_in-inherit lim parent (inherit_one p own) d.1, other)
        (ap (combined (limit_kind lim) (value_in lim parent))
          (value_in-inherit_one_other lim p own other))
]

combined_zero : (kind : LimType) (parent : Option ℕ) → combined kind parent (some 0) ≡ some 0
unfolding must_restrict
combined_zero kind none = refl
combined_zero kind (some p) = ground arith

-- A line that gives an integer limit as 0, which means unlimited, gets it, however small the
-- parent's own limit is.
unlimited-inherit :
    (lim : ℕ) (parent own : List LimRec)
    → Distinct parent
    → value_in lim own ≡ some 0
    → value_in lim (inherit parent own) ≡ some 0
unlimited-inherit lim parent own d h =
    value_in-inherit lim parent own d ∙ rw h (combined_zero (limit_kind lim) (value_in lim parent))
