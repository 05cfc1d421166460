-- ===== src/Schedule/Insert.antt =====
-- A direct description of how a reservation is entered in the list, from its seconds `a` to `b` and
-- its test type, and its agreement with the steps of the code (the walk, the two cuts, the count).
use bwctl.Prelude.{
  ℕ, ◌+◌, ◌≤◌, ◌≡◌, refl, ap, List, [], ◌∷◌, ◌++◌, map, arith, ltb, leb, if◌then◌else◌, Bool-cases,
  inl, inr,
}
use bwctl.Tools.{TestType}
use bwctl.Schedule.{
  TimeSlot, Walk, conflict, run, add_reservation, create_slot, split_slot, can_use_slot, walk,
  split_front, split_back, enter, step_over,
}

-- From a slot `s` that overlaps: every overlapping slot gets the reservation, the last one is cut
-- at `b` or a new slot carries on behind it.
unfoldable pub cover : TestType → ℕ → TimeSlot → List TimeSlot → List TimeSlot
unfolding add_reservation create_slot split_slot
cover test b s [] =
    if ltb b s.end
    then add_reservation test (split_slot s (b + 1)).0 ∷ (split_slot s (b + 1)).1 ∷ []
    else if ltb s.end b
    then add_reservation test s ∷ create_slot test (s.end + 1) b ∷ []
    else add_reservation test s ∷ []
cover test b s (next ∷ rest) =
    let further = add_reservation test s ∷ cover test b next rest in
    if ltb b s.end
    then add_reservation test (split_slot s (b + 1)).0 ∷ (split_slot s (b + 1)).1 ∷ next ∷ rest
    else if ltb b next.start
    then (if ltb s.end b
        then add_reservation test s ∷ create_slot test (s.end + 1) b ∷ next ∷ rest
        else add_reservation test s ∷ next ∷ rest)
    else further

unfoldable pub insert : TestType → ℕ → ℕ → List TimeSlot → List TimeSlot
unfolding cover split_front
insert test a b [] = create_slot test a b ∷ []
insert test a b (s ∷ rest) =
    let further = s ∷ insert test a b rest in
    if ltb s.end a
    then further
    else if ltb b s.start
    then create_slot test a b ∷ s ∷ rest
    else (split_front test a s).0 ++ cover test b (split_front test a s).1 rest

-- The walk reads only the end of the slot that it starts from.
walk_end :
    (test : TestType) (b : ℕ) (s s' : TimeSlot) (rest : List TimeSlot)
    → s.end ≡ s'.end
    → walk test b s rest ≡ walk test b s' rest
unfolding walk
walk_end test b s s' [] e = refl
walk_end test b s s' (next ∷ rest) e = rw e

split_front_end : (test : TestType) (a : ℕ) (s : TimeSlot) → (split_front test a s).1.end ≡ s.end
unfolding split_front
split_front_end test a s = ground arith

-- The two lists of split_back, with the count, around what follows.
abbrev entered : TestType → ℕ → TimeSlot → List TimeSlot → List TimeSlot → List TimeSlot
entered test b s slots after =
    let (inside, back) = split_back test b s slots in
    map (add_reservation test) inside ++ (back ++ after)

-- A walk that ends well after a step over a slot ended well from there.
step_over-run :
    (s : TimeSlot) (w : Walk) (slots after : List TimeSlot)
    → step_over s w ≡ run slots after
    → (slots' : List TimeSlot) × (w ≡ run slots' after) × (slots ≡ s ∷ slots')
step_over-run s (conflict c) slots after h = cc
step_over-run s (run slots' after') slots after h = (slots', ground arith, ground arith)

-- The last slot, where the code looks no further.
entered_last :
    (test : TestType) (b : ℕ) (s : TimeSlot) (slots after rest : List TimeSlot)
    → run [] rest ≡ run slots after
    → entered test b s slots after ≡ (
        if ltb b s.end
        then add_reservation test (split_slot s (b + 1)).0 ∷ (split_slot s (b + 1)).1 ∷ rest
        else if ltb s.end b
        then add_reservation test s ∷ create_slot test (s.end + 1) b ∷ rest
        else add_reservation test s ∷ rest)
unfolding split_back
entered_last test b s [] after rest h = ground arith
entered_last test b s (x ∷ slots) after rest h = cc

entered-cover :
    (test : TestType) (b : ℕ) (s : TimeSlot) (rest slots after : List TimeSlot)
    → walk test b s rest ≡ run slots after
    → entered test b s slots after ≡ cover test b s rest
unfolding walk cover split_back
entered-cover test b s [] slots after h = entered_last test b s slots after [] h
entered-cover test b s (next ∷ rest) slots after h = elim (Bool-cases (leb s.end b)) [
  | inr short ↦ ground (arith, entered_last test b s slots after (next ∷ rest) (rw short at h))
  | inl long ↦ elim (Bool-cases (ltb b next.start)) [
    | inl far ↦
        rw far
          (ground (arith, entered_last test b s slots after (next ∷ rest) (rw (long, far) at h)))
    | inr near ↦ elim (Bool-cases (can_use_slot test next)) [
      | inr full ↦ cc (rw (long, near, full) at h)
      | inl free ↦
          let (slots', e, c) =
            step_over-run next (walk test b next rest) slots after (rw (long, near, free) at h) in
          ground (arith, c, entered-cover test b next rest slots' after e)
    ]
  ]
]

-- Entering the reservation at the first slot that overlaps it is the direct description.
pub enter-insert :
    (test : TestType) (a b : ℕ) (s : TimeSlot) (rest slots after : List TimeSlot)
    → a ≤ s.end
    → s.start ≤ b
    → walk test b s rest ≡ run slots after
    → enter test a b s slots after ≡ insert test a b (s ∷ rest)
unfolding enter insert
enter-insert test a b s rest slots after ha hb h =
    let (front, first) = split_front test a s in
    let joined : entered test b first slots after ≡ cover test b first rest =
      entered-cover test b first rest slots after
        (rw (walk_end test b first s rest (split_front_end test a s)) h) in
    ground (arith, ap (λ (l : List TimeSlot). front ++ l) joined)
