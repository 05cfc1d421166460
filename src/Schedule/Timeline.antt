-- ===== src/Schedule/Timeline.antt =====
-- The well-formedness of the list of slots of bwctld/bwctld.c: in order, disjoint, none empty and
-- none over its limit; and what ResRemove does to it.
use bwctl.Prelude.{
  ℕ, suc, ◌-◌, ◌≤◌, ◌<◌, ◌≡◌, Bool, false, List, [], ◌∷◌, arith, leb, if◌then◌else◌, ◌&&◌,
}
use bwctl.Schedule.{TimeSlot, res_remove}

-- The slots start at second `n` or later, follow one another without overlap, and hold at least one
-- reservation and at most their maximum.
abbrev pub Timeline : ℕ → List TimeSlot → Type 0
Timeline n [] = Unit {0}
Timeline n (s ∷ slots) =
    (n ≤ s.start)
    × (s.start ≤ s.end)
    × (0 < s.num_reservations)
    × (s.num_reservations ≤ s.max_reservations)
    × Timeline (suc s.end) slots

-- The reservations entered for second `t`: 0 where no slot covers it.
abbrev pub load : ℕ → List TimeSlot → ℕ
load t [] = 0
load t (s ∷ slots) = if leb s.start t && leb t s.end then s.num_reservations else load t slots

Timeline-mono : {m n : ℕ} (slots : List TimeSlot) → m ≤ n → Timeline n slots → Timeline m slots
Timeline-mono [] h v = tt
Timeline-mono (s ∷ slots) h v = (omega arith, v.1, v.2, v.3, v.4)

-- Nothing is entered before the first slot.
pub load_before : (n t : ℕ) (slots : List TimeSlot) → Timeline n slots → t < n → load t slots ≡ 0
load_before n t [] v h = omega arith
load_before n t (s ∷ slots) v h = ground (arith, load_before (suc s.end) t slots v.4 (omega arith))

-- ResRemove keeps the list well formed.
pub res_remove-Timeline :
    (a b n : ℕ) (slots : List TimeSlot) → Timeline n slots → Timeline n (res_remove a b slots)
unfolding res_remove
res_remove-Timeline a b n [] v = tt
res_remove-Timeline a b n (s ∷ slots) v = ground (
  arith,
  res_remove-Timeline a b (suc s.end) slots v.4,
  Timeline-mono {m = n} {n = suc s.end} (res_remove a b slots),
)

-- Whether the slot that covers second `t` overlaps the seconds from `a` to `b`.
abbrev pub touched : ℕ → ℕ → ℕ → List TimeSlot → Bool
touched a b t [] = false
touched a b t (s ∷ slots) =
    if leb s.start t && leb t s.end then leb s.start b && leb a s.end else touched a b t slots

-- ResRemove takes one reservation off every second of every slot that overlaps the reservation,
-- and touches no other second.
pub load-res_remove :
    (a b t n : ℕ) (slots : List TimeSlot)
    → Timeline n slots
    → load t (res_remove a b slots)
      ≡ (if touched a b t slots then load t slots - 1 else load t slots)
unfolding res_remove
load-res_remove a b t n [] v = ground arith
load-res_remove a b t n (s ∷ slots) v = ground (
  arith,
  load-res_remove a b t (suc s.end) slots v.4,
  load_before (suc s.end) t (res_remove a b slots),
  res_remove-Timeline a b (suc s.end) slots v.4,
)
