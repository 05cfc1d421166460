-- ===== src/Schedule/Remove.antt =====
-- ResRemove after the reservation was entered.
use bwctl.Prelude.{ℕ, suc, ◌-◌, ◌≤◌, ◌<◌, ◌≡◌, List, [], ◌∷◌, arith, leb, if◌then◌else◌, ◌&&◌}
use bwctl.Tools.{TestType}
use bwctl.Schedule.{TimeSlot, add_reservation, create_slot, split_slot, split_front, res_remove}
use bwctl.Schedule.Insert.{cover, insert}
use bwctl.Schedule.Timeline.{Timeline, load, touched, load-res_remove}
use bwctl.Schedule.Load.{Fits, insert-Timeline}
use bwctl.Schedule.Seconds.{load-insert}

-- Every slot that overlaps the seconds from `a` to `b` lies within them.
abbrev Aligned : ℕ → ℕ → List TimeSlot → Type 0
Aligned a b [] = Unit {0}
Aligned a b (s ∷ slots) =
    (a ≤ s.end → s.start ≤ b → (a ≤ s.start) × (s.end ≤ b)) × Aligned a b slots

Aligned-behind : (a b n : ℕ) (slots : List TimeSlot) → Timeline n slots → b < n → Aligned a b slots
Aligned-behind a b n [] v h = tt
Aligned-behind a b n (s ∷ slots) v h =
    (λ p q. absurd (omega arith), Aligned-behind a b (suc s.end) slots v.4 (omega arith))

cover-Aligned :
    (test : TestType) (a b n : ℕ) (s : TimeSlot) (rest : List TimeSlot)
    → Timeline n (s ∷ rest)
    → a ≤ s.start
    → s.start ≤ b
    → Aligned a b (cover test b s rest)
unfolding cover add_reservation split_slot create_slot
cover-Aligned test a b n s [] v ha hb = ground arith
cover-Aligned test a b n s (next ∷ rest) v ha hb = ground (
  arith,
  Aligned-behind a b (suc s.end) (next ∷ rest) v.4,
  Aligned-behind a b (suc next.end) rest v.4.4,
  cover-Aligned test a b (suc s.end) next rest v.4,
)

insert-Aligned :
    (test : TestType) (a b n : ℕ) (slots : List TimeSlot)
    → Timeline n slots
    → a ≤ b
    → Aligned a b (insert test a b slots)
unfolding insert split_front split_slot create_slot add_reservation
insert-Aligned test a b n [] v hab = ground arith
insert-Aligned test a b n (s ∷ rest) v hab = ground (
  arith,
  insert-Aligned test a b (suc s.end) rest v.4,
  Aligned-behind a b (suc s.end) rest v.4,
  cover-Aligned test a b n s rest v,
  cover-Aligned test a b a (split_slot s a).1 rest,
)

-- In an aligned list the touched seconds that hold anything are those of the reservation.
load-res_remove-Aligned :
    (a b t n : ℕ) (slots : List TimeSlot)
    → Timeline n slots
    → Aligned a b slots
    → (if touched a b t slots then load t slots - 1 else load t slots)
      ≡ (if leb a t && leb t b then load t slots - 1 else load t slots)
load-res_remove-Aligned a b t n [] v h = ground arith
load-res_remove-Aligned a b t n (s ∷ slots) v h =
    ground (arith, load-res_remove-Aligned a b t (suc s.end) slots v.4 h.1, h.0)

-- A reservation that fits a well-formed list, entered and then taken out by ResRemove, leaves the
-- count of every second as it was.
pub res_remove-insert :
    (test : TestType) (a b t n : ℕ) (slots : List TimeSlot)
    → Timeline n slots
    → n ≤ a
    → a ≤ b
    → Fits test a b slots
    → load t (res_remove a b (insert test a b slots)) ≡ load t slots
res_remove-insert test a b t n slots v hn hab f =
    let v' = insert-Timeline test a b n slots v hn hab f in
    ground (
      arith,
      load-res_remove a b t n (insert test a b slots) v',
      load-res_remove-Aligned a b t n (insert test a b slots) v'
          (insert-Aligned test a b n slots v hab),
      load-insert test a b t n slots v hab,
    )
