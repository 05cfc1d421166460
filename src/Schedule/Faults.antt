-- ===== src/Schedule/Faults.antt =====
-- bwctld/bwctld.c: what a slot's type is worth once TimeSlotSplit has cut the slot.
use bwctl.Prelude.{
  ℕ, suc, ◌+◌, ◌≤◌, ◌<◌, ◌≡◌, refl, ap, ◌∙◌, true, false, List, [], ◌∷◌, arith, ltb,
}
use bwctl.Tools.{TestType}
use bwctl.Schedule.{
  SlotType, TimeSlot, add_reservation, split_slot, type_allows, can_use_slot, split_front,
}
use bwctl.Schedule.Insert.{cover, insert}
use bwctl.Schedule.Timeline.{Timeline, load}
use bwctl.Schedule.Load.{Fits}
use bwctl.Schedule.Range.{Fits-behind}
use bwctl.Schedule.Seconds.{load-insert}

cover_inside :
    (test : TestType) (b : ℕ) (s : TimeSlot) (rest : List TimeSlot)
    → ltb b s.end ≡ true
    → cover test b s rest
      ≡ add_reservation test (split_slot s (b + 1)).0 ∷ (split_slot s (b + 1)).1 ∷ rest
unfolding cover
cover_inside test b s [] h = rw h refl
cover_inside test b s (next ∷ rest) h = rw h refl

-- A reservation strictly inside a slot cuts it in three.
insert_inside :
    (test : TestType) (a b : ℕ) (s : TimeSlot) (rest : List TimeSlot)
    → s.start < a
    → a ≤ b
    → b < s.end
    → insert test a b (s ∷ rest)
      ≡ (split_slot s a).0
        ∷ add_reservation test (split_slot (split_slot s a).1 (b + 1)).0
        ∷ (split_slot (split_slot s a).1 (b + 1)).1
        ∷ rest
unfolding insert split_front
insert_inside test a b s rest ha hab hb =
    let reaches : ltb s.end a ≡ false = ground arith in
    let near : ltb b s.start ≡ false = ground arith in
    let inside : ltb s.start a ≡ true = ground arith in
    rw (reaches, near, inside)
      (ap (λ slots. (split_slot s a).0 ∷ slots)
        (cover_inside test b (split_slot s a).1 rest (unfold split_slot in ground arith)))

-- The seconds behind a reservation that is entered keep their count.
load_behind :
    (test : TestType) (a b x n : ℕ) (slots : List TimeSlot)
    → Timeline n slots
    → a ≤ b
    → b < x
    → load x (insert test a b slots) ≡ load x slots
load_behind test a b x n slots v hab h = load-insert test a b x n slots v hab ∙ ground arith

-- A slot that holds latency tests, and has room for another, refuses a throughput test. Once
-- another latency test was entered for seconds strictly inside the slot, the seconds behind that
-- test are open to a throughput test: the slot that is cut off has lost its type. Each of these
-- seconds still holds the slot's number of reservations, which is not zero.
pub throughput-beside_latency :
    (a b x n : ℕ) (s : TimeSlot) (rest : List TimeSlot)
    → Timeline n (s ∷ rest)
    → s.type ≡ SlotType.latency
    → s.num_reservations < s.max_reservations
    → s.start < a
    → a ≤ b
    → b < x
    → x ≤ s.end
    → (can_use_slot TestType.throughput s ≡ false)
      × Fits TestType.throughput (suc b) s.end (insert TestType.latency a b (s ∷ rest))
      × (load x (insert TestType.latency a b (s ∷ rest)) ≡ s.num_reservations)
      × (0 < s.num_reservations)
unfolding split_slot can_use_slot type_allows add_reservation
throughput-beside_latency a b x n s rest v e room ha hab hb hx =
    let inside : b < s.end = omega arith in
    let held : load x (s ∷ rest) ≡ s.num_reservations = ground arith in
    let kept = load_behind TestType.latency a b x n (s ∷ rest) v hab hb ∙ held in
    let cut = insert_inside TestType.latency a b s rest ha hab inside in
    (
      rw e refl,
      rw cut (
        λ p. absurd (omega arith),
        (
          λ p. absurd (omega arith),
          (
            λ p q. ground arith,
            Fits-behind TestType.throughput (suc b) s.end (suc s.end) rest v.4 (omega arith),
          ),
        ),
      ),
      kept,
      omega arith,
    )
