-- ===== src/Schedule/Seconds.antt =====
-- How many reservations each second holds after a reservation from second `a` to `b` was entered.
use bwctl.Prelude.{
  ℕ, suc, ◌+◌, ◌≤◌, ◌<◌, ◌≡◌, refl, Bool, false, List, [], ◌∷◌, ◌++◌, arith, ltb, leb, ◌==◌,
  if◌then◌else◌, Bool-cases, inl, inr, ◌&&◌, ◌||◌, ltb→le,
}
use bwctl.Tools.{TestType}
use bwctl.Schedule.{TimeSlot, add_reservation, create_slot, split_slot, split_front}
use bwctl.Schedule.Insert.{cover, insert}
use bwctl.Schedule.Timeline.{Timeline, load, load_before}

-- A slot that overlaps the reservation ends before second `t`; one starts after it.
abbrev slot_before : ℕ → ℕ → List TimeSlot → Bool
slot_before a t [] = false
slot_before a t (s ∷ slots) = leb a s.end && ltb s.end t || slot_before a t slots

abbrev slot_after : ℕ → ℕ → List TimeSlot → Bool
slot_after b t [] = false
slot_after b t (s ∷ slots) = ltb t s.start && leb s.start b || slot_after b t slots

-- Second `t` lies in no slot, and between two slots that overlap the reservation.
abbrev pub in_gap : ℕ → ℕ → ℕ → List TimeSlot → Bool
in_gap a b t slots = load t slots == 0 && (slot_before a t slots && slot_after b t slots)

slot_before_none :
    (a t n : ℕ) (slots : List TimeSlot) → Timeline n slots → t ≤ n → slot_before a t slots ≡ false
slot_before_none a t n [] v h = refl
slot_before_none a t n (s ∷ slots) v h =
    ground (arith, slot_before_none a t (suc s.end) slots v.4 (omega arith))

slot_after_none :
    (b t n : ℕ) (slots : List TimeSlot) → Timeline n slots → b < n → slot_after b t slots ≡ false
slot_after_none b t n [] v h = refl
slot_after_none b t n (s ∷ slots) v h =
    ground (arith, slot_after_none b t (suc s.end) slots v.4 (omega arith))

cover_before :
    (test : TestType) (b t n : ℕ) (s : TimeSlot) (rest : List TimeSlot)
    → Timeline n (s ∷ rest)
    → s.start ≤ b
    → t < s.start
    → load t (cover test b s rest) ≡ 0
unfolding cover add_reservation split_slot create_slot
cover_before test b t n s [] v hb ht = ground arith
cover_before test b t n s (next ∷ rest) v hb ht = ground (
  arith,
  cover_before test b t (suc s.end) next rest v.4,
  load_before (suc s.end) t (next ∷ rest) v.4,
)

load-cover :
    (test : TestType) (b t n : ℕ) (s : TimeSlot) (rest : List TimeSlot)
    → Timeline n (s ∷ rest)
    → s.start ≤ b
    → s.start ≤ t
    → load t (cover test b s rest) ≡ (
        if leb t b
        then (if load t (s ∷ rest) == 0 && slot_after b t rest then 0 else load t (s ∷ rest) + 1)
        else load t (s ∷ rest))
unfolding cover add_reservation split_slot create_slot
load-cover test b t n s [] v hb ht = ground arith
load-cover test b t n s (next ∷ rest) v hb ht = elim (Bool-cases (ltb b s.end)) [
  | inl cut ↦ rw cut (
      ground (
        arith,
        load_before (suc s.end) t (next ∷ rest) v.4,
        slot_after_none b t (suc s.end) (next ∷ rest) v.4,
      ))
  | inr whole ↦ rw whole (elim (Bool-cases (ltb b next.start)) [
    | inl far ↦ rw far (
        ground (
          arith,
          load_before (suc next.end) t rest v.4.4,
          slot_after_none b t (suc next.end) rest v.4.4,
        ))
    | inr near ↦ rw near (
        ground (
          arith,
          load-cover test b t (suc s.end) next rest v.4,
          cover_before test b t (suc s.end) next rest v.4,
          load_before (suc next.end) t rest v.4.4,
        ))
  ])
]

-- The same where the first slot that overlaps is cut at `a`, or a new slot is put before it.
load_front :
    (test : TestType) (a b t n : ℕ) (s : TimeSlot) (rest : List TimeSlot)
    → Timeline n (s ∷ rest)
    → a ≤ s.end
    → s.start ≤ b
    → a ≤ b
    → load t ((split_front test a s).0 ++ cover test b (split_front test a s).1 rest) ≡ (
        if leb a t && leb t b
        then (if in_gap a b t (s ∷ rest) then 0 else load t (s ∷ rest) + 1)
        else load t (s ∷ rest))
unfolding split_front split_slot create_slot add_reservation
load_front test a b t n s rest v ha hb hab = elim (Bool-cases (ltb s.start a)) [
  | inl inside ↦
      let second = (split_slot s a).1 in
      let v' : Timeline a (second ∷ rest) = (omega arith, ha, v.2, v.3, v.4) in
      rw inside (
        ground (
          arith,
          load-cover test b t a second rest v' hab,
          cover_before test b t a second rest v' hab,
          load_before (suc s.end) t rest v.4,
          slot_before_none a t (suc s.end) rest v.4,
        ))
  | inr outside ↦ rw outside (elim (Bool-cases (ltb a s.start)) [
    | inl before ↦ rw before (
        ground (
          arith,
          load-cover test b t n s rest v hb,
          cover_before test b t n s rest v hb,
          load_before (suc s.end) t rest v.4,
          slot_before_none a t (suc s.end) rest v.4,
        ))
    | inr same ↦ rw same (
        ground (
          arith,
          load-cover test b t n s rest v hb,
          cover_before test b t n s rest v hb,
          load_before (suc s.end) t rest v.4,
          slot_before_none a t (suc s.end) rest v.4,
        ))
  ])
]

-- Entering a reservation from second `a` to second `b` in a well-formed list: a second outside
-- keeps its count; a second inside counts one more, except where it lies in no slot between two
-- slots that overlap the reservation. There it is still counted as free.
pub load-insert :
    (test : TestType) (a b t n : ℕ) (slots : List TimeSlot)
    → Timeline n slots
    → a ≤ b
    → load t (insert test a b slots) ≡ (
        if leb a t && leb t b
        then (if in_gap a b t slots then 0 else load t slots + 1)
        else load t slots)
unfolding insert create_slot split_front
load-insert test a b t n [] v hab = ground arith
load-insert test a b t n (s ∷ rest) v hab = elim (Bool-cases (ltb s.end a)) [
  | inl earlier ↦ rw earlier (ground (arith, load-insert test a b t (suc s.end) rest v.4 hab))
  | inr reached ↦ rw reached (elim (Bool-cases (ltb b s.start)) [
    | inl later ↦ rw later (
        ground
          (arith, load_before (suc s.end) t rest v.4, slot_after_none b t (suc s.end) rest v.4))
    | inr near ↦
        rw near (load_front test a b t n s rest v (ltb→le _ _ reached) (ltb→le _ _ near) hab)
  ])
]
