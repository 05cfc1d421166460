-- ===== src/Schedule.antt =====
-- bwctld/bwctld.c, the daemon's schedule: the list of time slots (TAILQ `time_slots`, earliest
-- first, as a List) and the operations on one slot. Times are seconds since 1970 (time_t), never
-- negative here. `type` is that of BWLToolGetTestTypesByID for the reservation's tool.
pub mod Width
pub mod Search
pub mod Timeline
pub mod Insert
pub mod Range
pub mod Seen
pub mod Fit
pub mod Load
pub mod Seconds
pub mod Remove
pub mod Faults
mod Tests
use bwctl.Prelude.{
  ℕ, ◌+◌, ◌-◌, Bool, true, false, List, [], ◌∷◌, ◌++◌, map, ltb, leb, ◌==◌, if◌then◌else◌,
}
use bwctl.Tools.{TestType}

-- time_slot_types
pub data SlotType : Type 0 where
  any bandwidth latency : SlotType

-- struct TimeSlotRec, without the links of the list.
pub record TimeSlot : Type 0 where
  pub type : SlotType
  pub start : ℕ
  pub end : ℕ
  pub num_reservations : ℕ
  pub max_reservations : ℕ

-- TimeSlotAddReservation
abbrev type_after : TestType → SlotType → SlotType
type_after TestType.throughput t = bandwidth
type_after TestType.latency t = latency
type_after _ t = t

pub add_reservation : TestType → TimeSlot → TimeSlot
add_reservation test s = record s {
  type = type_after test s.type;
  num_reservations = s.num_reservations + 1;
}

-- TimeSlotCreate
pub create_slot : TestType → ℕ → ℕ → TimeSlot
unfolding add_reservation
create_slot test start end =
    add_reservation test
      (record { type = any; start = start; end = end; num_reservations = 0; max_reservations = 30 })

-- TimeSlotSplit: the slot cut off at `time`, and the new one. The new record comes from calloc, and
-- its type is not set: it stays SLOT_ANY.
pub split_slot : TimeSlot → ℕ → TimeSlot × TimeSlot
split_slot s time = (
  record s { end = time - 1 },
  record {
    type = any;
    start = time;
    end = s.end;
    num_reservations = s.num_reservations;
    max_reservations = s.max_reservations;
  },
)

-- TimeSlotHasReservation, for a reservation from second `res_start` to second `res_end`.
unfoldable pub has_reservation : TimeSlot → ℕ → ℕ → Bool
has_reservation s res_start res_end =
    if ltb res_end s.start then false else if ltb s.end res_start then false else true

-- TimeSlotRemoveReservation. The count of a slot in the list is never 0 (`Timeline`).
unfoldable pub remove_reservation : TimeSlot → TimeSlot
remove_reservation s = record s { num_reservations = s.num_reservations - 1 }

-- ResRemove
unfoldable pub res_remove : ℕ → ℕ → List TimeSlot → List TimeSlot
unfolding has_reservation remove_reservation
res_remove res_start res_end [] = []
res_remove res_start res_end (s ∷ slots) =
    let rest = res_remove res_start res_end slots in
    if has_reservation s res_start res_end
    then (if (remove_reservation s).num_reservations == 0
        then rest
        else remove_reservation s ∷ rest)
    else s ∷ rest

-- ReservationCanUseSlot: the part that looks at the types.
pub type_allows : TestType → SlotType → Bool
type_allows TestType.throughput bandwidth = false
type_allows TestType.throughput latency = false
type_allows TestType.throughput any = true
type_allows TestType.latency bandwidth = false
type_allows TestType.latency _ = true
type_allows _ _ = true

-- ReservationCanUseSlot
pub can_use_slot : TestType → TimeSlot → Bool
can_use_slot test s =
    if type_allows test s.type
    then (if s.num_reservations == s.max_reservations then false else true)
    else false

-- The walk from the first slot that overlaps the reservation to the last: a slot that conflicts,
-- or the slots after the first up to the last, with those that follow.
pub data Walk : Type 0 where
  conflict : TimeSlot → Walk
  run : List TimeSlot → List TimeSlot → Walk

abbrev pub step_over : TimeSlot → Walk → Walk
step_over s (conflict c) = conflict c
step_over s (run slots after) = run (s ∷ slots) after

-- `while (difftime(last_slot->end, res_end) <= 0) …`, from `last`.
pub walk : TestType → ℕ → TimeSlot → List TimeSlot → Walk
walk test res_end last [] = run [] []
walk test res_end last (next ∷ rest) =
    let further = step_over next (walk test res_end next rest) in
    if leb last.end res_end
    then (if ltb res_end next.start
        then run [] (next ∷ rest)
        else if can_use_slot test next
        then further
        else conflict next)
    else run [] (next ∷ rest)

-- The first slot is cut at the start of the reservation, or a slot is put before it: the slots
-- before the first one that overlaps, and that one.
pub split_front : TestType → ℕ → TimeSlot → List TimeSlot × TimeSlot
unfolding split_slot create_slot
split_front test res_start first =
    if ltb first.start res_start
    then ((split_slot first res_start).0 ∷ [], (split_slot first res_start).1)
    else if ltb res_start first.start
    then (create_slot test res_start (first.start - 1) ∷ [], first)
    else ([], first)

-- The last slot is cut after the end of the reservation, or a slot is put behind it: the slots from
-- `s` to the last, and what is new behind them.
pub split_back : TestType → ℕ → TimeSlot → List TimeSlot → List TimeSlot × List TimeSlot
unfolding split_slot create_slot
split_back test res_end s (next ∷ rest) =
    let (slots, back) = split_back test res_end next rest in (s ∷ slots, back)
split_back test res_end s [] =
    if ltb res_end s.end
    then ((split_slot s (res_end + 1)).0 ∷ [], (split_slot s (res_end + 1)).1 ∷ [])
    else if ltb s.end res_end
    then (s ∷ [], create_slot test (s.end + 1) res_end ∷ [])
    else (s ∷ [], [])

-- The reservation is entered in the slots from `first` over `slots`, which `after` follows.
pub enter : TestType → ℕ → ℕ → TimeSlot → List TimeSlot → List TimeSlot → List TimeSlot
unfolding split_front split_back
enter test res_start res_end first slots after =
    let (front, first') = split_front test res_start first in
    let (inside, back) = split_back test res_end first' slots in
    front ++ (map (add_reservation test) inside ++ (back ++ after))
