-- ===== src/Schedule/Tests.antt =====
-- bwctld/bwctld.c: the list of slots on concrete reservations.
use bwctl.Prelude.{
  ℕ, suc, ◌+◌, ◌*◌, ◌<◌, ◌≡◌, refl, false, none, List, [], ◌∷◌, arith, leb, if◌then◌else◌, ◌&&◌,
}
use bwctl.Num64.{u32_mod}
use bwctl.TimeStamp.{jan_1970}
use bwctl.Tools.{TestType}
use bwctl.Schedule.{SlotType, TimeSlot, type_allows, can_use_slot, walk, enter, res_remove}
use bwctl.Schedule.Search.{Wish, Times, times_from, find_slot}
use bwctl.Schedule.Timeline.{Timeline, load}
use bwctl.Schedule.Insert.{insert, enter-insert}
use bwctl.Schedule.Load.{Fits}
use bwctl.Schedule.Seconds.{in_gap, load-insert}
use bwctl.Schedule.Remove.{res_remove-insert}
use bwctl.Schedule.Range.{times_from-InRange}
use bwctl.Schedule.Fit.{Good, find_slot-Good}
use bwctl.Schedule.Faults.{throughput-beside_latency}

abbrev slot : SlotType → ℕ → ℕ → ℕ → TimeSlot
slot type start end n = record {
  type = type;
  start = start;
  end = end;
  num_reservations = n;
  max_reservations = 30;
}

-- Two slots of latency tests, with free seconds around them.
abbrev first_slot : TimeSlot
first_slot = slot SlotType.latency 100 120 1

abbrev second_slot : TimeSlot
second_slot = slot SlotType.latency 130 140 2

abbrev slots : List TimeSlot
slots = first_slot ∷ second_slot ∷ []

slots-Timeline : Timeline 0 slots
slots-Timeline = (
  omega arith,
  omega arith,
  omega arith,
  omega arith,
  (omega arith, omega arith, omega arith, omega arith, tt),
)

slots-Fits : Fits TestType.latency 110 135 slots
unfolding can_use_slot type_allows
slots-Fits = (λ _ _. refl, (λ _ _. refl, tt))

load-insert_example : load 125 (insert TestType.latency 110 135 slots) ≡ (
    if leb 110 125 && leb 125 135
    then (if in_gap 110 135 125 slots then 0 else load 125 slots + 1)
    else load 125 slots)
load-insert_example = load-insert TestType.latency 110 135 125 0 slots slots-Timeline (omega arith)

-- The second between the two slots stays free.
gap_free : load 125 (insert TestType.latency 110 135 slots) ≡ 0
gap_free = load-insert_example

res_remove-insert_example :
    load 115 (res_remove 110 135 (insert TestType.latency 110 135 slots)) ≡ load 115 slots
res_remove-insert_example =
    res_remove-insert TestType.latency 110 135 115 0 slots slots-Timeline (omega arith)
      (omega arith) slots-Fits

enter-insert_example :
    enter TestType.latency 110 135 first_slot (second_slot ∷ []) []
    ≡ insert TestType.latency 110 135 slots
enter-insert_example =
    enter-insert TestType.latency 110 135 first_slot (second_slot ∷ []) (second_slot ∷ []) []
      (omega arith) (omega arith) (unfold walk can_use_slot type_allows in refl)

throughput-beside_latency_example :
    (can_use_slot TestType.throughput first_slot ≡ false)
    × Fits TestType.throughput (suc 115) 120 (insert TestType.latency 105 115 slots)
    × (load 118 (insert TestType.latency 105 115 slots) ≡ 1)
    × (0 < 1)
throughput-beside_latency_example =
    throughput-beside_latency 105 115 118 0 first_slot (second_slot ∷ []) slots-Timeline refl
      (omega arith) (omega arith) (omega arith) (omega arith) (omega arith)

-- A throughput test that starts where the first slot lies has to go behind the second.
abbrev wish : Wish
wish = record {
  test = TestType.throughput;
  fuzz = u32_mod;
  dtime = 5 * u32_mod;
  ltime = (jan_1970 + 1000) * u32_mod;
}

abbrev begin : Times
begin = times_from wish ((jan_1970 + 110) * u32_mod)

find_slot-Good_example : Good wish begin slots (find_slot wish none begin slots)
find_slot-Good_example =
    find_slot-Good wish none begin 0 slots slots-Timeline (omega arith, (omega arith, tt))
      (times_from-InRange wish ((jan_1970 + 110) * u32_mod) (omega arith) (omega arith)) refl
