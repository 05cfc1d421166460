-- ===== src/Schedule/Search.antt =====
-- The search of ChldReservationDemand for an open slot: the loop over the list of slots and the
-- code behind it. Times of the reservation are fixed-point (BWLNum64), slots are in seconds.
use bwctl.Prelude.{
  ℕ, ◌+◌, Bool, true, Option, none, some, List, [], ◌∷◌, ltb, leb, ◌==◌, if◌then◌else◌, not, ◌&&◌,
}
use bwctl.Num64.{num64_add}
use bwctl.TimeStamp.{num64_to_timestamp, timestamp_to_num64}
use bwctl.Tools.{TestType}
use bwctl.Schedule.{TimeSlot, Walk, conflict, run, create_slot, can_use_slot, walk, enter}

-- The fields of the reservation that the search moves.
pub record Times : Type 0 where
  pub start : ℕ
  pub restime : ℕ
  pub end : ℕ

-- What stays fixed: the test type of the tool, res->fuzz, `dtime` (the duration with fuzz applied)
-- and `ltime` (0 if there is no latest time).
pub record Wish : Type 0 where
  pub test : TestType
  pub fuzz : ℕ
  pub dtime : ℕ
  pub ltime : ℕ

-- res->restime and res->end computed from res->start.
unfoldable pub times_from : Wish → ℕ → Times
times_from w start = record {
  start = start;
  restime = num64_add start w.fuzz;
  end = num64_add (num64_add start w.fuzz) w.dtime;
}

-- res_start and res_end
unfoldable pub first_second : Times → ℕ
first_second t = num64_to_timestamp t.start

unfoldable pub last_second : Times → ℕ
last_second t = num64_to_timestamp t.end + 1

-- `ltime && BWLNum64Cmp(res->restime, ltime) > 0`
unfoldable pub is_late : Wish → Times → Bool
is_late w t = not (w.ltime == 0) && ltb w.ltime t.restime

-- The test at the head of the loop, which computes the times anew if the end is not behind the
-- start.
unfoldable pub recheck : Wish → Times → Times
unfolding times_from
recheck w t = if leb t.end t.start then times_from w t.start else t

-- The times after a skip to the end of a slot.
unfoldable pub times_behind : Wish → TimeSlot → Times
unfolding times_from
times_behind w s = times_from w (timestamp_to_num64 (s.end + 1))

-- `!prev_slot || difftime(prev_slot->end, res_start) < 0`
abbrev pub ends_before : Option TimeSlot → ℕ → Bool
ends_before none second = true
ends_before (some s) second = ltb s.end second

-- How the search ends: late, with the times that it had come to, or with the reservation entered.
pub data Outcome : Type 0 where
  denied : Times → Outcome
  placed : Times → List TimeSlot → Outcome

-- What one round of the loop decides: the end, or the next round's prev_slot and times.
pub data Round : Type 0 where
  stop : Outcome → Round
  next : Option TimeSlot → Times → Round

-- Behind the walk from `slot`: skip the conflicting slot, or enter the reservation.
unfoldable pub after_walk : Wish → Option TimeSlot → Times → TimeSlot → Walk → Round
after_walk w prev t slot (conflict c) = next prev (times_behind w c)
after_walk w prev t slot (run slots after) =
    stop (placed t (enter w.test (first_second t) (last_second t) slot slots after))

-- One round of the loop at `slot`, which `rest` follows. In an outcome the list starts at `slot`.
unfoldable pub round : Wish → Option TimeSlot → Times → TimeSlot → List TimeSlot → Round
unfolding recheck after_walk
round w prev t0 slot rest =
    let t = recheck w t0 in
    let res_start = first_second t in
    let res_end = last_second t in
    if is_late w t
    then stop (denied t)
    else if ltb slot.end res_start
    then next (some slot) t
    else if ends_before prev res_start && ltb res_end slot.start
    then stop (placed t (create_slot w.test res_start res_end ∷ slot ∷ rest))
    else if not (can_use_slot w.test slot)
    then next (some slot) (times_behind w slot)
    else after_walk w prev t slot (walk w.test res_end slot rest)

abbrev pub behind : TimeSlot → Outcome → Outcome
behind s (denied t) = denied t
behind s (placed t slots) = placed t (s ∷ slots)

-- TAILQ_FOREACH, and the code for `!added` where the list ends.
unfoldable pub find_slot : Wish → Option TimeSlot → Times → List TimeSlot → Outcome
unfolding round
find_slot w prev t [] =
    if is_late w t
    then denied t
    else placed t (create_slot w.test (first_second t) (last_second t) ∷ [])
find_slot w prev t (slot ∷ rest) = elim (round w prev t slot rest) [
  | stop o ↦ o
  | next prev' t' ↦ behind slot (find_slot w prev' t' rest)
]
