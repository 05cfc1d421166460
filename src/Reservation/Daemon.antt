-- ===== src/Reservation/Daemon.antt =====
-- bwctld/bwctld.c: the daemon with its children, whose reservations share one list of slots. A step
-- is a new child (NewConnection), or one message or the end of a child (CheckFD, FreeChldState).
use bwctl.Prelude.{
  ℕ, zero, suc, ◌+◌, ◌≡◌, Option, none, some, List, [], ◌∷◌, arith, leb, if◌then◌else◌, ◌&&◌,
  get_elem?, set,
}
use bwctl.Tools.{Tool}
use bwctl.Schedule.{TimeSlot}
use bwctl.Schedule.Search.{first_second, last_second}
use bwctl.Reservation.{
  Reservation, Request, Environment, State, delete_reservation, take_reservation, wish_of,
  reservation_demand, reservation_complete,
}
use bwctl.Reservation.Grant.{NoWrap}

-- What a child does: the two messages, and its end.
pub data Event : Type 0 where
  demand : Environment → Request → Event
  complete : List ℕ → Event
  gone : Event

-- What the daemon does about it, to the list of slots and the child's reservation.
unfoldable pub handle : List Tool → Event → State → State
unfolding reservation_demand reservation_complete
handle tools (demand env q) st = (reservation_demand tools env q st).0
handle tools (complete sid) st = (reservation_complete sid st).0
handle tools gone st = delete_reservation st

-- The list of slots, and each child's reservation.
pub record Daemon : Type 0 where
  pub slots : List TimeSlot
  pub children : List (Option Reservation)

-- The daemon after child `i` with reservation `res` did something.
unfoldable pub act : List Tool → Event → ℕ → Option Reservation → Daemon → Daemon
unfolding handle
act tools e i res d =
    let st = handle tools e (record { slots = d.slots; res = res }) in
    record { slots = st.slots; children = set d.children i st.res }

-- The times of a demand do not wrap. Other events have none.
abbrev pub Safe : List Tool → Event → State → Type 0
Safe tools (demand env q) st =
    (hsecs now : ℕ) (r : Reservation) (slots : List TimeSlot)
    → env.hsecs ≡ some hsecs
    → env.currtime ≡ some now
    → take_reservation env q st ≡ some (slots, r)
    → NoWrap (wish_of tools q r.tool now hsecs) q now slots
Safe tools _ st = Unit {0}

pub data Reach (tools : List Tool) : Daemon → Type 0 where
  start : Reach tools (record { slots = []; children = [] })
  fork :
      (d : Daemon)
      → Reach tools d
      → Reach tools (record { slots = d.slots; children = none ∷ d.children })
  step :
      (d : Daemon) (e : Event) (i : ℕ) (res : Option Reservation)
      → Reach tools d
      → get_elem? d.children i ≡ some res
      → Safe tools e (record { slots = d.slots; res = res })
      → Reach tools (act tools e i res d)

-- Whether a child's reservation covers second `t`, and how many of them do.
abbrev pub covers : ℕ → Option Reservation → ℕ
covers t none = 0
covers t (some r) = if leb (first_second r.times) t && leb t (last_second r.times) then 1 else 0

abbrev pub count : ℕ → List (Option Reservation) → ℕ
count t [] = 0
count t (c ∷ children) = covers t c + count t children

pub count-set :
    (t i : ℕ) (old new : Option Reservation) (children : List (Option Reservation))
    → get_elem? children i ≡ some old
    → count t (set children i new) + covers t old ≡ count t children + covers t new
count-set t i old new [] h = absurd (ground (arith, h))
count-set t zero old new (c ∷ children) h = ground (arith, h)
count-set t (suc i) old new (c ∷ children) h = omega (arith, count-set t i old new children h)
