-- ===== src/Reservation/Reachable.antt =====
-- bwctld/bwctld.c: what holds of the daemon after any sequence of steps of its children.
use bwctl.Prelude.{ℕ, ◌≤◌, ◌≡◌, refl, Option, none, some, List, [], ◌∷◌, arith, All, get_elem?, set}
use bwctl.Tools.{Tool}
use bwctl.Schedule.{TimeSlot}
use bwctl.Schedule.Timeline.{Timeline, load}
use bwctl.Reservation.{Reservation, State}
use bwctl.Reservation.Daemon.{
  Event, handle, Daemon, act, Safe, Reach, start, fork, step, count, count-set,
}
use bwctl.Reservation.Invariant.{Sound, handle-Sound}

-- The step of one child, from the sum over all of them to the same sum.
act-Sound :
    (tools : List Tool) (e : Event) (i : ℕ) (res : Option Reservation) (d : Daemon)
    → get_elem? d.children i ≡ some res
    → Safe tools e (record { slots = d.slots; res = res })
    → Timeline 0 d.slots
    → ((t : ℕ) → load t d.slots ≤ count t d.children)
    → Timeline 0 (act tools e i res d).slots
      × ((t : ℕ) → load t (act tools e i res d).slots ≤ count t (act tools e i res d).children)
unfolding act
act-Sound tools e i res d at_i safe timeline held =
    let others : ℕ → ℕ = λ t. count t (set d.children i none) in
    let new : State = handle tools e (record { slots = d.slots; res = res }) in
    let v : Sound others new.slots new.res =
      handle-Sound others tools e d.slots res
        (record {
          timeline = timeline;
          held = λ t. omega (arith, held t, count-set t i res none d.children at_i);
        })
        safe in
    (
      v.timeline,
      λ t. omega (
        arith,
        v.held t,
        count-set t i res none d.children at_i,
        count-set t i res new.res d.children at_i,
      ),
    )

-- After any steps of any children, as long as the times of their demands do not wrap, the daemon's
-- list of slots is in order, without overlap or empty slots, no slot is over its maximum, and each
-- second holds at most as many reservations as there are children whose reservation covers it.
pub Reach-Timeline :
    (tools : List Tool) (d : Daemon)
    → Reach tools d
    → Timeline 0 d.slots × ((t : ℕ) → load t d.slots ≤ count t d.children)
Reach-Timeline tools _ start = (tt, λ t. omega arith)
Reach-Timeline tools _ (fork d h) =
    let ih = Reach-Timeline tools d h in (ih.0, λ t. omega (arith, ih.1 t))
Reach-Timeline tools _ (step d e i res h at_i safe) =
    let ih = Reach-Timeline tools d h in act-Sound tools e i res d at_i safe ih.0 ih.1

count_idle :
    (t : ℕ) (children : List (Option Reservation))
    → All (λ c. c ≡ none) children
    → count t children ≡ 0
count_idle t [] h = refl
count_idle t (c ∷ children) h = rw (h.0, count_idle t children h.1) refl

no_slots : (slots : List TimeSlot) → Timeline 0 slots → ((t : ℕ) → load t slots ≡ 0) → slots ≡ []
no_slots [] v h = refl
no_slots (s ∷ slots) v h = absurd (ground (arith, h s.start))

-- After any steps of any children, as long as the times of their demands do not wrap and begin in
-- 1970 or later: when no child holds a reservation, the list of slots is empty, and nothing that
-- was entered is left behind.
pub Reach-idle :
    (tools : List Tool) (d : Daemon) → Reach tools d → All (λ c. c ≡ none) d.children → d.slots ≡ []
Reach-idle tools d h idle =
    let v = Reach-Timeline tools d h in
    no_slots d.slots v.0 (λ t. omega (arith, v.1 t, count_idle t d.children idle))
