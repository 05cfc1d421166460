-- ===== src/Ipc/System.antt =====
-- bwctld/bwctld.c: the daemon and all its children, whose messages are bytes. A step is a new child
-- (NewConnection), one run of CheckFD for a child, or the end of a child (FreeChldState), which
-- takes its reservation out of the slots.
mod Tests
use mathlib.Core.Path.{subst}
use bwctl.Prelude.{
  ℕ, zero, suc, ◌≤◌, ◌≡◌, refl, sym, ap, ◌∙◌, Option, none, some, List, [], ◌∷◌, arith, get_elem?,
  set,
}
use bwctl.Tools.{Tool}
use bwctl.Schedule.{TimeSlot}
use bwctl.Schedule.Timeline.{Timeline, load}
use bwctl.Policy.{PolicyNode}
use bwctl.Policy.Usage.{Within}
use bwctl.Policy.Bounds.{resource_demand-Within}
use bwctl.Reservation.{Reservation, State, delete_reservation}
use bwctl.Reservation.Daemon.{Event, gone, handle, Daemon, act, Safe, Reach, count}
use bwctl.Reservation.Reachable.{Reach-Timeline}
use bwctl.Ipc.Dispatch.{World, Broker, check_fd, state_of, with_state}
use bwctl.Ipc.Effects.{event_of, Effect, nothing, admitted, counted, moved, check_fd-Effect}

-- The classes and slots, and of each child's ChldState its class and reservation.
pub record Server : Type 0 where
  pub classes : List PolicyNode
  pub slots : List TimeSlot
  pub children : List (Option ℕ × Option Reservation)

abbrev pub broker_of : Server → Option ℕ × Option Reservation → Broker
broker_of s (class, res) = record { classes = s.classes; slots = s.slots; node = class; res = res }

-- The server behind a step of child `i`.
abbrev pub put_back : Server → ℕ → Broker → Server
put_back s i b = record {
  classes = b.classes;
  slots = b.slots;
  children = set s.children i (b.node, b.res);
}

-- The times of the event, if there is one, do not wrap.
abbrev pub SafeEvent : List Tool → Option Event → State → Type 0
SafeEvent tools none st = Unit {0}
SafeEvent tools (some e) st = Safe tools e st

pub data Runs (tools : List Tool) (classes : List PolicyNode) : Server → Type 0 where
  boot : Runs tools classes (record { classes = classes; slots = []; children = [] })
  connect :
      (s : Server)
      → Runs tools classes s
      → Runs tools classes (record s { children = (none, none) ∷ s.children })
  message :
      (s : Server) (w : World) (i : ℕ) (c : Option ℕ × Option Reservation) (pipe : List ℕ)
      → Runs tools classes s
      → get_elem? s.children i ≡ some c
      → w.tools ≡ tools
      → SafeEvent tools (event_of w (broker_of s c) pipe) (state_of (broker_of s c))
      → Runs tools classes (put_back s i (check_fd w (broker_of s c) pipe).broker)
  exit :
      (s : Server) (i : ℕ) (c : Option ℕ × Option Reservation)
      → Runs tools classes s
      → get_elem? s.children i ≡ some c
      → Runs tools classes
          (let b = broker_of s c in put_back s i (with_state b (delete_reservation (state_of b))))

-- The same daemon without classes.
abbrev reservations : List (Option ℕ × Option Reservation) → List (Option Reservation)
reservations [] = []
reservations (c ∷ children) = c.1 ∷ reservations children

abbrev pub daemon_of : Server → Daemon
daemon_of s = record { slots = s.slots; children = reservations s.children }

get-reservations :
    (children : List (Option ℕ × Option Reservation)) (i : ℕ) (c : Option ℕ × Option Reservation)
    → get_elem? children i ≡ some c
    → get_elem? (reservations children) i ≡ some c.1
get-reservations [] i c h = absurd (ground (arith, h))
get-reservations (x ∷ children) zero c h = ground (arith, h)
get-reservations (x ∷ children) (suc i) c h = get-reservations children i c h

reservations-set :
    (children : List (Option ℕ × Option Reservation)) (i : ℕ) (class : Option ℕ)
    (res : Option Reservation)
    → reservations (set children i (class, res)) ≡ set (reservations children) i res
reservations-set [] i class res = refl
reservations-set (x ∷ children) zero class res = refl
reservations-set (x ∷ children) (suc i) class res =
    ap (λ (l : List (Option Reservation)). x.1 ∷ l) (reservations-set children i class res)

set_self :
    (children : List (Option Reservation)) (i : ℕ) (res : Option Reservation)
    → get_elem? children i ≡ some res
    → set children i res ≡ children
set_self [] i res h = refl
set_self (x ∷ children) zero res h = ground (arith, h)
set_self (x ∷ children) (suc i) res h =
    ap (λ (l : List (Option Reservation)). x ∷ l) (set_self children i res h)

-- A step that leaves the slots and the child's reservation is no step of the daemon without
-- classes.
daemon_of-same :
    (s : Server) (i : ℕ) (c : Option ℕ × Option Reservation) (b : Broker)
    → get_elem? s.children i ≡ some c
    → state_of b ≡ state_of (broker_of s c)
    → daemon_of (put_back s i b) ≡ daemon_of s
daemon_of-same s i c b at_i same j = record {
  slots = (same j).slots;
  children =
      (reservations-set s.children i b.node b.res
          ∙ ap (λ (st : State). set (reservations s.children) i st.res) same
          ∙ set_self (reservations s.children) i c.1 (get-reservations s.children i c at_i))
        j;
}

daemon_of-act :
    (tools : List Tool) (s : Server) (i : ℕ) (c : Option ℕ × Option Reservation) (e : Event)
    (b : Broker)
    → state_of b ≡ handle tools e (state_of (broker_of s c))
    → daemon_of (put_back s i b) ≡ act tools e i c.1 (daemon_of s)
unfolding act
daemon_of-act tools s i c e b same j = record {
  slots = (same j).slots;
  children =
      (reservations-set s.children i b.node b.res
          ∙ ap (λ (st : State). set (reservations s.children) i st.res) same)
        j;
}

module _ (tools : List Tool) (classes : List PolicyNode) where
  message-Reach :
      (s : Server) (w : World) (i : ℕ) (c : Option ℕ × Option Reservation) (event : Option Event)
      (b : Broker)
      → get_elem? s.children i ≡ some c
      → w.tools ≡ tools
      → SafeEvent tools event (state_of (broker_of s c))
      → Effect w (broker_of s c) event b
      → Reach tools (daemon_of s)
      → Reach tools (daemon_of (put_back s i b))
  message-Reach s w i c event b at_i same safe (nothing no_event eq) h =
      subst (Reach tools) (sym (daemon_of-same s i c b at_i (ap state_of eq))) h
  message-Reach s w i c event b at_i same safe (admitted class no_event new eq) h =
      subst (Reach tools) (sym (daemon_of-same s i c b at_i (ap state_of eq))) h
  message-Reach s w i c event b at_i same safe (counted id mesg lim no_event known eq) h =
      subst (Reach tools) (sym (daemon_of-same s i c b at_i (ap state_of eq))) h
  message-Reach s w i c event b at_i same safe (moved id e an_event known eq) h =
      subst (Reach tools)
        (sym (
          daemon_of-act tools s i c e b
            (ap state_of eq ∙ ap (λ (t : List Tool). handle t e (state_of (broker_of s c))) same)))
        (Reach.step (daemon_of s) e i c.1 h (get-reservations s.children i c at_i)
          (subst (λ ev. SafeEvent tools ev (state_of (broker_of s c))) an_event safe))

  -- As long as the times of the demands that are read do not wrap and begin in 1970 or later, the
  -- daemon that reads bytes is, but for its classes, the daemon whose children make demands and
  -- complete them: each state that it comes to is one that such steps, with such times, reach.
  pub Runs-Reach : (s : Server) → Runs tools classes s → Reach tools (daemon_of s)
  Runs-Reach _ boot = Reach.start
  Runs-Reach _ (connect s h) = Reach.fork (daemon_of s) (Runs-Reach s h)
  Runs-Reach _ (message s w i c pipe h at_i same safe) =
      message-Reach s w i c (event_of w (broker_of s c) pipe)
        (check_fd w (broker_of s c) pipe).broker at_i same safe
        (check_fd-Effect w (broker_of s c) pipe) (Runs-Reach s h)
  Runs-Reach _ (exit s i c h at_i) =
      let b = broker_of s c in
      subst (Reach tools)
        (sym (
          daemon_of-act tools s i c gone (with_state b (delete_reservation (state_of b)))
            (unfold handle in refl)))
        (Reach.step (daemon_of s) gone i c.1 (Runs-Reach s h) (get-reservations s.children i c at_i)
          tt)

  effect-Within :
      (l : ℕ) (w : World) (b b' : Broker) (event : Option Event)
      → Effect w b event b'
      → Within l b.classes
      → Within l b'.classes
  effect-Within l w b b' event (nothing no_event eq) v =
      subst (λ (x : Broker). Within l x.classes) (sym eq) v
  effect-Within l w b b' event (admitted class no_event new eq) v =
      subst (λ (x : Broker). Within l x.classes) (sym eq) v
  effect-Within l w b b' event (counted id mesg lim no_event known eq) v =
      subst (λ (x : Broker). Within l x.classes) (sym eq)
        (resource_demand-Within l mesg lim b.classes id v)
  effect-Within l w b b' event (moved id e an_event known eq) v =
      subst (λ (x : Broker). Within l x.classes) (sym eq) v

  -- Whatever bytes any children write, in whatever order, no class uses more of any resource whose
  -- limits are below 2^24 than its limit, if that held when the daemon started.
  Runs-Within : (l : ℕ) (s : Server) → Runs tools classes s → Within l classes → Within l s.classes
  Runs-Within l _ boot v = v
  Runs-Within l _ (connect s h) v = Runs-Within l s h v
  Runs-Within l _ (message s w i c pipe h at_i same safe) v =
      effect-Within l w (broker_of s c) (check_fd w (broker_of s c) pipe).broker
        (event_of w (broker_of s c) pipe) (check_fd-Effect w (broker_of s c) pipe)
        (Runs-Within l s h v)
  Runs-Within l _ (exit s i c h at_i) v = Runs-Within l s h v

-- Whatever bytes the children of a daemon write, in whatever order and number, as long as the times
-- of the demands that are read from them do not wrap: no class uses more of any resource than its
-- limit, where the limits of that resource are below 2^24 and were kept at the start; the list of
-- slots is in order, without overlap or empty slots, and no slot is over its maximum; and each
-- second holds at most as many reservations as there are children whose reservation covers it.
pub Runs-Kept :
    (tools : List Tool) (classes : List PolicyNode) (s : Server)
    → Runs tools classes s
    → ((l : ℕ) → Within l classes → Within l s.classes)
      × Timeline 0 s.slots
      × ((t : ℕ) → load t s.slots ≤ count t (daemon_of s).children)
Runs-Kept tools classes s h =
    let (timeline, held) = Reach-Timeline tools (daemon_of s) (Runs-Reach tools classes s h) in
    (λ l. Runs-Within tools classes l s h, timeline, held)
