-- ===== src/Schedule/Seen.antt =====
-- bwctld/bwctld.c: what the walk over the slots that overlap a reservation has seen.
use bwctl.Prelude.{
  ℕ, suc, ◌<◌, ◌≡◌, true, List, [], ◌∷◌, arith, ltb, leb, Bool-cases, inl, inr, ltb→lt, leb→lt, All,
}
use bwctl.Schedule.{TimeSlot, Walk, conflict, run, step_over, can_use_slot, walk}
use bwctl.Schedule.Timeline.{Timeline}
use bwctl.Schedule.Load.{Fits}
use bwctl.Schedule.Search.{Wish}
use bwctl.Schedule.Range.{Below, Fits-behind}

-- What a walk from `s` over `rest` has seen: the slot that it reports stands behind `s`, and if it
-- reports none then every slot that overlaps can be used.
abbrev pub Saw : Wish → ℕ → ℕ → TimeSlot → List TimeSlot → Walk → Type 0
Saw w a b s rest (conflict c) = (s.end < c.end) × Below w c
Saw w a b s rest (run slots after) = Fits w.test a b rest

Saw-step_over :
    (w : Wish) (a b : ℕ) (s x : TimeSlot) (rest : List TimeSlot) (k : Walk)
    → s.end < x.end
    → can_use_slot w.test x ≡ true
    → Saw w a b x rest k
    → Saw w a b s (x ∷ rest) (step_over x k)
Saw-step_over w a b s x rest (conflict c) h u k = (omega arith, k.1)
Saw-step_over w a b s x rest (run slots after) h u k = (λ p q. u, k)

pub walk-Saw :
    (w : Wish) (a b n : ℕ) (s : TimeSlot) (rest : List TimeSlot)
    → Timeline n (s ∷ rest)
    → All (Below w) rest
    → Saw w a b s rest (walk w.test b s rest)
unfolding walk
walk-Saw w a b n s [] v h = tt
walk-Saw w a b n s (x ∷ rest) v h = elim (Bool-cases (leb s.end b)) [
  | inr short ↦
      rw short (Fits-behind w.test a b (suc s.end) (x ∷ rest) v.4 (omega (arith, leb→lt _ _ short)))
  | inl long ↦ rw long (elim (Bool-cases (ltb b x.start)) [
    | inl far ↦ rw far (
      λ p q. absurd (omega (arith, ltb→lt _ _ far)),
      Fits-behind w.test a b (suc x.end) rest v.4.4 (omega (arith, ltb→lt _ _ far)),
    )
    | inr near ↦ rw near (elim (Bool-cases (can_use_slot w.test x)) [
      | inr full ↦ rw full (omega arith, h.0)
      | inl free ↦ rw free (
          Saw-step_over w a b s x rest (walk w.test b x rest) (omega arith) free
            (walk-Saw w a b (suc s.end) x rest v.4 h.1))
    ])
  ])
]
