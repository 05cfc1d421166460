-- ===== src/Protocol/Setup/Mode.antt =====
-- The mode that a client asks for.
use Prim.Native.Nat.{bit_and}
use bwctl.Prelude.{
  ℕ, ◌≡◌, refl, ap, true, false, List, [], ◌∷◌, ◌++◌, All, ◌⊎◌, inl, inr, ◌==◌, Bool-cases,
}
use bwctl.Protocol.Setup.{
  Policy, admitted, denied, policy_failed, Pick, picked, no_mode, policy_error, pick_mode,
}

module _ (avail : ℕ) (policy : ℕ → Policy) where
  -- A mode that is passed over is not available or denied.
  abbrev pub IsPassed : ℕ → Type 0
  IsPassed mode = ((bit_and avail mode == 0) ≡ true) ⊎ (policy mode ≡ denied)

  -- What each result of the choice says of the modes in their order.
  abbrev pub PickMeans : List ℕ → Pick → Type 0
  PickMeans modes no_mode = All IsPassed modes
  PickMeans modes (picked mode) =
      (before after : List ℕ) × (modes ≡ before ++ mode ∷ after)
      × All IsPassed before
      × ((bit_and avail mode == 0) ≡ false)
      × (policy mode ≡ admitted)
  PickMeans modes policy_error =
      (before : List ℕ) × (mode : ℕ) × (after : List ℕ) × (modes ≡ before ++ mode ∷ after)
      × All IsPassed before
      × (policy mode ≡ policy_failed)

  passed_first :
      (mode : ℕ) (modes : List ℕ) (result : Pick)
      → IsPassed mode
      → PickMeans modes result
      → PickMeans (mode ∷ modes) result
  passed_first mode modes no_mode p h = (p, h)
  passed_first mode modes (picked m) p (before, after, e, all, there, admits) =
      (mode ∷ before, after, ap (λ l. mode ∷ l) e, (p, all), there, admits)
  passed_first mode modes policy_error p (before, m, after, e, all, rest) =
      (mode ∷ before, m, after, ap (λ l. mode ∷ l) e, (p, all), rest)

  Policy-cases : (p : Policy) → (p ≡ admitted) ⊎ ((p ≡ denied) ⊎ (p ≡ policy_failed))
  Policy-cases admitted = inl refl
  Policy-cases denied = inr (inl refl)
  Policy-cases policy_failed = inr (inr refl)

  -- The mode that is picked is the first one in the order that is available and admitted, and all
  -- before it are not available or denied; no mode is picked only where all are so; the policy is
  -- asked for no mode behind one for which it fails.
  pick_mode_lem : (modes : List ℕ) → PickMeans modes (pick_mode modes avail policy)
  unfolding pick_mode
  pick_mode_lem [] = tt
  pick_mode_lem (mode ∷ modes) = elim (Bool-cases (bit_and avail mode == 0)) [
    | inl missing ↦
        rw missing (
          passed_first mode modes (pick_mode modes avail policy) (inl missing)
            (pick_mode_lem modes))
    | inr there ↦ elim (Policy-cases (policy mode)) [
      | inl admits ↦ rw there (rw admits ([], modes, refl, tt, there, admits))
      | inr (inl denies) ↦ rw there (
          rw denies (
            passed_first mode modes (pick_mode modes avail policy) (inr denies)
              (pick_mode_lem modes)))
      | inr (inr fails) ↦ rw there (rw fails ([], mode, modes, refl, tt, fails))
    ]
  ]
