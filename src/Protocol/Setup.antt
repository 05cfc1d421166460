-- ===== src/Protocol/Setup.antt =====
-- BWLControlOpen (bwlib/capi.c) and BWLControlAccept (bwlib/sapi.c): a control connection is set
-- up. The client has no user name, so it can only ask for the open mode; what the server does with
-- a client in another mode is a parameter, and so is the control policy of either side. Addresses,
-- clocks and random bytes are left out but for the challenge.
pub mod Mode
use Prim.Native.Nat.{bit_and, bit_or}
use bwctl.Prelude.{
  ℕ, ◌+◌, ◌*◌, ◌/◌, ◌%◌, Bool, true, false, List, [], ◌∷◌, ◌==◌, if◌then◌else◌, not, ◌&&◌, ◌||◌,
}
use bwctl.Protocol.{
  AcceptType, accept, reject, failure, is_accept, Severity, fatal, Control, Wire, Outcome, done,
  failed,
}
use bwctl.Protocol.Greeting.{
  write_server_greeting, read_server_greeting, write_client_greeting, read_client_greeting,
  write_server_ok, read_server_ok, read_server_uptime,
}
use bwctl.Protocol.Peers.{and_then}

-- BWL_MODE_OPEN, BWL_MODE_AUTHENTICATED and BWL_MODE_ENCRYPTED
abbrev pub mode_open : ℕ
mode_open = 1

abbrev pub mode_authenticated : ℕ
mode_authenticated = 2

abbrev pub mode_encrypted : ℕ
mode_encrypted = 4

-- What _BWLCallCheckControlPolicy answers: True, False with *err_ret BWLErrOK, or False with an
-- error of BWLErrWARNING or worse.
pub data Policy : Type 0 where
  admitted denied policy_failed : Policy

pub data Pick : Type 0 where
  picked : ℕ → Pick
  no_mode policy_error : Pick

-- The loops on do_mode: the first mode in the order that is available and that the policy admits.
unfoldable pub pick_mode : List ℕ → ℕ → (ℕ → Policy) → Pick
pick_mode [] avail policy = no_mode
pick_mode (mode ∷ modes) avail policy =
    let later = pick_mode modes avail policy in
    if bit_and avail mode == 0 then later else (elim (policy mode) [
      | admitted ↦ picked mode
      | denied ↦ later
      | policy_failed ↦ policy_error
    ])

-- BWL_MODE_LEAST_RESTRICTIVE in the mask begins with the lowest mode.
abbrev pub mode_order : ℕ → List ℕ
mode_order mask =
    if bit_and mask 0x80 == 0
    then mode_encrypted ∷ mode_authenticated ∷ mode_open ∷ []
    else mode_open ∷ mode_authenticated ∷ mode_encrypted ∷ []

-- What the client has once the connection is open.
pub record Opened : Type 0 where
  pub uptime : ℕ
  pub tools : ℕ

-- BWLControlOpen without a user name: the modes that need a key are taken away.
unfoldable pub control_open : ℕ → (ℕ → Policy) → Control → Wire → Outcome Opened
control_open mask policy c w = and_then (read_server_greeting c w) λ greeting c₁ w₁.
    let avail = bit_and (bit_and greeting.0 mask) mode_open in
    elim (pick_mode (mode_order mask) avail policy) [
      | no_mode ↦ failed fatal c₁ w₁
      | policy_error ↦ failed fatal c₁ w₁
      | picked mode ↦
          and_then (write_client_greeting [] [] [] (record c₁ { mode = mode }) w₁) λ _ c₂ w₂.
            and_then (read_server_ok c₂ w₂) λ answer c₃ w₃.
              if not (is_accept answer.0)
              then failed fatal c₃ w₃
              else and_then (read_server_uptime c₃ w₃)
                  λ uptime c₄ w₄. done (record { uptime = uptime; tools = answer.1 }) c₄ w₄
    ]

-- The last refusal before the connection is closed; whether it was sent is not looked at.
abbrev refuse : {A : Type 0} → Outcome Unit → Outcome A
refuse (done a c w) = failed fatal c w
refuse (failed sev c w) = failed fatal c w

-- "insure that exactly one mode is chosen"
abbrev is_one_mode : ℕ → Bool
is_one_mode mode = mode == mode_open || (mode == mode_authenticated || mode == mode_encrypted)

-- BWLControlAccept. The test of the mode that was chosen against the modes that were offered is
-- `cntrl->mode | mode_offered` in the code.
unfoldable pub control_accept :
    ℕ
    → List ℕ
    → ℕ
    → ℕ
    → (ℕ → Policy)
    → (ℕ → Control → Wire → Outcome Unit)
    → Control
    → Wire
    → Outcome Unit
control_accept offered challenge uptime tools policy authenticate c w =
    let modes = bit_and offered 7 in
    and_then (write_server_greeting modes challenge c w) λ _ c₁ w₁.
      if modes == 0
      then failed fatal c₁ w₁
      else and_then (read_client_greeting c₁ w₁) λ greeting c₂ w₂.
        let mode = greeting.0 in
        let c₃ = record c₂ { mode = mode } in
        if not (is_one_mode mode)
        then failed fatal c₃ w₂
        else if bit_or mode modes == 0
        then refuse (write_server_ok reject 0 0 [] c₃ w₂)
        else if not (mode == mode_open)
        then authenticate mode c₃ w₂
        else (elim (policy mode) [
          | admitted ↦ write_server_ok accept uptime tools [] c₃ w₂
          | denied ↦ refuse (write_server_ok reject 0 0 [] c₃ w₂)
          | policy_failed ↦ refuse (write_server_ok failure 0 0 [] c₃ w₂)
        ])
