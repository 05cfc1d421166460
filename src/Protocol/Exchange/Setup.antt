-- ===== src/Protocol/Exchange/Setup.antt =====
-- The setup of a control connection: BWLControlOpen against BWLControlAccept, in open mode.
use Prim.Native.Nat.{bit_and}
use bwctl.Prelude.{
  ℕ, ◌+◌, ◌<◌, ◌≡◌, refl, ap, Bool, true, false, List, [], ◌++◌, if◌then◌else◌, Bool-cases, inl,
  inr, ◌==◌, ◌||◌, arith,
}
use bwctl.Bytes.{Buffer, nth, split, sub, put, zeros, be32}
use bwctl.Num64.{u64_mod, u32_mod}
use bwctl.TimeStamp.{encode_time_stamp}
use bwctl.TimeStamp.Wire.{decode-encode_time_stamp}
use bwctl.Protocol.{
  Control, Wire, Outcome, no_flags, only_setup, only_uptime, only_request, accept, fatal, done,
  failed, send, receive, get_accept_type,
}
use bwctl.Protocol.Greeting.{
  or_version, write_server_greeting, read_server_greeting, write_client_greeting,
  read_client_greeting, write_server_ok, read_server_ok, read_server_uptime,
}
use bwctl.Protocol.Setup.{
  mode_open, Policy, admitted, Opened, pick_mode, mode_order, picked, control_open, control_accept,
}
use bwctl.Protocol.Peers.{and_then}
use bwctl.Protocol.Stop.Blocks.{wired}
use bwctl.Protocol.Stop.Message.{be32_back}
use bwctl.Protocol.Exchange.{wire, heard, Says, converse, converse_twice, EndsIn}

-- A side of a connection that is new.
abbrev pub at_start : Control → Control
at_start c = record c { state = no_flags }

-- The modes that a server offers, the open mode among them.
abbrev pub offer : Bool → Bool → ℕ
offer authenticated encrypted =
    mode_open + (if authenticated then 2 else 0) + (if encrypted then 4 else 0)

-- The server's side.
pub record Acceptor : Type 0 where
  pub challenge : List ℕ
  pub uptime : ℕ
  pub tools : ℕ
  pub policy : ℕ → Policy
  pub authenticate : ℕ → Control → Wire → Outcome Unit
  pub control : Control

abbrev pub accepts : ℕ → Acceptor → Wire → Outcome Unit
accepts offered d =
    control_accept offered d.challenge d.uptime d.tools d.policy d.authenticate (at_start d.control)

abbrev greeting : ℕ → List ℕ → List ℕ
greeting offered challenge =
    sub 0 32 (put 16 16 challenge (put 12 4 (be32 (0x06000000 + offered)) zeros))

abbrev pub open_request : List ℕ
open_request = sub 0 68 (put 0 4 (be32 0x06000001) zeros)

abbrev ok_message : Acceptor → List ℕ
ok_message d =
    sub 0 32 (put 0 4 (be32 d.tools) zeros)
    ++ sub 0 16 (
        put 0 8
          (encode_time_stamp (record { tstamp = d.uptime; sync = 0; multiplier = 0; scale = 0 }))
          zeros)

server_greets :
    (a e : Bool) (d : Acceptor)
    → heard (accepts (offer a e) d (wire [])) ≡ greeting (offer a e) d.challenge
unfolding control_accept write_server_greeting or_version read_client_greeting send receive split
server_greets true true d = refl
server_greets true false d = refl
server_greets false true d = refl
server_greets false false d = refl

server_accepts :
    (a e : Bool) (d : Acceptor)
    → d.policy mode_open ≡ admitted
    → Says
        (accepts (offer a e) d (wire open_request))
        tt
        only_request
        (greeting (offer a e) d.challenge ++ ok_message d)
unfolding control_accept write_server_greeting or_version read_client_greeting write_server_ok send
    receive split encode_time_stamp
server_accepts true true d h = rw h ((refl, refl, refl), refl)
server_accepts true false d h = rw h ((refl, refl, refl), refl)
server_accepts false true d h = rw h ((refl, refl, refl), refl)
server_accepts false false d h = rw h ((refl, refl, refl), refl)

-- Whether the client's mask leaves the open mode of an offer.
abbrev LeavesOpen : ℕ → Bool → Bool → Type 0
LeavesOpen mask a e = bit_and (bit_and (offer a e) mask) mode_open ≡ mode_open

pick_open :
    (a e : Bool) (mask : ℕ) (policy : ℕ → Policy)
    → LeavesOpen mask a e
    → policy mode_open ≡ admitted
    → pick_mode (mode_order mask) (bit_and (bit_and (offer a e) mask) mode_open) policy
      ≡ picked mode_open
unfolding pick_mode
pick_open a e mask policy l h = elim (Bool-cases (bit_and mask 0x80 == 0)) [
  | inl highest ↦ rw l (rw highest (rw h refl))
  | inr lowest ↦ rw l (rw lowest (rw h refl))
]

-- The client's four steps.
abbrev greeted : Control → ℕ → List ℕ → Control
greeted c offered challenge = record c {
  state = only_setup;
  version = 0x06000000;
  msg = put 0 32 (greeting offered challenge) c.msg;
}

client_greeted :
    (a e : Bool) (challenge : List ℕ) (c : Control) (rest : List ℕ)
    → read_server_greeting (at_start c) (wire (greeting (offer a e) challenge ++ rest))
      ≡ done (offer a e, sub 0 16 (nth challenge)) (greeted c (offer a e) challenge) (wire rest)
unfolding read_server_greeting receive split
client_greeted true true challenge c rest = refl
client_greeted true false challenge c rest = refl
client_greeted false true challenge c rest = refl
client_greeted false false challenge c rest = refl

abbrev asking : Control → Control
asking c = record c {
  state = only_setup;
  version = 0x06000000;
  mode = 1;
  msg = put 0 4 (be32 0x06000001) zeros;
}

client_asks :
    (c : Control) (m : Buffer) (rest : List ℕ)
    → write_client_greeting [] [] []
        (record c { state = only_setup; version = 0x06000000; mode = 1; msg = m })
        (wire rest)
      ≡ done tt (asking c) (wired rest open_request)
unfolding write_client_greeting or_version send
client_asks c m rest = refl

abbrev told : Control → Acceptor → Control
told c d = record (asking c) {
  state = only_uptime;
  msg = put 0 32 (sub 0 32 (put 0 4 (be32 d.tools) zeros)) (asking c).msg;
}

client_told :
    (c : Control) (d : Acceptor) (rest : List ℕ)
    → d.tools < u32_mod
    → read_server_ok
        (asking c)
        (wired (sub 0 32 (put 0 4 (be32 d.tools) zeros) ++ rest) open_request)
      ≡ done (accept, d.tools, sub 0 16 zeros) (told c d) (wired rest open_request)
unfolding read_server_ok get_accept_type receive split
client_told c d rest h = rw (be32_back d.tools h) refl

abbrev uptime_message : Acceptor → List ℕ
uptime_message d = sub 0 16 (
    put 0 8 (encode_time_stamp (record { tstamp = d.uptime; sync = 0; multiplier = 0; scale = 0 }))
      zeros)

client_uptime :
    (c : Control) (d : Acceptor)
    → d.uptime < u64_mod
    → read_server_uptime (told c d) (wired (uptime_message d) open_request)
      ≡ done d.uptime
          (record (told c d) {
            state = only_request;
            msg = put 0 16 (uptime_message d) (told c d).msg;
          })
          (wired [] open_request)
unfolding read_server_uptime receive split encode_time_stamp
client_uptime c d h =
    rw
      (decode-encode_time_stamp (record { tstamp = d.uptime; sync = 0; multiplier = 0; scale = 0 })
        (record { tstamp = 0; sync = 0; multiplier = 0; scale = 0 }) h)
      refl

client_waits :
    (c : Control)
    → read_server_ok (asking c) (wired [] open_request)
      ≡ failed fatal (record (asking c) { state = no_flags }) (wired [] open_request)
unfolding read_server_ok receive split
client_waits c = refl

client_silent :
    (mask : ℕ) (policy : ℕ → Policy) (c : Control)
    → heard (control_open mask policy (at_start c) (wire [])) ≡ []
unfolding control_open read_server_greeting receive split
client_silent mask policy c = refl

client_answers :
    (a e : Bool) (challenge : List ℕ) (mask : ℕ) (policy : ℕ → Policy) (c : Control)
    → LeavesOpen mask a e
    → policy mode_open ≡ admitted
    → control_open mask policy (at_start c) (wire (greeting (offer a e) challenge))
      ≡ failed fatal (record (asking c) { state = no_flags }) (wired [] open_request)
unfolding control_open
client_answers a e challenge mask p c l h = rw (client_greeted a e challenge c []) (
    rw (pick_open a e mask p l h, and_then)
      (rw (client_asks c (greeted c (offer a e) challenge).msg [])
        (rw (client_waits c, and_then) refl)))

abbrev opened : Control → Acceptor → Outcome Opened
opened c d =
    done (record { uptime = d.uptime; tools = d.tools })
      (record (told c d) { state = only_request; msg = put 0 16 (uptime_message d) (told c d).msg })
      (wired [] open_request)

client_opens :
    (a e : Bool) (d : Acceptor) (mask : ℕ) (policy : ℕ → Policy) (c : Control)
    → LeavesOpen mask a e
    → policy mode_open ≡ admitted
    → d.tools < u32_mod
    → d.uptime < u64_mod
    → control_open mask policy
        (at_start c)
        (wire (greeting (offer a e) d.challenge ++ ok_message d))
      ≡ opened c d
unfolding control_open
client_opens a e d mask p c l h small time = rw (client_greeted a e d.challenge c (ok_message d)) (
    rw (pick_open a e mask p l h, and_then)
      (rw (client_asks c (greeted c (offer a e) d.challenge).msg (ok_message d)) (
        rw (client_told c d (uptime_message d) small, and_then)
          (rw (client_uptime c d time) refl))))

-- A client without a user name and a server, both new, in open mode: the server offers it, the
-- client's mask leaves it and both policies admit it. The client then has the server's uptime,
-- which is below 2^64, and its tools, below 2^32; both sides are in the state Request, with nothing
-- unread.
pub control_open-control_accept :
    (a e : Bool) (mask : ℕ) (policy : ℕ → Policy) (c : Control) (d : Acceptor)
    → LeavesOpen mask a e
    → policy mode_open ≡ admitted
    → d.policy mode_open ≡ admitted
    → d.tools < u32_mod
    → d.uptime < u64_mod
    → EndsIn
        (converse 2 (control_open mask policy (at_start c)) (accepts (offer a e) d)).0
        (record { uptime = d.uptime; tools = d.tools })
        only_request
      × EndsIn
          (converse 2 (control_open mask policy (at_start c)) (accepts (offer a e) d)).1
          tt
          only_request
control_open-control_accept a e mask policy c d l hc hd small time =
    converse_twice (control_open mask policy (at_start c)) (accepts (offer a e) d)
      (record { uptime = d.uptime; tools = d.tools }) tt only_request only_request
      (greeting (offer a e) d.challenge) open_request
      (greeting (offer a e) d.challenge ++ ok_message d) (client_silent mask policy c)
      (server_greets a e d) (ap heard (client_answers a e d.challenge mask policy c l hc))
      (server_accepts a e d hd)
      (rw (client_opens a e d mask policy c l hc small time) ((refl, refl, refl), refl))

-- The modes that a server offers, or not.
abbrev pub modes_of : Bool → Bool → Bool → ℕ
modes_of true authenticated encrypted = offer authenticated encrypted
modes_of false authenticated encrypted =
    (if authenticated then 2 else 0) + (if encrypted then 4 else 0)

-- A server that offers any mode at all accepts a client that asks for the open mode, if its policy
-- admits that mode, also where the open mode is not among those that it offers.
pub control_accept-any_offer :
    (o a e : Bool) (d : Acceptor)
    → (o || (a || e)) ≡ true
    → d.policy mode_open ≡ admitted
    → EndsIn (accepts (modes_of o a e) d (wire open_request)) tt only_request
unfolding control_accept write_server_greeting or_version read_client_greeting write_server_ok send
    receive split
control_accept-any_offer true a e d h p = (server_accepts a e d p).0
control_accept-any_offer false true true d h p = rw p (refl, refl, refl)
control_accept-any_offer false true false d h p = rw p (refl, refl, refl)
control_accept-any_offer false false true d h p = rw p (refl, refl, refl)
control_accept-any_offer false false false d h p = absurd (ground arith)
