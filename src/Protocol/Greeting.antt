-- ===== src/Protocol/Greeting.antt =====
-- bwlib/protocol.c: the setup of a control connection, from the greetings to the uptime. The
-- version of the protocol is the high byte of the mode.
use Prim.Native.Nat.{bit_or}
use bwctl.Prelude.{ℕ, ◌+◌, ◌*◌, ◌/◌, ◌%◌, Bool, none, some, List, [], ◌∷◌, ◌==◌, if◌then◌else◌, not}
use bwctl.Bytes.{zeros, put, sub, be32, get32, all_zero}
use bwctl.TimeStamp.{TimeStamp, encode_time_stamp, decode_time_stamp}
use bwctl.Protocol.{
  no_flags, only_setup, only_uptime, only_request, is_initial, is_setup, AcceptType, accept_byte,
  get_accept_type, is_accept, is_invalid, fatal, Control, Wire, Outcome, done, failed, fail_control,
  send, receive, drained,
}

abbrev version_unit : ℕ
version_unit = 0x1000000

-- BWL_MODE_PROTOCOL_CURRENT_VERSION
abbrev pub current_version : ℕ
current_version = 0x06000000

-- `mode | version`, where the lower 24 bits of `version` are zero.
unfoldable pub or_version : ℕ → ℕ → ℕ
or_version mode version =
    bit_or (mode / version_unit) (version / version_unit) * version_unit + mode % version_unit

-- `mode & BWL_MODE_DOCIPHER`: bit 1 or 2.
abbrev pub does_cipher : ℕ → Bool
does_cipher mode = not (mode / 2 % 4 == 0)

-- _BWLWriteServerGreeting
unfoldable pub write_server_greeting : ℕ → List ℕ → Control → Wire → Outcome Unit
unfolding or_version send
write_server_greeting avail_modes challenge c w =
    let buf =
      put 16 16 challenge (put 12 4 (be32 (or_version avail_modes current_version)) zeros) in
    let c' = record c { msg = buf } in
    if not (is_initial c.state) then failed fatal c w else (elim (send 32 buf w) [
      | none ↦ failed fatal c' w
      | some w' ↦ done tt (record c' { state = only_setup }) w'
    ])

-- _BWLReadServerGreeting: the modes and the challenge.
unfoldable pub read_server_greeting : Control → Wire → Outcome (ℕ × List ℕ)
unfolding receive
read_server_greeting c w =
    if not (is_initial c.state) then failed fatal c w else (elim (receive 0 32 c.msg w) [
      | none ↦ failed fatal c (drained w)
      | some (buf, w') ↦
          let mode = get32 12 buf in
          done (mode % version_unit, sub 16 16 buf)
            (record c {
              msg = buf;
              version = mode / version_unit * version_unit;
              state = only_setup;
            })
            w'
    ])

-- _BWLWriteClientGreeting, with cntrl->userid and cntrl->writeIV.
unfoldable pub write_client_greeting : List ℕ → List ℕ → List ℕ → Control → Wire → Outcome Unit
unfolding or_version send
write_client_greeting userid token iv c w =
    let mode = put 0 4 (be32 (or_version c.mode c.version)) zeros in
    let buf =
      if does_cipher c.mode then put 52 16 iv (put 20 32 token (put 4 16 userid mode)) else mode in
    let c' = record c { msg = buf } in
    if not (is_setup c.state)
    then failed fatal c w
    else (elim (send 68 buf w) [ none ↦ failed fatal c' w | some w' ↦ done tt c' w' ])

-- _BWLReadClientGreeting: the mode, the user's name, the token and the IV.
unfoldable pub read_client_greeting : Control → Wire → Outcome (ℕ × List ℕ × List ℕ × List ℕ)
unfolding receive
read_client_greeting c w =
    if not (is_setup c.state) then failed fatal c w else (elim (receive 0 68 c.msg w) [
      | none ↦ failed fatal c (drained w)
      | some (buf, w') ↦
          let mode = get32 0 buf in
          done (mode % version_unit, sub 4 16 buf, sub 20 32 buf, sub 52 16 buf)
            (record c { msg = buf; version = mode / version_unit * version_unit }) w'
    ])

abbrev stamp : ℕ → TimeStamp
stamp t = record { tstamp = t; sync = 0; multiplier = 0; scale = 0 }

-- _BWLWriteServerOK, with cntrl->writeIV.
unfoldable pub write_server_ok : AcceptType → ℕ → ℕ → List ℕ → Control → Wire → Outcome Unit
unfolding send
write_server_ok code uptime avail_tools iv c w =
    let buf = put 16 16 iv (put 15 1 (accept_byte code ∷ []) (put 0 4 (be32 avail_tools) zeros)) in
    let up = put 0 8 (encode_time_stamp (stamp uptime)) zeros in
    if not (is_setup c.state) then failed fatal c w else (elim (send 32 buf w) [
      | none ↦ failed fatal (record c { msg = buf }) w
      | some w' ↦
          if is_accept code
          then (elim (send 16 up w') [
            | none ↦ failed fatal (record c { msg = up }) w'
            | some w'' ↦ done tt (record c { msg = up; state = only_request }) w''
          ])
          else (elim (send 16 zeros w') [
            | none ↦ failed fatal (record c { msg = zeros; state = no_flags }) w'
            | some w'' ↦ done tt (record c { msg = zeros; state = no_flags }) w''
          ])
    ])

-- _BWLReadServerOK: the answer, the tools (iperf for a server without versions) and readIV.
unfoldable pub read_server_ok : Control → Wire → Outcome (AcceptType × ℕ × List ℕ)
unfolding receive get_accept_type
read_server_ok c w =
    if not (is_setup c.state) then failed fatal c w else (elim (receive 0 32 c.msg w) [
      | none ↦ fail_control c (drained w)
      | some (buf, w') ↦
          let code = get_accept_type (buf 15) in
          let tools = if c.version == 0 then 1 else get32 0 buf in
          if is_invalid code
          then fail_control (record c { msg = buf }) w'
          else done (code, tools, sub 16 16 buf) (record c { msg = buf; state = only_uptime }) w'
    ])

-- _BWLReadServerUptime
unfoldable pub read_server_uptime : Control → Wire → Outcome ℕ
unfolding receive
read_server_uptime c w =
    if not c.state.uptime then failed fatal c w else (elim (receive 0 16 c.msg w) [
      | none ↦ fail_control c (drained w)
      | some (buf, w') ↦
          if not (all_zero (sub 8 8 buf))
          then failed fatal (record c { msg = buf }) w'
          else done (decode_time_stamp (stamp 0) (sub 0 8 buf)).tstamp
              (record c { msg = buf; state = only_request }) w'
    ])
