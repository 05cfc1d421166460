-- ===== src/Protocol/Stop.antt =====
-- bwlib/protocol.c: the end of a session, with the results of the test: a file that is sent in
-- blocks of sixteen bytes, the last one filled up with zeros, and a block of zeros behind it.
-- Behind a failure in the file, the message buffer and the streams are those before the file.
pub mod Blocks
pub mod Message
use bwctl.Prelude.{
  ℕ, zero, suc, ◌+◌, ◌-◌, ◌*◌, Bool, true, false, Option, none, some, List, [], ◌∷◌, ◌++◌, ltb, leb,
  ◌==◌, if◌then◌else◌, not, ◌&&◌, ◌||◌, length, take, drop,
}
use bwctl.Bytes.{Buffer, zeros, nth, put, sub, be32, get32, all_zero}
use bwctl.Num64.{u32_mod}
use bwctl.Protocol.{
  Flags, AcceptType, accept_byte, failure, get_accept_type, is_invalid, Severity, fatal, Control,
  Wire, Outcome, done, failed, fail_control, send, receive, drained,
}

-- The file's size, or the failure that the code reports for a file that is too large.
abbrev pub file_size : List ℕ → ℕ
file_size file = if ltb (length file) u32_mod then length file else 0

abbrev pub stop_answer : AcceptType → List ℕ → AcceptType
stop_answer acceptval file = if ltb (length file) u32_mod then acceptval else failure

-- The whole blocks of the file; `fuel` is their number at least. What is left has less than sixteen
-- bytes. A file is read as long as its size says.
pub send_blocks : ℕ → List ℕ → Wire → Option (List ℕ × Wire)
unfolding send
send_blocks zero file w = some (file, w)
send_blocks (suc fuel) file w =
    if ltb (length file) 16 then some (file, w) else (elim (send 16 (nth (take 16 file)) w) [
      | none ↦ none
      | some w' ↦ send_blocks fuel (drop 16 file) w'
    ])

-- The last bytes, if there are any, with zeros behind them.
pub send_last : List ℕ → Wire → Option Wire
unfolding send
send_last file w = if length file == 0 then some w else send 16 (put 0 (length file) file zeros) w

-- The file with its block of zeros.
pub send_file : List ℕ → Wire → Option Wire
unfolding send_blocks send_last
send_file file w = elim (send_blocks (length file) file w) [
  | none ↦ none
  | some (rest, w') ↦ elim (send_last rest w') [ none ↦ none | some w'' ↦ send 16 zeros w'' ]
]

-- _BWLWriteStopSession. `none` is a null file pointer; the calls that read the file do not fail.
unfoldable pub write_stop_session : AcceptType → Option (List ℕ) → Control → Wire → Outcome Unit
write_stop_session acceptval fp c w =
    let file : List ℕ = elim fp [ none ↦ [] | some bytes ↦ bytes ] in
    let fsize = file_size file in
    let answer = accept_byte (stop_answer acceptval file) in
    let buf = put 8 4 (be32 fsize) (put 0 2 (3 ∷ answer ∷ []) zeros) in
    if not (c.state.request && c.state.test) then failed fatal c w else (elim (send 32 buf w) [
      | none ↦ failed fatal (record c { msg = buf }) w
      | some w' ↦
          if fsize == 0 then done tt (record c { msg = buf }) w' else (elim (send_file file w') [
            | none ↦ fail_control (record c { msg = buf }) w'
            | some w'' ↦ done tt (record c { msg = put 0 16 [] buf }) w''
          ])
    ])

-- The whole blocks of the results: what was read, and how many bytes are left to read.
pub receive_blocks : ℕ → ℕ → Buffer → Wire → Option (List ℕ × ℕ × Wire)
unfolding receive
receive_blocks zero fsize buf w = some ([], fsize, w)
receive_blocks (suc fuel) fsize buf w =
    if ltb fsize 16 then some ([], fsize, w) else (elim (receive 0 16 buf w) [
      | none ↦ none
      | some (buf', w') ↦ elim (receive_blocks fuel (fsize - 16) buf' w') [
        | none ↦ none
        | some (bytes, left, w'') ↦ some (sub 0 16 buf' ++ bytes, left, w'')
      ]
    ])

-- The last bytes, of a block of their own.
pub receive_last : ℕ → Buffer → Wire → Option (List ℕ × Wire)
unfolding receive
receive_last fsize buf w =
    if fsize == 0
    then some ([], w)
    else (elim (receive 0 16 buf w) [ none ↦ none | some (buf', w') ↦ some (sub 0 fsize buf', w') ])

-- The results and the block of zeros.
pub receive_file : ℕ → Buffer → Wire → Option (List ℕ × Wire)
unfolding receive_blocks receive_last
receive_file fsize buf w = elim (receive_blocks fsize fsize buf w) [
  | none ↦ none
  | some (bytes, left, w') ↦ elim (receive_last left buf w') [
    | none ↦ none
    | some (last, w'') ↦ elim (receive 0 16 buf w'') [
      | none ↦ none
      | some (buf', w''') ↦ if all_zero (sub 0 16 buf') then some (bytes ++ last, w''') else none
    ]
  ]
]

abbrev stopped : Flags → Flags
stopped s = record s { stop_session = false; request = true }

-- _BWLReadStopSession: the answer and what is written to the file.
unfoldable pub read_stop_session : Control → Wire → Outcome (AcceptType × List ℕ)
read_stop_session c w =
    if not (c.state.request && c.state.test)
    then failed fatal c w
    else (elim (receive 16 16 c.msg w) [
      | none ↦ fail_control c (drained w)
      | some (buf, w') ↦
          let c' = record c { msg = buf } in
          let code = get_accept_type (buf 1) in
          let fsize = get32 8 buf in
          if not (all_zero (sub 16 16 buf)) || is_invalid code
          then fail_control c' w'
          else if fsize == 0
          then done (code, []) (record c' { state = stopped c.state }) w'
          else (elim (receive_file fsize buf w') [
            | none ↦ fail_control c' (drained w')
            | some (bytes, w'') ↦
                done (code, bytes) (record c { msg = put 0 16 [] buf; state = stopped c.state }) w''
          ])
    ])
