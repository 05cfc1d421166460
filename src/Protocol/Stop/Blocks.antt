-- ===== src/Protocol/Stop/Blocks.antt =====
-- The results of a test in blocks: what is sent of a file is read back as the file.
use bwctl.Prelude.{
  ℕ, zero, suc, ◌<◌, ◌≤◌, ◌≡◌, ◌∙◌, refl, ap, sym, arith, true, false, Option, some, List, [], ◌∷◌,
  ◌++◌, length, take, drop, ltb, ltb→lt, ltb→le, Bool-cases, inl, inr, ◌==◌, if◌then◌else◌,
}
use mathlib.Core.List.{append_assoc, append-nil}
use bwctl.Bytes.{Buffer, zeros, put, sub, split}
use bwctl.Bytes.Stream.{
  split-append, sub-nth, sub-block, take-append-drop, length-take, length-drop,
}
use bwctl.Protocol.{Wire, send, receive}
use bwctl.Protocol.Stop.{
  send_blocks, send_last, send_file, receive_blocks, receive_last, receive_file,
}

abbrev pub wired : List ℕ → List ℕ → Wire
wired incoming outgoing = record { incoming = incoming; outgoing = outgoing; up = true }

-- How a file is divided: what is sent in whole blocks, and what is left.
record Division (fuel : ℕ) (file : List ℕ) : Type 0 where
  whole : List ℕ
  last : List ℕ
  together : whole ++ last ≡ file
  short : length last < 16
  sent :
      (incoming outgoing : List ℕ)
      → send_blocks fuel file (wired incoming outgoing)
        ≡ some (last, wired incoming (outgoing ++ whole))
  received :
      (buf : Buffer) (rest outgoing : List ℕ)
      → receive_blocks fuel (length file) buf (wired (whole ++ rest) outgoing)
        ≡ some (whole, length last, wired rest outgoing)

Division-short : (fuel : ℕ) (file : List ℕ) → ltb (length file) 16 ≡ true → Division (suc fuel) file
unfolding send_blocks receive_blocks
Division-short fuel file h = record {
  whole = [];
  last = file;
  together = refl;
  short = ltb→lt (length file) 16 h;
  sent = λ i o. rw (h, append-nil o) refl;
  received = λ buf rest o. rw h refl;
}

Division-long :
    (fuel : ℕ) (file : List ℕ)
    → ltb (length file) 16 ≡ false
    → Division fuel (drop 16 file)
    → Division (suc fuel) file
unfolding send_blocks receive_blocks
Division-long fuel file h d =
    let long : 16 ≤ length file = ltb→le (length file) 16 h in
    let full = length-take 16 file long in
    record {
      whole = take 16 file ++ d.whole;
      last = d.last;
      together =
          append_assoc (take 16 file) d.whole d.last
          ∙ ap (λ l. take 16 file ++ l) d.together
          ∙ take-append-drop 16 file;
      short = d.short;
      sent = λ i o. rw h (
          rw (sub-nth (take 16 file) 16 full)
            (rw (d.sent i (o ++ take 16 file)) (rw (append_assoc o (take 16 file) d.whole) refl)));
      received = λ buf rest o. rw h (
          rw (append_assoc (take 16 file) d.whole rest) (
            rw (split-append (take 16 file) (d.whole ++ rest) 16 full) (
              rw (sym (length-drop 16 file)) (
                rw (d.received (put 0 16 (take 16 file) buf) rest o) (
                  ap (λ l. some (l ++ d.whole, length d.last, wired rest o))
                    (sub-nth (take 16 file) 16 full))))));
    }

division : (fuel : ℕ) (file : List ℕ) → length file ≤ fuel → Division fuel file
unfolding send_blocks receive_blocks
division zero [] h = record {
  whole = [];
  last = [];
  together = refl;
  short = omega arith;
  sent = λ i o. rw (append-nil o) refl;
  received = λ buf rest o. refl;
}
division zero (b ∷ file) h = absurd (omega arith)
division (suc fuel) file h = elim (Bool-cases (ltb (length file) 16)) [
  | inl long ↦ Division-short fuel file long
  | inr short ↦
      Division-long fuel file short
        (division fuel (drop 16 file) (omega (arith, length-drop 16 file)))
]

-- The block of the last bytes, if there are any.
abbrev tail_block : List ℕ → List ℕ
tail_block last = if length last == 0 then [] else sub 0 16 (put 0 (length last) last zeros)

suc-==_zero : (n : ℕ) → (suc n == 0) ≡ false
suc-==_zero n = ground arith

sent_tail :
    (last incoming outgoing : List ℕ)
    → send_last last (wired incoming outgoing) ≡ some (wired incoming (outgoing ++ tail_block last))
unfolding send_last send
sent_tail [] i o = rw (append-nil o) refl
sent_tail (b ∷ last) i o = rw (suc-==_zero (length last)) refl

received_tail :
    (last rest outgoing : List ℕ) (buf : Buffer)
    → length last < 16
    → receive_last (length last) buf (wired (tail_block last ++ rest) outgoing)
      ≡ some (last, wired rest outgoing)
unfolding receive_last receive split
received_tail [] rest o buf h = refl
received_tail (b ∷ last) rest o buf h = rw (suc-==_zero (length last)) (
    ap {B = Option (List ℕ × Wire)} (λ l. some (l, wired rest o))
      (sub-block (b ∷ last) zeros buf (omega arith)))

-- What is sent of a file that is divided.
abbrev stream_of : (file : List ℕ) → Division (length file) file → List ℕ
stream_of file d = d.whole ++ (tail_block d.last ++ sub 0 16 zeros)

sent_file :
    (file : List ℕ) (d : Division (length file) file) (incoming outgoing : List ℕ)
    → send_file file (wired incoming outgoing)
      ≡ some (wired incoming (outgoing ++ stream_of file d))
unfolding send_file send
sent_file file d i o =
    rw (d.sent i o, send_file)
      (rw (sent_tail d.last i (o ++ d.whole)) (
        rw (append_assoc (o ++ d.whole) (tail_block d.last) (sub 0 16 zeros))
          (rw (append_assoc o d.whole (tail_block d.last ++ sub 0 16 zeros)) refl)))

received_file :
    (file : List ℕ) (d : Division (length file) file) (buf : Buffer) (rest outgoing : List ℕ)
    → receive_file (length file) buf (wired (stream_of file d ++ rest) outgoing)
      ≡ some (file, wired rest outgoing)
unfolding receive_file receive split
received_file file d buf rest o =
    let zero_block = sub 0 16 zeros in
    rw (append_assoc d.whole (tail_block d.last ++ zero_block) rest) (
      rw (append_assoc (tail_block d.last) zero_block rest) (
        rw (d.received buf (tail_block d.last ++ (zero_block ++ rest)) o, receive_file)
          (rw (received_tail d.last (zero_block ++ rest) o buf d.short)
            (ap {B = Option (List ℕ × Wire)} (λ l. some (l, wired rest o)) d.together))))

-- What is sent of a file, for either side.
pub record FileStream (file : List ℕ) : Type 0 where
  pub stream : List ℕ
  pub sent :
      (incoming outgoing : List ℕ)
      → send_file file (wired incoming outgoing) ≡ some (wired incoming (outgoing ++ stream))
  pub received :
      (buf : Buffer) (rest outgoing : List ℕ)
      → receive_file (length file) buf (wired (stream ++ rest) outgoing)
        ≡ some (file, wired rest outgoing)

-- Whatever the size of the file, a stream is sent for it from which the file is read back, and
-- with it nothing of what follows.
pub receive_file-send_file : (file : List ℕ) → FileStream file
receive_file-send_file file =
    let d = division (length file) file (omega arith) in
    record { stream = stream_of file d; sent = sent_file file d; received = received_file file d }
