-- ===== src/Protocol/Stop/Message.antt =====
-- The message StopSession: what _BWLWriteStopSession sends, and how BWLReadRequestType and
-- _BWLReadStopSession read it.
use bwctl.Prelude.{
  ℕ, ◌+◌, ◌*◌, ◌/◌, ◌%◌, ◌<◌, ◌≡◌, refl, arith, true, false, Option, none, some, List, [], ◌∷◌,
  ◌++◌, length, ltb, ltb→lt, lt→ltb, ==→eq, ◌==◌, Bool-cases, inl, inr, if◌then◌else◌,
}
use mathlib.Core.List.{append_assoc}
use bwctl.Bytes.{Buffer, zeros, put, sub, be32, split}
use bwctl.Num64.{u32_mod}
use bwctl.Protocol.{
  Flags, only_request, Control, done, AcceptType, accept_byte, get_accept_type, is_invalid,
  invalid_accept, accept, reject, failure, unsupported, send, receive,
}
use bwctl.Protocol.Request.{stop_session, request_type, read_request_type}
use bwctl.Protocol.Stop.{write_stop_session, read_stop_session, file_size, stop_answer}
use bwctl.Protocol.Stop.Blocks.{wired, FileStream, receive_file-send_file}

-- The state while a test is active, and while its StopSession is being read.
abbrev pub testing : Flags
testing = record only_request { test = true }

abbrev stopping : Flags
stopping = record testing { stop_session = true }

abbrev pub stop_buffer : AcceptType → ℕ → Buffer
stop_buffer a n = put 8 4 (be32 n) (put 0 2 (3 ∷ accept_byte a ∷ []) zeros)

-- Behind the first half of the message.
abbrev reading : Control → AcceptType → ℕ → Control
reading c a n = record c { state = stopping; msg = put 0 16 (sub 0 16 (stop_buffer a n)) c.msg }

pub read_stop_request :
    (c : Control) (a : AcceptType) (n : ℕ) (rest outgoing : List ℕ)
    → read_request_type
        (record c { state = testing })
        (wired (sub 0 32 (stop_buffer a n) ++ rest) outgoing)
      ≡ done stop_session (reading c a n) (wired (sub 16 16 (stop_buffer a n) ++ rest) outgoing)
unfolding read_request_type request_type receive split
read_stop_request c a n rest o = refl

pub accept_back : (a : AcceptType) → get_accept_type (accept_byte a) ≡ a
unfolding get_accept_type
accept_back invalid_accept = refl
accept_back accept = refl
accept_back reject = refl
accept_back failure = refl
accept_back unsupported = refl

pub be32_back :
    (n : ℕ)
    → n < u32_mod
    → n / 0x1000000 % 256 * 0x1000000
        + n / 0x10000 % 256 * 0x10000
        + n / 0x100 % 256 * 0x100
        + n % 256
      ≡ n
be32_back n h = ground arith

-- Behind the whole message, and behind the file.
abbrev read_buffer : Control → AcceptType → ℕ → Buffer
read_buffer c a n = put 16 16 (sub 16 16 (stop_buffer a n)) (reading c a n).msg

abbrev read_message : Control → AcceptType → ℕ → Control
read_message c a n = record c { state = testing; msg = read_buffer c a n }

abbrev read_with_file : Control → AcceptType → ℕ → Control
read_with_file c a n = record c { state = testing; msg = put 0 16 [] (read_buffer c a n) }

-- Where nothing follows the message.
read_empty :
    (c : Control) (a : AcceptType) (rest outgoing : List ℕ)
    → is_invalid a ≡ false
    → read_stop_session (reading c a 0) (wired (sub 16 16 (stop_buffer a 0) ++ rest) outgoing)
      ≡ done (a, []) (read_message c a 0) (wired rest outgoing)
unfolding read_stop_session receive split
read_empty c a rest o h = rw (accept_back a) (rw h refl)

-- Where a file follows it.
read_full :
    (c : Control) (a : AcceptType) (file rest outgoing : List ℕ) (f : FileStream file)
    → is_invalid a ≡ false
    → length file < u32_mod
    → (length file == 0) ≡ false
    → read_stop_session
        (reading c a (length file))
        (wired (sub 16 16 (stop_buffer a (length file)) ++ (f.stream ++ rest)) outgoing)
      ≡ done (a, file) (read_with_file c a (length file)) (wired rest outgoing)
unfolding read_stop_session receive split
read_full c a file rest o f h small full = rw (accept_back a) (
    rw h (
      rw (be32_back (length file) small) (
        rw full
          (rw (f.received (read_buffer c a (length file)) rest o) (rw (accept_back a) refl)))))

-- What is written.
abbrev bytes_of : Option (List ℕ) → List ℕ
bytes_of none = []
bytes_of (some file) = file

write_empty :
    (c : Control) (a : AcceptType) (fp : Option (List ℕ)) (incoming outgoing : List ℕ)
    → file_size (bytes_of fp) ≡ 0
    → write_stop_session a fp (record c { state = testing }) (wired incoming outgoing)
      ≡ done tt
          (record c { state = testing; msg = stop_buffer (stop_answer a (bytes_of fp)) 0 })
          (wired incoming (outgoing ++ sub 0 32 (stop_buffer (stop_answer a (bytes_of fp)) 0)))
unfolding write_stop_session send
write_empty c a none i o h = refl
write_empty c a (some file) i o h = rw h refl

write_full :
    (c : Control) (a : AcceptType) (file incoming outgoing : List ℕ) (f : FileStream file)
    → length file < u32_mod
    → (length file == 0) ≡ false
    → write_stop_session a (some file) (record c { state = testing }) (wired incoming outgoing)
      ≡ done tt
          (record c { state = testing; msg = put 0 16 [] (stop_buffer a (length file)) })
          (wired incoming (outgoing ++ (sub 0 32 (stop_buffer a (length file)) ++ f.stream)))
unfolding write_stop_session send
write_full c a file i o f small full =
    let fits = lt→ltb (length file) u32_mod small in
    rw fits (
      rw full (
        rw (f.sent i (o ++ sub 0 32 (stop_buffer a (length file)))) (
          rw (append_assoc o (sub 0 32 (stop_buffer a (length file))) f.stream)
            (rw (fits, file_size, stop_answer) refl))))

-- What the peer gets: a file of 2^32 bytes or more is not sent, and a failure is answered then.
abbrev pub answer_of : AcceptType → Option (List ℕ) → AcceptType
answer_of a fp = stop_answer a (bytes_of fp)

abbrev pub results_of : Option (List ℕ) → List ℕ
results_of fp = if ltb (length (bytes_of fp)) u32_mod then bytes_of fp else []

pub record Transfer (a : AcceptType) (fp : Option (List ℕ)) : Type 0 where
  pub size : ℕ
  pub body : List ℕ
  pub written : Buffer
  pub read : Control → Buffer
  pub sent :
      (c : Control) (incoming outgoing : List ℕ)
      → write_stop_session a fp (record c { state = testing }) (wired incoming outgoing)
        ≡ done tt
            (record c { state = testing; msg = written })
            (wired incoming (outgoing ++ (sub 0 32 (stop_buffer (answer_of a fp) size) ++ body)))
  pub received :
      (c : Control) (rest outgoing : List ℕ)
      → read_stop_session
          (reading c (answer_of a fp) size)
          (wired (sub 16 16 (stop_buffer (answer_of a fp) size) ++ (body ++ rest)) outgoing)
        ≡ done
            (answer_of a fp, results_of fp)
            (record c { state = testing; msg = read c })
            (wired rest outgoing)

Transfer-empty :
    (a : AcceptType) (fp : Option (List ℕ))
    → is_invalid (answer_of a fp) ≡ false
    → file_size (bytes_of fp) ≡ 0
    → results_of fp ≡ []
    → Transfer a fp
Transfer-empty a fp h empty none_left = record {
  size = 0;
  body = [];
  written = stop_buffer (answer_of a fp) 0;
  read = λ c. read_buffer c (answer_of a fp) 0;
  sent = λ c i o. write_empty c a fp i o empty;
  received = λ c rest o. rw none_left (read_empty c (answer_of a fp) rest o h);
}

Transfer-full :
    (a : AcceptType) (file : List ℕ)
    → is_invalid a ≡ false
    → length file < u32_mod
    → (length file == 0) ≡ false
    → Transfer a (some file)
Transfer-full a file h small full =
    let f = receive_file-send_file file in
    record {
      size = length file;
      body = f.stream;
      written = put 0 16 [] (stop_buffer a (length file));
      read = λ c. put 0 16 [] (read_buffer c a (length file));
      sent =
          λ c i o. rw (lt→ltb (length file) u32_mod small) (write_full c a file i o f small full);
      received = λ c rest o.
          rw (lt→ltb (length file) u32_mod small) (read_full c a file rest o f h small full);
    }

no_bytes : (file : List ℕ) → length file ≡ 0 → file ≡ []
no_bytes [] h = refl
no_bytes (b ∷ file) h = absurd (omega arith)

-- Every answer that is not invalid is transferred, with the results if there are any.
pub transfer : (a : AcceptType) (fp : Option (List ℕ)) → is_invalid a ≡ false → Transfer a fp
transfer a none h = Transfer-empty a none h refl refl
transfer a (some file) h = elim (Bool-cases (ltb (length file) u32_mod)) [
  | inr large ↦ Transfer-empty a (some file) (rw large refl) (rw large refl) (rw large refl)
  | inl small ↦ elim (Bool-cases (length file == 0)) [
    | inl empty ↦
        Transfer-empty a (some file) (rw (small, stop_answer) h)
          (rw small (==→eq (length file) 0 empty))
          (rw small (no_bytes file (==→eq (length file) 0 empty)))
    | inr full ↦ Transfer-full a file h (ltb→lt (length file) u32_mod small) full
  ]
]
