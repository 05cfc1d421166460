-- ===== src/Protocol/Exchange.antt =====
-- A client and a server on a connection. A process that waits for bytes is run again when they are
-- there, so what each of the two has sent grows until neither waits.
pub mod Time
pub mod Setup
pub mod Start
pub mod Accept
pub mod Stop
use bwctl.Prelude.{ℕ, zero, suc, true, false, List, [], ◌≡◌, refl}
use bwctl.Protocol.{Control, Wire, Outcome, done, failed, Flags}

-- The sides' wires: `bytes` is what the peer has sent.
abbrev pub wire : List ℕ → Wire
wire bytes = record { incoming = bytes; outgoing = []; up = true }

abbrev pub heard : {A : Type 0} → Outcome A → List ℕ
heard (done a c w) = w.outgoing
heard (failed sev c w) = w.outgoing

-- What the server has sent after the given number of turns of both.
abbrev answers : {A B : Type 0} → ℕ → (Wire → Outcome A) → (Wire → Outcome B) → List ℕ
answers zero client server = []
answers (suc n) client server =
    heard (server (wire (heard (client (wire (answers n client server))))))

-- Where the conversation of the two ends, after n turns and one more.
abbrev pub converse :
    {A B : Type 0} → ℕ → (Wire → Outcome A) → (Wire → Outcome B) → Outcome A × Outcome B
converse n client server = (
  client (wire (answers n client server)),
  server (wire (heard (client (wire (answers n client server))))),
)

-- Whether a side has come to its end with this result and state, with nothing left to read.
abbrev pub EndsIn : {A : Type 0} → Outcome A → A → Flags → Type 0
EndsIn (done x c w) a s = (x ≡ a) × (c.state ≡ s) × (w.incoming ≡ [])
EndsIn (failed sev c w) a s = true ≡ false

-- The same, with all that the side has sent.
abbrev pub Says : {A : Type 0} → Outcome A → A → Flags → List ℕ → Type 0
Says o a s sent = EndsIn o a s × (heard o ≡ sent)

-- Whether a side has failed, with this state.
abbrev pub FailsIn : {A : Type 0} → Outcome A → Flags → Type 0
FailsIn (done x c w) s = true ≡ false
FailsIn (failed sev c w) s = c.state ≡ s

-- One turn each is enough where the client does not say more once it has been answered.
pub converse_once :
    {A B : Type 0}
    → (client : Wire → Outcome A) (server : Wire → Outcome B) (a : A) (b : B) (s s' : Flags)
      (request answer : List ℕ)
    → heard (client (wire [])) ≡ request
    → Says (server (wire request)) b s' answer
    → Says (client (wire answer)) a s request
    → EndsIn (converse 1 client server).0 a s × EndsIn (converse 1 client server).1 b s'
converse_once client server a b s s' request answer first reply last =
    rw first (rw reply.1 (rw last.1 (last.0, reply.0)))

-- The same for two that fail, with what the server has sent.
pub converse_fails :
    {A B : Type 0}
    → (client : Wire → Outcome A) (server : Wire → Outcome B) (s s' : Flags)
      (request answer : List ℕ)
    → heard (client (wire [])) ≡ request
    → FailsIn (server (wire request)) s' × (heard (server (wire request)) ≡ answer)
    → FailsIn (client (wire answer)) s × (heard (client (wire answer)) ≡ request)
    → FailsIn (converse 1 client server).0 s
      × FailsIn (converse 1 client server).1 s'
      × (heard (converse 1 client server).1 ≡ answer)
converse_fails client server s s' request answer first reply last =
    rw first (rw reply.1 (rw last.1 (last.0, reply.0, reply.1)))

-- Two turns each, where the server speaks first and then answers once.
pub converse_twice :
    {A B : Type 0}
    → (client : Wire → Outcome A) (server : Wire → Outcome B) (a : A) (b : B) (s s' : Flags)
      (greeting request answer : List ℕ)
    → heard (client (wire [])) ≡ []
    → heard (server (wire [])) ≡ greeting
    → heard (client (wire greeting)) ≡ request
    → Says (server (wire request)) b s' answer
    → Says (client (wire answer)) a s request
    → EndsIn (converse 2 client server).0 a s × EndsIn (converse 2 client server).1 b s'
converse_twice client server a b s s' greeting request answer silent first second reply last =
    rw silent (rw first (rw second (rw reply.1 (rw last.1 (last.0, reply.0)))))
