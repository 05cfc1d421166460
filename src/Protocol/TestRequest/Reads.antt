-- ===== src/Protocol/TestRequest/Reads.antt =====
-- What _BWLReadTestRequest leaves of the connection: its session, its state and what it has
-- written.
use bwctl.Prelude.{
  ℕ, ◌≡◌, ◌⊎◌, inl, inr, refl, Bool, true, false, not, if◌then◌else◌, Option, none, some, arith,
}
use bwctl.Bytes.{Buffer}
use bwctl.Protocol.{
  Flags, no_flags, Severity, fatal, warning, Control, Wire, Outcome, done, failed, fail_control,
  drained, receive,
}
use bwctl.Protocol.TestRequest.{
  TestRequest, ToolKind, padding_of, fitted, request_received, read_test_request,
}

-- A request that is read leaves the session; one that is answered with a warning leaves also the
-- state and what was written; and a fatal error leaves the session or frees it.
unfoldable pub Reads : Control → Wire → Outcome TestRequest → Type 0
Reads c w (done q c' w') = c'.tests ≡ c.tests
Reads c w (failed warning c' w') =
    (c'.tests ≡ c.tests) × ((c'.state ≡ c.state) × (w'.outgoing ≡ w.outgoing))
Reads c w (failed fatal c' w') = (c'.tests ≡ c.tests) ⊎ (c'.tests ≡ none)

receive-outgoing :
    (off n : ℕ) (buf buf' : Buffer) (w w' : Wire)
    → receive off n buf w ≡ some (buf', w')
    → w'.outgoing ≡ w.outgoing
unfolding receive
receive-outgoing off n buf buf' w w' h = ground arith

fitted-Reads :
    (existing : Option TestRequest) (c : Control) (w w' : Wire) (buf : Buffer)
    (result : Severity ⊎ TestRequest)
    → w'.outgoing ≡ w.outgoing
    → Reads c w (fitted existing (record c { msg = buf }) w' result)
unfolding Reads
fitted-Reads none c w w' buf (inl fatal) h = inl refl
fitted-Reads (some q) c w w' buf (inl fatal) h = inr refl
fitted-Reads existing c w w' buf (inl warning) h = (refl, (refl, h))
fitted-Reads existing c w w' buf (inr q) h = refl

if_either :
    (P : Outcome TestRequest → Type 0) (b : Bool) (p q : Outcome TestRequest)
    → P p
    → P q
    → P (if b then p else q)
if_either P true p q hp hq = hp
if_either P false p q hp hq = hq

fail_control-Reads :
    (c c' : Control) (w w' : Wire) → c'.tests ≡ c.tests → Reads c w (fail_control c' w')
unfolding Reads
fail_control-Reads c c' w w' h = inl h

request_received-Reads :
    (tools : ℕ → Option ToolKind) (existing : Option TestRequest) (c : Control) (w : Wire)
    (o : Option (Buffer × Wire))
    → ((buf : Buffer) (w' : Wire) → o ≡ some (buf, w') → w'.outgoing ≡ w.outgoing)
    → Reads c w (request_received tools existing c w o)
request_received-Reads tools existing c w none h = fail_control-Reads c c w (drained w) refl
request_received-Reads tools existing c w (some (buf, w')) h =
    if_either (Reads c w) _ _ _ (fail_control-Reads c (record c { msg = buf }) w w' refl)
      (fitted-Reads existing c w w' buf _ (h buf w' refl))

unread : (c : Control) (w : Wire) → Reads c w (failed fatal c w)
unfolding Reads
unread c w = inl refl

pub read_test_request-Reads :
    (tools : ℕ → Option ToolKind) (existing : Option TestRequest) (c : Control) (w : Wire)
    → Reads c w (read_test_request tools existing c w)
unfolding read_test_request
read_test_request-Reads tools existing c w =
    if_either (Reads c w) (not c.state.test_request) _ _ (unread c w) (
      request_received-Reads tools existing c w (receive 16 (padding_of c.version) c.msg w)
        λ buf w' h. receive-outgoing 16 (padding_of c.version) c.msg buf w w' h)

if_guarded :
    (P : Outcome TestRequest → Type 0) (b : Bool) (p q : Outcome TestRequest)
    → P p
    → (b ≡ true → P q)
    → P (if not b then p else q)
if_guarded P true p q hp hq = hq refl
if_guarded P false p q hp hq = hp

-- What a result says of the states before and after.
unfoldable pub Moves : Flags → Outcome TestRequest → Type 0
Moves s (done q c w) =
    (s.test_request ≡ true) × (c.state ≡ record s { test_request = false; test_accept = true })
Moves s (failed sev c w) = (c.state ≡ s) ⊎ (c.state ≡ no_flags)

fitted-Moves :
    (existing : Option TestRequest) (c : Control) (w : Wire) (result : Severity ⊎ TestRequest)
    → c.state.test_request ≡ true
    → Moves c.state (fitted existing c w result)
unfolding Moves
fitted-Moves existing c w (inl fatal) h = inr refl
fitted-Moves existing c w (inl warning) h = inl refl
fitted-Moves existing c w (inr q) h = (h, refl)

invalid-Moves : (s : Flags) (c : Control) (w : Wire) → Moves s (fail_control c w)
unfolding Moves
invalid-Moves s c w = inr refl

request_received-Moves :
    (tools : ℕ → Option ToolKind) (existing : Option TestRequest) (c : Control) (w : Wire)
    (o : Option (Buffer × Wire))
    → c.state.test_request ≡ true
    → Moves c.state (request_received tools existing c w o)
request_received-Moves tools existing c w none h = invalid-Moves c.state c (drained w)
request_received-Moves tools existing c w (some (buf, w')) h =
    if_either (Moves c.state) _ _ _ (invalid-Moves c.state (record c { msg = buf }) w')
      (fitted-Moves existing (record c { msg = buf }) w' _ h)

same-Moves : (c : Control) (w : Wire) → Moves c.state (failed fatal c w)
unfolding Moves
same-Moves c w = inl refl

pub read_test_request-Moves :
    (tools : ℕ → Option ToolKind) (existing : Option TestRequest) (c : Control) (w : Wire)
    → Moves c.state (read_test_request tools existing c w)
unfolding read_test_request
read_test_request-Moves tools existing c w =
    if_guarded (Moves c.state) c.state.test_request _ _ (same-Moves c w)
      (request_received-Moves tools existing c w (receive 16 (padding_of c.version) c.msg w))
