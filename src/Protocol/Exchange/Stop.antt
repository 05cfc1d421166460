-- ===== src/Protocol/Exchange/Stop.antt =====
-- The end of a session: BWLEndSession of the client against BWLStopSession of the daemon.
use bwctl.Prelude.{
  ℕ, ◌≡◌, refl, sym, false, Option, none, some, List, [], ◌++◌, ◌&&◌, Bool-cases, inl, inr,
}
use mathlib.Core.List.{append-nil}
use bwctl.Bytes.{sub, split}
use bwctl.Protocol.{only_request, Session, Control, AcceptType, is_accept, is_invalid, receive}
use bwctl.Protocol.Stop.Message.{
  testing, stop_buffer, answer_of, results_of, Transfer, transfer, read_stop_request,
}
use bwctl.Protocol.Request.{read_request_type}
use bwctl.Protocol.Peers.{
  Hooks, is_fatal, StopResult, worse, local_answer, local_file, stop_session_with, end_session,
}
use bwctl.Protocol.Exchange.{wire, heard, Says, converse, converse_once, EndsIn}

-- A side with an active test.
abbrev pub active : Session → Control → Control
active s c = record c { tests = some s; state = testing }

module _ {a : AcceptType} {fp : Option (List ℕ)} where
  abbrev said : Transfer a fp → List ℕ
  said t = sub 0 32 (stop_buffer (answer_of a fp) t.size) ++ t.body

-- What BWLStopSession leaves where the peer, which sends no results, answers with `peer`.
abbrev pub stop_result : AcceptType → Hooks → AcceptType → StopResult
stop_result b hooks peer = record {
  severity = worse hooks.session_free (worse hooks.process_results hooks.endpoint_stop);
  acceptval = local_answer hooks b;
  intr = some peer;
  results = [];
}

local_answer_valid :
    (b : AcceptType) (hooks : Hooks)
    → is_invalid b ≡ false
    → is_invalid (local_answer hooks b) ≡ false
local_answer_valid b hooks h = elim (Bool-cases (is_accept b && is_fatal hooks.endpoint_stop)) [
  | inl fails ↦ rw fails refl
  | inr lives ↦ rw lives h
]

-- What a side has once it has sent its own message and its peer's is there.
abbrev c_with : Session → Control → Control
c_with s c = record c { tests = some s }

-- Ending on the client's side.
end_asks :
    (a : AcceptType) (hooks : Hooks) (s : Session) (c : Control) (t : Transfer a none)
    → heard (end_session a hooks (active s c) (wire [])) ≡ said t
unfolding end_session read_request_type receive split
end_asks a hooks s c t = rw (t.sent (c_with s c) [] []) refl

end_answered :
    (a b : AcceptType) (fp : Option (List ℕ)) (hooks : Hooks) (s : Session) (c : Control)
    (t : Transfer a none) (u : Transfer b fp)
    → Says
        (end_session a hooks (active s c) (wire (said u)))
        (answer_of b fp, results_of fp, hooks.session_free)
        testing
        (said t)
unfolding end_session
end_answered a b fp hooks s c t u =
    let heard_all = sub 0 32 (stop_buffer (answer_of b fp) u.size) ++ (u.body ++ []) in
    let c' = record c { tests = some s; msg = t.written } in
    rw (sym (append-nil u.body)) (
      rw (t.sent (c_with s c) heard_all []) (
        rw (read_stop_request c' (answer_of b fp) u.size (u.body ++ []) (said t))
          (rw (u.received c' [] (said t)) ((refl, refl, refl), refl))))

-- Stopping on the daemon's side.
stop_answered :
    (a b : AcceptType) (fp : Option (List ℕ)) (hooks : Hooks) (s : Session) (d : Control)
    (t : Transfer a none) (u : Transfer (local_answer hooks b) (local_file hooks b fp))
    → Says
        (stop_session_with b fp hooks (active s d) (wire (said t)))
        (stop_result b hooks (answer_of a none))
        only_request
        (said u)
unfolding stop_session_with
stop_answered a b fp hooks s d t u =
    let heard_all = sub 0 32 (stop_buffer (answer_of a none) t.size) ++ (t.body ++ []) in
    let d' = record d { tests = some s; msg = u.written } in
    rw (sym (append-nil t.body)) (
      rw (u.sent (c_with s d) heard_all []) (
        rw (read_stop_request d' (answer_of a none) t.size (t.body ++ []) (said u))
          (rw (t.received d' [] (said u)) ((refl, refl, refl), refl))))

-- A client and a daemon with an active test, whose answers are not the invalid one. The client has
-- the daemon's answer and, byte for byte, the daemon's file, unless the file has 2^32 bytes or
-- more: then it has a failure and no results. A failure of the daemon's endpoint turns its own
-- success into a failure without results. The daemon is at rest in the state Request; the client's
-- state is that of an active test still. Nothing is left unread on either side. The daemon's
-- *acceptval is not the client's answer, which is found in *intr.
pub end_session-stop_session_with :
    (a b : AcceptType) (fp : Option (List ℕ)) (hooks hooks' : Hooks) (s s' : Session)
    (c d : Control)
    → is_invalid a ≡ false
    → is_invalid b ≡ false
    → EndsIn
        (converse 1
          (end_session a hooks (active s c))
          (stop_session_with b fp hooks' (active s' d))).0
        (
          answer_of (local_answer hooks' b) (local_file hooks' b fp),
          results_of (local_file hooks' b fp),
          hooks.session_free,
        )
        testing
      × EndsIn
          (converse 1
            (end_session a hooks (active s c))
            (stop_session_with b fp hooks' (active s' d))).1
          (stop_result b hooks' a)
          only_request
end_session-stop_session_with a b fp hooks hooks' s s' c d ha hb =
    let t = transfer a none ha in
    let u =
      transfer (local_answer hooks' b) (local_file hooks' b fp) (local_answer_valid b hooks' hb) in
    converse_once (end_session a hooks (active s c)) (stop_session_with b fp hooks' (active s' d))
      (
        answer_of (local_answer hooks' b) (local_file hooks' b fp),
        results_of (local_file hooks' b fp),
        hooks.session_free,
      )
      (stop_result b hooks' a) testing only_request (said t) (said u) (end_asks a hooks s c t)
      (stop_answered a b fp hooks' s' d t u)
      (end_answered a (local_answer hooks' b) (local_file hooks' b fp) hooks s c t u)
