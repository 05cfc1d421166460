-- ===== src/TestPolicy/Control.antt =====
-- bwctld/policy.c: the class of a connection. BWLDCheckControlPolicy finds it in the child and
-- tells the daemon, and BWLDAllowOpenMode looks a limit up in it. The tables of identities (I2's
-- hash tables) are arguments.
use bwctl.Prelude.{
  ℕ, zero, suc, ◌≤◌, ◌≡◌, refl, ap, ◌∙◌, Bool, true, not, Option, none, some, List, [], ◌∷◌, ◌++◌,
  arith, length, All, ◌==◌, if◌then◌else◌, ◌≢◌,
}
use bwctl.Bytes.Host.{le}
use bwctl.Policy.{PolicyNode, lim_allow_open_mode, get_node, get_limit}
use bwctl.Policy.Ident.{node_from_addr}
use bwctl.Ipc.{mesg_mark, mesg_ok, mesg_denied, read_response, send_response, read_ni}
use bwctl.Ipc.Class.{class_message, read_name, after_name, read_class, answer_class}
use bwctl.Ipc.Dispatch.{World, Broker, Served, admit, dispatch, check_fd}
use bwctl.Protocol.Greeting.{does_cipher}

-- BWLDAllowOpenMode: `none` with BWLErrFATAL, where the address has no class.
allow_open_mode : List PolicyNode → (ℕ → List ℕ → Option ℕ) → ℕ → List ℕ → Option Bool
allow_open_mode copy nets default addr = elim (get_node copy (node_from_addr nets default addr)) [
  | none ↦ none
  | some node ↦ some (not (get_limit node lim_allow_open_mode == 0))
]

-- The node: GetNodeFromUserID in an encrypted mode with a user's name, else GetNodeFromAddr.
node_of : (List ℕ → Option ℕ) → (ℕ → List ℕ → Option ℕ) → ℕ → ℕ → Option (List ℕ) → List ℕ → ℕ
node_of users nets default mode none addr = node_from_addr nets default addr
node_of users nets default mode (some userid) addr =
    elim (if does_cipher mode then users userid else none) [
      | none ↦ node_from_addr nets default addr
      | some node ↦ node
    ]

-- What the response means: the class is saved, or the connection is refused, or that is an error.
pub data Admission : Type 0 where
  admitted : ℕ → Admission
  refused broken : Admission

abbrev admission : ℕ → ℕ → Admission
admission node mesg =
    if mesg == mesg_ok then admitted node else if mesg == mesg_denied then refused else broken

-- BWLDCheckControlPolicy, from the node on: BWLDSendClass, with the daemon at the other end.
pub send_class : World → (ℕ → List ℕ) → ℕ → Broker → Broker × Admission
unfolding check_fd
send_class w nodename node b =
    let s = check_fd w b (class_message (nodename node)) in
    (s.broker, admission node (read_response s.written).0)

check_control_policy :
    World
    → (ℕ → List ℕ)
    → (List ℕ → Option ℕ)
    → (ℕ → List ℕ → Option ℕ)
    → ℕ
    → ℕ
    → Option (List ℕ)
    → List ℕ
    → Broker
    → Broker × Admission
unfolding node_of send_class
check_control_policy w nodename users nets default mode userid addr b =
    send_class w nodename (node_of users nets default mode userid addr) b

-- A name without a zero byte.
abbrev Text : List ℕ → Type 0
Text bytes = All (λ b. b ≢ 0) bytes

-- A name is read up to its zero, if there is room for it.
read_name_lem :
    (n : ℕ) (name rest : List ℕ)
    → length name ≤ n
    → Text name
    → read_name (suc n) (name ++ 0 ∷ rest) ≡ (some name, rest)
unfolding read_name
read_name_lem n [] rest h t = refl
read_name_lem zero (b ∷ name) rest h t = absurd (omega arith)
read_name_lem (suc n) (b ∷ name) rest h t =
    rw (read_name_lem n name rest (omega arith) t.1) (ground (arith, t.0))

answered_class : World → Broker → ℕ → Option ℕ → Broker × Admission
answered_class w b node found =
    let s = admit b (answer_class w.can_write found []) in
    (s.broker, admission node (read_response s.written).0)

read_class-class_message :
    (find : List ℕ → Option ℕ) (can_write : Bool) (name : List ℕ)
    → length name ≤ 80
    → Text name
    → read_class find can_write (class_message name) ≡ answer_class can_write (find name) []
unfolding class_message
read_class-class_message find can_write name h t =
    unfold read_class read_ni in
    refl
    ∙ ap (after_name find can_write) (read_name_lem 80 name (le 4 mesg_mark) h t)
    ∙ unfold after_name read_ni in refl

answered_lem :
    (w : World) (b : Broker) (node : ℕ) (found : Option ℕ)
    → w.can_write ≡ true
    → answered_class w b node found
      ≡ (record b { node = found }, elim found [ none ↦ refused | some id ↦ admitted node ])
unfolding answered_class answer_class send_response read_response
answered_lem w b node none can = rw can refl
answered_lem w b node (some id) can = rw can refl

-- A child without a class sends the name of one, of at most 80 bytes. The daemon then has for the
-- child the node of that name in its table, and the child is admitted with the node whose name it
-- sent; where the table has no such name, the daemon has no class for the child, and the child is
-- refused.
pub send_class_lem :
    (w : World) (nodename : ℕ → List ℕ) (node : ℕ) (b : Broker)
    → b.node ≡ none
    → w.can_write ≡ true
    → length (nodename node) ≤ 80
    → Text (nodename node)
    → send_class w nodename node b ≡ (
      record b { node = w.find (nodename node) },
      elim (w.find (nodename node)) [ none ↦ refused | some id ↦ admitted node ],
    )
unfolding send_class check_fd
send_class_lem w nodename node b new can h t =
    let name = nodename node in
    ap (λ (s : Served). (s.broker, admission node (read_response s.written).0))
      (ap (dispatch w b (class_message name)) new
        ∙ unfold dispatch in ap (admit b) (read_class-class_message w.find w.can_write name h t))
    ∙ unfold answered_class in answered_lem w b node (w.find name) can
