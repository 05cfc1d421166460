-- ===== src/Ipc/Class.antt =====
-- bwctld/policy.c: the first message of a child, its user class (BWLDSendClass, BWLDReadClass). The
-- table of classes (policy->limits, I2's hash table) is the argument `find`, from a name to a node.
use bwctl.Prelude.{
  ℕ, zero, suc, Bool, true, false, Option, none, some, List, [], ◌∷◌, ◌++◌, ◌==◌, if◌then◌else◌,
  ◌&&◌,
}
use bwctl.Bytes.Host.{le, get_le}
use bwctl.Ipc.{mesg_mark, mesg_class, mesg_ok, mesg_denied, read_ni, has_mark, send_response}

-- BWLDSendClass: what is written for a node of that name.
unfoldable pub class_message : List ℕ → List ℕ
class_message name = le 4 mesg_mark ++ (le 4 mesg_class ++ (name ++ (0 ∷ [] ++ le 4 mesg_mark)))

-- The loop that reads the name: its bytes up to the zero, of which at most BWLDMAXCLASSLEN precede.
unfoldable pub read_name : ℕ → List ℕ → Option (List ℕ) × List ℕ
read_name zero pipe = (none, pipe)
read_name (suc n) [] = (none, [])
read_name (suc n) (b ∷ pipe) =
    let (name, rest) = read_name n pipe in
    if b == 0
    then (some [], pipe)
    else (elim name [ none ↦ none | some bytes ↦ some (b ∷ bytes) ], rest)

-- What BWLDReadClass returns, writes and leaves.
pub record ClassRead : Type 0 where
  pub node : Option ℕ
  pub written : List ℕ
  pub err : Bool
  pub rest : List ℕ

abbrev unread_class : Bool → List ℕ → ClassRead
unread_class err rest = record { node = none; written = []; err = err; rest = rest }

-- The answer to a name that was read; `can_write` tells whether the response can be written.
unfoldable pub answer_class : Bool → Option ℕ → List ℕ → ClassRead
unfolding send_response
answer_class can_write (some node) rest =
    if can_write
    then record { node = some node; written = send_response mesg_ok; err = false; rest = rest }
    else unread_class true rest
answer_class can_write none rest = record {
  node = none;
  written = if can_write then send_response mesg_denied else [];
  err = true;
  rest = rest;
}

-- Behind the name: the trailer, and the look in the table.
unfoldable pub after_name : (List ℕ → Option ℕ) → Bool → Option (List ℕ) × List ℕ → ClassRead
unfolding read_ni answer_class
after_name find can_write (none, rest) = unread_class true rest
after_name find can_write (some name, rest) =
    let (trailer, rest') = read_ni 4 rest in
    elim trailer [
      | none ↦ unread_class true rest'
      | some buf ↦
          if has_mark 0 buf
          then answer_class can_write (find name) rest'
          else unread_class true rest'
    ]

-- BWLDReadClass
unfoldable pub read_class : (List ℕ → Option ℕ) → Bool → List ℕ → ClassRead
unfolding read_ni read_name after_name
read_class find can_write [] = unread_class false []
read_class find can_write (b ∷ pipe) =
    let (read, rest) = read_ni 8 (b ∷ pipe) in
    elim read [
      | none ↦ unread_class true rest
      | some buf ↦
          if has_mark 0 buf && get_le 4 4 buf == mesg_class
          then after_name find can_write (read_name 81 rest)
          else unread_class true rest
    ]
