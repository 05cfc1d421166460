-- ===== src/Ipc/Tests.antt =====
-- The pipe of a child on concrete messages.
use bwctl.Prelude.{ℕ, ◌*◌, ◌+◌, ◌≡◌, refl, arith, inl, true, none, some, List, [], ◌∷◌}
use bwctl.Num64.{u32_mod}
use bwctl.Tools.{Tool, TestType}
use bwctl.Policy.{lim_pending, LimRec, PolicyNode, find_entry}
use bwctl.Policy.Demand.{mesg_request}
use bwctl.Policy.{limit_kind}
use bwctl.Policy.Demand.{resource_demand, integer_demand, demand_at}
use bwctl.Policy.Float.{exceeds, to_float, rounded_below, unit_below}
use bwctl.Ipc.Query.{read_query}
use bwctl.Ipc.Dispatch.{serve_query}
use bwctl.Ipc.{mesg_ok, read_response}
use bwctl.Ipc.Query.{query_message}
use bwctl.Ipc.Dispatch.{World, Broker}
use bwctl.Ipc.Ask.{resource, ask, decide}
use bwctl.Ipc.Decide.{ask-decide}

abbrev pub classes : List PolicyNode
classes =
    record {
      nodename = "root";
      parent = none;
      entries = record { limit = lim_pending; value = 3; used = 2 } ∷ [];
    }
    ∷ []

abbrev one : LimRec
one = record { limit = lim_pending; value = 1 }

abbrev pub tools : List Tool
tools = record { id = 1; test_types = TestType.throughput } ∷ []

abbrev pub clock : ℕ
clock = (2208988800 + 1000) * u32_mod

abbrev pub world : World
world = record {
  tools = tools;
  find = λ name. some 0;
  currtime = some clock;
  init_port = some 5001;
  can_write = true;
}

-- A child of the only class, with nothing reserved.
abbrev broker : Broker
broker = record { classes = classes; slots = []; node = some 0; res = none }

ask-decide_example :
    ask world broker (resource mesg_request one) ≡ decide world broker 0 (resource mesg_request one)
ask-decide_example =
    ask-decide world broker 0 (resource mesg_request one) refl refl tt
      (inl refl, omega arith, omega arith)

-- The third pending test is granted.
asked : (ask world broker (resource mesg_request one)).1 ≡ mesg_ok
unfolding ask query_message read_response read_query serve_query resource_demand limit_kind
    integer_demand demand_at find_entry exceeds to_float rounded_below unit_below
asked = refl
