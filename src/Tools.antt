-- ===== src/Tools.antt =====
-- bwlib/tools.c: the table of the tools that were found on the host, as far as the daemon's
-- schedule asks it. What each tool module does on its own is left out.
use bwctl.Prelude.{ℕ, List, [], ◌∷◌, ◌==◌, if◌then◌else◌}

-- BWLTestType
pub data TestType : Type 0 where
  undefined throughput latency traceroute all : TestType

-- An entry of the context's tool_list: its identifier and the test types of its definition.
pub record Tool : Type 0 where
  pub id : ℕ
  pub test_types : TestType

-- BWLToolGetTestTypesByID
unfoldable pub get_test_types : List Tool → ℕ → TestType
get_test_types [] tool_id = TestType.undefined
get_test_types (tool ∷ rest) tool_id =
    if tool_id == tool.id then tool.test_types else get_test_types rest tool_id
