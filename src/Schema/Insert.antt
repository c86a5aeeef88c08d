-- ===== src/Schema/Insert.antt =====
-- The two index_insert helpers of Storage/test/wl.cpp.
use data_agent_demo.Prelude.{ℕ, true, Option, none, some}
use data_agent_demo.Run.{Run, ok, fault, assertion, check, ◌>>=◌, ◌>>◌}
use data_agent_demo.System.{rcok?}
use data_agent_demo.Bytes.{Bytes}
use data_agent_demo.Helper.{get_part_id}
use data_agent_demo.IndexHash
use data_agent_demo.IndexHash.{IndexHash, Item, dt_row}

-- The row by its address; with no part given, the part is that of the address.
unfoldable pub index_insert : IndexHash → ℕ → ℕ → Option ℕ → Run IndexHash
unfolding get_part_id IndexHash.index_insert rcok?
index_insert index key row part_id = do
  let pid : ℕ = elim part_id [ none ↦ get_part_id row | some p ↦ p ]
  (rc, index') ←
      IndexHash.index_insert index key (record { type = dt_row; location = row; valid = true }) pid
  check (rcok? rc) assertion
  ok index'

-- The overload on an index's name asserts false.
unfoldable pub index_insert_named : Bytes → ℕ → ℕ → Run IndexHash
index_insert_named index_name key row = fault assertion
