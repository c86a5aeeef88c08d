-- ===== src/Database.antt =====
-- The shared memory of the engine: the clock of System/manager.cpp, the rows by address, and the one table and
-- index that Server/kv_api.cpp works on (DataFormat/table.cpp hands out the rows). An address is the number of
-- an allocation and is never used again, so a freed cell stays freed.
pub mod Memory
use data_agent_demo.Prelude.{
  ℕ, ◌+◌, ◌%◌, ◌≡◌, Bool, Option, none, some, List, [], ◌∷◌, ◌++◌, length, get_elem?, set,
}
use data_agent_demo.Run.{
  Fault, out_of_bounds, use_after_free, Run, ok, fault, or_fault, ◌>>=◌, ◌>>◌,
}
use data_agent_demo.System.{Rc, rcok, word64}
use data_agent_demo.Env.{Env}
use data_agent_demo.Row
use data_agent_demo.Row.{Table, Row}
use data_agent_demo.Row.Occ.{init_manager}
use data_agent_demo.IndexHash.{IndexHash}

pub data Cell : Type 0 where
  live : Row → Cell
  freed : Cell

pub record Database : Type 0 where
  -- `*timestamp` of `Manager`
  pub timestamp : ℕ
  pub rows : List Cell
  -- `h_wl->tables["Data_TABLE"]` and `h_wl->indexes["Data_INDEX"]`
  pub table : Table
  pub index : IndexHash
  pub cur_tab_size : ℕ

-- `*p` for a pointer to a row
abbrev pub load_cell : Option Cell → Run Row
load_cell none = fault out_of_bounds
load_cell (some freed) = fault use_after_free
load_cell (some (live r)) = ok r

unfoldable pub load : Database → ℕ → Run Row
load db p = load_cell (get_elem? db.rows p)

-- Writes through a pointer, and frees it. Each is used on a row that was loaded.
unfoldable pub store : Database → ℕ → Row → Database
store db p r = record db { rows = set db.rows p (live r) }

unfoldable pub free : Database → ℕ → Database
free db p = record db { rows = set db.rows p freed }

-- `Manager::get_ts`
unfoldable pub get_ts : Database → ℕ × Database
get_ts db = (db.timestamp, record db { timestamp = (db.timestamp + 1) % word64 })

-- `table_t::get_new_row`: the code, the new row's address, its row id and the database.
unfoldable pub get_new_row : Env → Database → ℕ → Rc × ℕ × ℕ × Database
unfolding Row.init init_manager
get_new_row env db part_id =
    let row_id = db.cur_tab_size in
    let row = init_manager (Row.init env db.table part_id row_id) in
    (
      rcok,
      length db.rows,
      row_id,
      record db { rows = db.rows ++ live row ∷ []; cur_tab_size = (row_id + 1) % word64 },
    )
