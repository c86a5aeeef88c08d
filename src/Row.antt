-- ===== src/Row.antt =====
-- Storage/DataFormat/row.h and row.cpp: a tuple of bytes and its fields. A row holds its table and its
-- `Row_occ` by value: only that row points to them, but for the table, whose name and schema never change.
-- The functions of concurrency_control/occ_row.cpp are in Row/Occ, and `get_row` and `return_row`, which
-- work on a transaction, in Txn. The source keeps a size or a position of a column in an `int` in places; it is a
-- number here, which differs for rows of 2 GiB and more only.
pub mod Occ
pub mod Fields
use data_agent_demo.Prelude.{ℕ, ◌+◌, ◌≡◌, Bool, Option, none, some, List, drop, take, leb, length}
use data_agent_demo.Run.{Run, ok, out_of_bounds, check, ◌>>=◌, ◌>>◌}
use data_agent_demo.Bytes.{Bytes, memcpy_at}
use data_agent_demo.Env.{Env}
use data_agent_demo.Catalog.{
  Catalog, field_cnt, get_field_size, get_field_index, get_field_id, get_field_index_of,
}

-- `table_t`, less `cur_tab_size`, which the database keeps
pub record Table : Type 0 where
  pub table_name : Bytes
  pub schema : Catalog

-- `table_t::init`
unfoldable pub init_table : Catalog → Table
init_table schema = record { table_name = schema.table_name; schema = schema }

-- `Row_occ`: `latched` is the state of the mutex, `wts` the time of the last update.
pub record RowOcc : Type 0 where
  pub latched : Bool
  pub wts : ℕ

-- `manager` is `none` until `init_manager`; a local copy never has one.
pub record Row : Type 0 where
  pub table : Table
  pub data_bytes : Bytes
  pub primary_key : ℕ
  pub part_id : ℕ
  pub row_id : ℕ
  pub manager : Option RowOcc

abbrev pub get_schema : Row → Catalog
get_schema r = r.table.schema

abbrev pub get_table_name : Row → Bytes
get_table_name r = r.table.table_name

abbrev pub get_tuple_size : Row → ℕ
get_tuple_size r = (get_schema r).tuple_size

-- `row_t::init (table_t *, part_id, row_id)`
unfoldable pub init : Env → Table → ℕ → ℕ → Row
init env host_table part_id row_id = record {
  table = host_table;
  data_bytes = env.malloc host_table.schema.tuple_size;
  primary_key = env.junk;
  part_id = part_id;
  row_id = row_id;
  manager = none;
}

unfoldable pub set_primary_key : Row → ℕ → Row
set_primary_key r key = record r { primary_key = key }

-- `set_value (id, ptr)`
unfoldable pub set_value : Row → ℕ → Bytes → Run Row
set_value r id ptr = do
  datasize ← get_field_size (get_schema r) id
  pos ← get_field_index (get_schema r) id
  copied ← memcpy_at r.data_bytes pos ptr datasize
  ok (record r { data_bytes = copied })

-- `set_value (id, ptr, size)`
unfoldable pub set_value_size : Row → ℕ → Bytes → ℕ → Run Row
set_value_size r id ptr size = do
  pos ← get_field_index (get_schema r) id
  copied ← memcpy_at r.data_bytes pos ptr size
  ok (record r { data_bytes = copied })

-- `set_value (col_name, ptr)`
unfoldable pub set_value_of : Row → Bytes → Bytes → Run Row
unfolding set_value
set_value_of r col_name ptr = do id ← get_field_id (get_schema r) col_name; set_value r id ptr

-- `get_value (id)`: the pointer `&data[pos]`
unfoldable pub get_value : Row → ℕ → Run Bytes
get_value r id = do pos ← get_field_index (get_schema r) id; ok (drop pos r.data_bytes)

-- `get_value (col_name)`
unfoldable pub get_value_of : Row → Bytes → Run Bytes
get_value_of r col_name = do
  pos ← get_field_index_of (get_schema r) col_name
  ok (drop pos r.data_bytes)

-- `SET_VALUE (type)` and `GET_VALUE (type)`: a value by the bytes that it has in memory, and the bytes of a value
-- of `size` bytes.
unfoldable pub set_value_typed : Row → ℕ → Bytes → Run Row
unfolding set_value
set_value_typed r col_id value = set_value r col_id value

unfoldable pub get_value_typed : Row → ℕ → ℕ → Run Bytes
get_value_typed r col_id size = do
  pos ← get_field_index (get_schema r) col_id
  check (leb (pos + size) (length r.data_bytes)) out_of_bounds
  ok (take size (drop pos r.data_bytes))

-- `switch_schema` and `get_field_cnt`
unfoldable pub switch_schema : Row → Table → Row
switch_schema r host_table = record r { table = host_table }

unfoldable pub get_field_cnt : Row → ℕ
get_field_cnt r = field_cnt (get_schema r)

unfoldable pub set_data : Row → Bytes → ℕ → Run Row
set_data r bytes size = do
  copied ← memcpy_at r.data_bytes 0 bytes size
  ok (record r { data_bytes = copied })

-- `r->copy (src)`
unfoldable pub copy : Row → Row → Run Row
unfolding set_data
copy r src = set_data r src.data_bytes (get_tuple_size src)
