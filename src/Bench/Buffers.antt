-- ===== src/Bench/Buffers.antt =====
-- Buffers of Storage/test that are shorter than the column that they are copied to.
use data_agent_demo.Prelude.{ℕ, suc, ◌+◌, ◌%◌, ◌<◌, ◌≡◌, refl, some, length, get_elem?, arith}
use data_agent_demo.Run.{ok, fault, out_of_bounds}
use data_agent_demo.System.{word64}
use data_agent_demo.Env.{Env}
use data_agent_demo.Bytes.{Bytes, memcpy_at}
use data_agent_demo.Catalog.{Column, get_field_size, get_field_index}
use data_agent_demo.Row
use data_agent_demo.Row.{Row, get_schema, set_value, set_value_typed, set_primary_key}
use data_agent_demo.Row.Occ.{init_manager}
use data_agent_demo.Database.{Database, get_new_row}
use data_agent_demo.Database.Memory.{load-append_self}
use data_agent_demo.Txn.{Txn}
use data_agent_demo.Txn.Ops.{local_row}
use data_agent_demo.Bench.{
  init_row, init_table, int_bytes, write_values, row_of, write_copy, test_conflict,
}

-- A copy of more bytes than the buffer has is out of bounds, wherever it goes.
memcpy_at-short :
    (buf : Bytes) (pos : ℕ) (src : Bytes) (n : ℕ)
    → length src < n
    → memcpy_at buf pos src n ≡ fault out_of_bounds
unfolding memcpy_at
memcpy_at-short buf pos src n h = ground arith

-- So a value shorter than its column cannot be set.
pub set_value-short :
    (r : Row) (id : ℕ) (c : Column) (ptr : Bytes)
    → get_elem? (get_schema r).columns id ≡ some c
    → length ptr < c.size
    → set_value r id ptr ≡ fault out_of_bounds
unfolding set_value get_field_size get_field_index
set_value-short r id c ptr e h = rw (e, memcpy_at-short r.data_bytes c.index ptr c.size h) refl

-- Where the buffer of the number's text is shorter than the first column, `init_table` copies beyond its end in
-- the first round.
pub init_table_fault :
    (env : Env) (to_string_buffer : ℕ → Bytes) (rounds rid : ℕ) (db : Database) (c : Column)
    → get_elem? db.table.schema.columns 0 ≡ some c
    → length (to_string_buffer rid) < c.size
    → init_table env to_string_buffer (suc rounds) rid db ≡ fault out_of_bounds
unfolding init_table init_row get_new_row Row.init init_manager set_primary_key
init_table_fault env to_string_buffer rounds rid db c e h =
    let row : Row = init_manager (Row.init env db.table 0 db.cur_tab_size) in
    rw
      (
        load-append_self (record db { cur_tab_size = (db.cur_tab_size + 1) % word64 }) row,
        set_value-short (set_primary_key row rid) 0 c (to_string_buffer rid) e h,
      )
      refl

-- On a table whose first column has more bytes than an `int`, the conflict test reads beyond its value as soon as
-- it has a copy of the row.
pub test_conflict_fault :
    (env : Env) (t t' : Txn) (db db' : Database) (pos : ℕ) (r : Row) (c : Column)
    → row_of env t db 0 ≡ ok (some pos, t', db')
    → local_row t' pos ≡ ok r
    → get_elem? (get_schema r).columns 0 ≡ some c
    → 4 < c.size
    → test_conflict env t db ≡ fault out_of_bounds
unfolding test_conflict write_copy write_values set_value_typed
test_conflict_fault env t t' db db' pos r c e f g h =
    rw (e, f, set_value-short r 0 c int_bytes g (omega arith)) refl
