-- ===== src/Txn/Ops.antt =====
-- The reads and writes of Storage/System/txn.cpp by key: `index_read`, `Read` and `Write`.
use data_agent_demo.Prelude.{
  ℕ, Bool, true, false, Option, none, some, get_elem?, set, if◌then◌else◌,
}
use data_agent_demo.Run.{out_of_bounds, null_pointer, Run, ok, or_fault, ◌>>=◌}
use data_agent_demo.System.{Rc, rcok, abort, rcok?, rd, wr}
use data_agent_demo.Env.{Env}
use data_agent_demo.Bytes.{Bytes, c_str, c_string, Sign, equal, strcmp, text_buffer}
use data_agent_demo.Row.{Row, set_primary_key, set_value, get_value}
use data_agent_demo.IndexHash
use data_agent_demo.IndexHash.{Item, dt_row, index_insert}
use data_agent_demo.Database.{Database, load, store, get_new_row}
use data_agent_demo.Txn.{Txn, get_row, insert_row}

-- `txn_man::index_read`, on the index "Data_INDEX"
unfoldable pub index_read : Database → ℕ → ℕ → Run (Option Item)
unfolding IndexHash.index_read
index_read db key part_id = do (_, item) ← IndexHash.index_read db.index key part_id; ok item

-- the copy that `get_row` returned, by its number
unfoldable pub local_row : Txn → ℕ → Run Row
local_row t pos = do
  acc ← or_fault (get_elem? t.accesses pos) out_of_bounds
  or_fault acc.local null_pointer

unfoldable pub set_local : Txn → ℕ → Row → Run Txn
set_local t pos row = do
  acc ← or_fault (get_elem? t.accesses pos) out_of_bounds
  ok (record t { accesses = set t.accesses pos (record acc { local = some row }) })

abbrev pub same_text : Sign → Bool
same_text equal = true
same_text _ = false

-- `strcmp (row->get_value (0), key.c_str ()) == 0`
unfoldable pub has_key : Row → Bytes → Run Bool
unfolding get_value c_string strcmp c_str
has_key row key = do
  read_key ← get_value row 0
  text ← c_string read_key
  ok (same_text (strcmp text (c_str key)))

-- the part of `Read` behind the search
unfoldable pub read_local : Txn → Database → ℕ → Bytes → Bytes → Run (Rc × Bytes × Txn × Database)
unfolding local_row has_key get_value c_string
read_local t db pos key value_out = do
  row ← local_row t pos
  match ← has_key row key
  if match
      then (do read_val ← get_value row 1; text ← c_string read_val; ok (rcok, text, t, db))
      else ok (abort, value_out, t, db)

unfoldable pub read_row :
    Env → Txn → Database → ℕ → Bytes → Bytes → Run (Rc × Bytes × Txn × Database)
unfolding get_row read_local
read_row env t db p key value_out = do
  (got, t', db') ← get_row env t db p rd
  elim got [
    | none ↦ ok (abort, value_out, t', db')
    | some pos ↦ read_local t' db' pos key value_out
  ]

-- `Read (key, value_out)`: the code and `value_out`, with the transaction and the database.
unfoldable pub read : Env → Txn → Database → Bytes → Bytes → Run (Rc × Bytes × Txn × Database)
unfolding index_read read_row
read env t db key value_out = do
  item ← index_read db (env.hash key) 0
  elim item [
    | none ↦ ok (abort, value_out, t, db)
    | some i ↦ read_row env t db i.location key value_out
  ]

abbrev pub key_buffer : Bytes → Bytes
key_buffer key = text_buffer 127 key

abbrev pub value_buffer : Bytes → Bytes
value_buffer value = text_buffer 1023 value

-- the two writes of an inserted row and of its copy
unfoldable pub fill : Row → Bytes → Bytes → Run Row
unfolding set_value text_buffer
fill row key value = do
  keyed ← set_value row 0 (key_buffer key)
  set_value keyed 1 (value_buffer value)

abbrev pub row_item : ℕ → Item
row_item p = record { type = dt_row; location = p; valid = true }

-- `Write` behind the copy of a new row: the copy is filled, the row is noted as inserted and goes into the
-- index at once.
unfoldable pub publish : Env → Txn → Database → ℕ → ℕ → Bytes → Bytes → Run (Rc × Txn × Database)
unfolding local_row fill set_local insert_row index_insert rcok?
publish env t db p pos key value = do
  copy ← local_row t pos
  filled ← fill copy key value
  t₁ ← set_local t pos filled
  t₂ ← insert_row t₁ p
  (rc, index) ← index_insert db.index (env.hash key) (row_item p) 0
  ok (if rcok? rc then rcok else abort, t₂, record db { index = index })

-- `Write` of a key that the index does not have.
unfoldable pub write_new : Env → Txn → Database → Bytes → Bytes → Run (Rc × Txn × Database)
unfolding get_new_row set_primary_key fill get_row publish
write_new env t db key value = do
  let (_, p, row_id, db₁) = get_new_row env db 0
  new_row ← load db₁ p
  filled ← fill (set_primary_key new_row (env.hash key)) key value
  (got, t', db₂) ← get_row env t (store db₁ p filled) p wr
  elim got [ none ↦ ok (abort, t', db₂) | some pos ↦ publish env t' db₂ p pos key value ]

unfoldable pub overwrite : Txn → Database → ℕ → Row → Bytes → Run (Rc × Txn × Database)
unfolding set_value set_local text_buffer
overwrite t db pos row value = do
  written ← set_value row 1 (value_buffer value)
  t' ← set_local t pos written
  ok (rcok, t', db)

-- `Write` behind the copy of the row that the index has.
unfoldable pub update_local : Txn → Database → ℕ → Bytes → Bytes → Run (Rc × Txn × Database)
unfolding local_row has_key overwrite
update_local t db pos key value = do
  row ← local_row t pos
  match ← has_key row key
  if match then overwrite t db pos row value else ok (abort, t, db)

unfoldable pub write_old : Env → Txn → Database → ℕ → Bytes → Bytes → Run (Rc × Txn × Database)
unfolding get_row update_local
write_old env t db p key value = do
  (got, t', db') ← get_row env t db p wr
  elim got [ none ↦ ok (abort, t', db') | some pos ↦ update_local t' db' pos key value ]

-- `Write (key, value)`
unfoldable pub write : Env → Txn → Database → Bytes → Bytes → Run (Rc × Txn × Database)
unfolding index_read write_new write_old
write env t db key value = do
  item ← index_read db (env.hash key) 0
  elim item [
    | none ↦ write_new env t db key value
    | some i ↦ write_old env t db i.location key value
  ]
