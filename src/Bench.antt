-- ===== src/Bench.antt =====
-- The workload of Storage/test: the rows that it starts with (test_wl.cpp), and its two transactions
-- (test_txn.cpp), with the worker thread's runTest (System/thread.cpp).
pub mod Buffers
use data_agent_demo.Prelude.{
  ℕ, zero, suc, ◌+◌, ◌≡◌, Bool, true, false, not, Option, none, some, List, [], ◌∷◌, ◌==◌,
  if◌then◌else◌,
}
use data_agent_demo.Run.{Run, ok, fault, assertion, null_pointer, check, or_fault, ◌>>=◌, ◌>>◌}
use data_agent_demo.System.{Rc, rcok, abort, finish, rcok?, wr, TestCases, read_write, conflict}
use data_agent_demo.Env.{Env}
use data_agent_demo.Bytes.{Bytes, codes, c_string, strcmp}
use data_agent_demo.Row.{
  Row, Table, set_primary_key, set_value, set_value_typed, get_value, get_value_typed,
}
use data_agent_demo.IndexHash.{IndexHash, Item, index_insert}
use data_agent_demo.Database.{Database, load, store, get_new_row}
use data_agent_demo.Schema.{Workload, find_table, init_schema, Place, between, same_bytes}
use data_agent_demo.Txn.{Txn, get_row}
use data_agent_demo.Txn.Validate
use data_agent_demo.Txn.Ops.{index_read, local_row, set_local, row_item, same_text}
use data_agent_demo.Thread.{Thread, get_next_ts}

-- The bytes behind `std::to_string (rid).c_str ()`, up to the end of the string's buffer: a parameter.
module _ (env : Env) (to_string_buffer : ℕ → Bytes) where
  -- one round of the loop of `init_table`
  unfoldable pub init_row : Database → ℕ → Run Database
  unfolding get_new_row set_primary_key set_value index_insert rcok?
  init_row db rid = do
    let (rc, p, row_id, db₁) = get_new_row env db 0
    check (rcok? rc) assertion
    new_row ← load db₁ p
    keyed ← set_value (set_primary_key new_row rid) 0 (to_string_buffer rid)
    filled ← set_value keyed 1 (to_string_buffer rid)
    (rc', index) ← index_insert db₁.index rid (row_item p) 0
    check (rcok? rc') assertion
    ok (record (store db₁ p filled) { index = index })

  -- `init_table`, with the rounds that are left
  unfoldable pub init_table : ℕ → ℕ → Database → Run Database
  unfolding init_row
  init_table zero rid db = ok db
  init_table (suc rounds) rid db = do db' ← init_row db rid; init_table rounds (suc rid) db'

  unfoldable pub find_index : Bytes → List (Bytes × IndexHash) → Option IndexHash
  unfolding same_bytes
  find_index iname [] = none
  find_index iname (i ∷ is) =
      let rest = find_index iname is in if same_bytes i.0 iname then some i.1 else rest

  -- `TestWorkload::init` on the lines of the schema file: the schema, its table and its index, and ten rows.
  -- `cur_tab_size` is a word that nobody has set.
  unfoldable pub init : IndexHash → List Bytes → Run Database
  unfolding init_schema find_table find_index init_table
  init blank lines = do
    w ← init_schema blank (record { tables = []; indexes = [] }) between lines
    the_table ← or_fault (find_table (codes "Data_TABLE") w.tables) assertion
    the_index ← or_fault (find_index (codes "Data_INDEX") w.indexes) assertion
    init_table 10 0 (record {
      timestamp = 0;
      rows = [];
      table = the_table;
      index = the_index;
      cur_tab_size = env.junk;
    })

-- The values of the test, as a little-endian machine has them: an `int` 1234, a `double` 1234.5, an
-- `unsigned long` 2 ^ 33, and the array of "hello".
abbrev pub int_bytes : Bytes
int_bytes = 210 ∷ 4 ∷ 0 ∷ 0 ∷ []

abbrev pub double_bytes : Bytes
double_bytes = 0 ∷ 0 ∷ 0 ∷ 0 ∷ 0 ∷ 74 ∷ 147 ∷ 64 ∷ []

abbrev pub long_bytes : Bytes
long_bytes = 0 ∷ 0 ∷ 0 ∷ 0 ∷ 2 ∷ 0 ∷ 0 ∷ 0 ∷ []

abbrev pub str_bytes : Bytes
str_bytes = b'h' ∷ b'e' ∷ b'l' ∷ b'l' ∷ b'o' ∷ 0 ∷ []

unfoldable pub write_values : Row → Run Row
unfolding set_value set_value_typed
write_values r = do
  r₁ ← set_value_typed r 0 int_bytes
  r₂ ← set_value_typed r₁ 1 double_bytes
  r₃ ← set_value_typed r₂ 2 long_bytes
  set_value r₃ 3 str_bytes

unfoldable pub check_values : Row → Run (Unit {0})
unfolding get_value get_value_typed c_string strcmp same_bytes
check_values r = do
  v1 ← get_value_typed r 0 4
  v2 ← get_value_typed r 1 8
  v3 ← get_value_typed r 2 8
  v4 ← get_value r 3
  check (same_bytes v1 int_bytes) assertion
  check (same_bytes v2 double_bytes) assertion
  check (same_bytes v3 long_bytes) assertion
  text ← c_string v4
  check (same_text (strcmp text (codes "hello"))) assertion

module _ (env : Env) where
  -- the copy of the row under a key, by its number in the access set
  unfoldable pub row_of : Txn → Database → ℕ → Run (Option ℕ × Txn × Database)
  unfolding index_read get_row
  row_of t db key = do
    found ← index_read db key 0
    m_item ← or_fault found null_pointer
    get_row env t db m_item.location wr

  -- the copy, written
  write_copy : Txn → ℕ → Run Txn
  unfolding local_row write_values set_local
  write_copy t pos = do
    row_local ← local_row t pos
    written ← write_values row_local
    set_local t pos written

  check_copy : Txn → ℕ → Run Txn
  unfolding local_row check_values
  check_copy t pos = do row_local ← local_row t pos; check_values row_local; ok t

  unfoldable pub test_readwrite : Txn → Database → ℕ → Run (Rc × Txn × Database)
  unfolding row_of write_copy check_copy Validate.finish
  test_readwrite t db access_num = do
    (got, t₁, db₁) ← row_of t db 0
    pos ← or_fault got null_pointer
    t₂ ← (if access_num == 0 then write_copy t₁ pos else check_copy t₁ pos)
    (rc, t₃, db₂) ← Validate.finish rcok t₂ db₁
    ok (if access_num == 0 then rcok else finish, t₃, db₂)

  -- The loop of the source has one round, for key 0.
  unfoldable pub test_conflict : Txn → Database → Run (Rc × Txn × Database)
  unfolding row_of write_copy Validate.finish
  test_conflict t db = do
    (got, t₁, db₁) ← row_of t db 0
    elim got [
      | none ↦ Validate.finish abort t₁ db₁
      | some pos ↦ (do t₂ ← write_copy t₁ pos; Validate.finish rcok t₂ db₁)
    ]

  unfoldable pub run_txn : TestCases → ℕ → Txn → Database → Run (Rc × Txn × Database)
  unfolding test_readwrite test_conflict
  run_txn read_write access_num t db = test_readwrite t db access_num
  run_txn conflict access_num t db = test_conflict t db

  -- `thread_t::runTest`, without the message
  unfoldable pub run_test : TestCases → Thread → Txn → Database → Run (Rc × Thread × Txn × Database)
  unfolding run_txn get_next_ts rcok?
  run_test read_write th t db = do
    (_, t₁, db₁) ← run_txn read_write 0 t db
    (ts, th', db₂) ← get_next_ts false 10 th db₁
    (_, t₂, db₃) ← run_txn read_write 1 (record t₁ { start_ts = ts }) db₂
    ok (finish, th', t₂, db₃)
  run_test conflict th t db = do
    (rc, t₁, db₁) ← run_txn conflict 0 t db
    ok (if rcok? rc then finish else rc, th, t₁, db₁)
