-- ===== src/Tests/Startup.antt =====
-- The start of the server on its own schema, and the helpers of the storage code.
use data_agent_demo.Prelude.{
  ℕ, ◌+◌, ◌<◌, ◌≡◌, ◌↔◌, refl, true, false, Option, none, some, List, [], ◌∷◌, arith, replicate,
  get_elem?,
}
use data_agent_demo.Run.{Run, ok, fault, out_of_bounds}
use data_agent_demo.Bytes.{Bytes, codes}
use data_agent_demo.Row.{Table}
use data_agent_demo.IndexHash.{IndexHash}
use data_agent_demo.Database.{Database}
use data_agent_demo.Schema.{Workload, init_schema, between, find_table}
use data_agent_demo.Helper.{merge_keys}
use data_agent_demo.Helper.Keys.{merge_keys_fault}
use data_agent_demo.Thread.{Thread, get_next_ts}
use data_agent_demo.Thread.Times.{get_next_ts-lt, get_next_ts-batch_repeats}
use data_agent_demo.Bench
use data_agent_demo.Engine.Start.{init_engine, init_engine_fault}
use data_agent_demo.Server.Listen.{
  Calls, listening, create_listen_socket, Accounts, create_listen_socket-Accounts,
}
use data_agent_demo.Tests.{zeros, tiny_db}
use data_agent_demo.Tests.Schemas.{blank_index}

merge_keys_fault_example : merge_keys 2 (7 ∷ 9 ∷ []) ≡ fault out_of_bounds
merge_keys_fault_example =
    merge_keys_fault 2 (7 ∷ 9 ∷ []) (omega arith) (omega arith) refl (omega arith)

abbrev worker : ℕ → Thread
worker curr_ts = record {
  thd_id = 0;
  host_cid = 0;
  cur_cid = 0;
  curr_ts = curr_ts;
  abort_buffer = [];
  abort_buffer_empty_slots = 0;
  abort_buffer_enable = false;
}

first_ts :
    get_next_ts false 10 (worker 0) tiny_db ≡ ok (9, worker 9, record tiny_db { timestamp = 10 })
unfolding get_next_ts
first_ts = refl

second_ts :
    get_next_ts false 10 (worker 0) (record tiny_db { timestamp = 10 })
    ≡ ok (10, worker 10, record tiny_db { timestamp = 11 })
unfolding get_next_ts
second_ts = refl

get_next_ts-lt_example : (◌≡◌ {A = ℕ} 9 9) × (9 < 10) × (10 < 11)
get_next_ts-lt_example =
    get_next_ts-lt 10 (worker 0) (worker 0) tiny_db (omega arith) (worker 9) (worker 10)
      (record tiny_db { timestamp = 10 }) (record tiny_db { timestamp = 11 }) 9 10 first_ts
      second_ts

get_next_ts-batch_repeats_example :
    (a₁ a₂ b₁ : Thread) × (db₁ db₂ db₃ : Database) × (get_next_ts true 3 (worker 0) tiny_db
      ≡ ok (9, a₁, db₁))
    × (get_next_ts true 3 a₁ db₁ ≡ ok (9 + 1, a₂, db₂))
    × (get_next_ts true 3 (worker 0) db₂ ≡ ok (9 + 1, b₁, db₃))
get_next_ts-batch_repeats_example =
    get_next_ts-batch_repeats 3 (worker 0) (worker 0) tiny_db (omega arith) (omega arith) refl refl
      (omega arith)

-- a short string's buffer has 16 bytes
abbrev short_buffer : ℕ → Bytes
short_buffer rid = replicate 16 (rid + 48)

abbrev schema_lines : List Bytes
schema_lines =
    codes "//size, type, name"
    ∷ codes "TABLE=Data_TABLE"
    ∷ codes "    128,string,KEY"
    ∷ codes "    1024,string,VALUE"
    ∷ []
    ∷ codes "INDEX=Data_INDEX"
    ∷ codes "Data_TABLE,1"
    ∷ []

abbrev no_workload : Workload
no_workload = record { tables = []; indexes = [] }

abbrev workload_of : Run Workload → Workload
workload_of (ok w) = w
workload_of (fault f) = no_workload

abbrev schema : Workload
schema = workload_of (init_schema blank_index no_workload between schema_lines)

schema_run : init_schema blank_index no_workload between schema_lines ≡ ok schema
unfolding init_schema
schema_run = refl

abbrev table_or : Option Table → Table
table_or none = tiny_db.table
table_or (some t) = t

abbrev data_table : Table
data_table = table_or (find_table (codes "Data_TABLE") schema.tables)

abbrev index_or : Option IndexHash → IndexHash
index_or none = blank_index
index_or (some i) = i

abbrev data_index : IndexHash
data_index = index_or (Bench.find_index zeros short_buffer (codes "Data_INDEX") schema.indexes)

table_run : find_table (codes "Data_TABLE") schema.tables ≡ some data_table
unfolding init_schema
table_run = refl

index_run :
    Bench.find_index zeros short_buffer (codes "Data_INDEX") schema.indexes ≡ some data_index
unfolding init_schema Bench.find_index
index_run = refl

column_run :
    get_elem? data_table.schema.columns 0
    ≡ some (record { id = 0; size = 128; index = 0; type = codes "string"; name = codes "KEY" })
unfolding init_schema find_table
column_run = refl

init_engine_fault_example :
    init_engine zeros short_buffer blank_index schema_lines none ≡ fault out_of_bounds
init_engine_fault_example =
    init_engine_fault zeros short_buffer blank_index schema_lines none schema data_table data_index
      (record { id = 0; size = 128; index = 0; type = codes "string"; name = codes "KEY" })
      schema_run table_run index_run column_run (omega arith)

-- `bind` refuses the port.
abbrev port_taken : Calls
port_taken = record {
  socket = some 3;
  inet_pton = λ ip. true;
  bind = λ port. false;
  listen = λ backlog. true;
}

create_listen_socket-Accounts_example :
    Accounts (some 3) (create_listen_socket port_taken (codes "0.0.0.0") 19090 128)
    × ((fd : ℕ)
        → (create_listen_socket port_taken (codes "0.0.0.0") 19090 128 ≡ (listening fd, []))
          ↔ ((some 3 ≡ some fd) × (true ≡ true) × (false ≡ true) × (true ≡ true)))
create_listen_socket-Accounts_example =
    create_listen_socket-Accounts port_taken (codes "0.0.0.0") 19090 128
