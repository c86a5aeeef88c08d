-- ===== src/Engine/Start.antt =====
-- The start of the program: init_engine of Server/kv_api.cpp, and main.cpp.
use data_agent_demo.Prelude.{
  ℕ, ◌≡◌, Bool, true, Option, none, some, List, [], ◌<◌, get_elem?, length, refl, if◌then◌else◌,
}
use data_agent_demo.Run.{Run, ok, fault, out_of_bounds, ◌>>=◌}
use data_agent_demo.Env.{Env}
use data_agent_demo.Bytes.{Bytes, codes}
use data_agent_demo.IndexHash.{IndexHash}
use data_agent_demo.Database.{Database}
use data_agent_demo.Manager
use data_agent_demo.Catalog.{Column}
use data_agent_demo.Row.{Table}
use data_agent_demo.Schema.{Workload, init_schema, between, find_table}
use data_agent_demo.Bench.Buffers.{init_table_fault}
use data_agent_demo.Bench
use data_agent_demo.Engine.{Engine, load_records}
use data_agent_demo.Server.Listen.{
  Calls, Opened, listening, runtime_error, create_listen_socket, Accepted, run_accept_loop,
}

-- The engine of a database, before its first transaction.
abbrev fresh : Database → Engine
fresh db = record { db = db; g_txn_id = 1 }

-- The table and the index are there when the workload was set up, so that the test of their pointers cannot fail.
-- The allocator is not used, and nothing reads what `occ_man.init` sets. `records` are the pairs of words of the
-- data file, if there is one.
module _ (env : Env) (to_string_buffer : ℕ → Bytes) (blank : IndexHash) where
  unfoldable pub init_engine : List Bytes → Option (List (Bytes × Bytes)) → Run (Bool × Engine)
  unfolding Bench.init load_records Manager.init
  init_engine schema_lines records = do
    db ← Bench.init env to_string_buffer blank schema_lines
    let started : Database = record db { timestamp = Manager.init.1 }
    elim records [
      | none ↦ ok (true, fresh started)
      | some pairs ↦ (do
        (loaded_count, loaded) ← load_records env started pairs 0
        ok (true, fresh loaded))
    ]

-- the database that the workload sets up, with no row
abbrev at_start : Env → Table → IndexHash → Database
at_start env t index = record {
  timestamp = 0;
  rows = [];
  table = t;
  index = index;
  cur_tab_size = env.junk;
}

-- How the program goes on: it ends with a code, it stops at an exception, or it serves clients.
pub data Course : Type 0 where
  returns : ℕ → Course
  throws : Course
  serves : List ℕ → Course

serve_on : Opened → List Accepted → Course
unfolding run_accept_loop
serve_on (listening fd) events = serves (run_accept_loop events)
serve_on (runtime_error what) events = throws

-- `main`, behind `init_engine`
unfoldable pub main : Bool → Calls → List Accepted → Course
unfolding create_listen_socket serve_on
main ready calls events =
    if ready
    then serve_on (create_listen_socket calls (codes "0.0.0.0") 19090 128).0 events
    else returns 1

-- When the schema has the server's table and index, and the first column has more bytes than the string buffer of
-- a number, the start of the engine copies beyond that buffer, whatever the data file has.
pub init_engine_fault :
    (env : Env) (to_string_buffer : ℕ → Bytes) (blank : IndexHash) (schema_lines : List Bytes)
    (records : Option (List (Bytes × Bytes))) (w : Workload) (t : Table) (index : IndexHash)
    (c : Column)
    → init_schema blank (record { tables = []; indexes = [] }) between schema_lines ≡ ok w
    → find_table (codes "Data_TABLE") w.tables ≡ some t
    → Bench.find_index env to_string_buffer (codes "Data_INDEX") w.indexes ≡ some index
    → get_elem? t.schema.columns 0 ≡ some c
    → length (to_string_buffer 0) < c.size
    → init_engine env to_string_buffer blank schema_lines records ≡ fault out_of_bounds
unfolding init_engine Bench.init
init_engine_fault env to_string_buffer blank schema_lines records w t index c e f g h lt =
    rw (e, f, g, init_table_fault env to_string_buffer 9 0 (at_start env t index) c h lt) refl
