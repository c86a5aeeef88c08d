-- ===== src/Tests.antt =====
-- Concrete inputs, and the theorems at them.
pub mod Rows
pub mod Txns
pub mod Clients
pub mod Conflicts
pub mod Lines
pub mod Arenas
pub mod Schemas
pub mod Startup
pub mod Worlds
pub mod OwnWrites
pub mod Latches
pub mod Overlaps
pub mod Queues
use Prim.Native.Nat.{zero}
use mathlib.Core.List.{[], ◌∷◌}
use mathlib.Core.Option.{Option, none, some}
use mathlib.Core.Bool.{true, false}
use data_agent_demo.Prelude.{ℕ, ◌<◌, ◌≡◌, arith, length-replicate, replicate}
use data_agent_demo.Bytes.{Bytes, codes}
use data_agent_demo.Env.{Env}
use data_agent_demo.Catalog.{Column, Catalog}
use data_agent_demo.Row.{Table, Row, RowOcc}
use data_agent_demo.IndexHash.{IndexHash, Item, BucketHeader, init_bucket, dt_row}
use data_agent_demo.Database.{Database, Cell, live}
use data_agent_demo.Txn.{Access, Txn}
use data_agent_demo.System.{rd, wr, word64}

-- a library that hashes every key to 5, and whose blocks are zeros
pub hash_bound : (key : Bytes) → 5 < word64
hash_bound key = omega arith

abbrev pub zeros : Env
zeros = record {
  hash = λ key. 5;
  hash_bound = hash_bound;
  malloc = λ n. replicate n 0;
  length-malloc = λ n. length-replicate n 0;
  junk = 0;
}

-- columns of two and three bytes
abbrev pub key_column : Column
key_column = record { id = 0; size = 2; index = 0; type = codes "string"; name = codes "KEY" }

abbrev pub value_column : Column
value_column = record { id = 1; size = 3; index = 2; type = codes "string"; name = codes "VALUE" }

abbrev pub tiny_catalog : Catalog
tiny_catalog = record {
  table_name = codes "T";
  capacity = 2;
  columns = key_column ∷ value_column ∷ [];
  tuple_size = 5;
}

abbrev pub tiny_table : Table
tiny_table = record { table_name = codes "T"; schema = tiny_catalog }

-- the row of key "k" and value "v", last written at time 3
abbrev pub shared_row : Row
shared_row = record {
  table = tiny_table;
  data_bytes = b'k' ∷ 0 ∷ b'v' ∷ 0 ∷ 0 ∷ [];
  primary_key = 5;
  part_id = 0;
  row_id = 0;
  manager = some (record { latched = false; wts = 3 });
}

-- a transaction's copy of it, with value "w"
abbrev pub copied_row : Row
copied_row = record {
  table = tiny_table;
  data_bytes = b'k' ∷ 0 ∷ b'w' ∷ 0 ∷ 0 ∷ [];
  primary_key = 0;
  part_id = 0;
  row_id = 0;
  manager = none;
}

abbrev pub tiny_item : Item
tiny_item = record { type = dt_row; location = 0; valid = true }

abbrev pub one_bucket : BucketHeader
one_bucket = record {
  nodes = record { key = 5; items = tiny_item ∷ [] } ∷ [];
  node_cnt = 0;
  locked = false;
}

abbrev pub tiny_index : IndexHash
tiny_index = record {
  table = some tiny_table;
  buckets = (one_bucket ∷ []) ∷ [];
  bucket_cnt = 1;
  bucket_cnt_per_part = 1;
}

abbrev pub tiny_db : Database
tiny_db = record {
  timestamp = 9;
  rows = live shared_row ∷ [];
  table = tiny_table;
  index = tiny_index;
  cur_tab_size = 1;
}

-- A transaction that started at `start_ts` and has written the row.
abbrev pub writer : ℕ → Txn
writer start_ts = record {
  thd_id = 0;
  start_ts = start_ts;
  end_ts = 0;
  row_cnt = 1;
  wr_cnt = 1;
  lock_cnt = 0;
  accesses = record { type = wr; orig_row = some 0; local = some copied_row } ∷ [];
  record_pos = (5, 0) ∷ [];
  insert_rows = [];
}
