-- ===== src/Tests/OwnWrites.antt =====
-- Transactions that write a row of the server's table and read it.
use data_agent_demo.Prelude.{
  ◌≡◌, refl, ap, ◌∙◌, false, Option, none, some, [], ◌∷◌, ◌++◌, arith, length, length-append,
}
use data_agent_demo.Run.{Run, ok, ◌>>=◌}
use data_agent_demo.Bytes.{codes, c_str}
use data_agent_demo.Bytes.Laws.{take-append_all, length-text_buffer}
use data_agent_demo.Catalog.{Column}
use data_agent_demo.Row.{Table, Row}
use data_agent_demo.World.{begun}
use data_agent_demo.World.Begun.{TwoColumns}
use data_agent_demo.World.Dirty.{ReadsUncommitted, write-ReadsUncommitted}
use data_agent_demo.IndexHash.{BucketHeader, IndexHash, Item, find_items}
use data_agent_demo.System.{Rc}
use data_agent_demo.IndexHash.View.{IsReady, items_of, index_read_lem}
use data_agent_demo.Database.{Database, live, load}
use data_agent_demo.Txn.{Txn, find_pos}
use data_agent_demo.Txn.Opened.{IsOpen}
use data_agent_demo.Txn.Copies.{IsIdle}
use data_agent_demo.Txn.Ops.{key_buffer, value_buffer, index_read}
use data_agent_demo.Txn.KeyRows.{HasKey}
use data_agent_demo.Txn.OwnWrites.{ReadsOwn, read-write}
use data_agent_demo.Tests.{
  zeros, key_column, value_column, tiny_item, one_bucket, tiny_index, writer,
}

abbrev pub server_key : Column
server_key = record key_column { size = 128 }

abbrev pub server_value : Column
server_value = record value_column { size = 1024; index = 128 }

abbrev pub server_table : Table
server_table = record {
  table_name = codes "T";
  schema = record {
    table_name = codes "T";
    capacity = 2;
    columns = server_key ∷ server_value ∷ [];
    tuple_size = 1152;
  };
}

-- the row of key "k" and value "v"
abbrev pub server_row : Row
server_row = record {
  table = server_table;
  data_bytes = key_buffer (codes "k") ++ value_buffer (codes "v");
  primary_key = 5;
  part_id = 0;
  row_id = 0;
  manager = some (record { latched = false; wts = 3 });
}

abbrev pub server_index : IndexHash
server_index = record tiny_index { table = some server_table }

abbrev pub server_db : Database
server_db = record {
  timestamp = 9;
  rows = live server_row ∷ [];
  table = server_table;
  index = server_index;
  cur_tab_size = 1;
}

-- It has just begun.
abbrev pub beginner : Txn
beginner = record (writer 4) { row_cnt = 0; wr_cnt = 0; accesses = []; record_pos = [] }

abbrev beginner_open : IsOpen beginner server_db
beginner_open = record {
  used = [];
  spare = [];
  split = refl;
  counted = refl;
  held = tt;
  distinct = tt;
}

pub full : length server_row.data_bytes ≡ 1152
full =
    length-append (key_buffer (codes "k")) (value_buffer (codes "v"))
    ∙ omega (arith, length-text_buffer 127 (codes "k"), length-text_buffer 1023 (codes "v"))

pub there : load server_db 0 ≡ ok server_row
unfolding load
there = refl

abbrev pub row_idle : IsIdle server_db 0 server_row
row_idle = record {
  occ = record { latched = false; wts = 3 };
  there = there;
  managed = refl;
  state = refl;
  sized = full;
}

pub short : length (c_str (codes "k")) ≡ 1
unfolding c_str
short = refl

abbrev pub row_keyed : HasKey server_row (codes "k")
row_keyed = record {
  sound = ((refl, refl, (refl, refl, refl)), full);
  key_column = server_key;
  value_column = server_value;
  first = refl;
  second = refl;
  value_size = refl;
  keyed =
      take-append_all 128 (key_buffer (codes "k")) (value_buffer (codes "v"))
        (length-text_buffer 127 (codes "k"));
  short = omega (arith, short);
}

index_ready : IsReady server_index
index_ready = record {
  part = one_bucket ∷ [];
  host = server_table;
  one_part = refl;
  hosted = refl;
  full = refl;
  some_bucket = omega arith;
  free = (refl, tt);
}

pub found : index_read server_db 5 0 ≡ ok (some tiny_item)
unfolding index_read items_of find_items
found =
    ap (λ (run : Run (Rc × Option Item)). run >>= (λ p. ok p.1))
      (index_read_lem server_index index_ready 5)

pub none_found : find_pos 5 [] ≡ none
unfolding find_pos
none_found = refl

read-write_example : ReadsOwn zeros beginner server_db (codes "k") (codes "w") []
read-write_example =
    read-write zeros beginner server_db (codes "k") (codes "w") [] beginner_open tiny_item
      server_row row_idle (omega arith) none_found tt refl found row_keyed

-- No key is in the index.
abbrev empty_bucket : BucketHeader
empty_bucket = record one_bucket { nodes = [] }

abbrev empty_db : Database
empty_db = record server_db {
  rows = [];
  index = record server_index { buckets = (empty_bucket ∷ []) ∷ [] };
}

empty_ready : IsReady empty_db.index
empty_ready = record {
  part = empty_bucket ∷ [];
  host = server_table;
  one_part = refl;
  hosted = refl;
  full = refl;
  some_bucket = omega arith;
  free = (refl, tt);
}

no_items : items_of empty_db.index 5 ≡ []
unfolding items_of find_items
no_items = refl

abbrev server_columns : TwoColumns server_table
server_columns = record {
  laid = (refl, refl, (refl, refl, refl));
  key_column = server_key;
  value_column = server_value;
  first = refl;
  second = refl;
  key_size = refl;
  value_size = refl;
}

write-ReadsUncommitted_example : ReadsUncommitted zeros (begun 0 9) empty_db (codes "k") (codes "w")
write-ReadsUncommitted_example =
    write-ReadsUncommitted zeros empty_db (codes "k") (codes "w") 0 9 empty_ready no_items
      server_columns (omega (arith, short))
