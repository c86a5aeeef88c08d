-- ===== src/IndexHash.antt =====
-- Storage/DataFormat/index_hash.h and index_hash.cpp: a chained hash table from keys to items, in parts. A
-- chain of nodes and a chain of items, linked by `next` in the source, are lists here; `itemid_t` (helper.h)
-- points to a row by its address in the database.
pub mod History
pub mod View
use data_agent_demo.Prelude.{
  ℕ, zero, suc, ◌+◌, ◌/◌, ◌%◌, ◌≡◌, refl, Bool, true, false, not, Option, none, some, List, [], ◌∷◌,
  ◌++◌, ltb, ◌==◌, if◌then◌else◌, length, get_elem?, set, replicate,
}
use data_agent_demo.Run.{
  Fault, out_of_bounds, assertion, deadlock, division_by_zero, null_pointer, Run, ok, fault, check,
  or_fault, ◌>>=◌, ◌>>◌,
}
use data_agent_demo.System.{Rc, rcok}
use data_agent_demo.Row.{Table}

-- `enum Data_type`
pub data DataType : Type 0 where
  dt_table dt_page dt_row : DataType

-- `itemid_t`, less its `next`
pub record Item : Type 0 where
  pub type : DataType
  pub location : ℕ
  pub valid : Bool

pub record BucketNode : Type 0 where
  pub key : ℕ
  pub items : List Item

pub record BucketHeader : Type 0 where
  pub nodes : List BucketNode
  pub node_cnt : ℕ
  pub locked : Bool

pub record IndexHash : Type 0 where
  pub table : Option Table
  pub buckets : List (List BucketHeader)
  pub bucket_cnt : ℕ
  pub bucket_cnt_per_part : ℕ

-- `BucketHeader::init`
abbrev pub init_bucket : BucketHeader
init_bucket = record { nodes = []; node_cnt = 0; locked = false }

-- `init (bucket_cnt, part_cnt)`
unfoldable pub init : IndexHash → ℕ → ℕ → Run IndexHash
init index bucket_cnt part_cnt = do
  check (not (part_cnt == 0)) division_by_zero
  ok (record index {
    buckets = replicate part_cnt (replicate (bucket_cnt / part_cnt) init_bucket);
    bucket_cnt = bucket_cnt;
    bucket_cnt_per_part = bucket_cnt / part_cnt;
  })

-- `init (table)`: the local `_bucket_cnt` and `_part_cnt` of the source are both 1.
unfoldable pub init_for : IndexHash → Option Table → Run IndexHash
unfolding init
init_for index host = do
  filled ← init index 1 1
  t ← or_fault host assertion
  ok (record filled { table = some t })

-- `init (part_cnt, table, bucket_cnt)`
unfoldable pub init_parts : IndexHash → ℕ → Option Table → ℕ → Run IndexHash
unfolding init
init_parts index part_cnt host bucket_cnt = do
  filled ← init index bucket_cnt part_cnt
  ok (record filled { table = host })

unfoldable pub hash : IndexHash → ℕ → Run ℕ
hash index key = do
  check (not (index.bucket_cnt_per_part == 0)) division_by_zero
  ok (key % index.bucket_cnt_per_part)

-- `ATOM_CAS (locked, false, true)` in a loop: with the latch held, it spins.
unfoldable pub get_latch : BucketHeader → Run BucketHeader
get_latch b = do check (not b.locked) deadlock; ok (record b { locked = true })

unfoldable pub release_latch : BucketHeader → Run BucketHeader
release_latch b = do check b.locked assertion; ok (record b { locked = false })

-- The walk along the nodes, and the new node behind the last one. The source leaves `next` of the first item of a
-- key unset, and nothing in it reads that field.
unfoldable pub insert_node : ℕ → Item → List BucketNode → List BucketNode
insert_node key item [] = record { key = key; items = item ∷ [] } ∷ []
insert_node key item (n ∷ ns) =
    if n.key == key then record n { items = item ∷ n.items } ∷ ns else n ∷ insert_node key item ns

unfoldable pub insert_item : BucketHeader → ℕ → Item → BucketHeader
unfolding insert_node
insert_item b key item = record b { nodes = insert_node key item b.nodes }

-- All items of a key, the newest first.
unfoldable pub find_items : ℕ → List BucketNode → List Item
find_items key [] = []
find_items key (n ∷ ns) = if n.key == key then n.items else find_items key ns

abbrev pub first : List Item → Option Item
first [] = none
first (i ∷ is) = some i

-- `none` is the `NULL` of the source.
unfoldable pub read_item : BucketHeader → ℕ → Option Item
unfolding find_items
read_item b key = first (find_items key b.nodes)

-- `&_buckets[part_id][hash (key)]`, as its index and its contents
unfoldable pub locate : IndexHash → ℕ → ℕ → Run (ℕ × List BucketHeader × BucketHeader)
unfolding hash
locate index key part_id = do
  bkt_idx ← hash index key
  check (ltb bkt_idx index.bucket_cnt_per_part) assertion
  part ← or_fault (get_elem? index.buckets part_id) out_of_bounds
  cur_bkt ← or_fault (get_elem? part bkt_idx) out_of_bounds
  ok (bkt_idx, part, cur_bkt)

unfoldable pub index_insert : IndexHash → ℕ → Item → ℕ → Run (Rc × IndexHash)
unfolding locate get_latch release_latch insert_item
index_insert index key item part_id = do
  (bkt_idx, part, cur_bkt) ← locate index key part_id
  latched ← get_latch cur_bkt
  released ← release_latch (insert_item latched key item)
  ok (rcok, record index { buckets = set index.buckets part_id (set part bkt_idx released) })

-- The table's name is passed to `read_item`, which does not use it.
unfoldable pub index_read : IndexHash → ℕ → ℕ → Run (Rc × Option Item)
unfolding locate read_item
index_read index key part_id = do
  (bkt_idx, part, cur_bkt) ← locate index key part_id
  t ← or_fault index.table null_pointer
  ok (rcok, read_item cur_bkt key)

-- the overload with `thd_id`, which it does not use
unfoldable pub index_read_by : IndexHash → ℕ → ℕ → ℕ → Run (Rc × Option Item)
unfolding locate read_item
index_read_by index key part_id thd_id = do
  (bkt_idx, part, cur_bkt) ← locate index key part_id
  t ← or_fault index.table null_pointer
  ok (rcok, read_item cur_bkt key)

unfoldable pub index_exist : IndexHash → ℕ → Run Bool
index_exist index key = fault assertion
