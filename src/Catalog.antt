-- ===== src/Catalog.antt =====
-- Storage/DataFormat/catalog.h and catalog.cpp: the columns of a table and where they lie in a tuple.
pub mod Layout
use data_agent_demo.Prelude.{
  ℕ, zero, suc, ◌+◌, ◌%◌, ◌≡◌, Bool, true, Option, none, some, List, [], ◌∷◌, ◌++◌, ltb, leb, ◌==◌,
  if◌then◌else◌, length, get_elem?,
}
use data_agent_demo.Run.{
  Fault, out_of_bounds, assertion, Run, ok, fault, check, or_fault, ◌>>=◌, ◌>>◌,
}
use data_agent_demo.Bytes.{Bytes, Sign, equal, strcmp}
use data_agent_demo.System.{word32}

-- The buffers `type` and `name` hold 80 bytes, terminator included; here are their texts.
pub record Column : Type 0 where
  pub id : ℕ
  pub size : ℕ
  pub index : ℕ
  pub type : Bytes
  pub name : Bytes

-- `columns` are the entries of `_columns` that `add_col` has filled, `field_cnt` of the `capacity` that
-- `init` allocated.
pub record Catalog : Type 0 where
  pub table_name : Bytes
  pub capacity : ℕ
  pub columns : List Column
  pub tuple_size : ℕ

abbrev pub field_cnt : Catalog → ℕ
field_cnt c = length c.columns

unfoldable pub init : Bytes → ℕ → Catalog
init table_name field_cnt = record {
  table_name = table_name;
  capacity = field_cnt;
  columns = [];
  tuple_size = 0;
}

-- `strcpy` into a buffer of 80 bytes, terminator included
strcpy : Bytes → Run Bytes
strcpy s = do check (ltb (length s) 80) out_of_bounds; ok s

-- `size`, `index` and `tuple_size` are 32 bits wide.
unfoldable pub add_col : Catalog → Bytes → ℕ → Bytes → Run Catalog
unfolding strcpy
add_col c col_name size type = do
  check (ltb (field_cnt c) c.capacity) out_of_bounds
  type_text ← strcpy type
  name_text ← strcpy col_name
  ok (record c {
    columns =
        c.columns
        ++ record {
          id = field_cnt c;
          size = size % word32;
          index = c.tuple_size;
          type = type_text;
          name = name_text;
        }
          ∷ [];
    tuple_size = (c.tuple_size + size) % word32;
  })

abbrev equal? : Sign → Bool
equal? equal = true
equal? _ = Bool.false

-- the loop of `get_field_id`, with the number of columns passed so far
find_name : Bytes → List Column → ℕ → Run ℕ
find_name name [] i = fault assertion
find_name name (c ∷ cs) i =
    let rest = find_name name cs (suc i) in if equal? (strcmp name c.name) then ok i else rest

unfoldable pub get_field_id : Catalog → Bytes → Run ℕ
unfolding find_name
get_field_id c name = find_name name c.columns 0

unfoldable pub column : Catalog → ℕ → Run Column
column c id = or_fault (get_elem? c.columns id) out_of_bounds

unfoldable pub get_field_size : Catalog → ℕ → Run ℕ
unfolding column
get_field_size c id = do col ← column c id; ok col.size

unfoldable pub get_field_index : Catalog → ℕ → Run ℕ
unfolding column
get_field_index c id = do col ← column c id; ok col.index

unfoldable pub get_field_type : Catalog → ℕ → Run Bytes
unfolding column
get_field_type c id = do col ← column c id; ok col.type

unfoldable pub get_field_name : Catalog → ℕ → Run Bytes
unfolding column
get_field_name c id = do col ← column c id; ok col.name

-- the overloads that take a column's name
unfoldable pub get_field_type_of : Catalog → Bytes → Run Bytes
unfolding get_field_type get_field_id
get_field_type_of c name = do id ← get_field_id c name; get_field_type c id

unfoldable pub get_field_index_of : Catalog → Bytes → Run ℕ
unfolding get_field_index get_field_id
get_field_index_of c name = do id ← get_field_id c name; get_field_index c id
