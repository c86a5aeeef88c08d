-- ===== src/Schema.antt =====
-- workload::init_schema of Storage/test/wl.cpp: the tables and indexes of a schema file, given as its lines.
pub mod Columns
pub mod File
pub mod Insert
use data_agent_demo.Prelude.{
  ℕ, zero, suc, ◌+◌, ◌-◌, ◌*◌, ◌%◌, ◌^◌, ◌<◌, ◌≡◌, Bool, true, false, ◌&&◌, ◌||◌, Option, none,
  some, List, [], ◌∷◌, ◌++◌, ltb, leb, ◌==◌, if◌then◌else◌, length, take, drop,
}
use data_agent_demo.Run.{Run, ok, fault, assertion, out_of_bounds, overflow, check, ◌>>=◌, ◌>>◌}
use data_agent_demo.Bytes.{Bytes, codes, c_str}
use data_agent_demo.System.{word64}
use data_agent_demo.Catalog
use data_agent_demo.Catalog.{Catalog, add_col}
use data_agent_demo.Row.{Table, init_table}
use data_agent_demo.IndexHash.{IndexHash, init_for}

-- The two maps of the workload; an entry in front replaces those behind it.
pub record Workload : Type 0 where
  pub tables : List (Bytes × Table)
  pub indexes : List (Bytes × IndexHash)

unfoldable pub same_bytes : Bytes → Bytes → Bool
same_bytes [] [] = true
same_bytes (a ∷ as') (b ∷ bs) = a == b && same_bytes as' bs
same_bytes _ _ = false

abbrev flush : Bytes → List Bytes → List Bytes
flush [] items = items
flush (c ∷ cs) items = (c ∷ cs) ∷ items

-- The loop that takes `line` apart at its commas, with the token read so far. A comma at the end of the line
-- has no token behind it.
unfoldable pub tokens_on : Bytes → Bytes → List Bytes
tokens_on token [] = flush token []
tokens_on token (c ∷ line) =
    let more = tokens_on (token ++ c ∷ []) line in
    let next = tokens_on [] line in if c == b',' then token ∷ next else more

-- `atoi` in the C locale: blanks, a sign and digits, up to the first other character.
abbrev is_blank : ℕ → Bool
is_blank c = c == b' ' || (leb 9 c && leb c 13)

abbrev is_digit : ℕ → Bool
is_digit c = leb b'0' c && leb c b'9'

unfoldable pub digits : ℕ → Bytes → ℕ
digits n [] = n
digits n (c ∷ cs) = let more = digits (n * 10 + (c - b'0')) cs in if is_digit c then more else n

unfoldable pub skip_blanks : Bytes → Bytes
skip_blanks [] = []
skip_blanks (c ∷ cs) = let rest = skip_blanks cs in if is_blank c then rest else c ∷ cs

-- a negative number, as the `uint64_t` that `add_col` takes
negative_size : ℕ → Run ℕ
negative_size n = do check (leb n (2 ^ 31)) overflow; ok ((word64 - n) % word64)

positive_size : ℕ → Run ℕ
positive_size n = do check (ltb n (2 ^ 31)) overflow; ok n

signed : Bytes → Run ℕ
unfolding digits negative_size positive_size
signed [] = ok 0
signed (c ∷ cs) =
    if c == b'-'
    then negative_size (digits 0 cs)
    else if c == b'+'
    then positive_size (digits 0 cs)
    else positive_size (digits 0 (c ∷ cs))

unfoldable pub atoi : Bytes → Run ℕ
unfolding c_str skip_blanks signed
atoi token = signed (skip_blanks (c_str token))

-- The switch on `elem_num`, with the assertion behind it.
unfoldable pub add_elements : Catalog → List Bytes → Run Catalog
unfolding atoi add_col c_str
add_elements schema (size ∷ type ∷ name ∷ []) = do
  n ← atoi size
  add_col schema (c_str name) n (c_str type)
add_elements schema _ = fault assertion

-- the loop over the lines of a table's columns
unfoldable pub add_columns : Catalog → List Bytes → Run Catalog
unfolding add_elements tokens_on
add_columns schema [] = ok schema
add_columns schema (line ∷ lines) = do
  schema' ← add_elements schema (tokens_on [] line)
  add_columns schema' lines

-- The table of the name and the column lines. The source keeps a pointer to the text of `tname`, which is gone
-- when the schema has been read; here the table has the text itself.
unfoldable pub add_table : Workload → Bytes → List Bytes → Run Workload
unfolding add_columns Catalog.init init_table c_str
add_table w tname lines = do
  schema ← add_columns (Catalog.init (c_str tname) (length lines)) lines
  ok (record w { tables = (tname, init_table schema) ∷ w.tables })

unfoldable pub find_table : Bytes → List (Bytes × Table) → Option Table
unfolding same_bytes
find_table tname [] = none
find_table tname (t ∷ ts) =
    let rest = find_table tname ts in if same_bytes t.0 tname then some t.1 else rest

abbrev pub has_table : Option Table → Bool
has_table none = false
has_table (some t) = true

-- An index, on the first table that `line` names.
unfoldable pub add_index : IndexHash → Workload → Bytes → List Bytes → Run Workload
unfolding init_for find_table
add_index blank w iname [] = fault out_of_bounds
add_index blank w iname (tname ∷ items) = do
  index ← init_for blank (find_table tname w.tables)
  check (has_table index.table) assertion
  ok (record w { indexes = (iname, index) ∷ w.indexes })

-- Where the reader is: between two entries, behind TABLE= with the columns so far, or behind INDEX=.
pub data Place : Type 0 where
  between : Place
  in_table : Bytes → List Bytes → Place
  in_index : Bytes → Place

unfoldable pub begins : Bytes → Bytes → Bool
unfolding same_bytes
begins line word = same_bytes (take 6 line) word

-- the place behind a line that was read between two entries
unfoldable pub enter : Bytes → Place
unfolding begins c_str
enter line =
    if begins line (codes "TABLE=")
    then in_table (c_str (drop 6 line)) []
    else if begins line (codes "INDEX=")
    then in_index (c_str (drop 6 line))
    else between

-- `init_schema`: `getline` on an ended file gives the empty line. `blank` is an index as its constructor
-- leaves it.
unfoldable pub init_schema : IndexHash → Workload → Place → List Bytes → Run Workload
unfolding enter add_table add_index tokens_on
init_schema blank w between [] = ok w
init_schema blank w between (line ∷ lines) = init_schema blank w (enter line) lines
init_schema blank w (in_table tname columns) [] = add_table w tname columns
init_schema blank w (in_table tname columns) (line ∷ lines) =
    let more = init_schema blank w (in_table tname (columns ++ line ∷ [])) lines in
    let done = (do w' ← add_table w tname columns; init_schema blank w' between lines) in
    if ltb 1 (length line) then more else done
init_schema blank w (in_index iname) [] = add_index blank w iname []
init_schema blank w (in_index iname) (line ∷ lines) = do
  w' ← add_index blank w iname (tokens_on [] line)
  init_schema blank w' between lines
