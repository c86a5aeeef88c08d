-- ===== src/Schema/File.antt =====
-- A schema file with one table and its index, as the server reads it.
use mathlib.Core.List.{append_assoc, append-nil}
use data_agent_demo.Prelude.{
  ℕ, ◌<◌, ◌≡◌, refl, sym, ap, ◌∙◌, true, some, List, [], ◌∷◌, ◌++◌, map, arith, ltb, length,
  length-append, length-map,
}
use data_agent_demo.Run.{ok, ◌>>=◌}
use data_agent_demo.System.{word32}
use data_agent_demo.Bytes.{Bytes, codes, c_str}
use data_agent_demo.Catalog
use data_agent_demo.Catalog.{Catalog, field_cnt}
use data_agent_demo.Catalog.Layout.{IsLaidOut, init-IsLaidOut}
use data_agent_demo.Row.{Table, init_table}
use data_agent_demo.IndexHash.{IndexHash, init_for}
use data_agent_demo.IndexHash.View.{IsReady, items_of, init_for-IsReady}
use data_agent_demo.Schema.{
  Workload, same_bytes, add_columns, add_table, find_table, add_index, between, in_table, in_index,
  begins, enter, init_schema,
}
use data_agent_demo.Schema.Columns.{
  ColumnText, printed, NoComma, AllColumns, total, described, add_columns-printed, tokens_on-comma,
}

-- The lines of the file; `parts` is what follows the table's name in the line of the index.
abbrev pub file : Bytes → List ColumnText → Bytes → Bytes → List Bytes
file tname cs iname parts =
    (codes "TABLE=" ++ tname)
    ∷ (map printed cs ++ [] ∷ (codes "INDEX=" ++ iname) ∷ (tname ++ b',' ∷ parts) ∷ [])

abbrev pub no_workload : Workload
no_workload = record { tables = []; indexes = [] }

-- The file is read to its end: it gives one table of that name, whose columns are those that the lines describe,
-- laid out, and one index, ready and empty.
abbrev pub Loads : IndexHash → Bytes → List ColumnText → List ℕ → Bytes → Bytes → Type 0
Loads blank tname cs ns iname parts =
    (schema : Catalog) × (index : IndexHash) × (init_schema blank no_workload between
        (file tname cs iname parts)
      ≡ ok (record { tables = (tname, init_table schema) ∷ []; indexes = (iname, index) ∷ [] }))
    × IsLaidOut schema
    × (field_cnt schema ≡ length cs)
    × (schema.tuple_size ≡ total ns)
    × (schema.columns ≡ described 0 0 cs ns)
    × (schema.table_name ≡ tname)
    × IsReady index
    × ((key : ℕ) → items_of index key ≡ [])

printed-long : (c : ColumnText) → ltb 1 (length (printed c)) ≡ true
printed-long c = two (length (printed c)) (
    omega (
      arith,
      length-append c.size (b',' ∷ (c.type ++ b',' ∷ c.name)),
      length-append c.type (b',' ∷ c.name),
    ))
  where
    two : (n : ℕ) → 1 < n → ltb 1 n ≡ true
    two n h = ground arith

-- The column lines are collected up to the empty line.
in_table-lines :
    (blank : IndexHash) (w : Workload) (tname : Bytes) (done : List Bytes) (cs : List ColumnText)
    (rest : List Bytes)
    → init_schema blank w (in_table tname done) (map printed cs ++ [] ∷ rest)
      ≡ (add_table w tname (done ++ map printed cs) >>= (λ w'. init_schema blank w' between rest))
unfolding init_schema
in_table-lines blank w tname done [] rest =
    ap
      (λ (columns : List Bytes).
        add_table w tname columns >>= (λ w'. init_schema blank w' between rest))
      (sym (append-nil done))
in_table-lines blank w tname done (c ∷ cs) rest = rw (printed-long c) (
    in_table-lines blank w tname (done ++ printed c ∷ []) cs rest
    ∙ ap
        (λ (columns : List Bytes).
          add_table w tname columns >>= (λ w'. init_schema blank w' between rest))
        (append_assoc done (printed c ∷ []) (map printed cs)))

same_bytes_self : (s : Bytes) → same_bytes s s ≡ true
unfolding same_bytes
same_bytes_self [] = refl
same_bytes_self (c ∷ s) = ground (arith, same_bytes_self s)

-- The two lines of an index on a table of the workload.
index-lines :
    (blank index : IndexHash) (w : Workload) (tname iname parts : Bytes) (t : Table)
    → c_str iname ≡ iname
    → NoComma tname
    → find_table tname w.tables ≡ some t
    → init_for blank (some t) ≡ ok index
    → init_schema blank w between ((codes "INDEX=" ++ iname) ∷ (tname ++ b',' ∷ parts) ∷ [])
      ≡ ok (record w { indexes = (iname, index) ∷ w.indexes })
index-lines blank index w tname iname parts t plain no_comma found made =
    entered
    ∙ (ap (λ (name : Bytes). init_schema blank w (in_index name) ((tname ++ b',' ∷ parts) ∷ []))
          plain
        ∙ read)
  where
    entered :
        init_schema blank w between ((codes "INDEX=" ++ iname) ∷ (tname ++ b',' ∷ parts) ∷ [])
        ≡ init_schema blank w (in_index (c_str iname)) ((tname ++ b',' ∷ parts) ∷ [])
    entered = unfold init_schema in unfold enter in unfold begins in unfold same_bytes in refl

    read :
        init_schema blank w (in_index iname) ((tname ++ b',' ∷ parts) ∷ [])
        ≡ ok (record w { indexes = (iname, index) ∷ w.indexes })
    read =
        unfold init_schema in
        unfold add_index in
        unfold init_for in rw (tokens_on-comma [] tname parts no_comma, found) (cc made)

table-lines :
    (blank : IndexHash) (w : Workload) (tname iname parts : Bytes) (cs : List ColumnText)
    (schema : Catalog)
    → c_str tname ≡ tname
    → add_columns (Catalog.init tname (length (map printed cs))) (map printed cs) ≡ ok schema
    → init_schema blank w between (file tname cs iname parts)
      ≡ init_schema blank
          (record w { tables = (tname, init_table schema) ∷ w.tables })
          between
          ((codes "INDEX=" ++ iname) ∷ (tname ++ b',' ∷ parts) ∷ [])
table-lines blank w tname iname parts cs schema plain e =
    entered
    ∙ (ap (λ (name : Bytes). init_schema blank w (in_table name []) (map printed cs ++ [] ∷ rest))
          plain
        ∙ (in_table-lines blank w tname [] cs rest ∙ added))
  where
    rest : List Bytes
    rest = (codes "INDEX=" ++ iname) ∷ (tname ++ b',' ∷ parts) ∷ []

    entered :
        init_schema blank w between (file tname cs iname parts)
        ≡ init_schema blank w (in_table (c_str tname) []) (map printed cs ++ [] ∷ rest)
    entered = unfold init_schema in unfold enter in unfold begins in unfold same_bytes in refl

    added :
        (add_table w tname (map printed cs) >>= (λ w'. init_schema blank w' between rest))
        ≡ init_schema blank
            (record w { tables = (tname, init_table schema) ∷ w.tables })
            between
            rest
    added = unfold add_table in rw (plain, e) refl

-- A file that names a table, describes each of its columns by texts without commas that fit their buffers and a
-- size that is a number, the sizes not wrapping around in sum, and then an index on that table, is read to its end.
-- It gives just that table, whose columns are those of the lines in their order, each with the name, the type and
-- the size of its line and placed behind the one before, and that index, ready and empty.
pub init_schema-file :
    (blank : IndexHash) (tname iname parts : Bytes) (cs : List ColumnText) (ns : List ℕ)
    → c_str tname ≡ tname
    → c_str iname ≡ iname
    → NoComma tname
    → AllColumns cs ns
    → total ns < word32
    → Loads blank tname cs ns iname parts
unfolding Catalog.init
init_schema-file blank tname iname parts cs ns plain plain' no_comma h small =
    let empty : Catalog = Catalog.init tname (length (map printed cs)) in
    let (schema, e, laid, sized, counted, all, named) =
      add_columns-printed cs ns empty h (init-IsLaidOut tname (length (map printed cs)))
        (omega (arith, length-map cs printed)) (omega arith) in
    let (index, made, ready, no_items) = init_for-IsReady blank (init_table schema) in
    let w : Workload = record no_workload { tables = (tname, init_table schema) ∷ [] } in
    (
      schema,
      index,
      table-lines blank no_workload tname iname parts cs schema plain e
          ∙ index-lines blank index w tname iname parts (init_table schema) plain' no_comma
              (first_table tname (init_table schema)) made,
      laid,
      omega (arith, counted),
      omega (arith, sized),
      all,
      named,
      ready,
      no_items,
    )
  where
    first_table : (name : Bytes) (t : Table) → find_table name ((name, t) ∷ []) ≡ some t
    first_table name t = unfold find_table in rw (same_bytes_self name) refl
