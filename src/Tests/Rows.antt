-- ===== src/Tests/Rows.antt =====
-- Columns, rows and the index, at the table of two columns.
use data_agent_demo.Prelude.{ℕ, ◌+◌, ◌≡◌, ◌↔◌, refl, none, some, List, [], ◌∷◌, arith}
use data_agent_demo.Run.{ok}
use data_agent_demo.Bytes.{codes}
use data_agent_demo.Catalog.{Catalog, add_col, get_field_id}
use data_agent_demo.Catalog.Layout.{
  IsLaidOut, with_col, FirstNamed, add_col-IsLaidOut, get_field_id_iff,
}
use data_agent_demo.Row.Fields.{WritesColumn, set_value-columns}
use data_agent_demo.IndexHash.{Item, IndexHash, init_for}
use data_agent_demo.IndexHash.History.{newest, ReadsNewest, index_read-newest}
use data_agent_demo.IndexHash.View.{IsReady, Inserts, index_insert-items_of}
use data_agent_demo.Tests.{
  value_column, tiny_catalog, tiny_table, tiny_index, tiny_item, one_bucket, shared_row,
}

tiny_laid : IsLaidOut tiny_catalog
tiny_laid = (refl, refl, (refl, refl, refl))

set_value-columns_example : WritesColumn shared_row 1 value_column (codes "new")
set_value-columns_example =
    set_value-columns shared_row 1 value_column (codes "new") (tiny_laid, refl) refl (omega arith)

get_field_id_iff_example :
    (get_field_id tiny_catalog (codes "VALUE") ≡ ok 1)
    ↔ FirstNamed (codes "VALUE") tiny_catalog.columns 1
get_field_id_iff_example = get_field_id_iff tiny_catalog (codes "VALUE") 1

ready : IsReady tiny_index
ready = record {
  part = one_bucket ∷ [];
  host = tiny_table;
  one_part = refl;
  hosted = refl;
  full = refl;
  some_bucket = omega arith;
  free = (refl, tt);
}

index_insert-items_of_example : Inserts tiny_index 5 (record tiny_item { location = 1 })
index_insert-items_of_example =
    index_insert-items_of tiny_index 5 (record tiny_item { location = 1 }) ready

-- Two rows under one key, and one under another.
abbrev series : List (ℕ × Item)
series =
    (5, tiny_item)
    ∷ (6, record tiny_item { location = 1 })
    ∷ (5, record tiny_item { location = 2 })
    ∷ []

index_read-newest_example :
    (index : IndexHash) × (init_for tiny_index (some tiny_table) ≡ ok index)
    × ReadsNewest index series (λ key. none)
index_read-newest_example = index_read-newest tiny_index tiny_table series

newest_five : newest 5 none series ≡ some (record tiny_item { location = 2 })
newest_five = refl

-- Another column of two bytes, in a catalog with room for it.
abbrev roomy : Catalog
roomy = record tiny_catalog { capacity = 3 }

added : add_col roomy (codes "X") 2 (codes "int") ≡ ok (with_col roomy (codes "X") 2 (codes "int"))
unfolding add_col
added = refl

add_col-IsLaidOut_example :
    IsLaidOut (with_col roomy (codes "X") 2 (codes "int")) × (7 ≡ 5 + 2) × (3 ≡ 2 + 1)
add_col-IsLaidOut_example =
    add_col-IsLaidOut roomy (codes "X") 2 (codes "int") (with_col roomy (codes "X") 2 (codes "int"))
      (refl, refl, (refl, refl, refl)) (omega arith) added
