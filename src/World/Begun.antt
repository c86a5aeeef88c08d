-- ===== src/World/Begun.antt =====
-- A transaction that has just begun reads a row, and a new row is filled (Storage/System/txn.cpp).
use data_agent_demo.Prelude.{
  ℕ, ◌≤◌, ◌≡◌, refl, sym, ap, ◌∙◌, false, Option, none, some, List, [], arith, length, get_elem?,
  take, drop, ltb,
}
use data_agent_demo.Run.{Run, ok, ◌>>=◌}
use data_agent_demo.System.{Rc, rcok, rd}
use data_agent_demo.Env.{Env}
use data_agent_demo.Bytes.{Bytes, c_str, c_string}
use data_agent_demo.Bytes.Laws.{length-text_buffer}
use data_agent_demo.Catalog.{Column}
use data_agent_demo.Catalog.Layout.{IsLaidOut}
use data_agent_demo.Row.{Row, Table, get_schema}
use data_agent_demo.Row.Fields.{
  IsSound, written, set_value_lem, slice-written_self, written-IsSound,
}
use data_agent_demo.IndexHash.{Item, first}
use data_agent_demo.IndexHash.View.{IsReady, items_of, index_read_lem}
use data_agent_demo.Database.{Database}
use data_agent_demo.Txn
use data_agent_demo.Txn.{Access, Txn, find_pos, get_row, insert_row}
use data_agent_demo.Txn.Ops.{key_buffer, index_read, fill, read, read_row}
use data_agent_demo.Txn.KeyRows.{
  HasKey, HasKey-same, set_value_second, valued, valued-HasKey, c_string-valued, take_short,
}
use data_agent_demo.Txn.Opened.{IsOpen}
use data_agent_demo.Txn.Copies.{IsIdle, copy_of, data_bytes-copy_of, table-copy_of}
use data_agent_demo.Txn.Open.{visited, entered, accesses-entered, get_row-entered}
use data_agent_demo.Txn.OwnWrites.{read_local-entry}
use data_agent_demo.World.{begun}

-- The server's table: a column for the key and one for the value.
pub record TwoColumns (table : Table) : Type 0 where
  pub laid : IsLaidOut table.schema
  pub key_column : Column
  pub value_column : Column
  pub first : get_elem? table.schema.columns 0 ≡ some key_column
  pub second : get_elem? table.schema.columns 1 ≡ some value_column
  pub key_size : key_column.size ≡ 128
  pub value_size : value_column.size ≡ 1024

-- A row of the table, with all its bytes, is filled with a key and a value.
module _ (r : Row) (key value : Bytes) (c : TwoColumns r.table) (sized : IsSound r)
    (short : length (c_str key) ≤ 127) where
  pub key_fits : c.key_column.size ≤ length (key_buffer key)
  key_fits = omega (arith, c.key_size, length-text_buffer 127 key)

  abbrev pub keyed_row : Row
  keyed_row = written r 0 c.key_column (key_buffer key) sized c.first key_fits

  abbrev pub keyed_row_keyed : HasKey keyed_row key
  keyed_row_keyed = record {
    sound = written-IsSound r 0 c.key_column (key_buffer key) sized c.first key_fits;
    key_column = c.key_column;
    value_column = c.value_column;
    first = c.first;
    second = c.second;
    value_size = c.value_size;
    keyed =
        slice-written_self r 0 c.key_column (key_buffer key) sized c.first key_fits
        ∙ take_short c.key_column.size (key_buffer key)
            (omega (arith, c.key_size, length-text_buffer 127 key));
    short = short;
  }

  abbrev pub filled_row : Row
  filled_row = valued keyed_row key keyed_row_keyed value

  pub fill_lem : fill r key value ≡ ok filled_row
  unfolding fill
  fill_lem =
      rw
        (
          set_value_lem r 0 c.key_column (key_buffer key) sized c.first key_fits,
          set_value_second keyed_row key keyed_row_keyed value,
        )
        refl

  pub filled_row-HasKey : HasKey filled_row key
  filled_row-HasKey = valued-HasKey keyed_row key keyed_row_keyed value

  pub c_string-filled_row :
      c_string (drop c.value_column.index filled_row.data_bytes) ≡ ok (take 1023 (c_str value))
  c_string-filled_row = c_string-valued keyed_row key keyed_row_keyed value

-- a transaction that has just begun
module _ (thd_id ts : ℕ) where
  pub accesses-begun : (begun thd_id ts).accesses ≡ []
  unfolding begun Txn.init
  accesses-begun = refl

  pub row_cnt-begun : (begun thd_id ts).row_cnt ≡ 0
  unfolding begun Txn.init
  row_cnt-begun = refl

  pub find_pos-begun : (key : ℕ) → find_pos key (begun thd_id ts).record_pos ≡ none
  unfolding begun Txn.init find_pos
  find_pos-begun key = refl

  abbrev pub begun_open : (db : Database) → IsOpen (begun thd_id ts) db
  begun_open db = record {
    used = [];
    spare = [];
    split = accesses-begun;
    counted = sym row_cnt-begun;
    held = tt;
    distinct = tt;
  }

-- A transaction that has just begun reads a row that has not been written since the engine started.
module _ (env : Env) (db : Database) (key value value_out : Bytes) (thd_id ts : ℕ) (item : Item)
    (r : Row) (idle : IsIdle db item.location r) (current : ltb ts idle.occ.wts ≡ false)
    (found : index_read db (env.hash key) 0 ≡ ok (some item)) (keyed : HasKey r key)
    (column : Column) (second : get_elem? (get_schema r).columns 1 ≡ some column)
    (reads : c_string (drop column.index r.data_bytes) ≡ ok value) where
  start_ts-begun : (begun thd_id ts).start_ts ≡ ts
  unfolding begun Txn.init
  start_ts-begun = refl

  abbrev pub reader : Txn
  reader =
      entered env (begun thd_id ts) db rd item.location r (begun_open thd_id ts db) idle
        (omega (arith, row_cnt-begun thd_id ts)) (find_pos-begun thd_id ts r.primary_key) tt

  pub read-begun : read env (begun thd_id ts) db key value_out ≡ ok (rcok, value, reader, db)
  unfolding read read_row
  read-begun =
      rw
        (
          found,
          get_row-entered env (begun thd_id ts) db rd item.location r (begun_open thd_id ts db) idle
              (omega (arith, row_cnt-begun thd_id ts)) (find_pos-begun thd_id ts r.primary_key) tt
              (ap (λ n. ltb n idle.occ.wts) start_ts-begun ∙ current),
          read_local-entry reader [] [] (visited env rd item.location r) (begun thd_id ts).row_cnt
              (accesses-entered env (begun thd_id ts) db rd item.location r
                (begun_open thd_id ts db) idle (omega (arith, row_cnt-begun thd_id ts))
                (find_pos-begun thd_id ts r.primary_key) tt)
              (sym (row_cnt-begun thd_id ts)) db key value_out (copy_of env r) refl
              (HasKey-same r (copy_of env r) key (table-copy_of env r) (data_bytes-copy_of env r)
                keyed)
              column value
              (ap (λ (t : Table). get_elem? t.schema.columns 1) (table-copy_of env r) ∙ second)
              (ap (λ bytes. c_string (drop column.index bytes)) (data_bytes-copy_of env r) ∙ reads),
        )
        refl

pub index_read-items_of :
    (db : Database) (key : ℕ) (items : List Item)
    → IsReady db.index
    → items_of db.index key ≡ items
    → index_read db key 0 ≡ ok (first items)
unfolding index_read
index_read-items_of db key items ready e =
    ap (λ (run : Run (Rc × Option Item)). run >>= (λ found. ok found.1))
      (index_read_lem db.index ready key)
    ∙ ap (λ items. ok (first items)) e
