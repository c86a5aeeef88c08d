-- ===== src/World/Dirty.antt =====
-- Write of a new key, and Read of it by another transaction before the commit (Storage/System/txn.cpp).
use data_agent_demo.Prelude.{
  ℕ, ◌+◌, ◌%◌, ◌≤◌, ◌≡◌, refl, sym, ◌∙◌, subst, false, some, [], ◌∷◌, ◌++◌, arith, length, take,
  ltb,
}
use data_agent_demo.Run.{ok}
use data_agent_demo.System.{rcok, wr, word64}
use data_agent_demo.Env.{Env}
use data_agent_demo.Bytes.{Bytes, c_str}
use data_agent_demo.Row
use data_agent_demo.Row.{Row, Table, set_value, set_primary_key, get_schema}
use data_agent_demo.Row.Occ.{init_manager}
use data_agent_demo.Row.Fields.{IsSound}
use data_agent_demo.IndexHash.{Item, IndexHash}
use data_agent_demo.IndexHash.View.{IsReady, items_of, index_insert-items_of}
use data_agent_demo.Database.{Database, live, load, store, get_new_row}
use data_agent_demo.Database.Memory.{load-append_self, load-store_self}
use data_agent_demo.Txn
use data_agent_demo.Txn.{Access, Txn, find_pos, get_row, insert_row}
use data_agent_demo.Txn.Ops.{row_item, publish, write, write_new, read}
use data_agent_demo.Txn.KeyRows.{HasKey-same}
use data_agent_demo.Txn.Copies.{IsIdle, copy_of, data_bytes-copy_of, table-copy_of}
use data_agent_demo.Txn.Open.{visited, entered, accesses-entered, get_row-entered}
use data_agent_demo.Txn.OwnWrites.{relocal, local_row-entry, set_local-entry}
use data_agent_demo.World.{begun}
use data_agent_demo.World.Begun.{
  TwoColumns, filled_row, fill_lem, filled_row-HasKey, c_string-filled_row, row_cnt-begun,
  find_pos-begun, begun_open, read-begun, index_read-items_of,
}

none_below : (n : ℕ) → ltb n 0 ≡ false
none_below n = ground arith

-- `Write` returns RCOK, and the transaction has not ended. Any other transaction that has just begun reads the
-- value, cut to the 1023 bytes that the column has room for.
abbrev pub ReadsUncommitted : Env → Txn → Database → Bytes → Bytes → Type 0
ReadsUncommitted env t db key value =
    (t' : Txn) × (db' : Database) × (write env t db key value ≡ ok (rcok, t', db'))
    × ((thd_id ts : ℕ) (value_out : Bytes)
        → (u : Txn) × (read env (begun thd_id ts) db' key value_out
            ≡ ok (rcok, take 1023 (c_str value), u, db')))

-- A transaction that has just begun writes a key that the index does not have.
module _ (env : Env) (db : Database) (key value : Bytes) (thd_id ts : ℕ) (ready : IsReady db.index)
    (absent : items_of db.index (env.hash key) ≡ []) (c : TwoColumns db.table)
    (short : length (c_str key) ≤ 127) where
  -- the new row, as it comes out of the table and with its key
  abbrev blank_row : Row
  blank_row = record {
    table = db.table;
    data_bytes = env.malloc db.table.schema.tuple_size;
    primary_key = env.junk;
    part_id = 0;
    row_id = db.cur_tab_size;
    manager = some (record { latched = false; wts = 0 });
  }

  abbrev new_row : Row
  new_row = record blank_row { primary_key = env.hash key }

  abbrev counted_db : Database
  counted_db = record db { cur_tab_size = (db.cur_tab_size + 1) % word64 }

  abbrev grown_db : Database
  grown_db = record counted_db { rows = db.rows ++ live blank_row ∷ [] }

  blank_there : load grown_db (length db.rows) ≡ ok blank_row
  blank_there = load-append_self counted_db blank_row

  new-IsSound : IsSound new_row
  new-IsSound = (c.laid, env.length-malloc db.table.schema.tuple_size)

  abbrev public_row : Row
  public_row = filled_row new_row key value c new-IsSound short

  abbrev filled_db : Database
  filled_db = store grown_db (length db.rows) public_row

  abbrev public_idle : IsIdle filled_db (length db.rows) public_row
  public_idle = record {
    occ = record { latched = false; wts = 0 };
    there = load-store_self grown_db (length db.rows) blank_there public_row;
    managed = refl;
    state = refl;
    sized = (filled_row-HasKey new_row key value c new-IsSound short).sound.1;
  }

  abbrev inserter : Txn
  inserter =
      entered env (begun thd_id ts) filled_db wr (length db.rows) public_row
        (begun_open thd_id ts filled_db) public_idle (omega (arith, row_cnt-begun thd_id ts))
        (find_pos-begun thd_id ts (env.hash key)) tt

  copied_columns : TwoColumns (copy_of env public_row).table
  copied_columns = subst TwoColumns (sym (table-copy_of env public_row)) c

  copied-IsSound : IsSound (copy_of env public_row)
  copied-IsSound =
      (HasKey-same public_row (copy_of env public_row) key (table-copy_of env public_row)
        (data_bytes-copy_of env public_row)
        (filled_row-HasKey new_row key value c new-IsSound short)).sound

  abbrev own_row : Row
  own_row = filled_row (copy_of env public_row) key value copied_columns copied-IsSound short

  inserts-begun : (begun thd_id ts).insert_rows ≡ []
  unfolding begun Txn.init
  inserts-begun = refl

  abbrev its_item : Item
  its_item = row_item (length db.rows)

  abbrev grown_index : IndexHash
  grown_index = (index_insert-items_of db.index (env.hash key) its_item ready).0

  abbrev place : ℕ
  place = (begun thd_id ts).row_cnt

  abbrev own_entry : Access
  own_entry = visited env wr (length db.rows) public_row

  at_front : inserter.accesses ≡ own_entry ∷ []
  at_front =
      accesses-entered env (begun thd_id ts) filled_db wr (length db.rows) public_row
        (begun_open thd_id ts filled_db) public_idle (omega (arith, row_cnt-begun thd_id ts))
        (find_pos-begun thd_id ts (env.hash key)) tt

  abbrev kept : Txn
  kept = relocal inserter [] [] own_entry place at_front (sym (row_cnt-begun thd_id ts)) own_row

  abbrev done : Txn
  done = record kept { insert_rows = kept.insert_rows ++ length db.rows ∷ [] }

  abbrev public_db : Database
  public_db = record filled_db { index = grown_index }

  publish_lem :
      publish env inserter filled_db (length db.rows) place key value ≡ ok (rcok, done, public_db)
  unfolding publish insert_row store
  publish_lem =
      rw
        (
          local_row-entry inserter [] [] own_entry place at_front (sym (row_cnt-begun thd_id ts))
              (copy_of env public_row) refl,
          fill_lem (copy_of env public_row) key value copied_columns copied-IsSound short,
          set_local-entry inserter [] [] own_entry place at_front (sym (row_cnt-begun thd_id ts))
              own_row,
          inserts-begun,
          (index_insert-items_of db.index (env.hash key) its_item ready).1,
        )
        refl

  write-begun : write env (begun thd_id ts) db key value ≡ ok (rcok, done, public_db)
  unfolding write write_new get_new_row Row.init init_manager set_primary_key
  write-begun =
      rw
        (
          index_read-items_of db (env.hash key) [] ready absent,
          blank_there,
          fill_lem new_row key value c new-IsSound short,
          get_row-entered env (begun thd_id ts) filled_db wr (length db.rows) public_row
              (begun_open thd_id ts filled_db) public_idle (omega (arith, row_cnt-begun thd_id ts))
              (find_pos-begun thd_id ts (env.hash key)) tt (none_below (begun thd_id ts).start_ts),
          publish_lem,
        )
        refl

  public_there : load public_db (length db.rows) ≡ ok public_row
  public_there = unfold load in public_idle.there

  abbrev still_idle : IsIdle public_db (length db.rows) public_row
  still_idle = record {
    occ = public_idle.occ;
    there = public_there;
    managed = refl;
    state = refl;
    sized = public_idle.sized;
  }

  newest : items_of grown_index (env.hash key) ≡ its_item ∷ []
  newest =
      (index_insert-items_of db.index (env.hash key) its_item ready).3 (env.hash key)
      ∙ ground (arith, absent)

  -- Transactions read what was not committed. On the server's table and a ready index, when a transaction
  -- that has just begun writes a key of at most 127 bytes that the index does not have, `Write` returns RCOK,
  -- and before that transaction commits or aborts `Read` of the key in any other transaction that has just
  -- begun returns RCOK and the value, cut to 1023 bytes.
  pub write-ReadsUncommitted : ReadsUncommitted env (begun thd_id ts) db key value
  write-ReadsUncommitted = (
    done,
    public_db,
    write-begun,
    λ other_thd other_ts value_out. (
      _,
      read-begun env public_db key (take 1023 (c_str value)) value_out other_thd other_ts its_item
          public_row still_idle (none_below other_ts)
          (index_read-items_of public_db (env.hash key) (its_item ∷ [])
            (index_insert-items_of db.index (env.hash key) its_item ready).2 newest)
          (filled_row-HasKey new_row key value c new-IsSound short) c.value_column c.second
          (c_string-filled_row new_row key value c new-IsSound short),
    ),
  )
