-- ===== src/Tests/Txns.antt =====
-- Transactions on a database of one row.
use data_agent_demo.Prelude.{ℕ, zero, suc, ◌≡◌, refl, some, [], ◌∷◌, arith}
use mathlib.Core.Bool.{false}
use data_agent_demo.Run.{ok, ◌>>=◌}
use data_agent_demo.Bytes.{codes, memcpy_at}
use data_agent_demo.Row.{Row, RowOcc, copy}
use data_agent_demo.Row.Occ.{write}
use data_agent_demo.IndexHash.View.{IsReady, items_of}
use data_agent_demo.IndexHash.{find_items}
use data_agent_demo.Database.{load, store}
use data_agent_demo.Txn.{Txn}
use data_agent_demo.Txn.Validate.{validate}
use data_agent_demo.Txn.Accesses.{All}
use data_agent_demo.Txn.Passes.{IsCurrent}
use data_agent_demo.Txn.Commit.{Commits, validate_commit}
use data_agent_demo.Txn.Opened.{IsOpen}
use data_agent_demo.Txn.Abort.{Aborts, validate_abort}
use data_agent_demo.Txn.Open.{Visits, get_row-IsOpen}
use data_agent_demo.Txn.Copies.{IsIdle}
use data_agent_demo.Txn.{find_pos}
use data_agent_demo.System.{rd}
use data_agent_demo.Txn.Sets.{SetEnt, get_rw_set}
use data_agent_demo.Txn.Insert.{Dangles, abort_insert-Dangles}
use data_agent_demo.Tests.{
  zeros, tiny_db, tiny_index, tiny_item, tiny_table, one_bucket, shared_row, copied_row, writer,
}

pub there : load tiny_db 0 ≡ ok shared_row
unfolding load
there = refl

abbrev pub open_with :
    (t : Txn) → t.accesses ≡ (writer 4).accesses → t.row_cnt ≡ 1 → IsOpen t tiny_db
open_with t same one = record {
  used = (writer 4).accesses;
  spare = [];
  split = same;
  counted = omega arith;
  held = (
    record {
      addr = 0;
      row = shared_row;
      occ = _;
      copy = copied_row;
      at = refl;
      there = there;
      managed = refl;
      state = refl;
      copied = refl;
      copy_sized = refl;
      row_sized = refl;
    },
    tt,
  );
  distinct = (tt, tt);
}

wts_of :
    (p : ℕ) (r : Row) (m : RowOcc)
    → some 0 ≡ some p
    → load tiny_db p ≡ ok r
    → r.manager ≡ some m
    → m.wts ≡ 3
unfolding load
wts_of zero r m e l k = ground arith
wts_of (suc p) r m e l k = cc

validate_commit_example : Commits (writer 4) tiny_db (writer 4).accesses
validate_commit_example =
    validate_commit (writer 4) tiny_db (open_with (writer 4) refl refl)
      ((λ p r m e l k. omega (arith, wts_of p r m e l k)), tt)
      ((λ p r m e l k. omega (arith, wts_of p r m e l k)), tt)

-- A write of the row at time 3 comes after the start.
stale : ¬ All (IsCurrent 2 tiny_db) (writer 2).accesses
stale current =
    omega (arith, current.0 0 shared_row (record { latched = false; wts = 3 }) refl there refl)

validate_abort_example : Aborts (writer 2) tiny_db
validate_abort_example =
    validate_abort (writer 2) tiny_db (open_with (writer 2) refl refl) refl stale

-- A transaction that has just begun reads the row.
abbrev reader : Txn
reader = record (writer 4) { row_cnt = 0; wr_cnt = 0; accesses = []; record_pos = [] }

abbrev reader_open : IsOpen reader tiny_db
reader_open = record {
  used = [];
  spare = [];
  split = refl;
  counted = refl;
  held = tt;
  distinct = tt;
}

abbrev idle_row : IsIdle tiny_db 0 shared_row
idle_row = record {
  occ = record { latched = false; wts = 3 };
  there = there;
  managed = refl;
  state = refl;
  sized = refl;
}

get_row-IsOpen_example : Visits zeros reader tiny_db rd 0 shared_row 3 []
get_row-IsOpen_example =
    get_row-IsOpen zeros reader tiny_db rd 0 shared_row reader_open idle_row (omega arith)
      (unfold find_pos in refl) tt

abbrev inserter : Txn
inserter = record (writer 4) { insert_rows = 0 ∷ [] }

index_ready : IsReady tiny_index
index_ready = record {
  part = one_bucket ∷ [];
  host = tiny_table;
  one_part = refl;
  hosted = refl;
  full = refl;
  some_bucket = omega arith;
  free = (refl, tt);
}

newest : items_of tiny_index 5 ≡ tiny_item ∷ []
unfolding items_of find_items
newest = refl

abort_insert-Dangles_example : Dangles zeros inserter tiny_db (codes "k")
abort_insert-Dangles_example =
    abort_insert-Dangles zeros inserter tiny_db (open_with inserter refl refl) (codes "k") tiny_item
      [] shared_row refl there index_ready newest

-- The same by evaluation: the commit installs the copy, and frees the latch.
commit_run :
    validate (writer 4) tiny_db >>= (λ r. load r.2 0)
    ≡ ok (record shared_row {
      data_bytes = copied_row.data_bytes;
      manager = some (record { latched = false; wts = 9 });
    })
unfolding validate load store write copy memcpy_at
commit_run = refl

-- Two sets that share a row.
abbrev reads_two : SetEnt
reads_two = record { set_size = 2; rows = 0 ∷ 3 ∷ [] }

abbrev writes_one : SetEnt
writes_one = record { set_size = 1; rows = 3 ∷ [] }

get_rw_set_run :
    get_rw_set (writer 4)
    ≡ ok (record { set_size = 0; rows = [] }, record { set_size = 1; rows = 0 ∷ [] })
unfolding get_rw_set
get_rw_set_run = refl
