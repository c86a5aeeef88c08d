-- ===== src/Tests/Worlds.antt =====
-- Two transactions that started at the same time and have written the same row.
use data_agent_demo.Prelude.{
  false, none, ℕ, zero, suc, ◌≡◌, refl, some, List, [], ◌∷◌, ◌++◌, arith, inl,
}
use data_agent_demo.Run.{ok}
use data_agent_demo.System.{wr, rd, rcok}
use data_agent_demo.Row.{Row, copy}
use data_agent_demo.Row.Occ.{write}
use data_agent_demo.Bytes.{memcpy_at}
use data_agent_demo.Database.{Database, live, load, store}
use data_agent_demo.Txn.{Access, Txn, find_pos}
use data_agent_demo.Txn.Validate.{sort, validate, finish}
use data_agent_demo.Txn.Opened.{IsOpen}
use data_agent_demo.Txn.Abort.{Aborts}
use data_agent_demo.World.{World, ends, Reach, here, next, RowRests, Indexed, Active, Sane}
use data_agent_demo.World.Outcome.{Ends}
use data_agent_demo.World.Histories.{Reach-Sane, commit_serial}
use data_agent_demo.World.Race.{Uses, first_committer_wins}
use data_agent_demo.Overlap.{ended, latching}
use data_agent_demo.Overlap.Alone.{Alone}
use data_agent_demo.Overlap.Whole.{validate-Alone}
use data_agent_demo.Tests.{zeros, tiny_db, shared_row, copied_row, writer}
use data_agent_demo.Tests.Txns.{open_with}

rests : (p : ℕ) (r : Row) → load tiny_db p ≡ ok r → RowRests tiny_db p r
unfolding load
rests zero r there = (
  record {
    occ = record { latched = false; wts = 3 };
    there = there;
    managed = ground arith;
    state = refl;
    sized = ground arith;
  },
  omega arith,
)
rests (suc p) r there = cc there

found : (key pos : ℕ) → find_pos key ((5, 0) ∷ []) ≡ some pos → pos ≡ 0
unfolding find_pos
found key pos e = ground arith

index :
    Indexed (writer 4) tiny_db (record { type = wr; orig_row = some 0; local = some copied_row })
index p r at there = (0, key p r at there)
  where
    key :
        (p : ℕ) (r : Row)
        → some 0 ≡ some p
        → load tiny_db p ≡ ok r
        → find_pos r.primary_key ((5, 0) ∷ []) ≡ some 0
    key zero r at there = unfold load find_pos in ground arith
    key (suc p) r at there = cc at

rd_wr : ¬ (wr ≡ rd)
rd_wr e = cc e

abbrev writer_active : Active (writer 4) tiny_db
writer_active = record {
  open_set = open_with (writer 4) refl refl;
  none_inserted = refl;
  started = omega arith;
  indexed = (index, tt);
  placed = λ key pos e. omega (arith, found key pos e);
  seen = ((λ p r l m at there managed copied reads current. absurd (rd_wr reads)), tt);
}

abbrev two_writers : World
two_writers = record { db = tiny_db; txns = writer 4 ∷ writer 4 ∷ [] }

abbrev two_writers_sane : Sane two_writers
two_writers_sane = record {
  rested = record { rows = rests };
  active = (writer_active, (writer_active, tt));
}

-- The first of them commits.
abbrev committed_db : Database
committed_db = record tiny_db {
  timestamp = 10;
  rows =
      live (record shared_row {
        data_bytes = copied_row.data_bytes;
        manager = some (record { latched = false; wts = 9 });
      })
      ∷ [];
}

abbrev committed_txn : Txn
committed_txn = record (writer 4) {
  end_ts = 9;
  row_cnt = 0;
  wr_cnt = 0;
  lock_cnt = 1;
  accesses = record { type = wr; orig_row = some 0; local = none } ∷ [];
  record_pos = [];
}

writer_commits : validate (writer 4) tiny_db ≡ ok (rcok, committed_txn, committed_db)
unfolding validate load store write copy memcpy_at
writer_commits = refl

abbrev first_done : World
first_done = record { db = committed_db; txns = writer 4 ∷ [] }

finishes : finish rcok (writer 4) tiny_db ≡ ok (rcok, committed_txn, committed_db)
unfolding finish
finishes = writer_commits

abbrev first_commits : Reach zeros two_writers first_done
first_commits = next here (
    ends [] (writer 4 ∷ []) (writer 4) committed_txn committed_db rcok rcok (inl refl) refl
      (omega arith) finishes refl)

Reach-Sane_example : Sane first_done
Reach-Sane_example = Reach-Sane zeros two_writers first_done first_commits two_writers_sane

commit_serial_example : (o : IsOpen (writer 4) first_done.db) × Ends (writer 4) first_done.db o.used
commit_serial_example =
    commit_serial zeros two_writers first_done first_commits two_writers_sane [] [] (writer 4) refl

abbrev uses_row :
    Uses (writer 4) 0 0 (record { type = wr; orig_row = some 0; local = some copied_row })
uses_row = record { inside = omega arith; at = refl; row = refl }

first_committer_wins_example : Aborts (writer 4) committed_db
first_committer_wins_example =
    first_committer_wins zeros two_writers two_writers here two_writers_sane [] (writer 4 ∷ []) []
      [] (writer 4) (writer 4) committed_txn committed_db 0 0 0 _ _ refl refl uses_row refl uses_row
      (omega arith) writer_commits

validate-Alone_example :
    (entries : List Access) × (sort tiny_db 0 (writer 4).accesses ≡ ok (entries ++ []))
    × Alone
        (record { start_ts = 4; entries = entries; phase = latching 0 })
        tiny_db
        (latching 0)
        committed_db
        ended
validate-Alone_example =
    validate-Alone (writer 4) committed_txn tiny_db committed_db rcok
      (open_with (writer 4) refl refl) refl writer_commits
