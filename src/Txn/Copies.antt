-- ===== src/Txn/Copies.antt =====
-- row_t::get_row of DataFormat/row.cpp on a row that no one has latched: what it copies, and what it refuses.
use data_agent_demo.Prelude.{ℕ, ◌≡◌, refl, sym, ap, ◌∙◌, true, false, some, arith, length, ltb}
use data_agent_demo.Run.{ok}
use data_agent_demo.System.{rcok, abort}
use data_agent_demo.Env.{Env}
use data_agent_demo.Row
use data_agent_demo.Row.{Row, RowOcc, get_tuple_size, copy}
use data_agent_demo.Row.Fields.{copy_lem}
use data_agent_demo.Row.Occ.{latch, read_copy, access}
use data_agent_demo.Database.{Database, load}
use data_agent_demo.Txn.{get_row_copy}

-- The transaction's copy of a row.
unfoldable pub copy_of : Env → Row → Row
unfolding Row.init
copy_of env r = record (Row.init env r.table r.part_id 0) { data_bytes = r.data_bytes }

pub data_bytes-copy_of : (env : Env) (r : Row) → (copy_of env r).data_bytes ≡ r.data_bytes
unfolding copy_of
data_bytes-copy_of env r = refl

pub table-copy_of : (env : Env) (r : Row) → (copy_of env r).table ≡ r.table
unfolding copy_of Row.init
table-copy_of env r = refl

-- A live row with a free latch and all its bytes.
pub record IsIdle (db : Database) (p : ℕ) (r : Row) : Type 0 where
  pub occ : RowOcc
  pub there : load db p ≡ ok r
  pub managed : r.manager ≡ some occ
  pub state : occ.latched ≡ false
  pub sized : length r.data_bytes ≡ get_tuple_size r

module _ (env : Env) (db : Database) (p : ℕ) (r : Row) (idle : IsIdle db p r) where
  abbrev locked : Row
  locked = record r { manager = some (record idle.occ { latched = true }) }

  latch-idle : latch r ≡ ok locked
  unfolding latch
  latch-idle = ground (arith, idle.managed, idle.state)

  -- the row when its latch was taken and given back
  relatched : record r { manager = some (record idle.occ { latched = false }) } ≡ r
  relatched =
      ap (λ b. record r { manager = some (record idle.occ { latched = b }) }) (sym idle.state)
      ∙ ap (λ o. record r { manager = o }) (sym idle.managed)

  copy-fresh : copy (Row.init env r.table r.part_id 0) locked ≡ ok (copy_of env r)
  unfolding Row.init copy_of
  copy-fresh =
      copy_lem (Row.init env r.table r.part_id 0) locked idle.sized
        (env.length-malloc (get_tuple_size r))

  pub get_row_copy-current :
      (start_ts : ℕ)
      → ltb start_ts idle.occ.wts ≡ false
      → get_row_copy env r start_ts ≡ ok (rcok, copy_of env r, r)
  unfolding get_row_copy access read_copy
  get_row_copy-current start_ts e =
      rw (latch-idle, e, copy-fresh) (ap (λ q. ok (rcok, copy_of env r, q)) relatched)

  pub get_row_copy-stale :
      (start_ts : ℕ)
      → ltb start_ts idle.occ.wts ≡ true
      → get_row_copy env r start_ts ≡ ok (abort, Row.init env r.table r.part_id 0, r)
  unfolding get_row_copy access read_copy
  get_row_copy-stale start_ts e =
      rw (latch-idle, e) (ap (λ q. ok (abort, Row.init env r.table r.part_id 0, q)) relatched)
