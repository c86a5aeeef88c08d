-- ===== src/Row/Occ.antt =====
-- Storage/concurrency_control/occ_row.cpp: the concurrency control of one row. A `Row_occ` and its row point
-- to each other, so each function takes and returns the row. The latch is a mutex that is not recursive.
use data_agent_demo.Prelude.{ℕ, Bool, true, false, not, some, ltb, if◌then◌else◌}
use data_agent_demo.Run.{
  assertion, deadlock, not_locked, null_pointer, Run, ok, fault, check, or_fault, ◌>>=◌, ◌>>◌,
}
use data_agent_demo.System.{Rc, rcok, abort, TsType, r_req, per_row_valid}
use data_agent_demo.Row.{Row, RowOcc, copy}

-- `Row_occ::init`, called by `row_t::init_manager`
unfoldable pub init_manager : Row → Row
init_manager r = record r { manager = some (record { latched = false; wts = 0 }) }

-- `row->manager->…`
unfoldable pub manager : Row → Run RowOcc
manager r = or_fault r.manager null_pointer

-- `pthread_mutex_lock (_latch)`
unfoldable pub latch : Row → Run Row
unfolding manager
latch r = do
  m ← manager r
  check (not m.latched) deadlock
  ok (record r { manager = some (record m { latched = true }) })

-- `pthread_mutex_unlock (_latch)`
unfoldable pub release : Row → Run Row
unfolding manager
release r = do
  m ← manager r
  check m.latched not_locked
  ok (record r { manager = some (record m { latched = false }) })

-- what `access` does under the latch
unfoldable pub read_copy : Row → Row → ℕ → TsType → Run (Rc × Row)
unfolding manager
read_copy r cur_row start_ts r_req = do
  m ← manager r
  if ltb start_ts m.wts then ok (abort, cur_row) else do copied ← copy cur_row r; ok (rcok, copied)
read_copy r cur_row start_ts _ = fault assertion

-- The result code, the transaction's `cur_row` and the row itself.
unfoldable pub access : Row → Row → ℕ → TsType → Run (Rc × Row × Row)
unfolding latch release read_copy
access r cur_row start_ts type = do
  locked ← latch r
  (rc, copied) ← read_copy locked cur_row start_ts type
  unlocked ← release locked
  ok (rc, copied, unlocked)

-- `ts` is the start time of the validating transaction.
unfoldable pub validate : Row → ℕ → Run Bool
unfolding manager
validate r ts = do m ← manager r; if ltb ts m.wts then ok false else ok true

-- the part of `write` under `if (PER_ROW_VALID)`
stamp : Row → ℕ → Run Row
unfolding manager
stamp r ts = do
  m ← manager r
  check (ltb m.wts ts) assertion
  ok (record r { manager = some (record m { wts = ts }) })

unfoldable pub write : Row → Row → ℕ → Run Row
unfolding stamp
write r src ts = do copied ← copy r src; if per_row_valid then stamp copied ts else ok copied
