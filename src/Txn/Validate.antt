-- ===== src/Txn/Validate.antt =====
-- Storage/concurrency_control/occ.cpp: `OptCC::validate`, and `txn_man::finish`, which calls it.
use data_agent_demo.Prelude.{
  ℕ, zero, suc, ◌-◌, Bool, true, false, List, [], ◌∷◌, ltb, if◌then◌else◌, take,
}
use data_agent_demo.Run.{out_of_bounds, null_pointer, Run, ok, fault, or_fault, ◌>>=◌}
use data_agent_demo.System.{Rc, rcok, abort, rcok?}
use data_agent_demo.Bytes.{negative, equal, positive, strcmp}
use data_agent_demo.Row.{Row, get_table_name}
use data_agent_demo.Row.Occ
use data_agent_demo.Row.Occ.{latch, release}
use data_agent_demo.Database.{Database, load, store, get_ts}
use data_agent_demo.Txn.{Access, Txn, cleanup}

-- `accesses[i]->orig_row`, dereferenced
unfoldable pub orig : Database → Access → Run (ℕ × Row)
orig db a = do p ← or_fault a.orig_row null_pointer; r ← load db p; ok (p, r)

-- the order of the rows by table name and primary key
unfoldable pub row_greater : Row → Row → Bool
row_greater r s = elim (strcmp (get_table_name r) (get_table_name s)) [
  | positive ↦ true
  | equal ↦ ltb s.primary_key r.primary_key
  | negative ↦ false
]

-- the test of the inner loop of the sort
unfoldable pub greater : Database → Access → Access → Run Bool
unfolding orig
greater db a b = do (_, r) ← orig db a; (_, s) ← orig db b; ok (row_greater r s)

-- the inner loop: `count` comparisons of neighbours, from the front
unfoldable pub bubble : Database → ℕ → List Access → Run (List Access)
unfolding greater
bubble db zero accesses = ok accesses
bubble db (suc count) (a ∷ b ∷ rest) = do
  swap ← greater db a b
  moved ← bubble db count ((if swap then a else b) ∷ rest)
  ok ((if swap then b else a) ∷ moved)
bubble db (suc count) _ = fault out_of_bounds

-- the outer loop, over `i`
unfoldable pub sort : Database → ℕ → List Access → Run (List Access)
unfolding bubble
sort db zero accesses = ok accesses
sort db (suc i) accesses = do moved ← bubble db (suc i) accesses; sort db i moved

-- The loop that latches and validates; it stops behind the first row that is too new. The results are whether
-- all rows passed, how many were latched, and the database.
unfoldable pub lock_rows : ℕ → List Access → Database → Run (Bool × ℕ × Database)
unfolding orig latch Occ.validate
lock_rows start_ts [] db = ok (true, 0, db)
lock_rows start_ts (a ∷ rest) db = do
  (p, r) ← orig db a
  r' ← latch r
  passed ← Occ.validate r' start_ts
  let locked = store db p r'
  let later = (do (all, n, db') ← lock_rows start_ts rest locked; ok (all, suc n, db'))
  if passed then later else ok (false, 1, locked)

-- the last loop, over the rows that were latched
unfoldable pub release_rows : ℕ → List Access → Database → Run Database
unfolding orig release
release_rows zero accesses db = ok db
release_rows (suc n) [] db = fault out_of_bounds
release_rows (suc n) (a ∷ rest) db = do
  (p, r) ← orig db a
  r' ← release r
  release_rows n rest (store db p r')

-- what follows the latching: a new time and the writes, or the clean-up of an abort
unfoldable pub conclude : Bool → Txn → Database → Run (Rc × Txn × Database)
unfolding get_ts cleanup
conclude true t db = do
  let (end_ts, db₁) = get_ts db
  (t', db₂) ← cleanup rcok (record t { end_ts = end_ts }) db₁
  ok (rcok, t', db₂)
conclude false t db = do (t', db') ← cleanup abort t db; ok (abort, t', db')

unfoldable pub validate : Txn → Database → Run (Rc × Txn × Database)
unfolding sort lock_rows conclude release_rows
validate t db = do
  sorted ← sort db (t.row_cnt - 1) t.accesses
  (passed, lock_cnt, locked) ← lock_rows t.start_ts (take t.row_cnt sorted) db
  (rc, t', concluded) ← conclude passed (record t { accesses = sorted; lock_cnt = lock_cnt }) locked
  released ← release_rows lock_cnt t'.accesses concluded
  ok (rc, t', released)

-- `txn_man::finish`
unfoldable pub finish : Rc → Txn → Database → Run (Rc × Txn × Database)
unfolding validate cleanup rcok?
finish rc t db =
    if rcok? rc then validate t db else (do (t', db') ← cleanup rc t db; ok (rc, t', db'))
