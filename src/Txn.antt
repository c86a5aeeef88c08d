-- ===== src/Txn.antt =====
-- Storage/System/txn.h and txn.cpp: one transaction and its access set. The methods take and return the
-- transaction and the database. `row_t::get_row` and `row_t::return_row` of DataFormat/row.cpp, which work on
-- the transaction, are here too, and `OptCC::validate`, which `finish` calls, is in Txn/Validate.
pub mod Validate
pub mod Opened
pub mod Commit
pub mod Accesses
pub mod Passes
pub mod Release
pub mod Ends
pub mod Returns
pub mod Sort
pub mod Order
pub mod Ascends
pub mod Stages
pub mod Ops
pub mod Abort
pub mod Copies
pub mod Open
pub mod Sets
pub mod Insert
pub mod KeyRows
pub mod OwnWrites
pub mod Ids
use data_agent_demo.Prelude.{
  ℕ, zero, suc, ◌+◌, ◌≡◌, Bool, true, false, not, ◌&&◌, Option, none, some, List, [], ◌∷◌, ◌++◌,
  ltb, ◌==◌, if◌then◌else◌, length, get_elem?, set,
}
use data_agent_demo.Run.{
  Fault, out_of_bounds, assertion, null_pointer, Run, ok, fault, check, or_fault, ◌>>=◌, ◌>>◌,
}
use data_agent_demo.System.{
  Rc, rcok, abort, AccessType, rd, wr, xp, scan, TsType, r_req, max_row_per_txn,
}
use data_agent_demo.Env.{Env}
use data_agent_demo.Row
use data_agent_demo.Row.{Row}
use data_agent_demo.Row.Occ.{access, write}
use data_agent_demo.Database.{Database, load, store, free}

-- `data` is the transaction's own copy of the row, held by value: only this entry points to it. An entry that
-- `memset` has cleared has neither pointer.
pub record Access : Type 0 where
  pub type : AccessType
  pub orig_row : Option ℕ
  pub local : Option Row

abbrev pub cleared : Access
cleared = record { type = rd; orig_row = none; local = none }

-- `accesses` are the allocated entries, `num_accesses_alloc` in number, of which `row_cnt` are in use;
-- `insert_rows` are the `insert_cnt` inserted rows, the newest last.
pub record Txn : Type 0 where
  pub thd_id : ℕ
  pub start_ts : ℕ
  pub end_ts : ℕ
  pub row_cnt : ℕ
  pub wr_cnt : ℕ
  pub lock_cnt : ℕ
  pub accesses : List Access
  pub record_pos : List (ℕ × ℕ)
  pub insert_rows : List ℕ

-- `txn_man::init`, on an object whose other fields are zero
unfoldable pub init : ℕ → Txn
init thd_id = record {
  thd_id = thd_id;
  start_ts = 0;
  end_ts = 0;
  row_cnt = 0;
  wr_cnt = 0;
  lock_cnt = 0;
  accesses = [];
  record_pos = [];
  insert_rows = [];
}

-- `record_pos.find (key)`
unfoldable pub find_pos : ℕ → List (ℕ × ℕ) → Option ℕ
find_pos key [] = none
find_pos key ((k, pos) ∷ rest) = if k == key then some pos else find_pos key rest

abbrev pub rd? : AccessType → Bool
rd? rd = true
rd? _ = false

abbrev pub wr? : AccessType → Bool
wr? wr = true
wr? _ = false

abbrev pub abort? : Rc → Bool
abort? abort = true
abort? _ = false

-- `accesses[i] = …`, where the entry at the end may be new
unfoldable pub put_access : List Access → ℕ → Access → List Access
put_access [] i a = a ∷ []
put_access (x ∷ xs) zero a = a ∷ xs
put_access (x ∷ xs) (suc i) a = x ∷ put_access xs i a

-- the entry that `get_row` finds at `accesses[row_cnt]`, or allocates there
abbrev pub entry_at : List Access → ℕ → Access
entry_at xs i = elim (get_elem? xs i) [ none ↦ cleared | some a ↦ a ]

-- `row_t::get_row`: the code, the copy and the row, whose latch was taken and given back.
unfoldable pub get_row_copy : Env → Row → ℕ → Run (Rc × Row × Row)
unfolding access Row.init
get_row_copy env r start_ts = access r (Row.init env r.table r.part_id 0) start_ts r_req

-- `txn_man::get_row` for a row that the transaction has in its access set, at `pos`. The result is the number
-- of the entry whose copy `acc->data` points to.
unfoldable pub revisit : Txn → Database → AccessType → ℕ → Run (Option ℕ × Txn × Database)
revisit t db type pos = do
  acc ← or_fault (get_elem? t.accesses pos) out_of_bounds
  let upgrade = rd? acc.type && wr? type
  let acc' = if upgrade then record acc { type = wr } else acc
  ok (
    elim acc.local [ none ↦ none | some l ↦ some pos ],
    record t {
      accesses = set t.accesses pos acc';
      wr_cnt = if upgrade then t.wr_cnt + 1 else t.wr_cnt;
    },
    db,
  )

-- `txn_man::get_row` for the row `r` at address `p`, with no entry in the access set yet.
visit : Env → Txn → Database → AccessType → ℕ → Row → Run (Option ℕ × Txn × Database)
unfolding get_row_copy put_access
visit env t db type p r = do
  check (ltb t.row_cnt max_row_per_txn) out_of_bounds
  let entry = entry_at t.accesses t.row_cnt
  (rc, copied, r') ← get_row_copy env r t.start_ts
  let db' = store db p r'
  if abort? rc
      then ok (
        none,
        record t {
          accesses = put_access t.accesses t.row_cnt (record entry { local = some copied });
        },
        db',
      )
      else ok (
        some t.row_cnt,
        record t {
          accesses =
              put_access t.accesses t.row_cnt
                (record { type = type; orig_row = some p; local = some copied });
          record_pos = (r.primary_key, t.row_cnt) ∷ t.record_pos;
          row_cnt = t.row_cnt + 1;
          wr_cnt = if wr? type then t.wr_cnt + 1 else t.wr_cnt;
        },
        db',
      )

unfoldable pub get_row : Env → Txn → Database → ℕ → AccessType → Run (Option ℕ × Txn × Database)
unfolding revisit visit find_pos
get_row env t db p type = do
  r ← load db p
  elim (find_pos r.primary_key t.record_pos) [
    | some pos ↦ revisit t db type pos
    | none ↦ visit env t db type p r
  ]

unfoldable pub insert_row : Txn → ℕ → Run Txn
insert_row t p = do
  check (ltb (length t.insert_rows) max_row_per_txn) assertion
  ok (record t { insert_rows = t.insert_rows ++ p ∷ [] })

-- `row_t::return_row` on the row at `p`; the transaction's copy is given back, and is not used again.
unfoldable pub return_row : Database → Option ℕ → AccessType → Option Row → ℕ → Run Database
return_row db orig type local end_ts = do
  copy ← or_fault local assertion
  if wr? type
      then (do
        p ← or_fault orig null_pointer
        r ← load db p
        r' ← write r copy end_ts
        ok (store db p r'))
      else ok db

-- the first loop of `cleanup`, from the last entry in use to the first
unfoldable pub return_rows : Rc → ℕ → ℕ → List Access → Database → Run (List Access × Database)
unfolding return_row
return_rows rc end_ts zero accesses db = ok (accesses, db)
return_rows rc end_ts (suc rid) accesses db = do
  acc ← or_fault (get_elem? accesses rid) out_of_bounds
  let type = if wr? acc.type && abort? rc then xp else acc.type
  db' ← return_row db acc.orig_row type acc.local end_ts
  return_rows rc end_ts rid (set accesses rid (record acc { local = none })) db'

-- the second loop: the bytes of the row are freed through it, then the row
unfoldable pub free_rows : List ℕ → Database → Run Database
free_rows [] db = ok db
free_rows (p ∷ ps) db = do r ← load db p; free_rows ps (free db p)

unfoldable pub cleanup : Rc → Txn → Database → Run (Txn × Database)
unfolding return_rows free_rows
cleanup rc t db = do
  (accesses, returned) ← return_rows rc t.end_ts t.row_cnt t.accesses db
  db' ← (if abort? rc then free_rows t.insert_rows returned else ok returned)
  ok (
    record t { accesses = accesses; row_cnt = 0; wr_cnt = 0; insert_rows = []; record_pos = [] },
    db',
  )
