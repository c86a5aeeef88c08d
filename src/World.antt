-- ===== src/World.antt =====
-- Several transactions on one database: the interleavings of their calls as steps. A call of
-- Storage/System/txn.cpp or concurrency_control/occ.cpp is one step. In the histories of steps no rows are
-- inserted, and the clock does not wrap around.
pub mod Alls
pub mod Evolve
pub mod Visit
pub mod Change
pub mod Revisit
pub mod Finish
pub mod Outcome
pub mod Settle
pub mod Histories
pub mod Race
pub mod Latches
pub mod Begun
pub mod Dirty
use data_agent_demo.Prelude.{
  ℕ, ◌+◌, ◌<◌, ◌≤◌, ◌≡◌, ◌⊎◌, Option, some, List, [], ◌∷◌, ◌++◌, get_elem?,
}
use data_agent_demo.Run.{ok}
use data_agent_demo.System.{Rc, rcok, abort, AccessType, rd, wr, word64, max_row_per_txn}
use data_agent_demo.Env.{Env}
use data_agent_demo.Bytes.{Bytes}
use data_agent_demo.Row.{Row, RowOcc, set_value}
use data_agent_demo.Database.{Database, load, get_ts}
use data_agent_demo.Txn
use data_agent_demo.Txn.{Access, Txn, find_pos, rd?, get_row}
use data_agent_demo.Txn.Validate.{finish}
use data_agent_demo.Txn.Ops.{local_row, set_local}
use data_agent_demo.Txn.Accesses.{All}
use data_agent_demo.Txn.Opened.{IsOpen}
use data_agent_demo.Txn.Copies.{IsIdle}

-- The shared database, and the open transactions.
pub record World : Type 0 where
  pub db : Database
  pub txns : List Txn

-- What a transaction does between its start and its end: it gets the copy of a live row, for reading or for
-- writing, or it sets a column of a copy that it got for writing.
pub data Act (env : Env) (db : Database) (t t' : Txn) (db' : Database) : Type 0 where
  visits :
      (p : ℕ) (r : Row) (type : AccessType) (got : Option ℕ)
      → load db p ≡ ok r
      → t.row_cnt < max_row_per_txn
      → get_row env t db p type ≡ ok (got, t', db')
      → Act env db t t' db'
  sets :
      (pos : ℕ) (a : Access) (l l' : Row) (id : ℕ) (ptr : Bytes)
      → pos < t.row_cnt
      → get_elem? t.accesses pos ≡ some a
      → a.type ≡ wr
      → local_row t pos ≡ ok l
      → set_value l id ptr ≡ ok l'
      → set_local t pos l' ≡ ok t'
      → db' ≡ db
      → Act env db t t' db'

-- the transaction that begins at a time
unfoldable pub begun : ℕ → ℕ → Txn
unfolding Txn.init
begun thd_id ts = record (Txn.init thd_id) { start_ts = ts }

pub data Step (env : Env) (w w' : World) : Type 0 where
  begins :
      (thd_id : ℕ)
      → w.db.timestamp + 1 < word64
      → w' ≡ record { db = (get_ts w.db).1; txns = begun thd_id (get_ts w.db).0 ∷ w.txns }
      → Step env w w'
  acts :
      (before after : List Txn) (t t' : Txn) (db' : Database)
      → w.txns ≡ before ++ t ∷ after
      → Act env w.db t t' db'
      → w' ≡ record { db = db'; txns = before ++ t' ∷ after }
      → Step env w w'
  ends :
      (before after : List Txn) (t t' : Txn) (db' : Database) (asked rc : Rc)
      → (asked ≡ rcok) ⊎ (asked ≡ abort)
      → w.txns ≡ before ++ t ∷ after
      → w.db.timestamp + 1 < word64
      → finish asked t w.db ≡ ok (rc, t', db')
      → w' ≡ record { db = db'; txns = before ++ after }
      → Step env w w'

pub data Reach (env : Env) (w : World) : World → Type 0 where
  here : Reach env w w
  next : {u v : World} → Reach env w u → Step env u v → Reach env w v

-- A live row at rest: its latch is free, it has all its bytes, and it was written before the present time.
abbrev pub RowRests : Database → ℕ → Row → Type 0
RowRests db p r = (idle : IsIdle db p r) × (idle.occ.wts < db.timestamp)

-- Every live row rests.
pub record Rested (db : Database) : Type 0 where
  pub rows : (p : ℕ) (r : Row) → load db p ≡ ok r → RowRests db p r

-- The transaction finds the row of the entry again by its key.
abbrev pub Indexed : Txn → Database → Access → Type 0
Indexed t db a =
    (p : ℕ) (r : Row)
    → a.orig_row ≡ some p
    → load db p ≡ ok r
    → (pos : ℕ) × (find_pos r.primary_key t.record_pos ≡ some pos)

-- If the row of an entry for reading was not written after the start, the copy still has its bytes.
abbrev pub Seen : ℕ → Database → Access → Type 0
Seen start_ts db a =
    (p : ℕ) (r l : Row) (m : RowOcc)
    → a.orig_row ≡ some p
    → load db p ≡ ok r
    → r.manager ≡ some m
    → a.local ≡ some l
    → a.type ≡ rd
    → m.wts ≤ start_ts
    → l.data_bytes ≡ r.data_bytes

-- An open transaction in order.
pub record Active (t : Txn) (db : Database) : Type 0 where
  pub open_set : IsOpen t db
  pub none_inserted : t.insert_rows ≡ []
  pub started : t.start_ts < db.timestamp
  pub indexed : All (Indexed t db) open_set.used
  pub placed : (key pos : ℕ) → find_pos key t.record_pos ≡ some pos → pos < t.row_cnt
  pub seen : All (Seen t.start_ts db) open_set.used

pub record Sane (w : World) : Type 0 where
  pub rested : Rested w.db
  pub active : All (λ t. Active t w.db) w.txns
