-- ===== src/Overlap.antt =====
-- OptCC::validate of Storage/concurrency_control/occ.cpp in several threads at once, an access to shared memory at a
-- time: one round of a loop, or one call of `get_ts`, is a step. A `get_row` holds one latch from its start to its
-- end and is one step, which waits while the row is latched. The sort is one step too, since it looks at names of tables
-- and at primary keys only, which no step changes. The transactions here insert no rows, and end before the 64-bit
-- clock wraps around. A thread runs its transactions one after the other, as many as it likes.
pub mod Store
pub mod Moves
pub mod Own
pub mod Rounds
pub mod Turn
pub mod Latch
pub mod Unlatch
pub mod Install
pub mod Plain
pub mod Entries
pub mod Steps
pub mod Changes
pub mod Advance
pub mod Reached
pub mod Commits
pub mod Ranks
pub mod Order
pub mod Waiting
pub mod Progress
pub mod Deadlock
pub mod Alone
pub mod Whole
pub mod Written
pub mod Installed
use data_agent_demo.Prelude.{
  ℕ, zero, suc, ◌+◌, ◌-◌, ◌<◌, ◌≤◌, ◌≡◌, ◌≢◌, Bool, true, false, some, none, List, [], ◌∷◌, ◌++◌,
  length, get_elem?, set, ltb, ◌==◌, if◌then◌else◌,
}
use data_agent_demo.Run.{out_of_bounds, Run, ok, or_fault, ◌>>=◌}
use data_agent_demo.System.{rcok, AccessType, rd, wr, word64, max_row_per_txn}
use data_agent_demo.Env.{Env}
use data_agent_demo.Row.{Row, RowOcc}
use data_agent_demo.Row.Occ
use data_agent_demo.Row.Occ.{latch, release}
use data_agent_demo.Database.{Database, load, store, get_ts}
use data_agent_demo.Txn.{Access, get_row_copy, return_row}
use data_agent_demo.Txn.Validate.{orig, sort}

-- Where a thread stands. `count` rows are latched; `rid` entries are still to be given back, from the last to the
-- first; of `lock_cnt` latched rows those before `from` are released.
pub data Phase : Type 0 where
  ended : Phase
  running : Phase
  latching : (count : ℕ) → Phase
  installing : (end_ts rid : ℕ) → Phase
  releasing : (from lock_cnt : ℕ) → Phase

-- A thread's transaction: its start, and the entries of its access set that are in use.
pub record Worker : Type 0 where
  pub start_ts : ℕ
  pub entries : List Access
  pub phase : Phase

-- a round of the latching loop; an abort gives the copies back, which touches no row
unfoldable pub latch_next : Database → Worker → ℕ → Run (Database × Phase)
unfolding orig latch Occ.validate
latch_next db w n = do
  acc ← or_fault (get_elem? w.entries n) out_of_bounds
  (p, r) ← orig db acc
  r' ← latch r
  passed ← Occ.validate r' w.start_ts
  ok (store db p r', if passed then latching (n + 1) else releasing 0 (n + 1))

-- a round of the first loop of `cleanup`, in a commit; the copy goes back, and is not looked at again
unfoldable pub install_next : Database → Worker → ℕ → ℕ → Run (Database × Phase)
unfolding return_row
install_next db w end_ts rid = do
  acc ← or_fault (get_elem? w.entries rid) out_of_bounds
  db' ← return_row db acc.orig_row acc.type acc.local end_ts
  ok (db', installing end_ts rid)

-- a round of the loop that releases
unfoldable pub release_next : Database → Worker → ℕ → ℕ → Run (Database × Phase)
unfolding orig release
release_next db w from lock_cnt = do
  acc ← or_fault (get_elem? w.entries from) out_of_bounds
  (p, r) ← orig db acc
  r' ← release r
  ok (store db p r', releasing (from + 1) lock_cnt)

-- The next step of a thread in `validate`. On a latch that another holds it is a fault: the thread waits.
unfoldable pub advance : Database → Worker → Phase → Run (Database × Phase)
unfolding latch_next install_next release_next get_ts
advance db w ended = ok (db, ended)
advance db w running = ok (db, running)
advance db w (latching n) =
    if ltb n (length w.entries)
    then latch_next db w n
    else ok ((get_ts db).1, installing (get_ts db).0 (length w.entries))
advance db w (installing end_ts zero) = ok (db, releasing 0 (length w.entries))
advance db w (installing end_ts (suc rid)) = install_next db w end_ts rid
advance db w (releasing from lock_cnt) =
    if ltb from lock_cnt then release_next db w from lock_cnt else ok (db, ended)

pub record Machine : Type 0 where
  pub db : Database
  pub workers : ℕ → Worker

abbrev pub update {ℓ} : {A : Type ℓ} → (ℕ → A) → ℕ → A → ℕ → A
update f i a j = if i == j then a else f j

-- the machine in which thread `i` has moved on
abbrev pub moved : Machine → ℕ → Database → Worker → Machine
moved s i db w = record { db = db; workers = update s.workers i w }

pub data Step (env : Env) (s : Machine) : Machine → Type 0 where
  begins :
      (i : ℕ)
      → (s.workers i).phase ≡ ended
      → s.db.timestamp + 1 < word64
      → Step env s (
          moved s i
            (get_ts s.db).1
            (record { start_ts = (get_ts s.db).0; entries = []; phase = running }))
  reads :
      (i p : ℕ) (r r' copied : Row) (type : AccessType)
      → (s.workers i).phase ≡ running
      → load s.db p ≡ ok r
      → ((k : ℕ) (a : Access) → get_elem? (s.workers i).entries k ≡ some a → a.orig_row ≢ some p)
      → get_row_copy env r (s.workers i).start_ts ≡ ok (rcok, copied, r')
      → Step env s (
          moved s i (store s.db p r') (record (s.workers i) {
            entries =
                (s.workers i).entries
                ++ record { type = type; orig_row = some p; local = some copied } ∷ [];
            phase = running;
          }))
  edits :
      (i k : ℕ) (a : Access) (l l' : Row)
      → (s.workers i).phase ≡ running
      → get_elem? (s.workers i).entries k ≡ some a
      → a.local ≡ some l
      → l'.table ≡ l.table
      → length l'.data_bytes ≡ length l.data_bytes
      → Step env s (
          moved s i s.db (record (s.workers i) {
            entries = set (s.workers i).entries k (record a { type = wr; local = some l' });
            phase = running;
          }))
  quits :
      (i : ℕ)
      → (s.workers i).phase ≡ running
      → Step env s (moved s i s.db (record (s.workers i) { phase = ended }))
  validates :
      (i : ℕ) (sorted : List Access)
      → (s.workers i).phase ≡ running
      → sort s.db (length (s.workers i).entries - 1) (s.workers i).entries ≡ ok sorted
      → Step env s (moved s i s.db (record (s.workers i) { entries = sorted; phase = latching 0 }))
  advances :
      (i : ℕ) (db' : Database) (phase' : Phase)
      → s.db.timestamp + 1 < word64
      → advance s.db (s.workers i) (s.workers i).phase ≡ ok (db', phase')
      → Step env s (moved s i db' (record (s.workers i) { phase = phase' }))

pub data Reach (env : Env) (s : Machine) : Machine → Type 0 where
  here : Reach env s s
  next : {t u : Machine} → Reach env s t → Step env t u → Reach env s u

-- the entries whose latches the thread holds, from and to
abbrev pub span : Phase → ℕ → ℕ × ℕ
span ended n = (0, 0)
span running n = (0, 0)
span (latching count) n = (0, count)
span (installing end_ts rid) n = (0, n)
span (releasing from lock_cnt) n = (from, lock_cnt)

-- The thread holds the latch of the row at `p`.
pub record Holds (w : Worker) (p : ℕ) : Type 0 where
  pub place : ℕ
  pub entry : Access
  pub from : (span w.phase (length w.entries)).0 ≤ place
  pub to : place < (span w.phase (length w.entries)).1
  pub at : get_elem? w.entries place ≡ some entry
  pub row : entry.orig_row ≡ some p
