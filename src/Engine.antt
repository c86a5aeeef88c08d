-- ===== src/Engine.antt =====
-- Server/kv_api.h and kv_api.cpp: the transactions of the key-value interface, on one database. The thread
-- object of a transaction only gives it the number 0.
pub mod Codes
pub mod Conflicts
pub mod Start
use data_agent_demo.Prelude.{
  ℕ, ◌+◌, ◌%◌, ◌≡◌, Bool, true, false, ◌&&◌, Option, none, some, List, [], ◌∷◌, if◌then◌else◌,
}
use data_agent_demo.Run.{Run, ok, ◌>>=◌}
use data_agent_demo.System
use data_agent_demo.System.{word64, rcok?}
use data_agent_demo.Env.{Env}
use data_agent_demo.Bytes.{Bytes}
use data_agent_demo.Row.{Row, set_primary_key}
use data_agent_demo.IndexHash.{index_insert}
use data_agent_demo.Database.{Database, load, store, get_ts, get_new_row}
use data_agent_demo.Txn
use data_agent_demo.Txn.{Txn}
use data_agent_demo.Txn.Validate.{finish}
use data_agent_demo.Txn.Ops
use data_agent_demo.Txn.Ops.{fill, row_item}

-- `enum class Rc`
pub data Rc : Type 0 where
  ok_rc not_found abort error : Rc

-- `impl` points to the transaction that the handle owns.
pub record TxnHandle : Type 0 where
  pub impl : Option Txn
  pub id : ℕ

-- The globals: the database, and `g_txn_id`.
pub record Engine : Type 0 where
  pub db : Database
  pub g_txn_id : ℕ

abbrev committed? : System.Rc → Bool
committed? System.rcok = true
committed? System.commit = true
committed? _ = false

-- `begin_txn`
unfoldable pub begin_txn : Engine → TxnHandle → Rc × TxnHandle × Engine
unfolding Txn.init get_ts
begin_txn e h =
    let (ts, db) = get_ts e.db in
    (
      ok_rc,
      record { impl = some (record (Txn.init 0) { start_ts = ts }); id = e.g_txn_id },
      record { db = db; g_txn_id = (e.g_txn_id + 1) % word64 },
    )

-- the handle and the engine after a call on the transaction
abbrev with_txn : TxnHandle → Txn → TxnHandle
with_txn h t = record h { impl = some t }

-- `get`: the code, `value_out`, the handle and the engine.
get_in : Env → Engine → TxnHandle → Txn → Bytes → Bytes → Run (Rc × Bytes × TxnHandle × Engine)
unfolding Ops.read rcok?
get_in env e h t key value_out = do
  (rc, value, t', db) ← Ops.read env t e.db key value_out
  ok (if rcok? rc then ok_rc else not_found, value, with_txn h t', record e { db = db })

unfoldable pub get :
    Env → Engine → TxnHandle → Bytes → Bytes → Run (Rc × Bytes × TxnHandle × Engine)
unfolding get_in
get env e h key value_out = elim h.impl [
  | none ↦ ok (error, value_out, h, e)
  | some t ↦ get_in env e h t key value_out
]

-- `put`
put_in : Env → Engine → TxnHandle → Txn → Bytes → Bytes → Run (Rc × TxnHandle × Engine)
unfolding Ops.write rcok?
put_in env e h t key value = do
  (rc, t', db) ← Ops.write env t e.db key value
  ok (if rcok? rc then ok_rc else error, with_txn h t', record e { db = db })

unfoldable pub put : Env → Engine → TxnHandle → Bytes → Bytes → Run (Rc × TxnHandle × Engine)
unfolding put_in
put env e h key value = elim h.impl [
  | none ↦ ok (error, h, e)
  | some t ↦ put_in env e h t key value
]

-- `commit`
commit_in : Engine → TxnHandle → Txn → Run (Rc × TxnHandle × Engine)
unfolding finish
commit_in e h t = do
  (rc, t', db) ← finish System.rcok t e.db
  ok (if committed? rc then ok_rc else abort, record h { impl = none }, record e { db = db })

unfoldable pub commit : Engine → TxnHandle → Run (Rc × TxnHandle × Engine)
unfolding commit_in
commit e h = elim h.impl [ none ↦ ok (error, h, e) | some t ↦ commit_in e h t ]

-- `abort_txn`
abort_in : Engine → TxnHandle → Txn → Run (Rc × TxnHandle × Engine)
unfolding finish
abort_in e h t = do
  (rc, t', db) ← finish System.abort t e.db
  ok (ok_rc, record h { impl = none }, record e { db = db })

unfoldable pub abort_txn : Engine → TxnHandle → Run (Rc × TxnHandle × Engine)
unfolding abort_in
abort_txn e h = elim h.impl [ none ↦ ok (error, h, e) | some t ↦ abort_in e h t ]

-- One round of the loading loop of `init_engine`: whether the record was loaded. `get_new_row` has no other
-- code than RCOK, so the branch on its other codes is left out.
unfoldable pub load_record : Env → Database → Bytes → Bytes → Run (Bool × Database)
unfolding get_new_row set_primary_key fill index_insert finish Txn.init rcok?
load_record env db key_str value_str = do
  let txn : Txn = Txn.init 0
  let (_, p, row_id, db₁) = get_new_row env db 0
  new_row ← load db₁ p
  filled ← fill (set_primary_key new_row (env.hash key_str)) key_str value_str
  let db₂ = store db₁ p filled
  (rc, index) ← index_insert db₂.index (env.hash key_str) (row_item p) 0
  (rc', txn', db₃) ←
      finish (if rcok? rc then rc else System.abort) txn (record db₂ { index = index })
  ok (rcok? rc && committed? rc', db₃)

-- the loop, with `loaded_count`
unfoldable pub load_records : Env → Database → List (Bytes × Bytes) → ℕ → Run (ℕ × Database)
unfolding load_record
load_records env db [] loaded_count = ok (loaded_count, db)
load_records env db ((key, value) ∷ rest) loaded_count = do
  (loaded, db') ← load_record env db key value
  load_records env db' rest (if loaded then loaded_count + 1 else loaded_count)
