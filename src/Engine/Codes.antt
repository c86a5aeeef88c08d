-- ===== src/Engine/Codes.antt =====
-- Which codes the calls of Server/kv_api.cpp can return, and what they leave of the handle.
use data_agent_demo.Prelude.{◌≡◌, ◌⊎◌, refl, Bool, true, false, Option, none, some, arith}
use data_agent_demo.Run.{ok, >>=-eq-ok}
use data_agent_demo.System
use data_agent_demo.System.{rcok?}
use data_agent_demo.Env.{Env}
use data_agent_demo.Bytes.{Bytes}
use data_agent_demo.Txn.{Txn}
use data_agent_demo.Txn.Validate.{finish}
use data_agent_demo.Txn.Ops
use data_agent_demo.Engine.{
  Rc, ok_rc, not_found, abort, error, TxnHandle, Engine, get, put, commit, abort_txn,
}

abbrev pub is_some {ℓ} : {A : Type ℓ} → Option A → Bool
is_some none = false
is_some (some a) = true

-- The codes of a call on a handle: ERROR exactly for a handle with no transaction, and otherwise one of two.
abbrev pub Answers : Rc → Rc → TxnHandle → Rc → Type 0
Answers good bad h rc =
    ((is_some h.impl ≡ false) × (rc ≡ error))
    ⊎ ((is_some h.impl ≡ true) × ((rc ≡ good) ⊎ (rc ≡ bad)))

module _ (env : Env) (e : Engine) (h : TxnHandle) where
  -- A `get` without a fault answers OK or NOT_FOUND on an open handle, never ABORT, and leaves it open; on any
  -- other handle it answers ERROR.
  pub get-Answers :
      (key value_out : Bytes) (rc : Rc) (value : Bytes) (h' : TxnHandle) (e' : Engine)
      → get env e h key value_out ≡ ok (rc, value, h', e')
      → Answers ok_rc not_found h rc × (is_some h'.impl ≡ is_some h.impl)
  unfolding get
  get-Answers key value_out rc value h' e' eq = by_impl h.impl refl
    where
      by_impl :
          (o : Option Txn)
          → h.impl ≡ o
          → Answers ok_rc not_found h rc × (is_some h'.impl ≡ is_some h.impl)
      by_impl none i = ground arith
      by_impl (some t) i =
          let (r, f, g) = >>=-eq-ok (Ops.read env t e.db key value_out) _ (rw (i, get) at eq) in
          ground arith

  -- A `put` without a fault answers OK or ERROR on an open handle, never ABORT, and leaves it open; on any other
  -- handle it answers ERROR.
  pub put-Answers :
      (key value : Bytes) (rc : Rc) (h' : TxnHandle) (e' : Engine)
      → put env e h key value ≡ ok (rc, h', e')
      → Answers ok_rc error h rc × (is_some h'.impl ≡ is_some h.impl)
  unfolding put
  put-Answers key value rc h' e' eq = by_impl h.impl refl
    where
      by_impl :
          (o : Option Txn)
          → h.impl ≡ o
          → Answers ok_rc error h rc × (is_some h'.impl ≡ is_some h.impl)
      by_impl none i = ground arith
      by_impl (some t) i =
          let (r, f, g) = >>=-eq-ok (Ops.write env t e.db key value) _ (rw (i, put) at eq) in
          ground arith

module _ (e : Engine) (h : TxnHandle) where
  -- A `commit` without a fault answers OK or ABORT on an open handle, ERROR on any other, and leaves it closed.
  pub commit-Answers :
      (rc : Rc) (h' : TxnHandle) (e' : Engine)
      → commit e h ≡ ok (rc, h', e')
      → Answers ok_rc abort h rc × (is_some h'.impl ≡ false)
  unfolding commit
  commit-Answers rc h' e' eq = by_impl h.impl refl
    where
      by_impl : (o : Option Txn) → h.impl ≡ o → Answers ok_rc abort h rc × (is_some h'.impl ≡ false)
      by_impl none i = ground arith
      by_impl (some t) i =
          let (r, f, g) = >>=-eq-ok (finish System.rcok t e.db) _ (rw (i, commit) at eq) in
          ground arith

  -- An `abort_txn` without a fault answers OK on an open handle, ERROR on any other, and leaves it closed.
  pub abort_txn-Answers :
      (rc : Rc) (h' : TxnHandle) (e' : Engine)
      → abort_txn e h ≡ ok (rc, h', e')
      → Answers ok_rc ok_rc h rc × (is_some h'.impl ≡ false)
  unfolding abort_txn
  abort_txn-Answers rc h' e' eq = by_impl h.impl refl
    where
      by_impl : (o : Option Txn) → h.impl ≡ o → Answers ok_rc ok_rc h rc × (is_some h'.impl ≡ false)
      by_impl none i = ground arith
      by_impl (some t) i =
          let (r, f, g) = >>=-eq-ok (finish System.abort t e.db) _ (rw (i, abort_txn) at eq) in
          ground arith
