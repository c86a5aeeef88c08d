-- ===== src/Txn/Ids.antt =====
-- The fields of txn_man in Storage/System/txn.h that the work of a transaction does not touch, with their setters and
-- getters, and txn_man::release.
use data_agent_demo.Prelude.{ℕ, zero, suc, ◌≡◌, refl, List, [], ◌∷◌, ◌++◌, length}
use data_agent_demo.Run.{Run, ok, fault, out_of_bounds, ◌>>=◌}
use data_agent_demo.Thread.{Thread}
use data_agent_demo.Schema.{Workload}

record TxnIds : Type 0 where
  txn_id : ℕ
  timestamp : ℕ
  h_thd : Thread
  h_wl : Workload

unfoldable set_txn_id : TxnIds → ℕ → TxnIds
set_txn_id t txn_id = record t { txn_id = txn_id }

unfoldable get_txn_id : TxnIds → ℕ
get_txn_id t = t.txn_id

unfoldable get_wl : TxnIds → Workload
get_wl t = t.h_wl

unfoldable get_thd_id : TxnIds → ℕ
get_thd_id t = t.h_thd.thd_id

unfoldable set_ts : TxnIds → ℕ → TxnIds
set_ts t timestamp = record t { timestamp = timestamp }

-- `txn_man::get_ts`
unfoldable get_own_ts : TxnIds → ℕ
get_own_ts t = t.timestamp

-- What was set is read, and the thread stays.
set_then_get :
    (t : TxnIds) (txn_id timestamp : ℕ)
    → (get_txn_id (set_ts (set_txn_id t txn_id) timestamp) ≡ txn_id)
      × (get_own_ts (set_txn_id (set_ts t timestamp) txn_id) ≡ timestamp)
      × (get_thd_id (set_ts (set_txn_id t txn_id) timestamp) ≡ get_thd_id t)
      × (get_wl (set_ts (set_txn_id t txn_id) timestamp) ≡ get_wl t)
unfolding set_txn_id get_txn_id get_wl get_thd_id set_ts get_own_ts
set_then_get t txn_id timestamp = (refl, refl, refl, refl)

-- `release`: the blocks that are freed, which are the access of each slot and then the array of the slots.
unfoldable release_accesses : ℕ → List ℕ → ℕ → Run (List ℕ)
release_accesses zero slots array = ok (array ∷ [])
release_accesses (suc num) [] array = fault out_of_bounds
release_accesses (suc num) (access ∷ slots) array = do
  freed ← release_accesses num slots array
  ok (access ∷ freed)

-- With as many slots as `num_accesses_alloc` counts, each block is freed once.
release_accesses_lem :
    (slots : List ℕ) (array : ℕ)
    → release_accesses (length slots) slots array ≡ ok (slots ++ array ∷ [])
unfolding release_accesses
release_accesses_lem [] array = refl
release_accesses_lem (access ∷ slots) array = rw (release_accesses_lem slots array) refl
