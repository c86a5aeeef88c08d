-- ===== src/Manager.antt =====
-- Storage/System/manager.h and manager.cpp, less the clock, which is the database's `timestamp`.
use data_agent_demo.Prelude.{
  ℕ, ◌+◌, ◌*◌, ◌-◌, ◌/◌, ◌%◌, ◌<◌, ◌≡◌, ◌≢◌, refl, ◌∙◌, true, Option, none, some, List, ltb,
  get_elem?, set, replicate, arith, length, length-set, get_elem?-set_self, get_elem?-set_ne,
}
use data_agent_demo.Run.{Run, ok, out_of_bounds, check, or_fault, ◌>>◌}
use data_agent_demo.System.{word64, thread_cnt, bucket_cnt, mem_align}

-- The times of the threads, and their transactions by number.
pub record Manager : Type 0 where
  pub all_ts : List ℕ
  pub all_txns : List (Option ℕ)

-- `init`: the manager, and the first time of the clock
unfoldable pub init : Manager × ℕ
init =
    (record { all_ts = replicate thread_cnt (word64 - 1); all_txns = replicate thread_cnt none }, 1)

unfoldable pub set_txn_man : Manager → ℕ → ℕ → Run Manager
set_txn_man m thd_id txn = do
  check (ltb thd_id (length m.all_txns)) out_of_bounds
  ok (record m { all_txns = set m.all_txns thd_id (some txn) })

unfoldable pub get_txn_man : Manager → ℕ → Run (Option ℕ)
get_txn_man m thd_id = or_fault (get_elem? m.all_txns thd_id) out_of_bounds

-- `hash` of the row at an address
unfoldable pub hash : ℕ → ℕ
hash row = let addr = row / mem_align in (addr * 1103515247 + 12345) % word64 % bucket_cnt

-- A manager that `init` made, or that has been changed since, has a place for each thread.
abbrev pub HasPlaces : Manager → Type 0
HasPlaces m = length m.all_txns ≡ thread_cnt

-- The transaction that a thread of the configuration sets is the one that it gets, the other threads keep theirs,
-- and the manager keeps its places.
pub get_txn_man-set_txn_man :
    (m : Manager) (thd_id txn : ℕ)
    → HasPlaces m
    → thd_id < thread_cnt
    → (m' : Manager) × (set_txn_man m thd_id txn ≡ ok m')
      × HasPlaces m'
      × (get_txn_man m' thd_id ≡ ok (some txn))
      × ((other : ℕ) → thd_id ≢ other → get_txn_man m' other ≡ get_txn_man m other)
unfolding set_txn_man get_txn_man
get_txn_man-set_txn_man m thd_id txn h lt =
    let there : thd_id < length m.all_txns = omega (arith, h) in
    (
      record m { all_txns = set m.all_txns thd_id (some txn) },
      rw (fits thd_id (length m.all_txns) there) refl,
      length-set m.all_txns thd_id (some txn) ∙ h,
      rw (get_elem?-set_self m.all_txns thd_id (some txn) there) refl,
      λ other ne. rw (get_elem?-set_ne m.all_txns (some txn) ne) refl,
    )
  where
    fits : (m n : ℕ) → m < n → ltb m n ≡ true
    fits m n h = ground arith

-- `hash` gives one of the latches of the manager.
pub hash_bound : (row : ℕ) → hash row < bucket_cnt
unfolding hash
hash_bound row = omega arith
