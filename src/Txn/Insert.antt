-- ===== src/Txn/Insert.antt =====
-- What the abort of an inserting transaction leaves behind (Storage/System/txn.cpp).
use data_agent_demo.Prelude.{ℕ, ◌≡◌, refl, ap, ◌∙◌, List, [], ◌∷◌, ◌++◌, arith, map}
use data_agent_demo.Run.{ok, fault, use_after_free}
use data_agent_demo.System.{abort}
use data_agent_demo.Env.{Env}
use data_agent_demo.Bytes.{Bytes}
use data_agent_demo.Row.{Row}
use data_agent_demo.IndexHash.{Item}
use data_agent_demo.IndexHash.View.{IsReady, items_of, index_read_lem}
use data_agent_demo.Database.{Database, load, free}
use data_agent_demo.Database.Memory.{load-free}
use data_agent_demo.Txn.{Txn, cleanup, free_rows, return_rows, get_row}
use data_agent_demo.Txn.Validate.{finish}
use data_agent_demo.Txn.Accesses.{All-map}
use data_agent_demo.Txn.Returns.{return_rows_abort, spent}
use data_agent_demo.Txn.Opened.{IsOpen}
use data_agent_demo.Txn.Abort.{Held-Copied}
use data_agent_demo.Txn.Ops.{read, index_read, read_row}

-- The index still has the row's address, and the row is gone: a read of the key, by any transaction, uses it
-- after its memory was freed.
abbrev pub Dangles : Env → Txn → Database → Bytes → Type 0
Dangles env t db key =
    (t' : Txn) × (db' : Database) × (finish abort t db ≡ ok (abort, t', db'))
    × (items_of db'.index (env.hash key) ≡ items_of db.index (env.hash key))
    × ((other : Txn) (value_out : Bytes) → read env other db' key value_out ≡ fault use_after_free)

get_row_freed :
    (env : Env) (t : Txn) (db : Database) (p : ℕ) (i : Item) (key value_out : Bytes)
    → i.location ≡ p
    → load db p ≡ fault use_after_free
    → read_row env t db i.location key value_out ≡ fault use_after_free
unfolding read_row get_row
get_row_freed env t db p i key value_out at gone = rw (at, gone) refl

read_dangling :
    (env : Env) (t : Txn) (db : Database) (key value_out : Bytes) (item : Item) (older : List Item)
    → IsReady db.index
    → items_of db.index (env.hash key) ≡ item ∷ older
    → load db item.location ≡ fault use_after_free
    → read env t db key value_out ≡ fault use_after_free
unfolding read index_read
read_dangling env t db key value_out item older ready newest gone =
    rw (index_read_lem db.index ready (env.hash key), newest)
      (get_row_freed env t db item.location item key value_out refl gone)

-- When a transaction that has inserted one row is aborted, and the index has that row as the newest of a key,
-- the abort frees the row and leaves the index as it is: every later read of the key, by any transaction, uses
-- freed memory.
pub abort_insert-Dangles :
    (env : Env) (t : Txn) (db : Database) (o : IsOpen t db) (key : Bytes) (item : Item)
    (older : List Item) (r : Row)
    → t.insert_rows ≡ item.location ∷ []
    → load db item.location ≡ ok r
    → IsReady db.index
    → items_of db.index (env.hash key) ≡ item ∷ older
    → Dangles env t db key
abort_insert-Dangles env t db o key item older r inserted there ready newest = (
  _,
  free db item.location,
  aborts,
  unfold free in refl,
  λ other value_out.
      read_dangling env other (free db item.location) key value_out item older
        (unfold free in ready) (unfold free in newest)
        (load-free db item.location there item.location ∙ ground arith),
)
  where
    returned :
        return_rows abort t.end_ts t.row_cnt t.accesses db ≡ ok (map spent o.used ++ o.spare, db)
    returned =
        ap (λ as'. return_rows abort t.end_ts t.row_cnt as' db) o.split
        ∙ return_rows_abort t.end_ts t.row_cnt o.used o.spare db o.counted
            (All-map Held-Copied o.used o.held)

    aborts :
        finish abort t db
        ≡ ok (
          abort,
          record t {
            accesses = map spent o.used ++ o.spare;
            row_cnt = 0;
            wr_cnt = 0;
            insert_rows = [];
            record_pos = [];
          },
          free db item.location,
        )
    aborts = unfold finish cleanup free_rows in rw (returned, inserted, there) refl
