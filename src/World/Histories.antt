-- ===== src/World/Histories.antt =====
-- What every history of steps keeps, and how a transaction of it ends.
use data_agent_demo.Prelude.{
  ℕ, ◌+◌, ◌<◌, ◌≤◌, ◌≡◌, refl, sym, ap, ◌∙◌, subst, List, [], ◌∷◌, ◌++◌, arith,
}
use data_agent_demo.System.{word64}
use data_agent_demo.Env.{Env}
use data_agent_demo.Database.{Database, get_ts}
use data_agent_demo.Txn
use data_agent_demo.Txn.{Access, Txn, find_pos, get_row, cleanup, free_rows, return_rows}
use data_agent_demo.Txn.Accesses.{All, All-map}
use data_agent_demo.Txn.Stages.{tick, load-tick}
use data_agent_demo.Txn.Opened.{IsOpen}
use data_agent_demo.World.Alls.{All-insert, All-split}
use data_agent_demo.World.{World, begun, Step, begins, acts, ends, Reach, here, next, Active, Sane}
use data_agent_demo.World.Evolve.{Evolves, Active-Evolves}
use data_agent_demo.World.Finish.{later-Evolves, later-Rested}
use data_agent_demo.World.Settle.{Act-Active, finish-Settles}
use data_agent_demo.World.Outcome.{Ends, validate-Ends}

begun-Active :
    (db : Database) (thd_id : ℕ)
    → db.timestamp + 1 < word64
    → Active (begun thd_id db.timestamp) (tick db)
unfolding begun Txn.init tick get_ts find_pos
begun-Active db thd_id room = record {
  open_set = record {
    used = [];
    spare = [];
    split = refl;
    counted = refl;
    held = tt;
    distinct = tt;
  };
  none_inserted = refl;
  started = omega (arith, room);
  indexed = tt;
  placed = λ key pos found. cc found;
  seen = tt;
}

pub Actives-Evolves :
    (db db' : Database) (ts : List Txn)
    → Evolves db db'
    → All (λ t. Active t db) ts
    → All (λ t. Active t db') ts
Actives-Evolves db db' ts ev = All-map (λ t. Active-Evolves db db' t ev) ts

tick-Evolves : (db : Database) → db.timestamp + 1 < word64 → db.timestamp ≤ (tick db).timestamp
unfolding tick get_ts
tick-Evolves db room = omega (arith, room)

-- Every step keeps the world in order.
Step-Sane : (env : Env) (w w' : World) → Sane w → Step env w w' → Sane w'
unfolding tick get_ts
Step-Sane env w w' s (begins thd_id room same) =
    let later = tick-Evolves w.db room in
    subst Sane (sym same) (record {
      rested = later-Rested w.db (tick w.db) later (load-tick w.db) s.rested;
      active = (
        begun-Active w.db thd_id room,
        Actives-Evolves w.db (tick w.db) w.txns
            (later-Evolves w.db (tick w.db) later (load-tick w.db)) s.active,
      );
    })
Step-Sane env w w' s (acts before after t t' db' at act same) =
    let (front, a, back) = All-split _ before t after w.txns at s.active in
    let (a', kept) = Act-Active env w.db db' t t' s.rested a act in
    subst Sane (sym (same ∙ ap (λ db. record { db = db; txns = before ++ t' ∷ after }) kept))
      (record { rested = s.rested; active = All-insert _ before (t' ∷ after) front (a', back) })
Step-Sane env w w' s (ends before after t t' db' asked rc which at room run same) =
    let (front, a, back) = All-split _ before t after w.txns at s.active in
    let (ev, rested) = finish-Settles t t' w.db db' asked rc which s.rested a room run in
    subst Sane (sym same) (record {
      rested = rested;
      active = Actives-Evolves w.db db' (before ++ after) ev (All-insert _ before after front back);
    })

-- In every world that steps of several transactions lead to, from one in order, the rows rest and every open
-- transaction is in order: its entries hold live rows with free latches and copies of their size, and the copy of
-- a row for reading is still what the row has, unless the row was written after the start.
pub Reach-Sane : (env : Env) (w w' : World) → Reach env w w' → Sane w → Sane w'
Reach-Sane env w w' here s = s
Reach-Sane env w w' (next {u = u} before step) s =
    Step-Sane env u w' (Reach-Sane env w u before s) step

-- At any point of a history of several transactions, from a world in order, `validate` of any of the open ones
-- returns, and is all or nothing. It commits, and then what it read for reading is what the database has at that
-- time, and it installs exactly its written copies; or it aborts, and the database is as before.
pub commit_serial :
    (env : Env) (w w' : World)
    → Reach env w w'
    → Sane w
    → (before after : List Txn) (t : Txn) → w'.txns ≡ before ++ t ∷ after
    → (o : IsOpen t w'.db) × Ends t w'.db o.used
commit_serial env w w' reach s before after t at =
    let s' = Reach-Sane env w w' reach s in
    let (_, a, _) = All-split _ before t after w'.txns at s'.active in
    (a.open_set, validate-Ends t w'.db a s'.rested)
