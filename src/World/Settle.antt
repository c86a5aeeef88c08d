-- ===== src/World/Settle.antt =====
-- What the acts and the end of one transaction make of it and of the database.
use data_agent_demo.Prelude.{
  ℕ, ◌+◌, ◌<◌, ◌≤◌, ◌≡◌, ◌⊎◌, inl, inr, refl, sym, ap, ◌∙◌, subst, Option, none, some, [], ◌++◌,
  map, arith,
}
use data_agent_demo.Run.{ok}
use data_agent_demo.System.{Rc, rcok, abort, word64}
use data_agent_demo.Env.{Env}
use data_agent_demo.Database.{Database}
use data_agent_demo.Txn.{Txn, find_pos, cleanup, free_rows, return_rows}
use data_agent_demo.Txn.Validate.{validate, finish}
use data_agent_demo.Txn.Accesses.{All-map}
use data_agent_demo.Txn.Returns.{return_rows_abort, spent}
use data_agent_demo.Txn.Abort.{Held-Copied}
use data_agent_demo.World.{Act, visits, sets, Rested, Active}
use data_agent_demo.World.Evolve.{ok_same, Evolves}
use data_agent_demo.World.Visit.{visit-Active}
use data_agent_demo.World.Change.{set-Active}
use data_agent_demo.World.Revisit.{revisit-Active}
use data_agent_demo.World.Finish.{later-Evolves, later-Rested, commit-Evolves, commit-Rested}
use data_agent_demo.World.Outcome.{validate-Ends}

-- An act keeps its transaction in order and leaves the database as it is.
pub Act-Active :
    (env : Env) (db db' : Database) (t t' : Txn)
    → Rested db
    → Active t db
    → Act env db t t' db'
    → Active t' db × (db' ≡ db)
Act-Active env db db' t t' rested a (visits p r type got there room run) =
    elim (found_cases (find_pos r.primary_key t.record_pos)) [
      | inl fresh ↦
          visit-Active env t t' db db' type p r got a (rested.rows p r there).0 room fresh run
      | inr (pos, found) ↦ revisit-Active env t t' db db' type p pos r got a there found run
    ]
  where
    found_cases : (f : Option ℕ) → (f ≡ none) ⊎ ((pos : ℕ) × (f ≡ some pos))
    found_cases none = inl refl
    found_cases (some pos) = inr (pos, refl)
Act-Active env db db' t t' rested a
      (sets pos x l l' id ptr inside at writes read set_col stored same) =
    (set-Active t t' db pos x l l' id ptr a inside at writes read set_col stored, same)

-- What an end makes of the database: the other transactions stay in order, and the rows rest.
abbrev pub Settles : Database → Database → Type 0
Settles db db' = Evolves db db' × Rested db'

pub validate-Settles :
    (t t' : Txn) (db db' : Database) (rc : Rc)
    → Rested db
    → Active t db
    → db.timestamp + 1 < word64
    → validate t db ≡ ok (rc, t', db')
    → Settles db db'
validate-Settles t t' db db' rc rested a room run = elim (validate-Ends t db a rested) [
  | inl ((_, after, commits, changed, emptied), fresh) ↦
      let same = ap (λ (x : Rc × Txn × Database). x.2) (ok_same (sym commits ∙ run)) in
      subst (Settles db) same (
        commit-Evolves db after a.open_set.used rested room a.open_set.held changed,
        commit-Rested db after a.open_set.used rested room a.open_set.held changed,
      )
  | inr (_, after, aborts, kept, emptied) ↦
      let same = ap (λ (x : Rc × Txn × Database). x.2) (ok_same (sym aborts ∙ run)) in
      let later : db.timestamp ≤ after.timestamp =
        omega (arith, ap (λ (x : Database). x.timestamp) kept.rest) in
      subst (Settles db) same
        (later-Evolves db after later kept.rows, later-Rested db after later kept.rows rested)
]

-- `finish` with Abort leaves the database of a transaction that has inserted nothing as it is.
abort-same :
    (t t' : Txn) (db db' : Database) (rc : Rc)
    → Active t db
    → finish abort t db ≡ ok (rc, t', db')
    → db' ≡ db
unfolding finish cleanup free_rows
abort-same t t' db db' rc a run =
    let o = a.open_set in
    let returned : return_rows abort t.end_ts t.row_cnt t.accesses db
        ≡ ok (map spent o.used ++ o.spare, db) =
      ap (λ as'. return_rows abort t.end_ts t.row_cnt as' db) o.split
      ∙ return_rows_abort t.end_ts t.row_cnt o.used o.spare db o.counted
          (All-map Held-Copied o.used o.held) in
    sym (ap (λ (x : Rc × Txn × Database). x.2) (ok_same (sym (aborts returned) ∙ run)))
  where
    aborts :
        return_rows abort t.end_ts t.row_cnt t.accesses db
          ≡ ok (map spent a.open_set.used ++ a.open_set.spare, db)
        → finish abort t db
          ≡ ok (
            abort,
            record t {
              accesses = map spent a.open_set.used ++ a.open_set.spare;
              row_cnt = 0;
              wr_cnt = 0;
              insert_rows = [];
              record_pos = [];
            },
            db,
          )
    aborts returned = rw (returned, a.none_inserted) refl

pub finish-Settles :
    (t t' : Txn) (db db' : Database) (asked rc : Rc)
    → (asked ≡ rcok) ⊎ (asked ≡ abort)
    → Rested db
    → Active t db
    → db.timestamp + 1 < word64
    → finish asked t db ≡ ok (rc, t', db')
    → Settles db db'
finish-Settles t t' db db' asked rc which rested a room run = elim which [
  | inl commits ↦
      validate-Settles t t' db db' rc rested a room
        (unfold finish in subst (λ x. finish x t db ≡ ok (rc, t', db')) commits run)
  | inr aborts ↦
      subst (Settles db)
        (sym
          (abort-same t t' db db' rc a (subst (λ x. finish x t db ≡ ok (rc, t', db')) aborts run)))
        (later-Evolves db db (omega arith) (λ q. refl), rested)
]
