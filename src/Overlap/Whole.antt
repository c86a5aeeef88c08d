-- ===== src/Overlap/Whole.antt =====
-- OptCC::validate as one call, in Txn/Validate, and its steps in a machine where one thread runs.
use data_agent_demo.Prelude.{
  ℕ, zero, suc, ◌-◌, ◌<◌, ◌≤◌, ◌≡◌, refl, sym, ap, ◌∙◌, subst, Bool, true, false, some, List, [],
  ◌∷◌, ◌++◌, map, arith, length, get_elem?, take,
}
use data_agent_demo.Run.{ok, >>=-eq-ok}
use data_agent_demo.System.{rcok, abort, Rc}
use data_agent_demo.Bytes.Laws.{take-append_all}
use data_agent_demo.Database.{Database, get_ts}
use data_agent_demo.Txn.{Access, Txn, return_rows, free_rows, cleanup}
use data_agent_demo.Txn.Validate.{sort, lock_rows, conclude, release_rows, validate}
use data_agent_demo.Txn.Accesses.{All, All-map, Held, Distinct}
use data_agent_demo.Txn.Opened.{IsOpen, sorted}
use data_agent_demo.Txn.Passes.{lock_rows-Locked}
use data_agent_demo.Txn.Returns.{spent, Copied, return_rows_abort}
use data_agent_demo.Txn.Stages.{tick}
use data_agent_demo.World.Evolve.{ok_same, some_same}
use data_agent_demo.Overlap.{ended, latching, installing, releasing, Worker, advance}
use data_agent_demo.Overlap.Advance.{latching-all, releasing-all}
use data_agent_demo.Overlap.Alone.{
  Alone, stays, goes, Alone-trans, latched_to, lock_rows-Alone, RowsOf, return_rows-Alone,
  release_rows-Alone,
}

module _ {ℓ} {A : Type ℓ} where
  get-append_front :
      (xs ys : List A) (j : ℕ) (a : A)
      → get_elem? (xs ++ ys) j ≡ some a
      → j < length xs
      → get_elem? xs j ≡ some a
  get-append_front [] ys j a e lt = absurd (omega (arith, lt))
  get-append_front (x ∷ xs) ys zero a e lt = e
  get-append_front (x ∷ xs) ys (suc j) a e lt = get-append_front xs ys j a e (omega (arith, lt))

spent-RowsOf :
    (xs spare : List Access) (n : ℕ) → n ≤ length xs → RowsOf (map spent xs ++ spare) xs n
spent-RowsOf [] spare n le j b e lt = absurd (omega (arith, le, lt))
spent-RowsOf (x ∷ xs) spare n le zero b e lt =
    (x, refl, ap (λ (y : Access). y.orig_row) (some_same e))
spent-RowsOf (x ∷ xs) spare n le (suc j) b e lt =
    spent-RowsOf xs spare (n - 1) (omega (arith, le)) j b e (omega (arith, lt))

-- The loops behind the sort.
module _ (t : Txn) (db : Database) (entries spare : List Access)
    (counted : length entries ≡ t.row_cnt) (held : All (Held false db) entries)
    (distinct : Distinct entries) (none_inserted : t.insert_rows ≡ []) where
  abbrev worker : Worker
  worker = record { start_ts = t.start_ts; entries = entries; phase = latching 0 }

  abbrev with_locks : ℕ → Txn
  with_locks count = record t { accesses = entries ++ spare; lock_cnt = count }

  module _ (count : ℕ) (passed : Bool) (locked : Database)
      (locks : lock_rows t.start_ts entries db ≡ ok (passed, count, locked)) where
    count_within : count ≤ length entries
    count_within =
        let k = lock_rows-Locked t.start_ts entries db held distinct in
        subst (λ (x : Bool × ℕ × Database). x.1 ≤ length entries) (ok_same (sym k.returns ∙ locks))
          k.within

    latched-Alone : Alone worker db (latching 0) locked (latched_to passed count)
    latched-Alone =
        (lock_rows-Alone worker entries 0 count count passed db locked
          (λ j a at. subst (λ i. get_elem? entries i ≡ some a) (omega arith) at) (omega arith)
          locks).0

    released-Alone :
        (accesses : List Access) (returned released : Database)
        → RowsOf accesses entries count
        → release_rows count accesses returned ≡ ok released
        → Alone worker returned (releasing 0 count) released ended
    released-Alone accesses returned released rows run =
        Alone-trans returned released released (releasing 0 count) (releasing count count) ended
          (release_rows-Alone worker count 0 count accesses returned released (omega arith)
            (λ j b at lt.
              let (a, at', row) = rows j b at lt in
              (a, subst (λ i. get_elem? entries i ≡ some a) (omega arith) at', row))
            run)
          (goes (releasing-all released worker count count (omega arith)) stays)

    all_latched : passed ≡ true → count ≡ length entries
    all_latched =
        (lock_rows-Alone worker entries 0 count count passed db locked
          (λ j a at. subst (λ i. get_elem? entries i ≡ some a) (omega arith) at) (omega arith)
          locks).1

  commit-Alone :
      (count : ℕ) (locked returned released : Database) (accesses : List Access)
      → lock_rows t.start_ts entries db ≡ ok (true, count, locked)
      → return_rows rcok locked.timestamp t.row_cnt (entries ++ spare) (tick locked)
        ≡ ok (accesses, returned)
      → release_rows count accesses returned ≡ ok released
      → Alone worker db (latching 0) released ended
  unfolding advance
  commit-Alone count locked returned released accesses locks returns releases =
      let all : count ≡ length entries = all_latched count true locked locks refl in
      let (installs, rows) =
        return_rows-Alone worker t.row_cnt count locked.timestamp (entries ++ spare) accesses
          (tick locked) returned
          (λ j a lt at. get-append_front entries spare j a at (omega (arith, lt, counted)))
          (λ j b at lt. (b, get-append_front entries spare j b at (omega (arith, lt, all)), refl))
          returns in
      Alone-trans db locked released (latching 0) (latching count) ended
        (latched-Alone count true locked locks)
        (goes (latching-all locked worker count all) (
          Alone-trans (tick locked) returned released (installing locked.timestamp (length entries))
            (installing locked.timestamp 0) ended
            (subst
              (λ n.
                Alone worker (tick locked) (installing locked.timestamp n) returned
                  (installing locked.timestamp 0))
              (sym counted) installs)
            (goes refl (
              subst (λ n. Alone worker returned (releasing 0 n) released ended) all
                (released-Alone count true locked locks accesses returned released rows
                  releases)))))

  abort-Alone :
      (count : ℕ) (locked released : Database)
      → lock_rows t.start_ts entries db ≡ ok (false, count, locked)
      → release_rows count (map spent entries ++ spare) locked ≡ ok released
      → Alone worker db (latching 0) released ended
  abort-Alone count locked released locks releases =
      Alone-trans db locked released (latching 0) (releasing 0 count) ended
        (latched-Alone count false locked locks)
        (released-Alone count false locked locks (map spent entries ++ spare) locked released
          (spent-RowsOf entries spare count (count_within count false locked locks)) releases)

  All-Copied : All Copied entries
  All-Copied = All-map (λ a h. (h.copy, h.copied)) entries held

  -- The clean-up of an abort gives the copies back.
  cleanup-abort :
      (count : ℕ) (locked : Database)
      → cleanup abort (with_locks count) locked
        ≡ ok (
          record t {
            accesses = map spent entries ++ spare;
            lock_cnt = count;
            row_cnt = 0;
            wr_cnt = 0;
            insert_rows = [];
            record_pos = [];
          },
          locked,
        )
  unfolding cleanup free_rows
  cleanup-abort count locked =
      rw
        (
          return_rows_abort t.end_ts t.row_cnt entries spare locked counted All-Copied,
          none_inserted,
        )
        refl

  -- what `conclude` gives, in both cases
  concluded-Alone :
      (passed : Bool) (count : ℕ) (locked concluded released : Database) (rc : Rc) (t' : Txn)
      → lock_rows t.start_ts entries db ≡ ok (passed, count, locked)
      → conclude passed (with_locks count) locked ≡ ok (rc, t', concluded)
      → release_rows count t'.accesses concluded ≡ ok released
      → Alone worker db (latching 0) released ended
  unfolding conclude cleanup get_ts tick free_rows
  concluded-Alone true count locked concluded released rc t' locks run releases =
      let ((t₁, d₁), cleans, ends) =
        >>=-eq-ok
          (cleanup rcok (record (with_locks count) { end_ts = locked.timestamp }) (tick locked)) _
          run in
      let ((accesses, returned), returns, rest) =
        >>=-eq-ok (return_rows rcok locked.timestamp t.row_cnt (entries ++ spare) (tick locked)) _
          cleans in
      let last : ◌≡◌ {A = List Access × Database} (accesses, returned) (t'.accesses, concluded) =
        ap (λ (x : Txn × Database). (x.0.accesses, x.1)) (ok_same rest)
        ∙ ap (λ (x : Rc × Txn × Database). (x.1.accesses, x.2)) (ok_same ends) in
      commit-Alone count locked returned released accesses locks returns (
        subst (λ (x : List Access × Database). release_rows count x.0 x.1 ≡ ok released) (sym last)
          releases)
  concluded-Alone false count locked concluded released rc t' locks run releases =
      let ((t₁, d₁), cleans, ends) = >>=-eq-ok (cleanup abort (with_locks count) locked) _ run in
      let last : ◌≡◌ {A = List Access × Database} (map spent entries ++ spare, locked)
          (t'.accesses, concluded) =
        ap (λ (x : Txn × Database). (x.0.accesses, x.1))
          (ok_same (sym (cleanup-abort count locked) ∙ cleans))
        ∙ ap (λ (x : Rc × Txn × Database). (x.1.accesses, x.2)) (ok_same ends) in
      abort-Alone count locked released locks (
        subst (λ (x : List Access × Database). release_rows count x.0 x.1 ≡ ok released) (sym last)
          releases)

-- What `validate` does in one call, a thread does alone. When `validate` returns, on an open transaction that inserted
-- no rows, then a thread that has sorted its access set as `validate` does and latches, tests, installs and releases a
-- row at a time, with no step of another thread between, ends with the same database, after a commit and after an abort.
pub validate-Alone :
    (t t' : Txn) (db db' : Database) (rc : Rc) (o : IsOpen t db)
    → t.insert_rows ≡ []
    → validate t db ≡ ok (rc, t', db')
    → (entries : List Access) × (sort db (t.row_cnt - 1) t.accesses ≡ ok (entries ++ o.spare))
      × Alone
          (record { start_ts = t.start_ts; entries = entries; phase = latching 0 })
          db
          (latching 0)
          db'
          ended
unfolding validate
validate-Alone t t' db db' rc o none_inserted run =
    let s = sorted t db o in
    let (as', sorts, f) = >>=-eq-ok (sort db (t.row_cnt - 1) t.accesses) _ run in
    let same : as' ≡ s.entries ++ o.spare = ok_same (sym sorts ∙ s.returns) in
    let front : take t.row_cnt as' ≡ s.entries =
      ap (take t.row_cnt) same ∙ take-append_all t.row_cnt s.entries o.spare s.counted in
    let ((passed, count, locked), locks, g) =
      >>=-eq-ok (lock_rows t.start_ts (take t.row_cnt as') db) _ f in
    let ((rc₁, t₁, concluded), concludes, h) =
      >>=-eq-ok (conclude passed (record t { accesses = as'; lock_cnt = count }) locked) _ g in
    let (released, releases, ends) = >>=-eq-ok (release_rows count t₁.accesses concluded) _ h in
    (
      s.entries,
      s.returns,
      subst
          (λ d.
            Alone (record { start_ts = t.start_ts; entries = s.entries; phase = latching 0 }) db
              (latching 0) d ended)
          (ap (λ (x : Rc × Txn × Database). x.2) (ok_same ends))
          (concluded-Alone t db s.entries o.spare s.counted s.held s.distinct none_inserted passed
            count locked concluded released rc₁ t₁
            (subst (λ xs. lock_rows t.start_ts xs db ≡ ok (passed, count, locked)) front locks)
            (subst
              (λ xs.
                conclude passed (record t { accesses = xs; lock_cnt = count }) locked
                ≡ ok (rc₁, t₁, concluded))
              same concludes)
            releases),
    )
