-- ===== src/World/Race.antt =====
-- Two transactions of a history have one row in their access sets, and one of them wrote it.
use data_agent_demo.Prelude.{
  get_elem?, ℕ, ◌+◌, ◌<◌, ◌≤◌, ◌≡◌, inl, inr, refl, sym, ap, ◌∙◌, subst, false, some, List, ◌∷◌,
  ◌++◌, arith,
}
use data_agent_demo.Run.{ok}
use data_agent_demo.System.{Rc, rcok, abort, wr, word64}
use data_agent_demo.Env.{Env}
use data_agent_demo.Row.{Row, RowOcc}
use data_agent_demo.Database.{Database, load}
use data_agent_demo.Txn.{Access, Txn}
use data_agent_demo.Txn.Validate.{validate}
use data_agent_demo.Txn.Accesses.{Changed, All, Held}
use data_agent_demo.Txn.Returns.{install}
use data_agent_demo.Txn.Stages.{tick, load-tick}
use data_agent_demo.Txn.Opened.{IsOpen}
use data_agent_demo.Txn.Passes.{IsCurrent}
use data_agent_demo.Txn.Abort.{validate_abort, Aborts}
use data_agent_demo.World.Alls.{All-get, All-insert, All-split}
use data_agent_demo.World.{World, Reach, Active, Sane}
use data_agent_demo.World.Evolve.{ok_same, some_same, Active-Evolves}
use data_agent_demo.World.Finish.{commit-Evolves}
use data_agent_demo.Prelude.{get-front}
use data_agent_demo.World.Histories.{Reach-Sane}
use data_agent_demo.World.Outcome.{validate-Ends}

-- the entry at a place in use
used_entry :
    (t : Txn) (db : Database) (o : IsOpen t db) (i : ℕ) (x : Access)
    → i < t.row_cnt
    → get_elem? t.accesses i ≡ some x
    → get_elem? o.used i ≡ some x
used_entry t db o i x inside at =
    sym (get-front o.used o.spare i (omega (arith, inside, o.counted)))
    ∙ (ap (λ as'. get_elem? as' i) (sym o.split) ∙ at)

-- Entry `i` of the transaction is in use, and names the row at `p`.
pub record Uses (t : Txn) (i p : ℕ) (x : Access) : Type 0 where
  pub inside : i < t.row_cnt
  pub at : get_elem? t.accesses i ≡ some x
  pub row : x.orig_row ≡ some p

-- The row that a committed entry for writing names has the commit's time.
written_ts :
    (db db' : Database) (ts p : ℕ) (x : Access) (r : Row) (m : RowOcc)
    → Held false db x
    → x.type ≡ wr
    → x.orig_row ≡ some p
    → ((q : ℕ) (s : Row)
        → x.orig_row ≡ some q
        → load (tick db) q ≡ ok s
        → load db' q ≡ ok (install ts x s))
    → load db' p ≡ ok r
    → r.manager ≡ some m
    → m.wts ≡ ts
written_ts db db' ts p x r m h writes at installed there managed =
    let addr : h.addr ≡ p = some_same (sym h.at ∙ at) in
    let row : install ts x h.row ≡ r = ok_same (
      sym (installed h.addr h.row h.at (load-tick db h.addr ∙ h.there))
      ∙ (ap (load db') addr ∙ there)) in
    let occ : some (record h.occ { wts = ts }) ≡ some m =
      sym (written h.managed h.copied) ∙ (ap (λ (s : Row). s.manager) row ∙ managed) in
    sym (ap (λ (o : RowOcc). o.wts) (some_same occ))
  where
    written :
        h.row.manager ≡ some h.occ
        → x.local ≡ some h.copy
        → (install ts x h.row).manager ≡ some (record h.occ { wts = ts })
    written e f = rw (writes, f, e) refl

stale_entry :
    (db db' : Database) (t u : Txn) (o : IsOpen t db) (a : Active u db') (i j p : ℕ) (x y : Access)
    → Uses t i p x
    → x.type ≡ wr
    → Uses u j p y
    → u.start_ts < db.timestamp
    → Changed (install db.timestamp) o.used (tick db) db'
    → ¬ All (IsCurrent u.start_ts db') a.open_set.used
stale_entry db db' t u o a i j p x y uses writes uses' started changed current =
    let x_at = used_entry t db o i x uses.inside uses.at in
    let y_at = used_entry u db' a.open_set j y uses'.inside uses'.at in
    let h = All-get _ a.open_set.used j y y_at a.open_set.held in
    let there : load db' p ≡ ok h.row =
      ap (load db') (some_same (sym uses'.row ∙ h.at)) ∙ h.there in
    let now : h.occ.wts ≡ db.timestamp =
      written_ts db db' db.timestamp p x h.row h.occ (All-get _ o.used i x x_at o.held) writes
        uses.row (All-get _ o.used i x x_at changed.rows) there h.managed in
    let seen : h.occ.wts ≤ u.start_ts =
      All-get _ a.open_set.used j y y_at current p h.row h.occ uses'.row there h.managed in
    omega (arith, now, seen, started)

-- When two transactions of a history have one row in their access sets, and one of them for writing, then after
-- that one has committed `validate` of the other returns Abort, whether it read the row or wrote it, and leaves
-- the database as the first one left it. The clock does not wrap around in the commit.
pub first_committer_wins :
    (env : Env) (w w' : World)
    → Reach env w w'
    → Sane w
    → (before after front back : List Txn) (t u t' : Txn) (db' : Database) (i j p : ℕ)
      (x y : Access)
    → w'.txns ≡ before ++ t ∷ after
    → before ++ after ≡ front ++ u ∷ back
    → Uses t i p x
    → x.type ≡ wr
    → Uses u j p y
    → w'.db.timestamp + 1 < word64
    → validate t w'.db ≡ ok (rcok, t', db')
    → Aborts u db'
first_committer_wins env w w' reach s before after front back t u t' db' i j p x y at at' uses
      writes uses' room run =
    let s' = Reach-Sane env w w' reach s in
    let (fs, a, bs) = All-split _ before t after w'.txns at s'.active in
    let (_, b, _) =
      All-split _ front u back (before ++ after) at' (All-insert _ before after fs bs) in
    elim (validate-Ends t w'.db a s'.rested) [
      | inl ((_, done, commits, changed, emptied), fresh) ↦
          let same : done ≡ db' =
            ap (λ (r : Rc × Txn × Database). r.2) (ok_same (sym commits ∙ run)) in
          let changed' =
            subst (Changed (install w'.db.timestamp) a.open_set.used (tick w'.db)) same changed in
          let ev =
            commit-Evolves w'.db db' a.open_set.used s'.rested room a.open_set.held changed' in
          let b' = Active-Evolves w'.db db' u ev b in
          validate_abort u db' b'.open_set b'.none_inserted
            (stale_entry w'.db db' t u a.open_set b' i j p x y uses writes uses' b.started changed')
      | inr (_, done, aborts, kept, emptied) ↦
          absurd (abort_rcok (ap (λ (r : Rc × Txn × Database). r.0) (ok_same (sym aborts ∙ run))))
    ]
  where
    abort_rcok : ¬ (abort ≡ rcok)
    abort_rcok e = cc e
