-- ===== src/World/Outcome.antt =====
-- `OptCC::validate` of Storage/concurrency_control/occ.cpp, called by a transaction among others: it commits or
-- aborts.
use data_agent_demo.Prelude.{
  ℕ, ◌≤◌, ◌≡◌, ◌⊎◌, inl, inr, sym, ap, ◌∙◌, false, some, List, [], ◌∷◌, arith, ltb, Bool-cases,
}
use data_agent_demo.Run.{ok}
use data_agent_demo.System.{rd}
use data_agent_demo.Row.{Row, RowOcc}
use data_agent_demo.Database.{Database, load}
use data_agent_demo.Txn.{Access, Txn}
use data_agent_demo.Txn.Accesses.{All, All-map, Held}
use data_agent_demo.Txn.Passes.{IsCurrent}
use data_agent_demo.Txn.Returns.{IsBefore}
use data_agent_demo.Txn.Commit.{Commits, validate_commit}
use data_agent_demo.Txn.Abort.{Aborts, validate_abort}
use data_agent_demo.World.Alls.{All-both, All-cases}
use data_agent_demo.World.{Rested, Seen, Active}
use data_agent_demo.World.Evolve.{ok_same, some_same}

-- the row of an entry was not written after `ts`, or it was
IsCurrent-cases :
    (ts : ℕ) (db : Database) (a : Access)
    → Held false db a
    → IsCurrent ts db a ⊎ (¬ IsCurrent ts db a)
IsCurrent-cases ts db a h = elim (Bool-cases (ltb ts h.occ.wts)) [
  | inl stale ↦ inr λ c. ground (arith, stale, c h.addr h.row h.occ h.at h.there h.managed)
  | inr current ↦ inl λ p r m at there managed. wts p r m at there managed current
]
  where
    wts :
        (p : ℕ) (r : Row) (m : RowOcc)
        → a.orig_row ≡ some p
        → load db p ≡ ok r
        → r.manager ≡ some m
        → ltb ts h.occ.wts ≡ false
        → m.wts ≤ ts
    wts p r m at there managed current =
        let addr : h.addr ≡ p = some_same (sym h.at ∙ at) in
        let row : h.row ≡ r = ok_same (sym h.there ∙ (ap (load db) addr ∙ there)) in
        let occ : h.occ ≡ m =
          some_same (sym h.managed ∙ (ap (λ (x : Row). x.manager) row ∙ managed)) in
        ground (arith, current, ap (λ (x : RowOcc). x.wts) occ)

-- An entry for reading has the bytes that its row has now.
abbrev pub Fresh : Database → Access → Type 0
Fresh db a =
    (p : ℕ) (r l : Row)
    → a.orig_row ≡ some p
    → load db p ≡ ok r
    → a.local ≡ some l
    → a.type ≡ rd
    → l.data_bytes ≡ r.data_bytes

-- It commits, and what it read is what the database has at that time; or it aborts, and changes nothing.
abbrev pub Ends : Txn → Database → List Access → Type 0
Ends t db used = (Commits t db used × All (Fresh db) used) ⊎ Aborts t db

current-Fresh :
    (start_ts : ℕ) (db : Database) (a : Access)
    → Held false db a
    → (Seen start_ts db a × IsCurrent start_ts db a)
    → Fresh db a
current-Fresh start_ts db a h (seen, current) p r l at there copied reads =
    let (m, managed) = occ_of in
    seen p r l m at there managed copied reads (current p r m at there managed)
  where
    occ_of : (m : RowOcc) × (r.manager ≡ some m)
    occ_of =
        let addr : h.addr ≡ p = cc (h.at, at) in
        let row : h.row ≡ r = ok_same (sym h.there ∙ (ap (load db) addr ∙ there)) in
        (h.occ, ap (λ (x : Row). x.manager) (sym row) ∙ h.managed)

pub validate-Ends :
    (t : Txn) (db : Database) (a : Active t db) → Rested db → Ends t db a.open_set.used
validate-Ends t db a rested =
    let used = a.open_set.used in
    elim (All-cases (IsCurrent t.start_ts db) used
      (All-map (IsCurrent-cases t.start_ts db) used a.open_set.held)) [
        | inl current ↦ inl (
          validate_commit t db a.open_set current (before used),
          fresh used a.open_set.held (All-both _ _ used a.seen current),
        )
        | inr stale ↦ inr (validate_abort t db a.open_set a.none_inserted stale)
      ]
  where
    before : (used : List Access) → All (IsBefore db.timestamp db) used
    before [] = tt
    before (x ∷ used) = (
      λ p r m at there managed.
          let rests = rested.rows p r there in
          let same : rests.0.occ ≡ m = cc (rests.0.managed, managed) in
          omega (arith, rests.1, ap (λ (o : RowOcc). o.wts) same),
      before used,
    )

    fresh :
        (used : List Access)
        → All (Held false db) used
        → All (λ x. Seen t.start_ts db x × IsCurrent t.start_ts db x) used
        → All (Fresh db) used
    fresh [] h k = tt
    fresh (x ∷ used) h k = (current-Fresh t.start_ts db x h.0 k.0, fresh used h.1 k.1)
