-- ===== src/Overlap/Written.antt =====
-- What a commit has written, while other threads take their steps.
use native.Mathlib.Decide.{ℕ_discrete}
use data_agent_demo.Prelude.{
  ℕ, zero, suc, ◌+◌, ◌<◌, ◌≤◌, ◌≡◌, inl, inr, refl, sym, ap, ◌∙◌, subst, true, some, List, arith,
  length, get_elem?, ltb, Bool-cases, get-inside,
}
use data_agent_demo.Run.{Run, ok}
use data_agent_demo.Row.{Row, RowOcc}
use data_agent_demo.Database.{Database, load, store}
use data_agent_demo.Database.Memory.{load-store_self, load-store_ne}
use data_agent_demo.Txn.{Access, wr?}
use data_agent_demo.Txn.Passes.{relatch}
use data_agent_demo.Txn.Returns.{install}
use data_agent_demo.World.Evolve.{ok_same, some_same}
use data_agent_demo.Overlap.{
  Phase, ended, running, latching, installing, releasing, Worker, advance, latch_next,
}
use data_agent_demo.Overlap.Store.{Names}
use data_agent_demo.Overlap.Own.{Own}
use data_agent_demo.Overlap.Turn.{AllFit}
use data_agent_demo.Overlap.Rounds.{latch_next-taken, latch_next-free}
use data_agent_demo.Overlap.Entries.{get-lt}
use data_agent_demo.Overlap.Unlatch.{release_next-ok}
use data_agent_demo.Overlap.Install.{install_next-run}
use data_agent_demo.Overlap.Advance.{
  latching-inside, latching-all, releasing-inside, releasing-all, Within-phase,
}

-- The row of a written entry has the bytes of its copy, and the time.
pub record IsWritten (db : Database) (ts : ℕ) (a : Access) : Type 0 where
  pub addr : ℕ
  pub row : Row
  pub copy : Row
  pub occ : RowOcc
  pub at : a.orig_row ≡ some addr
  pub there : load db addr ≡ ok row
  pub copied : a.local ≡ some copy
  pub managed : row.manager ≡ some occ
  pub bytes : row.data_bytes ≡ copy.data_bytes
  pub time : occ.wts ≡ ts

abbrev pub WrittenFrom : Database → List Access → ℕ → ℕ → Type 0
WrittenFrom db entries ts rid =
    (k : ℕ) (a : Access)
    → rid ≤ k
    → get_elem? entries k ≡ some a
    → wr? a.type ≡ true
    → IsWritten db ts a

-- In a commit, the written entries behind the loop are written.
abbrev pub PhaseWritten : Database → List Access → Phase → Type 0
PhaseWritten db entries (installing ts rid) = WrittenFrom db entries ts rid
PhaseWritten db entries _ = Unit

pub IsWritten-load :
    (db db' : Database) (ts : ℕ) (a : Access) (h : IsWritten db ts a)
    → load db' h.addr ≡ load db h.addr
    → IsWritten db' ts a
IsWritten-load db db' ts a h same = record {
  addr = h.addr;
  row = h.row;
  copy = h.copy;
  occ = h.occ;
  at = h.at;
  there = same ∙ h.there;
  copied = h.copied;
  managed = h.managed;
  bytes = h.bytes;
  time = h.time;
}

-- One more row is written.
module _ (db : Database) (w : Worker) (ts k : ℕ) (fits : AllFit db) (o : Own db w)
    (e : w.phase ≡ installing ts (suc k)) (a : Access) (at : get_elem? w.entries k ≡ some a) where
  abbrev named : Names db a
  named = o.names k a at

  abbrev written_db : Database
  written_db = store db named.addr (install ts a named.row)

  IsWritten-now : wr? a.type ≡ true → IsWritten written_db ts a
  IsWritten-now writes =
      let f = fits named.addr named.row named.there in
      record {
        addr = named.addr;
        row = install ts a named.row;
        copy = named.copy;
        occ = record f.occ { wts = ts };
        at = named.at;
        there = load-store_self db named.addr named.there (install ts a named.row);
        copied = named.copied;
        managed = rw (writes, named.copied, f.managed) refl;
        bytes = rw (writes, named.copied) refl;
        time = refl;
      }

  WrittenFrom-next : WrittenFrom db w.entries ts (suc k) → WrittenFrom written_db w.entries ts k
  WrittenFrom-next h j b le b_at writes = elim (ℕ_discrete k j) [
    | yes same ↦
        let one : a ≡ b = some_same (sym at ∙ (ap (get_elem? w.entries) same ∙ b_at)) in
        subst (IsWritten written_db ts) one
          (IsWritten-now (subst (λ (x : Access). wr? x.type ≡ true) (sym one) writes))
    | no other ↦
        let before = h j b (grind (arith, le, other)) b_at writes in
        IsWritten-load db written_db ts b before (
          load-store_ne db named.addr named.there before.addr (install ts a named.row) (λ same.
            other (o.distinct k j a b at b_at (named.at ∙ (ap some same ∙ sym before.at)))))
  ]

module _ (db : Database) (w : Worker) (fits : AllFit db) (o : Own db w) where
  by_run :
      (d d' : Database) (ph ph' : Phase) (run : Run (Database × Phase))
      → run ≡ ok (d, ph)
      → run ≡ ok (d', ph')
      → PhaseWritten d w.entries ph
      → PhaseWritten d' w.entries ph'
  by_run d d' ph ph' run e f =
      subst (λ (x : Database × Phase). PhaseWritten x.0 w.entries x.1) (ok_same (sym e ∙ f))

  nothing_yet : (d : Database) (ts : ℕ) → WrittenFrom d w.entries ts (length w.entries)
  nothing_yet d ts k a le at = absurd (omega (arith, le, get-lt w.entries k a at))

  latch_no_writes :
      (n : ℕ) (db' : Database) (phase' : Phase)
      → n < length w.entries
      → latch_next db w n ≡ ok (db', phase')
      → PhaseWritten db' w.entries phase'
  latch_no_writes n db' phase' inside run =
      let (a, at) = get-inside w.entries n inside in
      let h = o.names n a at in
      let f = fits h.addr h.row h.there in
      elim (Bool-cases f.occ.latched) [
        | inl taken ↦ cc (latch_next-taken db w n a at h f.occ f.managed taken, run)
        | inr free ↦
            let round = latch_next-free db w n a at h f.occ f.managed free in
            let d = store db h.addr (relatch true h.row) in
            elim (Bool-cases (ltb w.start_ts f.occ.wts)) [
              | inl stale ↦
                  by_run d db' (releasing 0 (n + 1)) phase' (latch_next db w n)
                    (round ∙ rw stale refl) run tt
              | inr current ↦
                  by_run d db' (latching (n + 1)) phase' (latch_next db w n)
                    (round ∙ rw current refl) run tt
            ]
      ]

  pub advance-PhaseWritten :
      (phase : Phase) (db' : Database) (phase' : Phase)
      → w.phase ≡ phase
      → PhaseWritten db w.entries phase
      → advance db w phase ≡ ok (db', phase')
      → PhaseWritten db' w.entries phase'
  unfolding advance
  advance-PhaseWritten ended db' phase' e h run = by_run db db' ended phase' _ refl run tt
  advance-PhaseWritten running db' phase' e h run = by_run db db' running phase' _ refl run tt
  advance-PhaseWritten (latching n) db' phase' e h run =
      let within : n ≤ length w.entries = Within-phase db w (latching n) e o in
      elim (Bool-cases (ltb n (length w.entries))) [
        | inl lt ↦
            let inside : n < length w.entries = ground (arith, lt) in
            latch_no_writes n db' phase' inside (sym (latching-inside db w n inside) ∙ run)
        | inr ge ↦
            by_run _ db' _ phase' _ (latching-all db w n (ground (arith, ge, within))) run
              (nothing_yet _ db.timestamp)
      ]
  advance-PhaseWritten (installing ts zero) db' phase' e h run =
      by_run db db' (releasing 0 (length w.entries)) phase' _ refl run tt
  advance-PhaseWritten (installing ts (suc k)) db' phase' e h run =
      let within : suc k ≤ length w.entries = Within-phase db w (installing ts (suc k)) e o in
      let inside : k < length w.entries = omega (arith, within) in
      let (a, at) = get-inside w.entries k inside in
      by_run _ db' (installing ts k) phase' _ (install_next-run db w ts k fits o e a at inside) run
        (WrittenFrom-next db w ts k fits o e a at h)
  advance-PhaseWritten (releasing k m) db' phase' e h run =
      let within : m ≤ length w.entries = Within-phase db w (releasing k m) e o in
      elim (Bool-cases (ltb k m)) [
        | inl lt ↦
            let inside : k < m = ground (arith, lt) in
            let (a, at) = get-inside w.entries k (omega (arith, inside, within)) in
            let (d, round) = release_next-ok db w k m fits o e a at inside within in
            by_run d db' (releasing (k + 1) m) phase' _ (releasing-inside db w k m inside ∙ round)
              run tt
        | inr ge ↦ by_run db db' ended phase' _ (releasing-all db w k m (ground (arith, ge))) run tt
      ]
