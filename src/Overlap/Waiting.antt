-- ===== src/Overlap/Waiting.antt =====
-- Whose latches the threads in OptCC::validate wait for: a latch that is taken is some thread's, and every thread
-- latches its rows in their order.
use native.Mathlib.Decide.{ℕ_discrete}
use data_agent_demo.Prelude.{
  ℕ, zero, suc, ◌-◌, ◌+◌, ◌<◌, ◌≤◌, ◌≡◌, inl, inr, refl, sym, ◌∙◌, subst, List, arith, length, ltb,
  Bool-cases, get-inside,
}
use data_agent_demo.Run.{Run, ok}
use data_agent_demo.Env.{Env}
use data_agent_demo.Database.{Database}
use data_agent_demo.Txn.{Access}
use data_agent_demo.Txn.Validate.{sort}
use data_agent_demo.World.Evolve.{ok_same}
use data_agent_demo.Overlap.{
  Phase, ended, running, latching, installing, releasing, Worker, Machine, Step, begins, reads,
  edits, quits, validates, advances, Reach, here, next, Holds, advance, update, moved,
}
use data_agent_demo.Overlap.Store.{IsLatched}
use data_agent_demo.Overlap.Own.{Own}
use data_agent_demo.Overlap.Turn.{Inv, Turn, AllFit, update-cases}
use data_agent_demo.Overlap.Unlatch.{release_next-ok}
use data_agent_demo.Overlap.Install.{install_next-run}
use data_agent_demo.Overlap.Advance.{releasing-inside, releasing-all, Within-phase}
use data_agent_demo.Overlap.Changes.{sorted_lem}
use data_agent_demo.Overlap.Reached.{IsStart, stepper, stepped, Step-Turn, Reach-Inv}
use data_agent_demo.Overlap.Order.{
  PairsLe, PhaseOrder, Keyed, PhaseOrder-same, Keyed-same, Ordered-PairsLe, PairsLe-phase,
}

pub record Queues (s : Machine) : Type 0 where
  pub held : (p : ℕ) → IsLatched s.db p → (i : ℕ) × Holds (s.workers i) p
  pub ordered : (i : ℕ) → PhaseOrder s.db (s.workers i).entries (s.workers i).phase
  pub keyed : Keyed s.db

-- A step of `validate` goes on in the order that the thread has.
module _ (db : Database) (w : Worker) (fits : AllFit db) (o : Own db w) where
  by_run :
      (d d' : Database) (ph ph' : Phase) (run : Run (Database × Phase))
      → run ≡ ok (d, ph)
      → run ≡ ok (d', ph')
      → PhaseOrder db w.entries ph
      → PhaseOrder db w.entries ph'
  by_run d d' ph ph' run e f =
      subst (λ (x : Database × Phase). PhaseOrder db w.entries x.1) (ok_same (sym e ∙ f))

  advance-PhaseOrder :
      (phase : Phase) (db' : Database) (phase' : Phase)
      → w.phase ≡ phase
      → PhaseOrder db w.entries phase
      → advance db w phase ≡ ok (db', phase')
      → PhaseOrder db w.entries phase'
  unfolding advance
  advance-PhaseOrder ended db' phase' e h run = by_run db db' ended phase' _ refl run tt
  advance-PhaseOrder running db' phase' e h run = by_run db db' running phase' _ refl run tt
  advance-PhaseOrder (latching n) db' phase' e h run = PairsLe-phase db w.entries phase' h
  advance-PhaseOrder (installing ts zero) db' phase' e h run =
      by_run db db' (releasing 0 (length w.entries)) phase' _ refl run tt
  advance-PhaseOrder (installing ts (suc k)) db' phase' e h run =
      let within : suc k ≤ length w.entries = Within-phase db w (installing ts (suc k)) e o in
      let inside : k < length w.entries = omega (arith, within) in
      let (a, at) = get-inside w.entries k inside in
      by_run _ db' (installing ts k) phase' _ (install_next-run db w ts k fits o e a at inside) run
        tt
  advance-PhaseOrder (releasing k m) db' phase' e h run =
      let within : m ≤ length w.entries = Within-phase db w (releasing k m) e o in
      elim (Bool-cases (ltb k m)) [
        | inl lt ↦
            let inside : k < m = ground (arith, lt) in
            let (a, at) = get-inside w.entries k (omega (arith, inside, within)) in
            let (d, round) = release_next-ok db w k m fits o e a at inside within in
            by_run d db' (releasing (k + 1) m) phase' _ (releasing-inside db w k m inside ∙ round)
              run tt
        | inr ge ↦ by_run db db' ended phase' _ (releasing-all db w k m (ground (arith, ge))) run tt
      ]

  sort-PairsLe :
      (sorted : List Access)
      → sort db (length w.entries - 1) w.entries ≡ ok sorted
      → PairsLe db sorted
  sort-PairsLe sorted run =
      let (entries, returns, perm, ordered) = sorted_lem db w fits o in
      subst (PairsLe db) (ok_same (sym returns ∙ run)) (Ordered-PairsLe db entries ordered)

Step-PhaseOrder :
    (env : Env) (s t : Machine) (step : Step env s t)
    → Inv s
    → Queues s
    → PhaseOrder s.db (stepped step).entries (stepped step).phase
Step-PhaseOrder env s t (begins i e room) inv q = tt
Step-PhaseOrder env s t (reads i p r r' copied type e there fresh run) inv q = tt
Step-PhaseOrder env s t (edits i k a l l' e at copied table size) inv q = tt
Step-PhaseOrder env s t (quits i e) inv q = tt
Step-PhaseOrder env s t (validates i sorted e run) inv q =
    sort-PairsLe s.db (s.workers i) inv.fits (inv.own i) sorted run
Step-PhaseOrder env s t (advances i db' phase' room run) inv q =
    advance-PhaseOrder s.db (s.workers i) inv.fits (inv.own i) (s.workers i).phase db' phase' refl
      (q.ordered i) run

module _ (s : Machine) (i : ℕ) (db' : Database) (w' : Worker) (q : Queues s)
    (t : Turn s.db (s.workers i) db' w') (order : PhaseOrder s.db w'.entries w'.phase) where
  moved_held : (p : ℕ) → IsLatched db' p → (j : ℕ) × Holds (update s.workers i w' j) p
  moved_held p taken = elim (t.moves.news p taken) [
    | inr mine ↦ (i, mine_then p mine)
    | inl before ↦
        let (j, h) = q.held p before in
        elim (ℕ_discrete i j) [
          | yes same ↦ (
            i,
            mine_then p (t.moves.drops p taken (subst (λ k. Holds (s.workers k) p) (sym same) h)),
          )
          | no other ↦ (
            j,
            elim (update-cases s.workers i w' j) [
              | inl (same, e) ↦ absurd (other same)
              | inr (_, e) ↦ subst (λ v. Holds v p) (sym e) h
            ],
          )
        ]
  ]
    where
      mine_then : (p : ℕ) → Holds w' p → Holds (update s.workers i w' i) p
      mine_then p h = elim (update-cases s.workers i w' i) [
        | inl (same, e) ↦ subst (λ v. Holds v p) (sym e) h
        | inr (other, e) ↦ absurd (other refl)
      ]

  Turn-Queues : Queues (moved s i db' w')
  Turn-Queues = record {
    held = moved_held;
    ordered = λ j. elim (update-cases s.workers i w' j) [
      | inl (same, e) ↦
          subst (λ (v : Worker). PhaseOrder db' v.entries v.phase) (sym e)
            (PhaseOrder-same s.db db' t.moves.keys w'.entries w'.phase order)
      | inr (other, e) ↦
          subst (λ (v : Worker). PhaseOrder db' v.entries v.phase) (sym e)
            (PhaseOrder-same s.db db' t.moves.keys (s.workers j).entries (s.workers j).phase
              (q.ordered j))
    ];
    keyed = Keyed-same s.db db' t.moves.keys q.keyed;
  }

pub Reach-Queues : (env : Env) (s t : Machine) → Reach env s t → Inv s → Queues s → Queues t
Reach-Queues env s _ here inv q = q
Reach-Queues env s u (next {t} r step) inv q =
    let inv' = Reach-Inv env s t r inv in
    let (db', same, turn) = Step-Turn env t u step inv' in
    let before = Reach-Queues env s t r inv q in
    subst Queues (sym same) (
      Turn-Queues t (stepper step) db' (stepped step) before turn
        (Step-PhaseOrder env t u step inv' before))

-- The latches are all free at the start.
pub IsStart-Queues :
    (s : Machine) → IsStart s → ((p : ℕ) → ¬ IsLatched s.db p) → Keyed s.db → Queues s
IsStart-Queues s start free keyed = record {
  held = λ p taken. absurd (free p taken);
  ordered = λ i. subst (PhaseOrder s.db (s.workers i).entries) (sym (start.idle i)) tt;
  keyed = keyed;
}
