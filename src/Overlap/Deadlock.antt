-- ===== src/Overlap/Deadlock.antt =====
-- The order of the latching loops rules deadlock out: of the threads in OptCC::validate some thread can go on.
use data_agent_demo.Prelude.{
  ℕ, zero, suc, ◌<◌, ◌≡◌, inl, inr, refl, sym, ap, ◌∙◌, subst, true, some, arith, length,
  Bool-cases,
}
use data_agent_demo.Run.{ok}
use data_agent_demo.Env.{Env}
use data_agent_demo.Row.{Row}
use data_agent_demo.Database.{load}
use data_agent_demo.Txn.Validate.{row_greater}
use data_agent_demo.Overlap.{
  Phase, ended, running, latching, installing, releasing, Worker, Machine, Reach, span, Holds,
}
use data_agent_demo.Overlap.Store.{IsLatched}
use data_agent_demo.Overlap.Moves.{Holds-none}
use data_agent_demo.Overlap.Turn.{Inv}
use data_agent_demo.Overlap.Reached.{IsStart, IsStart-Inv, Reach-Inv}
use data_agent_demo.Overlap.Ranks.{rank, rank-lt}
use data_agent_demo.Overlap.Order.{PairsLe, PhaseOrder, Keyed}
use data_agent_demo.Overlap.Waiting.{Queues, IsStart-Queues, Reach-Queues}
use data_agent_demo.Overlap.Progress.{InValidate, Goes, Waits, Goes-cases}

-- Who holds a latch is in `validate`.
Holds-InValidate :
    (w : Worker) (p : ℕ) (phase : Phase) → w.phase ≡ phase → Holds w p → InValidate phase
Holds-InValidate w p ended e h = absurd (Holds-none w ended p e refl h)
Holds-InValidate w p running e h = absurd (Holds-none w running p e refl h)
Holds-InValidate w p (latching count) e h = tt
Holds-InValidate w p (installing end_ts rid) e h = tt
Holds-InValidate w p (releasing from lock_cnt) e h = tt

module _ (s : Machine) (inv : Inv s) (q : Queues s) where
  abbrev Able : ℕ → Type 0
  Able i = Goes s.db (s.workers i) (s.workers i).phase

  abbrev Stuck : ℕ → Type 0
  Stuck i = Waits s.db (s.workers i) (s.workers i).phase

  -- A row that a waiting thread holds comes before the row that it waits for.
  held-behind :
      (j p : ℕ) (r : Row) (x : Stuck j)
      → Holds (s.workers j) p
      → load s.db p ≡ ok r
      → row_greater x.taken.row r ≡ true
  held-behind j p r x h there =
      let w = s.workers j in
      let below : h.place < x.count =
        subst (λ ph. h.place < (span ph (length w.entries)).1) x.in_loop h.to in
      let order : PairsLe s.db w.entries =
        subst (PhaseOrder s.db w.entries) x.in_loop (q.ordered j) in
      elim (Bool-cases (row_greater x.taken.row r)) [
        | inl behind ↦ behind
        | inr back ↦
            let le =
              order h.place x.count h.entry x.entry p x.addr r x.taken.row below h.at x.at h.row
                x.row there x.taken.there in
            let one : p ≡ x.addr = q.keyed p x.addr r x.taken.row there x.taken.there le back in
            let places =
              (inv.own j).distinct h.place x.count h.entry x.entry h.at x.at
                (h.row ∙ (ap some one ∙ sym x.row)) in
            absurd (omega (arith, below, places))
      ]

  -- Along the threads that wait for each other the rows come later and later.
  some-Able :
      (n i : ℕ) (x : Stuck i)
      → rank s.db x.taken.row < n
      → (j : ℕ) × InValidate (s.workers j).phase × Able j
  some-Able zero i x lt = absurd (omega (arith, lt))
  some-Able (suc n) i x lt =
      let (j, h) = q.held x.addr x.taken in
      let inside = Holds-InValidate (s.workers j) x.addr (s.workers j).phase refl h in
      elim (Goes-cases s.db (s.workers j) inv.fits (inv.own j) (s.workers j).phase refl inside) [
        | inl able ↦ (j, inside, able)
        | inr y ↦
            let less =
              rank-lt s.db y.addr x.taken.row y.taken.row y.taken.there
                (held-behind j x.addr x.taken.row y h x.taken.there) in
            some-Able n j y (omega (arith, less, lt))
      ]

-- In a machine that threads reach from a start where no latch is taken and no two rows have one table and one key:
-- while some thread is in `validate`, some thread in `validate` takes its next step, and has fewer steps left after
-- it. Validations at the same time never come to a standstill, whatever rows they share. The threads'
-- transactions insert no rows.
pub someone-Goes :
    (env : Env) (s t : Machine) (i : ℕ)
    → IsStart s
    → ((p : ℕ) → ¬ IsLatched s.db p)
    → Keyed s.db
    → Reach env s t
    → InValidate (t.workers i).phase
    → (j : ℕ) × InValidate (t.workers j).phase × Goes t.db (t.workers j) (t.workers j).phase
someone-Goes env s t i start free keyed reached inside =
    let inv = Reach-Inv env s t reached (IsStart-Inv s start) in
    let q =
      Reach-Queues env s t reached (IsStart-Inv s start) (IsStart-Queues s start free keyed) in
    elim (Goes-cases t.db (t.workers i) inv.fits (inv.own i) (t.workers i).phase refl inside) [
      | inl able ↦ (i, inside, able)
      | inr x ↦ some-Able t inv q (suc (rank t.db x.taken.row)) i x (omega arith)
    ]
