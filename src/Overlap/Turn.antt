-- ===== src/Overlap/Turn.antt =====
-- What one step of one thread owes to the machine, and the invariant of the machine.
use data_agent_demo.Prelude.{
  ℕ, ◌<◌, ◌≡◌, ◌≢◌, ◌⊎◌, inl, inr, refl, sym, ◌∙◌, subst, false, some, get_elem?, ◌==◌, Bool-cases,
  ==_iff,
}
use data_agent_demo.Run.{ok}
use data_agent_demo.Row.{Row, RowOcc}
use data_agent_demo.Database.{Database, load}
use data_agent_demo.Txn.{Access}
use data_agent_demo.Overlap.{installing, Worker, Machine, Holds, update, moved}
use data_agent_demo.Overlap.Store.{RowFits}
use data_agent_demo.Overlap.Own.{Own}
use data_agent_demo.Overlap.Moves.{Moves}

-- The first has started before the time of the second's commit, if they share a row that the second has not given
-- back yet.
abbrev pub Overtakes : Worker → Worker → Type 0
Overtakes v w =
    (end_ts rid k l p : ℕ) (a b : Access)
    → w.phase ≡ installing end_ts rid
    → k < rid
    → get_elem? w.entries k ≡ some b
    → b.orig_row ≡ some p
    → get_elem? v.entries l ≡ some a
    → a.orig_row ≡ some p
    → v.start_ts < end_ts

-- No two threads hold the latch of one row.
abbrev pub Apart : Worker → Worker → Type 0
Apart v w = (p : ℕ) → Holds v p → ¬ Holds w p

abbrev pub AllFit : Database → Type 0
AllFit db = (p : ℕ) (r : Row) → load db p ≡ ok r → RowFits db r

-- The row at `p` is live and its latch is free.
pub record IsFree (db : Database) (p : ℕ) : Type 0 where
  pub row : Row
  pub occ : RowOcc
  pub there : load db p ≡ ok row
  pub managed : row.manager ≡ some occ
  pub state : occ.latched ≡ false

pub record Turn (db : Database) (w : Worker) (db' : Database) (w' : Worker) : Type 0 where
  pub fits : AllFit db'
  pub own : Own db' w'
  pub grows : (p : ℕ) → Holds w' p → Holds w p ⊎ IsFree db p
  pub overtaken : (v : Worker) → Own db v → Overtakes v w → Overtakes v w'
  pub overtakes : (v : Worker) → Own db v → Overtakes w v → Overtakes w' v
  pub moves : Moves db w db' w'
  pub keeps : (q : ℕ) → ¬ Holds w q → ¬ IsFree db q → load db' q ≡ load db q
  pub others : (v : Worker) → Own db v → Overtakes v w → Apart v w → Own db' v

pub record Inv (s : Machine) : Type 0 where
  pub fits : AllFit s.db
  pub own : (i : ℕ) → Own s.db (s.workers i)
  pub alone : (i j : ℕ) → i ≢ j → Apart (s.workers i) (s.workers j)
  pub overtakes : (i j : ℕ) → i ≢ j → Overtakes (s.workers i) (s.workers j)

pub update-cases {ℓ} :
    {A : Type ℓ} (f : ℕ → A) (i : ℕ) (a : A) (j : ℕ)
    → ((i ≡ j) × (update f i a j ≡ a)) ⊎ ((i ≢ j) × (update f i a j ≡ f j))
update-cases f i a j = elim (Bool-cases (i == j)) [
  | inl same ↦ inl ((==_iff i j).0 same, rw same refl)
  | inr other ↦ inr ((λ e. cc (other, (==_iff i j).1 e)), rw other refl)
]

-- a free latch is nobody's
pub IsFree-Holds : (db : Database) (w : Worker) (p : ℕ) → Own db w → IsFree db p → ¬ Holds w p
IsFree-Holds db w p o free h =
    let taken = o.latched p h in
    cc (taken.there, free.there, taken.managed, free.managed, taken.state, free.state)

-- A turn of one thread keeps the invariant.
module _ (s : Machine) (i : ℕ) (db' : Database) (w' : Worker) (inv : Inv s)
    (t : Turn s.db (s.workers i) db' w') where
  turn-Apart : (j : ℕ) → i ≢ j → Apart w' (s.workers j)
  turn-Apart j ne p h k = elim (t.grows p h) [
    | inl before ↦ inv.alone i j ne p before k
    | inr free ↦ IsFree-Holds s.db (s.workers j) p (inv.own j) free k
  ]

  turn-Own : (j : ℕ) → i ≢ j → Own db' (s.workers j)
  turn-Own j ne =
      t.others (s.workers j) (inv.own j) (inv.overtakes j i (λ e. ne (sym e)))
        (inv.alone j i (λ e. ne (sym e)))

  pub Turn-Inv : Inv (moved s i db' w')
  Turn-Inv = record {
    fits = t.fits;
    own = λ j. elim (update-cases s.workers i w' j) [
      | inl (same, e) ↦ subst (Own db') (sym e) t.own
      | inr (ne, e) ↦ subst (Own db') (sym e) (turn-Own j ne)
    ];
    alone = λ j k ne. elim (update-cases s.workers i w' j) [
      | inl (same, e) ↦ elim (update-cases s.workers i w' k) [
        | inl (same', e') ↦ absurd (ne (sym same ∙ same'))
        | inr (ne', e') ↦
            subst (λ v. Apart v (update s.workers i w' k)) (sym e)
              (subst (Apart w') (sym e') (turn-Apart k ne'))
      ]
      | inr (ne', e) ↦ elim (update-cases s.workers i w' k) [
        | inl (same', e') ↦
            subst (λ v. Apart v (update s.workers i w' k)) (sym e)
              (subst (Apart (s.workers j)) (sym e') (λ p h h'. turn-Apart j ne' p h' h))
        | inr (_, e') ↦
            subst (λ v. Apart v (update s.workers i w' k)) (sym e)
              (subst (Apart (s.workers j)) (sym e') (inv.alone j k ne))
      ]
    ];
    overtakes = λ j k ne. elim (update-cases s.workers i w' j) [
      | inl (same, e) ↦ elim (update-cases s.workers i w' k) [
        | inl (same', e') ↦ absurd (ne (sym same ∙ same'))
        | inr (ne', e') ↦
            subst (λ v. Overtakes v (update s.workers i w' k)) (sym e)
              (subst (Overtakes w') (sym e')
                (t.overtakes (s.workers k) (inv.own k) (inv.overtakes i k ne')))
      ]
      | inr (ne', e) ↦ elim (update-cases s.workers i w' k) [
        | inl (same', e') ↦
            subst (λ v. Overtakes v (update s.workers i w' k)) (sym e)
              (subst (Overtakes (s.workers j)) (sym e')
                (t.overtaken (s.workers j) (inv.own j) (inv.overtakes j i (λ q. ne' (sym q)))))
        | inr (_, e') ↦
            subst (λ v. Overtakes v (update s.workers i w' k)) (sym e)
              (subst (Overtakes (s.workers j)) (sym e') (inv.overtakes j k ne))
      ]
    ];
  }
