-- ===== src/Overlap/Steps.antt =====
-- The steps that change an access set, and the steps of `validate`, as turns.
use data_agent_demo.Prelude.{
  ℕ, ◌≡◌, ◌≢◌, inl, inr, refl, sym, ap, ◌∙◌, subst, true, some, List, [], ◌∷◌, ◌++◌, arith, length,
  get_elem?, ltb, Bool-cases,
}
use data_agent_demo.Run.{ok, fault, deadlock}
use data_agent_demo.System.{Rc, rcok, AccessType}
use data_agent_demo.Env.{Env}
use data_agent_demo.Row.{Row, Table, get_tuple_size, RowOcc}
use data_agent_demo.Row.Occ.{access}
use data_agent_demo.Database.{Database, load, store}
use data_agent_demo.Database.Memory.{store_same}
use data_agent_demo.Txn.{Access, get_row_copy}
use data_agent_demo.Txn.Copies.{
  IsIdle, copy_of, data_bytes-copy_of, table-copy_of, get_row_copy-current, get_row_copy-stale,
}
use data_agent_demo.World.{Seen}
use data_agent_demo.World.Evolve.{ok_same, some_same}
use data_agent_demo.Overlap.{running, latching, Worker, Holds}
use data_agent_demo.Overlap.Store.{Names, RowFits}
use data_agent_demo.Overlap.Moves.{Moves-same}
use data_agent_demo.Overlap.Own.{Own, Holds-installing}
use data_agent_demo.Overlap.Rounds.{latch_taken}
use data_agent_demo.Overlap.Turn.{Overtakes, Turn, AllFit, IsFree, IsFree-Holds}
use data_agent_demo.Overlap.Latch.{Quiet-Overtakes}
use data_agent_demo.Overlap.Entries.{get-snoc_cases, get-lt, AreDistinct}

-- A thread that holds no latch changes its access set.
module _ (db : Database) (w : Worker) (fits : AllFit db) (o : Own db w) (entries' : List Access)
    (names : (k : ℕ) (a : Access) → get_elem? entries' k ≡ some a → Names db a)
    (distinct : AreDistinct entries')
    (seen : (k : ℕ) (a : Access) → get_elem? entries' k ≡ some a → Seen w.start_ts db a)
    (idle : (p : ℕ) → ¬ Holds w p)
    (overtakes : (v : Worker)
      → Own db v
      → Overtakes w v
      → Overtakes (record w { entries = entries'; phase = running }) v) where
  pub running-Turn : Turn db w db (record w { entries = entries'; phase = running })
  running-Turn = record {
    fits = fits;
    own = record {
      names = names;
      distinct = distinct;
      started = o.started;
      seen = seen;
      latched = λ p h. absurd (omega (arith, h.to));
      within = tt;
      tested = tt;
      older = tt;
    };
    grows = λ p h. absurd (omega (arith, h.to));
    overtaken = λ v own before.
        Quiet-Overtakes v (record w { entries = entries'; phase = running }) running tt refl;
    overtakes = overtakes;
    moves = Moves-same db db w _ (λ q. refl) (λ q h. absurd (idle q h));
    keeps = λ q unheld taken. refl;
    others = λ v own before apart. own;
  }

  pub latching-Turn : Turn db w db (record w { entries = entries'; phase = latching 0 })
  latching-Turn = record {
    fits = fits;
    own = record {
      names = names;
      distinct = distinct;
      started = o.started;
      seen = seen;
      latched = λ p h. absurd (omega (arith, h.to));
      within = omega arith;
      tested = λ k a lt at. absurd (omega (arith, lt));
      older = tt;
    };
    grows = λ p h. absurd (omega (arith, h.to));
    overtaken = λ v own before.
        Quiet-Overtakes v (record w { entries = entries'; phase = latching 0 }) (latching 0) tt
          refl;
    overtakes = overtakes;
    moves = Moves-same db db w _ (λ q. refl) (λ q h. absurd (idle q h));
    keeps = λ q unheld taken. refl;
    others = λ v own before apart. own;
  }

-- `row_t::get_row` waits for the latch.
pub get_row_copy-taken :
    (env : Env) (r : Row) (m : RowOcc) (start_ts : ℕ)
    → r.manager ≡ some m
    → m.latched ≡ true
    → get_row_copy env r start_ts ≡ fault deadlock
unfolding get_row_copy access
get_row_copy-taken env r m start_ts e taken = rw (latch_taken r m e taken) refl

-- `get_row` of a row with no entry yet
module _ (env : Env) (db : Database) (w : Worker) (p : ℕ) (r : Row) (type : AccessType)
    (fits : AllFit db) (o : Own db w) (there : load db p ≡ ok r)
    (fresh : (k : ℕ) (a : Access) → get_elem? w.entries k ≡ some a → a.orig_row ≢ some p)
    (idle : (q : ℕ) → ¬ Holds w q) where
  abbrev fit : RowFits db r
  fit = fits p r there

  abbrev new_entry : Access
  new_entry = record { type = type; orig_row = some p; local = some (copy_of env r) }

  abbrev with_entry : List Access
  with_entry = w.entries ++ new_entry ∷ []

  new-Names : Names db new_entry
  new-Names =
      let size : length (copy_of env r).data_bytes ≡ length r.data_bytes =
        ap length (data_bytes-copy_of env r) in
      let tuple : get_tuple_size (copy_of env r) ≡ get_tuple_size r =
        ap (λ (t : Table). t.schema.tuple_size) (table-copy_of env r) in
      record {
        addr = p;
        row = r;
        copy = copy_of env r;
        at = refl;
        there = there;
        copied = refl;
        copy_sized = size ∙ (fit.sized ∙ sym tuple);
        row_sized = fit.sized ∙ sym tuple;
      }

  new-Seen : Seen w.start_ts db new_entry
  new-Seen q s l m at there' managed copied reads current =
      let copy : copy_of env r ≡ l = some_same copied in
      let row : r ≡ s = ok_same (sym there ∙ (ap (load db) (some_same at) ∙ there')) in
      ap (λ (x : Row). x.data_bytes) (sym copy)
      ∙ (data_bytes-copy_of env r ∙ ap (λ (x : Row). x.data_bytes) row)

  with-AreDistinct : AreDistinct with_entry
  with-AreDistinct k l a b at at' same = elim (get-snoc_cases w.entries new_entry k a at) [
    | inl old ↦ elim (get-snoc_cases w.entries new_entry l b at') [
      | inl old' ↦ o.distinct k l a b old old' same
      | inr (last, new) ↦ absurd (fresh k a old (same ∙ ap (λ (x : Access). x.orig_row) (sym new)))
    ]
    | inr (last, new) ↦ elim (get-snoc_cases w.entries new_entry l b at') [
      | inl old' ↦ absurd (fresh l b old' (sym same ∙ ap (λ (x : Access). x.orig_row) (sym new)))
      | inr (last', new') ↦ last ∙ sym last'
    ]
  ]

  read-Turn : IsFree db p → Turn db w db (record w { entries = with_entry; phase = running })
  read-Turn free =
      running-Turn db w fits o with_entry
        (λ k a at. elim (get-snoc_cases w.entries new_entry k a at) [
          | inl old ↦ o.names k a old
          | inr (last, new) ↦ subst (Names db) new new-Names
        ])
        with-AreDistinct
        (λ k a at. elim (get-snoc_cases w.entries new_entry k a at) [
          | inl old ↦ o.seen k a old
          | inr (last, new) ↦ subst (Seen w.start_ts db) new new-Seen
        ])
        idle
        (λ v own before end_ts rid k l q a b e lt b_at b_row a_at a_row.
          elim (get-snoc_cases w.entries new_entry l a a_at) [
            | inl old ↦ before end_ts rid k l q a b e lt b_at b_row old a_row
            | inr (last, new) ↦
                let here : p ≡ q = some_same (ap (λ (x : Access). x.orig_row) new ∙ a_row) in
                absurd (
                  IsFree-Holds db v p own free (
                    Holds-installing v end_ts rid k p b e (get-lt v.entries k b b_at) b_at
                      (b_row ∙ ap some (sym here))))
          ])

  pub reads-Turn :
      (r' copied : Row)
      → get_row_copy env r w.start_ts ≡ ok (rcok, copied, r')
      → Turn db w (store db p r') (record w {
        entries = w.entries ++ record { type = type; orig_row = some p; local = some copied } ∷ [];
        phase = running;
      })
  reads-Turn r' copied run = elim (Bool-cases fit.occ.latched) [
    | inl taken ↦ cc (get_row_copy-taken env r fit.occ w.start_ts fit.managed taken, run)
    | inr free ↦
        let idle : IsIdle db p r = record {
          occ = fit.occ;
          there = there;
          managed = fit.managed;
          state = free;
          sized = fit.sized;
        } in
        elim (Bool-cases (ltb w.start_ts fit.occ.wts)) [
          | inl stale ↦ absurd (
              refuses (
                ap (λ (x : Rc × Row × Row). x.0)
                  (ok_same (sym (get_row_copy-stale env db p r idle w.start_ts stale) ∙ run))))
          | inr current ↦
              let same =
                ok_same (sym (get_row_copy-current env db p r idle w.start_ts current) ∙ run) in
              subst
                (λ (x : Rc × Row × Row). Turn db w (store db p x.2) (record w {
                  entries =
                      w.entries ++ record { type = type; orig_row = some p; local = some x.1 } ∷ [];
                  phase = running;
                }))
                same
                (subst (λ d. Turn db w d (record w { entries = with_entry; phase = running }))
                  (sym (store_same db p r there))
                  (read-Turn (record {
                    row = r;
                    occ = fit.occ;
                    there = there;
                    managed = fit.managed;
                    state = free;
                  })))
        ]
  ]
    where
      refuses : ¬ (Rc.abort ≡ rcok)
      refuses e = cc e
