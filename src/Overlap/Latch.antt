-- ===== src/Overlap/Latch.antt =====
-- A round of the latching loop of OptCC::validate, as a turn of its thread.
use native.Mathlib.Decide.{ℕ_discrete}
use data_agent_demo.Prelude.{
  ℕ, ◌+◌, ◌<◌, ◌≤◌, ◌≡◌, ◌⊎◌, inl, inr, refl, sym, ap, ◌∙◌, subst, Bool, true, false, some, arith,
  length, get_elem?, ltb, Bool-cases,
}
use data_agent_demo.Run.{Run, ok}
use data_agent_demo.Row.{Row, RowOcc}
use data_agent_demo.Database.{Database, load, store}
use data_agent_demo.Database.Memory.{load-store_self, load-store_ne}
use data_agent_demo.Txn.{Access}
use data_agent_demo.Txn.Passes.{relatch, IsCurrent}
use data_agent_demo.World.Evolve.{ok_same, some_same}
use data_agent_demo.Overlap.{
  Phase, ended, running, latching, installing, releasing, Worker, span, Holds, latch_next,
}
use data_agent_demo.Overlap.Store.{Names, IsLatched, RowFits, Replaces, RowFits-store}
use data_agent_demo.Overlap.Own.{Own, Within, Tested, Older, Holds-latching, Own-store, Own-phase}
use data_agent_demo.Overlap.Rounds.{latch_next-taken, latch_next-free}
use data_agent_demo.Overlap.Moves.{Moves-store}
use data_agent_demo.Overlap.Turn.{Overtakes, AllFit, IsFree, IsFree-Holds, Turn}

pub relatch-manager :
    (b : Bool) (r : Row) (m : RowOcc)
    → r.manager ≡ some m
    → (relatch b r).manager ≡ some (record m { latched = b })
relatch-manager b r m e = rw e refl

-- The row of an entry gets another state of its latch.
module _ (db : Database) (fits : AllFit db) (a : Access) (h : Names db a) (b : Bool) where
  abbrev pub fit : RowFits db h.row
  fit = fits h.addr h.row h.there

  abbrev pub after : Database
  after = store db h.addr (relatch b h.row)

  abbrev pub replaced : Replaces db h.addr h.row (relatch b h.row)
  replaced = record { there = h.there; same_table = refl; same_key = refl; same_size = refl }

  pub after_fits : AllFit after
  after_fits =
      RowFits-store db h.addr h.row (relatch b h.row) replaced (record fit.occ { latched = b })
        (relatch-manager b h.row fit.occ fit.managed) fit.past fits

  -- A thread that does not hold the latch is as before.
  pub bystander : (v : Worker) → ¬ Holds v h.addr → Own db v → Own after v
  bystander v free =
      Own-store db h.addr h.row (relatch b h.row) replaced v free (λ k x m' at row reads managed.
        inr (
          refl,
          fit.occ,
          fit.managed,
          ap (λ (o : RowOcc). o.wts)
              (some_same (sym (relatch-manager b h.row fit.occ fit.managed) ∙ managed)),
        ))

-- the phase is none of a commit's writing
abbrev pub Quiet : Phase → Type 0
Quiet (installing end_ts rid) = ⊥
Quiet _ = Unit

pub Quiet-Overtakes : (v w : Worker) (phase : Phase) → Quiet phase → w.phase ≡ phase → Overtakes v w
Quiet-Overtakes v w (installing _ _) q e end_ts rid k l p a b e' = elim q [ ]
Quiet-Overtakes v w ended q e end_ts rid k l p a b e' = cc (e, e')
Quiet-Overtakes v w running q e end_ts rid k l p a b e' = cc (e, e')
Quiet-Overtakes v w (latching count) q e end_ts rid k l p a b e' = cc (e, e')
Quiet-Overtakes v w (releasing from lock_cnt) q e end_ts rid k l p a b e' = cc (e, e')

-- Latching: the thread did not have the row of its next entry, and now it has it.
module _ (db : Database) (w : Worker) (n : ℕ) (fits : AllFit db) (o : Own db w)
    (e : w.phase ≡ latching n) (a : Access) (at : get_elem? w.entries n ≡ some a)
    (lt : n < length w.entries) where
  abbrev named : Names db a
  named = o.names n a at

  module _ (m : RowOcc) (managed : named.row.manager ≡ some m) (state : m.latched ≡ false) where
    abbrev was_free : IsFree db named.addr
    was_free = record {
      row = named.row;
      occ = m;
      there = named.there;
      managed = managed;
      state = state;
    }

    abbrev locked_db : Database
    locked_db = after db fits a named true

    Own-locked : Own locked_db w
    Own-locked = bystander db fits a named true w (IsFree-Holds db w named.addr o was_free) o

    now_latched : IsLatched locked_db named.addr
    now_latched = record {
      row = relatch true named.row;
      occ = record m { latched = true };
      there = load-store_self db named.addr named.there (relatch true named.row);
      managed = relatch-manager true named.row m managed;
      state = refl;
    }

    -- what it holds then
    held_then :
        (phase' : Phase)
        → span phase' (length w.entries) ≡ (0, n + 1)
        → (q : ℕ) → Holds (record w { phase = phase' }) q
        → (named.addr ≡ q) ⊎ Holds w q
    held_then phase' s q k = elim (ℕ_discrete k.place n) [
      | yes last ↦
          let same : a ≡ k.entry =
            some_same (sym at ∙ (ap (get_elem? w.entries) (sym last) ∙ k.at)) in
          inl (some_same (sym named.at ∙ (ap (λ (x : Access). x.orig_row) same ∙ k.row)))
      | no other ↦
          let below : k.place < n + 1 = subst (λ (x : ℕ × ℕ). k.place < x.1) s k.to in
          inr (Holds-latching w n k.place q k.entry e (grind (arith, below, other)) k.at k.row)
    ]

    latched_then :
        (phase' : Phase)
        → span phase' (length w.entries) ≡ (0, n + 1)
        → (q : ℕ) → Holds (record w { phase = phase' }) q
        → IsLatched locked_db q
    latched_then phase' s q k = elim (held_then phase' s q k) [
      | inl same ↦ subst (IsLatched locked_db) same now_latched
      | inr before ↦ Own-locked.latched q before
    ]

    holds_next :
        (phase' : Phase)
        → span phase' (length w.entries) ≡ (0, n + 1)
        → Holds (record w { phase = phase' }) named.addr
    holds_next phase' s = record {
      place = n;
      entry = a;
      from = subst (λ (x : ℕ × ℕ). x.0 ≤ n) (sym s) (omega arith);
      to = subst (λ (x : ℕ × ℕ). n < x.1) (sym s) (omega arith);
      at = at;
      row = named.at;
    }

    still_held :
        (phase' : Phase)
        → span phase' (length w.entries) ≡ (0, n + 1)
        → (q : ℕ) → Holds w q
        → Holds (record w { phase = phase' }) q
    still_held phase' s q h =
        let below : h.place < n = subst (λ ph. h.place < (span ph (length w.entries)).1) e h.to in
        record {
          place = h.place;
          entry = h.entry;
          from = subst (λ (x : ℕ × ℕ). x.0 ≤ h.place) (sym s) (omega arith);
          to = subst (λ (x : ℕ × ℕ). h.place < x.1) (sym s) (omega (arith, below));
          at = h.at;
          row = h.row;
        }

    latch-Turn :
        (phase' : Phase)
        → span phase' (length w.entries) ≡ (0, n + 1)
        → Quiet phase'
        → Within phase' (length w.entries)
        → Tested locked_db w phase'
        → Older locked_db w phase'
        → Turn db w locked_db (record w { phase = phase' })
    latch-Turn phase' s quiet within tested older = record {
      fits = after_fits db fits a named true;
      own = Own-phase locked_db w phase' Own-locked within (latched_then phase' s) tested older;
      grows = λ q k. elim (held_then phase' s q k) [
        | inl same ↦ inr (subst (IsFree db) same was_free)
        | inr before ↦ inl before
      ];
      overtaken = λ v own before. Quiet-Overtakes v (record w { phase = phase' }) phase' quiet refl;
      overtakes = λ v own before. before;
      moves =
          Moves-store db named.addr named.row (relatch true named.row) w
            (record w { phase = phase' }) (replaced db fits a named true)
            (λ taken. inr (holds_next phase' s)) (λ q taken held. still_held phase' s q held);
      keeps = λ q unheld taken.
          load-store_ne db named.addr named.there q (relatch true named.row)
            (λ same. taken (subst (IsFree db) same was_free));
      others = λ v own before apart.
          bystander db fits a named true v (IsFree-Holds db v named.addr own was_free) own;
    }

    -- the new row passes the test, if it did
    tested_now : m.wts ≤ w.start_ts → IsCurrent w.start_ts locked_db a
    tested_now le p r m' row there managed' =
        let addr : named.addr ≡ p = some_same (sym named.at ∙ row) in
        let same : relatch true named.row ≡ r = ok_same (
          sym (load-store_self db named.addr named.there (relatch true named.row))
          ∙ (ap (load locked_db) addr ∙ there)) in
        let occ : record m { latched = true } ≡ m' = some_same (
          sym (relatch-manager true named.row m managed)
          ∙ (ap (λ (x : Row). x.manager) same ∙ managed')) in
        omega (arith, le, ap (λ (x : RowOcc). x.wts) occ)

    Tested-then : m.wts ≤ w.start_ts → Tested locked_db w (latching (n + 1))
    Tested-then le k x below x_at = elim (ℕ_discrete k n) [
      | yes last ↦
          let same : a ≡ x = some_same (sym at ∙ (ap (get_elem? w.entries) (sym last) ∙ x_at)) in
          subst (IsCurrent w.start_ts locked_db) same (tested_now le)
      | no other ↦
          subst (Tested locked_db w) e Own-locked.tested k x (grind (arith, below, other)) x_at
    ]

    -- the round, when the latch is free
    latched-Turn :
        (db' : Database) (phase' : Phase)
        → latch_next db w n ≡ ok (db', phase')
        → Turn db w db' (record w { phase = phase' })
    latched-Turn db' phase' run =
        let round = latch_next-free db w n a at named m managed state in
        elim (Bool-cases (ltb w.start_ts m.wts)) [
          | inl stale ↦
              let same : ◌≡◌ {A = Run (Database × Phase)} (ok (locked_db, releasing 0 (n + 1)))
                  (ok (db', phase')) =
                sym (round ∙ rw stale refl) ∙ run in
              subst (λ (x : Database × Phase). Turn db w x.0 (record w { phase = x.1 }))
                (ok_same same) (latch-Turn (releasing 0 (n + 1)) refl tt (omega (arith, lt)) tt tt)
          | inr current ↦
              let same : ◌≡◌ {A = Run (Database × Phase)} (ok (locked_db, latching (n + 1)))
                  (ok (db', phase')) =
                sym (round ∙ rw current refl) ∙ run in
              subst (λ (x : Database × Phase). Turn db w x.0 (record w { phase = x.1 }))
                (ok_same same)
                (latch-Turn (latching (n + 1)) refl tt (omega (arith, lt))
                  (Tested-then (ground (arith, current))) tt)
        ]

  pub latch_next-Turn :
      (db' : Database) (phase' : Phase)
      → latch_next db w n ≡ ok (db', phase')
      → Turn db w db' (record w { phase = phase' })
  latch_next-Turn db' phase' run =
      let f = fits named.addr named.row named.there in
      elim (Bool-cases f.occ.latched) [
        | inl taken ↦ cc (latch_next-taken db w n a at named f.occ f.managed taken, run)
        | inr free ↦ latched-Turn f.occ f.managed free db' phase' run
      ]
