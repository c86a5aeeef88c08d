-- ===== src/Overlap/Moves.antt =====
-- What a step does to the latches and to the keys of the rows.
use native.Mathlib.Decide.{ℕ_discrete}
use data_agent_demo.Prelude.{ℕ, ◌<◌, ◌≡◌, ◌⊎◌, inl, inr, refl, sym, ap, ◌∙◌, subst, arith, length}
use data_agent_demo.Run.{ok}
use data_agent_demo.Row.{Row}
use data_agent_demo.Database.{Database, load, store}
use data_agent_demo.Database.Memory.{load-store_ne}
use data_agent_demo.Overlap.{Phase, Worker, span, Holds}
use data_agent_demo.Overlap.Store.{IsLatched, Replaces, load-store_cases}

pub record Moves (db : Database) (w : Worker) (db' : Database) (w' : Worker) : Type 0 where
  -- a row of the new memory stands for one of the old, of the same table and key
  pub keys :
      (q : ℕ) (s : Row)
      → load db' q ≡ ok s
      → (r : Row) × (load db q ≡ ok r) × (s.table ≡ r.table) × (s.primary_key ≡ r.primary_key)
  -- a latch that is taken now was taken, or is the thread's
  pub news : (q : ℕ) → IsLatched db' q → IsLatched db q ⊎ Holds w' q
  -- the thread forgets no latch that stays taken
  pub drops : (q : ℕ) → IsLatched db' q → Holds w q → Holds w' q

-- no row is touched
pub Moves-same :
    (db db' : Database) (w w' : Worker)
    → ((q : ℕ) → load db' q ≡ load db q)
    → ((q : ℕ) → Holds w q → Holds w' q)
    → Moves db w db' w'
Moves-same db db' w w' same keep = record {
  keys = λ q s there. (s, sym (same q) ∙ there, refl, refl);
  news = λ q h. inl (record {
    row = h.row;
    occ = h.occ;
    there = sym (same q) ∙ h.there;
    managed = h.managed;
    state = h.state;
  });
  drops = λ q h. keep q;
}

-- a row is stored
pub Moves-store :
    (db : Database) (p : ℕ) (r r' : Row) (w w' : Worker)
    → Replaces db p r r'
    → (IsLatched (store db p r') p → IsLatched db p ⊎ Holds w' p)
    → ((q : ℕ) → IsLatched (store db p r') q → Holds w q → Holds w' q)
    → Moves db w (store db p r') w'
Moves-store db p r r' w w' c here drops = record {
  keys = λ q s there. elim (load-store_cases db p r r' c q s there) [
    | inl (same, new) ↦ (
      r,
      ap (load db) (sym same) ∙ c.there,
      ap (λ (x : Row). x.table) new ∙ c.same_table,
      ap (λ (x : Row). x.primary_key) new ∙ c.same_key,
    )
    | inr (other, old) ↦ (s, old, refl, refl)
  ];
  news = λ q h. elim (ℕ_discrete p q) [
    | yes same ↦
        subst (λ x. IsLatched db x ⊎ Holds w' x) same
          (here (subst (IsLatched (store db p r')) (sym same) h))
    | no other ↦ inl (record {
      row = h.row;
      occ = h.occ;
      there = sym (load-store_ne db p c.there q r' other) ∙ h.there;
      managed = h.managed;
      state = h.state;
    })
  ];
  drops = drops;
}

-- A phase that spans no entry holds no latch.
pub Holds-none :
    (w : Worker) (phase : Phase) (p : ℕ)
    → w.phase ≡ phase
    → (span phase (length w.entries)).1 ≡ 0
    → ¬ Holds w p
Holds-none w phase p e none h =
    let below : h.place < (span phase (length w.entries)).1 =
      subst (λ ph. h.place < (span ph (length w.entries)).1) e h.to in
    omega (arith, below, none)
