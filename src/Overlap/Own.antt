-- ===== src/Overlap/Own.antt =====
-- What holds of one thread, and what the steps of others leave of it.
use data_agent_demo.Prelude.{
  ℕ, ◌<◌, ◌≤◌, ◌≡◌, ◌⊎◌, refl, sym, ◌∙◌, subst, some, arith, length, get_elem?,
}
use data_agent_demo.System.{rd}
use data_agent_demo.Row.{Row, RowOcc}
use data_agent_demo.Database.{Database, store}
use data_agent_demo.Txn.{Access}
use data_agent_demo.Txn.Passes.{IsCurrent}
use data_agent_demo.Txn.Returns.{IsBefore}
use data_agent_demo.Txn.Stages.{tick, load-tick}
use data_agent_demo.World.{Seen}
use data_agent_demo.Overlap.{
  Phase, ended, running, latching, installing, releasing, Worker, span, Holds,
}
use data_agent_demo.Overlap.Store.{
  Names, IsLatched, Replaces, Names-store, IsLatched-store, IsCurrent-store, IsBefore-store,
  Seen-store,
}

-- The counters of a phase are within the access set.
abbrev pub Within : Phase → ℕ → Type 0
Within ended n = Unit
Within running n = Unit
Within (latching count) n = count ≤ n
Within (installing end_ts rid) n = rid ≤ n
Within (releasing from lock_cnt) n = lock_cnt ≤ n

-- In the latching loop, the latched rows passed the test and still would.
abbrev pub Tested : Database → Worker → Phase → Type 0
Tested db w (latching count) =
    (k : ℕ) (a : Access) → k < count → get_elem? w.entries k ≡ some a → IsCurrent w.start_ts db a
Tested db w _ = Unit

-- In a commit, the rows still to be given back are older than its time.
abbrev pub Older : Database → Worker → Phase → Type 0
Older db w (installing end_ts rid) =
    (end_ts < db.timestamp)
    × ((k : ℕ) (a : Access) → k < rid → get_elem? w.entries k ≡ some a → IsBefore end_ts db a)
Older db w _ = Unit

pub record Own (db : Database) (w : Worker) : Type 0 where
  pub names : (k : ℕ) (a : Access) → get_elem? w.entries k ≡ some a → Names db a
  pub distinct :
      (k l : ℕ) (a b : Access)
      → get_elem? w.entries k ≡ some a
      → get_elem? w.entries l ≡ some b
      → a.orig_row ≡ b.orig_row
      → k ≡ l
  pub started : w.start_ts < db.timestamp
  pub seen : (k : ℕ) (a : Access) → get_elem? w.entries k ≡ some a → Seen w.start_ts db a
  pub latched : (p : ℕ) → Holds w p → IsLatched db p
  pub within : Within w.phase (length w.entries)
  pub tested : Tested db w w.phase
  pub older : Older db w w.phase

-- a thread that holds the latch of an entry's row
pub Holds-latching :
    (w : Worker) (count k p : ℕ) (a : Access)
    → w.phase ≡ latching count
    → k < count
    → get_elem? w.entries k ≡ some a
    → a.orig_row ≡ some p
    → Holds w p
Holds-latching w count k p a e lt at row = record {
  place = k;
  entry = a;
  from = subst (λ ph. (span ph (length w.entries)).0 ≤ k) (sym e) (omega arith);
  to = subst (λ ph. k < (span ph (length w.entries)).1) (sym e) lt;
  at = at;
  row = row;
}

pub Holds-installing :
    (w : Worker) (end_ts rid k p : ℕ) (a : Access)
    → w.phase ≡ installing end_ts rid
    → k < length w.entries
    → get_elem? w.entries k ≡ some a
    → a.orig_row ≡ some p
    → Holds w p
Holds-installing w end_ts rid k p a e lt at row = record {
  place = k;
  entry = a;
  from = subst (λ ph. (span ph (length w.entries)).0 ≤ k) (sym e) (omega arith);
  to = subst (λ ph. k < (span ph (length w.entries)).1) (sym e) lt;
  at = at;
  row = row;
}

-- A store to a row whose latch the thread does not hold.
module _ (db : Database) (p : ℕ) (r r' : Row) (c : Replaces db p r r') (w : Worker)
    (free : ¬ Holds w p) where
  Tested-store :
      (phase : Phase) → w.phase ≡ phase → Tested db w phase → Tested (store db p r') w phase
  Tested-store ended e h = tt
  Tested-store running e h = tt
  Tested-store (installing end_ts rid) e h = tt
  Tested-store (releasing from lock_cnt) e h = tt
  Tested-store (latching count) e h = λ k a lt at.
      IsCurrent-store db p r r' c w.start_ts a
        (λ row. free (Holds-latching w count k p a e lt at row)) (h k a lt at)

  Older-store :
      (phase : Phase)
      → w.phase ≡ phase
      → Within phase (length w.entries)
      → Older db w phase
      → Older (store db p r') w phase
  unfolding store
  Older-store ended e n h = tt
  Older-store running e n h = tt
  Older-store (latching count) e n h = tt
  Older-store (releasing from lock_cnt) e n h = tt
  Older-store (installing end_ts rid) e n h = (
    h.0,
    λ k a lt at.
        IsBefore-store db p r r' c end_ts a
          (λ row. free (Holds-installing w end_ts rid k p a e (omega (arith, lt, n)) at row))
          (h.1 k a lt at),
  )

  pub Own-store :
      ((k : ℕ) (a : Access) (m' : RowOcc)
        → get_elem? w.entries k ≡ some a
        → a.orig_row ≡ some p
        → a.type ≡ rd
        → r'.manager ≡ some m'
        → (w.start_ts < m'.wts)
          ⊎ ((r'.data_bytes ≡ r.data_bytes)
              × (m : RowOcc) × (r.manager ≡ some m)
              × (m.wts ≡ m'.wts)))
      → Own db w
      → Own (store db p r') w
  unfolding store
  Own-store kept o = record {
    names = λ k a at. Names-store db p r r' c a (o.names k a at);
    distinct = o.distinct;
    started = o.started;
    seen = λ k a at.
        Seen-store db p r r' c w.start_ts a
          (λ m' row reads managed. kept k a m' at row reads managed) (o.seen k a at);
    latched = λ q h.
        IsLatched-store db p r r' c q (λ same. free (subst (Holds w) (sym same) h)) (o.latched q h);
    within = o.within;
    tested = Tested-store w.phase refl o.tested;
    older = Older-store w.phase refl o.within o.older;
  }

-- The clock moves on.
module _ (db : Database) (w : Worker) (later : db.timestamp ≤ (tick db).timestamp) where
  Names-tick : (a : Access) → Names db a → Names (tick db) a
  Names-tick a h = record {
    addr = h.addr;
    row = h.row;
    copy = h.copy;
    at = h.at;
    there = load-tick db h.addr ∙ h.there;
    copied = h.copied;
    copy_sized = h.copy_sized;
    row_sized = h.row_sized;
  }

  Tested-tick : (phase : Phase) → Tested db w phase → Tested (tick db) w phase
  Tested-tick (latching count) h = λ k a lt at p r m row there managed.
      h k a lt at p r m row (sym (load-tick db p) ∙ there) managed
  Tested-tick ended h = tt
  Tested-tick running h = tt
  Tested-tick (installing end_ts rid) h = tt
  Tested-tick (releasing from lock_cnt) h = tt

  Older-tick : (phase : Phase) → Older db w phase → Older (tick db) w phase
  Older-tick (installing end_ts rid) h = (
    omega (arith, h.0, later),
    λ k a lt at p r m row there managed.
        h.1 k a lt at p r m row (sym (load-tick db p) ∙ there) managed,
  )
  Older-tick ended h = tt
  Older-tick running h = tt
  Older-tick (latching count) h = tt
  Older-tick (releasing from lock_cnt) h = tt

  pub Own-tick : Own db w → Own (tick db) w
  Own-tick o = record {
    names = λ k a at. Names-tick a (o.names k a at);
    distinct = o.distinct;
    started = omega (arith, o.started, later);
    seen = λ k a at p r l m row there managed copied reads current.
        o.seen k a at p r l m row (sym (load-tick db p) ∙ there) managed copied reads current;
    latched = λ p h.
        let before = o.latched p h in
        record {
          row = before.row;
          occ = before.occ;
          there = load-tick db p ∙ before.there;
          managed = before.managed;
          state = before.state;
        };
    within = o.within;
    tested = Tested-tick w.phase o.tested;
    older = Older-tick w.phase o.older;
  }

-- The thread goes on to another phase.
pub Own-phase :
    (db : Database) (w : Worker) (phase' : Phase)
    → Own db w
    → Within phase' (length w.entries)
    → ((p : ℕ) → Holds (record w { phase = phase' }) p → IsLatched db p)
    → Tested db w phase'
    → Older db w phase'
    → Own db (record w { phase = phase' })
Own-phase db w phase' o within latched tested older = record {
  names = o.names;
  distinct = o.distinct;
  started = o.started;
  seen = o.seen;
  latched = latched;
  within = within;
  tested = Tested-same phase' tested;
  older = Older-same phase' older;
}
  where
    Tested-same :
        (phase : Phase) → Tested db w phase → Tested db (record w { phase = phase' }) phase
    Tested-same (latching count) h = h
    Tested-same ended h = tt
    Tested-same running h = tt
    Tested-same (installing end_ts rid) h = tt
    Tested-same (releasing from lock_cnt) h = tt

    Older-same : (phase : Phase) → Older db w phase → Older db (record w { phase = phase' }) phase
    Older-same (installing end_ts rid) h = h
    Older-same ended h = tt
    Older-same running h = tt
    Older-same (latching count) h = tt
    Older-same (releasing from lock_cnt) h = tt
