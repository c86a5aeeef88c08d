-- ===== src/Overlap/Order.antt =====
-- The order in which the latching loops of OptCC::validate take the rows.
use data_agent_demo.Prelude.{ℕ, ◌<◌, ◌≡◌, refl, sym, ◌∙◌, some, List, arith, get_elem?}
use data_agent_demo.Run.{ok}
use data_agent_demo.Row.{Row}
use data_agent_demo.Database.{Database, load}
use data_agent_demo.Txn.{Access}
use data_agent_demo.Txn.Validate.{orig, row_greater}
use data_agent_demo.Txn.Order.{RowLe}
use data_agent_demo.Txn.Ascends.{Ordered}
use data_agent_demo.World.Latches.{Ordered-get}
use data_agent_demo.Overlap.{Phase, ended, running, latching, installing, releasing}

-- The rows of the entries do not come one before another of a later place.
abbrev pub PairsLe : Database → List Access → Type 0
PairsLe db entries =
    (k l : ℕ) (a b : Access) (p q : ℕ) (r s : Row)
    → k < l
    → get_elem? entries k ≡ some a
    → get_elem? entries l ≡ some b
    → a.orig_row ≡ some p
    → b.orig_row ≡ some q
    → load db p ≡ ok r
    → load db q ≡ ok s
    → RowLe r s

-- It matters in the latching loop.
abbrev pub PhaseOrder : Database → List Access → Phase → Type 0
PhaseOrder db entries (latching count) = PairsLe db entries
PhaseOrder db entries _ = Unit

-- No two rows of the memory have one table and one primary key.
abbrev pub Keyed : Database → Type 0
Keyed db =
    (p q : ℕ) (r s : Row) → load db p ≡ ok r → load db q ≡ ok s → RowLe r s → RowLe s r → p ≡ q

abbrev pub SameKeys : Database → Database → Type 0
SameKeys db db' =
    (q : ℕ) (s : Row)
    → load db' q ≡ ok s
    → (r : Row) × (load db q ≡ ok r) × (s.table ≡ r.table) × (s.primary_key ≡ r.primary_key)

pub RowLe-same :
    (r r' s s' : Row)
    → r'.table ≡ r.table
    → r'.primary_key ≡ r.primary_key
    → s'.table ≡ s.table
    → s'.primary_key ≡ s.primary_key
    → row_greater r' s' ≡ row_greater r s
unfolding row_greater
RowLe-same r r' s s' t k t' k' = rw (t, k, t', k') refl

module _ (db db' : Database) (keys : SameKeys db db') where
  PairsLe-same : (entries : List Access) → PairsLe db entries → PairsLe db' entries
  PairsLe-same entries h k l a b p q r' s' lt at at' row row' there there' =
      let (r, was, table, key) = keys p r' there in
      let (s, was', table', key') = keys q s' there' in
      RowLe-same r r' s s' table key table' key' ∙ h k l a b p q r s lt at at' row row' was was'

  pub PhaseOrder-same :
      (entries : List Access) (phase : Phase)
      → PhaseOrder db entries phase
      → PhaseOrder db' entries phase
  PhaseOrder-same entries (latching count) h = PairsLe-same entries h
  PhaseOrder-same entries ended h = tt
  PhaseOrder-same entries running h = tt
  PhaseOrder-same entries (installing end_ts rid) h = tt
  PhaseOrder-same entries (releasing from lock_cnt) h = tt

  pub Keyed-same : Keyed db → Keyed db'
  Keyed-same h p q r' s' there there' le back =
      let (r, was, table, key) = keys p r' there in
      let (s, was', table', key') = keys q s' there' in
      h p q r s was was' (sym (RowLe-same r r' s s' table key table' key') ∙ le)
        (sym (RowLe-same s s' r r' table' key' table key) ∙ back)

orig-at :
    (db : Database) (a : Access) (p : ℕ) (r : Row)
    → a.orig_row ≡ some p
    → load db p ≡ ok r
    → orig db a ≡ ok (p, r)
unfolding orig
orig-at db a p r at there = ground (arith, at, there)

-- The sort puts them so.
pub Ordered-PairsLe :
    (db : Database) (entries : List Access) → Ordered db entries → PairsLe db entries
Ordered-PairsLe db entries h k l a b p q r s lt at at' row row' there there' =
    Ordered-get db entries k l a b h lt at at' p q r s (orig-at db a p r row there)
      (orig-at db b q s row' there')

pub PairsLe-phase :
    (db : Database) (entries : List Access) (phase : Phase)
    → PairsLe db entries
    → PhaseOrder db entries phase
PairsLe-phase db entries (latching count) h = h
PairsLe-phase db entries ended h = tt
PairsLe-phase db entries running h = tt
PairsLe-phase db entries (installing end_ts rid) h = tt
PairsLe-phase db entries (releasing from lock_cnt) h = tt
