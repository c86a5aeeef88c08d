-- ===== src/Txn/Opened.antt =====
-- The access set of an open transaction, and the same sorted, as OptCC::validate of occ.cpp begins.
use mathlib.Core.List.{Permᴰ}
use data_agent_demo.Prelude.{◌-◌, ◌≡◌, sym, ap, ◌∙◌, Bool, false, List, [], ◌++◌, length}
use data_agent_demo.Run.{ok}
use data_agent_demo.Database.{Database}
use data_agent_demo.Txn.{Access, Txn}
use data_agent_demo.Txn.Validate.{sort}
use data_agent_demo.Txn.Accesses.{All, All-map, All-perm, Held, Distinct, Distinct-perm}
use data_agent_demo.Txn.Passes.{orig-Held}
use data_agent_demo.Txn.Sort.{Live, length_perm}
use data_agent_demo.Txn.Ascends.{sort-Ascends}

-- The transaction is open: its entries in use hold different live rows with free latches, and are followed
-- by spare entries only.
pub record IsOpen (t : Txn) (db : Database) : Type 0 where
  pub used : List Access
  pub spare : List Access
  pub split : t.accesses ≡ used ++ spare
  pub counted : length used ≡ t.row_cnt
  pub held : All (Held false db) used
  pub distinct : Distinct used

-- `cleanup` empties the transaction's sets.
pub record IsEmptied (t : Txn) : Type 0 where
  pub rows : t.row_cnt ≡ 0
  pub writes : t.wr_cnt ≡ 0
  pub inserts : t.insert_rows ≡ []
  pub positions : t.record_pos ≡ []

-- The entries of an access set, sorted.
pub record Sorted (t : Txn) (db : Database) (used spare : List Access) : Type 0 where
  pub entries : List Access
  pub returns : sort db (t.row_cnt - 1) t.accesses ≡ ok (entries ++ spare)
  pub perm : Permᴰ used entries
  pub counted : length entries ≡ t.row_cnt
  pub held : All (Held false db) entries
  pub distinct : Distinct entries

Held-Live : {b : Bool} (db : Database) (a : Access) → Held b db a → Live db a
Held-Live db a h = record { addr = h.addr; row = h.row; found = orig-Held db a h }

pub sorted : (t : Txn) (db : Database) (o : IsOpen t db) → Sorted t db o.used o.spare
sorted t db o =
    let (entries, returns, perm, ordered) =
      sort-Ascends db t.row_cnt o.used o.spare o.counted (All-map (Held-Live db) o.used o.held) in
    record {
      entries = entries;
      returns = ap (λ as'. sort db (t.row_cnt - 1) as') o.split ∙ returns;
      perm = perm;
      counted = sym (length_perm o.used entries perm) ∙ o.counted;
      held = All-perm (Held false db) o.used entries perm o.held;
      distinct = Distinct-perm o.used entries perm o.distinct;
    }
