-- ===== src/Txn/Release.antt =====
-- The loop of OptCC::validate that releases the latches.

use data_agent_demo.Prelude.{
  ℕ, ◌≡◌, ◌≢◌, refl, sym, ap, ◌∙◌, true, false, some, List, [], ◌∷◌, ◌++◌, arith, length,
}
use data_agent_demo.Run.{ok}
use data_agent_demo.Row.{Row, RowOcc}
use data_agent_demo.Row.Occ.{release}
use data_agent_demo.Database.{Database, load, store}
use data_agent_demo.Database.Memory.{load-store_ne}
use data_agent_demo.Txn.{Access}
use data_agent_demo.Txn.Validate.{orig, release_rows}
use data_agent_demo.Txn.Accesses.{All, Apart, Distinct, Changed, Changed-nil, Changed-cons}
use data_agent_demo.Txn.Passes.{relatch}

-- Entry `a` names a live row whose latch the transaction holds.
pub record Pinned (db : Database) (a : Access) : Type 0 where
  pub addr : ℕ
  pub row : Row
  pub occ : RowOcc
  pub at : a.orig_row ≡ some addr
  pub there : load db addr ≡ ok row
  pub managed : row.manager ≡ some occ
  pub state : occ.latched ≡ true

Pinned-store :
    (db : Database) (p : ℕ) (r r' : Row) (a : Access)
    → load db p ≡ ok r
    → a.orig_row ≢ some p
    → Pinned db a
    → Pinned (store db p r') a
Pinned-store db p r r' a there ne h = record {
  addr = h.addr;
  row = h.row;
  occ = h.occ;
  at = h.at;
  there = load-store_ne db p there h.addr r' (λ e. ne (h.at ∙ ap some (sym e))) ∙ h.there;
  managed = h.managed;
  state = h.state;
}

pub release_lem :
    (r : Row) (m : RowOcc)
    → r.manager ≡ some m
    → m.latched ≡ true
    → release r ≡ ok (relatch false r)
unfolding release
release_lem r m e f = ground arith

orig-Pinned : (db : Database) (a : Access) (h : Pinned db a) → orig db a ≡ ok (h.addr, h.row)
unfolding orig
orig-Pinned db a h = ground (arith, h.at, h.there)

-- The release loop frees the latch of each of the first entries.
pub release_rows-Changed :
    (pinned spare : List Access) (db : Database)
    → All (Pinned db) pinned
    → Distinct pinned
    → (db' : Database) × (release_rows (length pinned) (pinned ++ spare) db ≡ ok db')
      × Changed (λ _. relatch false) pinned db db'
unfolding release_rows
release_rows-Changed [] spare db h d = (db, refl, Changed-nil _ db)
release_rows-Changed (a ∷ rest) spare db h d =
    let db₁ : Database = store db h.0.addr (relatch false h.0.row) in
    let (db', e, c) = release_rows-Changed rest spare db₁ (others rest d.0 h.1) d.1 in
    (
      db',
      rw (orig-Pinned db a h.0, release_lem h.0.row h.0.occ h.0.managed h.0.state) e,
      Changed-cons (λ _. relatch false) a rest db db' h.0.addr h.0.row h.0.at h.0.there d.0 c,
    )
  where
    others :
        (bs : List Access)
        → Apart a bs
        → All (Pinned db) bs
        → All (Pinned (store db h.0.addr (relatch false h.0.row))) bs
    others [] ap' ps = tt
    others (b ∷ bs) ap' ps = (
      Pinned-store db h.0.addr h.0.row (relatch false h.0.row) b h.0.there
          (λ e. ap'.0 (h.0.at ∙ sym e)) ps.0,
      others bs ap'.1 ps.1,
    )
