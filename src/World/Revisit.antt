-- ===== src/World/Revisit.antt =====
-- A transaction gets a row again.
use data_agent_demo.Prelude.{
  ℕ, ◌+◌, ◌≡◌, inl, inr, refl, sym, ap, ◌∙◌, subst, ◌&&◌, false, Option, none, some, arith,
  get_elem?, set, if◌then◌else◌, Bool-cases,
}
use data_agent_demo.Run.{ok}
use data_agent_demo.System.{AccessType, wr}
use data_agent_demo.Env.{Env}
use data_agent_demo.Row.{Row}
use data_agent_demo.Database.{Database, load}
use data_agent_demo.Txn.{Access, Txn, find_pos, rd?, wr?, revisit, get_row}
use data_agent_demo.Txn.Accesses.{Held}
use data_agent_demo.Txn.Open.{second_visit}
use data_agent_demo.Prelude.{get-front, get-inside}
use data_agent_demo.World.Change.{replaced-Active}
use data_agent_demo.World.{Seen, Active}
use data_agent_demo.World.Evolve.{ok_same}

-- A transaction gets a row again: the entry that was for reading may become one for writing.
abbrev upgraded : AccessType → Access → Access
upgraded type x = if rd? x.type && wr? type then record x { type = wr } else x

upgraded-row : (type : AccessType) (x : Access) → (upgraded type x).orig_row ≡ x.orig_row
upgraded-row type x = ground arith

upgraded-Held :
    (type : AccessType) (db : Database) (x : Access)
    → Held false db x
    → Held false db (upgraded type x)
upgraded-Held type db x h = elim (Bool-cases (rd? x.type && wr? type)) [
  | inl up ↦ rw up (record {
    addr = h.addr;
    row = h.row;
    occ = h.occ;
    copy = h.copy;
    at = h.at;
    there = h.there;
    managed = h.managed;
    state = h.state;
    copied = h.copied;
    copy_sized = h.copy_sized;
    row_sized = h.row_sized;
  })
  | inr same ↦ rw same h
]

upgraded-Seen :
    (type : AccessType) (start_ts : ℕ) (db : Database) (x : Access)
    → Seen start_ts db x
    → Seen start_ts db (upgraded type x)
upgraded-Seen type start_ts db x seen = elim (Bool-cases (rd? x.type && wr? type)) [
  | inl up ↦ rw up (λ p r l m at there managed copied reads current. cc reads)
  | inr same ↦ rw same seen
]

revisit_lem :
    (t : Txn) (db : Database) (type : AccessType) (pos : ℕ) (x : Access)
    → get_elem? t.accesses pos ≡ some x
    → revisit t db type pos
      ≡ ok (
        elim x.local [ none ↦ none | some l ↦ some pos ],
        record t {
          accesses = set t.accesses pos (upgraded type x);
          wr_cnt = if rd? x.type && wr? type then t.wr_cnt + 1 else t.wr_cnt;
        },
        db,
      )
unfolding revisit
revisit_lem t db type pos x at = rw at refl

-- A second visit.
pub revisit-Active :
    (env : Env) (t t' : Txn) (db db' : Database) (type : AccessType) (p pos : ℕ) (r : Row)
    (got : Option ℕ)
    → Active t db
    → load db p ≡ ok r
    → find_pos r.primary_key t.record_pos ≡ some pos
    → get_row env t db p type ≡ ok (got, t', db')
    → Active t' db × (db' ≡ db)
revisit-Active env t t' db db' type p pos r got a there found run =
    let inside = a.placed r.primary_key pos found in
    let (x, at_used) = get-inside a.open_set.used pos (omega (arith, inside, a.open_set.counted)) in
    let at : get_elem? t.accesses pos ≡ some x =
      ap (λ as'. get_elem? as' pos) a.open_set.split
      ∙ (get-front a.open_set.used a.open_set.spare pos (omega (arith, inside, a.open_set.counted))
          ∙ at_used) in
    let same = ok_same (
      sym (second_visit env t db type p pos r there found ∙ revisit_lem t db type pos x at)
      ∙ run) in
    (
      subst (λ u. Active u db) (ap (λ (u : Option ℕ × Txn × Database). u.1) same)
          (replaced-Active t db a pos x (upgraded type x) _ inside at (upgraded-row type x)
            (upgraded-Held type db x) (upgraded-Seen type t.start_ts db x)),
      sym (ap (λ (u : Option ℕ × Txn × Database). u.2) same),
    )
