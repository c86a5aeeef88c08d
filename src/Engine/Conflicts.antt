-- ===== src/Engine/Conflicts.antt =====
-- What get and put of Server/kv_api.cpp answer for a key that the index does not have, for a row that was written
-- after the start of the transaction, and for any other row.
use data_agent_demo.Prelude.{
  ℕ, ◌<◌, ◌≡◌, ◌≢◌, ◌⊎◌, inl, inr, refl, ap, ◌∙◌, true, false, Option, none, some, List, get_elem?,
  ltb, drop, take, if◌then◌else◌, Bool, Bool-cases,
}
use data_agent_demo.Run.{ok}
use data_agent_demo.System
use data_agent_demo.System.{rd, wr}
use data_agent_demo.Env.{Env}
use data_agent_demo.Bytes.{Bytes, c_str, c_string}
use data_agent_demo.IndexHash.{Item}
use data_agent_demo.Row.{Row, Table}
use data_agent_demo.Database.{Database}
use data_agent_demo.Txn.{Access, Txn, find_pos}
use data_agent_demo.Txn.Accesses.{All}
use data_agent_demo.Txn.Copies.{IsIdle, copy_of, data_bytes-copy_of, table-copy_of}
use data_agent_demo.Txn.KeyRows.{HasKey, HasKey-same}
use data_agent_demo.Txn.Open.{
  visited, entered, refused, entered_open, refused_open, accesses-entered, get_row-entered,
  get_row-refused,
}
use data_agent_demo.Txn.Opened.{IsOpen}
use data_agent_demo.Txn.Ops
use data_agent_demo.Txn.Ops.{index_read, read_row, write_old}
use data_agent_demo.Txn.OwnWrites.{read_local-entry, read-write}
use data_agent_demo.Engine.{Rc, ok_rc, not_found, error, TxnHandle, Engine, get, put}

-- The index leads from the key to a row at rest that has the key, and the transaction has no entry for it; `text`
-- is the text in its second column.
pub record Stored (env : Env) (t : Txn) (db : Database) (used : List Access) (key : Bytes)
    : Type 0 where
  pub item : Item
  pub row : Row
  pub idle : IsIdle db item.location row
  pub unvisited : find_pos row.primary_key t.record_pos ≡ none
  pub apart : All (λ a. a.orig_row ≢ some item.location) used
  pub found : index_read db (env.hash key) 0 ≡ ok (some item)
  pub keyed : HasKey row key
  pub text : Bytes
  pub reads : c_string (drop keyed.value_column.index row.data_bytes) ≡ ok text

-- The key is not in the index, or has such a row.
abbrev pub Lookup : Env → Txn → Database → List Access → Bytes → Type 0
Lookup env t db used key = (index_read db (env.hash key) 0 ≡ ok none) ⊎ Stored env t db used key

-- The answer to `get`, from the time of the last write of the row and its text, if there is one.
abbrev pub answer : ℕ → Bytes → Option (ℕ × Bytes) → Rc × Bytes
answer start_ts value_out none = (not_found, value_out)
answer start_ts value_out (some (wts, text)) =
    if ltb start_ts wts then (not_found, value_out) else (ok_rc, text)

abbrev pub content :
    {env : Env} {t : Txn} {db : Database} {used : List Access} {key : Bytes}
    → Lookup env t db used key
    → Option (ℕ × Bytes)
content (inl absent) = none
content (inr s) = some (s.idle.occ.wts, s.text)

-- the handle with another transaction
abbrev pub holding : TxnHandle → Txn → TxnHandle
holding h t = record h { impl = some t }

-- `put` of the value, and then `get` of the key, to a row that is `stale` or not.
abbrev pub PutsAndGets : Env → Engine → TxnHandle → Bytes → Bytes → Bytes → Bool → Type 0
PutsAndGets env e h key value value_out stale =
    (h₁ h₂ : TxnHandle) × (put env e h key value ≡ ok (if stale then error else ok_rc, h₁, e))
    × (get env e h₁ key value_out
        ≡ ok (
          if stale then not_found else ok_rc,
          if stale then value_out else take 1023 (c_str value),
          h₂,
          e,
        ))

-- `get` returns this answer, leaves the database as it is and its transaction open.
abbrev pub Gets : Env → Engine → TxnHandle → Bytes → Bytes → Rc × Bytes → Type 0
Gets env e h key value_out reply =
    (t' : Txn) × IsOpen t' e.db
    × (get env e h key value_out ≡ ok (reply.0, reply.1, holding h t', e))

-- `get` and `put` from what `Read` and `Write` return
module _ (env : Env) (e : Engine) (h : TxnHandle) (t : Txn) (opened : h.impl ≡ some t)
    (key : Bytes) where
  get-read :
      (value_out value : Bytes) (t' : Txn) (rc : System.Rc)
      → Ops.read env t e.db key value_out ≡ ok (rc, value, t', e.db)
      → get env e h key value_out
        ≡ ok (if System.rcok? rc then ok_rc else not_found, value, holding h t', e)
  unfolding get
  get-read value_out value t' rc eq = rw (opened, eq) refl

  put-write :
      (value : Bytes) (t' : Txn) (rc : System.Rc)
      → Ops.write env t e.db key value ≡ ok (rc, t', e.db)
      → put env e h key value ≡ ok (if System.rcok? rc then ok_rc else error, holding h t', e)
  unfolding put
  put-write value t' rc eq = rw (opened, eq) refl

-- `Read` and `Write` of a row that was written after the start, and `Read` of any other
module _ (env : Env) (t : Txn) (db : Database) (o : IsOpen t db) (room : t.row_cnt < 64)
    (key : Bytes) (s : Stored env t db o.used key) where
  abbrev refused_for : System.AccessType → Txn
  refused_for type = refused env t db type s.item.location s.row o s.idle room s.unvisited s.apart

  read-stale :
      (value_out : Bytes)
      → ltb t.start_ts s.idle.occ.wts ≡ true
      → Ops.read env t db key value_out ≡ ok (System.abort, value_out, refused_for rd, db)
  unfolding Ops.read read_row
  read-stale value_out stale =
      rw
        (
          s.found,
          get_row-refused env t db rd s.item.location s.row o s.idle room s.unvisited s.apart stale,
        )
        refl

  write-stale :
      (value : Bytes)
      → ltb t.start_ts s.idle.occ.wts ≡ true
      → Ops.write env t db key value ≡ ok (System.abort, refused_for wr, db)
  unfolding Ops.write write_old
  write-stale value stale =
      rw
        (
          s.found,
          get_row-refused env t db wr s.item.location s.row o s.idle room s.unvisited s.apart stale,
        )
        refl

  abbrev entered_for : Txn
  entered_for = entered env t db rd s.item.location s.row o s.idle room s.unvisited s.apart

  read-current :
      (value_out : Bytes)
      → ltb t.start_ts s.idle.occ.wts ≡ false
      → Ops.read env t db key value_out ≡ ok (System.rcok, s.text, entered_for, db)
  unfolding Ops.read read_row
  read-current value_out current =
      let keyed : HasKey (copy_of env s.row) key =
        HasKey-same s.row (copy_of env s.row) key (table-copy_of env s.row)
          (data_bytes-copy_of env s.row) s.keyed in
      rw
        (
          s.found,
          get_row-entered env t db rd s.item.location s.row o s.idle room s.unvisited s.apart
              current,
          read_local-entry entered_for o.used (drop 1 o.spare)
              (visited env rd s.item.location s.row) t.row_cnt
              (accesses-entered env t db rd s.item.location s.row o s.idle room s.unvisited s.apart)
              o.counted db key value_out (copy_of env s.row) refl keyed s.keyed.value_column s.text
              (ap (λ (table : Table). get_elem? table.schema.columns 1) (table-copy_of env s.row)
                ∙ s.keyed.second)
              (ap (λ bytes. c_string (drop s.keyed.value_column.index bytes))
                  (data_bytes-copy_of env s.row)
                ∙ s.reads),
        )
        refl

  -- a row that was refused can be asked for again
  abbrev stored_again : Stored env (refused_for wr) db o.used key
  stored_again = record {
    item = s.item;
    row = s.row;
    idle = s.idle;
    unvisited = s.unvisited;
    apart = s.apart;
    found = s.found;
    keyed = s.keyed;
    text = s.text;
    reads = s.reads;
  }

module _ (env : Env) (e : Engine) (h : TxnHandle) (t : Txn) (opened : h.impl ≡ some t)
    (o : IsOpen t e.db) (room : t.row_cnt < 64) (key : Bytes) where
  -- In an open transaction with room for another entry, `get` of a key answers NOT_FOUND when the index does not
  -- have the key, and just the same when it leads to a row of that key, at rest and not yet in the access set,
  -- that was written after the start of the transaction: a conflict looks like a missing key. For such a row that
  -- was not written since, `get` answers OK with the text in its second column, if that is terminated. In each
  -- case the database stays as it is and the transaction stays open. The key of a row has at most 127 bytes.
  pub get-answer :
      (value_out : Bytes) (seen : Lookup env t e.db o.used key)
      → Gets env e h key value_out (answer t.start_ts value_out (content seen))
  unfolding Ops.read System.rcok?
  get-answer value_out (inl absent) =
      (t, o, get-read env e h t opened key value_out value_out t System.abort (rw absent refl))
  get-answer value_out (inr s) = elim (Bool-cases (ltb t.start_ts s.idle.occ.wts)) [
    | inl stale ↦ (
      refused_for env t e.db o room key s rd,
      refused_open env t e.db rd s.item.location s.row o s.idle room s.unvisited s.apart,
      rw stale (
          get-read env e h t opened key value_out value_out (refused_for env t e.db o room key s rd)
            System.abort (read-stale env t e.db o room key s value_out stale)),
    )
    | inr current ↦ (
      entered_for env t e.db o room key s,
      entered_open env t e.db rd s.item.location s.row o s.idle room s.unvisited s.apart,
      rw current (
          get-read env e h t opened key value_out s.text (entered_for env t e.db o room key s)
            System.rcok (read-current env t e.db o room key s value_out current)),
    )
  ]

  -- In an open transaction with room for another entry, `put` of a key of at most 127 bytes, whose row has a
  -- terminated value, is at rest and not yet in the access set, answers ERROR when the row was written after the
  -- start of the transaction, and `get` of the key then answers NOT_FOUND; for a row that was not written since,
  -- `put` answers OK, and `get` of the key then answers OK with the value that was put, cut to 1023 bytes. Neither
  -- changes the database.
  pub put-get :
      (value value_out : Bytes) (s : Stored env t e.db o.used key)
      → PutsAndGets env e h key value value_out (ltb t.start_ts s.idle.occ.wts)
  unfolding System.rcok?
  put-get value value_out s = elim (Bool-cases (ltb t.start_ts s.idle.occ.wts)) [
    | inl stale ↦
        let refused_txn : Txn = refused_for env t e.db o room key s wr in
        let still : IsOpen refused_txn e.db =
          refused_open env t e.db wr s.item.location s.row o s.idle room s.unvisited s.apart in
        let s' : Stored env refused_txn e.db still.used key =
          stored_again env t e.db o room key s in
        rw stale (
          holding h refused_txn,
          holding h (refused_for env refused_txn e.db still room key s' rd),
          put-write env e h t opened key value refused_txn System.abort
              (write-stale env t e.db o room key s value stale),
          get-read env e (holding h refused_txn) refused_txn refl key value_out value_out
              (refused_for env refused_txn e.db still room key s' rd) System.abort
              (read-stale env refused_txn e.db still room key s' value_out stale),
        )
    | inr current ↦
        let (wrote, done, wrote_ok, read_ok) =
          read-write env t e.db key value value_out o s.item s.row s.idle room s.unvisited s.apart
            current s.found s.keyed in
        rw current (
          holding h wrote,
          holding h done,
          put-write env e h t opened key value wrote System.rcok wrote_ok,
          get-read env e (holding h wrote) wrote refl key value_out (take 1023 (c_str value)) done
              System.rcok read_ok,
        )
  ]
