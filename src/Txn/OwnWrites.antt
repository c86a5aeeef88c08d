-- ===== src/Txn/OwnWrites.antt =====
-- Write and then Read of one key, in one transaction (Storage/System/txn.cpp).
use data_agent_demo.Prelude.{
  ℕ, ◌<◌, ◌≡◌, ◌≢◌, refl, ap, ◌∙◌, false, none, some, List, ◌∷◌, ◌++◌, arith, length, get_elem?,
  set, take, drop, ltb,
}
use data_agent_demo.Run.{ok}
use data_agent_demo.System.{rcok, wr, rd}
use data_agent_demo.Env.{Env}
use data_agent_demo.Bytes.{Bytes, c_str, c_string}
use data_agent_demo.Catalog.{Column}
use data_agent_demo.Row.{Row, get_schema}
use data_agent_demo.Txn.KeyRows.{
  HasKey, get_value_lem, HasKey-same, has_key_lem, set_value_second, valued-HasKey, c_string-valued,
  valued,
}
use data_agent_demo.Txn.Ops.{
  index_read, local_row, set_local, overwrite, update_local, write_old, write, read_local, read_row,
  read,
}
use data_agent_demo.IndexHash.{Item}
use data_agent_demo.Database.{Database}
use data_agent_demo.Txn.{Access, Txn, find_pos, get_row, revisit}
use data_agent_demo.Txn.Accesses.{All}
use data_agent_demo.Txn.Ends.{get-snoc, set-snoc}
use data_agent_demo.Txn.Opened.{IsOpen}
use data_agent_demo.Txn.Open.{visited, entered, accesses-entered, get_row-entered, second_visit}
use data_agent_demo.Txn.Copies.{IsIdle, copy_of, data_bytes-copy_of, table-copy_of}

find_pos_first : (key n : ℕ) (rest : List (ℕ × ℕ)) → find_pos key ((key, n) ∷ rest) ≡ some n
unfolding find_pos
find_pos_first key n rest = ground arith

-- A transaction with an entry behind those in front of it, at the place that its key has.
module _ (t : Txn) (front spare : List Access) (x : Access) (pos : ℕ)
    (at : t.accesses ≡ front ++ x ∷ spare) (behind : length front ≡ pos) where
  pub entry_lem : get_elem? t.accesses pos ≡ some x
  entry_lem = ap (λ as'. get_elem? as' pos) at ∙ get-snoc front x spare pos behind

  pub local_row-entry : (l : Row) → x.local ≡ some l → local_row t pos ≡ ok l
  unfolding local_row
  local_row-entry l has = rw (entry_lem, has) refl

  -- the transaction with another copy in the entry
  abbrev pub relocal : Row → Txn
  relocal l' = record t { accesses = set t.accesses pos (record x { local = some l' }) }

  pub set_local-entry : (l' : Row) → set_local t pos l' ≡ ok (relocal l')
  unfolding set_local
  set_local-entry l' = rw entry_lem refl

  accesses-relocal :
      (l' : Row) → (relocal l').accesses ≡ front ++ record x { local = some l' } ∷ spare
  accesses-relocal l' =
      ap (λ as'. set as' pos (record x { local = some l' })) at
      ∙ set-snoc front x (record x { local = some l' }) spare pos behind

  update_local-entry :
      (db : Database) (key value : Bytes) (l : Row)
      → x.local ≡ some l
      → (h : HasKey l key)
      → update_local t db pos key value ≡ ok (rcok, relocal (valued l key h value), db)
  unfolding update_local overwrite
  update_local-entry db key value l has h =
      rw
        (
          local_row-entry l has,
          has_key_lem l key h,
          set_value_second l key h value,
          set_local-entry (valued l key h value),
        )
        refl

  pub read_local-entry :
      (db : Database) (key value_out : Bytes) (l : Row)
      → x.local ≡ some l
      → HasKey l key
      → (c : Column) (value : Bytes) → get_elem? (get_schema l).columns 1 ≡ some c
      → c_string (drop c.index l.data_bytes) ≡ ok value
      → read_local t db pos key value_out ≡ ok (rcok, value, t, db)
  unfolding read_local
  read_local-entry db key value_out l has h c value second reads =
      rw (local_row-entry l has, has_key_lem l key h, get_value_lem l 1 c second, reads) refl

-- `Write` returns RCOK and leaves the database as it is; `Read` of the key then gives the value, cut to the 1023
-- bytes that the column has room for.
abbrev pub ReadsOwn : Env → Txn → Database → Bytes → Bytes → Bytes → Type 0
ReadsOwn env t db key value value_out =
    (wrote done : Txn) × (write env t db key value ≡ ok (rcok, wrote, db))
    × (read env wrote db key value_out ≡ ok (rcok, take 1023 (c_str value), done, db))

module _ (env : Env) (t : Txn) (db : Database) (key value value_out : Bytes) (o : IsOpen t db)
    (item : Item) (r : Row) (idle : IsIdle db item.location r) (room : t.row_cnt < 64)
    (fresh : find_pos r.primary_key t.record_pos ≡ none)
    (apart : All (λ a. a.orig_row ≢ some item.location) o.used)
    (current : ltb t.start_ts idle.occ.wts ≡ false)
    (found : index_read db (env.hash key) 0 ≡ ok (some item)) (keyed : HasKey r key) where
  copy_keyed : HasKey (copy_of env r) key
  copy_keyed =
      HasKey-same r (copy_of env r) key (table-copy_of env r) (data_bytes-copy_of env r) keyed

  -- the entry, the transaction with it, and the same with the value
  abbrev entry : Access
  entry = visited env wr item.location r

  abbrev has_entry : Txn
  has_entry = entered env t db wr item.location r o idle room fresh apart

  at_end : has_entry.accesses ≡ o.used ++ entry ∷ drop 1 o.spare
  at_end = accesses-entered env t db wr item.location r o idle room fresh apart

  abbrev new_copy : Row
  new_copy = valued (copy_of env r) key copy_keyed value

  abbrev filled : Access
  filled = record entry { local = some new_copy }

  abbrev wrote : Txn
  wrote = relocal has_entry o.used (drop 1 o.spare) entry t.row_cnt at_end o.counted new_copy

  wrote_at_end : wrote.accesses ≡ o.used ++ filled ∷ drop 1 o.spare
  wrote_at_end =
      accesses-relocal has_entry o.used (drop 1 o.spare) entry t.row_cnt at_end o.counted new_copy

  write-wrote : write env t db key value ≡ ok (rcok, wrote, db)
  unfolding write write_old
  write-wrote =
      rw
        (
          found,
          get_row-entered env t db wr item.location r o idle room fresh apart current,
          update_local-entry has_entry o.used (drop 1 o.spare) entry t.row_cnt at_end o.counted db
              key value (copy_of env r) refl copy_keyed,
        )
        refl

  -- the transaction after the second visit
  abbrev again : Txn
  again = record wrote { accesses = set wrote.accesses t.row_cnt filled }

  get_row-again : get_row env wrote db item.location rd ≡ ok (some t.row_cnt, again, db)
  unfolding revisit
  get_row-again =
      second_visit env wrote db rd item.location t.row_cnt r idle.there
        (find_pos_first r.primary_key t.row_cnt t.record_pos)
      ∙ visited_again
    where
      visited_again : revisit wrote db rd t.row_cnt ≡ ok (some t.row_cnt, again, db)
      visited_again =
          rw (entry_lem wrote o.used (drop 1 o.spare) filled t.row_cnt wrote_at_end o.counted) refl

  read-again : read env wrote db key value_out ≡ ok (rcok, take 1023 (c_str value), again, db)
  unfolding read read_row
  read-again =
      rw
        (
          found,
          get_row-again,
          read_local-entry again o.used (drop 1 o.spare) filled t.row_cnt
              (ap (λ as'. set as' t.row_cnt filled) wrote_at_end
                ∙ set-snoc o.used filled filled (drop 1 o.spare) t.row_cnt o.counted)
              o.counted db key value_out new_copy refl
              (valued-HasKey (copy_of env r) key copy_keyed value) copy_keyed.value_column
              (take 1023 (c_str value)) copy_keyed.second
              (c_string-valued (copy_of env r) key copy_keyed value),
        )
        refl

  -- A transaction reads its own writes: in an open transaction with room for another entry, `Write` of a key
  -- of at most 127 bytes whose row is idle, was not written after the start and has no entry yet returns RCOK
  -- without a change of the database, and `Read` of the key then returns RCOK and the value, cut to 1023
  -- bytes.
  pub read-write : ReadsOwn env t db key value value_out
  read-write = (wrote, again, write-wrote, read-again)
