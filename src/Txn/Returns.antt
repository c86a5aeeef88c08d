-- ===== src/Txn/Returns.antt =====
-- The loop of txn_man::cleanup that gives the copies back to their rows.
use mathlib.Core.List.{append_assoc}
use data_agent_demo.Prelude.{
  ℕ, zero, suc, ◌<◌, ◌≡◌, inl, inr, refl, sym, ap, ◌∙◌, subst, ◌&&◌, Bool, true, false, none, some,
  List, [], ◌∷◌, ◌++◌, map, arith, length, Bool-cases, if◌then◌else◌,
}
use data_agent_demo.Run.{ok}
use data_agent_demo.System.{rcok, abort, AccessType, xp}
use data_agent_demo.Row.{Row, RowOcc, get_tuple_size}
use data_agent_demo.Row.Fields.{copy_lem}
use data_agent_demo.Row.Occ.{write}
use data_agent_demo.Database.{Database, load, store}
use data_agent_demo.Database.Memory.{load-store_ne, store_same}
use data_agent_demo.Txn.{Access, wr?, return_row, return_rows}
use data_agent_demo.Txn.Accesses.{
  All, Held, Held-store, Apart, Distinct, Distinct-perm, Changed, Changed-nil, Changed-cons,
  Changed-perm,
}
use data_agent_demo.Txn.Ends.{snoc_view, get-snoc, set-snoc, snoc_perm, snoc_perm_back, All-append}

-- What a commit at time `ts` makes of the row of an entry: a written row takes the copy's bytes and the time.
abbrev pub install : ℕ → Access → Row → Row
install ts a r =
    if wr? a.type
    then elim a.local [
      | none ↦ r
      | some l ↦ record r {
        data_bytes = l.data_bytes;
        manager = elim r.manager [ none ↦ none | some m ↦ some (record m { wts = ts }) ];
      }
    ]
    else r

-- An entry whose copy was given back.
abbrev pub spent : Access → Access
spent a = record a { local = none }

write_lem :
    (r l : Row) (m : RowOcc) (ts : ℕ)
    → r.manager ≡ some m
    → m.wts < ts
    → length l.data_bytes ≡ get_tuple_size l
    → length r.data_bytes ≡ get_tuple_size l
    → write r l ts
      ≡ ok (record r { data_bytes = l.data_bytes; manager = some (record m { wts = ts }) })
unfolding write
write_lem r l m ts e lt h k = rw (copy_lem r l h k) (ground arith)

-- Giving the copy of an entry back, in a commit and in an abort.
module _ (db : Database) (a : Access) (h : Held true db a) where
  pub return_row_commit :
      (ts : ℕ)
      → h.occ.wts < ts
      → return_row db a.orig_row a.type a.local ts ≡ ok (store db h.addr (install ts a h.row))
  unfolding return_row
  return_row_commit ts lt = elim (Bool-cases (wr? a.type)) [
    | inl is_wr ↦
        rw
          (
            h.copied,
            h.at,
            is_wr,
            h.there,
            write_lem h.row h.copy h.occ ts h.managed lt h.copy_sized h.row_sized,
          )
          (ap
            (λ o. ok (
              store db h.addr (record h.row {
                data_bytes = h.copy.data_bytes;
                manager = elim o [ none ↦ none | some m ↦ some (record m { wts = ts }) ];
              })))
            (sym h.managed))
    | inr not_wr ↦ rw (h.copied, not_wr) (ap ok (sym (store_same db h.addr h.row h.there)))
  ]

-- The entry has a copy.
abbrev pub Copied : Access → Type 0
Copied a = (l : Row) × (a.local ≡ some l)

return_row_abort :
    (db : Database) (a : Access) (ts : ℕ)
    → Copied a
    → return_row db a.orig_row (if wr? a.type && true then xp else a.type) a.local ts ≡ ok db
unfolding return_row
return_row_abort db a ts (l, e) = elim (Bool-cases (wr? a.type)) [
  | inl is_wr ↦ rw (e, is_wr) refl
  | inr not_wr ↦ rw (e, not_wr) (rw not_wr refl)
]

-- The written rows were last written before `ts`.
abbrev pub IsBefore : ℕ → Database → Access → Type 0
IsBefore ts db a =
    (p : ℕ) (r : Row) (m : RowOcc)
    → a.orig_row ≡ some p
    → load db p ≡ ok r
    → r.manager ≡ some m
    → m.wts < ts

module _ (ts : ℕ) (db : Database) (x : Access) (h : Held true db x) where
  -- one round of the loop, at the last entry in use
  commit_round :
      (k : ℕ) (front spare : List Access)
      → length front ≡ k
      → IsBefore ts db x
      → return_rows rcok ts (suc k) (front ++ x ∷ spare) db
        ≡ return_rows rcok ts k (front ++ spent x ∷ spare) (store db h.addr (install ts x h.row))
  unfolding return_rows
  commit_round k front spare l before =
      rw
        (
          get-snoc front x spare k l,
          set-snoc front x (spent x) spare k l,
          plain (wr? x.type) x.type,
          return_row_commit db x h ts (before h.addr h.row h.occ h.at h.there h.managed),
        )
        refl
    where
      plain : (b : Bool) (type : AccessType) → (if b && false then xp else type) ≡ type
      plain true type = refl
      plain false type = refl

abort_round :
    (ts : ℕ) (db : Database) (x : Access) (k : ℕ) (front spare : List Access)
    → Copied x
    → length front ≡ k
    → return_rows abort ts (suc k) (front ++ x ∷ spare) db
      ≡ return_rows abort ts k (front ++ spent x ∷ spare) db
unfolding return_rows
abort_round ts db x k front spare h l =
    rw
      (get-snoc front x spare k l, set-snoc front x (spent x) spare k l, return_row_abort db x ts h)
      refl

spent_after :
    (front : List Access) (x : Access) (spare : List Access)
    → map spent front ++ spent x ∷ spare ≡ map spent (front ++ x ∷ []) ++ spare
spent_after [] x spare = refl
spent_after (a ∷ front) x spare = ap (◌∷◌ (spent a)) (spent_after front x spare)

-- What a store to the row of `x` keeps of the other entries.
module _ {b : Bool} (db : Database) (x : Access) (h : Held b db x) (r' : Row) where
  pub Held-others :
      (bs : List Access) → Apart x bs → All (Held b db) bs → All (Held b (store db h.addr r')) bs
  Held-others [] apart hs = tt
  Held-others (a ∷ bs) apart hs = (
    Held-store db h.addr h.row r' a h.there (λ e. apart.0 (h.at ∙ sym e)) hs.0,
    Held-others bs apart.1 hs.1,
  )

  IsBefore-others :
      (ts : ℕ) (bs : List Access)
      → Apart x bs
      → All (IsBefore ts db) bs
      → All (IsBefore ts (store db h.addr r')) bs
  IsBefore-others ts [] apart hs = tt
  IsBefore-others ts (a ∷ bs) apart hs = (
    λ q s m e l. hs.0 q s m e (
        sym (load-store_ne db h.addr h.there q r' (λ f. apart.0 (h.at ∙ (ap some f ∙ sym e)))) ∙ l),
    IsBefore-others ts bs apart.1 hs.1,
  )

-- `Installs` and `Drops`: what the loop of `cleanup` does to entries in use, in front of spare ones.
abbrev Installs : ℕ → ℕ → List Access → List Access → Database → Type 0
Installs ts k held spare db =
    (db' : Database) × (return_rows rcok ts k (held ++ spare) db
      ≡ ok (map spent held ++ spare, db'))
    × Changed (install ts) held db db'

install_last :
    (ts k : ℕ) (front : List Access) (x : Access) (spare : List Access) (db : Database)
    (h : Held true db x)
    → length front ≡ k
    → IsBefore ts db x
    → Apart x front
    → Installs ts k front (spent x ∷ spare) (store db h.addr (install ts x h.row))
    → Installs ts (suc k) (front ++ x ∷ []) spare db
install_last ts k front x spare db h l before apart (db', e, c) = (
  db',
  ap (λ (as' : List Access). return_rows rcok ts (suc k) as' db) (append_assoc front (x ∷ []) spare)
      ∙ (commit_round ts db x h k front spare l before
          ∙ (e ∙ ap (λ (as' : List Access). ok (as', db')) (spent_after front x spare))),
  Changed-perm (install ts) (x ∷ front) (front ++ x ∷ []) db db' (snoc_perm_back front x)
      (snoc_perm front x)
      (Changed-cons (install ts) x front db db' h.addr h.row h.at h.there apart c),
)

-- `cleanup`'s first loop in a commit installs every written copy, and takes every copy back.
pub return_rows_commit :
    (ts k : ℕ) (held spare : List Access) (db : Database)
    → length held ≡ k
    → All (Held true db) held
    → All (IsBefore ts db) held
    → Distinct held
    → Installs ts k held spare db
return_rows_commit ts zero [] spare db l h b d = (db, unfold return_rows in refl, Changed-nil _ db)
return_rows_commit ts zero (a ∷ held) spare db l h b d = absurd (omega arith)
return_rows_commit ts (suc k) held spare db l h b d =
    let (front, x, e, lf) = snoc_view k held l in
    let (hf, hx) = All-append (Held true db) front (x ∷ []) (subst (All (Held true db)) e h) in
    let (bf, bx) = All-append (IsBefore ts db) front (x ∷ []) (subst (All (IsBefore ts db)) e b) in
    let dx = Distinct-perm (front ++ x ∷ []) (x ∷ front) (snoc_perm front x) (subst Distinct e d) in
    let r' : Row = install ts x hx.0.row in
    subst (λ as'. Installs ts (suc k) as' spare db) (sym e)
      (install_last ts k front x spare db hx.0 lf bx.0 dx.0 (
        return_rows_commit ts k front (spent x ∷ spare) (store db hx.0.addr r') lf
          (Held-others db x hx.0 r' front dx.0 hf) (IsBefore-others db x hx.0 r' ts front dx.0 bf)
          dx.1))

-- In an abort the loop takes every copy back and leaves the database alone.
pub return_rows_abort :
    (ts k : ℕ) (held spare : List Access) (db : Database)
    → length held ≡ k
    → All Copied held
    → return_rows abort ts k (held ++ spare) db ≡ ok (map spent held ++ spare, db)
return_rows_abort ts zero [] spare db l h = unfold return_rows in refl
return_rows_abort ts zero (a ∷ held) spare db l h = absurd (omega arith)
return_rows_abort ts (suc k) held spare db l h =
    let (front, x, e, lf) = snoc_view k held l in
    let (hf, hx) = All-append Copied front (x ∷ []) (subst (All Copied) e h) in
    subst
      (λ (as' : List Access).
        return_rows abort ts (suc k) (as' ++ spare) db ≡ ok (map spent as' ++ spare, db))
      (sym e)
      (ap (λ (as' : List Access). return_rows abort ts (suc k) as' db)
          (append_assoc front (x ∷ []) spare)
        ∙ (abort_round ts db x k front spare hx.0 lf
            ∙ (return_rows_abort ts k front (spent x ∷ spare) db lf hf
                ∙ ap (λ (as' : List Access). ok (as', db)) (spent_after front x spare))))
