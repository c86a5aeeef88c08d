-- ===== src/Txn/Passes.antt =====
-- The loops of OptCC::validate and txn_man::cleanup end, and what they change.
use data_agent_demo.Prelude.{
  ℕ, zero, suc, ◌≤◌, ◌≡◌, ◌≢◌, inl, inr, refl, sym, ap, ◌∙◌, ◌↔◌, Bool, true, false, none, some,
  List, [], ◌∷◌, arith, length, take, ltb, Bool-cases, if◌then◌else◌,
}
use data_agent_demo.Run.{ok, ◌>>=◌}
use data_agent_demo.Row.{Row, RowOcc}
use data_agent_demo.Row.Occ
use data_agent_demo.Row.Occ.{latch, release, write}
use data_agent_demo.Database.{Database, load, store}
use data_agent_demo.Database.Memory.{load-store_ne}
use data_agent_demo.Txn.{Access}
use data_agent_demo.Txn.Validate.{orig, lock_rows}
use data_agent_demo.Txn.Accesses.{
  All, Held, Held-store, Apart, Distinct, Changed, Changed-nil, Changed-cons,
}

-- The row with the state of its latch set.
abbrev pub relatch : Bool → Row → Row
relatch b r = record r {
  manager = elim r.manager [ none ↦ none | some m ↦ some (record m { latched = b }) ];
}

-- No commit has written the entry's row after `ts`.
abbrev pub IsCurrent : ℕ → Database → Access → Type 0
IsCurrent ts db a =
    (p : ℕ) (r : Row) (m : RowOcc)
    → a.orig_row ≡ some p
    → load db p ≡ ok r
    → r.manager ≡ some m
    → m.wts ≤ ts

pub orig-Held :
    {b : Bool} (db : Database) (a : Access) (h : Held b db a) → orig db a ≡ ok (h.addr, h.row)
unfolding orig
orig-Held db a h = ground (arith, h.at, h.there)

pub latch_lem :
    (r : Row) (m : RowOcc) → r.manager ≡ some m → m.latched ≡ false → latch r ≡ ok (relatch true r)
unfolding latch
latch_lem r m e f = ground arith

pub validate_lem :
    (r : Row) (m : RowOcc) (ts : ℕ)
    → r.manager ≡ some m
    → Occ.validate (relatch true r) ts ≡ ok (if ltb ts m.wts then false else true)
unfolding Occ.validate
validate_lem r m ts e = ground arith

module _ (ts : ℕ) where
  IsCurrent-store :
      (db : Database) (p : ℕ) (r r' : Row) (a : Access)
      → load db p ≡ ok r
      → a.orig_row ≢ some p
      → (IsCurrent ts db a ↔ IsCurrent ts (store db p r') a)
  IsCurrent-store db p r r' a there ne =
      (λ c q s m e l. c q s m e (sym (same q e) ∙ l), λ c q s m e l. c q s m e (same q e ∙ l))
    where
      same : (q : ℕ) → a.orig_row ≡ some q → load (store db p r') q ≡ load db q
      same q e = load-store_ne db p there q r' (λ f. ne (e ∙ ap some (sym f)))

  -- one round of the latching loop
  lock_row :
      (db : Database) (a : Access) (rest : List Access) (h : Held false db a)
      → lock_rows ts (a ∷ rest) db ≡ (
          if ltb ts h.occ.wts then ok (false, 1, store db h.addr (relatch true h.row)) else (do
            (all, n, db') ← lock_rows ts rest (store db h.addr (relatch true h.row))
            ok (all, suc n, db')))
  unfolding lock_rows
  lock_row db a rest h =
      rw
        (
          orig-Held db a h,
          latch_lem h.row h.occ h.managed h.state,
          validate_lem h.row h.occ ts h.managed,
        )
        (elim (Bool-cases (ltb ts h.occ.wts)) [ inl e ↦ rw e refl | inr e ↦ rw e refl ])

pub All-take {ℓ κ} :
    {A : Type ℓ} (P : A → Type κ) (n : ℕ) (xs : List A) → All P xs → All P (take n xs)
All-take P zero xs h = tt
All-take P (suc n) [] h = tt
All-take P (suc n) (x ∷ xs) h = (h.0, All-take P n xs h.1)

-- The outcome of the latching loop over `accesses`.
pub record Locked (ts : ℕ) (accesses : List Access) (db : Database) : Type 0 where
  pub passed : Bool
  pub count : ℕ
  pub after : Database
  pub returns : lock_rows ts accesses db ≡ ok (passed, count, after)
  pub within : count ≤ length accesses
  pub all : passed ≡ true → count ≡ length accesses
  pub current : (passed ≡ true) ↔ All (IsCurrent ts db) accesses
  pub changed : Changed (λ _. relatch true) (take count accesses) db after

module _ (ts : ℕ) where
  IsCurrent-cons :
      (db : Database) (a : Access) (rest : List Access) (h : Held false db a)
      → Apart a rest
      → (All (IsCurrent ts db) rest
          ↔ All (IsCurrent ts (store db h.addr (relatch true h.row))) rest)
  IsCurrent-cons db a [] h apart = (λ c. c, λ c. c)
  IsCurrent-cons db a (b ∷ rest) h apart =
      let one =
        IsCurrent-store ts db h.addr h.row (relatch true h.row) b h.there
          (λ e. apart.0 (h.at ∙ sym e)) in
      let more = IsCurrent-cons db a rest h apart.1 in
      (λ c. (one.0 c.0, more.0 c.1), λ c. (one.1 c.0, more.1 c.1))

  IsCurrent-Held :
      (db : Database) (a : Access) (h : Held false db a)
      → (ltb ts h.occ.wts ≡ false) ↔ IsCurrent ts db a
  IsCurrent-Held db a h = (forth, back)
    where
      ok_same : (x y : Row) → ok x ≡ ok y → x ≡ y
      ok_same x y e = cc

      forth : ltb ts h.occ.wts ≡ false → IsCurrent ts db a
      forth f p r m e l k =
          let addr_same : h.addr ≡ p = cc (h.at) in
          let row_same : h.row ≡ r = ok_same h.row r (sym h.there ∙ (ap (load db) addr_same ∙ l)) in
          let occ_same : h.occ ≡ m = cc (h.managed) in
          ground (arith, ap (λ (o : RowOcc). o.wts) occ_same)

      back : IsCurrent ts db a → ltb ts h.occ.wts ≡ false
      back c = ground (arith, c h.addr h.row h.occ h.at h.there h.managed)

  Held-cons :
      (db : Database) (a : Access) (rest : List Access) (h : Held false db a) (r' : Row)
      → Apart a rest
      → All (Held false db) rest
      → All (Held false (store db h.addr r')) rest
  Held-cons db a [] h r' apart held = tt
  Held-cons db a (b ∷ rest) h r' apart held = (
    Held-store db h.addr h.row r' b h.there (λ e. apart.0 (h.at ∙ sym e)) held.0,
    Held-cons db a rest h r' apart.1 held.1,
  )

-- The latching loop always ends: it latches the rows up to the first that was written since `ts`, which
-- it latches too, and passes when there is none.
pub lock_rows-Locked :
    (ts : ℕ) (accesses : List Access) (db : Database)
    → All (Held false db) accesses
    → Distinct accesses
    → Locked ts accesses db
unfolding lock_rows
lock_rows-Locked ts [] db held apart = record {
  passed = true;
  count = 0;
  after = db;
  returns = refl;
  within = omega arith;
  all = λ _. refl;
  current = (λ _. tt, λ _. refl);
  changed = Changed-nil _ db;
}
lock_rows-Locked ts (a ∷ rest) db held apart = elim (Bool-cases (ltb ts held.0.occ.wts)) [
  | inl old ↦ stop old
  | inr new ↦ go new (
      lock_rows-Locked ts rest (store db held.0.addr (relatch true held.0.row))
        (Held-cons ts db a rest held.0 (relatch true held.0.row) apart.0 held.1) apart.1)
]
  where
    db₁ : Database
    db₁ = store db held.0.addr (relatch true held.0.row)

    one : Changed (λ _. relatch true) (a ∷ []) db db₁
    one =
        Changed-cons (λ _. relatch true) a [] db db₁ held.0.addr held.0.row held.0.at held.0.there
          tt (Changed-nil _ db₁)

    stop : ltb ts held.0.occ.wts ≡ true → Locked ts (a ∷ rest) db
    stop old = record {
      passed = false;
      count = 1;
      after = db₁;
      returns = lock_row ts db a rest held.0 ∙ rw old refl;
      within = omega arith;
      all = λ e. cc;
      current = (λ e. cc, λ c. cc (old, (IsCurrent-Held ts db a held.0).1 c.0));
      changed = one;
    }

    go : ltb ts held.0.occ.wts ≡ false → Locked ts rest db₁ → Locked ts (a ∷ rest) db
    go new later = record {
      passed = later.passed;
      count = suc later.count;
      after = later.after;
      returns = lock_row ts db a rest held.0 ∙ rw (new, later.returns) refl;
      within = omega (arith, later.within);
      all = λ e. ap suc (later.all e);
      current = (
        λ e. (
          (IsCurrent-Held ts db a held.0).0 new,
          (IsCurrent-cons ts db a rest held.0 apart.0).1 (later.current.0 e),
        ),
        λ c. later.current.1 ((IsCurrent-cons ts db a rest held.0 apart.0).0 c.1),
      );
      changed =
          Changed-cons (λ _. relatch true) a (take later.count rest) db later.after held.0.addr
            held.0.row held.0.at held.0.there (All-take _ later.count rest apart.0) later.changed;
    }
