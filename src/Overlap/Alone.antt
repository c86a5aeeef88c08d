-- ===== src/Overlap/Alone.antt =====
-- The steps of one thread alone, and the loops of OptCC::validate as the model of whole calls has them.
use data_agent_demo.Prelude.{
  ℕ, zero, suc, ◌+◌, ◌<◌, ◌≡◌, inl, inr, refl, sym, ap, ◌∙◌, subst, ◌&&◌, Bool, true, false, some,
  none, Option, List, [], ◌∷◌, arith, length, get_elem?, set, get_elem?-set_ne, if◌then◌else◌,
  Bool-cases,
}
use data_agent_demo.Run.{Fault, out_of_bounds, ok, or_fault, ◌>>=◌, >>=-eq-ok}
use data_agent_demo.System.{rcok, AccessType, xp}
use data_agent_demo.Row.{Row}
use data_agent_demo.Row.Occ
use data_agent_demo.Row.Occ.{latch, release}
use data_agent_demo.Database.{Database, store}
use data_agent_demo.Txn.{Access, wr?, return_row, return_rows}
use data_agent_demo.Txn.Validate.{orig, lock_rows, release_rows}
use data_agent_demo.World.Evolve.{ok_same}
use data_agent_demo.Overlap.{
  Phase, latching, installing, releasing, Worker, advance, latch_next, install_next, release_next,
}
use data_agent_demo.Overlap.Entries.{get-lt, get-set_cases}
use data_agent_demo.Overlap.Advance.{latching-inside, releasing-inside}

-- Steps of one thread, with no other between them.
pub data Alone (w : Worker) : Database → Phase → Database → Phase → Type 0 where
  stays : {db : Database} {phase : Phase} → Alone w db phase db phase
  goes :
      {db db₁ db₂ : Database} {phase phase₁ phase₂ : Phase}
      → advance db w phase ≡ ok (db₁, phase₁)
      → Alone w db₁ phase₁ db₂ phase₂
      → Alone w db phase db₂ phase₂

pub Alone-trans :
    {w : Worker} (db db₁ db₂ : Database) (phase phase₁ phase₂ : Phase)
    → Alone w db phase db₁ phase₁
    → Alone w db₁ phase₁ db₂ phase₂
    → Alone w db phase db₂ phase₂
Alone-trans db _ db₂ phase _ phase₂ stays rest = rest
Alone-trans db db₁ db₂ phase phase₁ phase₂ (goes {db₁ = d} {phase₁ = ph} e s) rest =
    goes e (Alone-trans d db₁ db₂ ph phase₁ phase₂ s rest)

or_fault-ok {ℓ} :
    {A : Type ℓ} (o : Option A) (why : Fault) (a : A) → or_fault o why ≡ ok a → o ≡ some a
or_fault-ok none why a e = cc e
or_fault-ok (some x) why a e = ap some (ok_same e)

-- where the latching loop ends
abbrev pub latched_to : Bool → ℕ → Phase
latched_to true count = latching count
latched_to false count = releasing 0 count

-- every entry of the first list names the row of one of the second
abbrev pub RowsOf : List Access → List Access → ℕ → Type 0
RowsOf xs ys n =
    (j : ℕ) (b : Access)
    → get_elem? xs j ≡ some b
    → j < n
    → (a : Access) × (get_elem? ys j ≡ some a) × (a.orig_row ≡ b.orig_row)

plain : (b : Bool) (type : AccessType) → (if b && false then xp else type) ≡ type
plain true type = refl
plain false type = refl

-- One round of the latching loop, from its parts.
latch_round :
    (w : Worker) (n : ℕ) (a : Access) (db : Database) (p : ℕ) (r r' : Row) (fine : Bool)
    → get_elem? w.entries n ≡ some a
    → orig db a ≡ ok (p, r)
    → latch r ≡ ok r'
    → Occ.validate r' w.start_ts ≡ ok fine
    → advance db w (latching n)
      ≡ ok (store db p r', if fine then latching (n + 1) else releasing 0 (n + 1))
unfolding latch_next
latch_round w n a db p r r' fine at found latched tested =
    latching-inside db w n (get-lt w.entries n a at) ∙ rw (at, found, latched, tested) refl

module _ (w : Worker) where
  pub lock_rows-Alone :
      (rest : List Access) (n m count : ℕ) (passed : Bool) (db db' : Database)
      → ((j : ℕ) (a : Access) → get_elem? rest j ≡ some a → get_elem? w.entries (n + j) ≡ some a)
      → m ≡ n + count
      → lock_rows w.start_ts rest db ≡ ok (passed, count, db')
      → Alone w db (latching n) db' (latched_to passed m) × (passed ≡ true → count ≡ length rest)
  unfolding lock_rows
  lock_rows-Alone [] n m count passed db db' agree e run =
      let same : ◌≡◌ {A = Bool × ℕ × Database} (true, 0, db) (passed, count, db') = ok_same run in
      (
        subst
            (λ (x : Bool × ℕ × Database).
              (k : ℕ) → k ≡ n + x.1 → Alone w db (latching n) x.2 (latched_to x.0 k))
            same
            (λ k f. subst (λ i. Alone w db (latching n) db (latching i)) (omega (arith, f)) stays) m
            e,
        λ _. ap (λ (x : Bool × ℕ × Database). x.1) (sym same),
      )
  lock_rows-Alone (a ∷ rest) n m count passed db db' agree e run =
      let ((p, r), found, f) = >>=-eq-ok (orig db a) _ run in
      let (r', latched, g) = >>=-eq-ok (latch r) _ f in
      let (fine, tested, h) = >>=-eq-ok (Occ.validate r' w.start_ts) _ g in
      let at : get_elem? w.entries n ≡ some a =
        subst (λ k. get_elem? w.entries k ≡ some a) (omega arith) (agree 0 a refl) in
      let round = latch_round w n a db p r r' fine at found latched tested in
      elim (Bool-cases fine) [
        | inr stale ↦
            let same : ◌≡◌ {A = Bool × ℕ × Database} (false, 1, store db p r')
                (passed, count, db') =
              ok_same (sym (rw stale refl) ∙ h) in
            (
              subst
                  (λ (x : Bool × ℕ × Database).
                    (k : ℕ) → k ≡ n + x.1 → Alone w db (latching n) x.2 (latched_to x.0 k))
                  same
                  (λ k f'.
                    subst (λ i. Alone w db (latching n) (store db p r') (releasing 0 i)) (sym f')
                      (goes (round ∙ rw stale refl) stays))
                  m e,
              λ yes'. cc (yes', ap (λ (x : Bool × ℕ × Database). x.0) same),
            )
        | inl current ↦
            let later : (do
              (all, k, db'') ← lock_rows w.start_ts rest (store db p r')
              ok (all, suc k, db''))
                ≡ ok (passed, count, db') =
              sym (rw current refl) ∙ h in
            let ((all, k, db''), inner, ends) =
              >>=-eq-ok (lock_rows w.start_ts rest (store db p r')) _ later in
            let same : ◌≡◌ {A = Bool × ℕ × Database} (all, suc k, db'') (passed, count, db') =
              ok_same ends in
            let counts : suc k ≡ count = ap (λ (x : Bool × ℕ × Database). x.1) same in
            let (tail, whole) =
              lock_rows-Alone rest (n + 1) m k all (store db p r') db''
                (λ j b at'.
                  subst (λ i. get_elem? w.entries i ≡ some b) (omega arith) (agree (suc j) b at'))
                (omega (arith, e, counts)) inner in
            (
              goes (round ∙ rw current refl) (
                  subst
                    (λ (x : Bool × ℕ × Database).
                      Alone w (store db p r') (latching (n + 1)) x.2 (latched_to x.0 m))
                    same tail),
              λ yes'.
                  omega (arith, counts, whole (ap (λ (x : Bool × ℕ × Database). x.0) same ∙ yes')),
            )
      ]

  pub return_rows-Alone :
      (rid n ts : ℕ) (accesses accesses' : List Access) (db db' : Database)
      → ((j : ℕ) (a : Access)
          → j < rid
          → get_elem? accesses j ≡ some a
          → get_elem? w.entries j ≡ some a)
      → RowsOf accesses w.entries n
      → return_rows rcok ts rid accesses db ≡ ok (accesses', db')
      → Alone w db (installing ts rid) db' (installing ts 0) × RowsOf accesses' w.entries n
  unfolding return_rows advance install_next
  return_rows-Alone zero n ts accesses accesses' db db' agree rows run =
      subst
        (λ (x : List Access × Database).
          Alone w db (installing ts 0) x.1 (installing ts 0) × RowsOf x.0 w.entries n)
        (ok_same run) (stays, rows)
  return_rows-Alone (suc rid) n ts accesses accesses' db db' agree rows run =
      let (acc, found, f) = >>=-eq-ok (or_fault (get_elem? accesses rid) out_of_bounds) _ run in
      let at : get_elem? accesses rid ≡ some acc =
        or_fault-ok (get_elem? accesses rid) out_of_bounds acc found in
      let here : get_elem? w.entries rid ≡ some acc = agree rid acc (omega arith) at in
      let (db₁, returned, g) =
        >>=-eq-ok
          (return_row db acc.orig_row (if wr? acc.type && false then xp else acc.type) acc.local ts)
          _ f in
      let returned' : return_row db acc.orig_row acc.type acc.local ts ≡ ok db₁ =
        subst (λ t. return_row db acc.orig_row t acc.local ts ≡ ok db₁)
          (plain (wr? acc.type) acc.type) returned in
      let round : advance db w (installing ts (suc rid)) ≡ ok (db₁, installing ts rid) =
        rw (here, returned') refl in
      let (tail, rows') =
        return_rows-Alone rid n ts (set accesses rid (record acc { local = none })) accesses' db₁
          db'
          (λ j a lt at'. agree j a (omega (arith, lt)) (
            sym (
              get_elem?-set_ne accesses (record acc { local = none })
                (λ same. omega (arith, lt, same)))
            ∙ at'))
          (λ j b at' lt.
            elim (get-set_cases accesses rid acc (record acc { local = none }) j b at at') [
              | inl (same, new) ↦
                  (acc, ap (get_elem? w.entries) same ∙ here, ap (λ (x : Access). x.orig_row) new)
              | inr (other, old) ↦ rows j b old lt
            ])
          g in
      (goes round tail, rows')

  pub release_rows-Alone :
      (n k m : ℕ) (accesses : List Access) (db db' : Database)
      → m ≡ k + n
      → ((j : ℕ) (b : Access)
          → get_elem? accesses j ≡ some b
          → j < n
          → (a : Access) × (get_elem? w.entries (k + j) ≡ some a) × (a.orig_row ≡ b.orig_row))
      → release_rows n accesses db ≡ ok db'
      → Alone w db (releasing k m) db' (releasing m m)
  unfolding release_rows release_next orig
  release_rows-Alone zero k m accesses db db' e rows run =
      subst (λ d. Alone w db (releasing k m) d (releasing m m)) (ok_same run)
        (subst (λ i. Alone w db (releasing i m) db (releasing m m)) (omega (arith, e)) stays)
  release_rows-Alone (suc n) k m [] db db' e rows run = cc run
  release_rows-Alone (suc n) k m (b ∷ rest) db db' e rows run =
      let ((p, r), found, f) = >>=-eq-ok (orig db b) _ run in
      let (r', released, g) = >>=-eq-ok (release r) _ f in
      let (a, at, same) = rows 0 b refl (omega arith) in
      let at' : get_elem? w.entries k ≡ some a =
        subst (λ i. get_elem? w.entries i ≡ some a) (omega arith) at in
      let found' : orig db a ≡ ok (p, r) = rw same found in
      let round : advance db w (releasing k m) ≡ ok (store db p r', releasing (k + 1) m) =
        releasing-inside db w k m (omega (arith, e)) ∙ rw (at', found', released) refl in
      goes round (
        release_rows-Alone n (k + 1) m rest (store db p r') db' (omega (arith, e))
          (λ j c at'' lt.
            let (x, x_at, x_row) = rows (suc j) c at'' (omega (arith, lt)) in
            (x, subst (λ i. get_elem? w.entries i ≡ some x) (omega arith) x_at, x_row))
          g)
