-- ===== src/Txn/Accesses.antt =====
-- Access sets whose entries hold live rows, and what a pass over the rows of an access set changes.
use mathlib.Core.List.{Permᴰ}
use data_agent_demo.Prelude.{
  ℕ, ◌≡◌, ◌≢◌, refl, sym, ap, ◌∙◌, subst, Bool, some, List, [], ◌∷◌, length,
}
use data_agent_demo.Run.{ok}
use data_agent_demo.Row.{Row, RowOcc, get_tuple_size}
use data_agent_demo.Database.{Database, load, store}
use data_agent_demo.Database.Memory.{load-store_self, load-store_ne}
use data_agent_demo.Txn.{Access}

module _ {ℓ κ} {A : Type ℓ} where
  abbrev pub All : (A → Type κ) → List A → Type κ
  All P [] = Unit
  All P (x ∷ xs) = P x × All P xs

  pub All-perm : (P : A → Type κ) (xs ys : List A) → Permᴰ xs ys → All P xs → All P ys
  All-perm P xs ys Permᴰ.nil h = h
  All-perm P (a ∷ xs) (b ∷ ys) (Permᴰ.cons e s) h = (subst P e h.0, All-perm P xs ys s h.1)
  All-perm P xs ys (Permᴰ.swap e f) h = (subst P f h.1.0, (subst P e h.0, h.1.1))
  All-perm P xs zs (Permᴰ.trans {l₂ = ys} s u) h = All-perm P ys zs u (All-perm P xs ys s h)

  pub All-map : {P Q : A → Type κ} (f : (x : A) → P x → Q x) (xs : List A) → All P xs → All Q xs
  All-map f [] h = tt
  All-map f (x ∷ xs) h = (f x h.0, All-map f xs h.1)

-- Entry `a` is in use: it names a live row under a latch in the given state, and a copy of the row's size.
pub record Held (latched : Bool) (db : Database) (a : Access) : Type 0 where
  pub addr : ℕ
  pub row : Row
  pub occ : RowOcc
  pub copy : Row
  pub at : a.orig_row ≡ some addr
  pub there : load db addr ≡ ok row
  pub managed : row.manager ≡ some occ
  pub state : occ.latched ≡ latched
  pub copied : a.local ≡ some copy
  pub copy_sized : length copy.data_bytes ≡ get_tuple_size copy
  pub row_sized : length row.data_bytes ≡ get_tuple_size copy

-- No two entries name one row.
abbrev pub Apart : Access → List Access → Type 0
Apart a = All λ b. a.orig_row ≢ b.orig_row

abbrev pub Distinct : List Access → Type 0
Distinct [] = Unit {0}
Distinct (a ∷ rest) = Apart a rest × Distinct rest

pub Distinct-perm : (xs ys : List Access) → Permᴰ xs ys → Distinct xs → Distinct ys
Distinct-perm xs ys Permᴰ.nil h = h
Distinct-perm (a ∷ xs) (b ∷ ys) (Permᴰ.cons e s) h = (
  subst (λ c. Apart c ys) e (All-perm (λ b. a.orig_row ≢ b.orig_row) xs ys s h.0),
  Distinct-perm xs ys s h.1,
)
Distinct-perm xs ys (Permᴰ.swap {a = a} {b} {a'} {b'} {l} e f) h = (
  (
    λ same.
        h.0.0
          (ap (λ (c : Access). c.orig_row) e ∙ sym same ∙ ap (λ (c : Access). c.orig_row) (sym f)),
    subst (λ c. Apart c l) f h.1.0,
  ),
  (subst (λ c. Apart c l) e h.0.1, h.1.1),
)
Distinct-perm xs zs (Permᴰ.trans {l₂ = ys} s u) h = Distinct-perm ys zs u (Distinct-perm xs ys s h)

-- A store to the row of another entry leaves an entry held.
pub Held-store :
    {latched : Bool} (db : Database) (p : ℕ) (r r' : Row) (a : Access)
    → load db p ≡ ok r
    → a.orig_row ≢ some p
    → Held latched db a
    → Held latched (store db p r') a
Held-store db p r r' a there ne h = record {
  addr = h.addr;
  row = h.row;
  occ = h.occ;
  copy = h.copy;
  at = h.at;
  there = load-store_ne db p there h.addr r' (λ e. ne (h.at ∙ ap some (sym e))) ∙ h.there;
  managed = h.managed;
  state = h.state;
  copied = h.copied;
  copy_sized = h.copy_sized;
  row_sized = h.row_sized;
}

-- A pass over `accesses` applied `f` to the row of each entry, and changed no other row and nothing else.
pub record Changed (f : Access → Row → Row) (accesses : List Access) (db db' : Database)
    : Type 0 where
  pub rows :
      All
        (λ a. (p : ℕ) (r : Row) → a.orig_row ≡ some p → load db p ≡ ok r → load db' p ≡ ok (f a r))
        accesses
  pub others : (q : ℕ) → All (λ a. a.orig_row ≢ some q) accesses → load db' q ≡ load db q
  pub rest : record db' { rows = db.rows } ≡ db

pub Changed-nil : (f : Access → Row → Row) (db : Database) → Changed f [] db db
Changed-nil f db = record { rows = tt; others = λ q h. refl; rest = refl }

-- The first entry's row is stored, then a pass goes over the others.
pub Changed-cons :
    (f : Access → Row → Row) (a : Access) (accesses : List Access) (db db' : Database) (p : ℕ)
    (r : Row)
    → a.orig_row ≡ some p
    → load db p ≡ ok r
    → Apart a accesses
    → Changed f accesses (store db p (f a r)) db'
    → Changed f (a ∷ accesses) db db'
unfolding store
Changed-cons f a accesses db db' p r at there apart c = record {
  rows = (
    λ p' r' at' there'.
        let same : p ≡ p' = some_same p p' (sym at ∙ at') in
        let same_row : r ≡ r' = ok_same r r' (sym there ∙ (ap (load db) same ∙ there')) in
        ap (load db') (sym same)
        ∙ (c.others p (away p at)
            ∙ (load-store_self db p there (f a r) ∙ ap (λ x. ok (f a x)) same_row)),
    tail accesses apart c.rows,
  );
  others = λ q h. c.others q h.1 ∙ load-store_ne db p there q (f a r) (λ e. h.0 (at ∙ ap some e));
  rest = ap (λ (d : Database). record d { rows = db.rows }) c.rest;
}
  where
    some_same : (m n : ℕ) → some m ≡ some n → m ≡ n
    some_same m n e = cc

    ok_same : (x y : Row) → ok x ≡ ok y → x ≡ y
    ok_same x y e = cc

    away : (q : ℕ) → a.orig_row ≡ some q → All (λ b. b.orig_row ≢ some q) accesses
    away q e = All-map (λ b ne same. ne (e ∙ sym same)) accesses apart

    tail :
        (bs : List Access)
        → Apart a bs
        → All
            (λ b.
              (p' : ℕ) (r' : Row)
              → b.orig_row ≡ some p'
              → load (store db p (f a r)) p' ≡ ok r'
              → load db' p' ≡ ok (f b r'))
            bs
        → All
            (λ b.
              (p' : ℕ) (r' : Row)
              → b.orig_row ≡ some p'
              → load db p' ≡ ok r'
              → load db' p' ≡ ok (f b r'))
            bs
    tail [] h k = tt
    tail (b ∷ bs) h k = (
      λ p' r' e l.
          k.0 p' r' e
            (load-store_ne db p there p' (f a r) (λ q. h.0 (at ∙ (ap some q ∙ sym e))) ∙ l),
      tail bs h.1 k.1,
    )

-- The order in which a pass took the entries does not matter.
pub Changed-perm :
    (f : Access → Row → Row) (xs ys : List Access) (db db' : Database)
    → Permᴰ xs ys
    → Permᴰ ys xs
    → Changed f xs db db'
    → Changed f ys db db'
Changed-perm f xs ys db db' s u c = record {
  rows = All-perm _ xs ys s c.rows;
  others = λ q h. c.others q (All-perm (λ a. a.orig_row ≢ some q) ys xs u h);
  rest = c.rest;
}

-- Two passes, one after the other. The second goes over entries with the same rows.
pub Changed-compose :
    (f g : Access → Row → Row) (accesses : List Access) (db db₁ db₂ : Database)
    → Changed f accesses db db₁
    → Changed g accesses db₁ db₂
    → Changed (λ a r. g a (f a r)) accesses db db₂
Changed-compose f g accesses db db₁ db₂ c d = record {
  rows = both accesses c.rows d.rows;
  others = λ q h. d.others q h ∙ c.others q h;
  rest = ap (λ (x : Database). record x { rows = db.rows }) d.rest ∙ c.rest;
}
  where
    both :
        (as' : List Access)
        → All
            (λ a.
              (p : ℕ) (r : Row) → a.orig_row ≡ some p → load db p ≡ ok r → load db₁ p ≡ ok (f a r))
            as'
        → All
            (λ a.
              (p : ℕ) (r : Row) → a.orig_row ≡ some p → load db₁ p ≡ ok r → load db₂ p ≡ ok (g a r))
            as'
        → All
            (λ a.
              (p : ℕ) (r : Row)
              → a.orig_row ≡ some p
              → load db p ≡ ok r
              → load db₂ p ≡ ok (g a (f a r)))
            as'
    both [] h k = tt
    both (a ∷ as') h k = (λ p r e l. k.0 p (f a r) e (h.0 p r e l), both as' h.1 k.1)
